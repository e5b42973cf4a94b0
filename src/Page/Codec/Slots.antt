-- ===== src/Page/Codec/Slots.antt =====
-- `read_slot_ranges` and `decode_slot` of src/page/mod.rs.
use rust_db.Common.{
  ℕ, zero, suc, ◌+◌, ◌-◌, ltb, leb, if◌then◌else◌, Bool, ◌||◌, List, [], ◌∷◌, Outcome, ok, err,
  panic, ◌>>=◌, ◌>>◌, length, take, drop,
}
use rust_db.Types.{Bytes, Range, Serializable, slot_entry_codec, range}
use rust_db.Layout.{page_size}
use rust_db.PageError.{CorruptionKind, invalid_range, overlapping_slots, trailing_bytes}

-- `count` entries from the cursor, with what follows.
unfoldable pub read_entries : {E : Type 0} → ℕ → Bytes → Outcome E (List Range × Bytes)
read_entries zero bs = ok ([], bs)
read_entries (suc n) bs = elim (slot_entry_codec.deserialize bs) [
  | ok (entry, rest) ↦ read_entries n rest >>= λ z. ok (range entry ∷ z.0, z.1)
  | err e ↦ panic
  | panic ↦ panic
]

-- A range that is empty, or not inside the data area.
abbrev pub is_bad_range : ℕ → Range → Bool
is_bad_range data_start r = leb r.end r.start || ltb r.start data_start || ltb page_size r.end

unfoldable pub check_ranges : ℕ → ℕ → List Range → Outcome CorruptionKind (Unit {0})
check_ranges data_start i [] = ok tt
check_ranges data_start i (r ∷ rs) =
    if is_bad_range data_start r
    then err (invalid_range i r)
    else check_ranges data_start (i + 1) rs

-- `enumerate` from an index on, and the stable `sort_by_key` on the start.
abbrev pub number_from : ℕ → List Range → List (ℕ × Range)
number_from i [] = []
number_from i (r ∷ rs) = (i, r) ∷ number_from (i + 1) rs

unfoldable pub insert_by_start : ℕ × Range → List (ℕ × Range) → List (ℕ × Range)
insert_by_start x [] = x ∷ []
insert_by_start x (y ∷ ys) =
    if leb x.1.start y.1.start then x ∷ y ∷ ys else y ∷ insert_by_start x ys

unfoldable pub sort_by_start : List (ℕ × Range) → List (ℕ × Range)
unfolding insert_by_start
sort_by_start [] = []
sort_by_start (x ∷ xs) = insert_by_start x (sort_by_start xs)

-- Each range must end before the next one begins.
unfoldable pub check_overlap : List (ℕ × Range) → Outcome CorruptionKind (Unit {0})
check_overlap [] = ok tt
check_overlap (x ∷ []) = ok tt
check_overlap (x ∷ y ∷ rest) =
    if ltb y.1.start x.1.end then err (overlapping_slots x.0 y.0) else check_overlap (y ∷ rest)

-- `read_slot_ranges`, on what follows the cursor: the data area starts where the entries end.
unfoldable pub read_slot_ranges : ℕ → Bytes → Outcome CorruptionKind (List Range)
unfolding read_entries check_ranges sort_by_start check_overlap
read_slot_ranges count bs = do
  (ranges, rest) ← read_entries count bs
  check_ranges (page_size - length rest) 0 ranges
  check_overlap (sort_by_start (number_from 0 ranges))
  ok ranges

abbrev pub slice : Bytes → Range → Bytes
slice buf r = take (r.end - r.start) (drop r.start buf)

-- `decode_slot`.
unfoldable pub decode_slot :
    {E T : Type 0} → Serializable E T → (ℕ → CorruptionKind) → ℕ → Bytes → Outcome CorruptionKind T
decode_slot codec decode_error slot bytes = elim (codec.deserialize bytes) [
  | ok (value, []) ↦ ok value
  | ok (value, b ∷ remaining) ↦ err (trailing_bytes slot)
  | err e ↦ err (decode_error slot)
  | panic ↦ panic
]

unfoldable pub decode_slots :
    {E T : Type 0}
    → Serializable E T
    → (ℕ → CorruptionKind)
    → Bytes
    → ℕ
    → List Range
    → Outcome CorruptionKind (List T)
unfolding decode_slot
decode_slots codec decode_error buf slot [] = ok []
decode_slots codec decode_error buf slot (r ∷ rs) = do
  value ← decode_slot codec decode_error slot (slice buf r)
  rest ← decode_slots codec decode_error buf (slot + 1) rs
  ok (value ∷ rest)
