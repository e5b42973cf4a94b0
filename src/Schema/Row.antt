-- ===== src/Schema/Row.antt =====
-- `Row` of src/schema/mod.rs: its primary key, the comparison with a key, and its codec.
use rust_db.Common.{
  ℕ, zero, suc, ◌+◌, ◌%◌, ◌^◌, ◌≤◌, ◌≡◌, refl, Ordering, lt, gt, ltb, if◌then◌else◌, Bool, true,
  false, not, List, [], ◌∷◌, ◌++◌, Outcome, ok, err, panic, ◌>>=◌, ◌>>◌, require, length, All,
  sum_by, append_assoc, length-append, Option, none, some, arith,
}
use rust_db.Common.Int.{cmp_ℤ}
use rust_db.Common.Order.{cmp_bytes}
use rust_db.Common.Bytes.{to_be, from_be, length-to_be}
use rust_db.Types.{Bytes, Serializable, RoundTrips, read_buf, slot_entry_size, page_id_size}
use rust_db.Types.Codec.{read-to_be, from_be-to_be_1}
use rust_db.Layout.{max_num_fields}
use rust_db.Schema.Values.{
  VarInt, RowValue, RowValueError, io, too_many_fields, IsRowValue, value_codec, value_size,
}
use rust_db.Schema.Values.Codec.{IsStorable, value-RoundTrips}
use rust_db.Schema.Key.{Key, KeyError, key_of_value, cmp_key, key_ord, key_size}

pub record Row : Type 0 where
  pub fields : List RowValue

pub data RowError : Type 0 where
  empty_row invalid_first_entry : RowError

abbrev pub is_ok : {E A : Type 0} → Outcome E A → Bool
is_ok (ok a) = true
is_ok (err e) = false
is_ok panic = false

-- `Row::try_from(Vec<RowValue>)`.
row_of_fields : List RowValue → Outcome RowError Row
row_of_fields [] = err empty_row
row_of_fields (x ∷ xs) =
    if is_ok (key_of_value x) then ok (record { fields = x ∷ xs }) else err invalid_first_entry

-- The match in `Row::cmp_key`, on the first field.
unfoldable pub compare_fields : {E : Type 0} → List RowValue → Key → Outcome E Ordering
compare_fields (RowValue.integer a ∷ xs) (Key.integer b) = ok (cmp_ℤ a b)
compare_fields (RowValue.string a ∷ xs) (Key.string b) = ok (cmp_bytes a b)
compare_fields (RowValue.integer a ∷ xs) (Key.string b) = ok lt
compare_fields (RowValue.string a ∷ xs) (Key.integer b) = ok gt
compare_fields _ _ = panic

-- `Row::cmp_key`: a row with no valid key is a panic.
unfoldable pub row_cmp_key : {E : Type 0} → Row → Key → Outcome E Ordering
unfolding compare_fields
row_cmp_key r k = compare_fields r.fields k

-- `Key::try_from(r.fields.first())`, with `None` for a row that has no fields.
unfoldable pub fields_key : List RowValue → Option (Outcome KeyError Key)
fields_key [] = none
fields_key (x ∷ xs) = some (key_of_value x)

-- The row's key is `k`.
abbrev pub HasKey : Row → Key → Type 0
HasKey r k = fields_key r.fields ≡ some (ok k)

-- The key of a row that has one.
unfoldable pub key_of : Row → Key
key_of r = elim (fields_key r.fields) [
  | none ↦ Key.string []
  | some k ↦ elim k [ ok k ↦ k | _ ↦ Key.string [] ]
]

pub key_of-HasKey : (r : Row) (k : Key) → HasKey r k → key_of r ≡ k
unfolding key_of
key_of-HasKey r k h = rw (h, key_of)

compare_fields-key :
    {E : Type 0} (xs : List RowValue) (j k : Key)
    → fields_key xs ≡ some (ok j)
    → compare_fields {E = E} xs k ≡ ok (cmp_key j k)
unfolding compare_fields cmp_key fields_key key_of_value
compare_fields-key [] j k h = cc
compare_fields-key (RowValue.integer n ∷ xs) j (Key.integer b) h =
    let e : Key.integer n ≡ j = cc in rw (← e)
compare_fields-key (RowValue.integer n ∷ xs) j (Key.string b) h =
    let e : Key.integer n ≡ j = cc in rw (← e)
compare_fields-key (RowValue.string s ∷ xs) j (Key.integer b) h =
    let e : Key.string s ≡ j = cc in rw (← e)
compare_fields-key (RowValue.string s ∷ xs) j (Key.string b) h =
    let e : Key.string s ≡ j = cc in rw (← e)
compare_fields-key (RowValue.float f ∷ xs) j k h = absurd (ground arith)
compare_fields-key (RowValue.boolean b ∷ xs) j k h = absurd (ground arith)
compare_fields-key (RowValue.null ∷ xs) j k h = absurd (ground arith)

-- On a row with a key the comparison returns, and it is the order of keys.
pub row_cmp_key-HasKey :
    {E : Type 0} (r : Row) (j k : Key) → HasKey r j → row_cmp_key {E = E} r k ≡ ok (key_ord.cmp j k)
unfolding row_cmp_key key_ord
row_cmp_key-HasKey r j k h = compare_fields-key r.fields j k h

module _ ⦃v : VarInt⦄ where
  -- `Row::encoded_size`, `Page::leaf_entry_size` and `Page::internal_entry_size`.
  abbrev pub row_size : Row → ℕ
  row_size r = 1 + sum_by value_size r.fields

  abbrev pub leaf_entry_size : Row → ℕ
  leaf_entry_size r = row_size r + slot_entry_size

  abbrev pub internal_entry_size : Key → ℕ
  internal_entry_size k = key_size k + slot_entry_size + page_id_size

  serialize_fields : List RowValue → Outcome RowValueError Bytes
  serialize_fields [] = ok []
  serialize_fields (x ∷ xs) = do
    front ← value_codec.serialize x
    back ← serialize_fields xs
    ok (front ++ back)

  row_serialize : Row → Outcome RowValueError Bytes
  unfolding serialize_fields
  row_serialize r = do
    require (not (ltb max_num_fields (length r.fields))) (too_many_fields (length r.fields))
    back ← serialize_fields r.fields
    ok (to_be 1 (length r.fields % 2 ^ 8) ++ back)

  deserialize_fields : ℕ → Bytes → Outcome RowValueError (List RowValue × Bytes)
  deserialize_fields zero bs = ok ([], bs)
  deserialize_fields (suc n) bs = do
    (x, more) ← value_codec.deserialize bs
    (xs, rest) ← deserialize_fields n more
    ok (x ∷ xs, rest)

  row_deserialize : Bytes → Outcome RowValueError (Row × Bytes)
  unfolding deserialize_fields
  row_deserialize bs = do
    (num_fields_buf, more) ← read_buf io 1 bs
    let num_fields = from_be num_fields_buf
    require (not (ltb max_num_fields num_fields)) (too_many_fields num_fields)
    (fields, rest) ← deserialize_fields num_fields more
    ok (record { fields = fields }, rest)

  -- `impl Serializable for Row`.
  unfoldable pub row_codec : Serializable RowValueError Row
  unfolding row_serialize row_deserialize
  row_codec = record {
    serialize = row_serialize;
    deserialize = row_deserialize;
    encoded_size = row_size;
  }

  fields_round_trip :
      (xs : List RowValue)
      → All IsRowValue xs
      → All IsStorable xs
      → (bs : Bytes) × (serialize_fields xs ≡ ok bs)
        × (length bs ≡ sum_by value_size xs)
        × ((rest : Bytes) → deserialize_fields (length xs) (bs ++ rest) ≡ ok (xs, rest))
  unfolding serialize_fields deserialize_fields
  fields_round_trip [] h s = ([], refl, refl, λ rest. refl)
  fields_round_trip (x ∷ xs) h s =
      let (front, e, n, d) = value-RoundTrips x h.0 s.0 in
      let (back, e', n', d') = fields_round_trip xs h.1 s.1 in
      let written : length front ≡ value_size x = unfold value_codec in n in
      (
        front ++ back,
        rw (e, e'),
        rw length-append (omega arith),
        λ rest. rw (append_assoc, d (back ++ rest), d' rest),
      )

  -- A row of at most 255 values that are of their types and storable is written in `encoded_size`
  -- bytes, and reading them returns the row and leaves what follows.
  pub row-RoundTrips :
      (r : Row)
      → All IsRowValue r.fields
      → All IsStorable r.fields
      → length r.fields ≤ max_num_fields
      → RoundTrips row_codec r
  unfolding row_codec
  row-RoundTrips r h s small =
      let (bs, e, n, d) = fields_round_trip r.fields h s in
      let p : ltb max_num_fields (length r.fields) ≡ false = ground arith in
      let q : length r.fields % 2 ^ 8 ≡ length r.fields = omega arith in
      (
        to_be 1 (length r.fields) ++ bs,
        rw (p, q, e),
        rw (length-append, length-to_be) (omega arith),
        λ rest. rw (
          append_assoc,
          read-to_be io 1 (length r.fields) (bs ++ rest),
          from_be-to_be_1 (length r.fields) (omega arith),
          p,
          d rest,
        ),
      )
