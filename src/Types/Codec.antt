-- ===== src/Types/Codec.antt =====
-- The codecs of src/types and of `Option` read back what they write.
use rust_db.Common.{
  ℕ, ◌^◌, ◌<◌, ◌≡◌, ◌≢◌, refl, [], ◌∷◌, ◌++◌, ok, Option, none, some, length-append, append_assoc,
  arith,
}
use rust_db.Common.Bytes.{to_be, from_be, read_exact, length-to_be, read_exact-append}
use rust_db.Types.{
  Bytes, IoError, PageId, IsPageId, SlotEntry, IsSlotEntry, Serializable, RoundTrips, read_buf,
  table_id_codec, page_id_codec, slot_entry_codec, lsn_codec, page_lsn_codec, option_codec, io,
}

pub from_be-to_be_1 : (n : ℕ) → n < 2 ^ 8 → from_be (to_be 1 n) ≡ n
unfolding from_be to_be
from_be-to_be_1 n h = omega arith

pub from_be-to_be_2 : (n : ℕ) → n < 2 ^ 16 → from_be (to_be 2 n) ≡ n
unfolding from_be to_be
from_be-to_be_2 n h = omega arith

pub from_be-to_be_4 : (n : ℕ) → n < 2 ^ 32 → from_be (to_be 4 n) ≡ n
unfolding from_be to_be
from_be-to_be_4 n h = omega arith

pub from_be-to_be_8 : (n : ℕ) → n < 2 ^ 64 → from_be (to_be 8 n) ≡ n
unfolding from_be to_be
from_be-to_be_8 n h = omega arith

-- `read_exact` of what `to_be` wrote.
pub read-to_be :
    {E : Type 0} (lift : IoError → E) (k n : ℕ) (rest : Bytes)
    → read_buf lift k (to_be k n ++ rest) ≡ ok (to_be k n, rest)
read-to_be lift k n rest = rw (read_k)
  where
    read_k : read_exact k (to_be k n ++ rest) ≡ some (to_be k n, rest)
    read_k = rw (length-to_be k n) at (read_exact-append (to_be k n) rest)

table_id-RoundTrips : (n : ℕ) → n < 2 ^ 32 → RoundTrips table_id_codec n
unfolding table_id_codec
table_id-RoundTrips n h = (
  to_be 4 n,
  refl,
  length-to_be 4 n,
  λ rest. rw (read-to_be (λ e. e) 4 n rest, from_be-to_be_4 n h),
)

-- A page id of two 32-bit numbers is written in `encoded_size` bytes, and reading them returns
-- the id and leaves what follows.
pub page_id-RoundTrips : (p : PageId) → IsPageId p → RoundTrips page_id_codec p
unfolding page_id_codec table_id_codec
page_id-RoundTrips p (ht, hp) = (
  to_be 4 p.table_id ++ to_be 4 p.page_num,
  refl,
  simp (length-append, length-to_be),
  λ rest. rw append_assoc (
      rw (
        read-to_be (λ e. e) 4 p.table_id (to_be 4 p.page_num ++ rest),
        read-to_be (λ e. e) 4 p.page_num rest,
        from_be-to_be_4 p.table_id ht,
        from_be-to_be_4 p.page_num hp,
      )),
)

-- A slot entry of two 16-bit numbers is written in `encoded_size` bytes, and reading them returns
-- the entry and leaves what follows.
pub slot_entry-RoundTrips : (s : SlotEntry) → IsSlotEntry s → RoundTrips slot_entry_codec s
unfolding slot_entry_codec
slot_entry-RoundTrips s (ho, hl) = (
  to_be 2 s.offset ++ to_be 2 s.length,
  refl,
  simp (length-append, length-to_be),
  λ rest. rw append_assoc (
      rw (
        read-to_be (λ e. e) 2 s.offset (to_be 2 s.length ++ rest),
        read-to_be (λ e. e) 2 s.length rest,
        from_be-to_be_2 s.offset ho,
        from_be-to_be_2 s.length hl,
      )),
)

pub lsn-RoundTrips : (n : ℕ) → n ≢ 0 → n < 2 ^ 64 → RoundTrips lsn_codec n
unfolding lsn_codec
lsn-RoundTrips n nz h = (
  to_be 8 n,
  refl,
  length-to_be 8 n,
  λ rest. rw (read-to_be io 8 n rest, from_be-to_be_8 n h) (ground arith),
)

-- The log sequence numbers that a page can hold.
abbrev pub IsPageLsn : Option ℕ → Type 0
IsPageLsn none = Unit
IsPageLsn (some n) = (n ≢ 0) × (n < 2 ^ 64)

-- A page's LSN, none or a positive 64-bit number, is written in `encoded_size` bytes, and reading
-- them returns it and leaves what follows.
pub page_lsn-RoundTrips : (l : Option ℕ) → IsPageLsn l → RoundTrips page_lsn_codec l
unfolding page_lsn_codec
page_lsn-RoundTrips none h = (
  to_be 8 0,
  refl,
  length-to_be 8 0,
  λ rest. rw (read-to_be io 8 0 rest, from_be-to_be_8 0 (omega arith)),
)
page_lsn-RoundTrips (some n) (nz, h) = (
  to_be 8 n,
  refl,
  length-to_be 8 n,
  λ rest. rw (read-to_be io 8 n rest, from_be-to_be_8 n h) (ground arith),
)

abbrev pub All? : {T : Type 0} → (T → Type 0) → Option T → Type 0
All? P none = Unit
All? P (some t) = P t

-- The tagged option reads back where its content does.
pub option-RoundTrips :
    {E T : Type 0} (s : Serializable E T) (lift : IoError → E) (o : Option T)
    → All? (RoundTrips s) o
    → RoundTrips (option_codec s lift) o
unfolding option_codec
option-RoundTrips s lift none h = (0 ∷ [], refl, refl, λ rest. unfold read_exact from_be in refl)
option-RoundTrips s lift (some t) (bs, e, n, d) =
    (1 ∷ bs, rw e, omega arith, λ rest. unfold read_exact from_be in (rw (d rest)))
