-- ===== src/Types.antt =====
-- src/types and src/traits.rs: the identifiers, slot entries and log sequence numbers, and the
-- trait `Serializable` over byte slices (a writer is the list of the bytes that it is given).
pub mod Codec
use rust_db.Common.{
  ℕ, ◌+◌, ◌%◌, ◌^◌, ◌<◌, ◌≡◌, ◌==◌, if◌then◌else◌, Bool, true, false, ◌&&◌, List, [], ◌∷◌, ◌++◌,
  Outcome, ok, err, ◌>>=◌, ok_or, unwrap, Option, none, some, length, arith,
}
use rust_db.Common.Bytes.{to_be, from_be, read_exact}

abbrev pub Bytes : Type 0
Bytes = List ℕ

-- The kinds of `std::io::Error` that the program tells apart or makes.
pub data IoError : Type 0 where
  unexpected_eof invalid_data not_found other : IoError

pub data LsnError : Type 0 where
  io : IoError → LsnError
  zero_lsn : LsnError

-- `PageId(TableId, u32)`.
pub record PageId : Type 0 where
  pub table_id : ℕ
  pub page_num : ℕ

abbrev pub IsPageId : PageId → Type 0
IsPageId p = (p.table_id < 2 ^ 32) × (p.page_num < 2 ^ 32)

-- The derived `==` on `PageId`, and on `Option<PageId>`.
abbrev pub page_id_eq : PageId → PageId → Bool
page_id_eq a b = a.table_id == b.table_id && a.page_num == b.page_num

abbrev pub page_id_eq? : Option PageId → Option PageId → Bool
page_id_eq? none none = true
page_id_eq? none (some b) = false
page_id_eq? (some a) none = false
page_id_eq? (some a) (some b) = page_id_eq a b

pub page_id_eq→eq : (a b : PageId) → page_id_eq a b ≡ true → a ≡ b
page_id_eq→eq a b h = ground arith

pub page_id_eq_self : (a : PageId) → page_id_eq a a ≡ true
page_id_eq_self a = ground arith

-- `PageId::wrapping_add`.
unfoldable pub wrapping_add : PageId → ℕ → PageId
wrapping_add p n = record { table_id = p.table_id; page_num = (p.page_num + n) % 2 ^ 32 }

pub record SlotEntry : Type 0 where
  pub offset : ℕ
  pub length : ℕ

abbrev pub IsSlotEntry : SlotEntry → Type 0
IsSlotEntry s = (s.offset < 2 ^ 16) × (s.length < 2 ^ 16)

-- `Range<usize>`.
pub record Range : Type 0 where
  pub start : ℕ
  pub end : ℕ

unfoldable pub range : SlotEntry → Range
range s = record { start = s.offset; end = s.offset + s.length }

abbrev pub slot_entry_size : ℕ
slot_entry_size = 4

abbrev pub page_id_size : ℕ
page_id_size = 8

-- `Lsn::new`: a number that is not 0.
unfoldable pub lsn_new : ℕ → Outcome LsnError ℕ
lsn_new id = if id == 0 then err zero_lsn else ok id

-- `r.read_exact(&mut [0u8; k])?`, under the error type that `From<io::Error>` reaches.
abbrev pub read_buf : {E : Type 0} → (IoError → E) → ℕ → Bytes → Outcome E (Bytes × Bytes)
read_buf lift k bs = ok_or (read_exact k bs) (lift unexpected_eof)

-- The trait `Serializable`, with the error type of the implementation.
pub record Serializable (E T : Type 0) : Type 0 where
  pub serialize : T → Outcome E Bytes
  pub deserialize : Bytes → Outcome E (T × Bytes)
  pub encoded_size : T → ℕ

-- What every implementation promises of the values of `Ok`: `serialize` succeeds, it writes
-- `encoded_size` bytes, and `deserialize` reads them back and leaves what follows.
abbrev pub RoundTrips : {E T : Type 0} → Serializable E T → T → Type 0
RoundTrips s t =
    (bs : Bytes) × (s.serialize t ≡ ok bs)
    × (length bs ≡ s.encoded_size t)
    × ((rest : Bytes) → s.deserialize (bs ++ rest) ≡ ok (t, rest))

-- An unsigned integer of `k` bytes.
abbrev pub be_codec : ℕ → Serializable IoError ℕ
be_codec k = record {
  serialize = λ n. ok (to_be k n);
  deserialize = λ bs. read_buf (λ e. e) k bs >>= λ p. ok (from_be p.0, p.1);
  encoded_size = λ _. k;
}

unfoldable pub table_id_codec : Serializable IoError ℕ
table_id_codec = be_codec 4

page_id_serialize : PageId → Outcome IoError Bytes
unfolding table_id_codec
page_id_serialize p = do
  front ← table_id_codec.serialize p.table_id
  ok (front ++ to_be 4 p.page_num)

page_id_deserialize : Bytes → Outcome IoError (PageId × Bytes)
unfolding table_id_codec
page_id_deserialize bs = do
  (table_id, more) ← table_id_codec.deserialize bs
  (page_buf, rest) ← read_buf (λ e. e) 4 more
  ok (record { table_id = table_id; page_num = from_be page_buf }, rest)

unfoldable pub page_id_codec : Serializable IoError PageId
unfolding page_id_serialize page_id_deserialize
page_id_codec = record {
  serialize = page_id_serialize;
  deserialize = page_id_deserialize;
  encoded_size = λ _. page_id_size;
}

slot_entry_deserialize : Bytes → Outcome IoError (SlotEntry × Bytes)
slot_entry_deserialize bs = do
  (offset_buf, more) ← read_buf (λ e. e) 2 bs
  (length_buf, rest) ← read_buf (λ e. e) 2 more
  ok (record { offset = from_be offset_buf; length = from_be length_buf }, rest)

unfoldable pub slot_entry_codec : Serializable IoError SlotEntry
unfolding slot_entry_deserialize
slot_entry_codec = record {
  serialize = λ s. ok (to_be 2 s.offset ++ to_be 2 s.length);
  deserialize = slot_entry_deserialize;
  encoded_size = λ _. slot_entry_size;
}

-- `impl Serializable for Lsn`.
unfoldable pub lsn_codec : Serializable LsnError ℕ
unfolding lsn_new
lsn_codec = record {
  serialize = λ n. ok (to_be 8 n);
  deserialize = λ bs. do
    (buf, rest) ← read_buf io 8 bs
    n ← lsn_new (from_be buf)
    ok (n, rest);
  encoded_size = λ _. 8;
}

-- `PageLsn(Option<Lsn>)`: 0 stands for `None`.
page_lsn_serialize : Option ℕ → Outcome LsnError Bytes
page_lsn_serialize (some n) = ok (to_be 8 n)
page_lsn_serialize none = ok (to_be 8 0)

page_lsn_deserialize : Bytes → Outcome LsnError (Option ℕ × Bytes)
unfolding lsn_new
page_lsn_deserialize bs = do
  (buf, rest) ← read_buf io 8 bs
  let val = from_be buf
  if val == 0 then ok (none, rest) else (unwrap (lsn_new val) >>= λ n. ok (some n, rest))

unfoldable pub page_lsn_codec : Serializable LsnError (Option ℕ)
unfolding page_lsn_serialize page_lsn_deserialize
page_lsn_codec = record {
  serialize = page_lsn_serialize;
  deserialize = page_lsn_deserialize;
  encoded_size = λ _. 8;
}

module _ {E T : Type 0} (s : Serializable E T) (lift : IoError → E) where
  option_serialize : Option T → Outcome E Bytes
  option_serialize (some v) = s.serialize v >>= λ bs. ok (1 ∷ bs)
  option_serialize none = ok (0 ∷ [])

  -- The match on the tag byte.
  option_tagged : ℕ → Bytes → Outcome E (Option T × Bytes)
  option_tagged tag bs =
      if tag == 0
      then ok (none, bs)
      else if tag == 1
      then (s.deserialize bs >>= λ p. ok (some p.0, p.1))
      else err (lift invalid_data)

  option_deserialize : Bytes → Outcome E (Option T × Bytes)
  unfolding option_tagged
  option_deserialize bs = do (tag, rest) ← read_buf lift 1 bs; option_tagged (from_be tag) rest

  option_size : Option T → ℕ
  option_size (some v) = s.encoded_size v + 1
  option_size none = 1

  -- `impl<T: Serializable> Serializable for Option<T>`.
  unfoldable pub option_codec : Serializable E (Option T)
  unfolding option_serialize option_deserialize option_size
  option_codec = record {
    serialize = option_serialize;
    deserialize = option_deserialize;
    encoded_size = option_size;
  }
