-- ===== src/Schema/Values.antt =====
-- `RowValue` of src/schema/mod.rs and its codec. A `String` is the list of its UTF-8 bytes, and an
-- `f64` its bit pattern. The varint crate is the parameter `VarInt`.
pub mod Codec
use rust_db.Common.{
  ℕ, zero, suc, ◌+◌, ◌^◌, ◌<◌, ◌≤◌, ◌≡◌, ◌==◌, ltb, leb, if◌then◌else◌, Bool, true, false, ◌&&◌,
  not, [], ◌∷◌, ◌++◌, Outcome, ok, err, ◌>>=◌, ◌>>◌, require, map_err, Option, none, some, length,
  arith,
}
use rust_db.Common.Int.{ℤ, IsI64, i64_bits, i64_of_bits}
use rust_db.Common.Bytes.{to_be, from_be}
use rust_db.Types.{Bytes, IoError, Serializable, read_buf}
use rust_db.Layout.{max_field_len}

-- The crate `integer_encoding` for `usize`, which the program does not implement: the writer, the
-- reader and the size of an encoding, and what its documentation promises of them.
pub record VarInt : Type 0 where
  pub encode_var : ℕ → Bytes
  pub read_varint : Bytes → Outcome IoError (ℕ × Bytes)
  pub required_space : ℕ → ℕ
  pub length-encode_var : (n : ℕ) → n < 2 ^ 64 → length (encode_var n) ≡ required_space n
  pub read_varint-encode_var :
      (n : ℕ) (rest : Bytes) → n < 2 ^ 64 → read_varint (encode_var n ++ rest) ≡ ok (n, rest)
  pub required_space_pos : (n : ℕ) → 1 ≤ required_space n

pub data RowValueError : Type 0 where
  io : IoError → RowValueError
  unknown_tag : ℕ → RowValueError
  field_too_long : ℕ → RowValueError
  too_many_fields : ℕ → RowValueError
  invalid_bool : ℕ → RowValueError
  utf8 : RowValueError

pub data RowValue : Type 0 where
  integer : ℤ → RowValue
  float : ℕ → RowValue
  string : Bytes → RowValue
  boolean : Bool → RowValue
  null : RowValue

pub data ColumnType : Type 0 where
  integer float string bool : ColumnType

abbrev pub column_type : RowValue → Option ColumnType
column_type (float f) = some ColumnType.float
column_type (integer n) = some ColumnType.integer
column_type (string s) = some ColumnType.string
column_type (boolean b) = some ColumnType.bool
column_type null = none

abbrev pub null_flag : ℕ
null_flag = 0

abbrev pub int_flag : ℕ
int_flag = 1

abbrev pub float_flag : ℕ
float_flag = 2

abbrev pub string_flag : ℕ
string_flag = 3

abbrev pub bool_flag : ℕ
bool_flag = 4

-- UTF-8: how many bytes follow a leading byte, and the range of the first of them.
utf8_lead : ℕ → Option (ℕ × ℕ × ℕ)
utf8_lead b =
    if ltb b 0x80
    then some (0, 0x80, 0xbf)
    else if ltb b 0xc2
    then none
    else if ltb b 0xe0
    then some (1, 0x80, 0xbf)
    else if b == 0xe0
    then some (2, 0xa0, 0xbf)
    else if b == 0xed
    then some (2, 0x80, 0x9f)
    else if ltb b 0xf0
    then some (2, 0x80, 0xbf)
    else if b == 0xf0
    then some (3, 0x90, 0xbf)
    else if ltb b 0xf4
    then some (3, 0x80, 0xbf)
    else if b == 0xf4
    then some (3, 0x80, 0x8f)
    else none

utf8_from : ℕ → ℕ → ℕ → Bytes → Bool
utf8_from zero lo hi [] = true
utf8_from (suc n) lo hi [] = false
utf8_from zero lo hi (b ∷ bs) = elim (utf8_lead b) [
  | none ↦ false
  | some (n, lo', hi') ↦ utf8_from n lo' hi' bs
]
utf8_from (suc n) lo hi (b ∷ bs) =
    let rest = utf8_from n 0x80 0xbf bs in leb lo b && leb b hi && rest

-- The check of `String::from_utf8`.
unfoldable pub is_utf8 : Bytes → Bool
unfolding utf8_from utf8_lead
is_utf8 bs = utf8_from 0 0x80 0xbf bs

-- What every value of the Rust types satisfies: the ranges of `i64` and `f64`, and UTF-8 text that
-- is not longer than memory.
abbrev pub IsText : Bytes → Type 0
IsText s = (is_utf8 s ≡ true) × (length s < 2 ^ 64)

abbrev pub IsRowValue : RowValue → Type 0
IsRowValue (integer n) = IsI64 n
IsRowValue (float f) = f < 2 ^ 64
IsRowValue (string s) = IsText s
IsRowValue (boolean b) = Unit
IsRowValue null = Unit

module _ ⦃v : VarInt⦄ where
  -- The encoded size of a text with its length in front.
  abbrev pub text_size : Bytes → ℕ
  text_size s = v.required_space (length s) + length s

  abbrev pub value_size : RowValue → ℕ
  value_size (float f) = 1 + 8
  value_size (integer n) = 1 + 8
  value_size (boolean b) = 1 + 1
  value_size (string s) = 1 + text_size s
  value_size null = 1

  value_serialize : RowValue → Outcome RowValueError Bytes
  value_serialize (integer n) = ok (to_be 1 int_flag ++ to_be 8 (i64_bits n))
  value_serialize (float f) = ok (to_be 1 float_flag ++ to_be 8 f)
  value_serialize (string s) = do
    require (not (ltb max_field_len (length s))) (field_too_long (length s))
    ok (to_be 1 string_flag ++ (v.encode_var (length s) ++ s))
  value_serialize (boolean b) = ok (to_be 1 bool_flag ++ to_be 1 (if b then 1 else 0))
  value_serialize null = ok (to_be 1 null_flag)

  read_integer : Bytes → Outcome RowValueError (RowValue × Bytes)
  read_integer bs = do
    (buf, rest) ← read_buf io 8 bs
    ok (integer (i64_of_bits (from_be buf)), rest)

  read_float : Bytes → Outcome RowValueError (RowValue × Bytes)
  read_float bs = do (buf, rest) ← read_buf io 8 bs; ok (float (from_be buf), rest)

  -- `String::from_utf8(buf)?` after a `read_exact` of `len` bytes.
  abbrev pub read_text : {E : Type 0} → (IoError → E) → E → ℕ → Bytes → Outcome E (Bytes × Bytes)
  read_text lift bad len bs = do
    (s, rest) ← read_buf lift len bs
    require (is_utf8 s) bad
    ok (s, rest)

  read_string : Bytes → Outcome RowValueError (RowValue × Bytes)
  read_string bs = do
    (len, more) ← map_err io (v.read_varint bs)
    require (not (ltb max_field_len len)) (field_too_long len)
    (s, rest) ← read_text io utf8 len more
    ok (string s, rest)

  -- The byte of a boolean.
  abbrev pub bool_of_byte : {E : Type 0} → (ℕ → E) → ℕ → Outcome E Bool
  bool_of_byte bad b = if b == 0 then ok false else if b == 1 then ok true else err (bad b)

  read_boolean : Bytes → Outcome RowValueError (RowValue × Bytes)
  read_boolean bs = do
    (buf, rest) ← read_buf io 1 bs
    b ← bool_of_byte invalid_bool (from_be buf)
    ok (boolean b, rest)

  -- The match on the tag byte.
  read_tagged : ℕ → Bytes → Outcome RowValueError (RowValue × Bytes)
  unfolding read_integer read_float read_string read_boolean
  read_tagged tag bs =
      if tag == int_flag
      then read_integer bs
      else if tag == float_flag
      then read_float bs
      else if tag == string_flag
      then read_string bs
      else if tag == bool_flag
      then read_boolean bs
      else if tag == null_flag
      then ok (null, bs)
      else err (unknown_tag tag)

  value_deserialize : Bytes → Outcome RowValueError (RowValue × Bytes)
  unfolding read_tagged
  value_deserialize bs = do (one_buf, rest) ← read_buf io 1 bs; read_tagged (from_be one_buf) rest

  -- `impl Serializable for RowValue`.
  unfoldable pub value_codec : Serializable RowValueError RowValue
  unfolding value_serialize value_deserialize
  value_codec = record {
    serialize = value_serialize;
    deserialize = value_deserialize;
    encoded_size = value_size;
  }
