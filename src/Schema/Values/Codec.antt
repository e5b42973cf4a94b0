-- ===== src/Schema/Values/Codec.antt =====
-- The codec of `RowValue` reads back what it writes.
use rust_db.Common.{
  ℕ, ◌<◌, ◌≤◌, ◌≡◌, refl, ltb, if◌then◌else◌, Bool, true, false, ◌++◌, ok, length, length-append,
  append_assoc, arith,
}
use rust_db.Common.Int.{i64_bits, i64_bits-lt, i64_of_bits-i64_bits}
use rust_db.Common.Bytes.{to_be, from_be, read_exact, length-to_be, read_exact-append}
use rust_db.Types.{Bytes, IoError, RoundTrips}
use rust_db.Types.Codec.{read-to_be, from_be-to_be_1, from_be-to_be_8}
use rust_db.Layout.{max_field_len}
use rust_db.Schema.Values.{
  VarInt, RowValue, integer, float, string, boolean, null, IsRowValue, IsText, value_codec,
  value_deserialize, read_tagged, read_boolean, read_string, RowValueError, is_utf8, read_text,
  text_size,
}

-- A text is at most this long in a row.
abbrev pub IsStorable : RowValue → Type 0
IsStorable (string s) = length s ≤ max_field_len
IsStorable (integer n) = Unit
IsStorable (float f) = Unit
IsStorable (boolean b) = Unit
IsStorable null = Unit

module _ ⦃v : VarInt⦄ where
  pub read_text-append :
      {E : Type 0} (lift : IoError → E) (bad : E) (s rest : Bytes)
      → is_utf8 s ≡ true
      → read_text lift bad (length s) (s ++ rest) ≡ ok (s, rest)
  read_text-append lift bad s rest u = rw (read_exact-append s rest, u)

  tagged :
      (t : ℕ) (rest : Bytes) → t < 256 → value_deserialize (to_be 1 t ++ rest) ≡ read_tagged t rest
  unfolding value_deserialize
  tagged t rest h = rw (read-to_be RowValueError.io 1 t rest, from_be-to_be_1 t h)

  -- What is written behind the length, read back after it.
  read_string-append :
      (s rest : Bytes)
      → IsText s
      → length s ≤ max_field_len
      → read_string ((v.encode_var (length s) ++ s) ++ rest) ≡ ok (string s, rest)
  unfolding read_string
  read_string-append s rest (u, small) h =
      let p : ltb max_field_len (length s) ≡ false = ground arith in
      rw (
        append_assoc,
        v.read_varint-encode_var (length s) (s ++ rest) small,
        p,
        read_exact-append s rest,
        u,
      )

  read_boolean-append :
      (b : Bool) (rest : Bytes)
      → read_boolean (to_be 1 (if b then 1 else 0) ++ rest) ≡ ok (boolean b, rest)
  unfolding read_boolean to_be from_be read_exact
  read_boolean-append true rest = refl
  read_boolean-append false rest = refl

  length-text : (s : Bytes) → IsText s → length (v.encode_var (length s) ++ s) ≡ text_size s
  length-text s t =
      omega (arith, length-append (v.encode_var (length s)) s, v.length-encode_var (length s) t.1)

  -- A value of its type that is storable is written in `encoded_size` bytes, and reading them
  -- returns the value and leaves what follows.
  pub value-RoundTrips : (x : RowValue) → IsRowValue x → IsStorable x → RoundTrips value_codec x
  unfolding value_codec
  value-RoundTrips (integer n) h k = (
    _,
    refl,
    simp (length-append, length-to_be),
    λ rest.
        rw (append_assoc, tagged 1 (to_be 8 (i64_bits n) ++ rest) (omega arith))
          (unfold read_tagged in
            rw (
              read-to_be RowValueError.io 8 (i64_bits n) rest,
              from_be-to_be_8 (i64_bits n) (i64_bits-lt n h),
              i64_of_bits-i64_bits n h,
            )),
  )
  value-RoundTrips (float f) h k = (
    _,
    refl,
    simp (length-append, length-to_be),
    λ rest.
        rw (append_assoc, tagged 2 (to_be 8 f ++ rest) (omega arith))
          (unfold read_tagged in rw (read-to_be RowValueError.io 8 f rest, from_be-to_be_8 f h)),
  )
  value-RoundTrips (string s) h k =
      let p : ltb max_field_len (length s) ≡ false = ground arith in
      (
        to_be 1 3 ++ (v.encode_var (length s) ++ s),
        rw p,
        rw (length-append, length-to_be, length-text s h),
        λ rest.
            rw (append_assoc, tagged 3 ((v.encode_var (length s) ++ s) ++ rest) (omega arith))
              (read_string-append s rest h k),
      )
  value-RoundTrips (boolean b) h k = (
    _,
    refl,
    simp (length-append, length-to_be),
    λ rest.
        rw (append_assoc, tagged 4 (to_be 1 (if b then 1 else 0) ++ rest) (omega arith))
          (read_boolean-append b rest),
  )
  value-RoundTrips null h k = (
    _,
    refl,
    length-to_be 1 0,
    λ rest. rw (tagged 0 rest (omega arith)) (unfold read_tagged in refl),
  )
