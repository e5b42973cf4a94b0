-- ===== src/Schema/Key.antt =====
-- src/schema/key.rs: the keys of rows, their derived order, and their codec through `RowValue`.
use rust_db.Common.{ℕ, ◌+◌, ◌≡◌, refl, ◌∙◌, Ordering, lt, eq, gt, Outcome, ok, err, ◌>>=◌, map_err}
use rust_db.Common.Int.{ℤ, cmp_ℤ}
use rust_db.Common.Order.{Ord, IsLawful, cmp_ℤ-IsLawful, cmp_bytes, cmp_bytes-IsLawful}
use rust_db.Types.{Bytes, Serializable, RoundTrips}
use rust_db.Schema.Values.{
  VarInt, RowValue, RowValueError, IsRowValue, value_codec, value_size, text_size,
}
use rust_db.Schema.Values.Codec.{IsStorable, value-RoundTrips}

pub data Key : Type 0 where
  integer : ℤ → Key
  string : Bytes → Key

pub data KeyError : Type 0 where
  not_orderable null_key bool_key : KeyError
  row_value : RowValueError → KeyError

-- The derived `Ord`: the variants in order of declaration, then the contents.
unfoldable pub cmp_key : Key → Key → Ordering
cmp_key (integer a) (integer b) = cmp_ℤ a b
cmp_key (integer a) (string t) = lt
cmp_key (string s) (integer b) = gt
cmp_key (string s) (string t) = cmp_bytes s t

key_self : (a : Key) → cmp_key a a ≡ eq
unfolding cmp_key
key_self (integer a) = cmp_ℤ-IsLawful.cmp_self a
key_self (string s) = cmp_bytes-IsLawful.cmp_self s

key_eq : (a b : Key) → cmp_key a b ≡ eq → a ≡ b
unfolding cmp_key
key_eq (integer a) (integer b) h = cc (cmp_ℤ-IsLawful.cmp_eq a b h)
key_eq (integer a) (string t) h = cc
key_eq (string s) (integer b) h = cc
key_eq (string s) (string t) h = cc (cmp_bytes-IsLawful.cmp_eq s t h)

key_gt : (a b : Key) → cmp_key a b ≡ gt → cmp_key b a ≡ lt
unfolding cmp_key
key_gt (integer a) (integer b) h = cmp_ℤ-IsLawful.cmp_gt a b h
key_gt (integer a) (string t) h = cc
key_gt (string s) (integer b) h = refl
key_gt (string s) (string t) h = cmp_bytes-IsLawful.cmp_gt s t h

key_lt : (a b : Key) → cmp_key a b ≡ lt → cmp_key b a ≡ gt
unfolding cmp_key
key_lt (integer a) (integer b) h = cmp_ℤ-IsLawful.cmp_lt a b h
key_lt (integer a) (string t) h = refl
key_lt (string s) (integer b) h = cc
key_lt (string s) (string t) h = cmp_bytes-IsLawful.cmp_lt s t h

key_trans : (a b c : Key) → cmp_key a b ≡ lt → cmp_key b c ≡ lt → cmp_key a c ≡ lt
unfolding cmp_key
key_trans (integer a) (integer b) (integer c) h k = cmp_ℤ-IsLawful.cmp_trans a b c h k
key_trans (integer a) (integer b) (string u) h k = refl
key_trans (integer a) (string t) (integer c) h k = cc
key_trans (integer a) (string t) (string u) h k = refl
key_trans (string s) (integer b) c h k = cc
key_trans (string s) (string t) (integer c) h k = cc
key_trans (string s) (string t) (string u) h k = cmp_bytes-IsLawful.cmp_trans s t u h k

-- The order of keys is a strict total order: equal exactly on equal keys, antisymmetric and
-- transitive.
pub cmp_key-IsLawful : IsLawful cmp_key
cmp_key-IsLawful = record {
  cmp_self = key_self;
  cmp_eq = key_eq;
  cmp_gt = key_gt;
  cmp_lt = key_lt;
  cmp_trans = key_trans;
}

instance unfoldable pub key_ord : Ord Key
key_ord = record { cmp = cmp_key; lawful = cmp_key-IsLawful }

-- `Key::try_from(&RowValue)`.
unfoldable pub key_of_value : RowValue → Outcome KeyError Key
key_of_value (RowValue.integer n) = ok (integer n)
key_of_value (RowValue.string s) = ok (string s)
key_of_value RowValue.null = err null_key
key_of_value (RowValue.float f) = err not_orderable
key_of_value (RowValue.boolean b) = err bool_key

-- `RowValue::from(Key)`.
unfoldable pub value_of_key : Key → RowValue
value_of_key (integer n) = RowValue.integer n
value_of_key (string s) = RowValue.string s

module _ ⦃v : VarInt⦄ where
  abbrev pub key_size : Key → ℕ
  key_size (integer n) = 1 + 8
  key_size (string s) = 1 + text_size s

  key_serialize : Key → Outcome KeyError Bytes
  unfolding value_of_key
  key_serialize k = map_err row_value (value_codec.serialize (value_of_key k))

  key_deserialize : Bytes → Outcome KeyError (Key × Bytes)
  key_deserialize bs = do
    (field, rest) ← map_err row_value (value_codec.deserialize bs)
    k ← key_of_value field
    ok (k, rest)

  -- `impl Serializable for Key`.
  unfoldable pub key_codec : Serializable KeyError Key
  unfolding key_serialize key_deserialize
  key_codec = record {
    serialize = key_serialize;
    deserialize = key_deserialize;
    encoded_size = key_size;
  }

  key_size-value_size : (k : Key) → value_size (value_of_key k) ≡ key_size k
  unfolding value_of_key
  key_size-value_size (integer n) = refl
  key_size-value_size (string s) = refl

  pub key_of_value-value_of_key : (k : Key) → key_of_value (value_of_key k) ≡ ok k
  unfolding key_of_value value_of_key
  key_of_value-value_of_key (integer n) = refl
  key_of_value-value_of_key (string s) = refl

  -- A key whose value is of its type and storable is written in `encoded_size` bytes, and reading
  -- them returns the key and leaves what follows.
  pub key-RoundTrips :
      (k : Key) → IsRowValue (value_of_key k) → IsStorable (value_of_key k) → RoundTrips key_codec k
  unfolding key_codec
  key-RoundTrips k h s =
      let (bs, e, n, d) = value-RoundTrips (value_of_key k) h s in
      (
        bs,
        rw e,
        n ∙ unfold value_codec in key_size-value_size k,
        λ rest. rw (d rest, key_of_value-value_of_key k),
      )
