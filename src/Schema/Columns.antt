-- ===== src/Schema/Columns.antt =====
-- `ColumnType`, `Column` and `Schema` of src/schema/mod.rs with their codecs.
use rust_db.Common.{
  ℕ, zero, suc, ◌+◌, ◌≤◌, ◌≡◌, refl, ltb, ◌==◌, if◌then◌else◌, Bool, true, false, not, List, [],
  ◌∷◌, ◌++◌, Outcome, ok, err, ◌>>=◌, ◌>>◌, require, map_err, length, All, sum_by, append_assoc,
  length-append, arith,
}
use rust_db.Common.Bytes.{to_be, from_be, read_exact}
use rust_db.Types.{Bytes, IoError, Serializable, RoundTrips, read_buf}
use rust_db.Layout.{max_num_fields, max_field_len}
use rust_db.Schema.Values.{
  VarInt, ColumnType, IsText, int_flag, float_flag, string_flag, bool_flag, read_text, bool_of_byte,
}
use rust_db.Schema.Values.Codec.{read_text-append}

pub data SchemaError : Type 0 where
  type_mismatch : ℕ → SchemaError
  column_count_mismatch : SchemaError
  null_value_in_non_null_col : ℕ → SchemaError
  nullable_primary_key non_ord_primary_key empty_columns too_many_columns : SchemaError
  row_too_long key_too_long field_too_long : ℕ → SchemaError
  invalid_key empty_column_name : SchemaError
  io : IoError → SchemaError
  tag_error invalid_bool : ℕ → SchemaError
  utf8 column_not_found nan_float parse_bool parse_int parse_float : SchemaError

abbrev pub is_valid_key : ColumnType → Bool
is_valid_key ColumnType.float = false
is_valid_key ColumnType.bool = false
is_valid_key ColumnType.integer = true
is_valid_key ColumnType.string = true

pub record Column : Type 0 where
  pub name : Bytes
  pub col_type : ColumnType
  pub nullable : Bool

-- The eight constructors that `column_constructors!` writes, one for each type and flag.
unfoldable pub column : ColumnType → Bool → Bytes → Outcome SchemaError Column
column t flag [] = err empty_column_name
column t flag (b ∷ bs) = ok (record { name = b ∷ bs; col_type = t; nullable = flag })

pub record Schema : Type 0 where
  pub columns : List Column

-- `Schema::try_from(Vec<Column>)`.
unfoldable pub schema_of_columns : List Column → Outcome SchemaError Schema
schema_of_columns [] = err empty_columns
schema_of_columns (c ∷ cs) = do
  require (is_valid_key c.col_type) non_ord_primary_key
  require (not c.nullable) nullable_primary_key
  require (not (ltb max_num_fields (length (c ∷ cs)))) too_many_columns
  ok (record { columns = c ∷ cs })

-- What a schema that was built satisfies.
abbrev pub IsSchemaColumns : List Column → Type 0
IsSchemaColumns [] = ⊥
IsSchemaColumns (c ∷ cs) =
    (is_valid_key c.col_type ≡ true) × (c.nullable ≡ false) × (length (c ∷ cs) ≤ max_num_fields)

column_count : (cs : List Column) → IsSchemaColumns cs → length cs ≤ max_num_fields
column_count [] h = absurd h
column_count (c ∷ cs) h = h.2

-- `try_from` accepts exactly these columns, and keeps them.
pub schema_of_columns-IsSchemaColumns :
    (cs : List Column) → IsSchemaColumns cs → schema_of_columns cs ≡ ok (record { columns = cs })
unfolding schema_of_columns
schema_of_columns-IsSchemaColumns [] h = absurd h
schema_of_columns-IsSchemaColumns (c ∷ cs) h = ground arith

-- A schema that `try_from` returns has the columns it was given, of which there are between 1 and
-- 255, and the first is of a type for keys and not nullable.
pub schema_of_columns_inv :
    (cs : List Column) (s : Schema)
    → schema_of_columns cs ≡ ok s
    → (s.columns ≡ cs) × IsSchemaColumns cs
unfolding schema_of_columns
schema_of_columns_inv [] s e = cc
schema_of_columns_inv (c ∷ cs) s e = ground arith

abbrev pub tag_of_type : ColumnType → ℕ
tag_of_type ColumnType.integer = int_flag
tag_of_type ColumnType.float = float_flag
tag_of_type ColumnType.string = string_flag
tag_of_type ColumnType.bool = bool_flag

type_of_tag : ℕ → Outcome SchemaError ColumnType
type_of_tag b =
    if b == int_flag
    then ok ColumnType.integer
    else if b == float_flag
    then ok ColumnType.float
    else if b == string_flag
    then ok ColumnType.string
    else if b == bool_flag
    then ok ColumnType.bool
    else err (tag_error b)

column_type_deserialize : Bytes → Outcome SchemaError (ColumnType × Bytes)
unfolding type_of_tag
column_type_deserialize bs = do
  (buf, rest) ← read_buf io 1 bs
  t ← type_of_tag (from_be buf)
  ok (t, rest)

-- `impl Serializable for ColumnType`.
unfoldable pub column_type_codec : Serializable SchemaError ColumnType
unfolding column_type_deserialize
column_type_codec = record {
  serialize = λ t. ok (tag_of_type t ∷ []);
  deserialize = column_type_deserialize;
  encoded_size = λ _. 1;
}

pub column_type-RoundTrips : (t : ColumnType) → RoundTrips column_type_codec t
unfolding column_type_codec to_be from_be read_exact
column_type-RoundTrips ColumnType.integer = (_, refl, refl, λ rest. refl)
column_type-RoundTrips ColumnType.float = (_, refl, refl, λ rest. refl)
column_type-RoundTrips ColumnType.string = (_, refl, refl, λ rest. refl)
column_type-RoundTrips ColumnType.bool = (_, refl, refl, λ rest. refl)

abbrev bit : Bool → ℕ
bit true = 1
bit false = 0

module _ ⦃v : VarInt⦄ where
  column_serialize : Column → Outcome SchemaError Bytes
  column_serialize c = do
    front ← column_type_codec.serialize c.col_type
    ok (front ++ (bit c.nullable ∷ (v.encode_var (length c.name) ++ c.name)))

  column_deserialize : Bytes → Outcome SchemaError (Column × Bytes)
  column_deserialize bs = do
    (col_type, more) ← column_type_codec.deserialize bs
    (buf_one, more2) ← read_buf io 1 more
    nullable ← bool_of_byte invalid_bool (from_be buf_one)
    (name_len, more3) ← map_err io (v.read_varint more2)
    require (not (ltb max_field_len name_len)) (field_too_long name_len)
    (name, rest) ← read_text io utf8 name_len more3
    ok (record { name = name; col_type = col_type; nullable = nullable }, rest)

  abbrev pub column_size : Column → ℕ
  column_size c = 1 + 1 + v.required_space (length c.name) + length c.name

  -- `impl Serializable for Column`.
  unfoldable pub column_codec : Serializable SchemaError Column
  unfolding column_serialize column_deserialize
  column_codec = record {
    serialize = column_serialize;
    deserialize = column_deserialize;
    encoded_size = column_size;
  }

  serialize_columns : List Column → Outcome SchemaError Bytes
  serialize_columns [] = ok []
  serialize_columns (c ∷ cs) = do
    front ← column_codec.serialize c
    back ← serialize_columns cs
    ok (front ++ back)

  deserialize_columns : ℕ → Bytes → Outcome SchemaError (List Column × Bytes)
  deserialize_columns zero bs = ok ([], bs)
  deserialize_columns (suc n) bs = do
    (c, more) ← column_codec.deserialize bs
    (cs, rest) ← deserialize_columns n more
    ok (c ∷ cs, rest)

  schema_serialize : Schema → Outcome SchemaError Bytes
  unfolding serialize_columns
  schema_serialize s = do
    back ← serialize_columns s.columns
    ok (v.encode_var (length s.columns) ++ back)

  schema_deserialize : Bytes → Outcome SchemaError (Schema × Bytes)
  unfolding deserialize_columns
  schema_deserialize bs = do
    (num_cols, more) ← map_err io (v.read_varint bs)
    require (not (ltb max_num_fields num_cols)) too_many_columns
    (columns, rest) ← deserialize_columns num_cols more
    s ← schema_of_columns columns
    ok (s, rest)

  abbrev pub schema_size : Schema → ℕ
  schema_size s = v.required_space (length s.columns) + sum_by column_size s.columns

  -- `impl Serializable for Schema`.
  unfoldable pub schema_codec : Serializable SchemaError Schema
  unfolding schema_serialize schema_deserialize
  schema_codec = record {
    serialize = schema_serialize;
    deserialize = schema_deserialize;
    encoded_size = schema_size;
  }

  -- Column names that are text of at most `MAX_FIELD_LEN` bytes read back.
  abbrev pub IsColumn : Column → Type 0
  IsColumn c = IsText c.name × (length c.name ≤ max_field_len)

  read_bit : (b : Bool) (rest : Bytes) → read_buf io 1 (bit b ∷ rest) ≡ ok (bit b ∷ [], rest)
  unfolding read_exact
  read_bit b rest = refl

  bool_of_bit : (b : Bool) → bool_of_byte invalid_bool (from_be (bit b ∷ [])) ≡ ok b
  unfolding from_be
  bool_of_bit true = refl
  bool_of_bit false = refl

  pub column-RoundTrips : (c : Column) → IsColumn c → RoundTrips column_codec c
  unfolding column_codec
  column-RoundTrips c ((u, wide), small) =
      let (front, e, n, d) = column_type-RoundTrips c.col_type in
      let p : ltb max_field_len (length c.name) ≡ false = ground arith in
      let one : length front ≡ 1 = unfold column_type_codec in n in
      (
        front ++ (bit c.nullable ∷ (v.encode_var (length c.name) ++ c.name)),
        rw e,
        simp (length-append, v.length-encode_var, one) (omega arith),
        λ rest. rw (
          append_assoc,
          d (bit c.nullable ∷ ((v.encode_var (length c.name) ++ c.name) ++ rest)),
          read_bit c.nullable ((v.encode_var (length c.name) ++ c.name) ++ rest),
          bool_of_bit c.nullable,
          append_assoc,
          v.read_varint-encode_var (length c.name) (c.name ++ rest) wide,
          p,
          read_text-append io utf8 c.name rest u,
        ),
      )

  columns_round_trip :
      (cs : List Column)
      → All IsColumn cs
      → (bs : Bytes) × (serialize_columns cs ≡ ok bs)
        × (length bs ≡ sum_by column_size cs)
        × ((rest : Bytes) → deserialize_columns (length cs) (bs ++ rest) ≡ ok (cs, rest))
  unfolding serialize_columns deserialize_columns
  columns_round_trip [] h = ([], refl, refl, λ rest. refl)
  columns_round_trip (c ∷ cs) h =
      let (front, e, n, d) = column-RoundTrips c h.0 in
      let (back, e', n', d') = columns_round_trip cs h.1 in
      let written : length front ≡ column_size c = unfold column_codec in n in
      (
        front ++ back,
        rw (e, e'),
        rw length-append (omega arith),
        λ rest. rw (append_assoc, d (back ++ rest), d' rest),
      )

  -- A schema whose columns `try_from` accepts and whose column names are texts within the length
  -- limit is written in `encoded_size` bytes, and reading them returns the schema and leaves what
  -- follows.
  pub schema-RoundTrips :
      (s : Schema) → IsSchemaColumns s.columns → All IsColumn s.columns → RoundTrips schema_codec s
  unfolding schema_codec
  schema-RoundTrips s h cols =
      let (bs, e, n, d) = columns_round_trip s.columns cols in
      let small : length s.columns ≤ max_num_fields = column_count s.columns h in
      let p : ltb max_num_fields (length s.columns) ≡ false = ground arith in
      (
        v.encode_var (length s.columns) ++ bs,
        rw e,
        rw (length-append, v.length-encode_var (length s.columns) (omega arith)) (omega arith),
        λ rest. rw (
          append_assoc,
          v.read_varint-encode_var (length s.columns) (bs ++ rest) (omega arith),
          p,
          d rest,
          schema_of_columns-IsSchemaColumns s.columns h,
        ),
      )
