-- ===== src/Tests/Encodings.antt =====
-- The codecs and the checks of the schema, run.
use rust_db.Common.{◌≡◌, ◌↔◌, refl, ok, inl, arith}
use rust_db.Common.Int.{negsuc}
use rust_db.Types.{RoundTrips}
use rust_db.Schema.Values.{is_utf8}
use rust_db.Schema.Key.{Key, key_codec, key-RoundTrips, key_of_value, value_of_key}
use rust_db.Schema.Row.{row_codec, row-RoundTrips}
use rust_db.Schema.Columns.{
  schema_codec, schema_of_columns, IsSchemaColumns, schema_of_columns_inv, schema-RoundTrips,
}
use rust_db.Schema.Validate.{
  validate_row, IsEntry, ConformAll, validate_row_sound, validate_row_complete,
}
use rust_db.Page.Invariants.{check_invariants, IsValid}
use rust_db.Page.Invariants.Decides.{check_invariants-IsValid}
use rust_db.Page.{empty_leaf}
use rust_db.Tests.Leb128.{leb128}
use rust_db.Tests.Samples.{
  page_number, sample_row, sample_columns, sample_schema, sample_row-IsEntry_four,
}

sample_row-ConformAll : ConformAll sample_columns (sample_row 4).fields
sample_row-ConformAll = (inl (refl, tt), (inl (refl, omega arith), tt))

check_invariants-IsValid_example :
    (check_invariants (empty_leaf (page_number 2)) ≡ ok tt) ↔ IsValid (empty_leaf (page_number 2))
check_invariants-IsValid_example = check_invariants-IsValid (empty_leaf (page_number 2))

validate_row_sound_example :
    (sample_row 4 ≡ sample_row 4)
    × ConformAll sample_columns (sample_row 4).fields
    × IsEntry (sample_row 4)
unfolding validate_row leb128 key_of_value
validate_row_sound_example = validate_row_sound sample_schema (sample_row 4) (sample_row 4) refl

validate_row_complete_example : validate_row sample_schema (sample_row 4) ≡ ok (sample_row 4)
validate_row_complete_example =
    validate_row_complete sample_schema (sample_row 4) sample_row-ConformAll sample_row-IsEntry_four

key-RoundTrips_example : RoundTrips key_codec (Key.integer (negsuc 4))
unfolding value_of_key
key-RoundTrips_example = key-RoundTrips (Key.integer (negsuc 4)) (omega arith) tt

row-RoundTrips_example : RoundTrips row_codec (sample_row 4)
unfolding is_utf8
row-RoundTrips_example =
    row-RoundTrips (sample_row 4) (omega arith, ((refl, omega arith), tt)) (tt, (omega arith, tt))
      (omega arith)

schema-RoundTrips_example : RoundTrips schema_codec sample_schema
unfolding is_utf8
schema-RoundTrips_example =
    schema-RoundTrips sample_schema (refl, refl, omega arith)
      (((refl, omega arith), omega arith), (((refl, omega arith), omega arith), tt))

schema_of_columns_inv_example :
    (sample_schema.columns ≡ sample_columns) × IsSchemaColumns sample_columns
unfolding schema_of_columns
schema_of_columns_inv_example = schema_of_columns_inv sample_columns sample_schema refl
