-- ===== src/Schema.antt =====
-- src/schema: values, keys, rows, columns and schemas, with their codecs and the validation of rows.
pub mod Values
pub mod Key
pub mod Row
pub mod Columns
pub mod Validate
