-- ===== src/PageError.antt =====
-- src/page/error.rs: what the operations on pages fail with.
use rust_db.Common.{ℕ, Option}
use rust_db.Types.{PageId, Range, IoError, LsnError}
use rust_db.Schema.Values.{RowValue, RowValueError}
use rust_db.Schema.Key.{Key, KeyError}
use rust_db.Schema.Columns.{SchemaError}

pub data CorruptionKind : Type 0 where
  invalid_tag : ℕ → CorruptionKind
  invalid_range : ℕ → Range → CorruptionKind
  corrupt_row corrupt_key : ℕ → CorruptionKind
  child_count_mismatch : ℕ → ℕ → CorruptionKind
  missing_key : CorruptionKind
  invalid_key : RowValue → CorruptionKind
  unsorted_keys : ℕ → CorruptionKind
  exceeds_capacity check_sum_mismatch invalid_pointer_tag : CorruptionKind
  overlapping_slots : ℕ → ℕ → CorruptionKind
  trailing_bytes too_many_items row_too_large key_too_large page_num_out_of_range :
      ℕ → CorruptionKind
  bad_schema : CorruptionKind
  table_name_too_long : ℕ → CorruptionKind

pub data BorrowFailReason : Type 0 where
  empty_borrow : PageId → BorrowFailReason
  keys_out_of_order : Key → BorrowFailReason
  pointer_mismatch : Option PageId → Option PageId → BorrowFailReason

pub data MergeFailReason : Type 0 where
  pointer_mismatch : Option PageId → Option PageId → MergeFailReason
  keys : MergeFailReason

pub data PageError : Type 0 where
  io : IoError → PageError
  lsn : LsnError → PageError
  value : RowValueError → PageError
  key : KeyError → PageError
  schema : SchemaError → PageError
  too_small_to_split : PageId → PageError
  page_full duplicate_key wrong_page_type invariant_violated : PageError
  corrupt : Option PageId → CorruptionKind → PageError
  invalid_merge : MergeFailReason → PageError
  invalid_borrow : BorrowFailReason → PageError
  stale_lsn_update : ℕ → ℕ → PageError
  missing_key : Key → Key → PageError
  key_not_in_order : Key → PageError
  not_free_list_head : Option PageId → PageId → PageError
  already_free page_out_of_range wrong_table : PageId → PageError
  reserved_page utf8 : PageError
