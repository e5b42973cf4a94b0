-- ===== src/Tests/Samples.antt =====
-- Pages, rows and keys for the runs.
use rust_db.Common.{ℕ, zero, suc, ◌≡◌, refl, List, [], ◌∷◌, true, false, ok, arith}
use rust_db.Common.Int.{pos}
use rust_db.Types.{PageId}
use rust_db.Schema.Values.{RowValue, ColumnType}
use rust_db.Schema.Key.{Key, key_of_value}
use rust_db.Schema.Row.{Row, key_of, fields_key}
use rust_db.Schema.Columns.{Column, Schema}
use rust_db.Schema.Validate.{IsEntry}
use rust_db.Page.{Page}
use rust_db.Page.Invariants.{IsValid, check_invariants}
use rust_db.Page.Invariants.Decides.{check_invariants-IsValid}
use rust_db.Tests.Leb128.{leb128}

abbrev pub page_number : ℕ → PageId
page_number n = record { table_id = 7; page_num = n }

abbrev pub sample_row : ℕ → Row
sample_row n = record { fields = RowValue.integer (pos n) ∷ RowValue.string (97 ∷ 98 ∷ []) ∷ [] }

abbrev pub sample_key : ℕ → Key
sample_key n = Key.integer (pos n)

abbrev pub sample_columns : List Column
sample_columns =
    record { name = 105 ∷ 100 ∷ []; col_type = ColumnType.integer; nullable = false }
    ∷ record { name = 110 ∷ []; col_type = ColumnType.string; nullable = true }
    ∷ []

abbrev pub sample_schema : Schema
sample_schema = record { columns = sample_columns }

-- Text of `n` bytes, and what holds it.
abbrev pub text : ℕ → List ℕ
text zero = []
text (suc n) = 97 ∷ text n

abbrev pub long_row : ℕ → Row
long_row n = record { fields = RowValue.integer (pos n) ∷ RowValue.string (text 800) ∷ [] }

abbrev pub long_key : ℕ → Key
long_key n = Key.string (n ∷ text 900)

-- A page that passes the check is valid.
abbrev pub checked : (p : Page) → check_invariants p ≡ ok tt → IsValid p
checked p = (check_invariants-IsValid p).0

pub sample_row-IsEntry_four : IsEntry (sample_row 4)
unfolding key_of fields_key key_of_value leb128
sample_row-IsEntry_four = record { keyed = refl; row_fits = omega arith; key_fits = omega arith }
