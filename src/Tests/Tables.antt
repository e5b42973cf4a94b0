-- ===== src/Tests/Tables.antt =====
-- The vacuum's leaves, run.
use rust_db.Common.{ℕ, ◌≡◌, refl, List, [], ◌∷◌, ok, none, inl, arith}
use rust_db.Schema.Validate.{ConformAll}
use rust_db.Page.{Page}
use rust_db.Page.Leaf.Search.{leaf_page}
use rust_db.Table.{Table}
use rust_db.Table.Pack.{build_leaves}
use rust_db.Table.Pack.Leaves.{Holds, empty_leaf-IsValid, build_leaves-Holds}
use rust_db.Tests.Leb128.{leb128}
use rust_db.Tests.Samples.{
  page_number, sample_row, sample_columns, sample_schema, sample_row-IsEntry_four,
}

abbrev packed_table : Table
packed_table = record { meta_id = page_number 0; schema = sample_schema; table_name = [] }

four_conforms : ConformAll sample_columns (sample_row 4).fields
four_conforms = (inl (refl, tt), (inl (refl, omega arith), tt))

build_leaves-Holds_example :
    (leaves : List Page) × (last_num : ℕ) × (build_leaves packed_table
        (leaf_page (page_number 1) none [] none none)
        2
        (sample_row 4 ∷ [])
      ≡ ok (leaves, last_num))
    × Holds leaves (sample_row 4 ∷ [])
build_leaves-Holds_example =
    build_leaves-Holds packed_table (page_number 1) [] 2 (sample_row 4 ∷ [])
      (empty_leaf-IsValid (page_number 1)) (four_conforms, tt) (sample_row-IsEntry_four, tt)
      (tt, tt) (omega arith)
