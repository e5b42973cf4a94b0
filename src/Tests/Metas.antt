-- ===== src/Tests/Metas.antt =====
-- The free list, run.
use rust_db.Common.{ℕ, ◌≡◌, refl, List, [], ◌∷◌, ok, Option, none, some, arith}
use rust_db.Types.{PageId}
use rust_db.Page.{Page, meta, free}
use rust_db.Page.Invariants.{IsValid, check_invariants}
use rust_db.Page.Meta.{free_list_push, meta_bump_page_count}
use rust_db.Page.Meta.FreeList.{PushCases, free_list_push-PushCases, bump-push}
use rust_db.Tests.Leb128.{leb128}
use rust_db.Tests.Samples.{page_number, sample_schema, checked}

abbrev table_name : List ℕ
table_name = 117 ∷ 115 ∷ 101 ∷ 114 ∷ 115 ∷ []

abbrev sample_meta : ℕ → Option PageId → Page
sample_meta count head = record {
  page_id = page_number 0;
  last_update = some 3;
  body = meta (page_number 1) count head sample_schema table_name;
}

abbrev free_page : PageId → Option PageId → Page
free_page id next = record { page_id = id; last_update = none; body = free next }

sample_meta-IsValid : IsValid (sample_meta 6 (some (page_number 4)))
unfolding check_invariants leb128
sample_meta-IsValid = checked (sample_meta 6 (some (page_number 4))) refl

free_list_push-PushCases_example :
    PushCases
      (page_number 0)
      (some 3)
      none
      (page_number 1)
      (some (page_number 4))
      sample_schema
      table_name
      6
      (page_number 5)
      none
free_list_push-PushCases_example =
    free_list_push-PushCases (page_number 0) (some 3) none (page_number 1) (some (page_number 4))
      sample_schema table_name 6 (page_number 5) none sample_meta-IsValid

bump-push_example :
    (id : PageId) × (meta_bump_page_count (sample_meta 6 (some (page_number 4)))
      ≡ ok (id, sample_meta 7 (some (page_number 4))))
    × (id.page_num ≡ 6)
    × (free_list_push (sample_meta 7 (some (page_number 4))) (free_page id none)
        ≡ ok (sample_meta 7 (some id), free_page id (some (page_number 4))))
bump-push_example =
    bump-push (page_number 0) (some 3) none (page_number 1) (some (page_number 4)) sample_schema
      table_name 6 none sample_meta-IsValid (omega arith) (omega arith)
