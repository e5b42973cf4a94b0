-- ===== src/Page/Meta.antt =====
-- src/page/meta.rs: the meta page of a table, and the list of free pages that starts in it.
pub mod FreeList
use rust_db.Common.{
  ℕ, ◌+◌, ◌^◌, ◌≡◌, ltb, ◌==◌, if◌then◌else◌, not, ◌&&◌, Outcome, ok, err, ◌>>=◌, ◌>>◌, require,
  expect, Option, none, some, arith,
}
use rust_db.Types.{Bytes, PageId, page_id_eq?}
use rust_db.PageError.{
  PageError, wrong_page_type, not_free_list_head, wrong_table, reserved_page, page_out_of_range,
  already_free,
}
use rust_db.Schema.Values.{VarInt}
use rust_db.Schema.Columns.{Schema}
use rust_db.Page.{Page, PageBody, leaf, internal, meta, free, is_meta, is_free}
use rust_db.Page.Invariants.{debug_check}

-- `let PageBody::Meta { .. } = &self.body else { return Err(WrongPageType) }`.
abbrev pub meta_parts : PageBody → Outcome PageError (PageId × ℕ × Option PageId × Schema × Bytes)
meta_parts (meta root_id page_count head schema name) = ok (root_id, page_count, head, schema, name)
meta_parts (leaf records next prev) = err wrong_page_type
meta_parts (internal ks children) = err wrong_page_type
meta_parts (free next) = err wrong_page_type

abbrev pub free_parts : PageBody → Outcome PageError (Option PageId)
free_parts (free next) = ok next
free_parts (meta root_id page_count head schema name) = err wrong_page_type
free_parts (leaf records next prev) = err wrong_page_type
free_parts (internal ks children) = err wrong_page_type

abbrev pub meta_get_root_id : Page → Outcome PageError PageId
meta_get_root_id p = meta_parts p.body >>= λ b. ok b.0

abbrev pub meta_set_root_id : Page → PageId → Outcome PageError Page
meta_set_root_id p id = do
  (root_id, page_count, head, schema, name) ← meta_parts p.body
  ok (record p { body = meta id page_count head schema name })

abbrev pub meta_get_page_count : Page → Outcome PageError ℕ
meta_get_page_count p = meta_parts p.body >>= λ b. ok b.1

abbrev pub meta_set_page_count : Page → ℕ → Outcome PageError Page
meta_set_page_count p new_count = do
  (root_id, page_count, head, schema, name) ← meta_parts p.body
  ok (record p { body = meta root_id new_count head schema name })

abbrev pub meta_get_schema : Page → Outcome PageError Schema
meta_get_schema p = meta_parts p.body >>= λ b. ok b.3

abbrev pub meta_get_table_name : Page → Outcome PageError Bytes
meta_get_table_name p = meta_parts p.body >>= λ b. ok b.4

abbrev pub meta_get_free_list_head : Page → Outcome PageError (Option PageId)
meta_get_free_list_head p = meta_parts p.body >>= λ b. ok b.2

-- `meta_set_free_list_head`: the old head, and the page.
abbrev pub meta_set_free_list_head : Page → Option PageId → Outcome PageError (Option PageId × Page)
meta_set_free_list_head p new_head = do
  (root_id, page_count, head, schema, name) ← meta_parts p.body
  ok (head, record p { body = meta root_id page_count new_head schema name })

-- `meta_bump_page_count`: the new page's id, and the page. The addition on `u32` is checked.
unfoldable pub meta_bump_page_count : Page → Outcome PageError (PageId × Page)
meta_bump_page_count p = do
  (root_id, page_count, head, schema, name) ← meta_parts p.body
  let new_page_id : PageId = record { table_id = root_id.table_id; page_num = page_count }
  expect (if ltb (page_count + 1) (2 ^ 32) then some tt else none)
  ok (new_page_id, record p { body = meta root_id (page_count + 1) head schema name })

abbrev pub free_next : Page → Outcome PageError (Option PageId)
free_next p = free_parts p.body

module _ ⦃v : VarInt⦄ where
  -- `free_list_pop`: the page's id, and the meta page.
  unfoldable pub free_list_pop : Page → Page → Outcome PageError (PageId × Page)
  free_list_pop p page = do
    require (is_free page && is_meta p) wrong_page_type
    (root_id, page_count, head, schema, name) ← meta_parts p.body
    require (page_id_eq? head (some page.page_id)) (not_free_list_head head page.page_id)
    next ← free_parts page.body
    let p' : Page = record p { body = meta root_id page_count next schema name }
    debug_check p'
    ok (page.page_id, p')

  -- `free_list_push`: the meta page, and the freed page.
  unfoldable pub free_list_push : Page → Page → Outcome PageError (Page × Page)
  free_list_push p freed = do
    require (is_meta p && is_free freed) wrong_page_type
    (root_id, page_count, head, schema, name) ← meta_parts p.body
    let id = freed.page_id
    require (id.table_id == root_id.table_id) (wrong_table id)
    require (not (id.page_num == 0)) reserved_page
    require (ltb id.page_num page_count) (page_out_of_range id)
    require (not (page_id_eq? head (some id))) (already_free id)
    let freed' : Page = record freed { body = free head }
    let p' : Page = record p { body = meta root_id page_count (some id) schema name }
    debug_check p'
    ok (p', freed')
