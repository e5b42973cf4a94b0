-- ===== src/Table/Pack.antt =====
-- What `Table::vacuum` of src/table/mod.rs builds in memory: the rows in new leaves, packed from the
-- left, and the levels of internal pages above them.
pub mod Leaves
use rust_db.Common.{
  ℕ, zero, suc, ◌+◌, ◌^◌, ltb, if◌then◌else◌, true, false, List, [], ◌∷◌, ◌++◌, length, first,
  Outcome, ok, panic, expect, map_err, ◌>>=◌, ◌>>◌, Option, none, some,
}
use rust_db.Types.{PageId}
use rust_db.PageError.{PageError}
use rust_db.Schema.Values.{VarInt}
use rust_db.Schema.Key.{Key}
use rust_db.Schema.Row.{Row}
use rust_db.Schema.Validate.{validate_row}
use rust_db.Page.{Page, internal, empty_page, empty_leaf, body_records}
use rust_db.Page.Meta.{meta_set_root_id, meta_set_page_count, meta_set_free_list_head}
use rust_db.Page.Leaf.{can_insert, leaf_insert, set_prev, set_next, stored_key}
use rust_db.Page.Internal.{can_insert_separator, internal_insert}
use rust_db.Table.{Table, TableError}

-- `get_page_id`.
abbrev pub get_page_id : Table → ℕ → PageId
get_page_id t page_num = record { table_id = t.meta_id.table_id; page_num = page_num }

-- `*page_num += 1` on `u32`, which is checked.
abbrev pub bump : {E : Type 0} → ℕ → Outcome E ℕ
bump n = if ltb (n + 1) (2 ^ 32) then ok (n + 1) else panic

-- The closure `new_leaf`, and `new_internal`: the page, and the next page number.
abbrev pub new_leaf : Table → ℕ → Outcome TableError (Page × ℕ)
new_leaf t n = bump n >>= λ n'. ok (empty_leaf (get_page_id t n), n')

abbrev pub new_internal : Table → ℕ → PageId → Outcome TableError (Page × ℕ)
new_internal t n right_child =
    bump n >>= λ n'. ok (empty_page (get_page_id t n) (internal [] (right_child ∷ [])), n')

-- `Table::first_key`.
abbrev pub first_key : Page → Outcome TableError Key
first_key p = do
  records ← expect (body_records p.body)
  row ← expect (first records)
  map_err TableError.page (stored_key row)

-- The pointers of a run of leaves: each to the one before and the one after it.
unfoldable pub link_leaves : Option PageId → List Page → Outcome TableError (List Page)
link_leaves prev [] = ok []
link_leaves prev (leaf ∷ leaves) = do
  with_prev ← map_err TableError.page (set_prev leaf prev)
  linked ←
      map_err TableError.page
        (set_next with_prev (elim leaves [ [] ↦ none | next ∷ more ↦ some next.page_id ]))
  rest ← link_leaves (some leaf.page_id) leaves
  ok (linked ∷ rest)

unfoldable pub low_keys : List Page → Outcome TableError (List (Key × PageId))
low_keys [] = ok []
low_keys (leaf ∷ leaves) = do
  k ← first_key leaf
  rest ← low_keys leaves
  ok ((k, leaf.page_id) ∷ rest)

module _ ⦃v : VarInt⦄ where
  -- A row goes into the leaf.
  abbrev pub insert_row : Table → Page → Row → Outcome TableError Page
  insert_row t p row = do
    validated ← map_err TableError.schema (validate_row t.schema row)
    map_err TableError.page (leaf_insert p validated)

  -- The loop over the rows: the leaves from the current one on, and the next page number.
  unfoldable pub build_leaves : Table → Page → ℕ → List Row → Outcome TableError (List Page × ℕ)
  build_leaves t curr_page n [] = ok (curr_page ∷ [], n)
  build_leaves t curr_page n (row ∷ rows) = elim (can_insert curr_page row) [
    | true ↦ insert_row t curr_page row >>= λ p. build_leaves t p n rows
    | false ↦ do
      (fresh, n') ← new_leaf t n
      p ← insert_row t fresh row
      (rest, last_num) ← build_leaves t p n' rows
      ok (curr_page ∷ rest, last_num)
  ]

  -- The loop of `build_internal_level` after its first child: the level above from the current page
  -- on, the pages, and the next page number.
  unfoldable pub fill_level :
      Table
      → Key
      → Page
      → ℕ
      → List (Key × PageId)
      → Outcome TableError (List (Key × PageId) × List Page × ℕ)
  fill_level t low_key page n [] = ok ((low_key, page.page_id) ∷ [], page ∷ [], n)
  fill_level t low_key page n ((key, child) ∷ children) = elim (can_insert_separator page key) [
    | true ↦ map_err TableError.page (internal_insert page key child) >>= λ p.
        fill_level t low_key p n children
    | false ↦ do
      (fresh, n') ← new_internal t n child
      (level, pages, last_num) ← fill_level t key fresh n' children
      ok ((low_key, page.page_id) ∷ level, page ∷ pages, last_num)
  ]

  unfoldable pub build_internal_level :
      Table → ℕ → List (Key × PageId) → Outcome TableError (List (Key × PageId) × List Page × ℕ)
  unfolding fill_level
  build_internal_level t n [] = panic
  build_internal_level t n ((low_key, first_child) ∷ children) =
      new_internal t n first_child >>= λ z. fill_level t low_key z.0 z.1 children

  -- The loop over the levels: the id at the top, the pages, and the next page number.
  unfoldable pub build_levels :
      ℕ → Table → ℕ → List (Key × PageId) → Outcome TableError (PageId × List Page × ℕ)
  unfolding build_internal_level
  build_levels fuel t n [] = panic
  build_levels fuel t n ((k, id) ∷ []) = ok (id, [], n)
  build_levels zero t n (a ∷ b ∷ level) = panic
  build_levels (suc fuel) t n (a ∷ b ∷ level) = do
    (above, pages, n') ← build_internal_level t n (a ∷ b ∷ level)
    (root_id, more, last_num) ← build_levels fuel t n' above
    ok (root_id, pages ++ more, last_num)

  -- What `vacuum` makes of the rows: the new root, the leaves, the internal pages and the number of
  -- pages. Each level is shorter than the one below it, so as many levels as leaves are enough.
  unfoldable pub packed : Table → List Row → Outcome TableError (PageId × List Page × List Page × ℕ)
  unfolding build_leaves link_leaves low_keys build_levels
  packed t rows = do
    (first_leaf, n) ← new_leaf t 1
    (leaves, n') ← build_leaves t first_leaf n rows
    linked ← link_leaves none leaves
    level ← low_keys linked
    (root_id, internals, last_num) ← build_levels (length linked) t n' level
    ok (root_id, linked, internals, last_num)

  -- The new meta page.
  abbrev pub packed_meta : Page → PageId → ℕ → Outcome PageError Page
  packed_meta p root_id page_count = do
    p' ← meta_set_root_id p root_id
    p'' ← meta_set_page_count p' page_count
    (old, p''') ← meta_set_free_list_head p'' none
    ok p'''
