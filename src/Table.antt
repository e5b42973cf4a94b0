-- ===== src/Table.antt =====
-- src/table/mod.rs: what the tree asks of its table. The table reads and writes the meta page, and
-- hands out and takes back pages, through the buffer pool.
pub mod Rows
pub mod Pack
pub mod Vacuum
pub mod Space
use rust_db.Common.{ℕ, none, some, Outcome, map_err}
use rust_db.Common.Actions.{Action, pure, lift, convert, ◌>>=◌, ◌>>◌}
use rust_db.Types.{Bytes, PageId}
use rust_db.PageError.{PageError}
use rust_db.Schema.Values.{VarInt}
use rust_db.Schema.Columns.{Schema, SchemaError}
use rust_db.Page.{Page, free, empty_page}
use rust_db.Page.Meta.{
  meta_get_root_id, meta_set_root_id, meta_get_free_list_head, meta_bump_page_count, free_list_pop,
  free_list_push,
}
use rust_db.Bpm.Pool.{BpmError, Pool, write}

-- src/btree/error.rs.
pub data BTreeError : Type 0 where
  bpm : BpmError → BTreeError
  page : PageError → BTreeError

-- src/table/errors.rs.
pub data TableError : Type 0 where
  bpm : BpmError → TableError
  page : PageError → TableError
  schema : SchemaError → TableError
  btree : BTreeError → TableError
  already_exists : ℕ → TableError
  unexpected : TableError

pub record Table : Type 0 where
  pub meta_id : PageId
  pub schema : Schema
  pub table_name : Bytes

module _ {S : Type 0} ⦃pool : Pool S⦄ where
  -- `self.bpm.fetch_read(id)?` and `self.bpm.fetch_write(id)?`.
  abbrev pub fetch_page : PageId → Action S TableError Page
  fetch_page id = convert TableError.bpm (pool.fetch id)

  abbrev pub on_page : {A : Type 0} → Outcome PageError A → Action S TableError A
  on_page r = lift (map_err TableError.page r)

  -- `Table::root_id`.
  unfoldable pub root_id : Table → Action S TableError PageId
  root_id t = fetch_page t.meta_id >>= λ p. on_page (meta_get_root_id p)

  -- `Table::set_root_id`.
  unfoldable pub set_root_id : Table → PageId → Action S TableError (Unit {0})
  set_root_id t id =
      fetch_page t.meta_id >>= λ p. on_page (meta_set_root_id p id) >>= λ p'. write p'

  module _ ⦃v : VarInt⦄ where
    -- `Table::allocate`: a free page of the list, or a new one at the end of the file.
    unfoldable pub allocate : Table → Action S TableError Page
    allocate t = do
      meta_guard ← fetch_page t.meta_id
      head ← on_page (meta_get_free_list_head meta_guard)
      elim head [
        | some free_list_head ↦ do
          free_guard ← fetch_page free_list_head
          (id, meta') ← on_page (free_list_pop meta_guard free_guard)
          write meta'
          let taken : Page = empty_page free_guard.page_id (free none)
          write taken
          pure taken
        | none ↦ do
          (new_free_id, meta') ← on_page (meta_bump_page_count meta_guard)
          write meta'
          convert TableError.bpm (pool.new_page (empty_page new_free_id (free none)))
      ]

    -- `Table::free`: the page goes to the head of the free list.
    unfoldable pub free_page : Table → Page → Action S TableError (Unit {0})
    free_page t p = do
      meta_guard ← fetch_page t.meta_id
      (meta', freed) ← on_page (free_list_push meta_guard p)
      write meta'
      write freed
