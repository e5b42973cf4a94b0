-- ===== src/Table/Rows.antt =====
-- src/table/mod.rs: a table is created or opened, and its rows are read and changed through the
-- tree.
use rust_db.Common.{
  ℕ, ◌*◌, if◌then◌else◌, Bool, true, false, List, ok, err, panic, Option, none, map_err,
}
use rust_db.Common.Actions.{Action, pure, lift, convert, ◌>>=◌, ◌>>◌}
use rust_db.Types.{Bytes, PageId, unexpected_eof, not_found}
use rust_db.Layout.{page_size}
use rust_db.Schema.Values.{VarInt}
use rust_db.Schema.Key.{Key}
use rust_db.Schema.Row.{Row}
use rust_db.Schema.Columns.{Schema}
use rust_db.Schema.Validate.{validate_row}
use rust_db.Page.{meta, empty_page, empty_leaf}
use rust_db.Page.Meta.{meta_get_schema, meta_get_table_name, meta_get_page_count}
use rust_db.Bpm.Pool.{BpmError, Pool}
use rust_db.Table.{Table, TableError, fetch_page, on_page}
use rust_db.Table.Space.{check_space_accounting}
use rust_db.Btree.Tree
use rust_db.Btree.Insert
use rust_db.Btree.Delete
use rust_db.Btree.Range

-- The errors of a fetch that mean that there is no table yet.
abbrev pub is_missing : BpmError → Bool
is_missing (BpmError.io unexpected_eof) = true
is_missing (BpmError.io not_found) = true
is_missing _ = false

module _ {S : Type 0} ⦃pool : Pool S⦄ where
  -- `Table::open`.
  unfoldable pub open_table : ℕ → Action S TableError Table
  open_table table_id = do
    guard ← fetch_page (record { table_id = table_id; page_num = 0 })
    schema ← on_page (meta_get_schema guard)
    name ← on_page (meta_get_table_name guard)
    pure (record { meta_id = guard.page_id; schema = schema; table_name = name })

  -- The `match` of `create` on the first fetch.
  unfoldable pub require_missing : ℕ → Action S TableError (Unit {0})
  require_missing table_id s =
      let (r, t) = pool.fetch (record { table_id = table_id; page_num = 0 }) s in
      elim r [
        | ok p ↦ (err (TableError.already_exists table_id), t)
        | err e ↦ if is_missing e then (ok tt, t) else (err (TableError.bpm e), t)
        | panic ↦ (panic, t)
      ]

  -- `Table::create`.
  unfoldable pub create : ℕ → Schema → Bytes → Action S TableError Table
  unfolding require_missing
  create table_id schema name = do
    let meta_id : PageId = record { table_id = table_id; page_num = 0 }
    let root_id : PageId = record { table_id = table_id; page_num = 1 }
    require_missing table_id
    leaf_root ← convert TableError.bpm (pool.new_page (empty_leaf root_id))
    meta_page ←
        convert TableError.bpm
          (pool.new_page (empty_page meta_id (meta root_id 2 none schema name)))
    convert TableError.bpm pool.flush_all
    let table : Table = record { meta_id = meta_id; schema = schema; table_name = name }
    check_space_accounting table
    pure table

  -- `Table::get`, `Table::get_all` and `Table::size`.
  unfoldable pub get : ℕ → Table → Key → Action S TableError (Option Row)
  get fuel t key = convert TableError.btree (Tree.get fuel t key)

  unfoldable pub get_all : ℕ → ℕ → Table → (Row → Bool) → Action S TableError (List Row)
  get_all fuel leaves t filter_fn = convert TableError.btree (Range.get_all fuel leaves t filter_fn)

  unfoldable pub size : Table → Action S TableError ℕ
  size t =
      fetch_page t.meta_id >>= λ p. on_page (meta_get_page_count p) >>= λ n. pure (n * page_size)

  module _ ⦃v : VarInt⦄ where
    -- `Table::insert` and `Table::delete`.
    unfoldable pub insert : ℕ → Table → Row → Action S TableError (Unit {0})
    insert fuel t row = do
      validated ← lift (map_err TableError.schema (validate_row t.schema row))
      convert TableError.btree (Insert.insert fuel t validated)

    unfoldable pub delete : ℕ → Table → Key → Action S TableError (Option Row)
    delete fuel t key = convert TableError.btree (Delete.delete fuel t key)
