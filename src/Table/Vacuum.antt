-- ===== src/Table/Vacuum.antt =====
-- `Table::vacuum` of src/table/mod.rs: the rows are read, and the packed pages take the place of all
-- old ones.
use rust_db.Common.{ℕ, ◌∷◌, ◌++◌, true}
use rust_db.Common.Actions.{Action, lift, convert, ◌>>=◌}
use rust_db.Schema.Values.{VarInt}
use rust_db.Bpm.Pool.{Pool}
use rust_db.Table.{Table, TableError, fetch_page, on_page}
use rust_db.Table.Pack.{packed, packed_meta}
use rust_db.Btree.Range.{get_all}

-- `Table::vacuum`, with fuel for the scan of the rows.
unfoldable pub vacuum :
    {S : Type 0} → ⦃pool : Pool S⦄ → ⦃v : VarInt⦄ → ℕ → ℕ → Table → Action S TableError (Unit {0})
vacuum ⦃pool = pool⦄ fuel leaves t = do
  rows ← convert TableError.btree (get_all fuel leaves t (λ _. true))
  (root_id, linked, internals, page_count) ← lift (packed t rows)
  meta_page ← fetch_page t.meta_id
  new_meta ← on_page (packed_meta meta_page root_id page_count)
  convert TableError.bpm (pool.swap_file (new_meta ∷ (internals ++ linked)))
