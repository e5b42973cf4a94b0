-- ===== src/Btree/Delete/Outcome.antt =====
-- `BTree::delete` on a tree that the store holds: the descent, and the three ways it ends.
use rust_db.Common.{ℕ, ◌≡◌, ◌⊎◌, List, [], none, some, true, if◌then◌else◌, ok}
use rust_db.Common.Order.{is_eq}
use rust_db.Common.Actions.{pure, ◌>>◌}
use rust_db.Types.{PageId}
use rust_db.Schema.Values.{VarInt}
use rust_db.Schema.Key.{Key, key_ord}
use rust_db.Schema.Row.{Row}
use rust_db.Page.{Page, is_underfull}
use rust_db.Page.Leaf.{leaf_remove}
use rust_db.Page.Leaf.Search.{lookup}
use rust_db.Bpm.Pool.{Pool}
use rust_db.Table.{Table}
use rust_db.Btree.Tree.Shape.{IsTree}
use rust_db.Btree.Tree.Way.{Way}
use rust_db.Btree.Tree.Above.{pages_above, held_to_merge}
use rust_db.Btree.Tree.Store.{SameView}
use rust_db.Btree.Delete.{delete, rebalance}

module _ {S : Type 0} ⦃pool : Pool S⦄ ⦃v : VarInt⦄ where
  -- What a deletion ends in: nothing, for a key that is not there; or the balancing of the leaf that
  -- the key is routed to and that is underfull without the row, with the guards above it that are
  -- still held, from a tree without the row; or the tree without the row, in the same pages.
  abbrev pub DeleteOutcome : ℕ → ℕ → Table → S → PageId → List PageId → List Row → Key → Type 0
  DeleteOutcome n h t s root ids rows k =
      ((u : S) × (lookup k rows ≡ none) × (delete n t k s ≡ (ok none, u)) × SameView s u)
      ⊎ ((row : Row) × (top : Page) × (leaf : Page) × (way : Way (pool.view s) k h top leaf)
          × (new : Page) × (u : S) × (rows' : List Row) × (lookup k rows ≡ some row)
          × (pool.view s root ≡ some top)
          × (pool.view s leaf.page_id ≡ some leaf)
          × (leaf_remove leaf k ≡ ok (some row, new))
          × (is_underfull new ≡ true)
          × (delete n t k s
              ≡ (rebalance t new (held_to_merge (pages_above way [])) >> pure (some row)) u)
          × pool.IsReady u
          × IsTree h (pool.view u) root ids rows'
          × ((q : Key)
              → lookup q rows' ≡ (if is_eq (key_ord.cmp k q) then none else lookup q rows)))
      ⊎ ((row : Row) × (u : S) × (rows' : List Row) × (lookup k rows ≡ some row)
          × (delete n t k s ≡ (ok (some row), u))
          × pool.IsReady u
          × IsTree h (pool.view u) root ids rows'
          × ((q : Key)
              → lookup q rows' ≡ (if is_eq (key_ord.cmp k q) then none else lookup q rows)))
