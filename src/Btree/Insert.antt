-- ===== src/Btree/Insert.antt =====
-- src/btree/tree.rs: insertion, with the splits on the way back up. `Err` leaves what was written
-- before it.
pub mod Outcome
use rust_db.Common.{ℕ, zero, suc, if◌then◌else◌, Bool, true, false, ◌||◌, List, [], ◌∷◌, none, some}
use rust_db.Common.Order.{is_le, is_gt}
use rust_db.Common.Actions.{Action, pure, fail, crash, expect_ok, ◌>>=◌, ◌>>◌}
use rust_db.Types.{PageId}
use rust_db.PageError.{duplicate_key}
use rust_db.Schema.Values.{VarInt}
use rust_db.Schema.Key.{Key, key_ord}
use rust_db.Schema.Row.{Row}
use rust_db.Page.{Page}
use rust_db.Page.Leaf.{can_insert, leaf_insert, leaf_get, leaf_next, set_prev, stored_key}
use rust_db.Page.Internal.{is_split_safe, can_insert_separator, internal_insert}
use rust_db.Page.Split.{split_page, new_root}
use rust_db.Bpm.Pool.{Pool, write}
use rust_db.Table.{Table, BTreeError, set_root_id, allocate}
use rust_db.Btree.Tree.{next_child, fetch_page, on_page, get_root}

module _ {S : Type 0} ⦃pool : Pool S⦄ where
  -- `if let Some(n) = page.next()? { fetch_write(n)?.set_prev(Some(page.page_id()))? }`.
  abbrev pub fix_next : Page → Action S BTreeError (Unit {0})
  fix_next p = on_page (leaf_next p) >>= λ next. elim next [
    | none ↦ pure tt
    | some n ↦ fetch_page n >>= λ q. on_page (set_prev q (some p.page_id)) >>= λ q'. write q'
  ]

  module _ ⦃v : VarInt⦄ where
    -- The loop of `insert` that goes down, with the ancestors that are still held, the last first.
    unfoldable pub descend_insert :
        ℕ → Key → Row → Page → List Page → Action S BTreeError (Page × List Page)
    descend_insert zero key row curr_page ancestors = crash
    descend_insert (suc n) key row curr_page ancestors =
        on_page (next_child curr_page key) >>= λ child. elim child [
          | none ↦ pure (curr_page, ancestors)
          | some ch ↦ fetch_page ch >>= λ p.
              descend_insert n key row p
                (if is_split_safe p || can_insert p row then [] else curr_page ∷ ancestors)
        ]

    -- The loop of `split_and_insert` that hands the separator to the ancestors.
    unfoldable pub insert_up :
        Table → List Page → PageId → Key → PageId → Action S BTreeError (Unit {0})
    insert_up t [] left_id sep right_id = do
      guard ← expect_ok (allocate t)
      root ← on_page (new_root guard.page_id left_id sep right_id)
      write root
      expect_ok (set_root_id t root.page_id)
    insert_up t (parent ∷ ancestors) left_id sep right_id = elim (can_insert_separator parent sep) [
      | true ↦ on_page (internal_insert parent sep right_id) >>= λ parent'. write parent'
      | false ↦ do
        guard ← expect_ok (allocate t)
        (promoted, parent', new_right) ← on_page (split_page parent guard.page_id)
        write parent'
        write new_right
        elim (is_gt (key_ord.cmp sep promoted)) [
          | true ↦ on_page (internal_insert new_right sep right_id) >>= λ p. write p
          | false ↦ on_page (internal_insert parent' sep right_id) >>= λ p. write p
        ]
        insert_up t ancestors parent'.page_id promoted new_right.page_id
    ]

    unfoldable pub split_and_insert :
        Table → Page → Row → List Page → Action S BTreeError (Unit {0})
    unfolding insert_up
    split_and_insert t page row ancestors = do
      guard ← expect_ok (allocate t)
      (sep, page', right) ← on_page (split_page page guard.page_id)
      write page'
      write right
      fix_next right
      key ← on_page (stored_key row)
      elim (is_le (key_ord.cmp key sep)) [
        | true ↦ on_page (leaf_insert page' row) >>= λ p. write p
        | false ↦ on_page (leaf_insert right row) >>= λ p. write p
      ]
      insert_up t ancestors page'.page_id sep right.page_id

    -- What `insert` does at the leaf, by `can_insert`.
    unfoldable pub insert_or_split :
        Table → Key → Row → Page → List Page → Bool → Action S BTreeError (Unit {0})
    unfolding split_and_insert
    insert_or_split t key row leaf ancestors true =
        on_page (leaf_insert leaf row) >>= λ leaf'. write leaf'
    insert_or_split t key row leaf ancestors false = on_page (leaf_get leaf key) >>= λ there.
        elim there [
          | some r ↦ fail (BTreeError.page duplicate_key)
          | none ↦ split_and_insert t leaf row ancestors
        ]

    abbrev pub insert_at : Table → Key → Row → Page → List Page → Action S BTreeError (Unit {0})
    insert_at t key row leaf ancestors =
        insert_or_split t key row leaf ancestors (can_insert leaf row)

    -- `BTree::insert`.
    unfoldable pub insert : ℕ → Table → Row → Action S BTreeError (Unit {0})
    unfolding descend_insert insert_or_split
    insert fuel t row = do
      root ← get_root fuel t
      key ← on_page (stored_key row)
      (leaf, ancestors) ← descend_insert fuel key row root []
      insert_at t key row leaf ancestors
