-- ===== src/Btree/Delete.antt =====
-- src/btree/tree.rs: deletion, with the merges and borrows on the way back up. The debug assertion
-- on the removed separator is a `panic`, as in a debug build.
pub mod Outcome
use rust_db.Common.{
  ℕ, zero, suc, ◌==◌, ◌&&◌, if◌then◌else◌, Bool, true, false, List, [], ◌∷◌, Option, none, some,
  first,
}
use rust_db.Common.Actions.{Action, pure, crash, expect_ok, expect_some, ◌>>=◌, ◌>>◌}
use rust_db.Types.{PageId, page_id_eq, page_id_eq?}
use rust_db.Schema.Values.{VarInt}
use rust_db.Schema.Key.{Key}
use rust_db.Schema.Row.{Row}
use rust_db.Page.{
  Page, is_leaf, is_internal, is_underfull, is_delete_safe, num_items, body_children, make_free,
}
use rust_db.Page.Leaf.{leaf_remove}
use rust_db.Page.Internal.{find_child_index, internal_remove, internal_replace_key}
use rust_db.Page.Dispatch.{
  can_merge_with, merge_from_right, bulk_borrow_from_right, bulk_borrow_from_left,
}
use rust_db.Bpm.Pool.{Pool, write}
use rust_db.Table.{Table, BTreeError, root_id, set_root_id, free_page}
use rust_db.Btree.Sibling.{Sibling, Side, pick_sibling}
use rust_db.Btree.Tree.{fetch_page, on_page, get_root}
use rust_db.Btree.Insert.{fix_next}

abbrev removed_id : Option (Key × PageId) → Option PageId
removed_id none = none
removed_id (some (k, id)) = some id

-- An internal root without separators.
abbrev pub is_lonely_root : Page → PageId → Bool
is_lonely_root page root = page_id_eq page.page_id root && is_internal page && num_items page == 0

module _ {S : Type 0} ⦃pool : Pool S⦄ where
  -- The pages to the left and right of the separator. For a left sibling both are fetched again.
  abbrev pair : Page → Sibling → Action S BTreeError (Page × Page)
  pair page sib = elim sib.side [
    | Side.right ↦ fetch_page sib.id >>= λ right. pure (page, right)
    | Side.left ↦
        fetch_page sib.id >>= λ left. fetch_page page.page_id >>= λ right. pure (left, right)
  ]

  module _ ⦃v : VarInt⦄ where
    -- The loop of `delete` that goes down, with the ancestors that are still held, the last first.
    unfoldable pub descend_delete :
        ℕ → Key → Page → List (Page × ℕ) → Action S BTreeError (Page × List (Page × ℕ))
    descend_delete zero key curr_page ancestors = crash
    descend_delete (suc n) key curr_page ancestors =
        if is_internal curr_page
        then (do
          found ← on_page (find_child_index curr_page key)
          (idx, child_id) ← expect_some found
          p ← fetch_page child_id
          descend_delete n key p
              ((curr_page, idx) ∷ (if is_delete_safe curr_page then [] else ancestors)))
        else pure (curr_page, ancestors)

    -- A merge: the parent without the separator, after the right page was freed.
    unfoldable pub merge_pair : Table → Page → Sibling → Page → Page → Action S BTreeError Page
    merge_pair t parent sib left right = do
      (freed_id, left', right') ← on_page (merge_from_right left right sib.separator)
      write left'
      write right'
      (removed, parent') ← on_page (internal_remove parent sib.separator)
      write parent'
      if page_id_eq? (removed_id removed) (some right'.page_id) then pure tt else crash
      if is_leaf left' then fix_next left' else pure tt
      expect_ok (free_page t right')
      pure parent'

    -- A borrow, by the side of the sibling, with the new separator put into the parent.
    unfoldable pub borrow_pair : Page → Sibling → Page → Page → Action S BTreeError (Unit {0})
    borrow_pair parent sib left right = do
      new_sep ← elim sib.side [
        | Side.right ↦ do
          (k, left', right') ← on_page (bulk_borrow_from_right left right sib.separator)
          write left'
          write right'
          pure k
        | Side.left ↦ do
          (k, right', left') ← on_page (bulk_borrow_from_left right left sib.separator)
          write left'
          write right'
          pure k
      ]
      parent' ← on_page (internal_replace_key parent sib.separator new_sep)
      write parent'

    -- The end of `rebalance`: such a root gives its place to its child.
    unfoldable pub replace_root : Table → Page → Bool → Action S BTreeError (Unit {0})
    replace_root t page false = pure tt
    replace_root t page true = do
      children ← expect_some (body_children page.body)
      only_child ← expect_some (first children)
      expect_ok (set_root_id t only_child)
      write (make_free page)
      expect_ok (free_page t (make_free page))

    unfoldable pub shrink_root : Table → Page → Action S BTreeError (Unit {0})
    unfolding replace_root
    shrink_root t page =
        expect_ok (root_id t) >>= λ root. replace_root t page (is_lonely_root page root)

    unfoldable pub rebalance : Table → Page → List (Page × ℕ) → Action S BTreeError (Unit {0})
    unfolding merge_pair borrow_pair shrink_root
    rebalance t page [] = shrink_root t page
    rebalance t page ((parent, idx) ∷ ancestors) = elim (is_underfull page) [
      | false ↦ shrink_root t page
      | true ↦ do
        picked ← on_page (pick_sibling parent idx)
        sib ← expect_some picked
        (left, right) ← pair page sib
        elim (can_merge_with left right sib.separator) [
          | true ↦ merge_pair t parent sib left right >>= λ parent'. rebalance t parent' ancestors
          | false ↦ borrow_pair parent sib left right
        ]
    ]

    -- What `delete` does at the leaf.
    unfoldable pub delete_at :
        Table → Key → Page → List (Page × ℕ) → Action S BTreeError (Option Row)
    unfolding rebalance
    delete_at t key leaf ancestors = do
      (removed, leaf') ← on_page (leaf_remove leaf key)
      elim removed [
        | none ↦ pure none
        | some row ↦ do write leaf'; rebalance t leaf' ancestors; pure (some row)
      ]

    -- `BTree::delete`.
    unfoldable pub delete : ℕ → Table → Key → Action S BTreeError (Option Row)
    unfolding descend_delete delete_at
    delete fuel t key = do
      root ← get_root fuel t
      (leaf, ancestors) ← descend_delete fuel key root []
      delete_at t key leaf ancestors
