-- ===== src/Table/Space.antt =====
-- `Table::check_space_accounting` of src/table/mod.rs, which debug builds run after `create`: each
-- page but the meta page is in the tree or on the free list, once. A set is a list without
-- repetitions. The two loops run on fuel, for which the page count is enough where the check passes.
use rust_db.Common.{
  ℕ, zero, suc, ◌+◌, ◌-◌, ◌==◌, if◌then◌else◌, Bool, true, false, ◌||◌, List, [], ◌∷◌, length,
  Option, none, some,
}
use rust_db.Common.Actions.{Action, pure, crash, expect_ok, ◌>>=◌, ◌>>◌}
use rust_db.Types.{PageId, page_id_eq}
use rust_db.Page.{Page, body_children}
use rust_db.Page.Meta.{meta_get_page_count, meta_get_free_list_head, free_next}
use rust_db.Bpm.Pool.{Pool}
use rust_db.Table.{Table, TableError, fetch_page, on_page, root_id}

abbrev pub is_member : PageId → List PageId → Bool
is_member id [] = false
is_member id (x ∷ xs) = page_id_eq x id || is_member id xs

abbrev pub is_disjoint : List PageId → List PageId → Bool
is_disjoint [] ys = true
is_disjoint (x ∷ xs) ys = if is_member x ys then false else is_disjoint xs ys

-- The top of the stack is the last child.
abbrev pub push_all : List PageId → List PageId → List PageId
push_all [] stack = stack
push_all (c ∷ cs) stack = push_all cs (c ∷ stack)

abbrev pub children_of : Page → List PageId
children_of p = elim (body_children p.body) [ none ↦ [] | some cs ↦ cs ]

module _ {S : Type 0} ⦃pool : Pool S⦄ where
  unfoldable pub in_tree : ℕ → List PageId → List PageId → Action S TableError (List PageId)
  in_tree n [] seen = pure seen
  in_tree zero (cid ∷ stack) seen = crash
  in_tree (suc n) (cid ∷ stack) seen = elim (is_member cid seen) [
    | true ↦ crash
    | false ↦ expect_ok (fetch_page cid) >>= λ curr_page.
        in_tree n (push_all (children_of curr_page) stack) (cid ∷ seen)
  ]

  unfoldable pub on_free_list : ℕ → Option PageId → List PageId → Action S TableError (List PageId)
  on_free_list n none seen = pure seen
  on_free_list zero (some id) seen = crash
  on_free_list (suc n) (some id) seen = elim (is_member id seen) [
    | true ↦ crash
    | false ↦ expect_ok (fetch_page id) >>= λ p.
        expect_ok (on_page (free_next p)) >>= λ next. on_free_list n next (id ∷ seen)
  ]

  unfoldable pub check_space_accounting : Table → Action S TableError (Unit {0})
  unfolding in_tree on_free_list
  check_space_accounting t = do
    meta_page ← expect_ok (fetch_page t.meta_id)
    page_count ← expect_ok (on_page (meta_get_page_count meta_page))
    root ← expect_ok (root_id t)
    used ← in_tree page_count (root ∷ []) []
    meta_again ← expect_ok (fetch_page t.meta_id)
    head ← expect_ok (on_page (meta_get_free_list_head meta_again))
    unused ← on_free_list page_count head []
    if is_disjoint used unused then pure tt else crash
    if length used + length unused == page_count - 1 then pure tt else crash
