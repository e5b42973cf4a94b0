-- ===== src/Btree/Tree/Get.antt =====
-- `get` on a tree that the store holds returns what the map of all its rows holds.
use rust_db.Common.{
  ℕ, zero, suc, ◌<◌, ◌≡◌, refl, sym, ap, ◌∙◌, List, [], ◌∷◌, Option, some, get_elem?, subst, ok,
  arith,
}
use rust_db.Common.Actions.{Action, ◌>>=◌, after_ok}
use rust_db.Common.Sorted.Route.{IsRouted}
use rust_db.Types.{PageId}
use rust_db.Schema.Values.{VarInt}
use rust_db.Schema.Key.{Key, key_ord}
use rust_db.Schema.Row.{Row}
use rust_db.Page.{Page}
use rust_db.Page.Leaf.Search.{leaf_page, lookup, leaf_get-lookup}
use rust_db.Page.Leaf.{leaf_get}
use rust_db.Page.Internal.{find_child}
use rust_db.Page.Internal.Route.{internal_page, itself, find_child_index-IsRouted}
use rust_db.Bpm.Pool.{Pool}
use rust_db.Table.{Table, BTreeError}
use rust_db.Page.Meta.{meta_get_root_id}
use rust_db.Btree.Tree.{get_root, descend, get, fetch_page, on_page}
use rust_db.Btree.Tree.Store.{SameView, fetched, get_root-page}
use rust_db.Btree.Tree.Shape.{IsTree, Children, lookup-after, lookup-before}

-- The child that a key is routed to holds all that the tree holds for the key.
routed_child :
    (P : PageId → List PageId → List Row → Type 0) (children : List PageId) (ks : List Key)
    (ids : List PageId) (rows : List Row) (k : Key) (i : ℕ) (c : PageId)
    → Children P children ks ids rows
    → IsRouted itself k ks i
    → get_elem? children i ≡ some c
    → (own : List PageId) × (part : List Row) × P c own part × (lookup k rows ≡ lookup k part)
routed_child P [] ks ids rows k i c t r e = absurd t
routed_child P (d ∷ []) [] ids rows k zero c t r e =
    let same : d ≡ c = cc in (ids, rows, subst (λ x. P x ids rows) same t, refl)
routed_child P (d ∷ []) [] ids rows k (suc i) c t r e = absurd (clash e)
  where
    clash : get_elem? (d ∷ []) (suc i) ≡ some c → ⊥
    clash q = cc
routed_child P (d ∷ []) (s ∷ ks) ids rows k i c t r e = absurd t
routed_child P (d ∷ f ∷ cs) [] ids rows k i c t r e = absurd t
routed_child P (d ∷ f ∷ cs) (s ∷ ks) ids rows k zero c
      (own, others, front, back, a, b, apart, p, low, high, rest) r e =
    let same : d ≡ c = cc in
    (
      own,
      front,
      subst (λ x. P x own front) same p,
      rw b (lookup-before k s front back high r.above.0),
    )
routed_child P (d ∷ f ∷ cs) (s ∷ ks) ids rows k (suc i) c
      (own, others, front, back, a, b, apart, p, low, high, rest) r e =
    let (o, part, q, same) =
      routed_child P (f ∷ cs) ks others back k i c rest
        (record { inside = omega (arith, r.inside); at_most = r.at_most.1; above = r.above }) e in
    (o, part, q, rw b (lookup-after k s front back low r.at_most.0 ∙ same))

module _ ⦃v : VarInt⦄ where
  pub tree_page :
      (h : ℕ) (view : PageId → Option Page) (id : PageId) (ids : List PageId) (rows : List Row)
      → IsTree h view id ids rows
      → (p : Page) × (view id ≡ some p)
  tree_page zero view id ids rows (lsn, next, prev, _, at, valid) =
      (leaf_page id lsn rows next prev, at)
  tree_page (suc h) view id ids rows (lsn, ks, children, below, _, _, at, valid, trees) =
      (internal_page id lsn ks children, at)

module _ {S : Type 0} ⦃pool : Pool S⦄ ⦃v : VarInt⦄ where
  -- With fuel for the height and the leaf, the descent ends at a leaf, and what that holds for the
  -- key is what the tree holds.
  pub descend-lookup :
      (n h : ℕ) (s t : S) (id : PageId) (ids : List PageId) (rows : List Row) (k : Key) (p : Page)
      → h < n
      → SameView s t
      → IsTree h (pool.view s) id ids rows
      → pool.view s id ≡ some p
      → (u : S) × (leaf : Page) × (descend n k p t ≡ (ok leaf, u))
        × SameView s u
        × (leaf_get leaf k ≡ ok (lookup k rows))
  unfolding descend find_child
  descend-lookup zero h s t id ids rows k p enough same tree here = elim enough [ ]
  descend-lookup (suc n) zero s t id ids rows k p enough same (lsn, next, prev, _, at, valid) here =
      let own : leaf_page id lsn rows next prev ≡ p = cc in
      subst
        (λ x.
          (u : S) × (leaf : Page) × (descend (suc n) k x t ≡ (ok leaf, u))
          × SameView s u
          × (leaf_get leaf k ≡ ok (lookup k rows)))
        own
        (
          t,
          leaf_page id lsn rows next prev,
          refl,
          same,
          leaf_get-lookup id lsn rows next prev k valid,
        )
  descend-lookup (suc n) (suc h) s t id ids rows k p enough same
        (lsn, ks, children, below, _, _, at, valid, trees) here =
      let own : internal_page id lsn ks children ≡ p = cc in
      let (i, c, found, child, routed) = find_child_index-IsRouted id lsn ks children k valid in
      let (o, part, tree, agree) =
        routed_child (IsTree h (pool.view s)) children ks below rows k i c trees routed child in
      let (q, at_child) = tree_page h (pool.view s) c o part tree in
      let (u, e, same') = fetched s t c q same at_child in
      let (w, leaf, walk, same_w, result) =
        descend-lookup n h s u c o part k q (omega (arith, enough)) same' tree at_child in
      subst
        (λ x.
          (w : S) × (leaf : Page) × (descend (suc n) k x t ≡ (ok leaf, w))
          × SameView s w
          × (leaf_get leaf k ≡ ok (lookup k rows)))
        own
        (
          w,
          leaf,
          rw (found, find_child) (after_ok (fetch_page c) (descend n k) t u q e ∙ walk),
          same_w,
          result ∙ ap ok (sym agree),
        )

  -- On a table whose meta page names the root of a tree and whose pages are in the frames of a
  -- ready pool, `get` with fuel for the height ends, returns the row that the rows of the tree
  -- hold for the key, and changes no page.
  pub get-lookup :
      (n h : ℕ) (s : S) (t : Table) (m : Page) (root : PageId) (ids : List PageId) (rows : List Row)
      (k : Key)
      → h < n
      → pool.IsReady s
      → pool.view s t.meta_id ≡ some m
      → meta_get_root_id m ≡ ok root
      → IsTree h (pool.view s) root ids rows
      → (u : S) × (get n t k s ≡ (ok (lookup k rows), u)) × SameView s u
  unfolding get
  get-lookup zero h s t m root ids rows k enough ready here e tree = elim enough [ ]
  get-lookup (suc n) h s t m root ids rows k enough ready here e tree =
      let (p, at) = tree_page h (pool.view s) root ids rows tree in
      let (u, fetch, same) = get_root-page n s t m p root ready here e at in
      let (w, leaf, walk, same_w, result) =
        descend-lookup (suc n) h s u root ids rows k p enough same tree at in
      let look : Page → Action S BTreeError (Option Row) = λ leaf. on_page (leaf_get leaf k) in
      (
        w,
        after_ok (get_root (suc n) t >>= descend (suc n) k) look s w leaf
              (after_ok (get_root (suc n) t) (descend (suc n) k) s u p fetch ∙ walk)
            ∙ rw result refl,
        same_w,
      )
