-- ===== src/Btree/Tree/Same.antt =====
-- A tree is made of its own pages only: a store that agrees on them holds it too.
use rust_db.Common.{
  ℕ, zero, suc, ◌≡◌, ◌≢◌, ◌∙◌, List, [], ◌∷◌, Option, All, All-imp, All-append_left,
  All-append_right, subst,
}
use rust_db.Types.{PageId}
use rust_db.Schema.Values.{VarInt}
use rust_db.Schema.Key.{Key, key_ord}
use rust_db.Schema.Row.{Row}
use rust_db.Page.{Page}
use rust_db.Btree.Tree.Shape.{IsTree, Children}

module _ ⦃v : VarInt⦄ where
  pub same-Children :
      (h : ℕ) (view view' : PageId → Option Page) (children : List PageId) (ks : List Key)
      (ids : List PageId) (rows : List Row)
      → ((c : PageId) (own : List PageId) (part : List Row)
          → All (λ q. view' q ≡ view q) own
          → IsTree h view c own part
          → IsTree h view' c own part)
      → All (λ q. view' q ≡ view q) ids
      → Children (IsTree h view) children ks ids rows
      → Children (IsTree h view') children ks ids rows
  same-Children h view view' [] ks ids rows f same t = absurd t
  same-Children h view view' (c ∷ []) [] ids rows f same t = f c ids rows same t
  same-Children h view view' (c ∷ []) (k ∷ ks) ids rows f same t = absurd t
  same-Children h view view' (c ∷ d ∷ cs) [] ids rows f same t = absurd t
  same-Children h view view' (c ∷ d ∷ cs) (k ∷ ks) ids rows f same
        (own, others, front, back, a, b, apart, p, low, high, rest) =
      let same' = subst (λ l. All (λ q. view' q ≡ view q) l) a same in
      (
        own,
        others,
        front,
        back,
        a,
        b,
        apart,
        f c own front (All-append_left (λ q. view' q ≡ view q) own others same') p,
        low,
        high,
        same-Children h view view' (d ∷ cs) ks others back f
            (All-append_right (λ q. view' q ≡ view q) own others same') rest,
      )

  -- A tree is made of its own pages only.
  pub same_tree :
      (h : ℕ) (view view' : PageId → Option Page) (id : PageId) (ids : List PageId)
      (rows : List Row)
      → All (λ q. view' q ≡ view q) ids
      → IsTree h view id ids rows
      → IsTree h view' id ids rows
  same_tree zero view view' id ids rows same (lsn, next, prev, e, at, valid) =
      let own = subst (λ l. All (λ q. view' q ≡ view q) l) e same in
      (lsn, next, prev, e, own.0 ∙ at, valid)
  same_tree (suc h) view view' id ids rows same
        (lsn, ks, children, below, e, fresh, at, valid, trees) =
      let own = subst (λ l. All (λ q. view' q ≡ view q) l) e same in
      (
        lsn,
        ks,
        children,
        below,
        e,
        fresh,
        own.0 ∙ at,
        valid,
        same-Children h view view' children ks below rows
            (λ c ids rows. same_tree h view view' c ids rows) own.1 trees,
      )

  pub agree :
      (view view' : PageId → Option Page) (id : PageId) (ids : List PageId)
      → ((q : PageId) → q ≢ id → view' q ≡ view q)
      → All (λ q. q ≢ id) ids
      → All (λ q. view' q ≡ view q) ids
  agree view view' id ids same apart = All-imp same ids apart
