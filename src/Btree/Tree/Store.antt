-- ===== src/Btree/Tree/Store.antt =====
-- What the pages of a store are after a fetch and after a write, and how the root is found.
use rust_db.Common.{ℕ, suc, ◌≡◌, ◌≢◌, Bool, false, refl, sym, ◌∙◌, some, true, false, ok}
use rust_db.Common.Actions.{Action, pure, ◌>>=◌, after_ok, convert_ok, expect_ok-ok, expect_ok}
use rust_db.Types.{PageId, page_id_eq, page_id_eq_self, page_id_eq→eq}
use rust_db.Schema.Key.{key_ord}
use rust_db.Page.{Page}
use rust_db.Bpm.Pool.{Pool, replaced}
use rust_db.Table.{Table, TableError, BTreeError, root_id}
use rust_db.Table
use rust_db.Page.Meta.{meta_get_root_id}
use rust_db.Btree.Tree.{get_root, fetch_page}

module _ {S : Type 0} ⦃pool : Pool S⦄ where
  -- A pool that is ready and has the same pages.
  abbrev pub SameView : S → S → Type 0
  SameView s t = pool.IsReady t × ((q : PageId) → pool.view t q ≡ pool.view s q)

  pub itself : (s : S) → pool.IsReady s → SameView s s
  itself s ready = (ready, λ q. refl)

  pub fetched :
      (s t : S) (id : PageId) (p : Page)
      → SameView s t
      → pool.view s id ≡ some p
      → (u : S) × (fetch_page id t ≡ (ok p, u)) × SameView s u
  fetched s t id p same here =
      let (u, e, ready, still) = pool.fetch-view t id p same.0 (same.1 id ∙ here) in
      (u, convert_ok BTreeError.bpm (pool.fetch id) t u p e, (ready, λ q. still q ∙ same.1 q))

  pub root_found :
      (s u : S) (t : Table) (m : Page) (root : PageId)
      → SameView s u
      → pool.view s t.meta_id ≡ some m
      → meta_get_root_id m ≡ ok root
      → (w : S) × (expect_ok {F = BTreeError} (root_id t) u ≡ (ok root, w)) × SameView s w
  unfolding root_id
  root_found s u t m root same here e =
      let (w, fetch, ready, still) =
        pool.fetch-view u t.meta_id m same.0 (same.1 t.meta_id ∙ here) in
      let read : root_id t u ≡ (ok root, w) =
        after_ok (Table.fetch_page t.meta_id) (λ p. Table.on_page (meta_get_root_id p)) u w m
          (convert_ok TableError.bpm (pool.fetch t.meta_id) u w m fetch)
        ∙ rw e refl in
      (w, expect_ok-ok (root_id t) u w root read, (ready, λ q. still q ∙ same.1 q))

  pub get_root-page :
      (n : ℕ) (s : S) (t : Table) (m p : Page) (root : PageId)
      → pool.IsReady s
      → pool.view s t.meta_id ≡ some m
      → meta_get_root_id m ≡ ok root
      → pool.view s root ≡ some p
      → (u : S) × (get_root (suc n) t s ≡ (ok p, u)) × SameView s u
  unfolding get_root
  get_root-page n s t m p root ready here e at =
      let (u, first, same) = root_found s s t m root (itself s ready) here e in
      let (w, page, same') = fetched s u root p same at in
      let (x, second, same'') = root_found s w t m root same' here e in
      let decide : PageId → Page → PageId → Action S BTreeError Page = λ id guard newest.
        elim (page_id_eq newest id) [ true ↦ pure guard | false ↦ get_root n t ] in
      let again : PageId → Page → Action S BTreeError Page =
        λ id guard. expect_ok (root_id t) >>= decide id guard in
      (
        x,
        after_ok (expect_ok (root_id t)) (λ id. fetch_page id >>= again id) s u root first
            ∙ (after_ok (fetch_page root) (again root) u w p page
                ∙ (after_ok (expect_ok (root_id t)) (decide root p) w x root second
                    ∙ rw (page_id_eq_self root) refl)),
        same'',
      )

  pub put_here :
      (s : S) (p old : Page)
      → pool.IsReady s
      → pool.view s p.page_id ≡ some old
      → pool.view (pool.put p s) p.page_id ≡ some p
  put_here s p old ready there =
      (pool.put-view s p old ready there).1 p.page_id ∙ rw (page_id_eq_self p.page_id) refl

  pub put_others :
      (s : S) (p old : Page)
      → pool.IsReady s
      → pool.view s p.page_id ≡ some old
      → (q : PageId) → q ≢ p.page_id
      → pool.view (pool.put p s) q ≡ pool.view s q
  put_others s p old ready there q n =
      (pool.put-view s p old ready there).1 q ∙ go (page_id_eq p.page_id q) refl
    where
      go : (c : Bool) → page_id_eq p.page_id q ≡ c → replaced (pool.view s) p q ≡ pool.view s q
      go true e = absurd (n (sym (page_id_eq→eq p.page_id q e)))
      go false e = rw e refl
