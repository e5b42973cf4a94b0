-- ===== src/Btree/Insert/Outcome.antt =====
-- `BTree::insert` on a tree that the store holds: the descent, and the three ways it ends.
use rust_db.Common.{
  ℕ, zero, suc, ◌<◌, ◌≡◌, ◌⊎◌, inl, inr, refl, sym, ap, ◌∙◌, List, [], ◌∷◌, ◌++◌, none, some, true,
  false, Bool-cases, if◌then◌else◌, ◌||◌, ok, err, subst, arith,
}
use rust_db.Common.Order.{is_eq}
use rust_db.Common.Actions.{Action, ◌>>=◌, after_ok}
use rust_db.Types.{PageId}
use rust_db.PageError.{duplicate_key}
use rust_db.Schema.Values.{VarInt}
use rust_db.Schema.Key.{Key, key_ord}
use rust_db.Schema.Row.{Row, key_of}
use rust_db.Schema.Validate.{IsEntry}
use rust_db.Page.{Page}
use rust_db.Page.Meta.{meta_get_root_id}
use rust_db.Page.Leaf.{can_insert, leaf_insert, leaf_get, stored_key}
use rust_db.Page.Leaf.Search.{leaf_page, lookup, leaf_get-lookup, stored_key-IsEntry}
use rust_db.Page.Leaf.Update.{leaf_insert-InsertCases, leaf_insert_place}
use rust_db.Page.Internal.{is_split_safe, find_child}
use rust_db.Bpm.Pool.{Pool}
use rust_db.Table.{Table, BTreeError}
use rust_db.Btree.Tree.{get_root, on_page, fetch_page}
use rust_db.Btree.Tree.Shape.{IsTree}
use rust_db.Btree.Tree.Focus.{Stays, Stays-insert_at, lookup-updated}
use rust_db.Btree.Tree.Way.{Way, here, down, find_leaf}
use rust_db.Btree.Tree.Above.{pages_above, held_to_split}
use rust_db.Btree.Tree.Store.{SameView, fetched, get_root-page, put_here, put_others}
use rust_db.Btree.Insert.{descend_insert, insert_or_split, insert_at, insert, split_and_insert}

module _ {S : Type 0} ⦃pool : Pool S⦄ ⦃v : VarInt⦄ where
  -- The descent of an insertion follows the way to the leaf, and ends with the guards of the pages
  -- above it that are still held.
  descend_insert-Way :
      (n h : ℕ) (s t : S) (row : Row) (k : Key) (p leaf : Page) (above : List (Page × ℕ))
      → h < n
      → SameView s t
      → (way : Way (pool.view s) k h p leaf)
      → (u : S) × (descend_insert n k row p (held_to_split row p above) t
          ≡ (ok (leaf, held_to_split row leaf (pages_above way above)), u))
        × SameView s u
  unfolding descend_insert find_child
  descend_insert-Way zero h s t row k p leaf above enough same way = elim enough [ ]
  descend_insert-Way (suc n) zero s t row k p leaf above enough same (here _ outside) =
      (t, rw outside refl, same)
  descend_insert-Way (suc n) (suc h) s t row k p leaf above enough same
        (down _ i c _ q _ inner found at way) =
      let (u, e, same') = fetched s t c q same at in
      let (w, walk, same_w) =
        descend_insert-Way n h s u row k q leaf ((p, i) ∷ above) (omega (arith, enough)) same'
          way in
      let next : Page → Action S BTreeError (Page × List Page) = λ q.
        descend_insert n k row q
          (if is_split_safe q || can_insert q row then [] else p ∷ held_to_split row p above) in
      (w, rw (inner, found, find_child) (after_ok (fetch_page c) next t u q e ∙ walk), same_w)

  -- What an insertion ends in: an error on a key that is there; or a split of the leaf that the key
  -- is routed to and that has no room, with the guards above it that are still held; or the tree
  -- with the row added, in the same pages.
  abbrev pub InsertOutcome : ℕ → ℕ → Table → S → PageId → List PageId → List Row → Row → Type 0
  InsertOutcome n h t s root ids rows row =
      ((old : Row) × (u : S) × (lookup (key_of row) rows ≡ some old)
        × (insert n t row s ≡ (err (BTreeError.page duplicate_key), u))
        × SameView s u)
      ⊎ ((top : Page) × (leaf : Page) × (way : Way (pool.view s) (key_of row) h top leaf) × (u : S)
          × (lookup (key_of row) rows ≡ none)
          × (pool.view s root ≡ some top)
          × (pool.view s leaf.page_id ≡ some leaf)
          × (can_insert leaf row ≡ false)
          × (insert n t row s
              ≡ split_and_insert t leaf row (held_to_split row leaf (pages_above way [])) u)
          × SameView s u)
      ⊎ ((u : S) × (rows' : List Row) × (lookup (key_of row) rows ≡ none)
          × (insert n t row s ≡ (ok tt, u))
          × pool.IsReady u
          × IsTree h (pool.view u) root ids rows'
          × ((q : Key)
              → lookup q rows'
                ≡ (if is_eq (key_ord.cmp (key_of row) q) then some row else lookup q rows)))

  insert_at_full :
      (t : Table) (k : Key) (row : Row) (leaf : Page) (held : List Page) (u : S)
      → can_insert leaf row ≡ false
      → leaf_get leaf k ≡ ok none
      → insert_at t k row leaf held u ≡ split_and_insert t leaf row held u
  unfolding insert_or_split
  insert_at_full t k row leaf held u full absent =
      ap (λ b. insert_or_split t k row leaf held b u) full ∙ rw absent refl

  insert_at_room :
      (t : Table) (k : Key) (row : Row) (leaf new : Page) (held : List Page) (u : S)
      → can_insert leaf row ≡ true
      → leaf_insert leaf row ≡ ok new
      → insert_at t k row leaf held u ≡ (ok tt, pool.put new u)
  unfolding insert_or_split
  insert_at_room t k row leaf new held u room done =
      ap (λ b. insert_or_split t k row leaf held b u) room ∙ rw done refl

  insert_at_duplicate :
      (t : Table) (k : Key) (row old : Row) (leaf : Page) (held : List Page) (u : S)
      → leaf_insert leaf row ≡ err duplicate_key
      → leaf_get leaf k ≡ ok (some old)
      → insert_at t k row leaf held u ≡ (err (BTreeError.page duplicate_key), u)
  unfolding insert_or_split
  insert_at_duplicate t k row old leaf held u refused there =
      elim (Bool-cases (can_insert leaf row)) [
        | inl room ↦ ap (λ b. insert_or_split t k row leaf held b u) room ∙ rw refused refl
        | inr full ↦ ap (λ b. insert_or_split t k row leaf held b u) full ∙ rw there refl
      ]

  -- An insertion is what it does at the leaf, from a store with the same pages.
  insert_run :
      (n h : ℕ) (s : S) (t : Table) (m : Page) (root : PageId) (top leaf : Page) (row : Row)
      → h < n
      → pool.IsReady s
      → pool.view s t.meta_id ≡ some m
      → meta_get_root_id m ≡ ok root
      → pool.view s root ≡ some top
      → (way : Way (pool.view s) (key_of row) h top leaf) → IsEntry row
      → (u : S) × (insert n t row s
          ≡ insert_at t (key_of row) row leaf (held_to_split row leaf (pages_above way [])) u)
        × SameView s u
  unfolding insert
  insert_run zero h s t m root top leaf row enough ready at_meta e at way entry = elim enough [ ]
  insert_run (suc n) h s t m root top leaf row enough ready at_meta e at way entry =
      let (u, fetch, same) = get_root-page n s t m top root ready at_meta e at in
      let held = held_to_split row leaf (pages_above way []) in
      let (w, walk, same_w) =
        descend_insert-Way (suc n) h s u row (key_of row) top leaf [] enough same way in
      let at_leaf : Key → Page × List Page → Action S BTreeError (Unit {0}) =
        λ k z. insert_at t k row z.0 z.1 in
      let go_down : Page → Key → Action S BTreeError (Unit {0}) =
        λ p k. descend_insert (suc n) k row p [] >>= at_leaf k in
      (
        w,
        after_ok (get_root (suc n) t) (λ p. on_page (stored_key row) >>= go_down p) s u top fetch
            ∙ (rw (stored_key-IsEntry row entry) (
                after_ok (descend_insert (suc n) (key_of row) row top []) (at_leaf (key_of row)) u w
                  (leaf, held) walk)),
        same_w,
      )

  -- An insertion of a row that passed validation into a tree whose pages are in the frames of a
  -- ready pool, with fuel for the height, ends in one of three ways: `DuplicateKey` and no page
  -- changed, where the key is there; else, where the leaf that the key is routed to has no room,
  -- a split of that leaf with the guards of the pages above it up to the nearest that has room,
  -- from a pool with the same pages; or success and a tree of the same pages whose map is the old
  -- one with the row at its key.
  pub insert-InsertOutcome :
      (n h : ℕ) (s : S) (t : Table) (m : Page) (root : PageId) (ids : List PageId) (rows : List Row)
      (row : Row)
      → h < n
      → pool.IsReady s
      → pool.view s t.meta_id ≡ some m
      → meta_get_root_id m ≡ ok root
      → IsTree h (pool.view s) root ids rows
      → IsEntry row
      → InsertOutcome n h t s root ids rows row
  insert-InsertOutcome n h s t m root ids rows row enough ready at_meta e tree entry =
      let k = key_of row in
      let x = find_leaf h (pool.view s) root ids rows k tree in
      let l = x.focus in
      let leaf = leaf_page l.id l.lsn l.records l.next l.prev in
      let held = held_to_split row leaf (pages_above x.way []) in
      let (u, ran, same) =
        insert_run n h s t m root x.top leaf row enough ready at_meta e x.at_top x.way entry in
      let held_there : lookup k rows ≡ lookup k l.records =
        ap (lookup k) l.split ∙ l.alone l.records ((λ s h p. h), (λ s h p. h)) in
      let read = leaf_get-lookup l.id l.lsn l.records l.next l.prev k l.valid in
      elim (leaf_insert-InsertCases l.id l.lsn l.records l.next l.prev row l.valid entry) [
        | inl (old, there, refused) ↦ inl (
          old,
          u,
          held_there ∙ there,
          ran ∙ insert_at_duplicate t k row old leaf held u refused (read ∙ ap ok there),
          same,
        )
        | inr (inl (absent, full, refused)) ↦ inr (
            inl (
              x.top,
              leaf,
              x.way,
              u,
              held_there ∙ absent,
              x.at_top,
              l.at,
              full,
              ran ∙ insert_at_full t k row leaf held u full (read ∙ ap ok absent),
              same,
            ))
        | inr (inr (rs, absent, done, valid, updated)) ↦
            let (i, placed, room) =
              leaf_insert_place l.id l.lsn l.records l.next l.prev row rs l.valid entry done in
            let new = leaf_page l.id l.lsn rs l.next l.prev in
            let stays =
              subst (λ xs. Stays k l.records xs) (sym placed) (Stays-insert_at row l.records i) in
            let there = same.1 l.id ∙ l.at in
            inr (
              inr (
                pool.put new u,
                l.before ++ (rs ++ l.after),
                held_there ∙ absent,
                ran ∙ insert_at_room t k row leaf new held u room done,
                (pool.put-view u new leaf same.0 there).0,
                l.plug (pool.view (pool.put new u)) rs stays (put_here u new leaf same.0 there)
                    valid (λ q n. put_others u new leaf same.0 there q n ∙ same.1 q),
                λ q. rw l.split (
                    lookup-updated k (some row) l.before l.records rs l.after (l.alone rs stays)
                      updated q),
              ))
      ]
