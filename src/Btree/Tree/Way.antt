-- ===== src/Btree/Tree/Way.antt =====
-- The leaf that a key is routed to in a tree, the way down to it, and what can be put in its place.
use rust_db.Common.{
  ℕ, zero, suc, ◌≡◌, ◌≢◌, refl, sym, ap, ◌∙◌, List, [], ◌∷◌, ◌++◌, append-nil, append_assoc, Option,
  some, true, false, ok, All, All-imp, All-get, All-append, All-append_left, All-append_right,
  get_elem?, Ordering, lt, eq, gt, subst, arith,
}
use rust_db.Common.Order.{◌≺◌, is_lt, is_le}
use rust_db.Common.Sorted.Route.{IsRouted}
use rust_db.Types.{PageId}
use rust_db.Schema.Values.{VarInt}
use rust_db.Schema.Key.{Key, key_ord}
use rust_db.Schema.Row.{Row, key_of}
use rust_db.Page.{Page, is_internal}
use rust_db.Page.Leaf.Search.{leaf_page, lookup}
use rust_db.Page.Internal.{find_child_index}
use rust_db.Page.Internal.Route.{internal_page, itself, find_child_index-IsRouted}
use rust_db.Btree.Tree.Shape.{IsTree, Children, lookup-after, lookup-before}
use rust_db.Btree.Tree.Focus.{Focus}
use rust_db.Btree.Tree.Same.{same-Children, same_tree, agree}

-- The way from a page to a leaf, by the height.
pub data Way (view : PageId → Option Page) (k : Key) : ℕ → Page → Page → Type 0 where
  here : (p : Page) → is_internal p ≡ false → Way view k zero p p
  down :
      (h i : ℕ) (c : PageId) (p q leaf : Page)
      → is_internal p ≡ true
      → find_child_index p k ≡ ok (some (i, c))
      → view c ≡ some q
      → Way view k h q leaf
      → Way view k (suc h) p leaf

-- The middle of three lists replaced, for what holds of all three.
All-middle :
    {A : Type 0} (P : A → Type 0) (before old new after : List A)
    → (All P old → All P new)
    → All P (before ++ (old ++ after))
    → All P (before ++ (new ++ after))
All-middle P before old new after f h =
    let rest = All-append_right P before (old ++ after) h in
    All-append P before (new ++ after) (All-append_left P before (old ++ after) h) (
      All-append P new after (f (All-append_left P old after rest))
        (All-append_right P old after rest))

get_append_left :
    {A : Type 0} (xs ys : List A) (i : ℕ) (x : A)
    → get_elem? xs i ≡ some x
    → get_elem? (xs ++ ys) i ≡ some x
get_append_left {A = A} [] ys i x e = absurd (clash e)
  where
    clash : get_elem? {A = A} [] i ≡ some x → ⊥
    clash q = cc
get_append_left (y ∷ xs) ys zero x e = e
get_append_left (y ∷ xs) ys (suc i) x e = get_append_left xs ys i x e

get_append_right :
    {A : Type 0} (xs ys : List A) (i : ℕ) (x : A)
    → get_elem? ys i ≡ some x
    → (j : ℕ) × (get_elem? (xs ++ ys) j ≡ some x)
get_append_right [] ys i x e = (i, e)
get_append_right (y ∷ xs) ys i x e = let (j, there) = get_append_right xs ys i x e in (suc j, there)

regroup : {A : Type 0} (xs ys zs ws : List A) → xs ++ (ys ++ (zs ++ ws)) ≡ (xs ++ (ys ++ zs)) ++ ws
regroup xs ys zs ws = simp (append_assoc)

at_least_below : (s k : Key) → is_le (key_ord.cmp s k) ≡ true → is_lt (key_ord.cmp k s) ≡ false
at_least_below s k h = go (key_ord.cmp k s) refl
  where
    go : (c : Ordering) → key_ord.cmp k s ≡ c → is_lt (key_ord.cmp k s) ≡ false
    go lt e = absurd (clash (key_ord.cmp_lt k s e))
      where
        clash : key_ord.cmp s k ≡ gt → ⊥
        clash q = cc
    go eq e = rw e refl
    go gt e = rw e refl

first_child : (d : PageId) (ds : List PageId) (c : PageId) → get_elem? (d ∷ ds) 0 ≡ some c → d ≡ c
first_child d ds c e = cc

module _ ⦃v : VarInt⦄ where
  -- The page at the top of a tree, the leaf for the key, and the way from the one to the other.
  pub record Found (h : ℕ) (T : (PageId → Option Page) → List Row → Type 0)
      (view : PageId → Option Page) (id : PageId) (ids : List PageId) (rows : List Row) (k : Key)
      : Type 0 where
    pub top : Page
    pub at_top : view id ≡ some top
    pub focus : Focus T view ids rows k
    pub way : Way view k h top (leaf_page focus.id focus.lsn focus.records focus.next focus.prev)

  focus_leaf :
      (view : PageId → Option Page) (id : PageId) (ids : List PageId) (rows : List Row) (k : Key)
      → IsTree zero view id ids rows
      → Focus (λ w rs. IsTree zero w id ids rs) view ids rows k
  focus_leaf view id ids rows k (lsn, next, prev, e, at, valid) = record {
    id = id;
    lsn = lsn;
    records = rows;
    next = next;
    prev = prev;
    before = [];
    after = [];
    at = at;
    valid = valid;
    place = 0;
    inside = rw e refl;
    split = sym (append-nil rows);
    plug = λ view' new stays at' valid' others.
        subst (λ rs. IsTree zero view' id ids rs) (sym (append-nil new))
          (lsn, next, prev, e, at', valid');
    alone = λ new stays. ap (lookup k) (append-nil new);
  }

  -- The child that the key is routed to, with the leaf below it.
  focus-Children :
      (h : ℕ) (view : PageId → Option Page) (k : Key) (children : List PageId) (ks : List Key)
      (ids : List PageId) (rows : List Row) (i : ℕ) (c : PageId)
      → ((c : PageId) (own : List PageId) (part : List Row)
          → IsTree h view c own part
          → Found h (λ w rs. IsTree h w c own rs) view c own part k)
      → Children (IsTree h view) children ks ids rows
      → IsRouted itself k ks i
      → get_elem? children i ≡ some c
      → Found h (λ w rs. Children (IsTree h w) children ks ids rs) view c ids rows k
  focus-Children h view k [] ks ids rows i c f t r g = absurd t
  focus-Children h view k (d ∷ []) [] ids rows zero c f t r g =
      let x = f d ids rows t in
      record {
        top = x.top;
        at_top = ap view (sym (first_child d [] c g)) ∙ x.at_top;
        focus = x.focus;
        way = x.way;
      }
  focus-Children h view k (d ∷ []) [] ids rows (suc i) c f t r g = absurd (clash g)
    where
      clash : get_elem? (d ∷ []) (suc i) ≡ some c → ⊥
      clash q = cc
  focus-Children h view k (d ∷ []) (s ∷ ks) ids rows i c f t r g = absurd t
  focus-Children h view k (d ∷ e ∷ cs) [] ids rows i c f t r g = absurd t
  focus-Children h view k (d ∷ e ∷ cs) (s ∷ ks) ids rows zero c f
        (own, others, front, back, a, b, apart, p, low, high, rest) r g =
      let x = f d own front p in
      let l = x.focus in
      let below_front : (new : List Row)
          → (All (λ r. key_of r ≺ s) l.records → All (λ r. key_of r ≺ s) new)
          → All (λ r. key_of r ≺ s) (l.before ++ (new ++ l.after)) =
        λ new g.
          All-middle (λ r. key_of r ≺ s) l.before l.records new l.after g
            (subst (λ xs. All (λ r. key_of r ≺ s) xs) l.split low) in
      let away : All (λ q. q ≢ l.id) others =
        All-imp (λ q n w. n (sym w)) others
          (All-get (λ a. All (λ b. a ≢ b) others) own l.place l.id apart l.inside) in
      let whole : Focus (λ w rs. Children (IsTree h w) (d ∷ e ∷ cs) (s ∷ ks) ids rs) view ids rows
          k =
        record {
          id = l.id;
          lsn = l.lsn;
          records = l.records;
          next = l.next;
          prev = l.prev;
          before = l.before;
          after = l.after ++ back;
          at = l.at;
          valid = l.valid;
          place = l.place;
          inside = rw a (get_append_left own others l.place l.id l.inside);
          split =
              rw b (ap (λ xs. xs ++ back) l.split ∙ sym (regroup l.before l.records l.after back));
          plug = λ view' new stays at' valid' same. (
            own,
            others,
            l.before ++ (new ++ l.after),
            back,
            a,
            regroup l.before new l.after back,
            apart,
            l.plug view' new stays at' valid' same,
            below_front new (λ old. stays.0 s old r.above.0),
            high,
            same-Children h view view' (e ∷ cs) ks others back
                (λ c ids rows. same_tree h view view' c ids rows)
                (agree view view' l.id others same away) rest,
          );
          alone = λ new stays.
              ap (lookup k) (regroup l.before new l.after back)
              ∙ (lookup-before k s (l.before ++ (new ++ l.after)) back high r.above.0
                  ∙ l.alone new stays);
        } in
      record {
        top = x.top;
        at_top = ap view (sym (first_child d (e ∷ cs) c g)) ∙ x.at_top;
        focus = whole;
        way = x.way;
      }
  focus-Children h view k (d ∷ e ∷ cs) (s ∷ ks) ids rows (suc i) c f
        (own, others, front, back, a, b, apart, p, low, high, rest) r g =
      let x =
        focus-Children h view k (e ∷ cs) ks others back i c f rest
          (record { inside = omega (arith, r.inside); at_most = r.at_most.1; above = r.above }) g in
      let l = x.focus in
      let (j, there) = get_append_right own others l.place l.id l.inside in
      let away : All (λ q. q ≢ l.id) own =
        All-imp (λ q n. All-get (λ b. q ≢ b) others l.place l.id n l.inside) own apart in
      let above_back : (new : List Row)
          → (All (λ r. is_lt (key_ord.cmp (key_of r) s) ≡ false) l.records
              → All (λ r. is_lt (key_ord.cmp (key_of r) s) ≡ false) new)
          → All (λ r. is_lt (key_ord.cmp (key_of r) s) ≡ false) (l.before ++ (new ++ l.after)) =
        λ new g.
          All-middle (λ r. is_lt (key_ord.cmp (key_of r) s) ≡ false) l.before l.records new l.after
            g (subst (λ xs. All (λ r. is_lt (key_ord.cmp (key_of r) s) ≡ false) xs) l.split high) in
      let whole : Focus (λ w rs. Children (IsTree h w) (d ∷ e ∷ cs) (s ∷ ks) ids rs) view ids rows
          k =
        record {
          id = l.id;
          lsn = l.lsn;
          records = l.records;
          next = l.next;
          prev = l.prev;
          before = front ++ l.before;
          after = l.after;
          at = l.at;
          valid = l.valid;
          place = j;
          inside = rw a there;
          split =
              b
              ∙ (ap (λ xs. front ++ xs) l.split
                  ∙ sym (append_assoc front l.before (l.records ++ l.after)));
          plug = λ view' new stays at' valid' same. (
            own,
            others,
            front,
            l.before ++ (new ++ l.after),
            a,
            append_assoc front l.before (new ++ l.after),
            apart,
            same_tree h view view' d own front (agree view view' l.id own same away) p,
            low,
            above_back new (λ old. stays.1 s old (at_least_below s k r.at_most.0)),
            l.plug view' new stays at' valid' same,
          );
          alone = λ new stays.
              ap (lookup k) (append_assoc front l.before (new ++ l.after))
              ∙ (lookup-after k s front (l.before ++ (new ++ l.after)) low r.at_most.0
                  ∙ l.alone new stays);
        } in
      record { top = x.top; at_top = x.at_top; focus = whole; way = x.way }

  -- A tree has a leaf for each key.
  pub find_leaf :
      (h : ℕ) (view : PageId → Option Page) (id : PageId) (ids : List PageId) (rows : List Row)
      (k : Key)
      → IsTree h view id ids rows
      → Found h (λ w rs. IsTree h w id ids rs) view id ids rows k
  unfolding focus_leaf
  find_leaf zero view id ids rows k (lsn, next, prev, e, at, valid) = record {
    top = leaf_page id lsn rows next prev;
    at_top = at;
    focus = focus_leaf view id ids rows k (lsn, next, prev, e, at, valid);
    way = here (leaf_page id lsn rows next prev) refl;
  }
  find_leaf (suc h) view id ids rows k (lsn, ks, children, below, e, fresh, at, valid, trees) =
      let (i, c, found, child, routed) = find_child_index-IsRouted id lsn ks children k valid in
      let x =
        focus-Children h view k children ks below rows i c
          (λ c ids rows. find_leaf h view c ids rows k) trees routed child in
      let l = x.focus in
      let whole : Focus (λ w rs. IsTree (suc h) w id ids rs) view ids rows k = record {
        id = l.id;
        lsn = l.lsn;
        records = l.records;
        next = l.next;
        prev = l.prev;
        before = l.before;
        after = l.after;
        at = l.at;
        valid = l.valid;
        place = suc l.place;
        inside = rw e l.inside;
        split = l.split;
        plug = λ view' new stays at' valid' same. (
          lsn,
          ks,
          children,
          below,
          e,
          fresh,
          same id (All-get (λ b. id ≢ b) below l.place l.id fresh l.inside) ∙ at,
          valid,
          l.plug view' new stays at' valid' same,
        );
        alone = l.alone;
      } in
      record {
        top = internal_page id lsn ks children;
        at_top = at;
        focus = whole;
        way =
            down h i c (internal_page id lsn ks children) x.top
              (leaf_page l.id l.lsn l.records l.next l.prev) refl found x.at_top x.way;
      }
