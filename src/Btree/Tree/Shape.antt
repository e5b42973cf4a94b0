-- ===== src/Btree/Tree/Shape.antt =====
-- The trees that a store of pages can hold, with the pages they are made of and their rows in order.
use rust_db.Common.{
  ℕ, zero, suc, ◌≡◌, ◌≢◌, refl, sym, List, [], ◌∷◌, ◌++◌, Option, none, some, Ordering, lt, eq, gt,
  true, false, All, subst,
}
use rust_db.Common.Order.{◌≺◌, is_lt, is_le}
use rust_db.Common.Sorted.{find}
use rust_db.Types.{PageId}
use rust_db.Schema.Values.{VarInt}
use rust_db.Schema.Key.{Key, key_ord}
use rust_db.Schema.Row.{Row, key_of}
use rust_db.Page.{Page}
use rust_db.Page.Invariants.{IsValid}
use rust_db.Page.Leaf.Search.{leaf_page, lookup}
use rust_db.Page.Internal.Route.{internal_page}

-- No page id is in both lists.
abbrev pub AreApart : List PageId → List PageId → Type 0
AreApart as' bs = All (λ a. All (λ b. a ≢ b) bs) as'

-- The children of an internal page and their rows: those of a child are below the separator on its
-- right, and the rows after it are not.
abbrev pub Children :
    (PageId → List PageId → List Row → Type 0)
    → List PageId
    → List Key
    → List PageId
    → List Row
    → Type 0
Children P [] ks ids rows = ⊥
Children P (c ∷ []) [] ids rows = P c ids rows
Children P (c ∷ []) (k ∷ ks) ids rows = ⊥
Children P (c ∷ d ∷ cs) [] ids rows = ⊥
Children P (c ∷ d ∷ cs) (k ∷ ks) ids rows =
    (own : List PageId) × (others : List PageId) × (front : List Row) × (back : List Row) × (ids
      ≡ own ++ others)
    × (rows ≡ front ++ back)
    × AreApart own others
    × P c own front
    × All (λ r. key_of r ≺ k) front
    × All (λ r. is_lt (key_ord.cmp (key_of r) k) ≡ false) back
    × Children P (d ∷ cs) ks others back

module _ ⦃v : VarInt⦄ where
  -- The tree of a height below a page, its pages and its rows.
  abbrev pub IsTree : ℕ → (PageId → Option Page) → PageId → List PageId → List Row → Type 0
  IsTree zero view id ids rows =
      (lsn : Option ℕ) × (next : Option PageId) × (prev : Option PageId) × (ids ≡ id ∷ [])
      × (view id ≡ some (leaf_page id lsn rows next prev))
      × IsValid (leaf_page id lsn rows next prev)
  IsTree (suc h) view id ids rows =
      (lsn : Option ℕ) × (ks : List Key) × (children : List PageId) × (below : List PageId) × (ids
        ≡ id ∷ below)
      × All (λ b. id ≢ b) below
      × (view id ≡ some (internal_page id lsn ks children))
      × IsValid (internal_page id lsn ks children)
      × Children (IsTree h view) children ks below rows

-- Rows that are below the key, or above it, do not matter to the map.
pub lookup-after :
    (k s : Key) (front back : List Row)
    → All (λ r. key_of r ≺ s) front
    → is_le (key_ord.cmp s k) ≡ true
    → lookup k (front ++ back) ≡ lookup k back
unfolding find
lookup-after k s [] back h e = refl
lookup-after k s (r ∷ front) back h e =
    rw (below_key r h.0, find) (lookup-after k s front back h.1 e)
  where
    below_key : (r : Row) → key_of r ≺ s → key_ord.cmp (key_of r) k ≡ lt
    below_key r p = go (key_ord.cmp s k) refl
      where
        go : (c : Ordering) → key_ord.cmp s k ≡ c → key_ord.cmp (key_of r) k ≡ lt
        go lt q = key_ord.cmp_trans (key_of r) s k p q
        go eq q = subst (λ j. key_of r ≺ j) (key_ord.cmp_eq s k q) p
        go gt q = absurd (clash q)
          where
            clash : key_ord.cmp s k ≡ gt → ⊥
            clash w = cc

not_below-above : (j s k : Key) → is_lt (key_ord.cmp j s) ≡ false → k ≺ s → key_ord.cmp j k ≡ gt
not_below-above j s k h p = go (key_ord.cmp j s) refl
  where
    go : (c : Ordering) → key_ord.cmp j s ≡ c → key_ord.cmp j k ≡ gt
    go lt q = absurd (clash q)
      where
        clash : key_ord.cmp j s ≡ lt → ⊥
        clash w = cc
    go eq q = key_ord.cmp_lt k j (subst (λ x. k ≺ x) (sym (key_ord.cmp_eq j s q)) p)
    go gt q = key_ord.cmp_lt k j (key_ord.cmp_trans k s j p (key_ord.cmp_gt j s q))

lookup-above :
    (k s : Key) (back : List Row)
    → All (λ r. is_lt (key_ord.cmp (key_of r) s) ≡ false) back
    → k ≺ s
    → lookup k back ≡ none
unfolding find
lookup-above k s [] h p = refl
lookup-above k s (r ∷ back) h p =
    rw (not_below-above (key_of r) s k h.0 p, find) (lookup-above k s back h.1 p)

pub lookup-before :
    (k s : Key) (front back : List Row)
    → All (λ r. is_lt (key_ord.cmp (key_of r) s) ≡ false) back
    → k ≺ s
    → lookup k (front ++ back) ≡ lookup k front
unfolding find
lookup-before k s [] back h p = lookup-above k s back h p
lookup-before k s (r ∷ front) back h p =
    go (key_ord.cmp (key_of r) k) refl (lookup-before k s front back h p)
  where
    go :
        (c : Ordering)
        → key_ord.cmp (key_of r) k ≡ c
        → lookup k (front ++ back) ≡ lookup k front
        → lookup k (r ∷ (front ++ back)) ≡ lookup k (r ∷ front)
    go lt e ih = rw (e, find) ih
    go eq e ih = rw (e, find)
    go gt e ih = rw (e, find) ih
