-- ===== src/Btree/Tree/Focus.antt =====
-- A leaf of a tree, and the tree with another leaf in its place.
use rust_db.Common.{
  ℕ, ◌≡◌, ◌≢◌, refl, sym, ap, ◌∙◌, List, [], ◌∷◌, ◌++◌, Option, none, some, false, All, get_elem?,
  insert_at, remove_at, All-insert_at, All-remove_at, Ordering, lt, eq, gt, subst, if◌then◌else◌,
}
use rust_db.Common.Sorted.{find}
use rust_db.Common.Order.{is_eq, ◌≺◌, is_lt}
use rust_db.Types.{PageId}
use rust_db.Schema.Values.{VarInt}
use rust_db.Schema.Key.{Key, key_ord}
use rust_db.Schema.Row.{Row, key_of}
use rust_db.Page.{Page}
use rust_db.Page.Invariants.{IsValid}
use rust_db.Page.Leaf.Search.{leaf_page, lookup}

-- The new rows are within all the bounds that hold for the old ones and the key.
abbrev pub Stays : Key → List Row → List Row → Type 0
Stays k old new =
    ((s : Key) → All (λ r. key_of r ≺ s) old → k ≺ s → All (λ r. key_of r ≺ s) new)
    × ((s : Key)
        → All (λ r. is_lt (key_ord.cmp (key_of r) s) ≡ false) old
        → is_lt (key_ord.cmp k s) ≡ false
        → All (λ r. is_lt (key_ord.cmp (key_of r) s) ≡ false) new)

pub Stays-insert_at : (r : Row) (old : List Row) (i : ℕ) → Stays (key_of r) old (insert_at old i r)
Stays-insert_at r old i = (
  λ s h p. All-insert_at (λ r. key_of r ≺ s) old i r p h,
  λ s h p. All-insert_at (λ r. is_lt (key_ord.cmp (key_of r) s) ≡ false) old i r p h,
)

pub Stays-remove_at : (k : Key) (old : List Row) (i : ℕ) → Stays k old (remove_at old i)
Stays-remove_at k old i = (
  λ s h p. All-remove_at (λ r. key_of r ≺ s) old i h,
  λ s h p. All-remove_at (λ r. is_lt (key_ord.cmp (key_of r) s) ≡ false) old i h,
)

module _ ⦃v : VarInt⦄ where
  -- A tree `T` of rows with the leaf for a key: the leaf can be replaced by a valid leaf whose rows
  -- stay within the bounds, and what the tree then holds for the key is what the leaf holds.
  pub record Focus (T : (PageId → Option Page) → List Row → Type 0) (view : PageId → Option Page)
      (ids : List PageId) (rows : List Row) (k : Key) : Type 0 where
    pub id : PageId
    pub lsn : Option ℕ
    pub records : List Row
    pub next : Option PageId
    pub prev : Option PageId
    pub before : List Row
    pub after : List Row
    pub at : view id ≡ some (leaf_page id lsn records next prev)
    pub valid : IsValid (leaf_page id lsn records next prev)
    pub place : ℕ
    pub inside : get_elem? ids place ≡ some id
    pub split : rows ≡ before ++ (records ++ after)
    pub plug :
        (view' : PageId → Option Page) (new : List Row)
        → Stays k records new
        → view' id ≡ some (leaf_page id lsn new next prev)
        → IsValid (leaf_page id lsn new next prev)
        → ((q : PageId) → q ≢ id → view' q ≡ view q)
        → T view' (before ++ (new ++ after))
    pub alone :
        (new : List Row) → Stays k records new → lookup k (before ++ (new ++ after)) ≡ lookup k new

abbrev or_else : Option Row → Option Row → Option Row
or_else (some r) other = some r
or_else none other = other

lookup-append :
    (k : Key) (xs ys : List Row) → lookup k (xs ++ ys) ≡ or_else (lookup k xs) (lookup k ys)
unfolding find
lookup-append k [] ys = refl
lookup-append k (x ∷ xs) ys = go (key_ord.cmp (key_of x) k) refl (lookup-append k xs ys)
  where
    go :
        (c : Ordering)
        → key_ord.cmp (key_of x) k ≡ c
        → lookup k (xs ++ ys) ≡ or_else (lookup k xs) (lookup k ys)
        → lookup k (x ∷ (xs ++ ys)) ≡ or_else (lookup k (x ∷ xs)) (lookup k ys)
    go lt e ih = rw (e, find) ih
    go eq e ih = rw (e, find) refl
    go gt e ih = rw (e, find) ih

-- For a key that the old and the new rows agree on, the whole agrees.
lookup-middle :
    (k : Key) (before old new after : List Row)
    → lookup k new ≡ lookup k old
    → lookup k (before ++ (new ++ after)) ≡ lookup k (before ++ (old ++ after))
lookup-middle k before old new after e =
    let inner : lookup k (new ++ after) ≡ lookup k (old ++ after) =
      lookup-append k new after
      ∙ (ap (λ x. or_else x (lookup k after)) e ∙ sym (lookup-append k old after)) in
    lookup-append k before (new ++ after)
    ∙ (ap (or_else (lookup k before)) inner ∙ sym (lookup-append k before (old ++ after)))

-- The map of the new rows is the old one but for the key, so the map of the whole is too.
pub lookup-updated :
    (k : Key) (value : Option Row) (before old new after : List Row)
    → lookup k (before ++ (new ++ after)) ≡ lookup k new
    → ((q : Key) → lookup q new ≡ (if is_eq (key_ord.cmp k q) then value else lookup q old))
    → (q : Key)
    → lookup q (before ++ (new ++ after))
      ≡ (if is_eq (key_ord.cmp k q) then value else lookup q (before ++ (old ++ after)))
lookup-updated k value before old new after alone updated q = go (key_ord.cmp k q) refl (updated q)
  where
    go :
        (c : Ordering)
        → key_ord.cmp k q ≡ c
        → lookup q new ≡ (if is_eq (key_ord.cmp k q) then value else lookup q old)
        → lookup q (before ++ (new ++ after))
          ≡ (if is_eq (key_ord.cmp k q) then value else lookup q (before ++ (old ++ after)))
    go lt e u = rw e (lookup-middle q before old new after (rw e at u))
    go gt e u = rw e (lookup-middle q before old new after (rw e at u))
    go eq e u =
        let same : k ≡ q = key_ord.cmp_eq k q e in
        rw e
          (subst (λ j. lookup j (before ++ (new ++ after)) ≡ lookup j new) same alone ∙ (rw e at u))
