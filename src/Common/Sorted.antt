-- ===== src/Common/Sorted.antt =====
-- Lists in strictly ascending order of a key: what insertion, removal and search at a scanned
-- position do to them, and to the finite map that they stand for.
pub mod Update
pub mod Route
pub mod LowerBound
use rust_db.Common.{
  ℕ, zero, suc, ◌≡◌, ◌⊎◌, inl, inr, refl, Ordering, lt, eq, gt, List, [], ◌∷◌, get_elem?, All,
  Option, none, some, subst, arith,
}
use rust_db.Common.Order.{Ord, ◌≺◌}
use rust_db.Common.Search.{Position, found, absent, shift, scan, IsPartitioned}

module _ {K A : Type 0} ⦃o : Ord K⦄ (key : A → K) where
  abbrev pub IsAscending : List A → Type 0
  IsAscending [] = Unit
  IsAscending (x ∷ xs) = All (λ y. key x ≺ key y) xs × IsAscending xs

  -- The comparison that a search for `k` makes.
  abbrev pub against : K → A → Ordering
  against k x = o.cmp (key x) k

  -- The list as a finite map.
  unfoldable pub find : K → List A → Option A
  find k [] = none
  find k (x ∷ xs) = elim (o.cmp (key x) k) [ eq ↦ some x | _ ↦ find k xs ]

  abbrev pub pick : Position → List A → Option A
  pick (found i) xs = get_elem? xs i
  pick (absent i) xs = none

  beyond :
      (k j : K) (xs : List A)
      → o.cmp j k ≡ gt
      → All (λ y. j ≺ key y) xs
      → All (λ y. against k y ≡ gt) xs
  beyond k j [] h a = tt
  beyond k j (x ∷ xs) h a =
      (o.cmp_lt _ _ (o.cmp_trans k j (key x) (o.cmp_gt _ _ h) a.0), beyond k j xs h a.1)

  beyond_eq :
      (k j : K) (xs : List A) → j ≡ k → All (λ y. j ≺ key y) xs → All (λ y. against k y ≡ gt) xs
  beyond_eq k j [] h a = tt
  beyond_eq k j (x ∷ xs) h a = (o.cmp_lt _ _ (subst (λ i. i ≺ key x) h a.0), beyond_eq k j xs h a.1)

  pub against-IsPartitioned : (k : K) (xs : List A) → IsAscending xs → IsPartitioned (against k) xs
  against-IsPartitioned k [] a = tt
  against-IsPartitioned k (x ∷ xs) a = (head (against k x) refl, against-IsPartitioned k xs a.1)
    where
      head : (c : Ordering) → against k x ≡ c → (against k x ≡ lt) ⊎ All (λ y. against k y ≡ gt) xs
      head lt e = inl e
      head eq e = inr (beyond_eq k (key x) xs (o.cmp_eq _ _ e) a.0)
      head gt e = inr (beyond k (key x) xs e a.0)

  find_above : (k : K) (xs : List A) → All (λ y. against k y ≡ gt) xs → find k xs ≡ none
  unfolding find
  find_above k [] h = refl
  find_above k (x ∷ xs) h = rw (h.0, find) (find_above k xs h.1)

  pick-shift : (x : A) (xs : List A) (p : Position) → pick (shift p) (x ∷ xs) ≡ pick p xs
  pick-shift x xs (found i) = refl
  pick-shift x xs (absent i) = refl

  -- What the scan finds is what the map holds.
  pub find-scan : (k : K) (xs : List A) → IsAscending xs → find k xs ≡ pick (scan (against k) xs) xs
  unfolding find scan
  find-scan k [] a = refl
  find-scan k (x ∷ xs) a = go (against k x) refl (find-scan k xs a.1)
    where
      go :
          (c : Ordering)
          → against k x ≡ c
          → find k xs ≡ pick (scan (against k) xs) xs
          → find k (x ∷ xs) ≡ pick (scan (against k) (x ∷ xs)) (x ∷ xs)
      go lt e ih = rw (e, find, scan, pick-shift) ih
      go eq e ih = rw (e, find, scan)
      go gt e ih = rw (e, find, scan) (find_above k xs (beyond k (key x) xs e a.0))

  pub find_key : (k : K) (xs : List A) (x : A) → find k xs ≡ some x → key x ≡ k
  unfolding find
  find_key k [] x e = cc
  find_key k (y ∷ xs) x e = ground (arith, find_key k xs x, o.cmp_eq (key y) k)

  -- A scan that finds, or does not find, ends at an index of the list.
  pub scan_bound :
      (k : K) (xs : List A) (i : ℕ)
      → scan (against k) xs ≡ found i
      → (x : A) × (get_elem? xs i ≡ some x)
  unfolding scan
  scan_bound k [] i e = cc
  scan_bound k (x ∷ xs) zero e = (x, refl)
  scan_bound k (x ∷ xs) (suc i) e = scan_bound k xs i (ground arith)
