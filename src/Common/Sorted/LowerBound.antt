-- ===== src/Common/Sorted/LowerBound.antt =====
-- The partition point of an ascending list: how many keys are below a given one, by a search that
-- never reports a match.
use rust_db.Common.{
  ℕ, suc, ◌≡◌, inl, inr, refl, Ordering, lt, eq, gt, Bool, true, false, if◌then◌else◌, List, [],
  ◌∷◌, take, drop, All, All-imp, Bool-cases,
}
use rust_db.Common.Order.{Ord, ◌≺◌, is_lt}
use rust_db.Common.Search.{absent, scan, IsPartitioned}
use rust_db.Common.Sorted.{IsAscending, against, beyond, beyond_eq}

module _ {K A : Type 0} ⦃o : Ord K⦄ (key : A → K) where
  abbrev pub is_below : K → A → Bool
  is_below k x = is_lt (against key k x)

  abbrev pub side_of : K → A → Ordering
  side_of k x = if is_below k x then lt else gt

  not_below :
      (k : K) (xs : List A)
      → All (λ y. against key k y ≡ gt) xs
      → All (λ y. is_below k y ≡ false) xs
  not_below k xs h = All-imp (λ y e. rw e refl) xs h

  rest_above :
      (k : K) (x : A) (xs : List A)
      → is_below k x ≡ false
      → All (λ y. key x ≺ key y) xs
      → All (λ y. is_below k y ≡ false) xs
  rest_above k x xs h a = go (against key k x) refl
    where
      go : (c : Ordering) → against key k x ≡ c → All (λ y. is_below k y ≡ false) xs
      go lt e = absurd (clash e)
        where
          clash : against key k x ≡ lt → ⊥
          clash p = cc
      go eq e = not_below k xs (beyond_eq key k (key x) xs (o.cmp_eq _ _ e) a)
      go gt e = not_below k xs (beyond key k (key x) xs e a)

  pub side_of-IsPartitioned :
      (k : K) (xs : List A) → IsAscending key xs → IsPartitioned (side_of k) xs
  side_of-IsPartitioned k [] a = tt
  side_of-IsPartitioned k (x ∷ xs) a = (
    elim (Bool-cases (is_below k x)) [
      | inl below ↦ inl (rw below refl)
      | inr above ↦ inr (All-imp (λ y e. rw e refl) xs (rest_above k x xs above a.0))
    ],
    side_of-IsPartitioned k xs a.1,
  )

  -- The search ends at the number of keys that are below.
  pub scan-side_of :
      (k : K) (xs : List A)
      → IsAscending key xs
      → (i : ℕ) × (scan (side_of k) xs ≡ absent i)
        × All (λ x. is_below k x ≡ true) (take i xs)
        × All (λ x. is_below k x ≡ false) (drop i xs)
  unfolding scan
  scan-side_of k [] a = (0, refl, tt, tt)
  scan-side_of k (x ∷ xs) a =
      let (i, e, low, high) = scan-side_of k xs a.1 in
      elim (Bool-cases (is_below k x)) [
        | inl below ↦ (suc i, rw (below, e, scan), (below, low), high)
        | inr above ↦ (0, rw (above, scan), tt, (above, rest_above k x xs above a.0))
      ]
