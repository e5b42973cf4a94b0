-- ===== src/Common/Sorted/Route.antt =====
-- The number of keys that are at most a given key, as a search among separators determines it.
use rust_db.Common.{
  ℕ, suc, ◌≤◌, ◌≡◌, refl, Ordering, lt, eq, gt, true, List, [], ◌∷◌, take, drop, length, All,
  All-imp, arith,
}
use rust_db.Common.Order.{Ord, ◌≺◌, is_le}
use rust_db.Common.Search.{Position, found, absent, shift, scan}
use rust_db.Common.Sorted.{IsAscending, against, beyond, beyond_eq}

-- Equal to a key: after it.
abbrev pub route : Position → ℕ
route (found i) = suc i
route (absent i) = i

route-shift : (p : Position) → route (shift p) ≡ suc (route p)
route-shift (found i) = refl
route-shift (absent i) = refl

module _ {K A : Type 0} ⦃o : Ord K⦄ (key : A → K) where
  -- `i` keys are at most `k`, and the others are above it.
  pub record IsRouted (k : K) (xs : List A) (i : ℕ) : Type 0 where
    pub inside : i ≤ length xs
    pub at_most : All (λ x. is_le (o.cmp (key x) k) ≡ true) (take i xs)
    pub above : All (λ x. k ≺ key x) (drop i xs)

  against-above :
      (k : K) (xs : List A) → All (λ y. against key k y ≡ gt) xs → All (λ x. k ≺ key x) xs
  against-above k xs h = All-imp (λ x e. o.cmp_gt (key x) k e) xs h

  pub route-IsRouted :
      (k : K) (xs : List A) → IsAscending key xs → IsRouted k xs (route (scan (against key k) xs))
  unfolding scan
  route-IsRouted k [] a = record { inside = omega arith; at_most = tt; above = tt }
  route-IsRouted k (x ∷ xs) a = go (against key k x) refl (route-IsRouted k xs a.1)
    where
      go :
          (c : Ordering)
          → against key k x ≡ c
          → IsRouted k xs (route (scan (against key k) xs))
          → IsRouted k (x ∷ xs) (route (scan (against key k) (x ∷ xs)))
      go lt e h =
          let p : is_le (o.cmp (key x) k) ≡ true = rw e refl in
          rw (e, scan, route-shift (scan (against key k) xs))
            (record { inside = omega (arith, h.inside); at_most = (p, h.at_most); above = h.above })
      go eq e h =
          let p : is_le (o.cmp (key x) k) ≡ true = rw e refl in
          rw (e, scan)
            (record {
              inside = omega arith;
              at_most = (p, tt);
              above = against-above k xs (beyond_eq key k (key x) xs (o.cmp_eq _ _ e) a.0);
            })
      go gt e h =
          rw (e, scan)
            (record {
              inside = omega arith;
              at_most = tt;
              above = (o.cmp_gt _ _ e, against-above k xs (beyond key k (key x) xs e a.0));
            })
