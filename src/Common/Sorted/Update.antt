-- ===== src/Common/Sorted/Update.antt =====
-- Insertion at the index that a failed search returns, removal at the index of a match, and
-- cutting and joining, on ascending lists.
use rust_db.Common.{
  ℕ, zero, suc, ◌≡◌, refl, List, [], ◌∷◌, ◌++◌, insert_at, remove_at, All, All-imp, All-insert_at,
  All-remove_at, All-append, All-append_left, All-append_right, first, last, none, some, subst,
  if◌then◌else◌, arith,
}
use rust_db.Common.Order.{Ord, ◌≺◌, is_eq}
use rust_db.Common.Search.{found, absent, scan}
use rust_db.Common.Sorted.{IsAscending, against, find}

module _ {K A : Type 0} ⦃o : Ord K⦄ (key : A → K) where
  -- Everything before the insertion index is smaller.
  scan_absent_head :
      (k : K) (y : A) (xs : List A) (i : ℕ)
      → scan (against key k) (y ∷ xs) ≡ absent (suc i)
      → (key y ≺ k) × (scan (against key k) xs ≡ absent i)
  unfolding scan
  scan_absent_head k y xs i e = ground arith

  scan_absent_zero_above :
      (k : K) (xs : List A)
      → IsAscending key xs
      → scan (against key k) xs ≡ absent 0
      → All (λ y. k ≺ key y) xs
  unfolding scan
  scan_absent_zero_above k [] a e = tt
  scan_absent_zero_above k (x ∷ xs) a e =
      let p : k ≺ key x = ground (arith, o.cmp_gt (key x) k) in
      (p, All-imp (λ y q. o.cmp_trans k (key x) (key y) p q) xs a.0)

  pub insert_at-IsAscending :
      (x : A) (xs : List A) (i : ℕ)
      → IsAscending key xs
      → scan (against key (key x)) xs ≡ absent i
      → IsAscending key (insert_at xs i x)
  insert_at-IsAscending x xs zero a e = (scan_absent_zero_above (key x) xs a e, a)
  insert_at-IsAscending x [] (suc i) a e = (tt, tt)
  insert_at-IsAscending x (y ∷ xs) (suc i) a e =
      let (below, rest) = scan_absent_head (key x) y xs i e in
      (All-insert_at (λ z. key y ≺ key z) xs i x below a.0, insert_at-IsAscending x xs i a.1 rest)

  -- Insertion is an update of the map.
  pub find-insert_at :
      (q : K) (x : A) (xs : List A) (i : ℕ)
      → scan (against key (key x)) xs ≡ absent i
      → IsAscending key xs
      → find key q (insert_at xs i x) ≡ (if is_eq (o.cmp (key x) q) then some x else find key q xs)
  unfolding find
  find-insert_at q x xs zero e a = ground arith
  find-insert_at q x [] (suc i) e a = ground arith
  find-insert_at q x (y ∷ xs) (suc i) e a = ground (
    arith,
    scan_absent_head (key x) y xs i e,
    find-insert_at q x xs i,
    o.cmp_eq (key x) q,
    o.cmp_eq (key y) q,
    o.cmp_self (key x),
    o.cmp_self q,
  )

  pub remove_at-IsAscending :
      (xs : List A) (i : ℕ) → IsAscending key xs → IsAscending key (remove_at xs i)
  remove_at-IsAscending [] i a = tt
  remove_at-IsAscending (x ∷ xs) zero a = a.1
  remove_at-IsAscending (x ∷ xs) (suc i) a =
      (All-remove_at (λ y. key x ≺ key y) xs i a.0, remove_at-IsAscending xs i a.1)

  find_beyond :
      (k : K) (x : A) (xs : List A) → key x ≡ k → All (λ y. key x ≺ key y) xs → find key k xs ≡ none
  unfolding find
  find_beyond k x [] p h = refl
  find_beyond k x (y ∷ xs) p h =
      let g = o.cmp_lt k (key y) (subst (λ j. j ≺ key y) p h.0) in
      rw (g, find) (find_beyond k x xs p h.1)

  -- Removal is an update of the map.
  pub find-remove_at :
      (k q : K) (xs : List A) (i : ℕ)
      → scan (against key k) xs ≡ found i
      → IsAscending key xs
      → find key q (remove_at xs i) ≡ (if is_eq (o.cmp k q) then none else find key q xs)
  unfolding find scan
  find-remove_at k q [] i e a = cc
  find-remove_at k q (x ∷ xs) zero e a =
      ground
        (arith, o.cmp_eq (key x) k, o.cmp_eq k q, o.cmp_self k, o.cmp_self q, find_beyond k x xs)
  find-remove_at k q (x ∷ xs) (suc i) e a =
      ground (arith, o.cmp_eq (key x) q, o.cmp_eq k q, o.cmp_self q, find-remove_at k q xs i)

  pub append-IsAscending :
      (xs ys : List A)
      → IsAscending key xs
      → IsAscending key ys
      → All (λ x. All (λ y. key x ≺ key y) ys) xs
      → IsAscending key (xs ++ ys)
  append-IsAscending [] ys a b h = b
  append-IsAscending (x ∷ xs) ys a b h =
      (All-append (λ y. key x ≺ key y) xs ys a.0 h.0, append-IsAscending xs ys a.1 b h.1)

  -- The two parts of an ascending list, and what holds between them.
  pub append-IsAscending_inv :
      (xs ys : List A)
      → IsAscending key (xs ++ ys)
      → IsAscending key xs × IsAscending key ys × All (λ x. All (λ y. key x ≺ key y) ys) xs
  append-IsAscending_inv [] ys a = (tt, a, tt)
  append-IsAscending_inv (x ∷ xs) ys a =
      let (front, back, across) = append-IsAscending_inv xs ys a.1 in
      (
        (All-append_left (λ y. key x ≺ key y) xs ys a.0, front),
        back,
        (All-append_right (λ y. key x ≺ key y) xs ys a.0, across),
      )

  -- Two ascending lists join where the last of the one is below the first of the other.
  join_at :
      (k : K) (xs ys : List A)
      → All (λ x. key x ≺ k) xs
      → All (λ y. k ≺ key y) ys
      → All (λ x. All (λ y. key x ≺ key y) ys) xs
  join_at k [] ys h g = tt
  join_at k (x ∷ xs) ys h g =
      (All-imp (λ y p. o.cmp_trans (key x) k (key y) h.0 p) ys g, join_at k xs ys h.1 g)

  -- All keys are at most the last one.
  pub below_last :
      (k : K) (xs : List A) (z : A)
      → IsAscending key xs
      → last xs ≡ some z
      → key z ≺ k
      → All (λ x. key x ≺ k) xs
  below_last k [] z a e h = tt
  below_last k (x ∷ []) z a e h = (ground arith, tt)
  below_last k (x ∷ y ∷ xs) z a e h =
      let rest = below_last k (y ∷ xs) z a.1 e h in
      (o.cmp_trans (key x) (key y) k a.0.0 rest.0, rest)

  pub above_first :
      (k : K) (xs : List A) (z : A)
      → IsAscending key xs
      → first xs ≡ some z
      → k ≺ key z
      → All (λ x. k ≺ key x) xs
  above_first k [] z a e h = tt
  above_first k (x ∷ xs) z a e h =
      let p : k ≺ key x = ground arith in
      (p, All-imp (λ y q. o.cmp_trans k (key x) (key y) p q) xs a.0)

  -- The last of one ascending list is below the first of another: then all of it is below all.
  pub across_ends :
      (xs : List A) (z y : A) (ys : List A)
      → IsAscending key xs
      → IsAscending key (y ∷ ys)
      → last xs ≡ some z
      → key z ≺ key y
      → All (λ x. All (λ w. key x ≺ key w) (y ∷ ys)) xs
  across_ends xs z y ys a b e h =
      All-imp (λ x p. (p, All-imp (λ w q. o.cmp_trans (key x) (key y) (key w) p q) ys b.0)) xs
        (below_last (key y) xs z a e h)
