-- ===== src/Page/Internal/Neighbours.antt =====
-- A separator and its neighbours: the two comparisons of `internal_replace_key`, and what they decide.
use rust_db.Common.{
  ℕ, zero, suc, ◌+◌, ◌-◌, ◌<◌, ◌≡◌, inl, inr, refl, sym, ap, ◌==◌, Bool, true, false, List, [], ◌∷◌,
  ok, All, All-imp, length, some, get_elem?, get_within, get_bound, set, sum_by, Bool-cases, subst,
  arith,
}
use rust_db.Common.Order.{◌≺◌, is_lt}
use rust_db.Common.Sorted.{IsAscending}
use rust_db.Schema.Key.{Key, key_ord}
use rust_db.Page.Internal.{above_left, below_right}
use rust_db.Page.Internal.Route.{itself}

-- The new key is above the left neighbour of index `i`, and below the right one.
abbrev pub FitsBetween : List Key → ℕ → Key → Type 0
FitsBetween [] i k = Unit
FitsBetween (x ∷ xs) (suc i) k = ((i ≡ 0) → x ≺ k) × FitsBetween xs i k
FitsBetween (x ∷ []) zero k = Unit
FitsBetween (x ∷ y ∷ xs) zero k = k ≺ y

pub set-All :
    (P : Key → Type 0) (ks : List Key) (i : ℕ) (k : Key) → P k → All P ks → All P (set ks i k)
set-All P [] i k p h = tt
set-All P (x ∷ ks) zero k p h = (p, h.1)
set-All P (x ∷ ks) (suc i) k p h = (h.0, set-All P ks i k p h.1)

set-above :
    (x : Key) (ks : List Key) (i : ℕ) (k : Key)
    → All (λ y. x ≺ y) ks
    → IsAscending itself ks
    → FitsBetween (x ∷ ks) (suc i) k
    → i < length ks
    → x ≺ k
set-above x [] i k h a b small = elim small [ ]
set-above x (y ∷ ks) zero k h a b small = b.0 refl
set-above x (y ∷ ks) (suc i) k h a b small =
    key_ord.cmp_trans x y k h.0 (set-above y ks i k a.0 a.1 b.1 (omega arith))

pub set-IsAscending :
    (ks : List Key) (i : ℕ) (k : Key)
    → IsAscending itself ks
    → i < length ks
    → FitsBetween ks i k
    → IsAscending itself (set ks i k)
set-IsAscending [] i k a small b = tt
set-IsAscending (x ∷ []) zero k a small b = (tt, tt)
set-IsAscending (x ∷ y ∷ ks) zero k a small b =
    ((b, All-imp (λ z p. key_ord.cmp_trans k y z b p) ks a.1.0), a.1)
set-IsAscending (x ∷ ks) (suc i) k a small b = (
  set-All (λ z. x ≺ z) ks i k (set-above x ks i k a.0 a.1 b (omega arith)) a.0,
  set-IsAscending ks i k a.1 (omega arith) b.1,
)

pub FitsBetween-of :
    (ks : List Key) (i : ℕ) (k : Key)
    → i < length ks
    → ((x : Key) (j : ℕ) → i ≡ suc j → get_elem? ks j ≡ some x → x ≺ k)
    → ((y : Key) → get_elem? ks (suc i) ≡ some y → k ≺ y)
    → FitsBetween ks i k
FitsBetween-of [] i k small l r = tt
FitsBetween-of (x ∷ []) zero k small l r = tt
FitsBetween-of (x ∷ y ∷ ks) zero k small l r = r y refl
FitsBetween-of (x ∷ ks) (suc i) k small l r = (
  λ e. l x 0 (ap suc e) refl,
  FitsBetween-of ks i k (omega arith) (λ z j e here. l z (suc j) (ap suc e) here) r,
)

pub FitsBetween-left :
    (ks : List Key) (i : ℕ) (k : Key)
    → FitsBetween ks i k
    → (x : Key) (j : ℕ) → i ≡ suc j
    → get_elem? ks j ≡ some x
    → x ≺ k
FitsBetween-left [] i k b x j e here = cc
FitsBetween-left (z ∷ ks) zero k b x j e here = absurd (omega arith)
FitsBetween-left (z ∷ ks) (suc i) k b x zero e here =
    let own : z ≡ x = cc in subst (λ w. w ≺ k) own (b.0 (omega arith))
FitsBetween-left (z ∷ ks) (suc i) k b x (suc j) e here =
    FitsBetween-left ks i k b.1 x j (omega arith) here

pub FitsBetween-right :
    (ks : List Key) (i : ℕ) (k : Key)
    → FitsBetween ks i k
    → (y : Key) → get_elem? ks (suc i) ≡ some y
    → k ≺ y
FitsBetween-right [] i k b y here = cc
FitsBetween-right (x ∷ []) zero k b y here = cc
FitsBetween-right (x ∷ z ∷ ks) zero k b y here = let own : z ≡ y = cc in subst (λ w. k ≺ w) own b
FitsBetween-right (x ∷ ks) (suc i) k b y here = FitsBetween-right ks i k b.1 y here

is_lt-lt : (j k : Key) → is_lt (key_ord.cmp j k) ≡ true → j ≺ k
is_lt-lt j k h = ground arith

-- What the test of the left neighbour returns, and that of the right one.
pub left_side :
    (ks : List Key) (i : ℕ) (k : Key)
    → i < length ks
    → (l : Bool) × (above_left ks i k ≡ ok l)
      × (l ≡ true → (x : Key) (j : ℕ) → i ≡ suc j → get_elem? ks j ≡ some x → x ≺ k)
      × (((x : Key) (j : ℕ) → i ≡ suc j → get_elem? ks j ≡ some x → x ≺ k) → l ≡ true)
left_side ks zero k small = (true, refl, λ e x j q. absurd (omega arith), λ f. refl)
left_side ks (suc i) k small =
    let (y, here) = get_within ks i (omega arith) in
    let back : suc i - 1 ≡ i = omega arith in
    let more : (suc i == 0) ≡ false = ground arith in
    (
      is_lt (key_ord.cmp y k),
      rw (more, back, here),
      λ e x j q at.
          let same : i ≡ j = omega arith in
          let own : y ≡ x = one_value here (rw (sym same) at at) in
          subst (λ z. z ≺ k) own (is_lt-lt y k e),
      λ f. rw (f y i refl here) refl,
    )
  where
    one_value : {x y : Key} → get_elem? ks i ≡ some y → get_elem? ks i ≡ some x → y ≡ x
    one_value p q = cc

pub right_side :
    (ks : List Key) (i : ℕ) (k : Key)
    → i < length ks
    → (r : Bool) × (below_right ks i k ≡ ok r)
      × (r ≡ true → (y : Key) → get_elem? ks (suc i) ≡ some y → k ≺ y)
      × (((y : Key) → get_elem? ks (suc i) ≡ some y → k ≺ y) → r ≡ true)
right_side ks i k small = elim (Bool-cases (i + 1 == length ks)) [
  | inl final ↦ (
    true,
    rw final refl,
    λ e y at. absurd (omega (arith, get_bound ks (suc i) y at, final_eq final)),
    λ f. refl,
  )
  | inr more ↦
      let (z, here) = get_within ks (i + 1) (before more) in
      (
        is_lt (key_ord.cmp k z),
        rw (more, here),
        λ e y at.
            let same : suc i ≡ i + 1 = omega arith in
            let own : z ≡ y = one_value here (rw same at at) in
            subst (λ w. k ≺ w) own (is_lt-lt k z e),
        λ f. let same : i + 1 ≡ suc i = omega arith in rw (f z (rw same at here)) refl,
      )
]
  where
    final_eq : (i + 1 == length ks) ≡ true → i + 1 ≡ length ks
    final_eq e = ground arith

    before : (i + 1 == length ks) ≡ false → i + 1 < length ks
    before e = ground arith

    one_value : {x y : Key} → get_elem? ks (i + 1) ≡ some y → get_elem? ks (i + 1) ≡ some x → y ≡ x
    one_value p q = cc

pub sum_by-set :
    (f : Key → ℕ) (ks : List Key) (i : ℕ) (old new : Key)
    → get_elem? ks i ≡ some old
    → sum_by f (set ks i new) + f old ≡ sum_by f ks + f new
sum_by-set f [] i old new e = cc
sum_by-set f (x ∷ ks) zero old new e = ground arith
sum_by-set f (x ∷ ks) (suc i) old new e = omega (arith, sum_by-set f ks i old new e)

pub length-set : (ks : List Key) (i : ℕ) (k : Key) → length (set ks i k) ≡ length ks
length-set [] i k = refl
length-set (x ∷ ks) zero k = refl
length-set (x ∷ ks) (suc i) k = ap suc (length-set ks i k)
