-- ===== src/Common/Lists.antt =====
-- Lists measured and indexed by native numbers, under the library's names, with the operations of
-- `Vec` that the program calls: `insert`, `remove`, `push`, `pop`, `split_off`, `first`, `last`.
use Prim.Native.Nat.{ℕ, zero, suc, ◌+◌, ◌-◌, ◌<◌, ◌≤◌}
use mathlib.Core.Path.{◌≡◌, refl, ap, subst}
use mathlib.Core.List.{List, [], ◌∷◌, ◌++◌}
use mathlib.Core.Option.{Option, none, some}
use native.Mathlib.Omega.{arith}

module _ {ℓ} {A : Type ℓ} where
  abbrev pub length : List A → ℕ
  length [] = 0
  length (x ∷ xs) = suc (length xs)

  abbrev pub get_elem? : List A → ℕ → Option A
  get_elem? [] i = none
  get_elem? (x ∷ xs) zero = some x
  get_elem? (x ∷ xs) (suc i) = get_elem? xs i

  -- A write out of bounds changes nothing.
  abbrev pub set : List A → ℕ → A → List A
  set [] i v = []
  set (x ∷ xs) zero v = v ∷ xs
  set (x ∷ xs) (suc i) v = x ∷ set xs i v

  abbrev pub take : ℕ → List A → List A
  take zero xs = []
  take (suc n) [] = []
  take (suc n) (x ∷ xs) = x ∷ take n xs

  abbrev pub drop : ℕ → List A → List A
  drop zero xs = xs
  drop (suc n) [] = []
  drop (suc n) (x ∷ xs) = drop n xs

  -- `Vec::insert`; past the end the value is appended (the program never asks for that).
  abbrev pub insert_at : List A → ℕ → A → List A
  insert_at xs zero v = v ∷ xs
  insert_at [] (suc i) v = v ∷ []
  insert_at (x ∷ xs) (suc i) v = x ∷ insert_at xs i v

  -- `Vec::remove`, without the removed value; out of bounds nothing changes.
  abbrev pub remove_at : List A → ℕ → List A
  remove_at [] i = []
  remove_at (x ∷ xs) zero = xs
  remove_at (x ∷ xs) (suc i) = x ∷ remove_at xs i

  abbrev pub first : List A → Option A
  first [] = none
  first (x ∷ xs) = some x

  abbrev pub last : List A → Option A
  last [] = none
  last (x ∷ []) = some x
  last (x ∷ y ∷ xs) = last (y ∷ xs)

  -- The list without its last value, what `Vec::pop` leaves.
  abbrev pub but_last : List A → List A
  but_last [] = []
  but_last (x ∷ []) = []
  but_last (x ∷ y ∷ xs) = x ∷ but_last (y ∷ xs)

  abbrev pub sum_by : (A → ℕ) → List A → ℕ
  sum_by f [] = 0
  sum_by f (x ∷ xs) = f x + sum_by f xs

  -- A predicate by recursion computes to tuples, which the tactics read and build.
  abbrev pub All {κ} : (A → Type κ) → List A → Type κ
  All P [] = Unit
  All P (x ∷ xs) = P x × All P xs

  pub length-append : (xs ys : List A) → length (xs ++ ys) ≡ length xs + length ys
  length-append [] ys = omega arith
  length-append (x ∷ xs) ys = omega (arith, length-append xs ys)

  pub take-append-drop : (n : ℕ) (xs : List A) → take n xs ++ drop n xs ≡ xs
  take-append-drop zero xs = refl
  take-append-drop (suc n) [] = refl
  take-append-drop (suc n) (x ∷ xs) = ap (λ l. x ∷ l) (take-append-drop n xs)

  pub length-take-le : (n : ℕ) (xs : List A) → n ≤ length xs → length (take n xs) ≡ n
  length-take-le zero xs h = refl
  length-take-le (suc n) [] h = elim h [ ]
  length-take-le (suc n) (x ∷ xs) h = omega (arith, length-take-le n xs (omega arith))

  pub length-drop : (n : ℕ) (xs : List A) → length (drop n xs) ≡ length xs - n
  length-drop zero xs = omega arith
  length-drop (suc n) [] = omega arith
  length-drop (suc n) (x ∷ xs) = omega (arith, length-drop n xs)

  pub length-insert_at : (xs : List A) (i : ℕ) (v : A) → length (insert_at xs i v) ≡ suc (length xs)
  length-insert_at [] zero v = refl
  length-insert_at [] (suc i) v = refl
  length-insert_at (x ∷ xs) zero v = refl
  length-insert_at (x ∷ xs) (suc i) v = ap suc (length-insert_at xs i v)

  pub length-remove_at :
      (xs : List A) (i : ℕ) → i < length xs → suc (length (remove_at xs i)) ≡ length xs
  length-remove_at [] i h = elim h [ ]
  length-remove_at (x ∷ xs) zero h = refl
  length-remove_at (x ∷ xs) (suc i) h = ap suc (length-remove_at xs i (omega arith))

  pub drop-cons :
      (k : ℕ) (xs : List A) → k < length xs → (y : A) × (ys : List A) × (drop k xs ≡ y ∷ ys)
  drop-cons k [] h = elim h [ ]
  drop-cons zero (x ∷ xs) h = (x, xs, refl)
  drop-cons (suc k) (x ∷ xs) h = drop-cons k xs (omega arith)

  drop_next :
      (k : ℕ) (xs : List A) (y : A) (ys : List A) → drop k xs ≡ y ∷ ys → drop (suc k) xs ≡ ys
  drop_next zero [] y ys e = cc
  drop_next (suc k) [] y ys e = cc
  drop_next zero (x ∷ xs) y ys e = cc
  drop_next (suc k) (x ∷ xs) y ys e = drop_next k xs y ys e

  pub drop_suc :
      (k : ℕ) (xs : List A) (y : A) (ys : List A) → drop k xs ≡ y ∷ ys → drop (k + 1) xs ≡ ys
  drop_suc k xs y ys e =
      let next : suc k ≡ k + 1 = omega arith in
      subst (λ j. drop j xs ≡ ys) next (drop_next k xs y ys e)

  pub get_within : (xs : List A) (i : ℕ) → i < length xs → (x : A) × (get_elem? xs i ≡ some x)
  get_within [] i h = elim h [ ]
  get_within (x ∷ xs) zero h = (x, refl)
  get_within (x ∷ xs) (suc i) h = get_within xs i (omega arith)

  pub get_bound : (xs : List A) (i : ℕ) (x : A) → get_elem? xs i ≡ some x → i < length xs
  get_bound [] i x e = cc
  get_bound (y ∷ xs) zero x e = omega arith
  get_bound (y ∷ xs) (suc i) x e = omega (arith, get_bound xs i x e)

  pub get_beyond : (xs : List A) (i : ℕ) → length xs ≤ i → get_elem? xs i ≡ none
  get_beyond [] i h = refl
  get_beyond (y ∷ xs) zero h = absurd (omega arith)
  get_beyond (y ∷ xs) (suc i) h = get_beyond xs i (omega arith)

  pub last_exists : (x : A) (xs : List A) → (z : A) × (last (x ∷ xs) ≡ some z)
  last_exists x [] = (x, refl)
  last_exists x (y ∷ xs) = last_exists y xs

  module _ (f : A → ℕ) where
    pub sum_by-append : (xs ys : List A) → sum_by f (xs ++ ys) ≡ sum_by f xs + sum_by f ys
    sum_by-append [] ys = omega arith
    sum_by-append (x ∷ xs) ys = omega (arith, sum_by-append xs ys)

    pub sum_by-insert_at :
        (xs : List A) (i : ℕ) (v : A) → sum_by f (insert_at xs i v) ≡ f v + sum_by f xs
    sum_by-insert_at xs zero v = refl
    sum_by-insert_at [] (suc i) v = refl
    sum_by-insert_at (x ∷ xs) (suc i) v = omega (arith, sum_by-insert_at xs i v)

    pub sum_by-remove_at :
        (xs : List A) (i : ℕ) (v : A)
        → get_elem? xs i ≡ some v
        → f v + sum_by f (remove_at xs i) ≡ sum_by f xs
    sum_by-remove_at [] i v e = cc
    sum_by-remove_at (x ∷ xs) zero v e = ground arith
    sum_by-remove_at (x ∷ xs) (suc i) v e = omega (arith, sum_by-remove_at xs i v e)

    pub sum_by-split :
        (n : ℕ) (xs : List A) → sum_by f (take n xs) + sum_by f (drop n xs) ≡ sum_by f xs
    sum_by-split zero xs = omega arith
    sum_by-split (suc n) [] = refl
    sum_by-split (suc n) (x ∷ xs) = omega (arith, sum_by-split n xs)

  module _ {κ} (P : A → Type κ) where
    pub All-append : (xs ys : List A) → All P xs → All P ys → All P (xs ++ ys)
    All-append [] ys hx hy = hy
    All-append (x ∷ xs) ys hx hy = (hx.0, All-append xs ys hx.1 hy)

    pub All-append_left : (xs ys : List A) → All P (xs ++ ys) → All P xs
    All-append_left [] ys h = tt
    All-append_left (x ∷ xs) ys h = (h.0, All-append_left xs ys h.1)

    pub All-append_right : (xs ys : List A) → All P (xs ++ ys) → All P ys
    All-append_right [] ys h = h
    All-append_right (x ∷ xs) ys h = All-append_right xs ys h.1

    pub All-get : (xs : List A) (i : ℕ) (v : A) → All P xs → get_elem? xs i ≡ some v → P v
    All-get [] i v h e = absurd (ground arith)
    All-get (x ∷ xs) zero v h e = subst P (some_inj e) h.0
      where
        some_inj : {a b : A} → some a ≡ some b → a ≡ b
        some_inj p = cc
    All-get (x ∷ xs) (suc i) v h e = All-get xs i v h.1 e

    pub All-last : (xs : List A) (z : A) → All P xs → last xs ≡ some z → P z
    All-last [] z h e = cc
    All-last (x ∷ []) z h e = subst P (some_inj e) h.0
      where
        some_inj : {a b : A} → some a ≡ some b → a ≡ b
        some_inj p = cc
    All-last (x ∷ y ∷ xs) z h e = All-last (y ∷ xs) z h.1 e

    pub All-total : ((x : A) → P x) → (xs : List A) → All P xs
    All-total f [] = tt
    All-total f (x ∷ xs) = (f x, All-total f xs)

    pub All-insert_at : (xs : List A) (i : ℕ) (v : A) → P v → All P xs → All P (insert_at xs i v)
    All-insert_at xs zero v p h = (p, h)
    All-insert_at [] (suc i) v p h = (p, tt)
    All-insert_at (x ∷ xs) (suc i) v p h = (h.0, All-insert_at xs i v p h.1)

    pub All-remove_at : (xs : List A) (i : ℕ) → All P xs → All P (remove_at xs i)
    All-remove_at [] i h = tt
    All-remove_at (x ∷ xs) zero h = h.1
    All-remove_at (x ∷ xs) (suc i) h = (h.0, All-remove_at xs i h.1)

    pub All-take : (n : ℕ) (xs : List A) → All P xs → All P (take n xs)
    All-take zero xs h = tt
    All-take (suc n) [] h = tt
    All-take (suc n) (x ∷ xs) h = (h.0, All-take n xs h.1)

    pub All-drop : (n : ℕ) (xs : List A) → All P xs → All P (drop n xs)
    All-drop zero xs h = h
    All-drop (suc n) [] h = tt
    All-drop (suc n) (x ∷ xs) h = All-drop n xs h.1

  pub All-heads :
      (P : A → A → Type 0) (xs ys : List A) (y : A)
      → All (λ x. All (λ z. P x z) (y ∷ ys)) xs
      → All (λ x. P x y) xs
  All-heads P [] ys y h = tt
  All-heads P (x ∷ xs) ys y h = (h.0.0, All-heads P xs ys y h.1)

  pub All-imp {κ μ} :
      {P : A → Type κ} {Q : A → Type μ}
      → ((a : A) → P a → Q a)
      → (xs : List A) → All P xs
      → All Q xs
  All-imp f [] h = tt
  All-imp f (x ∷ xs) h = (f x h.0, All-imp f xs h.1)
