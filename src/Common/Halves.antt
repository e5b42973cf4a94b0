-- ===== src/Common/Halves.antt =====
-- Cutting a list by weight: the index where the running total first reaches a target, as
-- `iter().scan(..).position(..)` finds it, and the bounds on both parts.
use rust_db.Common.{
  ℕ, zero, suc, ◌+◌, ◌-◌, ◌/◌, ◌≤◌, ◌<◌, ◌≡◌, ◌⊎◌, inl, inr, refl, ltb, leb, if◌then◌else◌, true,
  false, List, [], ◌∷◌, length, take, drop, sum_by, sum_by-split, All, Option, none, some,
  Bool-cases, arith,
}

-- `x.clamp(lo, hi)`, for `lo ≤ hi`.
abbrev pub clamp : ℕ → ℕ → ℕ → ℕ
clamp lo hi x = if ltb x lo then lo else if ltb hi x then hi else x

abbrev after_one : Option ℕ → Option ℕ
after_one none = none
after_one (some i) = some (suc i)

module _ {A : Type 0} (size : A → ℕ) where
  unfoldable pub reach : ℕ → ℕ → List A → Option ℕ
  reach acc target [] = none
  reach acc target (x ∷ xs) =
      if leb target (acc + size x) then some 0 else after_one (reach (acc + size x) target xs)

  pub reach_finds :
      (acc target : ℕ) (x : A) (xs : List A)
      → target ≤ acc + sum_by size (x ∷ xs)
      → (p : ℕ) × (reach acc target (x ∷ xs) ≡ some p)
        × (p ≤ length xs)
        × ((p ≡ 0) ⊎ (acc + sum_by size (take p (x ∷ xs)) < target))
        × (target ≤ acc + sum_by size (take (suc p) (x ∷ xs)))
  unfolding reach
  reach_finds acc target x [] h =
      let here : leb target (acc + size x) ≡ true = ground arith in
      (0, rw here, omega arith, inl refl, omega arith)
  reach_finds acc target x (y ∷ ys) h =
      let (p, e, inside, before, reached) = reach_finds (acc + size x) target y ys (omega arith) in
      elim (Bool-cases (leb target (acc + size x))) [
        | inl here ↦ (0, rw here, omega arith, inl refl, ground arith)
        | inr further ↦
            (suc p, rw (further, e), omega arith, inr (later p before further), omega arith)
      ]
    where
      later :
          (p : ℕ)
          → (p ≡ 0) ⊎ (acc + size x + sum_by size (take p (y ∷ ys)) < target)
          → leb target (acc + size x) ≡ false
          → acc + sum_by size (take (suc p) (x ∷ y ∷ ys)) < target
      later p (inr b) f = omega arith
      later p (inl z) f = rw z (ground arith)

  sum_by-take-suc :
      (m p : ℕ) (xs : List A)
      → All (λ x. size x ≤ m) xs
      → sum_by size (take (suc p) xs) ≤ sum_by size (take p xs) + m
  sum_by-take-suc m p [] h = omega arith
  sum_by-take-suc m zero (x ∷ xs) h = omega (arith, h.0)
  sum_by-take-suc m (suc p) (x ∷ xs) h = omega (arith, sum_by-take-suc m p xs h.1)

  sum_by-take_mono :
      (k p : ℕ) (xs : List A) → k ≤ p → sum_by size (take k xs) ≤ sum_by size (take p xs)
  sum_by-take_mono zero p xs h = omega arith
  sum_by-take_mono (suc k) zero xs h = elim h [ ]
  sum_by-take_mono (suc k) (suc p) [] h = omega arith
  sum_by-take_mono (suc k) (suc p) (x ∷ xs) h = omega (arith, sum_by-take_mono k p xs (omega arith))

  sum_by-drop-last :
      (m q : ℕ) (xs : List A)
      → All (λ x. size x ≤ m) xs
      → length xs ≤ suc q
      → sum_by size (drop q xs) ≤ m
  sum_by-drop-last m zero [] h e = omega arith
  sum_by-drop-last m zero (x ∷ []) h e = omega (arith, h.0)
  sum_by-drop-last m zero (x ∷ y ∷ xs) h e = absurd (omega arith)
  sum_by-drop-last m (suc q) [] h e = omega arith
  sum_by-drop-last m (suc q) (x ∷ xs) h e = sum_by-drop-last m q xs h.1 (omega arith)

  sum_by-drop_mono :
      (k j : ℕ) (xs : List A) → k ≤ j → sum_by size (drop j xs) ≤ sum_by size (drop k xs)
  sum_by-drop_mono k j xs h =
      omega (arith, sum_by-split size k xs, sum_by-split size j xs, sum_by-take_mono k j xs h)

  -- Cutting where the total reaches half, moved so that at least one element stays on the left and
  -- `suc j` on the right. Neither the left part nor what the right part holds after its first `j`
  -- elements is much larger than half.
  pub cut_bounds :
      (m j : ℕ) (x : A) (xs : List A)
      → suc j ≤ length xs
      → All (λ y. size y ≤ m) (x ∷ xs)
      → let whole = x ∷ xs in
        let half = sum_by size whole / 2 in
        (p : ℕ) × (reach 0 half whole ≡ some p)
        × (let k = clamp 1 (length whole - suc j) (p + 1) in
            (1 ≤ k)
            × (k + suc j ≤ length whole)
            × (sum_by size (take k whole) ≤ half + m)
            × ((sum_by size (drop (k + j) whole) ≤ m)
                ⊎ (sum_by size (drop (k + j) whole) ≤ half + 1)))
  cut_bounds m j x xs h a =
      let (p, e, inside, before, reached) =
        reach_finds 0 (sum_by size (x ∷ xs) / 2) x xs (omega arith) in
      (p, e, go p before reached)
    where
      whole : List A
      whole = x ∷ xs

      half : ℕ
      half = sum_by size whole / 2

      start :
          (p : ℕ)
          → (p ≡ 0) ⊎ (0 + sum_by size (take p whole) < half)
          → sum_by size (take p whole) ≤ half
      start p (inl z) = rw z (omega arith)
      start p (inr b) = omega arith

      Bounds : ℕ → Type 0
      Bounds k =
          (1 ≤ k)
          × (k + suc j ≤ length whole)
          × (sum_by size (take k whole) ≤ half + m)
          × ((sum_by size (drop (k + j) whole) ≤ m) ⊎ (sum_by size (drop (k + j) whole) ≤ half + 1))

      go :
          (p : ℕ)
          → (p ≡ 0) ⊎ (0 + sum_by size (take p whole) < half)
          → half ≤ 0 + sum_by size (take (suc p) whole)
          → Bounds (clamp 1 (length whole - suc j) (p + 1))
      go p before reached = elim (Bool-cases (ltb (length whole - suc j) (p + 1))) [
        | inr early ↦
            let cut : clamp 1 (length whole - suc j) (p + 1) ≡ suc p = ground arith in
            rw cut (
              omega arith,
              ground arith,
              omega (arith, sum_by-take-suc m p whole a, start p before),
              inr (
                  omega (
                    arith,
                    sum_by-drop_mono (suc p) (suc p + j) whole (omega arith),
                    sum_by-split size (suc p) whole,
                  )),
            )
        | inl late ↦
            let hi = length whole - suc j in
            let cut : clamp 1 hi (p + 1) ≡ hi = ground arith in
            let low : hi ≤ p = ground arith in
            rw cut (
              omega arith,
              omega arith,
              omega (arith, sum_by-take_mono hi p whole low, start p before),
              inl (sum_by-drop-last m (hi + j) whole a (omega arith)),
            )
      ]
