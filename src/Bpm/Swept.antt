-- ===== src/Bpm/Swept.antt =====
-- What a sweep of the clock does to the frames, and the indices that it reaches.
use rust_db.Common.{
  ℕ, zero, suc, ◌+◌, ◌%◌, ◌≤◌, ◌<◌, ◌≡◌, ◌⊎◌, inl, inr, refl, sym, ◌∙◌, ◌==◌, ltb, Bool, true,
  false, ◌&&◌, List, [], ◌∷◌, length, some, get_elem?, set, Bool-cases, subst, arith,
}
use native.Mathlib.Nat.{mod_self, mod-eq_of_lt}
use rust_db.Bpm.Frames.{Frame, is_pinned, take_referenced, keep, clear, evict, visit}

-- The second frame is the first with its reference flag kept or cleared.
abbrev IsSwept : Frame → Frame → Type 0
IsSwept f g =
    (g.latch ≡ f.latch)
    × (g.pin_count ≡ f.pin_count)
    × (g.dirty ≡ f.dirty)
    × (f.referenced ≡ false → g.referenced ≡ false)

abbrev pub AllSwept : List Frame → List Frame → Type 0
AllSwept [] [] = Unit
AllSwept [] (g ∷ gs) = ⊥
AllSwept (f ∷ fs) [] = ⊥
AllSwept (f ∷ fs) (g ∷ gs) = IsSwept f g × AllSwept fs gs

pub AllSwept-self : (fs : List Frame) → AllSwept fs fs
AllSwept-self [] = tt
AllSwept-self (f ∷ fs) = ((refl, refl, refl, λ e. e), AllSwept-self fs)

IsSwept-trans : (f g h : Frame) → IsSwept f g → IsSwept g h → IsSwept f h
IsSwept-trans f g h (a, b, c, d) (a', b', c', d') = (a' ∙ a, b' ∙ b, c' ∙ c, λ e. d' (d e))

pub AllSwept-trans : (fs gs hs : List Frame) → AllSwept fs gs → AllSwept gs hs → AllSwept fs hs
AllSwept-trans [] [] [] a b = tt
AllSwept-trans [] [] (h ∷ hs) a b = absurd b
AllSwept-trans [] (g ∷ gs) hs a b = absurd a
AllSwept-trans (f ∷ fs) [] hs a b = absurd a
AllSwept-trans (f ∷ fs) (g ∷ gs) [] a b = absurd b
AllSwept-trans (f ∷ fs) (g ∷ gs) (h ∷ hs) a b =
    (IsSwept-trans f g h a.0 b.0, AllSwept-trans fs gs hs a.1 b.1)

pub AllSwept-length : (fs gs : List Frame) → AllSwept fs gs → length gs ≡ length fs
AllSwept-length [] [] a = refl
AllSwept-length [] (g ∷ gs) a = absurd a
AllSwept-length (f ∷ fs) [] a = absurd a
AllSwept-length (f ∷ fs) (g ∷ gs) a = omega (arith, AllSwept-length fs gs a.1)

pub AllSwept-get :
    (fs gs : List Frame) (i : ℕ) (f : Frame)
    → AllSwept fs gs
    → get_elem? fs i ≡ some f
    → (g : Frame) × (get_elem? gs i ≡ some g) × IsSwept f g
AllSwept-get [] gs i f a e = cc
AllSwept-get (x ∷ fs) [] i f a e = absurd a
AllSwept-get (x ∷ fs) (g ∷ gs) zero f a e =
    let same : x ≡ f = cc in (g, refl, subst (λ y. IsSwept y g) same a.0)
AllSwept-get (x ∷ fs) (g ∷ gs) (suc i) f a e = AllSwept-get fs gs i f a.1 e

pub AllSwept-set :
    (fs : List Frame) (i : ℕ) (f : Frame)
    → get_elem? fs i ≡ some f
    → AllSwept fs (set fs i (take_referenced f).1)
AllSwept-set [] i f e = tt
AllSwept-set (x ∷ fs) zero f e =
    let same : f ≡ x = cc in
    ((rw same refl, rw same refl, rw same refl, λ h. refl), AllSwept-self fs)
AllSwept-set (x ∷ fs) (suc i) f e = ((refl, refl, refl, λ h. h), AllSwept-set fs i f e)

pub get-set :
    (fs : List Frame) (i : ℕ) (g : Frame) → i < length fs → get_elem? (set fs i g) i ≡ some g
get-set [] i g h = elim h [ ]
get-set (x ∷ fs) zero g h = refl
get-set (x ∷ fs) (suc i) g h = get-set fs i g (omega arith)

-- The clock passes a frame over for one of these reasons, and leaves it pinned or not referenced.
abbrev pub Passed : Bool → Frame → Type 0
Passed skip f = (is_pinned f ≡ true) ⊎ (f.referenced ≡ true) ⊎ ((skip && f.dirty) ≡ true)

abbrev pub IsSettled : Frame → Type 0
IsSettled f = (is_pinned f ≡ true) ⊎ (f.referenced ≡ false)

-- The indices that `k` steps from `hand` reach, among `n`.
abbrev pub IsReached : ℕ → ℕ → ℕ → ℕ → Type 0
IsReached n hand k i = ((hand ≤ i) × (i < hand + k)) ⊎ (i + n < hand + k)

next_hand-cases :
    (n hand : ℕ)
    → hand < n
    → (((hand + 1) % n ≡ hand + 1) × (hand + 1 < n)) ⊎ (((hand + 1) % n ≡ 0) × (hand + 1 ≡ n))
next_hand-cases n hand h = elim (Bool-cases (ltb (hand + 1) n)) [
  | inl inside ↦ let q : hand + 1 < n = ground arith in inl (mod-eq_of_lt q, q)
  | inr last ↦
      let e : hand + 1 ≡ n = ground arith in inr (subst (λ m. m % n ≡ 0) (sym e) (mod_self n), e)
]

pub AllSwept-get_inv :
    (fs gs : List Frame) (i : ℕ) (g : Frame)
    → AllSwept fs gs
    → get_elem? gs i ≡ some g
    → (f : Frame) × (get_elem? fs i ≡ some f) × IsSwept f g
AllSwept-get_inv [] [] i g a e = cc
AllSwept-get_inv [] (y ∷ gs) i g a e = absurd a
AllSwept-get_inv (x ∷ fs) [] i g a e = absurd a
AllSwept-get_inv (x ∷ fs) (y ∷ gs) zero g a e =
    let same : y ≡ g = cc in (x, refl, subst (λ z. IsSwept x z) same a.0)
AllSwept-get_inv (x ∷ fs) (y ∷ gs) (suc i) g a e = AllSwept-get_inv fs gs i g a.1 e

pub keep-Passed : (skip : Bool) (f : Frame) → visit skip f ≡ keep → Passed skip f × IsSettled f
keep-Passed skip f e = ground arith

pub clear-Passed : (skip : Bool) (f : Frame) → visit skip f ≡ clear → Passed skip f
clear-Passed skip f e = ground arith

pub evict-unpinned : (skip : Bool) (f : Frame) → visit skip f ≡ evict → is_pinned f ≡ false
evict-unpinned skip f e = ground arith

pub IsSettled-swept : (f g : Frame) → IsSwept f g → IsSettled f → IsSettled g
IsSettled-swept f g (a, b, c, d) (inl p) = inl (rw b p)
IsSettled-swept f g (a, b, c, d) (inr p) = inr (d p)

pub Passed-swept : (skip : Bool) (f g : Frame) → IsSwept f g → Passed skip g → Passed skip f
Passed-swept skip f g (a, b, c, d) (inl p) = inl (rw (sym b) p)
Passed-swept skip f g (a, b, c, d) (inr (inl p)) = inr (inl (raised (Bool-cases f.referenced)))
  where
    raised : (f.referenced ≡ true) ⊎ (f.referenced ≡ false) → f.referenced ≡ true
    raised (inl e) = e
    raised (inr e) = absurd (clash (d e))
      where
        clash : g.referenced ≡ false → ⊥
        clash q = cc
Passed-swept skip f g (a, b, c, d) (inr (inr p)) = inr (inr (rw (sym c) p))

pub IsReached-next :
    (n hand k i : ℕ)
    → hand < n
    → IsReached n hand (suc k) i
    → i < n
    → (i ≡ hand) ⊎ IsReached n ((hand + 1) % n) k i
IsReached-next n hand k i h r small = elim (Bool-cases (i == hand)) [
  | inl same ↦ inl (ground arith)
  | inr other ↦ inr (elim (next_hand-cases n hand h) [
    | inl (e, q) ↦ rw e (ground arith)
    | inr (e, q) ↦ rw e (ground arith)
  ])
]
