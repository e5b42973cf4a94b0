-- ===== src/Common/Order.antt =====
-- The interface of Rust's `Ord`: a three-way comparison with its laws, and the instances that keys
-- are built from.
use rust_db.Common.{
  ℕ, ◌≡◌, compare, Ordering, lt, eq, gt, List, [], ◌∷◌, arith, refl, Bool, true, false,
}
use rust_db.Common.Int.{cmp_ℤ}

pub record IsLawful {K : Type 0} (cmp : K → K → Ordering) : Type 0 where
  pub cmp_self : (a : K) → cmp a a ≡ eq
  pub cmp_eq : (a b : K) → cmp a b ≡ eq → a ≡ b
  pub cmp_gt : (a b : K) → cmp a b ≡ gt → cmp b a ≡ lt
  pub cmp_lt : (a b : K) → cmp a b ≡ lt → cmp b a ≡ gt
  pub cmp_trans : (a b c : K) → cmp a b ≡ lt → cmp b c ≡ lt → cmp a c ≡ lt

pub record Ord (K : Type 0) : Type 0 where
  pub cmp : K → K → Ordering
  pub lawful : IsLawful cmp
  pub open lawful use *

infix 50 ◌≺◌
abbrev pub ◌≺◌ : {K : Type 0} ⦃o : Ord K⦄ → K → K → Type 0
◌≺◌ ⦃o⦄ a b = o.cmp a b ≡ lt

-- The operators that `PartialOrd` derives from `cmp`.
abbrev pub is_lt : Ordering → Bool
is_lt lt = true
is_lt _ = false

abbrev pub is_le : Ordering → Bool
is_le gt = false
is_le _ = true

abbrev pub is_eq : Ordering → Bool
is_eq eq = true
is_eq _ = false

abbrev pub is_ge : Ordering → Bool
is_ge lt = false
is_ge _ = true

abbrev pub is_gt : Ordering → Bool
is_gt gt = true
is_gt _ = false

pub cmp_ℤ-IsLawful : IsLawful cmp_ℤ
cmp_ℤ-IsLawful = ground arith

-- `then_with`: the second comparison decides a tie.
abbrev pub then_cmp : Ordering → Ordering → Ordering
then_cmp eq o = o
then_cmp lt o = lt
then_cmp gt o = gt

-- `str::cmp` compares the bytes in order.
unfoldable pub cmp_bytes : List ℕ → List ℕ → Ordering
cmp_bytes [] [] = eq
cmp_bytes [] (b ∷ bs) = lt
cmp_bytes (a ∷ as') [] = gt
cmp_bytes (a ∷ as') (b ∷ bs) = then_cmp (compare a b) (cmp_bytes as' bs)

bytes_self : (a : List ℕ) → cmp_bytes a a ≡ eq
unfolding cmp_bytes
bytes_self [] = refl
bytes_self (a ∷ as') = ground (arith, bytes_self as')

bytes_eq : (a b : List ℕ) → cmp_bytes a b ≡ eq → a ≡ b
unfolding cmp_bytes
bytes_eq [] [] h = refl
bytes_eq [] (b ∷ bs) h = cc
bytes_eq (a ∷ as') [] h = cc
bytes_eq (a ∷ as') (b ∷ bs) h = ground (arith, bytes_eq as' bs)

bytes_gt : (a b : List ℕ) → cmp_bytes a b ≡ gt → cmp_bytes b a ≡ lt
unfolding cmp_bytes
bytes_gt [] [] h = cc
bytes_gt [] (b ∷ bs) h = cc
bytes_gt (a ∷ as') [] h = refl
bytes_gt (a ∷ as') (b ∷ bs) h = ground (arith, bytes_gt as' bs)

bytes_lt : (a b : List ℕ) → cmp_bytes a b ≡ lt → cmp_bytes b a ≡ gt
unfolding cmp_bytes
bytes_lt [] [] h = cc
bytes_lt [] (b ∷ bs) h = refl
bytes_lt (a ∷ as') [] h = cc
bytes_lt (a ∷ as') (b ∷ bs) h = ground (arith, bytes_lt as' bs)

bytes_trans : (a b c : List ℕ) → cmp_bytes a b ≡ lt → cmp_bytes b c ≡ lt → cmp_bytes a c ≡ lt
unfolding cmp_bytes
bytes_trans [] [] c h k = cc
bytes_trans [] (b ∷ bs) [] h k = cc
bytes_trans [] (b ∷ bs) (c ∷ cs) h k = refl
bytes_trans (a ∷ as') [] c h k = cc
bytes_trans (a ∷ as') (b ∷ bs) [] h k = cc
bytes_trans (a ∷ as') (b ∷ bs) (c ∷ cs) h k = ground (arith, bytes_trans as' bs cs)

pub cmp_bytes-IsLawful : IsLawful cmp_bytes
cmp_bytes-IsLawful = record {
  cmp_self = bytes_self;
  cmp_eq = bytes_eq;
  cmp_gt = bytes_gt;
  cmp_lt = bytes_lt;
  cmp_trans = bytes_trans;
}
