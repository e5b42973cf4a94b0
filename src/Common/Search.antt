-- ===== src/Common/Search.antt =====
-- `slice::binary_search_by`: the halving loop of the standard library over a comparison that may
-- panic, and a left-to-right scan that it agrees with on a slice which the comparison partitions.
use rust_db.Common.{
  ℕ, zero, suc, ◌+◌, ◌-◌, ◌/◌, ◌≤◌, ◌<◌, ◌≡◌, ◌≢◌, ◌⊎◌, inl, inr, refl, ap, Ordering, lt, eq, gt,
  leb, if◌then◌else◌, List, [], ◌∷◌, get_elem?, length, All, Outcome, ok, panic, ◌>>=◌, none, some,
  subst, sym, Bool-cases, arith,
}

-- `Result<usize, usize>`: the index of a match, or the index where one could be inserted.
pub data Position : Type 0 where
  found : ℕ → Position
  absent : ℕ → Position

-- What the comparison with the last candidate says.
abbrev verdict : ℕ → Ordering → Position
verdict base eq = found base
verdict base lt = absent (base + 1)
verdict base gt = absent base

-- `base = if cmp == Greater { base } else { mid }`.
abbrev advance : Ordering → ℕ → ℕ → ℕ
advance gt base mid = base
advance lt base mid = mid
advance eq base mid = mid

abbrev pub shift : Position → Position
shift (found i) = found (suc i)
shift (absent i) = absent (suc i)

module _ {E A : Type 0} where
  -- `f(&self[i])`.
  abbrev probe : (A → Outcome E Ordering) → List A → ℕ → Outcome E Ordering
  probe f xs i = elim (get_elem? xs i) [ none ↦ panic | some x ↦ f x ]

  -- `while size > 1 { .. }`, one round for each unit of fuel; no fuel left is a panic.
  halve : (A → Outcome E Ordering) → List A → ℕ → ℕ → ℕ → Outcome E ℕ
  halve f xs zero base size = panic
  halve f xs (suc fuel) base size =
      let mid = base + size / 2 in
      let more = probe f xs mid >>= λ c. halve f xs fuel (advance c base mid) (size - size / 2) in
      if leb size 1 then ok base else more

  unfoldable pub binary_search_by : (A → Outcome E Ordering) → List A → Outcome E Position
  unfolding halve
  binary_search_by f [] = ok (absent 0)
  binary_search_by f (x ∷ xs) = do
    let n = length (x ∷ xs)
    base ← halve f (x ∷ xs) n 0 n
    c ← probe f (x ∷ xs) base
    ok (verdict base c)

module _ {A : Type 0} where
  -- The first element that is not below.
  unfoldable pub scan : (A → Ordering) → List A → Position
  scan g [] = absent 0
  scan g (x ∷ xs) = elim (g x) [ lt ↦ shift (scan g xs) | eq ↦ found 0 | gt ↦ absent 0 ]

  -- Below first, then at most one match, then above.
  abbrev pub IsPartitioned : (A → Ordering) → List A → Type 0
  IsPartitioned g [] = Unit
  IsPartitioned g (x ∷ xs) = ((g x ≡ lt) ⊎ All (λ y. g y ≡ gt) xs) × IsPartitioned g xs

  -- How the element at an index compares; past the end all is above.
  abbrev side : (A → Ordering) → List A → ℕ → Ordering
  side g [] i = gt
  side g (x ∷ xs) zero = g x
  side g (x ∷ xs) (suc i) = side g xs i

  module _ (g : A → Ordering) where
    side_above : (xs : List A) (i : ℕ) → All (λ y. g y ≡ gt) xs → side g xs i ≡ gt
    side_above [] i h = refl
    side_above (x ∷ xs) zero h = h.0
    side_above (x ∷ xs) (suc i) h = side_above xs i h.1

    side_end : (xs : List A) (i : ℕ) → length xs ≤ i → side g xs i ≡ gt
    side_end [] i h = refl
    side_end (x ∷ xs) zero h = elim h [ ]
    side_end (x ∷ xs) (suc i) h = side_end xs i (omega arith)

    side_stays_above :
        (xs : List A) (i j : ℕ) → IsPartitioned g xs → side g xs i ≡ gt → i ≤ j → side g xs j ≡ gt
    side_stays_above [] i j m e h = refl
    side_stays_above (x ∷ xs) zero zero m e h = e
    side_stays_above (x ∷ xs) zero (suc j) m e h = ground (arith, side_above xs j)
    side_stays_above (x ∷ xs) (suc i) zero m e h = elim h [ ]
    side_stays_above (x ∷ xs) (suc i) (suc j) m e h = side_stays_above xs i j m.1 e (omega arith)

    scan_found : (xs : List A) (i : ℕ) → IsPartitioned g xs → side g xs i ≡ eq → scan g xs ≡ found i
    unfolding scan
    scan_found [] i m e = cc
    scan_found (x ∷ xs) zero m e = rw (e, scan)
    scan_found (x ∷ xs) (suc i) m e = ground (arith, scan_found xs i m.1, side_above xs i)

    scan_absent_zero : (xs : List A) → side g xs 0 ≡ gt → scan g xs ≡ absent 0
    unfolding scan
    scan_absent_zero [] e = refl
    scan_absent_zero (x ∷ xs) e = rw (e, scan)

    scan_absent_suc :
        (xs : List A) (i : ℕ)
        → IsPartitioned g xs
        → side g xs i ≡ lt
        → side g xs (suc i) ≡ gt
        → scan g xs ≡ absent (suc i)
    unfolding scan
    scan_absent_suc [] i m e k = cc
    scan_absent_suc (x ∷ xs) zero m e k = rw (e, scan) (ap shift (scan_absent_zero xs k))
    scan_absent_suc (x ∷ xs) (suc i) m e k =
        ground (arith, scan_absent_suc xs i m.1, side_above xs i)

module _ {E A : Type 0} (f : A → Outcome E Ordering) (g : A → Ordering) where
  -- On these elements the comparison returns.
  abbrev pub Returns : List A → Type 0
  Returns xs = All (λ x. f x ≡ ok (g x)) xs

  probe-Returns :
      (xs : List A) (i : ℕ) → Returns xs → i < length xs → probe f xs i ≡ ok (side g xs i)
  probe-Returns [] i h b = elim b [ ]
  probe-Returns (x ∷ xs) zero h b = h.0
  probe-Returns (x ∷ xs) (suc i) h b = probe-Returns xs i h.1 (omega arith)

  -- What the loop has established about the range it is left with.
  abbrev Narrowed : List A → ℕ → ℕ → Type 0
  Narrowed xs base size =
      (base + size ≤ length xs)
      × ((base ≡ 0) ⊎ (side g xs base ≢ gt))
      × (side g xs (base + size) ≡ gt)

  advance_narrows :
      (xs : List A) (base size : ℕ) (c : Ordering)
      → side g xs (base + size / 2) ≡ c
      → 1 < size
      → IsPartitioned g xs
      → Narrowed xs base size
      → Narrowed xs (advance c base (base + size / 2)) (size - size / 2)
  advance_narrows xs base size lt e h m n =
      let p : base + size / 2 + (size - size / 2) ≡ base + size = omega arith in
      (omega arith, inr (λ k. cc), rw p n.2)
  advance_narrows xs base size eq e h m n =
      let p : base + size / 2 + (size - size / 2) ≡ base + size = omega arith in
      (omega arith, inr (λ k. cc), rw p n.2)
  advance_narrows xs base size gt e h m n =
      (omega arith, n.1, side_stays_above g xs _ _ m e (omega arith))

  halve-Returns :
      (xs : List A) (fuel base size : ℕ)
      → Returns xs
      → IsPartitioned g xs
      → size ≤ fuel
      → 1 ≤ size
      → Narrowed xs base size
      → (b : ℕ) × (halve f xs fuel base size ≡ ok b) × Narrowed xs b 1
  unfolding halve
  halve-Returns xs zero base size r p hf hs n = absurd (omega arith)
  halve-Returns xs (suc fuel) base size r p hf hs n = elim (Bool-cases (leb size 1)) [
    | inl small ↦
        let one : size ≡ 1 = ground arith in (base, rw small, subst (λ k. Narrowed xs base k) one n)
    | inr large ↦
        let more : 1 < size = ground arith in
        let mid = base + size / 2 in
        let c = side g xs mid in
        let (b, e, m) =
          halve-Returns xs fuel (advance c base mid) (size - size / 2) r p (omega arith)
            (omega arith) (advance_narrows xs base size c refl more p n) in
        (b, rw (large, probe-Returns xs mid r (omega arith)) e, m)
  ]

  settle :
      (xs : List A) (b : ℕ) (c : Ordering)
      → side g xs b ≡ c
      → IsPartitioned g xs
      → Narrowed xs b 1
      → verdict b c ≡ scan g xs
  settle xs b eq e m n = sym (scan_found g xs b m e)
  settle xs b lt e m n =
      let next : b + 1 ≡ suc b = omega arith in
      rw next (sym (scan_absent_suc g xs b m e (rw next at n.2)))
  settle xs b gt e m (inside, inl zeroth, above) =
      rw zeroth (sym (scan_absent_zero g xs (rw zeroth at e)))
  settle xs b gt e m (inside, inr within, above) = absurd (within e)

  pub binary_search_by-scan :
      (xs : List A) → Returns xs → IsPartitioned g xs → binary_search_by f xs ≡ ok (scan g xs)
  unfolding binary_search_by
  binary_search_by-scan [] r m = unfold scan in refl
  binary_search_by-scan (x ∷ xs) r m =
      let l = x ∷ xs in
      let n = suc (length xs) in
      let (b, e, k) =
        halve-Returns l n 0 n r m (omega arith) (omega arith)
          (omega arith, inl refl, side_end g l (0 + n) (omega arith)) in
      rw (e, probe-Returns l b r (omega arith)) (ap ok (settle l b (side g l b) refl m k))
