-- ===== src/Bpm/Clock.antt =====
-- The clock finds no victim exactly where all frames are pinned, and a victim is not pinned.
use rust_db.Common.{
  ℕ, zero, suc, ◌+◌, ◌%◌, ◌≤◌, ◌<◌, ◌≡◌, ◌⊎◌, inl, inr, refl, sym, ◌∙◌, ltb, Bool, true, false,
  List, ok, length, none, some, get_elem?, get_within, get_bound, set, Bool-cases, subst, arith,
}
use native.Mathlib.Nat.{mod-lt}
use rust_db.Bpm.Frames.{
  Frame, is_pinned, take_referenced, Visit, keep, clear, evict, visit, ClockEvictor, sweep,
  find_victim,
}
use rust_db.Bpm.Swept.{
  AllSwept, AllSwept-get, AllSwept-get_inv, AllSwept-length, AllSwept-set, AllSwept-self,
  AllSwept-trans, IsReached, IsSettled, IsSettled-swept, Passed, Passed-swept, clear-Passed,
  evict-unpinned, get-set, keep-Passed, IsReached-next,
}

-- What a sweep leaves: no victim, and everything it reached was passed over and is settled; or a
-- victim that is not pinned.
abbrev pub NoVictim : Bool → ℕ → ℕ → List Frame → List Frame → Type 0
NoVictim skip k hand fs gs =
    (i : ℕ) (f : Frame)
    → IsReached (length fs) hand k i
    → get_elem? fs i ≡ some f
    → Passed skip f × ((g : Frame) → get_elem? gs i ≡ some g → IsSettled g)

abbrev pub SweepCases : Bool → ℕ → ℕ → List Frame → Type 0
SweepCases skip k hand fs =
    (gs : List Frame) × (next : ℕ) × AllSwept fs gs
    × (next < length fs)
    × (((sweep {E = ⊥} skip k hand fs ≡ ok (none, next, gs)) × NoVictim skip k hand fs gs)
        ⊎ ((i : ℕ) × (f : Frame) × (sweep {E = ⊥} skip k hand fs ≡ ok (some i, next, gs))
            × (get_elem? fs i ≡ some f)
            × (is_pinned f ≡ false)))

-- One step, and then the rest of the sweep on the frames that the step leaves.
extend-SweepCases :
    (skip : Bool) (k hand : ℕ) (fs gs : List Frame) (f g : Frame)
    → hand < length fs
    → suc k ≤ length fs
    → AllSwept fs gs
    → get_elem? fs hand ≡ some f
    → get_elem? gs hand ≡ some g
    → Passed skip f
    → IsSettled g
    → sweep {E = ⊥} skip (suc k) hand fs ≡ sweep skip k ((hand + 1) % length fs) gs
    → SweepCases skip k ((hand + 1) % length fs) gs
    → SweepCases skip (suc k) hand fs
extend-SweepCases skip k hand fs gs f g h small step here there passed settled run
      (hs, next, swept, inside, c) =
    (hs, next, AllSwept-trans fs gs hs step swept, rw (sym same) inside, go c)
  where
    same : length gs ≡ length fs
    same = AllSwept-length fs gs step

    all_passed : NoVictim skip k ((hand + 1) % length fs) gs hs → NoVictim skip (suc k) hand fs hs
    all_passed rest i x r e = elim (IsReached-next (length fs) hand k i h r (get_bound fs i x e)) [
      | inl first ↦
          let own : f ≡ x = first_frame (rw first at e) in
          (
            subst (λ y. Passed skip y) own passed,
            λ z at_end.
                let (y, found, later) = AllSwept-get gs hs hand g swept there in
                let last : y ≡ z = last_frame found (rw first at at_end) in
                subst (λ y. IsSettled y) last (IsSettled-swept g y later settled),
          )
      | inr on ↦
          let (y, found, by) = AllSwept-get fs gs i x step e in
          let (because, after) =
            rest i y (subst (λ n. IsReached n ((hand + 1) % length fs) k i) (sym same) on) found in
          (Passed-swept skip x y by because, after)
    ]
      where
        first_frame : get_elem? fs hand ≡ some x → f ≡ x
        first_frame q = cc

        last_frame : {y z : Frame} → get_elem? hs hand ≡ some y → get_elem? hs hand ≡ some z → y ≡ z
        last_frame q w = cc

    go :
        ((sweep {E = ⊥} skip k ((hand + 1) % length fs) gs ≡ ok (none, next, hs))
            × NoVictim skip k ((hand + 1) % length fs) gs hs)
          ⊎ ((i : ℕ) × (x : Frame) × (sweep {E = ⊥} skip k ((hand + 1) % length fs) gs
                ≡ ok (some i, next, hs))
              × (get_elem? gs i ≡ some x)
              × (is_pinned x ≡ false))
        → ((sweep {E = ⊥} skip (suc k) hand fs ≡ ok (none, next, hs))
            × NoVictim skip (suc k) hand fs hs)
          ⊎ ((i : ℕ) × (x : Frame) × (sweep {E = ⊥} skip (suc k) hand fs ≡ ok (some i, next, hs))
              × (get_elem? fs i ≡ some x)
              × (is_pinned x ≡ false))
    go (inl (e, rest)) = inl (run ∙ e, all_passed rest)
    go (inr (i, x, e, found, free)) =
        let (y, before, by) = AllSwept-get_inv fs gs i x step found in
        let unpinned : is_pinned y ≡ false = rw (sym by.1) free in
        inr (i, y, run ∙ e, before, unpinned)

sweep-SweepCases :
    (skip : Bool) (k hand : ℕ) (fs : List Frame)
    → hand < length fs
    → k ≤ length fs
    → SweepCases skip k hand fs
unfolding sweep
sweep-SweepCases skip zero hand fs h small =
    (fs, hand, AllSwept-self fs, h, inl (refl, λ i f r e. absurd (none_reached r)))
  where
    none_reached : {i : ℕ} → IsReached (length fs) hand 0 i → ⊥
    none_reached (inl (a, b)) = absurd (omega arith)
    none_reached (inr a) = absurd (omega arith)
sweep-SweepCases skip (suc k) hand fs h small =
    let (f, here) = get_within fs hand h in
    let inside : (hand + 1) % length fs < length fs = mod-lt (hand + 1) (omega arith) in
    let rest : (gs : List Frame)
        → length gs ≡ length fs
        → SweepCases skip k ((hand + 1) % length fs) gs =
      λ gs same.
        sweep-SweepCases skip k ((hand + 1) % length fs) gs (omega (arith, inside, same))
          (omega (arith, same)) in
    go inside rest f here (visit skip f) refl
  where
    go :
        (hand + 1) % length fs < length fs
        → ((gs : List Frame)
            → length gs ≡ length fs
            → SweepCases skip k ((hand + 1) % length fs) gs)
        → (f : Frame) → get_elem? fs hand ≡ some f
        → (w : Visit) → visit skip f ≡ w
        → SweepCases skip (suc k) hand fs
    go inside rest f here evict e = (
      fs,
      (hand + 1) % length fs,
      AllSwept-self fs,
      inside,
      inr (hand, f, cc, here, evict-unpinned skip f e),
    )
    go inside rest f here keep e =
        let (passed, settled) = keep-Passed skip f e in
        let run : sweep {E = ⊥} skip (suc k) hand fs ≡ sweep skip k ((hand + 1) % length fs) fs =
          cc in
        extend-SweepCases skip k hand fs fs f f h small (AllSwept-self fs) here here passed settled
          run (rest fs refl)
    go inside rest f here clear e =
        let gs = set fs hand (take_referenced f).1 in
        let step = AllSwept-set fs hand f here in
        let run : sweep {E = ⊥} skip (suc k) hand fs ≡ sweep skip k ((hand + 1) % length fs) gs =
          cc in
        extend-SweepCases skip k hand fs gs f (take_referenced f).1 h small step here
          (get-set fs hand (take_referenced f).1 h) (clear-Passed skip f e) (inr refl) run
          (rest gs (AllSwept-length fs gs step))

-- What `find_victim` does with frames of which there is at least one.
abbrev pub VictimCases : ClockEvictor → List Frame → Type 0
VictimCases c fs =
    (gs : List Frame) × (next : ClockEvictor) × AllSwept fs gs
    × (next.hand < length fs)
    × (((find_victim {E = ⊥} c fs ≡ ok (none, next, gs))
          × ((i : ℕ) (f : Frame) → get_elem? fs i ≡ some f → is_pinned f ≡ true))
        ⊎ ((i : ℕ) × (f : Frame) × (find_victim {E = ⊥} c fs ≡ ok (some i, next, gs))
            × (get_elem? fs i ≡ some f)
            × (is_pinned f ≡ false)))

-- Every index is reached by as many steps as there are frames.
all-IsReached : (n hand i : ℕ) → hand < n → i < n → IsReached n hand n i
all-IsReached n hand i h small = elim (Bool-cases (ltb i hand)) [
  | inl before ↦ inr (ground arith)
  | inr after ↦ inl (ground arith)
]

-- After the first sweep nothing is referenced that is not pinned: what the second passes over is pinned.
pinned_after : (f : Frame) → IsSettled f → Passed false f → is_pinned f ≡ true
pinned_after f (inl p) q = p
pinned_after f (inr u) (inl p) = p
pinned_after f (inr u) (inr (inl r)) = absurd (clash u r)
  where
    clash : f.referenced ≡ false → f.referenced ≡ true → ⊥
    clash a b = cc
pinned_after f (inr u) (inr (inr d)) = absurd (never d)
  where
    never : false ≡ true → ⊥
    never e = cc

-- On frames that nothing else changes meanwhile, and with a hand that is an index of them,
-- `find_victim` of the clock ends with the hand at an index and the frames as they were but for
-- reference flags that it cleared; it returns no victim only where all frames are pinned, and
-- otherwise the index of a frame that is not pinned.
pub find_victim-VictimCases :
    (c : ClockEvictor) (fs : List Frame) → c.hand < length fs → VictimCases c fs
unfolding find_victim
find_victim-VictimCases c fs h = first (sweep-SweepCases true (length fs) c.hand fs h (omega arith))
  where
    second :
        (gs : List Frame) (next : ℕ)
        → AllSwept fs gs
        → next < length gs
        → sweep {E = ⊥} true (length fs) c.hand fs ≡ ok (none, next, gs)
        → NoVictim true (length fs) c.hand fs gs
        → SweepCases false (length gs) next gs
        → VictimCases c fs
    second gs next swept within run none_found (hs, last, swept', inside, inl (run', none_again)) =
        (
          hs,
          record { hand = last },
          AllSwept-trans fs gs hs swept swept',
          rw (sym (AllSwept-length fs gs swept)) inside,
          inl (
            rw (run, run'),
            λ i f here.
                let (g, found, by) = AllSwept-get fs gs i f swept here in
                let reached = all-IsReached (length fs) c.hand i h (get_bound fs i f here) in
                let again = all-IsReached (length gs) next i within (get_bound gs i g found) in
                let settled = (none_found i f reached here).1 g found in
                rw (sym by.1) (pinned_after g settled (none_again i g again found).0),
          ),
        )
    second gs next swept within run none_found
          (hs, last, swept', inside, inr (i, g, run', found, free)) =
        let (f, before, by) = AllSwept-get_inv fs gs i g swept found in
        (
          hs,
          record { hand = last },
          AllSwept-trans fs gs hs swept swept',
          rw (sym (AllSwept-length fs gs swept)) inside,
          inr (i, f, rw (run, run'), before, rw (sym by.1) free),
        )

    first : SweepCases true (length fs) c.hand fs → VictimCases c fs
    first (gs, next, swept, inside, inr (i, f, run, found, free)) =
        (gs, record { hand = next }, swept, inside, inr (i, f, rw run, found, free))
    first (gs, next, swept, inside, inl (run, none_found)) =
        let same = AllSwept-length fs gs swept in
        second gs next swept (rw same inside) run none_found
          (sweep-SweepCases false (length gs) next gs (rw same inside) (omega arith))
