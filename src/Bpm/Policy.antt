-- ===== src/Bpm/Policy.antt =====
-- The clock and the round robin of src/bpm/eviction.rs as the pool's `EvictionPolicy`.
use rust_db.Common.{
  ℕ, zero, suc, ◌+◌, ◌%◌, ◌≡◌, refl, true, false, Bool, List, Option, none, some, Outcome, ok, err,
  panic, length, get_elem?, set, subst, bind-ok_inv, sym, ◌∙◌,
}
use rust_db.Bpm.Pool.{BpmError}
use rust_db.Bpm.Frames.{
  Frame, ClockEvictor, Replacer, rotate, next_victim, find_victim, sweep, Visit, keep, clear, evict,
  visit, take_referenced,
}
use rust_db.Bpm.Swept.{AllSwept, AllSwept-self, AllSwept-trans, AllSwept-set}
use rust_db.Bpm.State.{EvictionPolicy}

sweep-clears :
    (skip : Bool) (n hand next : ℕ) (fs gs : List Frame) (victim : Option ℕ)
    → sweep {E = BpmError} skip n hand fs ≡ ok (victim, next, gs)
    → AllSwept fs gs
unfolding sweep
sweep-clears skip zero hand next fs gs victim e =
    let same : fs ≡ gs = cc in subst (AllSwept fs) same (AllSwept-self fs)
sweep-clears skip (suc n) hand next fs gs victim e =
    go (get_elem? fs hand) refl (λ hand' hs. sweep-clears skip n hand' next hs gs victim)
  where
    go :
        (o : Option Frame)
        → get_elem? fs hand ≡ o
        → ((hand' : ℕ) (hs : List Frame)
            → sweep {E = BpmError} skip n hand' hs ≡ ok (victim, next, gs)
            → AllSwept hs gs)
        → AllSwept fs gs
    go none q ih = absurd (clash (rw (q, sweep) refl))
      where
        clash : sweep {E = BpmError} skip (suc n) hand fs ≡ panic → ⊥
        clash w = cc
    go (some frame) q ih = by (visit skip frame) refl
      where
        by : (x : Visit) → visit skip frame ≡ x → AllSwept fs gs
        by keep w =
            let step : sweep {E = BpmError} skip (suc n) hand fs
                ≡ sweep skip n ((hand + 1) % length fs) fs =
              cc in
            ih ((hand + 1) % length fs) fs (sym step ∙ e)
        by clear w =
            let cleared = set fs hand (take_referenced frame).1 in
            let step : sweep {E = BpmError} skip (suc n) hand fs
                ≡ sweep skip n ((hand + 1) % length fs) cleared =
              cc in
            AllSwept-trans fs cleared gs (AllSwept-set fs hand frame q)
              (ih ((hand + 1) % length fs) cleared (sym step ∙ e))
        by evict w =
            let step : sweep {E = BpmError} skip (suc n) hand fs
                ≡ ok (some hand, (hand + 1) % length fs, fs) =
              cc in
            let same : fs ≡ gs = cc in subst (AllSwept fs) same (AllSwept-self fs)

find_victim-clears :
    (c next : ClockEvictor) (fs gs : List Frame) (victim : Option ℕ)
    → find_victim {E = BpmError} c fs ≡ ok (victim, next, gs)
    → AllSwept fs gs
unfolding find_victim
find_victim-clears c next fs gs victim e = first_sweep (sweep true (length fs) c.hand fs) refl
  where
    first_sweep :
        (r : Outcome BpmError (Option ℕ × ℕ × List Frame))
        → sweep true (length fs) c.hand fs ≡ r
        → AllSwept fs gs
    first_sweep (err x) q = absurd (clash (rw (q, find_victim) refl))
      where
        clash : find_victim {E = BpmError} c fs ≡ err x → ⊥
        clash w = cc
    first_sweep panic q = absurd (clash (rw (q, find_victim) refl))
      where
        clash : find_victim {E = BpmError} c fs ≡ panic → ⊥
        clash w = cc
    first_sweep (ok (some id, hand, swept)) q =
        let found : find_victim {E = BpmError} c fs ≡ ok (some id, record { hand = hand }, swept) =
          rw (q, find_victim) refl in
        let same : swept ≡ gs = cc in
        subst (AllSwept fs) same (sweep-clears true (length fs) c.hand hand fs swept (some id) q)
    first_sweep (ok (none, hand, swept)) q =
        second_sweep (sweep false (length swept) hand swept) refl
      where
        second_sweep :
            (r : Outcome BpmError (Option ℕ × ℕ × List Frame))
            → sweep false (length swept) hand swept ≡ r
            → AllSwept fs gs
        second_sweep (err x) w = absurd (clash (rw (q, w, find_victim) refl))
          where
            clash : find_victim {E = BpmError} c fs ≡ err x → ⊥
            clash z = cc
        second_sweep panic w = absurd (clash (rw (q, w, find_victim) refl))
          where
            clash : find_victim {E = BpmError} c fs ≡ panic → ⊥
            clash z = cc
        second_sweep (ok (last, end, cleared)) w =
            let found : find_victim {E = BpmError} c fs
                ≡ ok (last, record { hand = end }, cleared) =
              rw (q, w, find_victim) refl in
            let same : cleared ≡ gs = cc in
            subst (AllSwept fs) same (
              AllSwept-trans fs swept cleared
                (sweep-clears true (length fs) c.hand hand fs swept none q)
                (sweep-clears false (length swept) hand end swept cleared last w))

instance pub clock_policy : EvictionPolicy ClockEvictor
clock_policy = record {
  find_victim = λ c fs. find_victim c fs;
  clears = λ c next fs gs victim e. find_victim-clears c next fs gs victim e;
}

next_victim-clears :
    (r next : Replacer) (fs gs : List Frame) (victim : Option ℕ)
    → next_victim {E = BpmError} r fs ≡ ok (victim, next, gs)
    → AllSwept fs gs
unfolding next_victim
next_victim-clears r next fs gs victim e =
    let (z, done, _) =
      bind-ok_inv (λ z. ok (z.0, record { hand = z.1 }, fs)) (victim, next, gs)
        (rotate (length fs) r.hand fs) e in
    let same : fs ≡ gs = cc in subst (AllSwept fs) same (AllSwept-self fs)

-- The round robin as the pool's policy.
instance pub replacer_policy : EvictionPolicy Replacer
replacer_policy = record {
  find_victim = λ r fs. next_victim r fs;
  clears = λ r next fs gs victim e. next_victim-clears r next fs gs victim e;
}
