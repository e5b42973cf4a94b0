-- ===== src/Bpm/Frames.antt =====
-- src/bpm/frame.rs and src/bpm/eviction.rs. The atomics of a frame are fields, and the evictor runs
-- on frames that no other thread changes meanwhile. The buffer pool calls it with its lock held;
-- the drop of a guard, which unpins without the lock, is not interleaved here.
use rust_db.Common.{
  ℕ, zero, suc, ◌+◌, ◌%◌, ◌==◌, if◌then◌else◌, Bool, true, false, not, ◌&&◌, List, Outcome, ok,
  ◌>>=◌, expect, length, Option, none, some, get_elem?, set,
}
use rust_db.Page.{Page}

pub record Frame : Type 0 where
  pub latch : Option Page
  pub pin_count : ℕ
  pub dirty : Bool
  pub referenced : Bool

abbrev pub is_pinned : Frame → Bool
is_pinned f = not (f.pin_count == 0)

abbrev pub is_dirty : Frame → Bool
is_dirty f = f.dirty

-- `take_referenced`: the flag, and the frame with the flag cleared.
abbrev pub take_referenced : Frame → Bool × Frame
take_referenced f = (f.referenced, record f { referenced = false })

-- What the clock does with the frame under its hand.
pub data Visit : Type 0 where
  keep clear evict : Visit

abbrev pub visit : Bool → Frame → Visit
visit skip_dirty f =
    if is_pinned f
    then keep
    else if (take_referenced f).0
    then clear
    else if skip_dirty && is_dirty f
    then keep
    else evict

pub record ClockEvictor : Type 0 where
  pub hand : ℕ

-- One of the two loops of `ClockEvictor::find_victim`, for as many frames as are left to visit:
-- the victim, the hand and the frames.
unfoldable pub sweep :
    {E : Type 0} → Bool → ℕ → ℕ → List Frame → Outcome E (Option ℕ × ℕ × List Frame)
sweep skip_dirty zero hand frames = ok (none, hand, frames)
sweep skip_dirty (suc n) hand frames = expect (get_elem? frames hand) >>= λ frame.
    elim (visit skip_dirty frame) [
      | keep ↦ sweep skip_dirty n ((hand + 1) % length frames) frames
      | clear ↦
          sweep skip_dirty n ((hand + 1) % length frames)
            (set frames hand (take_referenced frame).1)
      | evict ↦ ok (some hand, (hand + 1) % length frames, frames)
    ]

-- `ClockEvictor::find_victim`.
unfoldable pub find_victim :
    {E : Type 0} → ClockEvictor → List Frame → Outcome E (Option ℕ × ClockEvictor × List Frame)
find_victim c frames = do
  (victim, hand, swept) ← sweep true (length frames) c.hand frames
  elim victim [
    | some id ↦ ok (some id, record { hand = hand }, swept)
    | none ↦ do
      (dirty_victim, last_hand, cleared) ← sweep false (length swept) hand swept
      ok (dirty_victim, record { hand = last_hand }, cleared)
  ]

pub record Replacer : Type 0 where
  pub hand : ℕ

-- The loop of `Replacer::find_victim`, for as many frames as are left to visit.
unfoldable pub rotate : {E : Type 0} → ℕ → ℕ → List Frame → Outcome E (Option ℕ × ℕ)
rotate zero hand frames = ok (none, hand)
rotate (suc n) hand frames = expect (get_elem? frames hand) >>= λ frame.
    if is_pinned frame
    then rotate n ((hand + 1) % length frames) frames
    else ok (some hand, (hand + 1) % length frames)

-- `Replacer::find_victim`: the frames stay as they are.
unfoldable pub next_victim :
    {E : Type 0} → Replacer → List Frame → Outcome E (Option ℕ × Replacer × List Frame)
unfolding rotate
next_victim r frames =
    rotate (length frames) r.hand frames >>= λ z. ok (z.0, record { hand = z.1 }, frames)
