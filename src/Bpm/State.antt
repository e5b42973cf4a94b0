-- ===== src/Bpm/State.antt =====
-- src/bpm/manager.rs: the pool's state, its page table, its frames and the guards that pin them (with
-- src/bpm/guards.rs), for one call at a time under the lock. The
-- latches are not modelled: a call waits for none, so `try_write` succeeds. The evictor and the disk
-- are parameters, and so is the codec between a page and its bytes. The page table is an
-- association list, and the list of free frames is a stack whose top comes first.
use rust_db.Common.{
  ◌≡◌, ℕ, zero, suc, ◌+◌, ◌-◌, ◌^◌, ltb, if◌then◌else◌, Bool, true, false, List, [], ◌∷◌, Option,
  none, some, Outcome, ok, err, panic, map_err, get_elem?, set,
}
use rust_db.Common.Actions.{Action, pure, fail, crash, expect_some, ◌>>=◌, ◌>>◌}
use rust_db.Types.{Bytes, PageId, IoError, page_id_eq}
use rust_db.PageError.{PageError}
use rust_db.Page.{Page}
use rust_db.Bpm.Swept.{AllSwept}
use rust_db.Bpm.Frames.{Frame, is_pinned}
use rust_db.Bpm.Pool.{BpmError, wrong_page}

-- The trait `EvictionPolicy`: a victim, the policy after it, and the frames, whose reference flags it
-- may have cleared.
pub record EvictionPolicy (Ep : Type 0) : Type 0 where
  pub find_victim : Ep → List Frame → Outcome BpmError (Option ℕ × Ep × List Frame)
  pub clears :
      (ep next : Ep) (frames swept : List Frame) (victim : Option ℕ)
      → find_victim ep frames ≡ ok (victim, next, swept)
      → AllSwept frames swept

-- The trait `DiskManager`.
pub record DiskManager (D : Type 0) : Type 0 where
  pub read_page : PageId → Action D IoError Bytes
  pub write_page : PageId → Bytes → Action D IoError (Unit {0})
  pub sync : Action D IoError (Unit {0})
  pub swap_file : List Page → Action D IoError (Unit {0})

-- `Page::deserialize` and `Page::as_raw_page`.
pub record PageCodec : Type 0 where
  pub deserialize : Bytes → Outcome PageError Page
  pub as_raw_page : Page → Outcome PageError Bytes

-- `BufferPoolManager`, with the `BpmState` behind its lock.
pub record BufferPool (D Ep : Type 0) : Type 0 where
  pub frames : List Frame
  pub disk : D
  pub page_table : List (PageId × ℕ)
  pub free_frames : List ℕ
  pub eviction_policy : Ep

-- The page table as a hash map.
unfoldable pub table_get : List (PageId × ℕ) → PageId → Option ℕ
table_get [] id = none
table_get ((k, f) ∷ table) id = if page_id_eq k id then some f else table_get table id

unfoldable pub table_remove : List (PageId × ℕ) → PageId → List (PageId × ℕ)
table_remove [] id = []
table_remove ((k, f) ∷ table) id =
    if page_id_eq k id then table_remove table id else (k, f) ∷ table_remove table id

abbrev pub table_insert : List (PageId × ℕ) → PageId → ℕ → List (PageId × ℕ)
table_insert table id f = (id, f) ∷ table_remove table id

-- `(0..n).map(FrameId::new)`, with the last at the top of the stack.
abbrev pub all_frames : ℕ → List ℕ
all_frames zero = []
all_frames (suc n) = n ∷ all_frames n

abbrev pub empty_frame : Frame
empty_frame = record { latch = none; pin_count = 0; dirty = false; referenced = false }

abbrev pub empty_frames : ℕ → List Frame
empty_frames zero = []
empty_frames (suc n) = empty_frame ∷ empty_frames n

-- `BufferPoolManager::new`: a pool without frames is a panic.
unfoldable pub new_pool : {D Ep E : Type 0} → D → Ep → ℕ → Outcome E (BufferPool D Ep)
new_pool disk policy zero = panic
new_pool disk policy (suc n) = ok (record {
  frames = empty_frames (suc n);
  disk = disk;
  page_table = [];
  free_frames = all_frames (suc n);
  eviction_policy = policy;
})

-- The frames after `swap_file`, which must not be pinned.
abbrev pub reset_frames : List Frame → Outcome BpmError (List Frame)
reset_frames [] = ok []
reset_frames (f ∷ fs) = elim (is_pinned f) [
  | true ↦ panic
  | false ↦ elim (reset_frames fs) [
    | ok gs ↦ ok (record f { latch = none; dirty = false; referenced = false } ∷ gs)
    | err e ↦ err e
    | panic ↦ panic
  ]
]

module _ {D Ep : Type 0} where
  -- `&self.frames[id]`, and an update of the frame.
  abbrev pub frame_at : ℕ → Action (BufferPool D Ep) BpmError Frame
  frame_at id s = expect_some (get_elem? s.frames id) s

  abbrev pub set_frame : ℕ → Frame → Action (BufferPool D Ep) BpmError (Unit {0})
  set_frame id f s = (ok tt, record s { frames = set s.frames id f })

  -- The frame takes the page.
  abbrev pub fill_frame : ℕ → Page → Bool → Action (BufferPool D Ep) BpmError (Unit {0})
  fill_frame id p dirty =
      frame_at id >>= λ f. set_frame id (record f { latch = some p; dirty = dirty })

  -- The guard, unless the frame holds another page.
  abbrev pub check_page : PageId → ℕ → Option Page → Action (BufferPool D Ep) BpmError ℕ
  check_page id frame none = pure frame
  check_page id frame (some pg) =
      if page_id_eq pg.page_id id then pure frame else fail (wrong_page id pg.page_id)

  abbrev pub map_page : PageId → ℕ → Action (BufferPool D Ep) BpmError (Unit {0})
  map_page id f s = (ok tt, record s { page_table = table_insert s.page_table id f })

  abbrev pub unmap_page : PageId → Action (BufferPool D Ep) BpmError (Unit {0})
  unmap_page id s = (ok tt, record s { page_table = table_remove s.page_table id })

  -- A call of the disk.
  abbrev pub on_disk : {A : Type 0} → Action D IoError A → Action (BufferPool D Ep) BpmError A
  on_disk m s = let (r, d) = m s.disk in (map_err BpmError.io r, record s { disk = d })

  -- `pin_frame` and `unpin_frame`: the counter is a `u32`, and its bounds are debug assertions.
  unfoldable pub pin_frame : ℕ → Action (BufferPool D Ep) BpmError (Unit {0})
  pin_frame id = do
    f ← frame_at id
    if ltb f.pin_count (2 ^ 32 - 1) then pure tt else crash
    set_frame id (record f { referenced = true; pin_count = f.pin_count + 1 })

  unfoldable pub unpin_frame : ℕ → Action (BufferPool D Ep) BpmError (Unit {0})
  unpin_frame id = do
    f ← frame_at id
    if ltb 0 f.pin_count then pure tt else crash
    set_frame id (record f { pin_count = f.pin_count - 1 })

  -- A guard is the frame that it pins. Its page, and a change of the page through it, which marks
  -- the frame dirty.
  abbrev pub guard_page : ℕ → Action (BufferPool D Ep) BpmError Page
  guard_page id = frame_at id >>= λ f. expect_some f.latch

  unfoldable pub guard_write : ℕ → Page → Action (BufferPool D Ep) BpmError (Unit {0})
  guard_write id p = do
    f ← frame_at id
    old ← expect_some f.latch
    set_frame id (record f { latch = some p; dirty = true })
