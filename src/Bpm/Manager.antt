-- ===== src/Bpm/Manager.antt =====
-- src/bpm/manager.rs: pages are added, fetched, evicted, flushed and swapped.
use rust_db.Common.{
  ℕ, zero, suc, ◌+◌, if◌then◌else◌, true, false, List, [], ◌∷◌, length, none, some, ok, err, panic,
  map_err,
}
use rust_db.Common.Actions.{Action, pure, fail, lift, expect_some, ◌>>=◌, ◌>>◌}
use rust_db.Types.{PageId}
use rust_db.Page.{Page}
use rust_db.Bpm.Frames.{Frame, is_pinned}
use rust_db.Bpm.Pool.{BpmError, no_free_frames, already_exists}
use rust_db.Bpm.State.{
  EvictionPolicy, DiskManager, PageCodec, BufferPool, table_get, reset_frames, all_frames,
  check_page, frame_at, set_frame, map_page, unmap_page, on_disk, fill_frame, pin_frame,
}

module _ {D Ep : Type 0} ⦃policy : EvictionPolicy Ep⦄ ⦃disk : DiskManager D⦄
    ⦃codec : PageCodec⦄ where
  abbrev pub choose_victim : Action (BufferPool D Ep) BpmError ℕ
  choose_victim s = elim (policy.find_victim s.eviction_policy s.frames) [
    | ok (victim, ep, swept) ↦
        let t : BufferPool D Ep = record s { eviction_policy = ep; frames = swept } in
        elim victim [ some id ↦ (ok id, t) | none ↦ (err no_free_frames, t) ]
    | err e ↦ (err e, s)
    | panic ↦ (panic, s)
  ]

  -- The page is written to disk.
  abbrev pub write_back : Page → Action (BufferPool D Ep) BpmError (Unit {0})
  write_back p = do
    raw ← lift (map_err BpmError.page (codec.as_raw_page p))
    on_disk (disk.write_page p.page_id raw)

  -- The part of `claim_frame` that asks the policy.
  unfoldable pub evict_frame : Action (BufferPool D Ep) BpmError ℕ
  evict_frame = do
    victim_id ← choose_victim
    victim ← frame_at victim_id
    if is_pinned victim then fail no_free_frames else pure tt
    page ← expect_some victim.latch
    if victim.dirty then write_back page else pure tt
    unmap_page page.page_id
    pure victim_id

  unfoldable pub claim_frame : Action (BufferPool D Ep) BpmError ℕ
  unfolding evict_frame
  claim_frame s = elim s.free_frames [
    | f ∷ rest ↦ (ok f, record s { free_frames = rest })
    | [] ↦ evict_frame s
  ]

  -- `new_page`: the frame of the guard, which is pinned.
  unfoldable pub new_page : Page → Action (BufferPool D Ep) BpmError ℕ
  unfolding claim_frame pin_frame
  new_page p s = elim (table_get s.page_table p.page_id) [
    | some f ↦ (err (already_exists p.page_id), s)
    | none ↦
        (do
          frame_id ← claim_frame
          fill_frame frame_id p true
          map_page p.page_id frame_id
          pin_frame frame_id
          pure frame_id)
          s
  ]

  unfoldable pub load_page : PageId → Action (BufferPool D Ep) BpmError ℕ
  unfolding claim_frame
  load_page id = do
    raw ← on_disk (disk.read_page id)
    page ← lift (map_err BpmError.page (codec.deserialize raw))
    frame_id ← claim_frame
    fill_frame frame_id page false
    map_page id frame_id
    pure frame_id

  unfoldable pub checkout_page : PageId → Action (BufferPool D Ep) BpmError ℕ
  unfolding load_page pin_frame
  checkout_page id s =
      (do
        frame ← elim (table_get s.page_table id) [ some f ↦ pure f | none ↦ load_page id ]
        pin_frame frame
        pure frame)
        s

  -- `fetch_read` and `fetch_write`: the frame of the guard. On a wrong page the frame stays pinned,
  -- since the guard that would unpin it has not been built.
  unfoldable pub fetch_frame : PageId → Action (BufferPool D Ep) BpmError ℕ
  unfolding checkout_page
  fetch_frame id = do frame ← checkout_page id; f ← frame_at frame; check_page id frame f.latch

  -- The loop of `flush_all` over the frames from one on.
  unfoldable pub flush_frames : ℕ → ℕ → Action (BufferPool D Ep) BpmError (Unit {0})
  flush_frames zero i = pure tt
  flush_frames (suc n) i = do
    f ← frame_at i
    elim f.dirty [
      | true ↦ do
        elim f.latch [ some p ↦ write_back p | none ↦ pure tt ]
        set_frame i (record f { dirty = false })
      | false ↦ pure tt
    ]
    flush_frames n (i + 1)

  -- `flush_all`, `close` and the drop of the pool.
  unfoldable pub flush_all : Action (BufferPool D Ep) BpmError (Unit {0})
  unfolding flush_frames
  flush_all s = (flush_frames (length s.frames) 0 >> on_disk disk.sync) s

  abbrev pub set_frames : List Frame → Action (BufferPool D Ep) BpmError (Unit {0})
  set_frames frames s = (
    ok tt,
    record s { frames = frames; page_table = []; free_frames = all_frames (length frames) },
  )

  -- `swap_file`: a pinned frame is a panic, after the file was swapped.
  unfoldable pub swap_file : List Page → Action (BufferPool D Ep) BpmError (Unit {0})
  unfolding flush_all
  swap_file pages s =
      (do
        flush_all
        on_disk (disk.swap_file pages)
        frames ← (λ t. lift (reset_frames t.frames) t)
        set_frames frames)
        s
