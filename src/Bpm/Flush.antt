-- ===== src/Bpm/Flush.antt =====
-- `flush_all` and `swap_file` of src/bpm/manager.rs on a consistent pool.
use rust_db.Common.{
  ℕ, zero, suc, ◌+◌, ◌<◌, ◌≡◌, ◌≢◌, refl, Bool, true, false, List, [], Option, none, some, ok,
  get_elem?, set, length, All, arith,
}
use rust_db.Common.Actions.{Action, pure, lift, ◌>>=◌, ◌>>◌}
use rust_db.Common.Triples.{Triple, then_do, weaker}
use rust_db.Types.{IoError}
use rust_db.Page.{Page}
use rust_db.Bpm.Frames.{Frame}
use rust_db.Bpm.Pool.{BpmError}
use rust_db.Bpm.State.{
  EvictionPolicy, DiskManager, PageCodec, BufferPool, table_get, frame_at, set_frame, on_disk,
  reset_frames, all_frames,
}
use rust_db.Bpm.Manager.{write_back, flush_frames, flush_all, set_frames, swap_file}
use rust_db.Bpm.Consistent.{IsConsistent, IsUnmapped, AllDistinct, AllMapped-held, held-set_latch}
use rust_db.Bpm.Preserved.{frame_at-Triple}
use rust_db.Bpm.Claim.{lift-Triple, on_disk-Triple, write_back-Triple}

all_frames-All : (P : ℕ → Type 0) (n : ℕ) → ((i : ℕ) → i < n → P i) → All P (all_frames n)
all_frames-All P zero h = tt
all_frames-All P (suc n) h =
    (h n (omega arith), all_frames-All P n (λ i small. h i (omega (arith, small))))

all_frames-AllDistinct : (n : ℕ) → AllDistinct (all_frames n)
all_frames-AllDistinct zero = tt
all_frames-AllDistinct (suc n) = (
  all_frames-All (λ g. n ≢ g) n (λ i small same. omega (arith, small, same)),
  all_frames-AllDistinct n,
)

module _ {D Ep : Type 0} where
  -- The frame at an index of a consistent pool.
  abbrev At : ℕ → Frame → BufferPool D Ep → Type 0
  At i f s = IsConsistent s × (get_elem? s.frames i ≡ some f)

  disk_change_steady :
      (i : ℕ) (f : Frame) (s : BufferPool D Ep) (d : D) → At i f s → At i f (record s { disk = d })
  disk_change_steady i f s d (h, e) =
      (record { mapped = h.mapped; apart = h.apart; distinct = h.distinct }, e)

  clean-Triple :
      (i : ℕ) (f : Frame)
      → Triple {E = BpmError} IsConsistent
          (At i f)
          (set_frame i (record f { dirty = false }))
          (λ _. IsConsistent)
  clean-Triple i f s (h, e) =
      let new : Frame = record f { dirty = false } in
      record {
        mapped =
            AllMapped-held s.page_table s.frames (set s.frames i new)
              (λ j. held-set_latch s.frames i j f new e refl) h.mapped;
        apart = h.apart;
        distinct = h.distinct;
      }

  module _ ⦃policy : EvictionPolicy Ep⦄ ⦃disk : DiskManager D⦄ ⦃codec : PageCodec⦄ where
    set_frames-Triple :
        (frames : List Frame)
        → Triple {S = BufferPool D Ep} IsConsistent IsConsistent
            (set_frames frames)
            (λ _. IsConsistent)
    unfolding table_get
    set_frames-Triple frames s h = record {
      mapped = λ id f e. absurd (clash f e);
      apart = all_frames-All (IsUnmapped []) (length frames) (λ i small id e. clash i e);
      distinct = all_frames-AllDistinct (length frames);
    }
      where
        clash : (f : ℕ) → none ≡ some f → ⊥
        clash f q = cc

    flush_one :
        (i : ℕ) (f : Frame) (dirty : Bool)
        → Triple {E = BpmError} IsConsistent
            (At i f)
            (elim dirty as (λ _. Action (BufferPool D Ep) BpmError (Unit {0})) [
              | true ↦
                  elim f.latch as (λ _. Action (BufferPool D Ep) BpmError (Unit {0})) [
                    | some p ↦ write_back p
                    | none ↦ pure tt
                  ]
                  >> set_frame i (record f { dirty = false })
              | false ↦ pure tt
            ])
            (λ _. IsConsistent)
    flush_one i f false = λ s h. h.0
    flush_one i f true =
        then_do IsConsistent (At i f) (λ _. At i f) (λ _. IsConsistent)
          (elim f.latch as (λ _. Action (BufferPool D Ep) BpmError (Unit {0})) [
            | some p ↦ write_back p
            | none ↦ pure tt
          ])
          (λ _. set_frame i (record f { dirty = false })) (saved f.latch) (λ _. clean-Triple i f)
      where
        saved :
            (o : Option Page)
            → Triple {E = BpmError} IsConsistent
                (At i f)
                (elim o as (λ _. Action (BufferPool D Ep) BpmError (Unit {0})) [
                  | some p ↦ write_back p
                  | none ↦ pure tt
                ])
                (λ _. At i f)
        saved (some p) = write_back-Triple (At i f) p (λ s h. h.0) (disk_change_steady i f)
        saved none = λ s h. h

    flush_frames-Triple :
        (n i : ℕ)
        → Triple {S = BufferPool D Ep} IsConsistent IsConsistent
            (flush_frames n i)
            (λ _. IsConsistent)
    unfolding flush_frames
    flush_frames-Triple zero i = λ s h. h
    flush_frames-Triple (suc n) i =
        let one : Frame → Action (BufferPool D Ep) BpmError (Unit {0}) = λ f.
          elim f.dirty as (λ _. Action (BufferPool D Ep) BpmError (Unit {0})) [
            | true ↦
                elim f.latch as (λ _. Action (BufferPool D Ep) BpmError (Unit {0})) [
                  | some p ↦ write_back p
                  | none ↦ pure tt
                ]
                >> set_frame i (record f { dirty = false })
            | false ↦ pure tt
          ] in
        then_do IsConsistent IsConsistent (At i) (λ _. IsConsistent) (frame_at i)
          (λ f. one f >> flush_frames n (i + 1)) (frame_at-Triple IsConsistent i (λ s h. h))
          (λ f.
            then_do IsConsistent (At i f) (λ _. IsConsistent) (λ _. IsConsistent) (one f)
              (λ _. flush_frames n (i + 1)) (flush_one i f f.dirty)
              (λ _. flush_frames-Triple n (i + 1)))

    disk-Triple :
        {A : Type 0} (m : Action D IoError A)
        → Triple {S = BufferPool D Ep} IsConsistent IsConsistent (on_disk m) (λ _. IsConsistent)
    disk-Triple m =
        weaker IsConsistent IsConsistent
          (λ a s. IsConsistent s × (before : D) × (m before ≡ (ok a, s.disk))) (λ _. IsConsistent)
          (on_disk m) (λ a t q. q.0)
          (on_disk-Triple IsConsistent m (λ s h. h)
            (λ s d h. record { mapped = h.mapped; apart = h.apart; distinct = h.distinct }))

    -- On a consistent pool `flush_all` leaves a consistent pool, after an error too.
    pub flush_all-IsConsistent :
        Triple {S = BufferPool D Ep} IsConsistent IsConsistent flush_all (λ _. IsConsistent)
    unfolding flush_all
    flush_all-IsConsistent s h =
        then_do IsConsistent IsConsistent (λ _. IsConsistent) (λ _. IsConsistent)
          (flush_frames (length s.frames) 0) (λ _. on_disk disk.sync)
          (flush_frames-Triple (length s.frames) 0) (λ _. disk-Triple disk.sync) s h

    -- And so does `swap_file`.
    pub swap_file-IsConsistent :
        (pages : List Page)
        → Triple {S = BufferPool D Ep} IsConsistent IsConsistent
            (swap_file pages)
            (λ _. IsConsistent)
    unfolding swap_file
    swap_file-IsConsistent pages s h =
        let reset : Action (BufferPool D Ep) BpmError (List Frame) =
          λ t. lift (reset_frames t.frames) t in
        then_do IsConsistent IsConsistent (λ _. IsConsistent) (λ _. IsConsistent) flush_all
          (λ _. on_disk (disk.swap_file pages) >> (reset >>= set_frames)) flush_all-IsConsistent
          (λ _.
            then_do IsConsistent IsConsistent (λ _. IsConsistent) (λ _. IsConsistent)
              (on_disk (disk.swap_file pages)) (λ _. reset >>= set_frames)
              (disk-Triple (disk.swap_file pages))
              (λ _.
                then_do IsConsistent IsConsistent (λ _. IsConsistent) (λ _. IsConsistent) reset
                  set_frames
                  (λ t g.
                    weaker IsConsistent IsConsistent
                      (λ frames u. IsConsistent u × (reset_frames t.frames ≡ ok frames))
                      (λ _. IsConsistent) (lift (reset_frames t.frames)) (λ a u q. q.0)
                      (lift-Triple IsConsistent (reset_frames t.frames) (λ s h. h)) t g)
                  set_frames-Triple))
          s h
