-- ===== src/Bpm/Fetch.antt =====
-- `new_page`, `fetch_read` and `fetch_write` of src/bpm/manager.rs on a consistent pool.
use rust_db.Common.{
  ◌<◌, arith, ℕ, ◌+◌, ◌-◌, ◌^◌, ltb, ◌≡◌, refl, sym, ap, ◌∙◌, if◌then◌else◌, Bool, true, false,
  Option, none, some, get_elem?, set, subst, Outcome, ok, err, panic, map_err,
}
use rust_db.Common.Actions.{after_ok, Action, pure, fail, crash, lift, expect_some, ◌>>=◌, ◌>>◌}
use rust_db.Common.Triples.{Post, Triple, then_do}
use rust_db.Types.{Bytes, PageId, page_id_eq, page_id_eq_self}
use rust_db.PageError.{PageError}
use rust_db.Page.{Page}
use rust_db.Bpm.Frames.{Frame}
use rust_db.Bpm.Pool.{BpmError, wrong_page, already_exists}
use rust_db.Bpm.State.{
  EvictionPolicy, DiskManager, PageCodec, BufferPool, check_page, table_get, frame_at, set_frame,
  map_page, on_disk, fill_frame, pin_frame,
}
use rust_db.Bpm.Manager.{claim_frame, new_page, load_page, checkout_page, fetch_frame}
use rust_db.Bpm.Consistent.{get-set, frame_of, latch_of, IsConsistent}
use rust_db.Bpm.Preserved.{
  Claimed, Filled, Holding, Latches, LatchesNew, Pinned, frame_at-Triple, pin_frame-Triple,
  fill_frame-Triple, map_page-Triple,
}
use rust_db.Bpm.Claim.{lift-Triple, on_disk-Triple, claim_frame-Triple}

-- What is read under an id is the page with that id.
abbrev pub IsFaithful : (D : Type 0) → ⦃disk : DiskManager D⦄ → ⦃codec : PageCodec⦄ → Type 0
IsFaithful D ⦃disk = disk⦄ ⦃codec = codec⦄ =
    (id : PageId) (before after : D) (raw : Bytes) (p : Page)
    → disk.read_page id before ≡ (ok raw, after)
    → codec.deserialize raw ≡ ok p
    → p.page_id ≡ id

module _ {D Ep : Type 0} ⦃policy : EvictionPolicy Ep⦄ ⦃disk : DiskManager D⦄
    ⦃codec : PageCodec⦄ where
  -- The steps of a frame that takes a page.
  placed :
      (Q : Frame → Type 0) (id : PageId) (p : Page) (dirty : Bool) {A : Type 0}
      (R : A → BufferPool D Ep → Type 0) (rest : ℕ → Action (BufferPool D Ep) BpmError A)
      → p.page_id ≡ id
      → ((x : Frame) → x.latch ≡ some p → x.dirty ≡ dirty → Q x)
      → ((f : ℕ) → Triple {S = BufferPool D Ep} IsConsistent (Holding Q id f) (rest f) R)
      → Triple {S = BufferPool D Ep} IsConsistent IsConsistent
          (claim_frame >>= λ f. fill_frame f p dirty >> (map_page id f >> rest f))
          R
  placed Q id p dirty R rest own known next =
      then_do IsConsistent IsConsistent (λ f. Claimed f) R claim_frame
        (λ f. fill_frame f p dirty >> (map_page id f >> rest f)) claim_frame-Triple
        (λ f.
          then_do IsConsistent (Claimed f) (λ _. Filled p dirty f) R (fill_frame f p dirty)
            (λ _. map_page id f >> rest f) (fill_frame-Triple f p dirty)
            (λ _.
              then_do IsConsistent (Filled p dirty f) (λ _. Holding Q id f) R (map_page id f)
                (λ _. rest f) (map_page-Triple Q id f p dirty own known) (λ _. next f)))

  pin_and_return :
      (Q : Frame → Type 0) (id : PageId) (f : ℕ)
      → ((x : Frame) → Q x → Q (record x { referenced = true; pin_count = x.pin_count + 1 }))
      → Triple {S = BufferPool D Ep} IsConsistent
          (Holding Q id f)
          (pin_frame f >> pure f)
          (λ g. Holding (Pinned Q) id g)
  pin_and_return Q id f steady =
      then_do IsConsistent (Holding Q id f) (λ _. Holding (Pinned Q) id f)
        (λ g. Holding (Pinned Q) id g) (pin_frame f) (λ _. pure f) (pin_frame-Triple Q id f steady)
        (λ _ s h. h)

  -- On a consistent pool `new_page` leaves a consistent pool, after an error too. The frame that
  -- it returns is the one that the page table gives for the page's id, holds the page itself, is
  -- marked dirty and is pinned. After a panic nothing is said.
  pub new_page-IsConsistent :
      (p : Page) (s : BufferPool D Ep)
      → IsConsistent s
      → Post IsConsistent (λ f. Holding (Pinned (LatchesNew p)) p.page_id f) (new_page p s)
  unfolding new_page
  new_page-IsConsistent p s h = go (table_get s.page_table p.page_id)
    where
      go :
          (o : Option ℕ)
          → Post {S = BufferPool D Ep} {E = BpmError} IsConsistent
              (λ f. Holding (Pinned (LatchesNew p)) p.page_id f)
              (elim o [
                | some f ↦ (err (already_exists p.page_id), s)
                | none ↦
                    (claim_frame >>= λ f.
                    fill_frame f p true >> (map_page p.page_id f >> (pin_frame f >> pure f)))
                      s
              ])
      go (some f) = h
      go none =
          placed (LatchesNew p) p.page_id p true (λ f. Holding (Pinned (LatchesNew p)) p.page_id f)
            (λ f. pin_frame f >> pure f) refl (λ x latched marked. (latched, marked))
            (λ f. pin_and_return (LatchesNew p) p.page_id f (λ x q. q)) s h

  load_page-Triple :
      (id : PageId)
      → IsFaithful D
      → Triple {S = BufferPool D Ep} IsConsistent IsConsistent
          (load_page id)
          (λ f. Holding (Latches id) id f)
  unfolding load_page
  load_page-Triple id faithful =
      let place : Page → Action (BufferPool D Ep) BpmError ℕ =
        λ p. claim_frame >>= λ f. fill_frame f p false >> (map_page id f >> pure f) in
      let parse : Bytes → Action (BufferPool D Ep) BpmError Page =
        λ raw. lift (map_err BpmError.page (codec.deserialize raw)) in
      let read : Bytes → BufferPool D Ep → Type 0 =
        λ raw s. IsConsistent s × (before : D) × (disk.read_page id before ≡ (ok raw, s.disk)) in
      let parsed : Bytes → Page → BufferPool D Ep → Type 0 =
        λ raw p s. read raw s × (map_err BpmError.page (codec.deserialize raw) ≡ ok p) in
      then_do IsConsistent IsConsistent read (λ f. Holding (Latches id) id f)
        (on_disk (disk.read_page id)) (λ raw. parse raw >>= place)
        (on_disk-Triple IsConsistent (disk.read_page id) (λ s h. h)
          (λ s d h. record { mapped = h.mapped; apart = h.apart; distinct = h.distinct }))
        (λ raw.
          then_do IsConsistent (read raw) (parsed raw) (λ f. Holding (Latches id) id f) (parse raw)
            place
            (lift-Triple (read raw) (map_err BpmError.page (codec.deserialize raw)) (λ s h. h.0))
            (λ p s z.
              let own = faithful id z.0.1 s.disk raw p z.0.2 (parse_ok raw p z.1) in
              placed (Latches id) id p false (λ f. Holding (Latches id) id f) (λ f. pure f) own
                (λ x latched marked. (p, latched, own)) (λ f s h. h) s z.0.0))
    where
      parse_ok :
          (raw : Bytes) (p : Page)
          → map_err BpmError.page (codec.deserialize raw) ≡ ok p
          → codec.deserialize raw ≡ ok p
      parse_ok raw p e = go (codec.deserialize raw) e
        where
          go : (r : Outcome PageError Page) → map_err BpmError.page r ≡ ok p → r ≡ ok p
          go (ok q) e = cc
          go (err x) e = cc
          go panic e = cc

  checkout_page-Triple :
      (id : PageId)
      → IsFaithful D
      → Triple {S = BufferPool D Ep} IsConsistent IsConsistent
          (checkout_page id)
          (λ f. Holding (Pinned (Latches id)) id f)
  unfolding checkout_page
  checkout_page-Triple id faithful s h = go (table_get s.page_table id) refl
    where
      pinned : ℕ → Action (BufferPool D Ep) BpmError ℕ
      pinned f = pin_frame f >> pure f

      go :
          (o : Option ℕ)
          → table_get s.page_table id ≡ o
          → Post {S = BufferPool D Ep} {E = BpmError} IsConsistent
              (λ f. Holding (Pinned (Latches id)) id f)
              ((elim o [ some f ↦ pure f | none ↦ load_page id ] >>= λ f. pin_frame f >> pure f) s)
      go (some f) e =
          let (p, here, own) = h.mapped id f e in
          let (frame, at, latched) = frame_of s.frames f p here in
          pin_and_return (Latches id) id f (λ x q. q) s
            (record {
              consistent = h;
              mapped = e;
              frame = frame;
              at = at;
              holds = (p, latched, own);
            })
      go none e =
          then_do IsConsistent IsConsistent (λ f. Holding (Latches id) id f)
            (λ f. Holding (Pinned (Latches id)) id f) (load_page id) (λ f. pin_frame f >> pure f)
            (load_page-Triple id faithful) (λ f. pin_and_return (Latches id) id f (λ x q. q)) s h

  -- On a consistent pool whose disk returns the page that is asked for, a fetch leaves a
  -- consistent pool, after an error too. The frame that it returns is the one that the page table
  -- gives for the id, holds the page with the id, and is pinned. After a panic nothing is said.
  pub fetch_frame-IsConsistent :
      (id : PageId) (s : BufferPool D Ep)
      → IsFaithful D
      → IsConsistent s
      → Post IsConsistent (λ f. Holding (Pinned (Latches id)) id f) (fetch_frame id s)
  unfolding fetch_frame
  fetch_frame-IsConsistent id s faithful h =
      let check : ℕ → Frame → Action (BufferPool D Ep) BpmError ℕ =
        λ frame f. check_page id frame f.latch in
      then_do IsConsistent IsConsistent (λ f. Holding (Pinned (Latches id)) id f)
        (λ f. Holding (Pinned (Latches id)) id f) (checkout_page id) (λ f. frame_at f >>= check f)
        (checkout_page-Triple id faithful)
        (λ f.
          then_do IsConsistent (Holding (Pinned (Latches id)) id f)
            (λ frame s. Holding (Pinned (Latches id)) id f s × (get_elem? s.frames f ≡ some frame))
            (λ f. Holding (Pinned (Latches id)) id f) (frame_at f) (check f)
            (frame_at-Triple (Holding (Pinned (Latches id)) id f) f (λ s h. h.consistent))
            (λ frame s z. checked f frame.latch s z.0))
        s h
    where
      checked :
          (f : ℕ) (o : Option Page) (s : BufferPool D Ep)
          → Holding (Pinned (Latches id)) id f s
          → Post {S = BufferPool D Ep} {E = BpmError} IsConsistent
              (λ f. Holding (Pinned (Latches id)) id f)
              (check_page id f o s)
      checked f none s h = h
      checked f (some pg) s h = by_id (page_id_eq pg.page_id id)
        where
          by_id :
              (b : Bool)
              → Post {S = BufferPool D Ep} {E = BpmError} IsConsistent
                  (λ f. Holding (Pinned (Latches id)) id f)
                  ((if b then pure f else fail (wrong_page id pg.page_id)) s)
          by_id true = h
          by_id false = h.consistent

  -- On a consistent pool, a fetch of a page that the page table has, in a frame that can be
  -- pinned once more, reads nothing from the disk and returns that frame, pinned once more and
  -- referenced.
  pub fetch_frame-cached :
      (id : PageId) (f : ℕ) (frame : Frame) (s : BufferPool D Ep)
      → IsConsistent s
      → table_get s.page_table id ≡ some f
      → get_elem? s.frames f ≡ some frame
      → frame.pin_count < 2 ^ 32 - 1
      → fetch_frame id s ≡ (
        ok f,
        record s {
          frames =
              set s.frames f (record frame { referenced = true; pin_count = frame.pin_count + 1 });
        },
      )
  unfolding fetch_frame checkout_page pin_frame
  fetch_frame-cached id f frame s h e at room =
      let new : Frame = record frame { referenced = true; pin_count = frame.pin_count + 1 } in
      let t : BufferPool D Ep = record s { frames = set s.frames f new } in
      let counted : ltb frame.pin_count (2 ^ 32 - 1) ≡ true = ground (arith, room) in
      let (p, here, own) = h.mapped id f e in
      let there : get_elem? (set s.frames f new) f ≡ some new = get-set s.frames f frame new at in
      let holds : frame.latch ≡ some p = sym (ap latch_of at) ∙ here in
      let change : Frame → Action (BufferPool D Ep) BpmError (Unit {0}) = λ x.
        (if ltb x.pin_count (2 ^ 32 - 1) then pure tt else crash)
        >> set_frame f (record x { referenced = true; pin_count = x.pin_count + 1 }) in
      let pinned : pin_frame f s ≡ (ok tt, t) =
        ap (λ o. (expect_some o >>= change) s) at
        ∙ ap (λ b. ((if b then pure tt else crash) >> set_frame f new) s) counted in
      let checked_out : checkout_page id s ≡ (ok f, t) =
        ap
          (λ o.
            ((elim o as (λ _. Action (BufferPool D Ep) BpmError ℕ) [
              | some f ↦ pure f
              | none ↦ load_page id
            ])
                >>= λ f. pin_frame f >> pure f)
              s)
          e
        ∙ after_ok (pin_frame f) (λ _. pure f) s t tt pinned in
      let check : Frame → Action (BufferPool D Ep) BpmError ℕ = λ x. check_page id f x.latch in
      let same : page_id_eq p.page_id id ≡ true =
        subst (λ j. page_id_eq p.page_id j ≡ true) own (page_id_eq_self p.page_id) in
      after_ok (checkout_page id) (λ f. frame_at f >>= λ x. check_page id f x.latch) s t f
        checked_out
      ∙ (ap (λ o. (expect_some o >>= check) t) there
          ∙ (ap (λ o. check_page id f o t) holds
              ∙ ap (λ b. (if b then pure f else fail (wrong_page id p.page_id)) t) same))
