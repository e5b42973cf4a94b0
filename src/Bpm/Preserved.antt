-- ===== src/Bpm/Preserved.antt =====
-- The steps that `new_page`, `fetch_read` and `fetch_write` of src/bpm/manager.rs are made of, as
-- triples over the pool's invariant: a result of a step leaves what is said after it, an error a
-- consistent pool, and nothing is said after a panic.
use rust_db.Common.{
  ℕ, ◌+◌, ◌-◌, ◌^◌, ◌<◌, ltb, ◌≡◌, ◌≢◌, refl, sym, ap, ◌∙◌, subst, arith, if◌then◌else◌, Bool, true,
  false, List, [], ◌∷◌, Option, none, some, get_elem?, set, All,
}
use rust_db.Common.Actions.{Action, pure, crash, expect_some, ◌>>◌}
use rust_db.Common.Triples.{Post, Triple, then_do}
use rust_db.Types.{PageId, page_id_eq_self}
use rust_db.Page.{Page}
use rust_db.Bpm.Frames.{Frame}
use rust_db.Bpm.Pool.{BpmError}
use rust_db.Bpm.State.{
  BufferPool, table_get, table_insert, frame_at, set_frame, map_page, fill_frame, pin_frame,
}
use rust_db.Bpm.Consistent.{
  latch_of, get-set, IsUnmapped, IsConsistent, held-set_latch, AllMapped-held, AllMapped-fill,
  AllMapped-insert, IsUnmapped-insert,
}

-- A frame with the page of an id, a frame with a page that was not written yet, and a frame that is
-- pinned as well.
abbrev pub Latches : PageId → Frame → Type 0
Latches id x = (p : Page) × (x.latch ≡ some p) × (p.page_id ≡ id)

abbrev pub LatchesNew : Page → Frame → Type 0
LatchesNew p x = (x.latch ≡ some p) × (x.dirty ≡ true)

abbrev pub Pinned : (Frame → Type 0) → Frame → Type 0
Pinned Q x = Q x × (0 < x.pin_count)

module _ {D Ep : Type 0} where
  -- The frame is neither mapped nor free.
  pub record Claimed (f : ℕ) (s : BufferPool D Ep) : Type 0 where
    pub consistent : IsConsistent s
    pub unmapped : IsUnmapped s.page_table f
    pub taken : All (λ g. f ≢ g) s.free_frames

  -- A frame that is not in use yet, with a page and a dirty flag.
  abbrev pub Filled : Page → Bool → ℕ → BufferPool D Ep → Type 0
  Filled p dirty f s =
      Claimed f s
      × (x : Frame) × (get_elem? s.frames f ≡ some x)
      × (x.latch ≡ some p)
      × (x.dirty ≡ dirty)

  -- The page table gives the frame for the id, and the frame is as said.
  pub record Holding (Q : Frame → Type 0) (id : PageId) (f : ℕ) (s : BufferPool D Ep) : Type 0 where
    pub consistent : IsConsistent s
    pub mapped : table_get s.page_table id ≡ some f
    pub frame : Frame
    pub at : get_elem? s.frames f ≡ some frame
    pub holds : Q frame

  -- The frame at an index, with what held before.
  pub frame_at-Triple :
      (P : BufferPool D Ep → Type 0) (f : ℕ)
      → ((s : BufferPool D Ep) → P s → IsConsistent s)
      → Triple IsConsistent P (frame_at f) (λ frame s. P s × (get_elem? s.frames f ≡ some frame))
  frame_at-Triple P f c s h = go (get_elem? s.frames f) refl
    where
      go :
          (o : Option Frame)
          → get_elem? s.frames f ≡ o
          → Post {E = BpmError} IsConsistent
              (λ frame t. P t × (get_elem? t.frames f ≡ some frame))
              (expect_some o s)
      go none e = tt
      go (some frame) e = (h, e)

  -- An assertion.
  pub assert-Triple :
      (P : BufferPool D Ep → Type 0) (b : Bool)
      → Triple {E = BpmError} IsConsistent P (if b then pure tt else crash) (λ _. P)
  assert-Triple P true s h = h
  assert-Triple P false s h = tt

  -- A change of the frame that keeps its page.
  set_frame-Holding :
      (Q R : Frame → Type 0) (id : PageId) (f : ℕ) (old new : Frame)
      → new.latch ≡ old.latch
      → (Q old → R new)
      → Triple IsConsistent
          (λ s. Holding Q id f s × (get_elem? s.frames f ≡ some old))
          (set_frame f new)
          (λ _. Holding R id f)
  set_frame-Holding Q R id f old new same change s (h, there) =
      let keep = λ (j : ℕ). held-set_latch s.frames f j old new there same in
      record {
        consistent = record {
          mapped =
              AllMapped-held s.page_table s.frames (set s.frames f new) keep h.consistent.mapped;
          apart = h.consistent.apart;
          distinct = h.consistent.distinct;
        };
        mapped = h.mapped;
        frame = new;
        at = get-set s.frames f old new there;
        holds = change (subst Q (some_inj (sym h.at ∙ there)) h.holds);
      }
    where
      some_inj : {a b : Frame} → some a ≡ some b → a ≡ b
      some_inj q = cc

  -- The frame is then pinned, and as it was but for the counter and the reference flag.
  pub pin_frame-Triple :
      (Q : Frame → Type 0) (id : PageId) (f : ℕ)
      → ((x : Frame) → Q x → Q (record x { referenced = true; pin_count = x.pin_count + 1 }))
      → Triple IsConsistent (Holding Q id f) (pin_frame f) (λ _. Holding (Pinned Q) id f)
  unfolding pin_frame
  pin_frame-Triple Q id f steady =
      let at : Frame → BufferPool D Ep → Type 0 =
        λ frame s. Holding Q id f s × (get_elem? s.frames f ≡ some frame) in
      let pinned : Frame → Frame =
        λ frame. record frame { referenced = true; pin_count = frame.pin_count + 1 } in
      let room : Frame → Action (BufferPool D Ep) BpmError (Unit {0}) =
        λ frame. if ltb frame.pin_count (2 ^ 32 - 1) then pure tt else crash in
      then_do IsConsistent (Holding Q id f) at (λ _. Holding (Pinned Q) id f) (frame_at f)
        (λ frame. room frame >> set_frame f (pinned frame))
        (frame_at-Triple (Holding Q id f) f (λ s h. h.consistent))
        (λ frame.
          then_do IsConsistent (at frame) (λ _. at frame) (λ _. Holding (Pinned Q) id f)
            (room frame) (λ _. set_frame f (pinned frame))
            (assert-Triple (at frame) (ltb frame.pin_count (2 ^ 32 - 1)))
            (λ _.
              set_frame-Holding Q (Pinned Q) id f frame (pinned frame) refl
                (λ q. (steady frame q, omega arith))))

  -- A frame that is not in use takes a page.
  pub fill_frame-Triple :
      (f : ℕ) (p : Page) (dirty : Bool)
      → Triple IsConsistent (Claimed f) (fill_frame f p dirty) (λ _. Filled p dirty f)
  fill_frame-Triple f p dirty =
      then_do IsConsistent (Claimed f)
        (λ frame s. Claimed f s × (get_elem? s.frames f ≡ some frame)) (λ _. Filled p dirty f)
        (frame_at f) (λ frame. set_frame f (record frame { latch = some p; dirty = dirty }))
        (frame_at-Triple (Claimed f) f (λ s h. h.consistent))
        (λ frame s z.
          let h : Claimed f s = z.0 in
          let new : Frame = record frame { latch = some p; dirty = dirty } in
          let c : IsConsistent (record s { frames = set s.frames f new }) = record {
            mapped = AllMapped-fill s.page_table s.frames f new h.unmapped h.consistent.mapped;
            apart = h.consistent.apart;
            distinct = h.consistent.distinct;
          } in
          let claimed : Claimed f (record s { frames = set s.frames f new }) = record {
            consistent = c;
            unmapped = h.unmapped;
            taken = h.taken;
          } in
          (claimed, new, get-set s.frames f frame new z.1, refl, refl))

  -- The frame is put into the page table, and is in use.
  pub map_page-Triple :
      (Q : Frame → Type 0) (id : PageId) (f : ℕ) (p : Page) (dirty : Bool)
      → p.page_id ≡ id
      → ((x : Frame) → x.latch ≡ some p → x.dirty ≡ dirty → Q x)
      → Triple IsConsistent (Filled p dirty f) (map_page id f) (λ _. Holding Q id f)
  unfolding table_get
  map_page-Triple Q id f p dirty own known s (h, frame, at, latched, marked) = record {
    consistent = record {
      mapped =
          AllMapped-insert s.page_table s.frames id f p (ap latch_of at ∙ latched) own
            h.consistent.mapped;
      apart = both s.free_frames h.taken h.consistent.apart;
      distinct = h.consistent.distinct;
    };
    mapped = rw (page_id_eq_self id) refl;
    frame = frame;
    at = at;
    holds = known frame latched marked;
  }
    where
      both :
          (fs : List ℕ)
          → All (λ g. f ≢ g) fs
          → All (IsUnmapped s.page_table) fs
          → All (IsUnmapped (table_insert s.page_table id f)) fs
      both [] a b = tt
      both (g ∷ fs) a b = (IsUnmapped-insert s.page_table id f g a.0 b.0, both fs a.1 b.1)
