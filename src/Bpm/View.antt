-- ===== src/Bpm/View.antt =====
-- The pages in the frames of a pool (src/bpm/manager.rs), and what a write through a guard
-- (src/bpm/guards.rs) makes of them.
use rust_db.Common.{
  ℕ, zero, suc, ◌-◌, ◌^◌, ◌<◌, ◌≡◌, ◌≢◌, ◌⊎◌, inl, inr, refl, sym, ap, ◌∙◌, if◌then◌else◌, Bool,
  true, false, List, [], ◌∷◌, Option, none, some, get_elem?, set, subst,
}
use rust_db.Common.Actions.{Action, expect_some, ◌>>=◌}
use rust_db.Types.{PageId, page_id_eq, page_id_eq_self, page_id_eq→eq}
use rust_db.Page.{Page}
use rust_db.Bpm.Frames.{Frame}
use rust_db.Bpm.Pool.{BpmError, replaced}
use rust_db.Bpm.State.{BufferPool, table_get, set_frame, guard_write}
use rust_db.Bpm.Consistent.{held, IsConsistent, AllMapped-held, held-set, held-set_other, frame_of}

-- Every counter of pins can count once more.
abbrev pub AllCountable : List Frame → Type 0
AllCountable frames = (i : ℕ) (f : Frame) → get_elem? frames i ≡ some f → f.pin_count < 2 ^ 32 - 1

get-set_cases :
    (frames : List Frame) (i j : ℕ) (new f : Frame)
    → get_elem? (set frames i new) j ≡ some f
    → (new ≡ f) ⊎ (get_elem? frames j ≡ some f)
get-set_cases [] i j new f e = inr e
get-set_cases (x ∷ frames) zero zero new f e = inl cc
get-set_cases (x ∷ frames) zero (suc j) new f e = inr e
get-set_cases (x ∷ frames) (suc i) zero new f e = inr e
get-set_cases (x ∷ frames) (suc i) (suc j) new f e = get-set_cases frames i j new f e

pub AllCountable-set :
    (frames : List Frame) (i : ℕ) (new : Frame)
    → new.pin_count < 2 ^ 32 - 1
    → AllCountable frames
    → AllCountable (set frames i new)
AllCountable-set frames i new small h j f e = elim (get-set_cases frames i j new f e) [
  | inl same ↦ subst (λ x. x.pin_count < 2 ^ 32 - 1) same small
  | inr there ↦ h j f there
]

pub set_again :
    (frames : List Frame) (i : ℕ) (old new : Frame)
    → set (set frames i old) i new ≡ set frames i new
set_again [] i old new = refl
set_again (x ∷ frames) zero old new = refl
set_again (x ∷ frames) (suc i) old new = ap (λ fs. x ∷ fs) (set_again frames i old new)

-- The page in the frame that the page table gives.
abbrev pub in_frame : List Frame → Option ℕ → Option Page
in_frame frames none = none
in_frame frames (some f) = held frames f

pub in_frame-held :
    (frames gs : List Frame) (o : Option ℕ)
    → ((i : ℕ) → held gs i ≡ held frames i)
    → in_frame gs o ≡ in_frame frames o
in_frame-held frames gs none same = refl
in_frame-held frames gs (some f) same = same f

pub mapped_frame :
    (frames : List Frame) (o : Option ℕ) (p : Page)
    → in_frame frames o ≡ some p
    → (f : ℕ) × (o ≡ some f) × (held frames f ≡ some p)
mapped_frame frames none p e = absurd (clash e)
  where
    clash : none ≡ some p → ⊥
    clash q = cc
mapped_frame frames (some f) p e = (f, refl, e)

module _ {D Ep : Type 0} where
  abbrev pub pool_view : BufferPool D Ep → PageId → Option Page
  pool_view s id = in_frame s.frames (table_get s.page_table id)

  pub record IsReady (s : BufferPool D Ep) : Type 0 where
    pub consistent : IsConsistent s
    pub countable : AllCountable s.frames

  -- A write through the guard of the frame that has the page.
  unfoldable pub pool_put : Page → BufferPool D Ep → BufferPool D Ep
  unfolding guard_write
  pool_put p s = elim (table_get s.page_table p.page_id) [
    | some f ↦ (guard_write f p s).1
    | none ↦ s
  ]

  -- Frames that hold the same pages.
  pub same_frames-IsReady :
      (s : BufferPool D Ep) (frames : List Frame)
      → ((i : ℕ) → held frames i ≡ held s.frames i)
      → AllCountable frames
      → IsConsistent s
      → IsReady (record s { frames = frames })
  same_frames-IsReady s frames same small h = record {
    consistent = record {
      mapped = AllMapped-held s.page_table s.frames frames same h.mapped;
      apart = h.apart;
      distinct = h.distinct;
    };
    countable = small;
  }

  -- The frames of two pages are apart.
  frames_apart :
      (s : BufferPool D Ep) (id j : PageId) (f g : ℕ)
      → IsConsistent s
      → table_get s.page_table id ≡ some f
      → table_get s.page_table j ≡ some g
      → id ≢ j
      → f ≢ g
  frames_apart s id j f g h a b n same =
      let (p, at_p, own_p) = h.mapped id f a in
      let (q, at_q, own_q) = h.mapped j g b in
      n (sym own_p ∙ (same_page (sym at_p ∙ (ap (held s.frames) same ∙ at_q)) ∙ own_q))
    where
      same_page : {p q : Page} → some p ≡ some q → p.page_id ≡ q.page_id
      same_page e = cc

  put-frame :
      (s : BufferPool D Ep) (p : Page) (f : ℕ) (frame : Frame) (old : Page)
      → table_get s.page_table p.page_id ≡ some f
      → get_elem? s.frames f ≡ some frame
      → frame.latch ≡ some old
      → pool_put p s
        ≡ record s { frames = set s.frames f (record frame { latch = some p; dirty = true }) }
  unfolding pool_put guard_write
  put-frame s p f frame old a at there =
      let change : Frame → Action (BufferPool D Ep) BpmError (Unit {0}) =
        λ x. expect_some x.latch >>= λ q. set_frame f (record x { latch = some p; dirty = true }) in
      ap (λ o. elim o as (λ _. BufferPool D Ep) [ some g ↦ (guard_write g p s).1 | none ↦ s ]) a
      ∙ (ap (λ o. ((expect_some o >>= change) s).1) at
          ∙ ap
              (λ o.
                ((expect_some o >>= λ q.
                set_frame f (record frame { latch = some p; dirty = true }))
                  s).1)
              there)

  pub pool_put-view :
      (s : BufferPool D Ep) (p old : Page)
      → IsReady s
      → pool_view s p.page_id ≡ some old
      → IsReady (pool_put p s)
        × ((q : PageId) → pool_view (pool_put p s) q ≡ replaced (pool_view s) p q)
  pool_put-view s p old h e =
      let (f, a, here) = mapped_frame s.frames (table_get s.page_table p.page_id) old e in
      let (frame, at, there) = frame_of s.frames f old here in
      let new : Frame = record frame { latch = some p; dirty = true } in
      let t : BufferPool D Ep = record s { frames = set s.frames f new } in
      subst (λ x. IsReady x × ((q : PageId) → pool_view x q ≡ replaced (pool_view s) p q))
        (sym (put-frame s p f frame old a at there))
        (
          record {
            consistent = record {
              mapped = λ id g b. mapped f frame a at id g b (page_id_eq p.page_id id) refl;
              apart = h.consistent.apart;
              distinct = h.consistent.distinct;
            };
            countable = AllCountable-set s.frames f new (h.countable f frame at) h.countable;
          },
          λ q. viewed f frame a at q (page_id_eq p.page_id q) refl,
        )
    where
      differs : (id : PageId) → page_id_eq p.page_id id ≡ false → p.page_id ≢ id
      differs id other same =
          clash (page_id_eq_self p.page_id)
            (subst (λ j. page_id_eq p.page_id j ≡ false) (sym same) other)
        where
          clash : page_id_eq p.page_id p.page_id ≡ true → page_id_eq p.page_id p.page_id ≡ false → ⊥
          clash x y = cc

      mapped :
          (f : ℕ) (frame : Frame)
          → table_get s.page_table p.page_id ≡ some f
          → get_elem? s.frames f ≡ some frame
          → (id : PageId) (g : ℕ) → table_get s.page_table id ≡ some g
          → (b : Bool) → page_id_eq p.page_id id ≡ b
          → (q : Page) × (held (set s.frames f (record frame { latch = some p; dirty = true })) g
              ≡ some q)
            × (q.page_id ≡ id)
      mapped f frame a at id g b true own_id =
          let own = page_id_eq→eq p.page_id id own_id in
          let same : f ≡ g = some_inj (sym a ∙ (ap (table_get s.page_table) own ∙ b)) in
          (
            p,
            subst (λ i. held (set s.frames f new) i ≡ some p) same
                (held-set s.frames f frame new at),
            own,
          )
        where
          new : Frame
          new = record frame { latch = some p; dirty = true }

          some_inj : {i j : ℕ} → some i ≡ some j → i ≡ j
          some_inj e = cc
      mapped f frame a at id g b false other =
          let (q, there, own) = h.consistent.mapped id g b in
          let n = frames_apart s p.page_id id f g h.consistent a b (differs id other) in
          (
            q,
            held-set_other s.frames f g (record frame { latch = some p; dirty = true }) n ∙ there,
            own,
          )

      viewed :
          (f : ℕ) (frame : Frame)
          → table_get s.page_table p.page_id ≡ some f
          → get_elem? s.frames f ≡ some frame
          → (q : PageId) (b : Bool) → page_id_eq p.page_id q ≡ b
          → in_frame
              (set s.frames f (record frame { latch = some p; dirty = true }))
              (table_get s.page_table q)
            ≡ replaced (pool_view s) p q
      viewed f frame a at q true own_id =
          let own = page_id_eq→eq p.page_id q own_id in
          let new : Frame = record frame { latch = some p; dirty = true } in
          ap (in_frame (set s.frames f new)) (sym (ap (table_get s.page_table) own) ∙ a)
          ∙ (held-set s.frames f frame new at
              ∙ ap (λ b. if b then some p else pool_view s q) (sym own_id))
      viewed f frame a at q false other =
          go (table_get s.page_table q) refl
          ∙ ap (λ b. if b then some p else pool_view s q) (sym other)
        where
          new : Frame
          new = record frame { latch = some p; dirty = true }

          go :
              (o : Option ℕ)
              → table_get s.page_table q ≡ o
              → in_frame (set s.frames f new) (table_get s.page_table q) ≡ pool_view s q
          go none e = ap (in_frame (set s.frames f new)) e ∙ sym (ap (in_frame s.frames) e)
          go (some g) e =
              ap (in_frame (set s.frames f new)) e
              ∙ (held-set_other s.frames f g new
                    (frames_apart s p.page_id q f g h.consistent a e (differs q other))
                  ∙ sym (ap (in_frame s.frames) e))
