-- ===== src/Bpm/Claim.antt =====
-- `claim_frame` of src/bpm/manager.rs: the frame that it returns is neither mapped nor free.
use rust_db.Common.{
  ℕ, ◌≡◌, ◌≢◌, refl, sym, ap, ◌∙◌, if◌then◌else◌, Bool, true, false, List, [], ◌∷◌, Option, none,
  some, get_elem?, All, subst, Outcome, ok, err, panic, map_err,
}
use rust_db.Common.Actions.{Action, pure, fail, lift, expect_some, ◌>>=◌, ◌>>◌}
use rust_db.Common.Triples.{Post, Triple, then_do, weaker}
use rust_db.Types.{Bytes, IoError}
use rust_db.Page.{Page}
use rust_db.Bpm.Frames.{Frame, is_pinned}
use rust_db.Bpm.Pool.{BpmError, no_free_frames}
use rust_db.Bpm.State.{
  EvictionPolicy, DiskManager, PageCodec, BufferPool, table_remove, frame_at, unmap_page, on_disk,
}
use rust_db.Bpm.Manager.{choose_victim, write_back, evict_frame, claim_frame}
use rust_db.Bpm.Consistent.{
  held, latch_of, IsUnmapped, AllDistinct, IsConsistent, held-AllSwept, AllMapped-held,
  AllMapped-remove, IsUnmapped-remove,
}
use rust_db.Bpm.Preserved.{Claimed, frame_at-Triple}

module _ {D Ep : Type 0} where
  -- No frame is free.
  abbrev pub NoFree : BufferPool D Ep → Type 0
  NoFree s = IsConsistent s × (s.free_frames ≡ [])

  abbrev Victim : ℕ → Page → BufferPool D Ep → Type 0
  Victim v p s = NoFree s × (held s.frames v ≡ some p)

  -- A result that does not touch the pool, and a call of the disk.
  pub lift-Triple :
      {A : Type 0} (P : BufferPool D Ep → Type 0) (r : Outcome BpmError A)
      → ((s : BufferPool D Ep) → P s → IsConsistent s)
      → Triple IsConsistent P (lift r) (λ a s. P s × (r ≡ ok a))
  lift-Triple P (ok a) c s h = (h, refl)
  lift-Triple P (err e) c s h = c s h
  lift-Triple P panic c s h = tt

  pub on_disk-Triple :
      {A : Type 0} (P : BufferPool D Ep → Type 0) (m : Action D IoError A)
      → ((s : BufferPool D Ep) → P s → IsConsistent s)
      → ((s : BufferPool D Ep) (d : D) → P s → P (record s { disk = d }))
      → Triple IsConsistent P (on_disk m) (λ a s. P s × (before : D) × (m before ≡ (ok a, s.disk)))
  on_disk-Triple {A = A} P m c stable s h = go (m s.disk) refl
    where
      go :
          (x : Outcome IoError A × D)
          → m s.disk ≡ x
          → Post {E = BpmError} IsConsistent
              (λ a s. P s × (before : D) × (m before ≡ (ok a, s.disk)))
              (on_disk (λ _. x) s)
      go (ok a, d) e = (stable s d h, s.disk, e)
      go (err x, d) e = c (record s { disk = d }) (stable s d h)
      go (panic, d) e = tt

  refuse-Triple :
      (P : BufferPool D Ep → Type 0) (b : Bool) (e : BpmError)
      → ((s : BufferPool D Ep) → P s → IsConsistent s)
      → Triple IsConsistent P (if b then fail e else pure tt) (λ _. P)
  refuse-Triple P true e c s h = c s h
  refuse-Triple P false e c s h = h

  page_of-Triple :
      (v : ℕ) (frame : Frame)
      → Triple {E = BpmError} IsConsistent
          (λ s. NoFree s × (get_elem? s.frames v ≡ some frame))
          (expect_some frame.latch)
          (λ p. Victim v p)
  page_of-Triple v frame s (h, e) = go frame.latch refl
    where
      go :
          (o : Option Page)
          → frame.latch ≡ o
          → Post {E = BpmError} IsConsistent (λ p. Victim v p) (expect_some o s)
      go none q = tt
      go (some p) q = (h, ap latch_of e ∙ q)

  unmap_page-Triple :
      (v : ℕ) (p : Page)
      → Triple IsConsistent (Victim v p) (unmap_page p.page_id >> pure v) (λ f. Claimed f)
  unmap_page-Triple v p s ((h, none_free), there) = record {
    consistent = record {
      mapped = AllMapped-remove s.page_table s.frames p.page_id h.mapped;
      apart =
          subst (λ l. All (IsUnmapped (table_remove s.page_table p.page_id)) l) (sym none_free) tt;
      distinct = h.distinct;
    };
    unmapped = IsUnmapped-remove s.page_table s.frames p v there h.mapped;
    taken = subst (λ l. All (λ g. v ≢ g) l) (sym none_free) tt;
  }

  module _ ⦃policy : EvictionPolicy Ep⦄ ⦃disk : DiskManager D⦄ ⦃codec : PageCodec⦄ where
    choose_victim-Triple : Triple IsConsistent NoFree choose_victim (λ _. NoFree)
    choose_victim-Triple s (h, e) = go (policy.find_victim s.eviction_policy s.frames) refl
      where
        swept_state :
            (victim : Option ℕ) (next : Ep) (swept : List Frame)
            → policy.find_victim s.eviction_policy s.frames ≡ ok (victim, next, swept)
            → IsConsistent (record s { eviction_policy = next; frames = swept })
        swept_state victim next swept q =
            let a = policy.clears s.eviction_policy next s.frames swept victim q in
            record {
              mapped =
                  AllMapped-held s.page_table s.frames swept (λ i. held-AllSwept s.frames swept i a)
                    h.mapped;
              apart = h.apart;
              distinct = h.distinct;
            }

        go :
            (r : Outcome BpmError (Option ℕ × Ep × List Frame))
            → policy.find_victim s.eviction_policy s.frames ≡ r
            → Post IsConsistent (λ _. NoFree) (choose_victim s)
        go (ok (some v, next, swept)) q =
            rw (q, choose_victim) (swept_state (some v) next swept q, e)
        go (ok (none, next, swept)) q = rw (q, choose_victim) (swept_state none next swept q)
        go (err x) q = rw (q, choose_victim) h
        go panic q = rw (q, choose_victim) tt

    pub write_back-Triple :
        (P : BufferPool D Ep → Type 0) (p : Page)
        → ((s : BufferPool D Ep) → P s → IsConsistent s)
        → ((s : BufferPool D Ep) (d : D) → P s → P (record s { disk = d }))
        → Triple IsConsistent P (write_back p) (λ _. P)
    write_back-Triple P p c stable =
        let raw_page = map_err BpmError.page (codec.as_raw_page p) in
        let writing : Bytes → Action (BufferPool D Ep) BpmError (Unit {0}) =
          λ raw. on_disk (disk.write_page p.page_id raw) in
        then_do IsConsistent P (λ _. P) (λ _. P) (lift raw_page) writing
          (weaker IsConsistent P (λ raw s. P s × (raw_page ≡ ok raw)) (λ _. P) (lift raw_page)
            (λ a t q. q.0) (lift-Triple P raw_page c))
          (λ raw.
            weaker IsConsistent P
              (λ done s.
                P s × (before : D) × (disk.write_page p.page_id raw before ≡ (ok done, s.disk)))
              (λ _. P) (writing raw) (λ a t q. q.0)
              (on_disk-Triple P (disk.write_page p.page_id raw) c stable))

    disk_change_keeps :
        (v : ℕ) (p : Page) (s : BufferPool D Ep) (d : D)
        → Victim v p s
        → Victim v p (record s { disk = d })
    disk_change_keeps v p s d ((h, e), there) =
        ((record { mapped = h.mapped; apart = h.apart; distinct = h.distinct }, e), there)

    evict_frame-Triple : Triple IsConsistent NoFree evict_frame (λ f. Claimed f)
    unfolding evict_frame
    evict_frame-Triple =
        let claim : BufferPool D Ep → Type 0 = NoFree in
        let at : ℕ → Frame → BufferPool D Ep → Type 0 =
          λ v frame s. NoFree s × (get_elem? s.frames v ≡ some frame) in
        let cut : ℕ → Page → Action (BufferPool D Ep) BpmError ℕ =
          λ v p. unmap_page p.page_id >> pure v in
        let save : Frame → Page → Action (BufferPool D Ep) BpmError (Unit {0}) =
          λ frame p. if frame.dirty then write_back p else pure tt in
        let take : ℕ → Frame → Action (BufferPool D Ep) BpmError ℕ =
          λ v frame. expect_some frame.latch >>= λ p. save frame p >> cut v p in
        let look : ℕ → Frame → Action (BufferPool D Ep) BpmError ℕ =
          λ v frame. (if is_pinned frame then fail no_free_frames else pure tt) >> take v frame in
        then_do IsConsistent NoFree (λ _. NoFree) (λ f. Claimed f) choose_victim
          (λ v. frame_at v >>= look v) choose_victim-Triple
          (λ v.
            then_do IsConsistent NoFree (at v) (λ f. Claimed f) (frame_at v) (look v)
              (frame_at-Triple NoFree v (λ s h. h.0))
              (λ frame.
                then_do IsConsistent (at v frame) (λ _. at v frame) (λ f. Claimed f)
                  (if is_pinned frame then fail no_free_frames else pure tt) (λ _. take v frame)
                  (refuse-Triple (at v frame) (is_pinned frame) no_free_frames (λ s h. h.0.0))
                  (λ _.
                    then_do IsConsistent (at v frame) (λ p. Victim v p) (λ f. Claimed f)
                      (expect_some frame.latch) (λ p. save frame p >> cut v p)
                      (page_of-Triple v frame)
                      (λ p.
                        then_do IsConsistent (Victim v p) (λ _. Victim v p) (λ f. Claimed f)
                          (save frame p) (λ _. cut v p) (saved v p frame.dirty)
                          (λ _. unmap_page-Triple v p)))))
      where
        saved :
            (v : ℕ) (p : Page) (b : Bool)
            → Triple IsConsistent
                (Victim v p)
                (if b then write_back p else pure tt)
                (λ _. Victim v p)
        saved v p true = write_back-Triple (Victim v p) p (λ s h. h.0.0) (disk_change_keeps v p)
        saved v p false = λ s h. h

    pub claim_frame-Triple :
        Triple (IsConsistent {D = D} {Ep = Ep}) IsConsistent claim_frame (λ f. Claimed f)
    unfolding claim_frame
    claim_frame-Triple s h = go s.free_frames refl
      where
        popped :
            (f : ℕ) (rest : List ℕ)
            → s.free_frames ≡ f ∷ rest
            → Claimed f (record s { free_frames = rest })
        popped f rest e =
            let apart = subst (λ l. All (IsUnmapped s.page_table) l) e h.apart in
            let distinct = subst AllDistinct e h.distinct in
            record {
              consistent = record { mapped = h.mapped; apart = apart.1; distinct = distinct.1 };
              unmapped = apart.0;
              taken = distinct.0;
            }

        go :
            (l : List ℕ)
            → s.free_frames ≡ l
            → Post {S = BufferPool D Ep} {E = BpmError} IsConsistent
                (λ f. Claimed f)
                (elim l [ f ∷ rest ↦ (ok f, record s { free_frames = rest }) | [] ↦ evict_frame s ])
        go [] e = evict_frame-Triple s (h, e)
        go (f ∷ rest) e = popped f rest e
