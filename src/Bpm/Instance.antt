-- ===== src/Bpm/Instance.antt =====
-- The pool of src/bpm/manager.rs as what the tree asks for (Bpm/Pool). The guard of a fetch is
-- dropped once its page was read, and a write goes through the guard of the frame that has the
-- page; what is said of both is said of pages that are in frames.
use rust_db.Common.{
  ℕ, ◌+◌, ◌-◌, ◌<◌, ltb, ◌≡◌, refl, sym, ap, ◌∙◌, if◌then◌else◌, true, List, some, get_elem?, set,
  subst, ok, arith,
}
use rust_db.Common.Actions.{Action, pure, crash, expect_some, ◌>>=◌, ◌>>◌, after_ok}
use rust_db.Types.{PageId}
use rust_db.Page.{Page}
use rust_db.Bpm.Frames.{Frame}
use rust_db.Bpm.Pool.{BpmError, Pool}
use rust_db.Bpm.State.{
  EvictionPolicy, DiskManager, PageCodec, BufferPool, table_get, set_frame, unpin_frame, guard_page,
}
use rust_db.Bpm.Manager.{fetch_frame, new_page, flush_all, swap_file}
use rust_db.Bpm.Consistent.{held, get-set, frame_of, held-set_latch}
use rust_db.Bpm.Fetch.{fetch_frame-cached}
use rust_db.Bpm.View.{
  AllCountable, AllCountable-set, set_again, in_frame-held, mapped_frame, same_frames-IsReady,
  pool_view, IsReady, pool_put, pool_put-view,
}

module _ {D Ep : Type 0} ⦃policy : EvictionPolicy Ep⦄ ⦃disk : DiskManager D⦄
    ⦃codec : PageCodec⦄ where
  -- The page of a guard, which is then dropped.
  unfoldable pub read_guard : ℕ → Action (BufferPool D Ep) BpmError Page
  unfolding unpin_frame
  read_guard f = do page ← guard_page f; unpin_frame f; pure page

  unfoldable pub pool_fetch : PageId → Action (BufferPool D Ep) BpmError Page
  unfolding fetch_frame read_guard
  pool_fetch id = fetch_frame id >>= read_guard

  unfoldable pub pool_new_page : Page → Action (BufferPool D Ep) BpmError Page
  unfolding new_page read_guard
  pool_new_page p = new_page p >>= read_guard

  read_guard-unpinned :
      (s : BufferPool D Ep) (f : ℕ) (frame : Frame) (p : Page)
      → get_elem? s.frames f ≡ some frame
      → frame.latch ≡ some p
      → 0 < frame.pin_count
      → read_guard f s ≡ (
        ok p,
        record s { frames = set s.frames f (record frame { pin_count = frame.pin_count - 1 }) },
      )
  unfolding read_guard unpin_frame
  read_guard-unpinned s f frame p at there some_pin =
      let counted : ltb 0 frame.pin_count ≡ true = ground (arith, some_pin) in
      let after : Page → Action (BufferPool D Ep) BpmError Page = λ q. unpin_frame f >> pure q in
      let lower : Frame → Action (BufferPool D Ep) BpmError (Unit {0}) = λ x.
        (if ltb 0 x.pin_count then pure tt else crash)
        >> set_frame f (record x { pin_count = x.pin_count - 1 }) in
      let t : BufferPool D Ep = record s {
        frames = set s.frames f (record frame { pin_count = frame.pin_count - 1 });
      } in
      let page : guard_page f s ≡ (ok p, s) =
        ap (λ o. (expect_some o >>= λ x. expect_some x.latch) s) at
        ∙ ap (λ o. expect_some o s) there in
      let unpinned : unpin_frame f s ≡ (ok tt, t) =
        ap (λ o. (expect_some o >>= lower) s) at
        ∙ ap
            (λ b.
              ((if b then pure tt else crash)
                  >> set_frame f (record frame { pin_count = frame.pin_count - 1 }))
                s)
            counted in
      after_ok (guard_page f) after s s p page
      ∙ after_ok (unpin_frame f) (λ _. pure p) s t tt unpinned

  -- A page in a frame is fetched from there, and the pool is as before but for a flag.
  pub pool_fetch-view :
      (s : BufferPool D Ep) (id : PageId) (p : Page)
      → IsReady s
      → pool_view s id ≡ some p
      → (t : BufferPool D Ep) × (pool_fetch id s ≡ (ok p, t))
        × IsReady t
        × ((q : PageId) → pool_view t q ≡ pool_view s q)
  unfolding pool_fetch
  pool_fetch-view s id p h e =
      let (f, a, here) = mapped_frame s.frames (table_get s.page_table id) p e in
      let (frame, at, there) = frame_of s.frames f p here in
      let small = h.countable f frame at in
      let pinned : Frame = record frame { referenced = true; pin_count = frame.pin_count + 1 } in
      let freed : Frame = record pinned { pin_count = frame.pin_count + 1 - 1 } in
      let t : BufferPool D Ep = record s { frames = set s.frames f pinned } in
      let gs : List Frame = set (set s.frames f pinned) f freed in
      let u : BufferPool D Ep = record s { frames = gs } in
      let one : gs ≡ set s.frames f freed = set_again s.frames f pinned freed in
      let same : (i : ℕ) → held gs i ≡ held s.frames i =
        λ i. ap (λ xs. held xs i) one ∙ held-set_latch s.frames f i frame freed at refl in
      let all : AllCountable gs =
        subst AllCountable (sym one)
          (AllCountable-set s.frames f freed (omega (arith, small)) h.countable) in
      (
        u,
        after_ok (fetch_frame id) read_guard s t f
              (fetch_frame-cached id f frame s h.consistent a at small)
            ∙ read_guard-unpinned t f pinned p (get-set s.frames f frame pinned at) there
                (omega arith),
        same_frames-IsReady s gs same all h.consistent,
        λ q. in_frame-held s.frames gs (table_get s.page_table q) same,
      )

  -- The pool's model is a pool for the tree.
  instance abbrev pub frame_pool : Pool (BufferPool D Ep)
  frame_pool = record {
    IsReady = IsReady;
    view = pool_view;
    fetch = pool_fetch;
    put = pool_put;
    new_page = pool_new_page;
    flush_all = flush_all;
    swap_file = swap_file;
    fetch-view = pool_fetch-view;
    put-view = pool_put-view;
  }
