-- ===== src/Tests/Pools.antt =====
-- A pool of two frames over a disk that holds an empty leaf under every id.
use rust_db.Common.{
  ℕ, ◌≡◌, refl, sym, [], ◌∷◌, Outcome, ok, err, none, some, true, false, Bool, subst, arith,
}
use rust_db.Common.Triples.{Post}
use rust_db.Types.{Bytes, PageId, page_id_eq, page_id_eq→eq}
use rust_db.PageError.{PageError, wrong_page_type}
use rust_db.Page.{Page, empty_leaf}
use rust_db.Bpm.Frames.{Frame, ClockEvictor}
use rust_db.Bpm.State.{DiskManager, PageCodec, BufferPool, table_get, empty_frame}
use rust_db.Bpm.Manager.{fetch_frame, new_page}
use rust_db.Bpm.Consistent.{IsConsistent, held}
use rust_db.Bpm.Preserved.{Holding, Pinned, Latches, LatchesNew}
use rust_db.Bpm.Fetch.{
  IsFaithful, fetch_frame-IsConsistent, new_page-IsConsistent, fetch_frame-cached,
}
use rust_db.Bpm.Policy.{clock_policy}
use rust_db.Tests.Samples.{page_number}

abbrev raw_of : PageId → Bytes
raw_of id = id.table_id ∷ id.page_num ∷ []

abbrev leaf_of : Bytes → Outcome PageError Page
leaf_of (a ∷ b ∷ []) = ok (empty_leaf (record { table_id = a; page_num = b }))
leaf_of _ = err wrong_page_type

instance pub leaf_codec : PageCodec
leaf_codec = record { deserialize = leaf_of; as_raw_page = λ p. ok (raw_of p.page_id) }

instance pub leaf_disk : DiskManager (Unit {0})
leaf_disk = record {
  read_page = λ id d. (ok (raw_of id), d);
  write_page = λ id raw d. (ok tt, d);
  sync = λ d. (ok tt, d);
  swap_file = λ pages d. (ok tt, d);
}

leaf_disk-IsFaithful : IsFaithful (Unit {0})
unfolding leaf_disk leaf_codec
leaf_disk-IsFaithful id before after raw p e f =
    let same : raw_of id ≡ raw = cc in own (subst (λ r. leaf_of r ≡ ok p) (sym same) f)
  where
    own : leaf_of (raw_of id) ≡ ok p → p.page_id ≡ id
    own q = cc

abbrev filled : Frame
filled = record {
  latch = some (empty_leaf (page_number 1));
  pin_count = 1;
  dirty = true;
  referenced = true;
}

abbrev small_pool : BufferPool (Unit {0}) ClockEvictor
small_pool = record {
  frames = filled ∷ empty_frame ∷ [];
  disk = tt;
  page_table = (page_number 1, 0) ∷ [];
  free_frames = 1 ∷ [];
  eviction_policy = record { hand = 0 };
}

only_entry :
    (id : PageId) (f : ℕ)
    → table_get small_pool.page_table id ≡ some f
    → (page_number 1 ≡ id) × (0 ≡ f)
unfolding table_get
only_entry id f e = go (page_id_eq (page_number 1) id) refl
  where
    some_inj : {a b : ℕ} → some a ≡ some b → a ≡ b
    some_inj q = cc

    go : (b : Bool) → page_id_eq (page_number 1) id ≡ b → (page_number 1 ≡ id) × (0 ≡ f)
    go true q = (page_id_eq→eq (page_number 1) id q, some_inj (rw (q, table_get) at e))
    go false q = absurd (clash (rw (q, table_get) at e))
      where
        clash : none ≡ some f → ⊥
        clash w = cc

small_pool-IsConsistent : IsConsistent small_pool
small_pool-IsConsistent = record {
  mapped = λ id f e.
      let (same, place) = only_entry id f e in
      (
        empty_leaf (page_number 1),
        subst (λ g. held small_pool.frames g ≡ some (empty_leaf (page_number 1))) place refl,
        same,
      );
  apart = ((λ id e. let (same, place) = only_entry id 1 e in clash 0 1 place refl refl), tt);
  distinct = (tt, tt);
}
  where
    clash : (a b : ℕ) → a ≡ b → (a ≡ 0) → (b ≡ 1) → ⊥
    clash a b q r t = omega (arith, q, r, t)

fetch_frame-IsConsistent_example :
    Post IsConsistent
      (λ f. Holding (Pinned (Latches (page_number 5))) (page_number 5) f)
      (fetch_frame (page_number 5) small_pool)
fetch_frame-IsConsistent_example =
    fetch_frame-IsConsistent (page_number 5) small_pool leaf_disk-IsFaithful small_pool-IsConsistent

new_page-IsConsistent_example :
    Post IsConsistent
      (λ f. Holding (Pinned (LatchesNew (empty_leaf (page_number 5)))) (page_number 5) f)
      (new_page (empty_leaf (page_number 5)) small_pool)
new_page-IsConsistent_example =
    new_page-IsConsistent (empty_leaf (page_number 5)) small_pool small_pool-IsConsistent

fetch_frame-cached_example :
    fetch_frame (page_number 1) small_pool
    ≡ (ok 0, record small_pool { frames = record filled { pin_count = 2 } ∷ empty_frame ∷ [] })
unfolding table_get
fetch_frame-cached_example =
    fetch_frame-cached (page_number 1) 0 filled small_pool small_pool-IsConsistent refl refl
      (omega arith)
