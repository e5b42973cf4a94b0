-- ===== src/Bpm/Pool.antt =====
-- What the tree and the tables ask of the buffer pool (src/bpm/manager.rs), called by one thread:
-- fetching a page, writing through a guard, adding a page, flushing, and putting the pages of a new
-- file in the place of all others. Its laws are stated on the pages that the pool has in its frames:
-- Bpm/Instance proves them of the pool's own model.
use rust_db.Common.{◌≡◌, List, Option, some, ok, if◌then◌else◌}
use rust_db.Common.Actions.{Action}
use rust_db.Types.{PageId, IoError, page_id_eq}
use rust_db.PageError.{PageError}
use rust_db.Page.{Page}

-- src/bpm/error.rs.
pub data BpmError : Type 0 where
  unexpected : BpmError
  io : IoError → BpmError
  page : PageError → BpmError
  no_free_frames : BpmError
  wrong_page : PageId → PageId → BpmError
  already_exists : PageId → BpmError

-- The pages with one of them replaced.
abbrev pub replaced : (PageId → Option Page) → Page → PageId → Option Page
replaced view p id = if page_id_eq p.page_id id then some p else view id

pub record Pool (S : Type 0) : Type 1 where
  -- The pool is consistent, and its counters can count.
  pub IsReady : S → Type 0
  -- The pages in frames.
  pub view : S → PageId → Option Page
  pub fetch : PageId → Action S BpmError Page
  pub put : Page → S → S
  pub new_page : Page → Action S BpmError Page
  pub flush_all : Action S BpmError (Unit {0})
  pub swap_file : List Page → Action S BpmError (Unit {0})
  -- A page in a frame can be fetched, and fetching it changes no page.
  pub fetch-view :
      (s : S) (id : PageId) (p : Page)
      → IsReady s
      → view s id ≡ some p
      → (t : S) × (fetch id s ≡ (ok p, t)) × IsReady t × ((q : PageId) → view t q ≡ view s q)
  -- Writing a page that is in a frame replaces the page with that id.
  pub put-view :
      (s : S) (p old : Page)
      → IsReady s
      → view s p.page_id ≡ some old
      → IsReady (put p s) × ((q : PageId) → view (put p s) q ≡ replaced (view s) p q)

-- A change through the guard of a page.
abbrev pub write : {S E : Type 0} ⦃pool : Pool S⦄ → Page → Action S E (Unit {0})
write ⦃pool⦄ p s = (ok tt, pool.put p s)
