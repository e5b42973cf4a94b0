-- ===== src/Btree/Tree.antt =====
-- src/btree/tree.rs: search, insertion and deletion, called by one thread. A guard is the page as it
-- was fetched or last written; a change through it is written at once, and stays after an error.
-- The loops that go down the tree run on fuel, and running out of it is a `panic`.
pub mod Above
pub mod Shape
pub mod Focus
pub mod Same
pub mod Way
pub mod Store
pub mod Get
use rust_db.Common.{
  ℕ, zero, suc, if◌then◌else◌, Bool, true, false, [], Outcome, ok, err, panic, map_err, Option,
  none, some,
}
use rust_db.Common.Order.{is_lt, is_le, is_gt, is_ge}
use rust_db.Common.Actions.{Action, pure, crash, lift, convert, expect_ok, ◌>>=◌}
use rust_db.Types.{PageId, page_id_eq}
use rust_db.PageError.{PageError}
use rust_db.Schema.Key.{Key, key_ord}
use rust_db.Schema.Row.{Row, row_cmp_key}
use rust_db.Page.{Page, is_internal}
use rust_db.Page.Leaf.{leaf_get}
use rust_db.Page.Internal.{find_child}
use rust_db.Bpm.Pool.{Pool}
use rust_db.Table.{Table, BTreeError, root_id}

-- `Bound<&Key>`.
pub data Bound : Type 0 where
  unbounded : Bound
  included excluded : Key → Bound

-- `before_start` and `past_end`.
abbrev pub before_start : {E : Type 0} → Row → Bound → Outcome E Bool
before_start row unbounded = ok false
before_start row (included k) = elim (row_cmp_key row k) [
  | ok c ↦ ok (is_lt c)
  | err e ↦ err e
  | panic ↦ panic
]
before_start row (excluded k) = elim (row_cmp_key row k) [
  | ok c ↦ ok (is_le c)
  | err e ↦ err e
  | panic ↦ panic
]

abbrev pub past_end : {E : Type 0} → Row → Bound → Outcome E Bool
past_end row unbounded = ok false
past_end row (included k) = elim (row_cmp_key row k) [
  | ok c ↦ ok (is_gt c)
  | err e ↦ err e
  | panic ↦ panic
]
past_end row (excluded k) = elim (row_cmp_key row k) [
  | ok c ↦ ok (is_ge c)
  | err e ↦ err e
  | panic ↦ panic
]

-- The child that `find_child` returns, where the page is internal: the loop's condition.
abbrev pub next_child : Page → Key → Outcome PageError (Option PageId)
next_child p k = if is_internal p then find_child p k else ok none

module _ {S : Type 0} ⦃pool : Pool S⦄ where
  -- `self.table.bpm.fetch_read(id)?` and `self.table.bpm.fetch_write(id)?`.
  abbrev pub fetch_page : PageId → Action S BTreeError Page
  fetch_page id = convert BTreeError.bpm (pool.fetch id)

  abbrev pub on_page : {A : Type 0} → Outcome PageError A → Action S BTreeError A
  on_page r = lift (map_err BTreeError.page r)

  -- `get_root_read` and `get_root_write`: fetch the root until the root id is still the same.
  unfoldable pub get_root : ℕ → Table → Action S BTreeError Page
  get_root zero t = crash
  get_root (suc n) t = expect_ok (root_id t) >>= λ id. fetch_page id >>= λ guard.
      expect_ok (root_id t) >>= λ newest. elim (page_id_eq newest id) [
        | true ↦ pure guard
        | false ↦ get_root n t
      ]

  -- The loop of `get`.
  unfoldable pub descend : ℕ → Key → Page → Action S BTreeError Page
  descend zero key curr_page = crash
  descend (suc n) key curr_page = on_page (next_child curr_page key) >>= λ child. elim child [
    | none ↦ pure curr_page
    | some ch ↦ fetch_page ch >>= descend n key
  ]

  -- `BTree::get`.
  unfoldable pub get : ℕ → Table → Key → Action S BTreeError (Option Row)
  get fuel t key = get_root fuel t >>= descend fuel key >>= λ leaf. on_page (leaf_get leaf key)
