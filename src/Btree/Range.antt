-- ===== src/Btree/Range.antt =====
-- src/btree/tree.rs: the rows between two bounds, leaf by leaf along the `next` pointers.
use rust_db.Common.{
  ℕ, zero, suc, if◌then◌else◌, Bool, true, false, List, [], ◌∷◌, ◌++◌, Outcome, ok, err, panic,
  Option, none, some, first,
}
use rust_db.Common.Actions.{Action, pure, crash, expect_some, ◌>>=◌}
use rust_db.Types.{PageId}
use rust_db.PageError.{PageError}
use rust_db.Schema.Row.{Row}
use rust_db.Page.{Page, is_internal, body_children, body_records}
use rust_db.Page.Leaf.{leaf_next}
use rust_db.Page.Internal.{find_child}
use rust_db.Bpm.Pool.{Pool}
use rust_db.Table.{Table, BTreeError}
use rust_db.Btree.Tree.{Bound, before_start, past_end, fetch_page, on_page, get_root}

-- The loop over the rows of a leaf: the result so far, and whether the scan is over.
unfoldable pub scan_rows :
    Bound → Bound → (Row → Bool) → List Row → Outcome PageError (List Row × Bool)
scan_rows start end filter_fn [] = ok ([], false)
scan_rows start end filter_fn (row ∷ rows) = elim (before_start row start) [
  | ok true ↦ scan_rows start end filter_fn rows
  | ok false ↦ elim (past_end row end) [
    | ok true ↦ ok ([], true)
    | ok false ↦ elim (scan_rows start end filter_fn rows) [
      | ok (found, over) ↦ ok (if filter_fn row then row ∷ found else found, over)
      | err e ↦ err e
      | panic ↦ panic
    ]
    | err e ↦ err e
    | panic ↦ panic
  ]
  | err e ↦ err e
  | panic ↦ panic
]

-- The child to go to: the first one, or that of the key at the start.
abbrev pub start_child : Bound → Page → Outcome PageError (Option PageId)
start_child Bound.unbounded p =
    ok (elim (body_children p.body) [ none ↦ none | some children ↦ first children ])
start_child (Bound.included k) p = find_child p k
start_child (Bound.excluded k) p = find_child p k

module _ {S : Type 0} ⦃pool : Pool S⦄ where
  unfoldable pub descend_start : ℕ → Bound → Page → Action S BTreeError Page
  descend_start zero start curr_page = crash
  descend_start (suc n) start curr_page = elim (is_internal curr_page) [
    | false ↦ pure curr_page
    | true ↦ on_page (start_child start curr_page) >>= λ child.
        expect_some child >>= λ c. fetch_page c >>= descend_start n start
  ]

  -- The loop `'leaves`.
  unfoldable pub walk_leaves :
      ℕ → Bound → Bound → (Row → Bool) → Page → Action S BTreeError (List Row)
  walk_leaves zero start end filter_fn curr_page = crash
  walk_leaves (suc n) start end filter_fn curr_page = do
    rows ← expect_some (body_records curr_page.body)
    (found, over) ← on_page (scan_rows start end filter_fn rows)
    elim over [
      | true ↦ pure found
      | false ↦ on_page (leaf_next curr_page) >>= λ next. elim next [
        | none ↦ pure found
        | some id ↦
            fetch_page id >>= walk_leaves n start end filter_fn >>= λ rest. pure (found ++ rest)
      ]
    ]

  -- `get_range`: the first amount of fuel is for the way down, the second for the leaves.
  unfoldable pub get_range :
      ℕ → ℕ → Table → Bound → Bound → (Row → Bool) → Action S BTreeError (List Row)
  unfolding descend_start walk_leaves
  get_range fuel leaves t start end filter_fn =
      get_root fuel t >>= descend_start fuel start >>= walk_leaves leaves start end filter_fn

  -- `get_all`.
  abbrev pub get_all : ℕ → ℕ → Table → (Row → Bool) → Action S BTreeError (List Row)
  get_all fuel leaves t filter_fn =
      get_range fuel leaves t Bound.unbounded Bound.unbounded filter_fn
