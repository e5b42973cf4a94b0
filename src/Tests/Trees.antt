-- ===== src/Tests/Trees.antt =====
-- A table of four pages in the frames of a pool, and the operations of the tree on it.
use rust_db.Common.{
  ℕ, ◌<◌, ◌-◌, ◌^◌, ◌≡◌, ◌≢◌, refl, ◌∙◌, subst, List, [], ◌∷◌, All, All-get, ok, none, some, Bool,
  true, false, arith,
}
use rust_db.Common.Sorted.{find}
use rust_db.Types.{PageId, page_id_eq, page_id_eq→eq}
use rust_db.Schema.Key.{key_of_value, key_ord, cmp_key}
use rust_db.Schema.Row.{Row, key_of, fields_key}
use rust_db.Page.{Page, meta, empty_page}
use rust_db.Page.Invariants.{IsValid, check_invariants}
use rust_db.Page.Leaf.Search.{leaf_page}
use rust_db.Page.Internal.Route.{internal_page}
use rust_db.Bpm.Frames.{Frame, ClockEvictor}
use rust_db.Bpm.State.{BufferPool, table_get}
use rust_db.Bpm.Consistent.{held, AllMapped}
use rust_db.Bpm.Policy.{clock_policy}
use rust_db.Bpm.View.{IsReady}
use rust_db.Bpm.Instance.{frame_pool}
use rust_db.Table.{Table}
use rust_db.Btree.Tree.{get}
use rust_db.Btree.Tree.Shape.{IsTree}
use rust_db.Btree.Tree.Store.{SameView}
use rust_db.Btree.Tree.Get.{get-lookup}
use rust_db.Btree.Insert.Outcome.{InsertOutcome, insert-InsertOutcome}
use rust_db.Tests.Pools.{leaf_codec, leaf_disk}
use rust_db.Tests.Leb128.{leb128}
use rust_db.Tests.Samples.{
  page_number, sample_row, sample_key, sample_schema, checked, sample_row-IsEntry_four,
}

abbrev Frames : Type 0
Frames = BufferPool (Unit {0}) ClockEvictor

abbrev left_rows : List Row
left_rows = sample_row 1 ∷ sample_row 2 ∷ []

abbrev right_rows : List Row
right_rows = sample_row 5 ∷ sample_row 6 ∷ []

abbrev left_leaf : Page
left_leaf = leaf_page (page_number 2) none left_rows (some (page_number 3)) none

abbrev right_leaf : Page
right_leaf = leaf_page (page_number 3) none right_rows none (some (page_number 2))

abbrev root_page : Page
root_page =
    internal_page (page_number 1) none (sample_key 5 ∷ []) (page_number 2 ∷ page_number 3 ∷ [])

abbrev meta_page : Page
meta_page = empty_page (page_number 0) (meta (page_number 1) 4 none sample_schema [])

abbrev framed : Page → Frame
framed p = record { latch = some p; pin_count = 0; dirty = false; referenced = true }

-- Four frames with the pages of the table.
abbrev stored : Frames
stored = record {
  frames = framed meta_page ∷ framed root_page ∷ framed left_leaf ∷ framed right_leaf ∷ [];
  disk = tt;
  page_table =
      (page_number 0, 0) ∷ (page_number 1, 1) ∷ (page_number 2, 2) ∷ (page_number 3, 3) ∷ [];
  free_frames = [];
  eviction_policy = record { hand = 0 };
}

AllMapped-entries :
    (table : List (PageId × ℕ)) (frames : List Frame)
    → All (λ z. (p : Page) × (held frames z.1 ≡ some p) × (p.page_id ≡ z.0)) table
    → AllMapped table frames
unfolding table_get
AllMapped-entries [] frames h id f e = absurd (clash e)
  where
    clash : none ≡ some f → ⊥
    clash q = cc
AllMapped-entries ((k, g) ∷ table) frames h id f e =
    go (page_id_eq k id) refl (AllMapped-entries table frames h.1 id f)
  where
    some_inj : {a b : ℕ} → some a ≡ some b → a ≡ b
    some_inj q = cc

    go :
        (b : Bool)
        → page_id_eq k id ≡ b
        → (table_get table id ≡ some f → (p : Page) × (held frames f ≡ some p) × (p.page_id ≡ id))
        → (p : Page) × (held frames f ≡ some p) × (p.page_id ≡ id)
    go true own rest =
        let (p, at, named) = h.0 in
        let same : g ≡ f = some_inj (rw (own, table_get) at e) in
        (p, subst (λ i. held frames i ≡ some p) same at, named ∙ page_id_eq→eq k id own)
    go false other rest = rest (rw (other, table_get) at e)

stored-IsReady : IsReady stored
stored-IsReady = record {
  consistent = record {
    mapped = AllMapped-entries stored.page_table stored.frames (
      (meta_page, refl, refl),
      ((root_page, refl, refl), ((left_leaf, refl, refl), ((right_leaf, refl, refl), tt))),
    );
    apart = tt;
    distinct = tt;
  };
  countable = λ i f e.
      All-get (λ x. x.pin_count < 2 ^ 32 - 1) stored.frames i f
        (omega arith, (omega arith, (omega arith, (omega arith, tt)))) e;
}

abbrev sample_table : Table
sample_table = record { meta_id = page_number 0; schema = sample_schema; table_name = [] }

abbrev all_ids : List PageId
all_ids = page_number 1 ∷ page_number 2 ∷ page_number 3 ∷ []

abbrev all_rows : List Row
all_rows = sample_row 1 ∷ sample_row 2 ∷ sample_row 5 ∷ sample_row 6 ∷ []

left_leaf-IsValid : IsValid left_leaf
unfolding check_invariants leb128 key_of fields_key key_of_value key_ord cmp_key
left_leaf-IsValid = checked left_leaf refl

right_leaf-IsValid : IsValid right_leaf
unfolding check_invariants leb128 key_of fields_key key_of_value key_ord cmp_key
right_leaf-IsValid = checked right_leaf refl

root_page-IsValid : IsValid root_page
unfolding check_invariants leb128 key_of_value key_ord cmp_key
root_page-IsValid = checked root_page refl

apart : (a b : ℕ) → (a ≢ b) → page_number a ≢ page_number b
apart a b n e = n (cc)

stored-IsTree : IsTree 1 (frame_pool.view stored) (page_number 1) all_ids all_rows
unfolding table_get key_of fields_key key_of_value key_ord cmp_key
stored-IsTree = (
  none,
  sample_key 5 ∷ [],
  page_number 2 ∷ page_number 3 ∷ [],
  page_number 2 ∷ page_number 3 ∷ [],
  refl,
  (apart 1 2 (omega arith), (apart 1 3 (omega arith), tt)),
  refl,
  root_page-IsValid,
  (
    page_number 2 ∷ [],
    page_number 3 ∷ [],
    left_rows,
    right_rows,
    refl,
    refl,
    ((apart 2 3 (omega arith), tt), tt),
    (none, some (page_number 3), none, refl, refl, left_leaf-IsValid),
    (refl, (refl, tt)),
    (refl, (refl, tt)),
    (none, none, some (page_number 2), refl, refl, right_leaf-IsValid),
  ),
)

get-lookup_example :
    (u : Frames) × (get 5 sample_table (sample_key 5) stored ≡ (ok (some (sample_row 5)), u))
    × SameView stored u
unfolding key_of fields_key key_of_value key_ord cmp_key find table_get
get-lookup_example =
    get-lookup 5 1 stored sample_table meta_page (page_number 1) all_ids all_rows (sample_key 5)
      (omega arith) stored-IsReady refl refl stored-IsTree

insert-InsertOutcome_example :
    InsertOutcome 5 1 sample_table stored (page_number 1) all_ids all_rows (sample_row 4)
unfolding table_get
insert-InsertOutcome_example =
    insert-InsertOutcome 5 1 stored sample_table meta_page (page_number 1) all_ids all_rows
      (sample_row 4) (omega arith) stored-IsReady refl refl stored-IsTree sample_row-IsEntry_four
