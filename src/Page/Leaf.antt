-- ===== src/Page/Leaf.antt =====
-- src/page/leaf.rs: the operations on leaf pages. A method that takes `&mut self` returns the page
-- as it leaves it; before an error is returned nothing has been written. Each call of
-- `debug_check_invariants` is the panic of a debug build.
pub mod Search
pub mod Update
pub mod Append
pub mod Merge
pub mod Borrow
pub mod From
use rust_db.Common.{
  ℕ, ◌+◌, ◌≡◌, ltb, leb, if◌then◌else◌, Bool, true, not, ◌&&◌, List, [], ◌∷◌, ◌++◌, Outcome, ok,
  err, panic, ◌>>=◌, ◌>>◌, require, expect, unwrap, length, Option, none, some, first, last,
  but_last, get_elem?, insert_at, remove_at, drop, Ordering, lt, gt, arith,
}
use rust_db.Common.Order.{is_lt, is_le, is_gt}
use rust_db.Common.Search.{Position, found, absent, binary_search_by}
use rust_db.Types.{PageId, page_id_eq?}
use rust_db.PageError.{
  PageError, page_full, duplicate_key, wrong_page_type, invalid_merge, invalid_borrow,
  BorrowFailReason, MergeFailReason, empty_borrow, keys_out_of_order,
}
use rust_db.Schema.Values.{VarInt}
use rust_db.Schema.Key.{Key, key_ord}
use rust_db.Schema.Row.{Row, row_cmp_key, fields_key, leaf_entry_size}
use rust_db.Page.{
  Page, PageBody, leaf, internal, meta, free, make_free, is_leaf, free_space, entries_size,
  is_some_and,
}
use rust_db.Page.Invariants.{debug_check}

-- `let PageBody::Leaf { .. } = &self.body else { return Err(WrongPageType) }`.
abbrev pub leaf_parts : PageBody → Outcome PageError (List Row × Option PageId × Option PageId)
leaf_parts (leaf records next prev) = ok (records, next, prev)
leaf_parts (internal keys children) = err wrong_page_type
leaf_parts (meta root_id page_count head schema name) = err wrong_page_type
leaf_parts (free next) = err wrong_page_type

abbrev pub with_records : Page → List Row → Option PageId → Option PageId → Page
with_records p records next prev = record p { body = leaf records next prev }

-- `Key::try_from(&row.fields[0]).unwrap()`.
abbrev pub stored_key : Row → Outcome PageError Key
stored_key r = elim (fields_key r.fields) [ none ↦ panic | some k ↦ unwrap k ]

-- `records.binary_search_by(|r| r.cmp_key(key))`.
abbrev pub search_records : Key → List Row → Outcome PageError Position
search_records k records = binary_search_by (λ r. row_cmp_key r k) records

abbrev pub leaf_next : Page → Outcome PageError (Option PageId)
leaf_next p = leaf_parts p.body >>= λ b. ok b.1

abbrev pub leaf_prev : Page → Outcome PageError (Option PageId)
leaf_prev p = leaf_parts p.body >>= λ b. ok b.2

unfoldable pub set_next : Page → Option PageId → Outcome PageError Page
set_next p new = do (records, next, prev) ← leaf_parts p.body; ok (with_records p records new prev)

unfoldable pub set_prev : Page → Option PageId → Outcome PageError Page
set_prev p new = do (records, next, prev) ← leaf_parts p.body; ok (with_records p records next new)

-- `.ok().map(|i| &records[i])` of what the search returns.
abbrev pub fetch : List Row → Position → Outcome PageError (Option Row)
fetch records (found i) = expect (get_elem? records i) >>= λ r. ok (some r)
fetch records (absent i) = ok none

-- `leaf_get`.
unfoldable pub leaf_get : Page → Key → Outcome PageError (Option Row)
leaf_get p k = do
  (records, next, prev) ← leaf_parts p.body
  at ← search_records k records
  fetch records at

-- `records.partition_point(|r| r.cmp_key(key) == Less)`, which the standard library makes of a
-- binary search that never reports a match.
abbrev pub below_or_above : Key → Row → Outcome PageError Ordering
below_or_above k r = row_cmp_key r k >>= λ c. ok (if is_lt c then lt else gt)

abbrev index_of : Position → ℕ
index_of (found i) = i
index_of (absent i) = i

-- `leaf_records_from`.
unfoldable pub leaf_records_from : Page → Key → Outcome PageError (List Row)
leaf_records_from p k = do
  (records, next, prev) ← leaf_parts p.body
  at ← binary_search_by (below_or_above k) records
  ok (drop (index_of at) records)

module _ ⦃v : VarInt⦄ where
  -- `Page::can_insert`.
  abbrev pub can_insert : Page → Row → Bool
  can_insert p r = is_leaf p && is_some_and (free_space p) (λ s. leb (leaf_entry_size r) s)

  -- `leaf_insert`; the row is a `ValidatedRow`.
  unfoldable pub leaf_insert : Page → Row → Outcome PageError Page
  leaf_insert p r = do
    (records, next, prev) ← leaf_parts p.body
    new_key ← stored_key r
    at ← search_records new_key records
    elim at [
      | found i ↦ err duplicate_key
      | absent i ↦ do
        require (can_insert p r) page_full
        let p' = with_records p (insert_at records i r) next prev
        debug_check p'
        ok p'
    ]

  -- `leaf_remove`: the removed row, if the key was there, and the page.
  unfoldable pub leaf_remove : Page → Key → Outcome PageError (Option Row × Page)
  leaf_remove p k = do
    (records, next, prev) ← leaf_parts p.body
    at ← search_records k records
    elim at [
      | found i ↦ do
        r ← expect (get_elem? records i)
        let p' = with_records p (remove_at records i) next prev
        debug_check p'
        ok (some r, p')
      | absent i ↦ do debug_check p; ok (none, p)
    ]

  -- `leaf_can_merge_with`.
  abbrev pub leaf_can_merge_with : Page → Page → Bool
  leaf_can_merge_with p right =
      is_leaf p && is_leaf right && is_some_and (free_space p) (λ fs. leb (entries_size right) fs)

  -- The order that `leaf_merge_from_right` demands: the keys of two rows, where both exist.
  check_merge_order : Option Row → Option Row → Outcome PageError (Unit {0})
  check_merge_order none right_min = ok tt
  check_merge_order (some left_max) none = ok tt
  check_merge_order (some left_max) (some right_min) = do
    left_key ← stored_key left_max
    right_key ← stored_key right_min
    require (not (is_le (key_ord.cmp right_key left_key))) (invalid_merge MergeFailReason.keys)

  -- `leaf_merge_from_right`: the recycled id, the merged page and the freed one.
  unfoldable pub leaf_merge_from_right : Page → Page → Outcome PageError (PageId × Page × Page)
  unfolding check_merge_order
  leaf_merge_from_right p right = do
    require (is_leaf p && is_leaf right) wrong_page_type
    require (leaf_can_merge_with p right) page_full
    (records, next, prev) ← leaf_parts p.body
    (right_records, right_next, right_prev) ← leaf_parts right.body
    require (page_id_eq? next (some right.page_id))
        (invalid_merge (MergeFailReason.pointer_mismatch next (some right.page_id)))
    check_merge_order (last records) (first right_records)
    let p' = with_records p (records ++ right_records) right_next prev
    debug_check p'
    ok (right.page_id, p', make_free right)

  -- `self.free_space().is_none_or(|fs| fs < size)` is the failure.
  abbrev pub has_room : Page → ℕ → Bool
  has_room p size = is_some_and (free_space p) (λ fs. not (ltb fs size))

  -- `self.records().last().is_some_and(|r| r.cmp_key(key) != expected)`, where it does not hold.
  abbrev pub row_is : (Ordering → Bool) → Option Row → Key → Outcome PageError Bool
  row_is test none k = ok true
  row_is test (some r) k = row_cmp_key r k >>= λ c. ok (test c)

  abbrev pub pointer_error : Option PageId → PageId → PageError
  pointer_error expected got =
      invalid_borrow (BorrowFailReason.pointer_mismatch expected (some got))

  abbrev pub first_or_empty : Page → Option Row → Outcome PageError Row
  first_or_empty p none = err (invalid_borrow (empty_borrow p.page_id))
  first_or_empty p (some r) = ok r

  -- `leaf_borrow_from_right`: the promoted key, the page, and the right page.
  unfoldable pub leaf_borrow_from_right : Page → Page → Outcome PageError (Key × Page × Page)
  leaf_borrow_from_right p right = do
    require (is_leaf p && is_leaf right) wrong_page_type
    (records, next, prev) ← leaf_parts p.body
    require (page_id_eq? next (some right.page_id)) (pointer_error next right.page_id)
    (right_records, right_next, right_prev) ← leaf_parts right.body
    borrow_rec ← first_or_empty right (first right_records)
    borrowed_key ← stored_key borrow_rec
    in_order ← row_is is_lt (last records) borrowed_key
    require in_order (invalid_borrow (keys_out_of_order borrowed_key))
    require (not (ltb (length right_records) 2)) (invalid_borrow (empty_borrow right.page_id))
    require (has_room p (leaf_entry_size borrow_rec)) page_full
    let rest = remove_at right_records 0
    new_first ← expect (first rest)
    promoted_key ← stored_key new_first
    let p' = with_records p (records ++ (borrow_rec ∷ [])) next prev
    let right' = with_records right rest right_next right_prev
    debug_check p'
    debug_check right'
    ok (promoted_key, p', right')

  -- `leaf_borrow_from_left`: the promoted key, the page, and the left page.
  unfoldable pub leaf_borrow_from_left : Page → Page → Outcome PageError (Key × Page × Page)
  leaf_borrow_from_left p left = do
    require (is_leaf p && is_leaf left) wrong_page_type
    (records, next, prev) ← leaf_parts p.body
    require (page_id_eq? prev (some left.page_id)) (pointer_error prev left.page_id)
    (left_records, left_next, left_prev) ← leaf_parts left.body
    borrow_rec ← first_or_empty left (last left_records)
    borrowed_key ← stored_key borrow_rec
    in_order ← row_is is_gt (first records) borrowed_key
    require in_order (invalid_borrow (keys_out_of_order borrowed_key))
    require (not (ltb (length left_records) 2)) (invalid_borrow (empty_borrow left.page_id))
    require (has_room p (leaf_entry_size borrow_rec)) page_full
    let p' = with_records p (insert_at records 0 borrow_rec) next prev
    let left' = with_records left (but_last left_records) left_next left_prev
    debug_check p'
    debug_check left'
    ok (borrowed_key, p', left')
