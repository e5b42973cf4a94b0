-- ===== src/Page/Internal.antt =====
-- src/page/internal.rs: the operations on internal pages, and the indices of children and keys.
-- Before an error is returned nothing has been written.
pub mod Route
pub mod Update
pub mod Room
pub mod Merge
pub mod Borrow
pub mod Neighbours
pub mod Replace
use rust_db.Common.{
  ℕ, ◌+◌, ◌-◌, ◌≡◌, ltb, leb, ◌==◌, if◌then◌else◌, Bool, true, not, ◌&&◌, List, [], ◌∷◌, ◌++◌,
  Outcome, ok, err, ◌>>=◌, ◌>>◌, require, expect, length, Option, none, some, first, last, but_last,
  get_elem?, insert_at, remove_at, set, Ordering, arith,
}
use rust_db.Common.Order.{is_lt, is_le, is_ge}
use rust_db.Common.Search.{Position, found, absent, binary_search_by}
use rust_db.Common.Sorted.Route.{route}
use rust_db.Layout.{max_internal_entry_size}
use rust_db.Types.{PageId}
use rust_db.PageError.{
  PageError, schema, page_full, duplicate_key, wrong_page_type, invalid_merge, invalid_borrow,
  missing_key, key_not_in_order, MergeFailReason, empty_borrow, keys_out_of_order,
}
use rust_db.Schema.Values.{VarInt}
use rust_db.Schema.Key.{Key, key_ord}
use rust_db.Schema.Row.{internal_entry_size}
use rust_db.Schema.Columns.{key_too_long}
use rust_db.Page.{
  Page, PageBody, leaf, internal, meta, free, make_free, is_internal, free_space, entries_size,
  is_some_and,
}
use rust_db.Page.Invariants.{debug_check}

-- `ChildIndex` and `KeyIndex`: positions of children and of the separators between them.
abbrev pub right_separator : ℕ → ℕ
right_separator i = i

abbrev pub left_separator : ℕ → Option ℕ
left_separator i = if i == 0 then none else some (i - 1)

abbrev pub right_sibling : ℕ → ℕ
right_sibling i = i + 1

abbrev pub left_sibling : ℕ → Option ℕ
left_sibling i = if i == 0 then none else some (i - 1)

-- `let PageBody::Internal { .. } = &self.body else { return Err(WrongPageType) }`.
abbrev pub internal_parts : PageBody → Outcome PageError (List Key × List PageId)
internal_parts (internal ks children) = ok (ks, children)
internal_parts (leaf records next prev) = err wrong_page_type
internal_parts (meta root_id page_count head s name) = err wrong_page_type
internal_parts (free next) = err wrong_page_type

abbrev pub with_keys : Page → List Key → List PageId → Page
with_keys p ks children = record p { body = internal ks children }

-- `keys.binary_search(&key)`.
abbrev pub search_keys : Key → List Key → Outcome PageError Position
search_keys k ks = binary_search_by (λ x. ok (key_ord.cmp x k)) ks

body_child_index : PageBody → Key → Outcome PageError (Option (ℕ × PageId))
body_child_index (internal ks children) k = do
  at ← search_keys k ks
  id ← expect (get_elem? children (route at))
  ok (some (route at, id))
body_child_index (leaf records next prev) k = ok none
body_child_index (meta root_id page_count head s name) k = ok none
body_child_index (free next) k = ok none

-- `find_child_index`, and `find_child`.
unfoldable pub find_child_index : Page → Key → Outcome PageError (Option (ℕ × PageId))
unfolding body_child_index
find_child_index p k = body_child_index p.body k

unfoldable pub find_child : Page → Key → Outcome PageError (Option PageId)
unfolding find_child_index
find_child p k = find_child_index p k >>= λ o. ok (elim o [ none ↦ none | some (i, id) ↦ some id ])

abbrev pub body_child_at : PageBody → ℕ → Option PageId
body_child_at (internal ks children) i = get_elem? children i
body_child_at (leaf records next prev) i = none
body_child_at (meta root_id page_count head s name) i = none
body_child_at (free next) i = none

abbrev pub child_at : Page → ℕ → Option PageId
child_at p i = body_child_at p.body i

abbrev pub body_key_at : PageBody → ℕ → Option Key
body_key_at (internal ks children) i = get_elem? ks i
body_key_at (leaf records next prev) i = none
body_key_at (meta root_id page_count head s name) i = none
body_key_at (free next) i = none

abbrev pub key_at : Page → ℕ → Option Key
key_at p i = body_key_at p.body i

-- `keys.first().is_some_and(|k| test k)` of a comparison with the separator.
abbrev pub key_is : (Ordering → Bool) → Option Key → Key → Bool
key_is test o separator = is_some_and o (λ k. test (key_ord.cmp k separator))

-- `keys[idx - 1] < new`, where there is a key on the left.
abbrev pub above_left : List Key → ℕ → Key → Outcome PageError Bool
above_left ks i new =
    if i == 0
    then ok true
    else (expect (get_elem? ks (i - 1)) >>= λ k. ok (is_lt (key_ord.cmp k new)))

-- `new < keys[idx + 1]`, where there is a key on the right.
abbrev pub below_right : List Key → ℕ → Key → Outcome PageError Bool
below_right ks i new =
    if i + 1 == length ks
    then ok true
    else (expect (get_elem? ks (i + 1)) >>= λ k. ok (is_lt (key_ord.cmp new k)))

module _ ⦃v : VarInt⦄ where
  abbrev pub has_space : Page → ℕ → Bool
  has_space p size = is_some_and (free_space p) (λ f. leb size f)

  unfoldable pub can_insert_separator : Page → Key → Bool
  can_insert_separator p k = is_internal p && has_space p (internal_entry_size k)

  unfoldable pub is_split_safe : Page → Bool
  is_split_safe p = is_internal p && has_space p max_internal_entry_size

  -- `internal_insert`.
  unfoldable pub internal_insert : Page → Key → PageId → Outcome PageError Page
  internal_insert p separator right_child = do
    require (not (ltb max_internal_entry_size (internal_entry_size separator)))
        (schema (key_too_long (internal_entry_size separator)))
    (ks, children) ← internal_parts p.body
    at ← search_keys separator ks
    elim at [
      | found i ↦ err duplicate_key
      | absent i ↦ do
        require (has_space p (internal_entry_size separator)) page_full
        let p' = with_keys p (insert_at ks i separator) (insert_at children (i + 1) right_child)
        debug_check p'
        ok p'
    ]

  -- `internal_remove`: the separator and the child on its right, if it was there, and the page.
  unfoldable pub internal_remove : Page → Key → Outcome PageError (Option (Key × PageId) × Page)
  internal_remove p k = do
    debug_check p
    (ks, children) ← internal_parts p.body
    at ← search_keys k ks
    elim at [
      | found i ↦ do
        removed ← expect (get_elem? ks i)
        child ← expect (get_elem? children (i + 1))
        let p' = with_keys p (remove_at ks i) (remove_at children (i + 1))
        debug_check p'
        ok (some (removed, child), p')
      | absent i ↦ do debug_check p; ok (none, p)
    ]

  -- `self.free_space().is_some_and(|free| free + size(old) >= size(new))`.
  abbrev pub replacement_fits : Page → Key → Key → Bool
  replacement_fits p old new =
      is_some_and (free_space p)
        (λ room. leb (internal_entry_size new) (room + internal_entry_size old))

  -- `internal_replace_key`.
  unfoldable pub internal_replace_key : Page → Key → Key → Outcome PageError Page
  internal_replace_key p old new = do
    (ks, children) ← internal_parts p.body
    at ← search_keys old ks
    elim at [
      | absent i ↦ err (missing_key old new)
      | found i ↦ do
        left ← above_left ks i new
        right ← below_right ks i new
        require (left && right) (key_not_in_order new)
        require (replacement_fits p old new) page_full
        let p' = with_keys p (set ks i new) children
        debug_check p'
        ok p'
    ]

  -- `internal_can_merge_with`.
  abbrev pub internal_can_merge_with : Page → Page → Key → Bool
  internal_can_merge_with p right separator =
      is_internal p
      && is_internal right
      && has_space p (entries_size right + internal_entry_size separator)

  -- `internal_merge_from_right`.
  unfoldable pub internal_merge_from_right :
      Page → Page → Key → Outcome PageError (PageId × Page × Page)
  internal_merge_from_right p right separator = do
    require (is_internal p && is_internal right) wrong_page_type
    require (internal_can_merge_with p right separator) page_full
    (ks, children) ← internal_parts p.body
    (right_ks, right_children) ← internal_parts right.body
    require (not (key_is is_le (first right_ks) separator)) (invalid_merge MergeFailReason.keys)
    require (not (key_is is_ge (last ks) separator)) (invalid_merge MergeFailReason.keys)
    let p' = with_keys p (ks ++ (separator ∷ right_ks)) (children ++ right_children)
    debug_check p'
    ok (right.page_id, p', make_free right)

  abbrev pub key_or_empty : Page → Option Key → Outcome PageError Key
  key_or_empty p none = err (invalid_borrow (empty_borrow p.page_id))
  key_or_empty p (some k) = ok k

  -- `internal_borrow_from_right`: the promoted key, the page, and the right page.
  unfoldable pub internal_borrow_from_right :
      Page → Page → Key → Outcome PageError (Key × Page × Page)
  internal_borrow_from_right p right parent_sep = do
    require (is_internal p && is_internal right) wrong_page_type
    (ks, children) ← internal_parts p.body
    (right_ks, right_children) ← internal_parts right.body
    borrow_key ← key_or_empty right (first right_ks)
    require (not (key_is is_ge (last ks) parent_sep))
        (invalid_borrow (keys_out_of_order parent_sep))
    require (not (is_le (key_ord.cmp borrow_key parent_sep)))
        (invalid_borrow (keys_out_of_order parent_sep))
    require (has_space p (internal_entry_size parent_sep)) page_full
    stolen_child ← expect (first right_children)
    let p' = with_keys p (ks ++ (parent_sep ∷ [])) (children ++ (stolen_child ∷ []))
    let right' = with_keys right (remove_at right_ks 0) (remove_at right_children 0)
    debug_check p'
    debug_check right'
    ok (borrow_key, p', right')

  -- `internal_borrow_from_left`: the promoted key, the page, and the left page.
  unfoldable pub internal_borrow_from_left :
      Page → Page → Key → Outcome PageError (Key × Page × Page)
  internal_borrow_from_left p left parent_sep = do
    require (is_internal p && is_internal left) wrong_page_type
    (ks, children) ← internal_parts p.body
    (left_ks, left_children) ← internal_parts left.body
    borrow_key ← key_or_empty left (last left_ks)
    require (not (key_is is_le (first ks) parent_sep))
        (invalid_borrow (keys_out_of_order parent_sep))
    require (not (is_ge (key_ord.cmp borrow_key parent_sep)))
        (invalid_borrow (keys_out_of_order parent_sep))
    require (has_space p (internal_entry_size parent_sep)) page_full
    stolen_child ← expect (last left_children)
    let p' = with_keys p (insert_at ks 0 parent_sep) (insert_at children 0 stolen_child)
    let left' = with_keys left (but_last left_ks) (but_last left_children)
    debug_check p'
    debug_check left'
    ok (borrow_key, p', left')
