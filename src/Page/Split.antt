-- ===== src/Page/Split.antt =====
-- `Page::split_page` of src/page/mod.rs. The page keeps the left part; the new page is returned.
-- A leaf whose promoted row has no key is reported after its rows were cut; the cut page is not
-- returned here with the error.
pub mod Leaf
pub mod Internal
use rust_db.Common.{
  ◌+◌, ◌-◌, ◌/◌, ◌≡◌, ltb, not, List, [], ◌∷◌, Outcome, ok, err, ◌>>=◌, ◌>>◌, require, expect,
  ok_or, map_err, length, Option, none, some, first, take, drop, remove_at, arith,
}
use rust_db.Common.Halves.{clamp, reach}
use rust_db.Types.{PageId}
use rust_db.PageError.{PageError, too_small_to_split, wrong_page_type, invariant_violated}
use rust_db.Schema.Values.{VarInt}
use rust_db.Schema.Key.{Key}
use rust_db.Schema.Row.{Row, fields_key, leaf_entry_size, internal_entry_size}
use rust_db.Page.{Page, PageBody, leaf, internal, meta, free, records_size, keys_size}
use rust_db.Page.Invariants.{debug_check}

-- The key of a row, with every failure mapped to `InvariantViolated`.
abbrev pub first_field_key : Row → Outcome PageError Key
first_field_key r =
    ok_or (fields_key r.fields) invariant_violated >>= λ k. map_err (λ _. invariant_violated) k

module _ ⦃v : VarInt⦄ where
  split_leaf :
      Page
      → PageId
      → List Row
      → Option PageId
      → Option PageId
      → Outcome PageError (Key × Page × Page)
  split_leaf p new_page_id records next prev = do
    require (not (ltb (length records) 2)) (too_small_to_split p.page_id)
    split_point ← expect (reach leaf_entry_size 0 (records_size records / 2) records)
    let split_off_point = clamp 1 (length records - 1) (split_point + 1)
    let new_records = drop split_off_point records
    first_row ← ok_or (first new_records) invariant_violated
    split_key ← first_field_key first_row
    let new_page : Page = record {
      page_id = new_page_id;
      last_update = none;
      body = leaf new_records next (some p.page_id);
    }
    let p' : Page = record p { body = leaf (take split_off_point records) (some new_page_id) prev }
    debug_check p'
    debug_check new_page
    ok (split_key, p', new_page)

  split_internal : Page → PageId → List Key → List PageId → Outcome PageError (Key × Page × Page)
  split_internal p new_page_id ks children = do
    require (not (ltb (length ks) 3)) (too_small_to_split p.page_id)
    split_point ← expect (reach internal_entry_size 0 (keys_size ks / 2) ks)
    let split_off_point = clamp 1 (length ks - 2) (split_point + 1)
    let new_keys = drop split_off_point ks
    split_key ← expect (first new_keys)
    let p' : Page = record p {
      body = internal (take split_off_point ks) (take (split_off_point + 1) children);
    }
    debug_check p'
    let new_page : Page = record {
      page_id = new_page_id;
      last_update = none;
      body = internal (remove_at new_keys 0) (drop (split_off_point + 1) children);
    }
    debug_check new_page
    ok (split_key, p', new_page)

  split_body : Page → PageId → PageBody → Outcome PageError (Key × Page × Page)
  unfolding split_leaf split_internal
  split_body p new_page_id (internal ks children) = split_internal p new_page_id ks children
  split_body p new_page_id (leaf records next prev) = split_leaf p new_page_id records next prev
  split_body p new_page_id (meta root_id page_count head schema name) = err wrong_page_type
  split_body p new_page_id (free next) = err wrong_page_type

  -- `split_page`: the promoted key, the page, and the new page on its right.
  unfoldable pub split_page : Page → PageId → Outcome PageError (Key × Page × Page)
  unfolding split_body
  split_page p new_page_id = split_body p new_page_id p.body

  -- `Page::new_root`.
  unfoldable pub new_root : PageId → PageId → Key → PageId → Outcome PageError Page
  new_root page_id left separator right = do
    let page : Page = record {
      page_id = page_id;
      last_update = none;
      body = internal (separator ∷ []) (left ∷ right ∷ []);
    }
    debug_check page
    ok page
