-- ===== src/Page/Invariants.antt =====
-- src/page/invariants.rs: the structural rules of a page, as the check and as a predicate.
pub mod Decides
pub mod Silent
use rust_db.Common.{
  ℕ, ◌+◌, ◌≤◌, ◌≡◌, ltb, leb, ◌==◌, Bool, false, not, List, [], ◌∷◌, Outcome, ok, err, panic, ◌>>=◌,
  ◌>>◌, require, map_err, length, All, Option, none, some, arith,
}
use rust_db.Common.Order.{is_ge}
use rust_db.Common.Sorted.{IsAscending}
use rust_db.Layout.{page_size, max_leaf_entry_size, max_internal_entry_size}
use rust_db.Schema.Values.{VarInt, RowValue}
use rust_db.Schema.Key.{Key, key_of_value, key_ord}
use rust_db.Schema.Row.{Row, key_of, leaf_entry_size, internal_entry_size}
use rust_db.Schema.Validate.{IsEntry}
use rust_db.Page.{Page, PageBody, leaf, internal, meta, free, used_size, free_space, is_some_and}
use rust_db.PageError.{PageError, CorruptionKind}
use rust_db.PageError.CorruptionKind.{
  exceeds_capacity, row_too_large, missing_key, invalid_key, key_too_large, unsorted_keys,
  child_count_mismatch, page_num_out_of_range, table_name_too_long,
}

-- `record.fields.first().ok_or(MissingKey)?`, then `Key::try_from(first)` with its error mapped.
record_key : List RowValue → Outcome CorruptionKind Key
record_key [] = err missing_key
record_key (x ∷ xs) = map_err (λ _. invalid_key x) (key_of_value x)

-- The keys compare with `>=` against the one before.
abbrev is_not_after : Option Key → Key → Bool
is_not_after prev k = is_some_and prev (λ p. is_ge (key_ord.cmp p k))

module _ ⦃v : VarInt⦄ where
  check_records : Option Key → ℕ → List Row → Outcome CorruptionKind (Unit {0})
  unfolding record_key
  check_records prev i [] = ok tt
  check_records prev i (r ∷ rs) = do
    require (not (ltb max_leaf_entry_size (leaf_entry_size r))) (row_too_large i)
    key ← record_key r.fields
    require (not (ltb max_internal_entry_size (internal_entry_size key))) (key_too_large i)
    require (not (is_not_after prev key)) (unsorted_keys i)
    check_records (some key) (i + 1) rs

  check_key_sizes : ℕ → List Key → Outcome CorruptionKind (Unit {0})
  check_key_sizes i [] = ok tt
  check_key_sizes i (k ∷ ks) =
      require (not (ltb max_internal_entry_size (internal_entry_size k))) (key_too_large i)
      >> check_key_sizes (i + 1) ks

  -- `keys.windows(2).position(|w| w[0] >= w[1])`.
  check_key_order : ℕ → List Key → Outcome CorruptionKind (Unit {0})
  check_key_order i [] = ok tt
  check_key_order i (k ∷ []) = ok tt
  check_key_order i (k ∷ l ∷ ks) =
      require (not (is_ge (key_ord.cmp k l))) (unsorted_keys (i + 1))
      >> check_key_order (i + 1) (l ∷ ks)

  check_body : PageBody → Outcome CorruptionKind (Unit {0})
  unfolding check_records check_key_sizes check_key_order
  check_body (leaf records next prev) = check_records none 0 records
  check_body (internal keys children) = do
    require (length children == length keys + 1)
        (child_count_mismatch (length keys) (length children))
    check_key_sizes 0 keys
    check_key_order 0 keys
  check_body (meta root_id page_count head schema name) = do
    require (not (is_some_and head (λ h. leb page_count h.page_num)))
        (page_num_out_of_range (elim head [ some h ↦ h.page_num | none ↦ 0 ]))
    require (not (ltb 65535 (length name))) (table_name_too_long (length name))
  check_body (free next) = ok tt

  -- `Page::check_invariants`.
  unfoldable pub check_invariants : Page → Outcome CorruptionKind (Unit {0})
  unfolding check_body
  check_invariants p = elim (free_space p) [
    | none ↦ err exceeds_capacity
    | some f ↦ check_body p.body
  ]

  -- `Page::debug_check_invariants` in a debug build: a violation is a panic.
  unfoldable pub debug_check : Page → Outcome PageError (Unit {0})
  debug_check p = elim (check_invariants p) [ ok u ↦ ok tt | err e ↦ panic | panic ↦ panic ]

  -- The rules for the content.
  abbrev pub IsSound : PageBody → Type 0
  IsSound (leaf records next prev) = All IsEntry records × IsAscending key_of records
  IsSound (internal keys children) =
      (length children ≡ length keys + 1)
      × All (λ k. internal_entry_size k ≤ max_internal_entry_size) keys
      × IsAscending (λ k. k) keys
  IsSound (meta root_id page_count head schema name) =
      (is_some_and head (λ h. leb page_count h.page_num) ≡ false) × (length name ≤ 65535)
  IsSound (free next) = Unit

  pub record IsValid (p : Page) : Type 0 where
    pub fits : used_size p.body ≤ page_size
    pub sound : IsSound p.body
