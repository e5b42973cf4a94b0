-- ===== src/Page/Internal/Room.antt =====
-- The two questions that decide which latches a descent keeps.
use rust_db.Common.{
  ℕ, ◌≤◌, ◌≡◌, true, false, List, Option, some, remove_at, get_elem?, sum_by-remove_at, All-get,
  arith,
}
use rust_db.Layout.{max_internal_entry_size}
use rust_db.Types.{PageId}
use rust_db.Schema.Values.{VarInt}
use rust_db.Schema.Key.{Key}
use rust_db.Schema.Row.{Row, leaf_entry_size, internal_entry_size}
use rust_db.Schema.Validate.{IsEntry}
use rust_db.Page.{is_underfull, body_is_underfull, is_delete_safe, body_is_delete_safe}
use rust_db.Page.Invariants.{IsValid}
use rust_db.Page.Internal.{has_space, is_split_safe}
use rust_db.Page.Internal.Route.{internal_page}
use rust_db.Page.Leaf.Search.{leaf_page}

module _ ⦃v : VarInt⦄ where
  -- An internal page that is safe for a split below it has room for every separator within the
  -- size limit.
  pub is_split_safe-has_space :
      (id : PageId) (lsn : Option ℕ) (ks : List Key) (children : List PageId) (s : Key)
      → is_split_safe (internal_page id lsn ks children) ≡ true
      → internal_entry_size s ≤ max_internal_entry_size
      → has_space (internal_page id lsn ks children) (internal_entry_size s) ≡ true
  unfolding is_split_safe
  is_split_safe-has_space id lsn ks children s safe small = ground arith

  -- A valid leaf that is safe for a deletion is not underfull after the removal of any one of its
  -- rows.
  pub is_delete_safe-leaf :
      (id : PageId) (lsn : Option ℕ) (rs : List Row) (next prev : Option PageId) (i : ℕ) (r : Row)
      → IsValid (leaf_page id lsn rs next prev)
      → is_delete_safe (leaf_page id lsn rs next prev) ≡ true
      → get_elem? rs i ≡ some r
      → is_underfull (leaf_page id lsn (remove_at rs i) next prev) ≡ false
  unfolding is_delete_safe body_is_delete_safe is_underfull body_is_underfull
  is_delete_safe-leaf id lsn rs next prev i r h safe here =
      let entry = All-get IsEntry rs i r h.sound.0 here in
      ground (arith, entry.row_fits, sum_by-remove_at leaf_entry_size rs i r here)

  -- A valid internal page that is safe for a deletion is not underfull after the removal of any
  -- one of its separators.
  pub is_delete_safe-internal :
      (id : PageId) (lsn : Option ℕ) (ks : List Key) (children kept : List PageId) (i : ℕ) (k : Key)
      → IsValid (internal_page id lsn ks children)
      → is_delete_safe (internal_page id lsn ks children) ≡ true
      → get_elem? ks i ≡ some k
      → is_underfull (internal_page id lsn (remove_at ks i) kept) ≡ false
  unfolding is_delete_safe body_is_delete_safe is_underfull body_is_underfull
  is_delete_safe-internal id lsn ks children kept i k h safe here =
      let small =
        All-get (λ x. internal_entry_size x ≤ max_internal_entry_size) ks i k h.sound.1 here in
      ground (arith, small, sum_by-remove_at internal_entry_size ks i k here)
