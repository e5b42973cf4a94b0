-- ===== src/Page/Dispatch.antt =====
-- The dispatch of src/page/mod.rs on the kind of page, and the bulk borrow.
use rust_db.Common.{
  ℕ, zero, suc, ltb, if◌then◌else◌, Bool, true, false, Outcome, ok, err, panic, ◌>>=◌,
}
use rust_db.Types.{PageId}
use rust_db.PageError.{PageError, page_full, invalid_borrow}
use rust_db.Schema.Values.{VarInt}
use rust_db.Schema.Key.{Key}
use rust_db.Page.{Page, is_internal, entries_size, num_items}
use rust_db.Page.Leaf.{
  leaf_can_merge_with, leaf_merge_from_right, leaf_borrow_from_right, leaf_borrow_from_left,
}
use rust_db.Page.Internal.{
  internal_can_merge_with, internal_merge_from_right, internal_borrow_from_right,
  internal_borrow_from_left,
}

module _ ⦃v : VarInt⦄ where
  abbrev pub can_merge_with : Page → Page → Key → Bool
  can_merge_with p other separator =
      if is_internal p
      then internal_can_merge_with p other separator
      else leaf_can_merge_with p other

  abbrev pub merge_from_right : Page → Page → Key → Outcome PageError (PageId × Page × Page)
  merge_from_right p right separator =
      if is_internal p
      then internal_merge_from_right p right separator
      else leaf_merge_from_right p right

  abbrev pub borrow_from_right : Page → Page → Key → Outcome PageError (Key × Page × Page)
  borrow_from_right p right parent_sep =
      if is_internal p
      then internal_borrow_from_right p right parent_sep
      else leaf_borrow_from_right p right

  abbrev pub borrow_from_left : Page → Page → Key → Outcome PageError (Key × Page × Page)
  borrow_from_left p left parent_sep =
      if is_internal p
      then internal_borrow_from_left p left parent_sep
      else leaf_borrow_from_left p left

  -- The errors at which the bulk borrow stops.
  abbrev pub is_stop : PageError → Bool
  is_stop page_full = true
  is_stop (invalid_borrow r) = true
  is_stop _ = false

  -- The loop of `bulk_borrow_from_right`. Each round takes an item from the donor, so as many rounds
  -- as the donor has items are enough: after them the donor is empty and the loop's test fails.
  unfoldable pub borrow_rounds_right : ℕ → Page → Page → Key → Outcome PageError (Key × Page × Page)
  borrow_rounds_right zero p right sep = ok (sep, p, right)
  borrow_rounds_right (suc n) p right sep = elim (ltb (entries_size p) (entries_size right)) [
    | false ↦ ok (sep, p, right)
    | true ↦ elim (borrow_from_right p right sep) [
      | ok (new_sep, p', right') ↦ borrow_rounds_right n p' right' new_sep
      | err e ↦ if is_stop e then ok (sep, p, right) else err e
      | panic ↦ panic
    ]
  ]

  unfoldable pub bulk_borrow_from_right : Page → Page → Key → Outcome PageError (Key × Page × Page)
  bulk_borrow_from_right p right parent_sep = do
    (sep, p', right') ← borrow_from_right p right parent_sep
    borrow_rounds_right (num_items right') p' right' sep

  unfoldable pub borrow_rounds_left : ℕ → Page → Page → Key → Outcome PageError (Key × Page × Page)
  borrow_rounds_left zero p left sep = ok (sep, p, left)
  borrow_rounds_left (suc n) p left sep = elim (ltb (entries_size p) (entries_size left)) [
    | false ↦ ok (sep, p, left)
    | true ↦ elim (borrow_from_left p left sep) [
      | ok (new_sep, p', left') ↦ borrow_rounds_left n p' left' new_sep
      | err e ↦ if is_stop e then ok (sep, p, left) else err e
      | panic ↦ panic
    ]
  ]

  unfoldable pub bulk_borrow_from_left : Page → Page → Key → Outcome PageError (Key × Page × Page)
  bulk_borrow_from_left p left parent_sep = do
    (sep, p', left') ← borrow_from_left p left parent_sep
    borrow_rounds_left (num_items left') p' left' sep
