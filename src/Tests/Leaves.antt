-- ===== src/Tests/Leaves.antt =====
-- The operations on leaves, run.
use rust_db.Common.{
  ◌≡◌, ◌⊎◌, refl, List, [], ◌∷◌, ◌++◌, ok, none, some, true, false, remove_at, All,
}
use rust_db.Common.Order.{◌≺◌}
use rust_db.Schema.Key.{key_of_value, key_ord, cmp_key}
use rust_db.Schema.Row.{Row, key_of, fields_key, leaf_entry_size}
use rust_db.Page.{Page, is_underfull, is_delete_safe}
use rust_db.Page.Invariants.{IsValid, check_invariants}
use rust_db.Page.Leaf.{
  leaf_records_from, leaf_get, leaf_can_merge_with, has_room, leaf_borrow_from_right,
  leaf_borrow_from_left,
}
use rust_db.Page.Leaf.Search.{leaf_page, leaf_get-lookup, lookup}
use rust_db.Page.Leaf.Update.{
  InsertCases, RemoveCases, leaf_insert-InsertCases, leaf_remove-RemoveCases,
}
use rust_db.Page.Leaf.Merge.{MergeCases, leaf_merge_from_right-MergeCases, underfull_leaf_recovers}
use rust_db.Common.Sorted.LowerBound.{is_below}
use rust_db.Page.Leaf.From.{leaf_records_from-is_below}
use rust_db.Page.Leaf.Borrow.{leaf_borrow_from_right_moves, leaf_borrow_from_left_moves}
use rust_db.Page.Split.Leaf.{SplitCases, split_page-SplitCases}
use rust_db.Page.Internal.Room.{is_delete_safe-leaf}
use rust_db.Tests.Leb128.{leb128}
use rust_db.Tests.Samples.{
  page_number, sample_row, sample_key, long_row, checked, sample_row-IsEntry_four,
}

abbrev three_rows : List Row
three_rows = sample_row 1 ∷ sample_row 3 ∷ sample_row 5 ∷ []

abbrev later_rows : List Row
later_rows = sample_row 7 ∷ sample_row 8 ∷ sample_row 9 ∷ []

abbrev long_rows : List Row
long_rows = long_row 1 ∷ long_row 2 ∷ long_row 3 ∷ long_row 4 ∷ []

-- Two neighbours, and a page on its own.
abbrev second : List Row → Page
second rows = leaf_page (page_number 2) none rows (some (page_number 3)) none

abbrev third : List Row → Page
third rows = leaf_page (page_number 3) (some 4) rows none (some (page_number 2))

three_rows-IsValid : IsValid (second three_rows)
unfolding check_invariants leb128 key_of_value key_ord cmp_key
three_rows-IsValid = checked (second three_rows) refl

later_rows-IsValid : IsValid (third later_rows)
unfolding check_invariants leb128 key_of_value key_ord cmp_key
later_rows-IsValid = checked (third later_rows) refl

long_rows-IsValid : IsValid (second long_rows)
unfolding check_invariants leb128 key_of_value key_ord cmp_key
long_rows-IsValid = checked (second long_rows) refl

leaf_get-lookup_example :
    leaf_get (second three_rows) (sample_key 3) ≡ ok (lookup (sample_key 3) three_rows)
leaf_get-lookup_example =
    leaf_get-lookup (page_number 2) none three_rows (some (page_number 3)) none (sample_key 3)
      three_rows-IsValid

leaf_insert-InsertCases_example :
    InsertCases (page_number 2) none three_rows (some (page_number 3)) none (sample_row 4)
leaf_insert-InsertCases_example =
    leaf_insert-InsertCases (page_number 2) none three_rows (some (page_number 3)) none
      (sample_row 4) three_rows-IsValid sample_row-IsEntry_four

leaf_remove-RemoveCases_example :
    RemoveCases (page_number 2) none three_rows (some (page_number 3)) none (sample_key 3)
leaf_remove-RemoveCases_example =
    leaf_remove-RemoveCases (page_number 2) none three_rows (some (page_number 3)) none
      (sample_key 3) three_rows-IsValid

split_page-SplitCases_example :
    SplitCases (page_number 2) none (page_number 9) (some (page_number 3)) none three_rows
split_page-SplitCases_example =
    split_page-SplitCases (page_number 2) none (page_number 9) (some (page_number 3)) none
      three_rows three_rows-IsValid

leaf_merge_from_right-MergeCases_example :
    MergeCases
      (page_number 2)
      (page_number 3)
      none
      (some 4)
      three_rows
      later_rows
      (some (page_number 3))
      none
      none
      (some (page_number 2))
leaf_merge_from_right-MergeCases_example =
    leaf_merge_from_right-MergeCases (page_number 2) (page_number 3) none (some 4) three_rows
      later_rows (some (page_number 3)) none none (some (page_number 2)) three_rows-IsValid
      later_rows-IsValid

three_rows_underfull : is_underfull (second three_rows) ≡ true
unfolding is_underfull leb128
three_rows_underfull = refl

underfull_leaf_recovers_example :
    (leaf_can_merge_with (second three_rows) (third later_rows) ≡ true)
    ⊎ ((y : Row) × (z : Row) × (rest : List Row) × (later_rows ≡ y ∷ z ∷ rest)
        × (has_room (second three_rows) (leaf_entry_size y) ≡ true))
underfull_leaf_recovers_example =
    underfull_leaf_recovers (page_number 2) (page_number 3) none (some 4) three_rows later_rows
      (some (page_number 3)) none none (some (page_number 2)) three_rows-IsValid later_rows-IsValid
      three_rows_underfull

room_for_one : has_room (second three_rows) (leaf_entry_size (sample_row 7)) ≡ true
unfolding leb128
room_for_one = refl

leaf_borrow_from_right_moves_example :
    (leaf_borrow_from_right (second three_rows) (third later_rows)
      ≡ ok (
        key_of (sample_row 8),
        second (three_rows ++ (sample_row 7 ∷ [])),
        third (sample_row 8 ∷ sample_row 9 ∷ []),
      ))
    × IsValid (second (three_rows ++ (sample_row 7 ∷ [])))
    × IsValid (third (sample_row 8 ∷ sample_row 9 ∷ []))
    × All (λ x. key_of x ≺ key_of (sample_row 8)) (three_rows ++ (sample_row 7 ∷ []))
unfolding key_of fields_key key_of_value key_ord cmp_key leb128
leaf_borrow_from_right_moves_example =
    leaf_borrow_from_right_moves (page_number 2) (page_number 3) none (some 4) three_rows
      (some (page_number 3)) none none (some (page_number 2)) (sample_row 7) (sample_row 8)
      (sample_row 9 ∷ []) three_rows-IsValid later_rows-IsValid refl
      ((refl, (refl, (refl, tt))), ((refl, (refl, (refl, tt))), ((refl, (refl, (refl, tt))), tt)))
      room_for_one

leaf_borrow_from_left_moves_example :
    (leaf_borrow_from_left (third later_rows) (second three_rows)
      ≡ ok (
        key_of (sample_row 5),
        third (sample_row 5 ∷ later_rows),
        second (sample_row 1 ∷ sample_row 3 ∷ []),
      ))
    × IsValid (third (sample_row 5 ∷ later_rows))
    × IsValid (second (sample_row 1 ∷ sample_row 3 ∷ []))
    × All (λ x. key_of x ≺ key_of (sample_row 5)) (sample_row 1 ∷ sample_row 3 ∷ [])
unfolding key_of fields_key key_of_value key_ord cmp_key leb128
leaf_borrow_from_left_moves_example =
    leaf_borrow_from_left_moves (page_number 3) (page_number 2) (some 4) none later_rows none
      (some (page_number 2)) (some (page_number 3)) none (sample_row 3) (sample_row 5)
      (sample_row 1 ∷ []) later_rows-IsValid three_rows-IsValid refl
      ((refl, (refl, (refl, tt))), ((refl, (refl, (refl, tt))), ((refl, (refl, (refl, tt))), tt)))
      refl

long_rows_delete_safe : is_delete_safe (second long_rows) ≡ true
unfolding is_delete_safe leb128
long_rows_delete_safe = refl

is_delete_safe-leaf_example : is_underfull (second (remove_at long_rows 2)) ≡ false
is_delete_safe-leaf_example =
    is_delete_safe-leaf (page_number 2) none long_rows (some (page_number 3)) none 2 (long_row 3)
      long_rows-IsValid long_rows_delete_safe refl

leaf_records_from-is_below_example :
    (front rest : List Row) × (leaf_records_from (second three_rows) (sample_key 2) ≡ ok rest)
    × (front ++ rest ≡ three_rows)
    × All (λ r. is_below key_of (sample_key 2) r ≡ true) front
    × All (λ r. is_below key_of (sample_key 2) r ≡ false) rest
leaf_records_from-is_below_example =
    leaf_records_from-is_below (page_number 2) none three_rows (some (page_number 3)) none
      (sample_key 2) three_rows-IsValid
