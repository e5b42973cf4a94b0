-- ===== src/Tests/Internals.antt =====
-- The operations on internal pages, run.
use rust_db.Common.{
  ℕ, ◌≡◌, ◌≤◌, refl, List, [], ◌∷◌, ◌++◌, ok, none, some, true, false, remove_at, get_elem?, All,
  arith,
}
use rust_db.Common.Order.{◌≺◌, cmp_bytes}
use rust_db.Common.Sorted.Route.{IsRouted}
use rust_db.Types.{PageId}
use rust_db.Layout.{max_internal_entry_size}
use rust_db.Schema.Key.{Key, key_of_value, key_ord, cmp_key}
use rust_db.Schema.Row.{internal_entry_size}
use rust_db.Page.{Page, is_underfull, is_delete_safe}
use rust_db.Page.Invariants.{IsValid, check_invariants}
use rust_db.Page.Internal.{
  find_child_index, internal_can_merge_with, internal_borrow_from_right, internal_borrow_from_left,
}
use rust_db.Page.Internal.Route.{internal_page, itself, find_child_index-IsRouted}
use rust_db.Page.Internal.Update.{
  InsertCases, RemoveCases, internal_insert-InsertCases, internal_remove-RemoveCases,
}
use rust_db.Page.Internal.Merge.{
  MergeCases, internal_merge_from_right-MergeCases, underfull_pages_merge,
}
use rust_db.Page.Internal.Borrow.{internal_borrow_from_right_moves, internal_borrow_from_left_moves}
use rust_db.Page.Internal.Room.{is_delete_safe-internal}
use rust_db.Page.Split.Internal.{SplitCases, split_page_internal-SplitCases}
use rust_db.Tests.Leb128.{leb128}
use rust_db.Tests.Samples.{page_number, sample_key, long_key, checked}

abbrev three_keys : List Key
three_keys = sample_key 10 ∷ sample_key 20 ∷ sample_key 30 ∷ []

abbrev four_children : List PageId
four_children = page_number 3 ∷ page_number 4 ∷ page_number 5 ∷ page_number 6 ∷ []

abbrev later_keys : List Key
later_keys = sample_key 50 ∷ sample_key 60 ∷ []

abbrev later_children : List PageId
later_children = page_number 7 ∷ page_number 8 ∷ page_number 9 ∷ []

abbrev long_keys : List Key
long_keys = long_key 1 ∷ long_key 2 ∷ long_key 3 ∷ []

-- Two pages.
abbrev front : List Key → List PageId → Page
front = internal_page (page_number 1) none

abbrev back : List Key → List PageId → Page
back = internal_page (page_number 2) (some 4)

three_keys-IsValid : IsValid (front three_keys four_children)
unfolding check_invariants leb128 key_of_value key_ord cmp_key cmp_bytes
three_keys-IsValid = checked (front three_keys four_children) refl

later_keys-IsValid : IsValid (back later_keys later_children)
unfolding check_invariants leb128 key_of_value key_ord cmp_key cmp_bytes
later_keys-IsValid = checked (back later_keys later_children) refl

long_keys-IsValid : IsValid (front long_keys four_children)
unfolding check_invariants leb128 key_of_value key_ord cmp_key cmp_bytes
long_keys-IsValid = checked (front long_keys four_children) refl

small_key : internal_entry_size (sample_key 40) ≤ max_internal_entry_size
unfolding leb128
small_key = omega arith

find_child_index-IsRouted_example :
    (i : ℕ) × (c : PageId) × (find_child_index (front three_keys four_children) (sample_key 20)
      ≡ ok (some (i, c)))
    × (get_elem? four_children i ≡ some c)
    × IsRouted itself (sample_key 20) three_keys i
find_child_index-IsRouted_example =
    find_child_index-IsRouted (page_number 1) none three_keys four_children (sample_key 20)
      three_keys-IsValid

internal_insert-InsertCases_example :
    InsertCases (page_number 1) none three_keys four_children (sample_key 25) (page_number 9)
internal_insert-InsertCases_example =
    internal_insert-InsertCases (page_number 1) none three_keys four_children (sample_key 25)
      (page_number 9) three_keys-IsValid

internal_remove-RemoveCases_example :
    RemoveCases (page_number 1) none three_keys four_children (sample_key 20)
internal_remove-RemoveCases_example =
    internal_remove-RemoveCases (page_number 1) none three_keys four_children (sample_key 20)
      three_keys-IsValid

split_page_internal-SplitCases_example :
    SplitCases (page_number 1) none (page_number 9) four_children three_keys
split_page_internal-SplitCases_example =
    split_page_internal-SplitCases (page_number 1) none (page_number 9) four_children three_keys
      three_keys-IsValid

internal_merge_from_right-MergeCases_example :
    MergeCases
      (page_number 1)
      (page_number 2)
      none
      (some 4)
      three_keys
      later_keys
      four_children
      later_children
      (sample_key 40)
internal_merge_from_right-MergeCases_example =
    internal_merge_from_right-MergeCases (page_number 1) (page_number 2) none (some 4) three_keys
      later_keys four_children later_children (sample_key 40) three_keys-IsValid later_keys-IsValid
      small_key

underfull_pages_merge_example :
    internal_can_merge_with
      (front three_keys four_children)
      (back later_keys later_children)
      (sample_key 40)
    ≡ true
unfolding is_underfull leb128
underfull_pages_merge_example =
    underfull_pages_merge (page_number 1) (page_number 2) none (some 4) three_keys later_keys
      four_children later_children (sample_key 40) refl refl small_key

internal_borrow_from_right_moves_example :
    (internal_borrow_from_right
        (front three_keys four_children)
        (back later_keys later_children)
        (sample_key 40)
      ≡ ok (
        sample_key 50,
        front (three_keys ++ (sample_key 40 ∷ [])) (four_children ++ (page_number 7 ∷ [])),
        back (sample_key 60 ∷ []) (page_number 8 ∷ page_number 9 ∷ []),
      ))
    × IsValid (front (three_keys ++ (sample_key 40 ∷ [])) (four_children ++ (page_number 7 ∷ [])))
    × IsValid (back (sample_key 60 ∷ []) (page_number 8 ∷ page_number 9 ∷ []))
    × All (λ x. x ≺ sample_key 50) (three_keys ++ (sample_key 40 ∷ []))
    × All (λ y. sample_key 50 ≺ y) (sample_key 60 ∷ [])
unfolding key_of_value key_ord cmp_key leb128
internal_borrow_from_right_moves_example =
    internal_borrow_from_right_moves (page_number 1) (page_number 2) none (some 4) three_keys
      four_children (sample_key 40) (sample_key 50) (sample_key 60 ∷ []) (page_number 7)
      (page_number 8 ∷ page_number 9 ∷ []) three_keys-IsValid later_keys-IsValid small_key
      (refl, (refl, (refl, tt))) refl refl

internal_borrow_from_left_moves_example :
    (internal_borrow_from_left
        (back later_keys later_children)
        (front three_keys four_children)
        (sample_key 40)
      ≡ ok (
        sample_key 30,
        back (sample_key 40 ∷ later_keys) (page_number 6 ∷ later_children),
        front
            (sample_key 10 ∷ sample_key 20 ∷ [])
            (page_number 3 ∷ page_number 4 ∷ page_number 5 ∷ []),
      ))
    × IsValid (back (sample_key 40 ∷ later_keys) (page_number 6 ∷ later_children))
    × IsValid (
        front
          (sample_key 10 ∷ sample_key 20 ∷ [])
          (page_number 3 ∷ page_number 4 ∷ page_number 5 ∷ []))
    × All (λ x. sample_key 30 ≺ x) (sample_key 40 ∷ later_keys)
    × All (λ y. y ≺ sample_key 30) (sample_key 10 ∷ sample_key 20 ∷ [])
unfolding key_of_value key_ord cmp_key leb128
internal_borrow_from_left_moves_example =
    internal_borrow_from_left_moves (page_number 2) (page_number 1) (some 4) none later_keys
      later_children (sample_key 40) (sample_key 10 ∷ sample_key 20 ∷ []) (sample_key 30)
      (page_number 3 ∷ page_number 4 ∷ page_number 5 ∷ []) (page_number 6) later_keys-IsValid
      three_keys-IsValid small_key (refl, (refl, tt)) refl refl

is_delete_safe-internal_example :
    is_underfull (front (remove_at long_keys 1) (page_number 3 ∷ [])) ≡ false
unfolding is_delete_safe leb128
is_delete_safe-internal_example =
    is_delete_safe-internal (page_number 1) none long_keys four_children (page_number 3 ∷ []) 1
      (long_key 2) long_keys-IsValid refl refl
