-- ===== src/Tests/Choices.antt =====
-- The choice of a victim, of a sibling and of a new separator, run.
use rust_db.Common.{refl, List, [], ◌∷◌, none, true, false, arith}
use rust_db.Types.{PageId}
use rust_db.Schema.Key.{Key, key_of_value, key_ord, cmp_key}
use rust_db.Page.Invariants.{IsValid, check_invariants}
use rust_db.Page.Internal.Route.{internal_page}
use rust_db.Page.Internal.Replace.{ReplaceCases, internal_replace_key-ReplaceCases}
use rust_db.Bpm.Frames.{Frame, ClockEvictor}
use rust_db.Bpm.Clock.{VictimCases, find_victim-VictimCases}
use rust_db.Btree.Sibling.{SiblingCases, pick_sibling-SiblingCases}
use rust_db.Tests.Leb128.{leb128}
use rust_db.Tests.Samples.{page_number, sample_key, checked}

abbrev keys_of_parent : List Key
keys_of_parent = sample_key 10 ∷ sample_key 20 ∷ []

abbrev children_of_parent : List PageId
children_of_parent = page_number 3 ∷ page_number 4 ∷ page_number 5 ∷ []

parent-IsValid : IsValid (internal_page (page_number 1) none keys_of_parent children_of_parent)
unfolding check_invariants leb128 key_of_value key_ord cmp_key
parent-IsValid = checked (internal_page (page_number 1) none keys_of_parent children_of_parent) refl

pick_sibling-SiblingCases_example :
    SiblingCases (page_number 1) none keys_of_parent children_of_parent 2
pick_sibling-SiblingCases_example =
    pick_sibling-SiblingCases (page_number 1) none keys_of_parent children_of_parent 2
      parent-IsValid (omega arith)

internal_replace_key-ReplaceCases_example :
    ReplaceCases
      (page_number 1)
      none
      keys_of_parent
      children_of_parent
      (sample_key 20)
      (sample_key 15)
unfolding leb128
internal_replace_key-ReplaceCases_example =
    internal_replace_key-ReplaceCases (page_number 1) none keys_of_parent children_of_parent
      (sample_key 20) (sample_key 15) parent-IsValid (omega arith)

-- A pinned frame, a referenced one and a dirty one.
abbrev three_frames : List Frame
three_frames =
    record { latch = none; pin_count = 2; dirty = false; referenced = false }
    ∷ record { latch = none; pin_count = 0; dirty = false; referenced = true }
    ∷ record { latch = none; pin_count = 0; dirty = true; referenced = false }
    ∷ []

abbrev clock : ClockEvictor
clock = record { hand = 1 }

find_victim-VictimCases_example : VictimCases clock three_frames
find_victim-VictimCases_example = find_victim-VictimCases clock three_frames (omega arith)
