-- ===== src/Btree/Tree/Above.antt =====
-- The pages above the leaf that a key is routed to, and those of them whose guards `insert` and
-- `delete` of src/btree/tree.rs still hold at the leaf, told from the leaf upwards.
use rust_db.Common.{ℕ, List, [], ◌∷◌, Option, if◌then◌else◌, ◌||◌}
use rust_db.Types.{PageId}
use rust_db.Schema.Values.{VarInt}
use rust_db.Schema.Key.{Key}
use rust_db.Schema.Row.{Row}
use rust_db.Page.{Page, is_delete_safe}
use rust_db.Page.Leaf.{can_insert}
use rust_db.Page.Internal.{is_split_safe}
use rust_db.Btree.Tree.Way.{Way, here, down}

-- The pages above, the nearest first, each with the index of the child that the way goes to, in
-- front of those above the way.
abbrev pub pages_above :
    {view : PageId → Option Page} {k : Key} {h : ℕ} {top leaf : Page}
    → Way view k h top leaf
    → List (Page × ℕ)
    → List (Page × ℕ)
pages_above (here p outside) above = above
pages_above (down h i c p q leaf inner found at way) above = pages_above way ((p, i) ∷ above)

module _ ⦃v : VarInt⦄ where
  -- For an insertion: none above a page that has room; else those up to the nearest that has room.
  abbrev pub held_to_split : Row → Page → List (Page × ℕ) → List Page
  held_to_split row q [] = []
  held_to_split row q ((p, i) ∷ above) =
      if is_split_safe q || can_insert q row then [] else p ∷ held_to_split row p above

  -- For a deletion: those above a page, up to the nearest that can lose an entry.
  abbrev pub held_to_merge : List (Page × ℕ) → List (Page × ℕ)
  held_to_merge [] = []
  held_to_merge ((p, i) ∷ above) = (p, i) ∷ (if is_delete_safe p then [] else held_to_merge above)
