-- ===== src/Page/Internal/Merge.antt =====
-- `internal_merge_from_right` on two valid internal pages and their separator: every branch.
use rust_db.Common.{
  ℕ, ◌≤◌, ◌≡◌, ◌⊎◌, inl, inr, refl, true, false, List, [], ◌∷◌, ◌++◌, ok, err, All, All-imp,
  All-append, length-append, last_exists, Option, first, last, sum_by-append, Bool-cases, arith,
}
use rust_db.Common.Order.{◌≺◌, is_le, is_ge}
use rust_db.Common.Sorted.{IsAscending}
use rust_db.Common.Sorted.Update.{append-IsAscending, below_last, above_first}
use rust_db.Layout.{max_internal_entry_size}
use rust_db.Types.{PageId}
use rust_db.PageError.{page_full, invalid_merge, MergeFailReason}
use rust_db.Schema.Values.{VarInt}
use rust_db.Schema.Key.{Key, key_ord}
use rust_db.Schema.Row.{internal_entry_size}
use rust_db.Page.{Page, make_free, is_underfull, body_is_underfull}
use rust_db.Page.Invariants.{IsValid}
use rust_db.Page.Invariants.Decides.{debug_check-IsValid}
use rust_db.Page.Internal.{internal_can_merge_with, internal_merge_from_right, key_is}
use rust_db.Page.Internal.Route.{internal_page, itself}

not_le→lt : (j k : Key) → is_le (key_ord.cmp k j) ≡ false → j ≺ k
not_le→lt j k h = ground (arith, key_ord.cmp_gt k j)

not_ge→lt : (j k : Key) → is_ge (key_ord.cmp j k) ≡ false → j ≺ k
not_ge→lt j k h = ground arith

-- What the test of the first key establishes, and that of the last.
above_sep :
    (s : Key) (ks : List Key)
    → IsAscending itself ks
    → key_is is_le (first ks) s ≡ false
    → All (λ k. s ≺ k) ks
above_sep s [] a h = tt
above_sep s (k ∷ ks) a h = above_first itself s (k ∷ ks) k a refl (not_le→lt s k h)

below_sep :
    (s : Key) (ks : List Key)
    → IsAscending itself ks
    → key_is is_ge (last ks) s ≡ false
    → All (λ k. k ≺ s) ks
below_sep s [] a h = tt
below_sep s (k ∷ ks) a h =
    let (z, e) = last_exists k ks in
    let small : is_ge (key_ord.cmp z s) ≡ false = rw e at h in
    below_last itself s (k ∷ ks) z a e (not_ge→lt z s small)

module _ ⦃v : VarInt⦄ where
  module _ (id right_id : PageId) (lsn right_lsn : Option ℕ) (xs ys : List Key)
      (cs ds : List PageId) (s : Key) where
    abbrev here : Page
    here = internal_page id lsn xs cs

    abbrev there : Page
    there = internal_page right_id right_lsn ys ds

    abbrev joined : Page
    joined = internal_page id lsn (xs ++ (s ∷ ys)) (cs ++ ds)

    -- The entries and the separator do not fit; or the separator is not between the keys of both
    -- pages; or it comes down between them, the page keeps its rules, and the right page is free.
    abbrev pub MergeCases : Type 0
    MergeCases =
        ((internal_can_merge_with here there s ≡ false)
          × (internal_merge_from_right here there s ≡ err page_full))
        ⊎ (((key_is is_le (first ys) s ≡ true) ⊎ (key_is is_ge (last xs) s ≡ true))
            × (internal_merge_from_right here there s ≡ err (invalid_merge MergeFailReason.keys)))
        ⊎ (All (λ k. k ≺ s) xs
            × All (λ k. s ≺ k) ys
            × (internal_merge_from_right here there s ≡ ok (right_id, joined, make_free there))
            × IsValid joined)

    joined-IsValid :
        IsValid here
        → IsValid there
        → internal_entry_size s ≤ max_internal_entry_size
        → internal_can_merge_with here there s ≡ true
        → All (λ k. k ≺ s) xs
        → All (λ k. s ≺ k) ys
        → IsValid joined
    joined-IsValid h g small room below above = record {
      fits = ground (arith, h.fits, sum_by-append internal_entry_size xs (s ∷ ys));
      sound = (
        omega (arith, h.sound.0, g.sound.0, length-append cs ds, length-append xs (s ∷ ys)),
        All-append (λ k. internal_entry_size k ≤ max_internal_entry_size) xs (s ∷ ys) h.sound.1
            (small, g.sound.1),
        append-IsAscending itself xs (s ∷ ys) h.sound.2 (above, g.sound.2)
            (All-imp (λ x p. (p, All-imp (λ y q. key_ord.cmp_trans x s y p q) ys above)) xs below),
      );
    }

    -- On two valid internal pages and a separator within the size limit,
    -- `internal_merge_from_right` reports a full page where all that does not fit, and keys out
    -- of order where the right page's first separator is at most, or the left page's last at
    -- least, the separator; else the merged page is valid, holds the separators of both with the
    -- separator between them and the children of both in order, and the right page is free.
    pub internal_merge_from_right-MergeCases :
        IsValid here → IsValid there → internal_entry_size s ≤ max_internal_entry_size → MergeCases
    unfolding internal_merge_from_right
    internal_merge_from_right-MergeCases h g small =
        elim (Bool-cases (internal_can_merge_with here there s)) [
          | inr full ↦ inl (full, rw (full, internal_merge_from_right))
          | inl room ↦ inr (elim (Bool-cases (key_is is_le (first ys) s)) [
            | inl low ↦ inl (inl low, rw (room, low, internal_merge_from_right))
            | inr right ↦ elim (Bool-cases (key_is is_ge (last xs) s)) [
              | inl high ↦ inl (inr high, rw (room, right, high, internal_merge_from_right))
              | inr left ↦
                  let below = below_sep s xs h.sound.2 left in
                  let above = above_sep s ys g.sound.2 right in
                  let valid = joined-IsValid h g small room below above in
                  inr (
                    below,
                    above,
                    rw (room, right, left, debug_check-IsValid _ valid, internal_merge_from_right),
                    valid,
                  )
            ]
          ])
        ]

    -- Two internal pages that are underfull can be merged with any separator within the size
    -- limit.
    pub underfull_pages_merge :
        is_underfull here ≡ true
        → is_underfull there ≡ true
        → internal_entry_size s ≤ max_internal_entry_size
        → internal_can_merge_with here there s ≡ true
    unfolding is_underfull body_is_underfull
    underfull_pages_merge low low' small = ground arith
