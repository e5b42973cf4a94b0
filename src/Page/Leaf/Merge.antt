-- ===== src/Page/Leaf/Merge.antt =====
-- `leaf_merge_from_right` on two valid leaves: every branch.
use rust_db.Common.{
  ℕ, ◌+◌, ◌≤◌, ◌≡◌, ◌⊎◌, inl, inr, refl, true, false, List, [], ◌∷◌, ◌++◌, ok, err, All, All-append,
  All-last, All-total, last_exists, Option, some, first, last, sum_by-append, Bool-cases, arith,
}
use rust_db.Common.Order.{◌≺◌, is_le}
use rust_db.Common.Sorted.{IsAscending}
use rust_db.Common.Sorted.Update.{append-IsAscending, across_ends}
use rust_db.Types.{PageId, page_id_eq?}
use rust_db.PageError.{page_full, invalid_merge, MergeFailReason}
use rust_db.Schema.Values.{VarInt}
use rust_db.Schema.Key.{Key, key_ord}
use rust_db.Schema.Row.{Row, key_of, leaf_entry_size}
use rust_db.Schema.Validate.{IsEntry}
use rust_db.Page.{Page, make_free, is_underfull, body_is_underfull, records_size}
use rust_db.Page.Invariants.{IsValid}
use rust_db.Page.Invariants.Decides.{debug_check-IsValid}
use rust_db.Page.Leaf.{leaf_can_merge_with, check_merge_order, leaf_merge_from_right, has_room}
use rust_db.Page.Leaf.Search.{leaf_page, stored_key-IsEntry}

not_le→lt : (j k : Key) → is_le (key_ord.cmp k j) ≡ false → j ≺ k
not_le→lt j k h = ground (arith, key_ord.cmp_gt k j)

-- Every key of the one is below every key of the other.
abbrev pub AllBelow : List Row → List Row → Type 0
AllBelow xs ys = All (λ x. All (λ y. key_of x ≺ key_of y) ys) xs

module _ ⦃v : VarInt⦄ where
  -- The rows are out of order.
  abbrev Disordered : List Row → List Row → Type 0
  Disordered xs ys =
      (x : Row) × (y : Row) × (last xs ≡ some x)
      × (first ys ≡ some y)
      × (is_le (key_ord.cmp (key_of y) (key_of x)) ≡ true)

  merge_order_cases :
      (xs ys : List Row)
      → All IsEntry xs
      → All IsEntry ys
      → IsAscending key_of xs
      → IsAscending key_of ys
      → (Disordered xs ys
          × (check_merge_order (last xs) (first ys) ≡ err (invalid_merge MergeFailReason.keys)))
        ⊎ ((check_merge_order (last xs) (first ys) ≡ ok tt) × AllBelow xs ys)
  unfolding check_merge_order
  merge_order_cases [] ys h g a b = inr (refl, tt)
  merge_order_cases (x ∷ xs) [] h g a b =
      let (z, e) = last_exists x xs in
      inr (rw e refl, All-total (λ r. All (λ y. key_of r ≺ key_of y) []) (λ r. tt) (x ∷ xs))
  merge_order_cases (x ∷ xs) (y ∷ ys) h g a b =
      let (z, e) = last_exists x xs in
      let keyed = stored_key-IsEntry z (All-last IsEntry (x ∷ xs) z h e) in
      let key = stored_key-IsEntry y g.0 in
      elim (Bool-cases (is_le (key_ord.cmp (key_of y) (key_of z)))) [
        | inl bad ↦ inl ((z, y, e, refl, bad), rw (e, keyed, key, bad, check_merge_order))
        | inr good ↦ inr (
          rw (e, keyed, key, good, check_merge_order),
          across_ends key_of (x ∷ xs) z y ys a b e (not_le→lt _ _ good),
        )
      ]

  module _ (id right_id : PageId) (lsn right_lsn : Option ℕ) (xs ys : List Row)
      (next prev right_next right_prev : Option PageId) where
    abbrev here : Page
    here = leaf_page id lsn xs next prev

    abbrev there : Page
    there = leaf_page right_id right_lsn ys right_next right_prev

    abbrev joined : Page
    joined = leaf_page id lsn (xs ++ ys) right_next prev

    -- The rows do not fit; or the right page is not the next one; or the rows are out of order; or
    -- the page takes all rows in order, keeps its rules, and the right page is free.
    abbrev pub MergeCases : Type 0
    MergeCases =
        ((leaf_can_merge_with here there ≡ false)
          × (leaf_merge_from_right here there ≡ err page_full))
        ⊎ ((page_id_eq? next (some right_id) ≡ false)
            × (leaf_merge_from_right here there
                ≡ err (invalid_merge (MergeFailReason.pointer_mismatch next (some right_id)))))
        ⊎ (Disordered xs ys
            × (leaf_merge_from_right here there ≡ err (invalid_merge MergeFailReason.keys)))
        ⊎ ((leaf_can_merge_with here there ≡ true)
            × (page_id_eq? next (some right_id) ≡ true)
            × AllBelow xs ys
            × (leaf_merge_from_right here there ≡ ok (right_id, joined, make_free there))
            × IsValid joined)

    joined-IsValid :
        IsValid here
        → IsValid there
        → leaf_can_merge_with here there ≡ true
        → AllBelow xs ys
        → IsValid joined
    joined-IsValid h g room below = record {
      fits = ground (arith, h.fits, sum_by-append leaf_entry_size xs ys);
      sound = (
        All-append IsEntry xs ys h.sound.0 g.sound.0,
        append-IsAscending key_of xs ys h.sound.1 g.sound.1 below,
      );
    }

    -- On two valid leaves `leaf_merge_from_right` reports a full page where the right page's rows
    -- do not fit, a pointer mismatch where the right page is not the next one, and keys out of
    -- order where the right page's first key is at most the left page's last; else none of these
    -- holds, the merged leaf is valid, holds the rows of both in order and the right page's next
    -- link, and the right page is free.
    pub leaf_merge_from_right-MergeCases : IsValid here → IsValid there → MergeCases
    unfolding leaf_merge_from_right
    leaf_merge_from_right-MergeCases h g = elim (Bool-cases (leaf_can_merge_with here there)) [
      | inr full ↦ inl (full, rw (full, leaf_merge_from_right))
      | inl room ↦ inr (elim (Bool-cases (page_id_eq? next (some right_id))) [
        | inr astray ↦ inl (astray, rw (room, astray, leaf_merge_from_right))
        | inl linked ↦ inr (elim (merge_order_cases xs ys h.sound.0 g.sound.0 h.sound.1 g.sound.1) [
          | inl bad ↦ inl (bad.0, rw (room, linked, bad.1, leaf_merge_from_right))
          | inr good ↦
              let valid = joined-IsValid h g room good.1 in
              inr (
                room,
                linked,
                good.1,
                rw (room, linked, good.0, debug_check-IsValid _ valid, leaf_merge_from_right),
                valid,
              )
        ])
      ])
    ]

    -- Where a valid leaf is underfull and its right sibling is valid, either the leaf can take
    -- all rows of the sibling, or the sibling has two rows at least and the leaf has room for the
    -- first of them.
    pub underfull_leaf_recovers :
        IsValid here
        → IsValid there
        → is_underfull here ≡ true
        → (leaf_can_merge_with here there ≡ true)
          ⊎ ((y : Row) × (z : Row) × (rest : List Row) × (ys ≡ y ∷ z ∷ rest)
              × (has_room here (leaf_entry_size y) ≡ true))
    unfolding is_underfull body_is_underfull
    underfull_leaf_recovers h g low = go ys g.fits g.sound.0 refl
      where
        go :
            (rs : List Row)
            → 41 + records_size rs ≤ 4096
            → All IsEntry rs
            → ys ≡ rs
            → (leaf_can_merge_with here there ≡ true)
              ⊎ ((y : Row) × (z : Row) × (rest : List Row) × (ys ≡ y ∷ z ∷ rest)
                  × (has_room here (leaf_entry_size y) ≡ true))
        go [] fits entries e = inl (rw e (ground arith))
        go (y ∷ []) fits entries e = inl (rw e (ground (arith, entries.0.row_fits)))
        go (y ∷ z ∷ rest) fits entries e = inr (y, z, rest, e, ground (arith, entries.0.row_fits))
