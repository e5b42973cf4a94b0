-- ===== src/Page/Split/Leaf.antt =====
-- `split_page` on a valid leaf: the rows are cut in two valid leaves with room for any row.
use rust_db.Common.{
  ℕ, ◌+◌, ◌-◌, ◌/◌, ◌≤◌, ◌≡◌, ◌⊎◌, inl, inr, refl, sym, ltb, false, List, [], ◌∷◌, ◌++◌, ok, err,
  length, All, All-imp, All-take, All-drop, All-heads, drop-cons, take, drop, take-append-drop,
  length-take-le, Option, none, some, arith, subst,
}
use rust_db.Common.Halves.{clamp, reach, cut_bounds}
use rust_db.Common.Order.{◌≺◌}
use rust_db.Common.Sorted.{IsAscending}
use rust_db.Common.Sorted.Update.{append-IsAscending_inv}
use rust_db.Types.{PageId}
use rust_db.PageError.{too_small_to_split}
use rust_db.Layout.{page_size, max_leaf_entry_size}
use rust_db.Schema.Values.{VarInt}
use rust_db.Schema.Key.{key_ord}
use rust_db.Schema.Row.{Row, key_of, leaf_entry_size}
use rust_db.Schema.Validate.{IsEntry}
use rust_db.Page.{Page, used_size, records_size}
use rust_db.Page.Invariants.{IsValid}
use rust_db.Page.Invariants.Decides.{debug_check-IsValid}
use rust_db.Page.Leaf.Search.{leaf_page}
use rust_db.Page.Split.{split_leaf, split_body, split_page}

module _ ⦃v : VarInt⦄ (id : PageId) (lsn : Option ℕ) (new_id : PageId)
    (next prev : Option PageId) where
  -- The page before the split, the page after it, and the new one.
  abbrev whole_page : List Row → Page
  whole_page rs = leaf_page id lsn rs next prev

  abbrev left_page : List Row → Page
  left_page rs = leaf_page id lsn rs (some new_id) prev

  abbrev right_page : List Row → Page
  right_page rs = leaf_page new_id none rs next (some id)

  -- A valid page with room for the largest row.
  abbrev HasRoom : Page → Type 0
  HasRoom p = IsValid p × (used_size p.body + max_leaf_entry_size ≤ page_size)

  pub record IsCut (records left : List Row) (y : Row) (ys : List Row) : Type 0 where
    pub together : left ++ (y ∷ ys) ≡ records
    pub left_some : 1 ≤ length left
    pub left_valid : HasRoom (left_page left)
    pub right_valid : HasRoom (right_page (y ∷ ys))
    pub below : All (λ r. key_of r ≺ key_of y) left
    pub above : All (λ r. key_of y ≺ key_of r) ys

  -- What a cut of a valid leaf within the bounds gives.
  take-drop-IsCut :
      (k : ℕ) (records : List Row) (y : Row) (ys : List Row)
      → IsValid (whole_page records)
      → drop k records ≡ y ∷ ys
      → 1 ≤ k
      → k ≤ length records
      → records_size (take k records) ≤ 3042
      → records_size (y ∷ ys) ≤ 3042
      → IsCut records (take k records) y ys
  take-drop-IsCut k records y ys h e one inside small_left small_right =
      let joined : take k records ++ (y ∷ ys) ≡ records = rw (sym e) (take-append-drop k records) in
      let ordered : IsAscending key_of (take k records ++ (y ∷ ys)) =
        subst (λ l. IsAscending key_of l) (sym joined) h.sound.1 in
      let (a, b, across) = append-IsAscending_inv key_of (take k records) (y ∷ ys) ordered in
      let entries : All IsEntry (y ∷ ys) =
        subst (λ l. All IsEntry l) e (All-drop IsEntry k records h.sound.0) in
      record {
        together = joined;
        left_some = rw (length-take-le k records inside) one;
        left_valid = (
          record { fits = omega arith; sound = (All-take IsEntry k records h.sound.0, a) },
          omega arith,
        );
        right_valid = (record { fits = omega arith; sound = (entries, b) }, omega arith);
        below = All-heads (λ r t. key_of r ≺ key_of t) (take k records) ys y across;
        above = b.0;
      }

  split_two :
      (x : Row) (xs : List Row)
      → IsValid (whole_page (x ∷ xs))
      → 1 ≤ length xs
      → (left : List Row) × (y : Row) × (ys : List Row) × (split_page (whole_page (x ∷ xs)) new_id
          ≡ ok (key_of y, left_page left, right_page (y ∷ ys)))
        × IsCut (x ∷ xs) left y ys
  unfolding split_page split_body split_leaf
  split_two x xs h two =
      let (p, at, bounds) =
        cut_bounds leaf_entry_size max_leaf_entry_size 0 x xs two
          (All-imp (λ r e. e.row_fits) (x ∷ xs) h.sound.0) in
      let (one, inside, l, r) = bounds in
      let k = clamp 1 (length (x ∷ xs) - 1) (p + 1) in
      let (y, ys, e) = drop-cons k (x ∷ xs) (omega arith) in
      let same : k + 0 ≡ k = omega arith in
      let right : records_size (drop (k + 0) (x ∷ xs)) ≤ 3042 = elim r [
        | inl a ↦ omega arith
        | inr a ↦ omega (arith, h.fits)
      ] in
      let cut = take-drop-IsCut k (x ∷ xs) y ys h e one (omega arith) (omega (arith, h.fits)) (
        subst (λ n. records_size n ≤ 3042) e
          (subst (λ j. records_size (drop j (x ∷ xs)) ≤ 3042) same right)) in
      (take k (x ∷ xs), y, ys, run p at y ys e cut, cut)
    where
      run :
          (p : ℕ)
          → reach leaf_entry_size 0 (records_size (x ∷ xs) / 2) (x ∷ xs) ≡ some p
          → (y : Row) → (ys : List Row)
          → drop (clamp 1 (length (x ∷ xs) - 1) (p + 1)) (x ∷ xs) ≡ y ∷ ys
          → IsCut (x ∷ xs) (take (clamp 1 (length (x ∷ xs) - 1) (p + 1)) (x ∷ xs)) y ys
          → split_page (whole_page (x ∷ xs)) new_id
            ≡ ok (
              key_of y,
              left_page (take (clamp 1 (length (x ∷ xs) - 1) (p + 1)) (x ∷ xs)),
              right_page (y ∷ ys),
            )
      run p at y ys e cut =
          let many : ltb (length (x ∷ xs)) 2 ≡ false = ground arith in
          rw (
            many,
            at,
            e,
            (cut.right_valid.0.sound.0.0).keyed,
            debug_check-IsValid _ cut.left_valid.0,
            debug_check-IsValid _ cut.right_valid.0,
            split_leaf,
            split_page,
            split_body,
          )

  -- The page has fewer than two rows, which is reported; or it is cut.
  abbrev pub SplitCases : List Row → Type 0
  SplitCases records =
      ((length records ≤ 1)
        × (split_page (whole_page records) new_id ≡ err (too_small_to_split id)))
      ⊎ ((left : List Row) × (y : Row) × (ys : List Row) × (split_page (whole_page records) new_id
            ≡ ok (key_of y, left_page left, right_page (y ∷ ys)))
          × IsCut records left y ys)

  -- On a valid leaf `split_page` reports a leaf of fewer than two rows as too small; else it cuts
  -- the rows, in order, in two parts that are not empty, both pages are valid and have room for a
  -- row of the largest size, all keys on the left are below the promoted key, that key is the
  -- first one on the right, and the pages are linked to each other and to the old neighbours.
  pub split_page-SplitCases :
      (records : List Row) → IsValid (whole_page records) → SplitCases records
  unfolding split_page split_body split_leaf
  split_page-SplitCases [] h = inl (omega arith, refl)
  split_page-SplitCases (x ∷ []) h = inl (omega arith, refl)
  split_page-SplitCases (x ∷ y ∷ xs) h = inr (split_two x (y ∷ xs) h (omega arith))
