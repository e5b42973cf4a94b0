-- ===== src/Page/Leaf/Borrow.antt =====
-- `leaf_borrow_from_right` and `leaf_borrow_from_left` between two valid leaves in order.
use rust_db.Common.{
  ℕ, ◌≡◌, refl, sym, ap, ltb, true, false, List, [], ◌∷◌, ◌++◌, ok, length, All, All-imp,
  All-append, All-append_left, All-append_right, All-last, All-heads, Option, some, first, last,
  but_last, last_exists, sum_by-append, lt, gt, arith,
}
use rust_db.Common.Order.{◌≺◌, is_lt, is_gt}
use rust_db.Common.Sorted.Update.{append-IsAscending, append-IsAscending_inv}
use rust_db.Types.{PageId, page_id_eq?}
use rust_db.Schema.Values.{VarInt}
use rust_db.PageError.{PageError}
use rust_db.Schema.Key.{Key, key_ord}
use rust_db.Schema.Row.{Row, key_of, row_cmp_key, row_cmp_key-HasKey, leaf_entry_size}
use rust_db.Schema.Validate.{IsEntry}
use rust_db.Page.{Page}
use rust_db.Page.Invariants.{IsValid}
use rust_db.Page.Invariants.Decides.{debug_check-IsValid}
use rust_db.Page.Leaf.{row_is, has_room, leaf_borrow_from_right, leaf_borrow_from_left}
use rust_db.Page.Leaf.Search.{leaf_page, stored_key-IsEntry}
use rust_db.Page.Leaf.Merge.{AllBelow}

module _ ⦃v : VarInt⦄ where
  row_is-last :
      (xs : List Row) (k : Key)
      → All IsEntry xs
      → All (λ x. key_of x ≺ k) xs
      → row_is is_lt (last xs) k ≡ ok true
  row_is-last [] k h b = refl
  row_is-last (x ∷ xs) k h b =
      let (z, e) = last_exists x xs in
      let entry = All-last IsEntry (x ∷ xs) z h e in
      let below : key_of z ≺ k = All-last (λ x. key_of x ≺ k) (x ∷ xs) z b e in
      let found : row_cmp_key {E = PageError} z k ≡ ok lt =
        rw (sym below) (row_cmp_key-HasKey z (key_of z) k entry.keyed) in
      rw (e, found)

  row_is-first :
      (xs : List Row) (k : Key)
      → All IsEntry xs
      → All (λ x. k ≺ key_of x) xs
      → row_is is_gt (first xs) k ≡ ok true
  row_is-first [] k h b = refl
  row_is-first (x ∷ xs) k h b =
      let above : key_ord.cmp (key_of x) k ≡ gt = key_ord.cmp_lt _ _ b.0 in
      let found : row_cmp_key {E = PageError} x k ≡ ok gt =
        rw (sym above) (row_cmp_key-HasKey x (key_of x) k h.0.keyed) in
      rw found

  module _ (id other_id : PageId) (lsn other_lsn : Option ℕ) (xs : List Row)
      (next prev other_next other_prev : Option PageId) where
    abbrev here : List Row → Page
    here rs = leaf_page id lsn rs next prev

    abbrev there : List Row → Page
    there rs = leaf_page other_id other_lsn rs other_next other_prev

    -- Between two valid leaves that are linked and in order, where the right one has two rows at
    -- least and the left one has room for the first of them, `leaf_borrow_from_right` moves that
    -- row to the end of the left leaf and promotes the right leaf's new first key; both leaves
    -- are valid, and all keys on the left are below the promoted one.
    pub leaf_borrow_from_right_moves :
        (y z : Row) (rest : List Row)
        → IsValid (here xs)
        → IsValid (there (y ∷ z ∷ rest))
        → page_id_eq? next (some other_id) ≡ true
        → AllBelow xs (y ∷ z ∷ rest)
        → has_room (here xs) (leaf_entry_size y) ≡ true
        → (leaf_borrow_from_right (here xs) (there (y ∷ z ∷ rest))
            ≡ ok (key_of z, here (xs ++ (y ∷ [])), there (z ∷ rest)))
          × IsValid (here (xs ++ (y ∷ [])))
          × IsValid (there (z ∷ rest))
          × All (λ x. key_of x ≺ key_of z) (xs ++ (y ∷ []))
    unfolding leaf_borrow_from_right
    leaf_borrow_from_right_moves y z rest h g linked below room =
        let before = All-heads (λ a b. key_of a ≺ key_of b) xs (z ∷ rest) y below in
        let mine : IsValid (here (xs ++ (y ∷ []))) = record {
          fits = ground (arith, h.fits, sum_by-append leaf_entry_size xs (y ∷ []));
          sound = (
            All-append IsEntry xs (y ∷ []) h.sound.0 (g.sound.0.0, tt),
            append-IsAscending key_of xs (y ∷ []) h.sound.1 (tt, tt)
                (All-imp (λ x p. (p, tt)) xs before),
          );
        } in
        let other : IsValid (there (z ∷ rest)) = record {
          fits = omega (arith, g.fits);
          sound = (g.sound.0.1, g.sound.1.1);
        } in
        let many : ltb (length (y ∷ z ∷ rest)) 2 ≡ false = ground arith in
        (
          rw (
            linked,
            stored_key-IsEntry y g.sound.0.0,
            row_is-last xs (key_of y) h.sound.0 before,
            many,
            room,
            stored_key-IsEntry z g.sound.0.1.0,
            debug_check-IsValid _ mine,
            debug_check-IsValid _ other,
            leaf_borrow_from_right,
          ),
          mine,
          other,
          All-append (λ x. key_of x ≺ key_of z) xs (y ∷ [])
              (All-imp (λ x p. key_ord.cmp_trans (key_of x) (key_of y) (key_of z) p g.sound.1.0.0)
                xs before)
              (g.sound.1.0.0, tt),
        )

    -- Between two valid leaves that are linked and in order, where the left one has two rows at
    -- least and the right one has room for the last of them, `leaf_borrow_from_left` moves that
    -- row to the front of the right leaf and promotes its key; both leaves are valid, and all
    -- keys on the left are below the promoted one.
    pub leaf_borrow_from_left_moves :
        (w y : Row) (rest : List Row)
        → IsValid (here xs)
        → IsValid (there (rest ++ (w ∷ y ∷ [])))
        → page_id_eq? prev (some other_id) ≡ true
        → AllBelow (rest ++ (w ∷ y ∷ [])) xs
        → has_room (here xs) (leaf_entry_size y) ≡ true
        → (leaf_borrow_from_left (here xs) (there (rest ++ (w ∷ y ∷ [])))
            ≡ ok (key_of y, here (y ∷ xs), there (rest ++ (w ∷ []))))
          × IsValid (here (y ∷ xs))
          × IsValid (there (rest ++ (w ∷ [])))
          × All (λ x. key_of x ≺ key_of y) (rest ++ (w ∷ []))
    unfolding leaf_borrow_from_left
    leaf_borrow_from_left_moves w y rest h g linked below room =
        let entries = All-append_right IsEntry rest (w ∷ y ∷ []) g.sound.0 in
        let firsts = All-append_left IsEntry rest (w ∷ y ∷ []) g.sound.0 in
        let (a, b, across) = append-IsAscending_inv key_of rest (w ∷ y ∷ []) g.sound.1 in
        let last_row =
          All-append_right (λ r. All (λ x. key_of r ≺ key_of x) xs) rest (w ∷ y ∷ []) below in
        let mine : IsValid (here (y ∷ xs)) = record {
          fits = ground (arith, h.fits);
          sound = ((entries.1.0, h.sound.0), (last_row.1.0, h.sound.1));
        } in
        let other : IsValid (there (rest ++ (w ∷ []))) = record {
          fits = omega (
            arith,
            g.fits,
            sum_by-append leaf_entry_size rest (w ∷ []),
            sum_by-append leaf_entry_size rest (w ∷ y ∷ []),
          );
          sound = (
            All-append IsEntry rest (w ∷ []) firsts (entries.0, tt),
            append-IsAscending key_of rest (w ∷ []) a (tt, tt)
                (All-imp (λ x p. (p.0, tt)) rest across),
          );
        } in
        let many : ltb (length (rest ++ (w ∷ y ∷ []))) 2 ≡ false = two_or_more rest w y in
        (
          rw (
            linked,
            last-snoc rest w y,
            stored_key-IsEntry y entries.1.0,
            row_is-first xs (key_of y) h.sound.0 last_row.1.0,
            many,
            room,
            but_last-snoc rest w y,
            debug_check-IsValid _ mine,
            debug_check-IsValid _ other,
            leaf_borrow_from_left,
          ),
          mine,
          other,
          All-append (λ x. key_of x ≺ key_of y) rest (w ∷ []) (All-imp (λ x p. p.1.0) rest across)
              (b.0.0, tt),
        )
      where
        two_or_more : (rs : List Row) (w y : Row) → ltb (length (rs ++ (w ∷ y ∷ []))) 2 ≡ false
        two_or_more [] w y = refl
        two_or_more (r ∷ []) w y = refl
        two_or_more (r ∷ s ∷ rs) w y = ground arith

        last-snoc : (rs : List Row) (w y : Row) → last (rs ++ (w ∷ y ∷ [])) ≡ some y
        last-snoc [] w y = refl
        last-snoc (r ∷ []) w y = refl
        last-snoc (r ∷ s ∷ rs) w y = last-snoc (s ∷ rs) w y

        but_last-snoc : (rs : List Row) (w y : Row) → but_last (rs ++ (w ∷ y ∷ [])) ≡ rs ++ (w ∷ [])
        but_last-snoc [] w y = refl
        but_last-snoc (r ∷ []) w y = refl
        but_last-snoc (r ∷ s ∷ rs) w y = ap (λ l. r ∷ l) (but_last-snoc (s ∷ rs) w y)
