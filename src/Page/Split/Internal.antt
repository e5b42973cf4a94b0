-- ===== src/Page/Split/Internal.antt =====
-- `split_page` on a valid internal page: the middle separator goes up, and the pages on both sides
-- of it are valid, with room for any separator.
use rust_db.Common.{
  ℕ, suc, ◌+◌, ◌-◌, ◌/◌, ◌≤◌, ◌≡◌, ◌⊎◌, inl, inr, refl, sym, ltb, false, List, [], ◌∷◌, ◌++◌, ok,
  err, length, All, All-heads, drop-cons, drop_suc, All-take, All-drop, take, drop,
  take-append-drop, length-drop, length-take-le, Option, none, some, arith, subst,
}
use rust_db.Common.Halves.{clamp, reach, cut_bounds}
use rust_db.Common.Order.{◌≺◌}
use rust_db.Common.Sorted.{IsAscending}
use rust_db.Common.Sorted.Update.{append-IsAscending_inv}
use rust_db.Types.{PageId}
use rust_db.PageError.{too_small_to_split}
use rust_db.Layout.{page_size, max_internal_entry_size}
use rust_db.Schema.Values.{VarInt}
use rust_db.Schema.Key.{Key, key_ord}
use rust_db.Schema.Row.{internal_entry_size}
use rust_db.Page.{Page, used_size, keys_size}
use rust_db.Page.Invariants.{IsValid}
use rust_db.Page.Invariants.Decides.{debug_check-IsValid}
use rust_db.Page.Internal.Route.{internal_page}
use rust_db.Page.Split.{split_internal, split_body, split_page}

module _ ⦃v : VarInt⦄ (id : PageId) (lsn : Option ℕ) (new_id : PageId)
    (children : List PageId) where
  -- A valid page with room for the largest separator.
  abbrev HasRoom : Page → Type 0
  HasRoom p = IsValid p × (used_size p.body + max_internal_entry_size ≤ page_size)

  pub record IsCut (ks left : List Key) (sep : Key) (right : List Key) (cl cr : List PageId)
      : Type 0 where
    pub together : left ++ (sep ∷ right) ≡ ks
    pub children_together : cl ++ cr ≡ children
    pub left_some : 1 ≤ length left
    pub right_some : 1 ≤ length right
    pub left_valid : HasRoom (internal_page id lsn left cl)
    pub right_valid : HasRoom (internal_page new_id none right cr)
    pub below : All (λ k. k ≺ sep) left
    pub above : All (λ k. sep ≺ k) right

  -- What a cut of a valid page within the bounds gives.
  take-drop-IsCut :
      (k : ℕ) (ks : List Key) (s : Key) (rs : List Key)
      → IsValid (internal_page id lsn ks children)
      → drop k ks ≡ s ∷ rs
      → 1 ≤ k
      → k + 2 ≤ length ks
      → keys_size (take k ks) ≤ 3048
      → keys_size rs ≤ 3048
      → IsCut ks (take k ks) s rs (take (k + 1) children) (drop (k + 1) children)
  take-drop-IsCut k ks s rs h e one inside small_left small_right =
      let joined : take k ks ++ (s ∷ rs) ≡ ks = rw (sym e) (take-append-drop k ks) in
      let ordered : IsAscending (λ x. x) (take k ks ++ (s ∷ rs)) =
        subst (λ l. IsAscending (λ x. x) l) (sym joined) h.sound.2 in
      let (a, b, across) = append-IsAscending_inv (λ x. x) (take k ks) (s ∷ rs) ordered in
      let small : All (λ x. internal_entry_size x ≤ max_internal_entry_size) (s ∷ rs) =
        subst (λ l. All (λ x. internal_entry_size x ≤ max_internal_entry_size) l) e
          (All-drop (λ x. internal_entry_size x ≤ max_internal_entry_size) k ks h.sound.1) in
      let rest : suc (length rs) ≡ length ks - k =
        subst (λ l. length l ≡ length ks - k) e (length-drop k ks) in
      let count = h.sound.0 in
      let many = length-drop (k + 1) children in
      let few = length-take-le (k + 1) children (omega arith) in
      let front = length-take-le k ks (omega arith) in
      record {
        together = joined;
        children_together = take-append-drop (k + 1) children;
        left_some = omega arith;
        right_some = omega arith;
        left_valid = (
          record {
            fits = omega arith;
            sound = (
              omega arith,
              All-take (λ x. internal_entry_size x ≤ max_internal_entry_size) k ks h.sound.1,
              a,
            );
          },
          omega arith,
        );
        right_valid =
            (record { fits = omega arith; sound = (omega arith, small.1, b.1) }, omega arith);
        below = All-heads (λ r t. r ≺ t) (take k ks) rs s across;
        above = b.0;
      }

  split_three :
      (x : Key) (xs : List Key)
      → IsValid (internal_page id lsn (x ∷ xs) children)
      → 2 ≤ length xs
      → (left : List Key) × (s : Key) × (right : List Key) × (cl : List PageId) × (cr : List PageId)
        × (split_page (internal_page id lsn (x ∷ xs) children) new_id
            ≡ ok (s, internal_page id lsn left cl, internal_page new_id none right cr))
        × IsCut (x ∷ xs) left s right cl cr
  unfolding split_page split_body split_internal
  split_three x xs h two =
      let (p, at, bounds) =
        cut_bounds internal_entry_size max_internal_entry_size 1 x xs two h.sound.1 in
      let (one, inside, l, r) = bounds in
      let k = clamp 1 (length (x ∷ xs) - 2) (p + 1) in
      let (s, rs, e) = drop-cons k (x ∷ xs) (omega arith) in
      let right : keys_size (drop (k + 1) (x ∷ xs)) ≤ 3048 = elim r [
        | inl a ↦ omega arith
        | inr a ↦ omega (arith, h.fits)
      ] in
      let cut =
        take-drop-IsCut k (x ∷ xs) s rs h e one inside (omega (arith, h.fits))
          (subst (λ n. keys_size n ≤ 3048) (drop_suc k (x ∷ xs) s rs e) right) in
      (
        take k (x ∷ xs),
        s,
        rs,
        take (k + 1) children,
        drop (k + 1) children,
        run p at s rs e cut,
        cut,
      )
    where
      run :
          (p : ℕ)
          → reach internal_entry_size 0 (keys_size (x ∷ xs) / 2) (x ∷ xs) ≡ some p
          → (s : Key) → (rs : List Key)
          → let k = clamp 1 (length (x ∷ xs) - 2) (p + 1) in
            drop k (x ∷ xs) ≡ s ∷ rs
            → IsCut (x ∷ xs) (take k (x ∷ xs)) s rs (take (k + 1) children) (drop (k + 1) children)
            → split_page (internal_page id lsn (x ∷ xs) children) new_id
              ≡ ok (
                s,
                internal_page id lsn (take k (x ∷ xs)) (take (k + 1) children),
                internal_page new_id none rs (drop (k + 1) children),
              )
      run p at s rs e cut =
          let many : ltb (length (x ∷ xs)) 3 ≡ false = ground arith in
          rw (
            many,
            at,
            e,
            debug_check-IsValid _ cut.left_valid.0,
            debug_check-IsValid _ cut.right_valid.0,
            split_internal,
            split_page,
            split_body,
          )

  -- The page has fewer than three separators, which is reported; or it is cut.
  abbrev pub SplitCases : List Key → Type 0
  SplitCases ks =
      ((length ks ≤ 2)
        × (split_page (internal_page id lsn ks children) new_id ≡ err (too_small_to_split id)))
      ⊎ ((left : List Key) × (s : Key) × (right : List Key) × (cl : List PageId) × (cr : List
            PageId)
          × (split_page (internal_page id lsn ks children) new_id
              ≡ ok (s, internal_page id lsn left cl, internal_page new_id none right cr))
          × IsCut ks left s right cl cr)

  -- On a valid internal page `split_page` reports a page of fewer than three separators as too
  -- small; else the separators are, in order, those of the page, the promoted one and those of
  -- the new page, the children are divided in order, neither page is without separators, both
  -- pages are valid and have room for a separator of the largest size, and the promoted separator
  -- is above the left ones and below the right ones.
  pub split_page_internal-SplitCases :
      (ks : List Key) → IsValid (internal_page id lsn ks children) → SplitCases ks
  unfolding split_page split_body split_internal
  split_page_internal-SplitCases [] h = inl (omega arith, refl)
  split_page_internal-SplitCases (x ∷ []) h = inl (omega arith, refl)
  split_page_internal-SplitCases (x ∷ y ∷ []) h = inl (omega arith, refl)
  split_page_internal-SplitCases (x ∷ y ∷ z ∷ xs) h =
      inr (split_three x (y ∷ z ∷ xs) h (omega arith))
