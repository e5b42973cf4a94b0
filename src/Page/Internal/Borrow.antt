-- ===== src/Page/Internal/Borrow.antt =====
-- `internal_borrow_from_right` and `internal_borrow_from_left`: a rotation through the separator.
use rust_db.Common.{
  ℕ, ◌≤◌, ◌≡◌, refl, ap, true, false, List, [], ◌∷◌, ◌++◌, ok, length-append, All, All-imp,
  All-append, All-append_left, All-last, All-heads, Option, some, first, last, but_last,
  last_exists, sum_by-append, arith,
}
use rust_db.Common.Order.{◌≺◌, is_le, is_ge}
use rust_db.Common.Sorted.Update.{append-IsAscending, append-IsAscending_inv}
use rust_db.Layout.{max_internal_entry_size}
use rust_db.Types.{PageId}
use rust_db.Schema.Values.{VarInt}
use rust_db.Schema.Key.{Key, key_ord}
use rust_db.Schema.Row.{internal_entry_size}
use rust_db.Page.{Page}
use rust_db.Page.Invariants.{IsValid}
use rust_db.Page.Invariants.Decides.{debug_check-IsValid}
use rust_db.Page.Internal.{key_is, has_space, internal_borrow_from_right, internal_borrow_from_left}
use rust_db.Page.Internal.Route.{internal_page, itself}

last_not_ge : (s : Key) (ks : List Key) → All (λ k. k ≺ s) ks → key_is is_ge (last ks) s ≡ false
last_not_ge s [] h = refl
last_not_ge s (k ∷ ks) h =
    let (z, e) = last_exists k ks in
    let below : z ≺ s = All-last (λ x. x ≺ s) (k ∷ ks) z h e in rw (e, below)

first_not_le : (s : Key) (ks : List Key) → All (λ k. s ≺ k) ks → key_is is_le (first ks) s ≡ false
first_not_le s [] h = refl
first_not_le s (k ∷ ks) h = rw (key_ord.cmp_lt s k h.0)

last-snoc : {A : Type 0} → (xs : List A) (z : A) → last (xs ++ (z ∷ [])) ≡ some z
last-snoc [] z = refl
last-snoc (x ∷ []) z = refl
last-snoc (x ∷ y ∷ xs) z = last-snoc (y ∷ xs) z

but_last-snoc : {A : Type 0} → (xs : List A) (z : A) → but_last (xs ++ (z ∷ [])) ≡ xs
but_last-snoc [] z = refl
but_last-snoc (x ∷ []) z = refl
but_last-snoc (x ∷ y ∷ xs) z = ap (λ l. x ∷ l) (but_last-snoc (y ∷ xs) z)

module _ ⦃v : VarInt⦄ where
  module _ (id other_id : PageId) (lsn other_lsn : Option ℕ) (xs : List Key) (cs : List PageId)
      (s : Key) where
    abbrev here : List Key → List PageId → Page
    here = internal_page id lsn

    abbrev there : List Key → List PageId → Page
    there = internal_page other_id other_lsn

    -- Between two valid internal pages with a separator that is within the size limit, above the
    -- left separators and below the right ones, and fits in the left page,
    -- `internal_borrow_from_right` moves the separator and the right page's first child to the
    -- end of the left page and promotes the right page's first separator; both pages are valid,
    -- and the promoted separator is above the left ones and below the right ones.
    pub internal_borrow_from_right_moves :
        (k : Key) (ys : List Key) (c : PageId) (ds : List PageId)
        → IsValid (here xs cs)
        → IsValid (there (k ∷ ys) (c ∷ ds))
        → internal_entry_size s ≤ max_internal_entry_size
        → All (λ x. x ≺ s) xs
        → s ≺ k
        → has_space (here xs cs) (internal_entry_size s) ≡ true
        → (internal_borrow_from_right (here xs cs) (there (k ∷ ys) (c ∷ ds)) s
            ≡ ok (k, here (xs ++ (s ∷ [])) (cs ++ (c ∷ [])), there ys ds))
          × IsValid (here (xs ++ (s ∷ [])) (cs ++ (c ∷ [])))
          × IsValid (there ys ds)
          × All (λ x. x ≺ k) (xs ++ (s ∷ []))
          × All (λ y. k ≺ y) ys
    unfolding internal_borrow_from_right
    internal_borrow_from_right_moves k ys c ds h g small below above room =
        let mine : IsValid (here (xs ++ (s ∷ [])) (cs ++ (c ∷ []))) = record {
          fits = ground (arith, h.fits, sum_by-append internal_entry_size xs (s ∷ []));
          sound = (
            omega (arith, h.sound.0, length-append cs (c ∷ []), length-append xs (s ∷ [])),
            All-append (λ x. internal_entry_size x ≤ max_internal_entry_size) xs (s ∷ []) h.sound.1
                (small, tt),
            append-IsAscending itself xs (s ∷ []) h.sound.2 (tt, tt)
                (All-imp (λ x p. (p, tt)) xs below),
          );
        } in
        let other : IsValid (there ys ds) = record {
          fits = omega (arith, g.fits);
          sound = (omega (arith, g.sound.0), g.sound.1.1, g.sound.2.1);
        } in
        (
          rw (
            last_not_ge s xs below,
            key_ord.cmp_lt s k above,
            room,
            debug_check-IsValid _ mine,
            debug_check-IsValid _ other,
            internal_borrow_from_right,
          ),
          mine,
          other,
          All-append (λ x. x ≺ k) xs (s ∷ [])
              (All-imp (λ x p. key_ord.cmp_trans x s k p above) xs below) (above, tt),
          g.sound.2.0,
        )

    -- Between two valid internal pages with a separator that is within the size limit, below the
    -- right separators and above the left page's last one, and fits in the right page,
    -- `internal_borrow_from_left` moves the separator and the left page's last child to the front
    -- of the right page and promotes the left page's last separator; both pages are valid, and
    -- the promoted separator is above the left ones and below the right ones.
    pub internal_borrow_from_left_moves :
        (ys : List Key) (k : Key) (ds : List PageId) (c : PageId)
        → IsValid (here xs cs)
        → IsValid (there (ys ++ (k ∷ [])) (ds ++ (c ∷ [])))
        → internal_entry_size s ≤ max_internal_entry_size
        → All (λ x. s ≺ x) xs
        → k ≺ s
        → has_space (here xs cs) (internal_entry_size s) ≡ true
        → (internal_borrow_from_left (here xs cs) (there (ys ++ (k ∷ [])) (ds ++ (c ∷ []))) s
            ≡ ok (k, here (s ∷ xs) (c ∷ cs), there ys ds))
          × IsValid (here (s ∷ xs) (c ∷ cs))
          × IsValid (there ys ds)
          × All (λ x. k ≺ x) (s ∷ xs)
          × All (λ y. y ≺ k) ys
    unfolding internal_borrow_from_left
    internal_borrow_from_left_moves ys k ds c h g small above below room =
        let (a, b, across) = append-IsAscending_inv itself ys (k ∷ []) g.sound.2 in
        let mine : IsValid (here (s ∷ xs) (c ∷ cs)) = record {
          fits = ground (arith, h.fits);
          sound = (omega (arith, h.sound.0), (small, h.sound.1), (above, h.sound.2));
        } in
        let other : IsValid (there ys ds) = record {
          fits = omega (arith, g.fits, sum_by-append internal_entry_size ys (k ∷ []));
          sound = (
            omega (arith, g.sound.0, length-append ds (c ∷ []), length-append ys (k ∷ [])),
            All-append_left (λ x. internal_entry_size x ≤ max_internal_entry_size) ys (k ∷ [])
                g.sound.1,
            a,
          );
        } in
        (
          rw (
            last-snoc ys k,
            first_not_le s xs above,
            below,
            room,
            last-snoc ds c,
            but_last-snoc ys k,
            but_last-snoc ds c,
            debug_check-IsValid _ mine,
            debug_check-IsValid _ other,
            internal_borrow_from_left,
          ),
          mine,
          other,
          (below, All-imp (λ x p. key_ord.cmp_trans k s x below p) xs above),
          All-heads (λ x y. x ≺ y) ys [] k across,
        )
