-- ===== src/Page/Internal/Update.antt =====
-- `internal_insert` and `internal_remove` on valid internal pages: every branch.
use rust_db.Common.{
  ℕ, ◌+◌, ◌≤◌, ◌<◌, ◌≡◌, ◌⊎◌, inl, inr, refl, ltb, true, false, List, ok, err, All-insert_at,
  All-remove_at, length-insert_at, length-remove_at, Option, none, some, get_elem?, get_within,
  get_bound, insert_at, remove_at, sum_by-insert_at, sum_by-remove_at, Bool-cases, subst, arith,
}
use rust_db.Common.Search.{Position, found, absent, scan}
use rust_db.Common.Sorted.{IsAscending, against, find, find-scan, find_key, scan_bound}
use rust_db.Common.Sorted.Route.{route, IsRouted, route-IsRouted}
use rust_db.Common.Sorted.Update.{insert_at-IsAscending, remove_at-IsAscending}
use rust_db.Layout.{max_internal_entry_size}
use rust_db.Types.{PageId}
use rust_db.PageError.{schema, page_full, duplicate_key}
use rust_db.Schema.Values.{VarInt}
use rust_db.Schema.Key.{Key, key_ord}
use rust_db.Schema.Row.{internal_entry_size}
use rust_db.Schema.Columns.{key_too_long}
use rust_db.Page.{Page}
use rust_db.Page.Invariants.{IsValid, debug_check}
use rust_db.Page.Invariants.Decides.{debug_check-IsValid}
use rust_db.Page.Internal.{has_space, search_keys, internal_insert, internal_remove}
use rust_db.Page.Internal.Route.{internal_page, itself, search_keys-scan}

-- A match is the key itself.
pub found_key :
    (k : Key) (ks : List Key) (i : ℕ)
    → IsAscending itself ks
    → scan (against itself k) ks ≡ found i
    → get_elem? ks i ≡ some k
found_key k ks i a e =
    let (x, here) = scan_bound itself k ks i e in
    let held : find itself k ks ≡ some x = rw (find-scan itself k ks a, e) here in
    subst (λ y. get_elem? ks i ≡ some y) (find_key itself k ks x held) here

module _ ⦃v : VarInt⦄ (id : PageId) (lsn : Option ℕ) (ks : List Key) (children : List PageId) where
  -- The page that the section is about, with other entries.
  abbrev holding : List Key → List PageId → Page
  holding = internal_page id lsn

  insert_at-IsValid :
      (s : Key) (c : PageId) (i : ℕ)
      → IsValid (holding ks children)
      → internal_entry_size s ≤ max_internal_entry_size
      → has_space (holding ks children) (internal_entry_size s) ≡ true
      → scan (against itself s) ks ≡ absent i
      → IsValid (holding (insert_at ks i s) (insert_at children (i + 1) c))
  insert_at-IsValid s c i h small room at = record {
    fits = ground (arith, h.fits, sum_by-insert_at internal_entry_size ks i s);
    sound = (
      omega (arith, h.sound.0, length-insert_at children (i + 1) c, length-insert_at ks i s),
      All-insert_at (λ k. internal_entry_size k ≤ max_internal_entry_size) ks i s small h.sound.1,
      insert_at-IsAscending itself s ks i h.sound.2 at,
    );
  }

  -- What `internal_insert` does with a separator: it is too large; or there already; or it does not
  -- fit; or it goes where the search routes to, its child on its right, and the page stays valid.
  abbrev pub InsertCases : Key → PageId → Type 0
  InsertCases s c =
      ((max_internal_entry_size < internal_entry_size s)
        × (internal_insert (holding ks children) s c
            ≡ err (schema (key_too_long (internal_entry_size s)))))
      ⊎ ((find itself s ks ≡ some s)
          × (internal_insert (holding ks children) s c ≡ err duplicate_key))
      ⊎ ((has_space (holding ks children) (internal_entry_size s) ≡ false)
          × (internal_insert (holding ks children) s c ≡ err page_full))
      ⊎ ((i : ℕ) × (find itself s ks ≡ none)
          × IsRouted itself s ks i
          × (internal_insert (holding ks children) s c
              ≡ ok (holding (insert_at ks i s) (insert_at children (i + 1) c)))
          × IsValid (holding (insert_at ks i s) (insert_at children (i + 1) c)))

  -- On a valid internal page `internal_insert` reports a separator above the size limit, or one
  -- that the page holds, or one that does not fit; else it inserts the separator where the search
  -- routes it, with the child on its right, and the page is valid.
  pub internal_insert-InsertCases :
      (s : Key) (c : PageId) → IsValid (holding ks children) → InsertCases s c
  unfolding internal_insert
  internal_insert-InsertCases s c h =
      elim (Bool-cases (ltb max_internal_entry_size (internal_entry_size s))) [
        | inl large ↦ inl (ground arith, rw (large, internal_insert))
        | inr small ↦ inr (go small (scan (against itself s) ks) refl)
      ]
    where
      searched : search_keys s ks ≡ ok (scan (against itself s) ks)
      searched = search_keys-scan s ks h.sound.2

      go :
          ltb max_internal_entry_size (internal_entry_size s) ≡ false
          → (at : Position) → scan (against itself s) ks ≡ at
          → ((find itself s ks ≡ some s)
              × (internal_insert (holding ks children) s c ≡ err duplicate_key))
            ⊎ ((has_space (holding ks children) (internal_entry_size s) ≡ false)
                × (internal_insert (holding ks children) s c ≡ err page_full))
            ⊎ ((i : ℕ) × (find itself s ks ≡ none)
                × IsRouted itself s ks i
                × (internal_insert (holding ks children) s c
                    ≡ ok (holding (insert_at ks i s) (insert_at children (i + 1) c)))
                × IsValid (holding (insert_at ks i s) (insert_at children (i + 1) c)))
      go small (found i) at = inl (
        rw (find-scan itself s ks h.sound.2, at) (found_key s ks i h.sound.2 at),
        rw (small, searched, at, internal_insert),
      )
      go small (absent i) at =
          elim (Bool-cases (has_space (holding ks children) (internal_entry_size s))) [
            | inr full ↦ inr (inl (full, rw (small, searched, at, full, internal_insert)))
            | inl room ↦
                let valid = insert_at-IsValid s c i h (ground arith) room at in
                inr (
                  inr (
                    i,
                    rw (find-scan itself s ks h.sound.2, at) refl,
                    subst (λ p. IsRouted itself s ks (route p)) at
                        (route-IsRouted itself s ks h.sound.2),
                    rw (small, searched, at, room, debug_check-IsValid _ valid, internal_insert),
                    valid,
                  ))
          ]

  remove_at-IsValid :
      (i : ℕ) (k : Key)
      → IsValid (holding ks children)
      → get_elem? ks i ≡ some k
      → IsValid (holding (remove_at ks i) (remove_at children (i + 1)))
  remove_at-IsValid i k h here =
      let inside = get_bound ks i k here in
      record {
        fits = omega (arith, h.fits, sum_by-remove_at internal_entry_size ks i k here);
        sound = (
          omega (
            arith,
            h.sound.0,
            length-remove_at children (i + 1) (omega (arith, h.sound.0)),
            length-remove_at ks i inside,
          ),
          All-remove_at (λ x. internal_entry_size x ≤ max_internal_entry_size) ks i h.sound.1,
          remove_at-IsAscending itself ks i h.sound.2,
        );
      }

  -- `internal_remove` takes out a separator and the child on its right, and leaves a valid page;
  -- where the separator is not there nothing changes.
  abbrev pub RemoveCases : Key → Type 0
  RemoveCases k =
      ((i : ℕ) × (c : PageId) × (get_elem? ks i ≡ some k)
        × (get_elem? children (i + 1) ≡ some c)
        × (internal_remove (holding ks children) k
            ≡ ok (some (k, c), holding (remove_at ks i) (remove_at children (i + 1))))
        × IsValid (holding (remove_at ks i) (remove_at children (i + 1))))
      ⊎ ((find itself k ks ≡ none)
          × (internal_remove (holding ks children) k ≡ ok (none, holding ks children)))

  -- On a valid internal page `internal_remove` takes out the separator and the child on its right
  -- and leaves a valid page; where the separator is not there it returns nothing and the page as
  -- it was.
  pub internal_remove-RemoveCases : (k : Key) → IsValid (holding ks children) → RemoveCases k
  unfolding internal_remove
  internal_remove-RemoveCases k h = go (scan (against itself k) ks) refl
    where
      searched : search_keys k ks ≡ ok (scan (against itself k) ks)
      searched = search_keys-scan k ks h.sound.2

      checked : debug_check (holding ks children) ≡ ok tt
      checked = debug_check-IsValid (holding ks children) h

      go : (at : Position) → scan (against itself k) ks ≡ at → RemoveCases k
      go (absent i) at = inr (
        rw (find-scan itself k ks h.sound.2, at) refl,
        rw (checked, searched, at, checked, internal_remove),
      )
      go (found i) at =
          let here = found_key k ks i h.sound.2 at in
          let (c, child) =
            get_within children (i + 1) (omega (arith, h.sound.0, get_bound ks i k here)) in
          let valid = remove_at-IsValid i k h here in
          inl (
            i,
            c,
            here,
            child,
            rw (checked, searched, at, here, child, debug_check-IsValid _ valid, internal_remove),
            valid,
          )
