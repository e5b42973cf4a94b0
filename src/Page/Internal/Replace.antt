-- ===== src/Page/Internal/Replace.antt =====
-- `internal_replace_key` on a valid internal page.
use rust_db.Common.{
  ℕ, ◌≤◌, ◌≡◌, ◌⊎◌, inl, inr, refl, Bool, true, false, ◌&&◌, List, ok, err, Option, none, some,
  get_elem?, get_bound, set, Bool-cases, arith,
}
use rust_db.Common.Search.{Position, found, absent, scan}
use rust_db.Common.Sorted.{against, find, find-scan}
use rust_db.Layout.{max_internal_entry_size}
use rust_db.Types.{PageId}
use rust_db.PageError.{page_full, missing_key, key_not_in_order}
use rust_db.Schema.Values.{VarInt}
use rust_db.Schema.Key.{Key, key_ord}
use rust_db.Schema.Row.{internal_entry_size}
use rust_db.Page.{Page}
use rust_db.Page.Invariants.{IsValid}
use rust_db.Page.Invariants.Decides.{debug_check-IsValid}
use rust_db.Page.Internal.{search_keys, replacement_fits, internal_replace_key}
use rust_db.Page.Internal.Route.{internal_page, itself, search_keys-scan}
use rust_db.Page.Internal.Update.{found_key}
use rust_db.Page.Internal.Neighbours.{
  FitsBetween, FitsBetween-left, FitsBetween-of, FitsBetween-right, left_side, length-set,
  right_side, set-All, set-IsAscending, sum_by-set,
}

module _ ⦃v : VarInt⦄ (id : PageId) (lsn : Option ℕ) (ks : List Key) (children : List PageId)
    (old new : Key) where
  abbrev holding : List Key → Page
  holding rs = internal_page id lsn rs children

  -- The old separator is not there; or the new one does not fit between its neighbours; or the page
  -- has no room for it; or it takes the old one's place, and the page stays valid.
  abbrev pub ReplaceCases : Type 0
  ReplaceCases =
      ((find itself old ks ≡ none)
        × (internal_replace_key (holding ks) old new ≡ err (missing_key old new)))
      ⊎ ((i : ℕ) × (get_elem? ks i ≡ some old)
          × (FitsBetween ks i new → ⊥)
          × (internal_replace_key (holding ks) old new ≡ err (key_not_in_order new)))
      ⊎ ((replacement_fits (holding ks) old new ≡ false)
          × (internal_replace_key (holding ks) old new ≡ err page_full))
      ⊎ ((i : ℕ) × (get_elem? ks i ≡ some old)
          × FitsBetween ks i new
          × (internal_replace_key (holding ks) old new ≡ ok (holding (set ks i new)))
          × IsValid (holding (set ks i new)))

  set-IsValid :
      (i : ℕ)
      → IsValid (holding ks)
      → internal_entry_size new ≤ max_internal_entry_size
      → get_elem? ks i ≡ some old
      → replacement_fits (holding ks) old new ≡ true
      → FitsBetween ks i new
      → IsValid (holding (set ks i new))
  set-IsValid i h small here room between = record {
    fits = ground (arith, h.fits, sum_by-set internal_entry_size ks i old new here);
    sound = (
      omega (arith, h.sound.0, length-set ks i new),
      set-All (λ k. internal_entry_size k ≤ max_internal_entry_size) ks i new small h.sound.1,
      set-IsAscending ks i new h.sound.2 (get_bound ks i old here) between,
    );
  }

  -- On a valid internal page and a new separator within the size limit, `internal_replace_key`
  -- reports a missing key where the old separator is not there, a key out of order where the new
  -- one is not strictly between the old one's neighbours, and a full page where it does not fit;
  -- else the new separator takes the old one's place, between its neighbours, and the page is
  -- valid.
  pub internal_replace_key-ReplaceCases :
      IsValid (holding ks) → internal_entry_size new ≤ max_internal_entry_size → ReplaceCases
  unfolding internal_replace_key
  internal_replace_key-ReplaceCases h small = go (scan (against itself old) ks) refl
    where
      searched : search_keys old ks ≡ ok (scan (against itself old) ks)
      searched = search_keys-scan old ks h.sound.2

      go : (at : Position) → scan (against itself old) ks ≡ at → ReplaceCases
      go (absent i) at =
          inl (
            rw (find-scan itself old ks h.sound.2, at) refl,
            rw (searched, at, internal_replace_key),
          )
      go (found i) at =
          let here = found_key old ks i h.sound.2 at in
          let inside = get_bound ks i old here in
          let (l, left, below, low) = left_side ks i new inside in
          let (r, right, above, high) = right_side ks i new inside in
          inr (elim (Bool-cases (l && r)) [
            | inr out ↦ inl (
              i,
              here,
              λ b.
                  clash out (low (FitsBetween-left ks i new b))
                    (high (FitsBetween-right ks i new b)),
              rw (searched, at, left, right, out, internal_replace_key),
            )
            | inl in_order ↦ inr (elim (Bool-cases (replacement_fits (holding ks) old new)) [
              | inr full ↦
                  inl (full, rw (searched, at, left, right, in_order, full, internal_replace_key))
              | inl room ↦
                  let between =
                    FitsBetween-of ks i new inside (below (both in_order).0)
                      (above (both in_order).1) in
                  let valid = set-IsValid i h small here room between in
                  inr (
                    i,
                    here,
                    between,
                    rw (
                      searched,
                      at,
                      left,
                      right,
                      in_order,
                      room,
                      debug_check-IsValid _ valid,
                      internal_replace_key,
                    ),
                    valid,
                  )
            ])
          ])
        where
          both : {l r : Bool} → (l && r) ≡ true → (l ≡ true) × (r ≡ true)
          both e = ground arith

          clash : {l r : Bool} → (l && r) ≡ false → l ≡ true → r ≡ true → ⊥
          clash e p q = ground arith
