-- ===== src/Page/Leaf/Update.antt =====
-- `leaf_insert` and `leaf_remove` on valid leaves: every branch, the map, and the page's rules.
use rust_db.Common.{
  ℕ, ◌+◌, ◌≡◌, ◌⊎◌, inl, inr, refl, if◌then◌else◌, true, false, List, ok, err, All-insert_at,
  All-remove_at, Option, none, some, get_elem?, insert_at, remove_at, sum_by-insert_at,
  sum_by-remove_at, Bool-cases, arith,
}
use rust_db.Common.Order.{is_eq}
use rust_db.Common.Search.{Position, found, absent, scan}
use rust_db.Common.Sorted.{against, find-scan, scan_bound}
use rust_db.Common.Sorted.Update.{
  insert_at-IsAscending, find-insert_at, remove_at-IsAscending, find-remove_at,
}
use rust_db.Types.{PageId}
use rust_db.PageError.{page_full, duplicate_key}
use rust_db.Schema.Values.{VarInt}
use rust_db.Schema.Key.{Key, key_ord}
use rust_db.Schema.Row.{Row, key_of, leaf_entry_size}
use rust_db.Schema.Validate.{IsEntry}
use rust_db.Page.{Page, records_size}
use rust_db.Page.Invariants.{IsValid}
use rust_db.Page.Invariants.Decides.{debug_check-IsValid}
use rust_db.Page.Leaf.{can_insert, leaf_insert, leaf_remove}
use rust_db.Page.Leaf.Search.{leaf_page, lookup, search_records-scan, stored_key-IsEntry}

module _ ⦃v : VarInt⦄ (id : PageId) (lsn : Option ℕ) (records : List Row)
    (next prev : Option PageId) where
  -- The page that the section is about, with other records.
  abbrev holding : List Row → Page
  holding rs = leaf_page id lsn rs next prev

  pub insert_at-IsValid :
      (r : Row) (i : ℕ)
      → IsValid (holding records)
      → IsEntry r
      → can_insert (holding records) r ≡ true
      → scan (against key_of (key_of r)) records ≡ absent i
      → IsValid (holding (insert_at records i r))
  insert_at-IsValid r i h e room at = record {
    fits = ground (arith, h.fits, sum_by-insert_at leaf_entry_size records i r);
    sound = (
      All-insert_at IsEntry records i r e h.sound.0,
      insert_at-IsAscending key_of r records i h.sound.1 at,
    );
  }

  -- What `leaf_insert` does with the row: the key is there already; or it is new and the row does
  -- not fit; or the row is added, the page stays valid, and the map is updated at its key.
  abbrev pub InsertCases : Row → Type 0
  InsertCases r =
      ((x : Row) × (lookup (key_of r) records ≡ some x)
        × (leaf_insert (holding records) r ≡ err duplicate_key))
      ⊎ ((lookup (key_of r) records ≡ none)
          × (can_insert (holding records) r ≡ false)
          × (leaf_insert (holding records) r ≡ err page_full))
      ⊎ ((rs : List Row) × (lookup (key_of r) records ≡ none)
          × (leaf_insert (holding records) r ≡ ok (holding rs))
          × IsValid (holding rs)
          × ((q : Key)
              → lookup q rs
                ≡ (if is_eq (key_ord.cmp (key_of r) q) then some r else lookup q records)))

  insert_found :
      (r : Row) (i : ℕ)
      → IsValid (holding records)
      → IsEntry r
      → scan (against key_of (key_of r)) records ≡ found i
      → leaf_insert (holding records) r ≡ err duplicate_key
  unfolding leaf_insert
  insert_found r i h e at = rw (
    stored_key-IsEntry r e,
    search_records-scan (key_of r) records h.sound.0 h.sound.1,
    at,
    leaf_insert,
  )

  insert_full :
      (r : Row) (i : ℕ)
      → IsValid (holding records)
      → IsEntry r
      → scan (against key_of (key_of r)) records ≡ absent i
      → can_insert (holding records) r ≡ false
      → leaf_insert (holding records) r ≡ err page_full
  unfolding leaf_insert
  insert_full r i h e at full = rw (
    stored_key-IsEntry r e,
    search_records-scan (key_of r) records h.sound.0 h.sound.1,
    at,
    full,
    leaf_insert,
  )

  pub insert_absent :
      (r : Row) (i : ℕ)
      → IsValid (holding records)
      → IsEntry r
      → scan (against key_of (key_of r)) records ≡ absent i
      → can_insert (holding records) r ≡ true
      → IsValid (holding (insert_at records i r))
      → leaf_insert (holding records) r ≡ ok (holding (insert_at records i r))
  unfolding leaf_insert
  insert_absent r i h e at room valid = rw (
    stored_key-IsEntry r e,
    search_records-scan (key_of r) records h.sound.0 h.sound.1,
    at,
    room,
    debug_check-IsValid (holding (insert_at records i r)) valid,
    leaf_insert,
  )

  -- On a valid leaf and a row that passed validation, `leaf_insert` does one of three things: it
  -- reports a duplicate where the leaf holds a row with that key; it reports a full page where
  -- the key is new and the row does not fit; else it returns a valid leaf, with the same id, LSN
  -- and links, whose map from keys to rows is the old one updated at the row's key.
  pub leaf_insert-InsertCases : (r : Row) → IsValid (holding records) → IsEntry r → InsertCases r
  leaf_insert-InsertCases r h e = go (scan (against key_of (key_of r)) records) refl
    where
      go : (at : Position) → scan (against key_of (key_of r)) records ≡ at → InsertCases r
      go (found i) at =
          let (x, here) = scan_bound key_of (key_of r) records i at in
          inl (
            x,
            rw (find-scan key_of (key_of r) records h.sound.1, at) here,
            insert_found r i h e at,
          )
      go (absent i) at =
          let fresh : lookup (key_of r) records ≡ none =
            rw (find-scan key_of (key_of r) records h.sound.1, at) refl in
          elim (Bool-cases (can_insert (holding records) r)) [
            | inr full ↦ inr (inl (fresh, full, insert_full r i h e at full))
            | inl room ↦
                let valid = insert_at-IsValid r i h e room at in
                inr (
                  inr (
                    insert_at records i r,
                    fresh,
                    insert_absent r i h e at room valid,
                    valid,
                    λ q. find-insert_at key_of q r records i at h.sound.1,
                  ))
          ]

  -- A row that was inserted stands at a position of the list, and it had room.
  pub leaf_insert_place :
      (r : Row) (rs : List Row)
      → IsValid (holding records)
      → IsEntry r
      → leaf_insert (holding records) r ≡ ok (holding rs)
      → (i : ℕ) × (rs ≡ insert_at records i r) × (can_insert (holding records) r ≡ true)
  leaf_insert_place r rs h e done = go (scan (against key_of (key_of r)) records) refl
    where
      go :
          (at : Position)
          → scan (against key_of (key_of r)) records ≡ at
          → (i : ℕ) × (rs ≡ insert_at records i r) × (can_insert (holding records) r ≡ true)
      go (found i) at = let refused = insert_found r i h e at in absurd (clash refused)
        where
          clash : leaf_insert (holding records) r ≡ err duplicate_key → ⊥
          clash w = cc
      go (absent i) at = elim (Bool-cases (can_insert (holding records) r)) [
        | inr full ↦ let refused = insert_full r i h e at full in absurd (clash refused)
        | inl room ↦
            let kept = insert_absent r i h e at room (insert_at-IsValid r i h e room at) in
            let same : rs ≡ insert_at records i r = cc in (i, same, room)
      ]
        where
          clash : leaf_insert (holding records) r ≡ err page_full → ⊥
          clash w = cc

  remove_at-IsValid :
      (i : ℕ) (r : Row)
      → IsValid (holding records)
      → get_elem? records i ≡ some r
      → IsValid (holding (remove_at records i))
  remove_at-IsValid i r h here = record {
    fits = omega (arith, h.fits, sum_by-remove_at leaf_entry_size records i r here);
    sound = (
      All-remove_at IsEntry records i h.sound.0,
      remove_at-IsAscending key_of records i h.sound.1,
    );
  }

  -- `leaf_remove` returns what the map held, and leaves a valid leaf: without the key where it
  -- was there, unchanged where it was not. The space of a removed row is given back.
  abbrev pub RemoveCases : Key → Type 0
  RemoveCases k =
      ((r : Row) × (rs : List Row) × (lookup k records ≡ some r)
        × (leaf_remove (holding records) k ≡ ok (some r, holding rs))
        × IsValid (holding rs)
        × (leaf_entry_size r + records_size rs ≡ records_size records)
        × ((q : Key) → lookup q rs ≡ (if is_eq (key_ord.cmp k q) then none else lookup q records)))
      ⊎ ((lookup k records ≡ none) × (leaf_remove (holding records) k ≡ ok (none, holding records)))

  remove_found :
      (k : Key) (i : ℕ) (r : Row)
      → IsValid (holding records)
      → scan (against key_of k) records ≡ found i
      → get_elem? records i ≡ some r
      → IsValid (holding (remove_at records i))
      → leaf_remove (holding records) k ≡ ok (some r, holding (remove_at records i))
  unfolding leaf_remove
  remove_found k i r h at here valid = rw (
    search_records-scan k records h.sound.0 h.sound.1,
    at,
    here,
    debug_check-IsValid (holding (remove_at records i)) valid,
    leaf_remove,
  )

  remove_absent :
      (k : Key) (i : ℕ)
      → IsValid (holding records)
      → scan (against key_of k) records ≡ absent i
      → leaf_remove (holding records) k ≡ ok (none, holding records)
  unfolding leaf_remove
  remove_absent k i h at = rw (
    search_records-scan k records h.sound.0 h.sound.1,
    at,
    debug_check-IsValid (holding records) h,
    leaf_remove,
  )

  -- On a valid leaf `leaf_remove` returns the row that the leaf's map holds for the key, and a
  -- valid leaf that is smaller by that row and whose map is the old one without the key; where
  -- the map holds nothing it returns nothing and the leaf as it was.
  pub leaf_remove-RemoveCases : (k : Key) → IsValid (holding records) → RemoveCases k
  leaf_remove-RemoveCases k h = go (scan (against key_of k) records) refl
    where
      go : (at : Position) → scan (against key_of k) records ≡ at → RemoveCases k
      go (found i) at =
          let (r, here) = scan_bound key_of k records i at in
          let valid = remove_at-IsValid i r h here in
          inl (
            r,
            remove_at records i,
            rw (find-scan key_of k records h.sound.1, at) here,
            remove_found k i r h at here valid,
            valid,
            sum_by-remove_at leaf_entry_size records i r here,
            λ q. find-remove_at key_of k q records i at h.sound.1,
          )
      go (absent i) at =
          inr (rw (find-scan key_of k records h.sound.1, at) refl, remove_absent k i h at)

  -- The rows after a removal are the old ones without one position.
  pub leaf_remove_place :
      (k : Key) (r : Row) (rs : List Row)
      → IsValid (holding records)
      → leaf_remove (holding records) k ≡ ok (some r, holding rs)
      → (i : ℕ) × (rs ≡ remove_at records i)
  leaf_remove_place k r rs h done = go (scan (against key_of k) records) refl
    where
      go :
          (at : Position)
          → scan (against key_of k) records ≡ at
          → (i : ℕ) × (rs ≡ remove_at records i)
      go (found i) at =
          let (x, here) = scan_bound key_of k records i at in
          let kept = remove_found k i x h at here (remove_at-IsValid i x h here) in
          let same : rs ≡ remove_at records i = cc in (i, same)
      go (absent i) at = let kept = remove_absent k i h at in absurd (clash kept)
        where
          clash : leaf_remove (holding records) k ≡ ok (none, holding records) → ⊥
          clash w = cc
