-- ===== src/Page/Leaf/Search.antt =====
-- On a valid leaf the search never panics, and finds the row that the leaf holds for a key.
use rust_db.Common.{ℕ, ◌≡◌, refl, List, ok, All, All-imp, Option}
use rust_db.Common.Search.{Position, found, absent, scan, binary_search_by-scan}
use rust_db.Common.Sorted.{
  IsAscending, against, find, pick, find-scan, against-IsPartitioned, scan_bound,
}
use rust_db.Types.{PageId}
use rust_db.PageError.{PageError}
use rust_db.Schema.Values.{VarInt}
use rust_db.Schema.Key.{Key, key_ord}
use rust_db.Schema.Row.{Row, key_of, row_cmp_key, row_cmp_key-HasKey}
use rust_db.Schema.Validate.{IsEntry}
use rust_db.Page.{Page, leaf}
use rust_db.Page.Invariants.{IsValid}
use rust_db.Page.Leaf.{search_records, stored_key, fetch, leaf_get}

-- The map that a page's records stand for.
abbrev pub lookup : Key → List Row → Option Row
lookup k records = find key_of k records

-- A leaf page with the given parts.
abbrev pub leaf_page : PageId → Option ℕ → List Row → Option PageId → Option PageId → Page
leaf_page id lsn records next prev = record {
  page_id = id;
  last_update = lsn;
  body = leaf records next prev;
}

module _ ⦃v : VarInt⦄ where
  rows_compare :
      (k : Key) (records : List Row)
      → All IsEntry records
      → All (λ r. row_cmp_key {E = PageError} r k ≡ ok (against key_of k r)) records
  rows_compare k records h = All-imp (λ r e. row_cmp_key-HasKey r (key_of r) k e.keyed) records h

  pub search_records-scan :
      (k : Key) (records : List Row)
      → All IsEntry records
      → IsAscending key_of records
      → search_records k records ≡ ok (scan (against key_of k) records)
  search_records-scan k records h a =
      binary_search_by-scan (λ r. row_cmp_key r k) (against key_of k) records
        (rows_compare k records h) (against-IsPartitioned key_of k records a)

  pub stored_key-IsEntry : (r : Row) → IsEntry r → stored_key r ≡ ok (key_of r)
  stored_key-IsEntry r h = rw (h.keyed, stored_key)

  -- On a valid leaf `leaf_get` returns what the leaf's map from keys to rows holds for the key.
  pub leaf_get-lookup :
      (id : PageId) (lsn : Option ℕ) (records : List Row) (next prev : Option PageId) (k : Key)
      → IsValid (leaf_page id lsn records next prev)
      → leaf_get (leaf_page id lsn records next prev) k ≡ ok (lookup k records)
  unfolding leaf_get
  leaf_get-lookup id lsn records next prev k h =
      rw (search_records-scan k records h.sound.0 h.sound.1, find-scan key_of k records h.sound.1)
        (taken (scan (against key_of k) records) refl)
    where
      taken :
          (at : Position)
          → scan (against key_of k) records ≡ at
          → fetch records at ≡ ok (pick key_of at records)
      taken (absent i) e = refl
      taken (found i) e = let (r, here) = scan_bound key_of k records i e in rw here
