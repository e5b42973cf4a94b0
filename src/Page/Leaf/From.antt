-- ===== src/Page/Leaf/From.antt =====
-- `leaf_records_from` on a valid leaf.
use rust_db.Common.{
  ℕ, ◌≡◌, true, false, List, ok, ◌++◌, take, drop, take-append-drop, All, All-imp, Option,
}
use rust_db.Common.Search.{binary_search_by-scan}
use rust_db.Common.Sorted.LowerBound.{is_below, side_of, side_of-IsPartitioned, scan-side_of}
use rust_db.Types.{PageId}
use rust_db.PageError.{PageError}
use rust_db.Schema.Values.{VarInt}
use rust_db.Schema.Key.{Key, key_ord}
use rust_db.Schema.Row.{Row, key_of, row_cmp_key-HasKey}
use rust_db.Schema.Validate.{IsEntry}
use rust_db.Page.Invariants.{IsValid}
use rust_db.Page.Leaf.{below_or_above, leaf_records_from}
use rust_db.Page.Leaf.Search.{leaf_page}

module _ ⦃v : VarInt⦄ where
  below_or_above-IsEntry :
      (k : Key) (r : Row) → IsEntry r → below_or_above k r ≡ ok (side_of key_of k r)
  below_or_above-IsEntry k r h = rw (row_cmp_key-HasKey {E = PageError} r (key_of r) k h.keyed)

  -- On a valid leaf `leaf_records_from` returns the rows in order but for a front part: the keys
  -- of that part are below the given key, and the keys of the returned rows are not.
  pub leaf_records_from-is_below :
      (id : PageId) (lsn : Option ℕ) (records : List Row) (next prev : Option PageId) (k : Key)
      → IsValid (leaf_page id lsn records next prev)
      → (front rest : List Row) × (leaf_records_from (leaf_page id lsn records next prev) k
          ≡ ok rest)
        × (front ++ rest ≡ records)
        × All (λ r. is_below key_of k r ≡ true) front
        × All (λ r. is_below key_of k r ≡ false) rest
  unfolding leaf_records_from
  leaf_records_from-is_below id lsn records next prev k h =
      let (i, at, low, high) = scan-side_of key_of k records h.sound.1 in
      let searched =
        binary_search_by-scan (below_or_above k) (side_of key_of k) records
          (All-imp (below_or_above-IsEntry k) records h.sound.0)
          (side_of-IsPartitioned key_of k records h.sound.1) in
      (take i records, drop i records, rw (searched, at), take-append-drop i records, low, high)
