-- ===== src/Page/Leaf/Append.antt =====
-- `leaf_insert` of a row whose key is above all the others: the row goes to the end.
use rust_db.Common.{
  ℕ, ◌≡◌, refl, ap, true, List, [], ◌∷◌, ◌++◌, ok, insert_at, length, All, All-append_right, Option,
  subst,
}
use rust_db.Common.Order.{Ord, ◌≺◌}
use rust_db.Common.Search.{absent, shift, scan}
use rust_db.Common.Sorted.{IsAscending, against}
use rust_db.Types.{PageId}
use rust_db.Schema.Values.{VarInt}
use rust_db.Schema.Key.{key_ord}
use rust_db.Schema.Row.{Row, key_of}
use rust_db.Schema.Validate.{IsEntry}
use rust_db.Page.Invariants.{IsValid}
use rust_db.Page.Leaf.{can_insert, leaf_insert}
use rust_db.Page.Leaf.Search.{leaf_page}
use rust_db.Page.Leaf.Update.{insert_at-IsValid, insert_absent}

module _ {K A : Type 0} ⦃o : Ord K⦄ (key : A → K) where
  pub ascending_before :
      (xs ys : List A) (y : A) → IsAscending key (xs ++ (y ∷ ys)) → All (λ x. key x ≺ key y) xs
  ascending_before [] ys y h = tt
  ascending_before (x ∷ xs) ys y h =
      ((All-append_right (λ z. key x ≺ key z) xs (y ∷ ys) h.0).0, ascending_before xs ys y h.1)

  pub IsAscending-after : (xs ys : List A) → IsAscending key (xs ++ ys) → IsAscending key ys
  IsAscending-after [] ys h = h
  IsAscending-after (x ∷ xs) ys h = IsAscending-after xs ys h.1

  scan_end :
      (k : K) (xs : List A) → All (λ x. key x ≺ k) xs → scan (against key k) xs ≡ absent (length xs)
  unfolding scan
  scan_end k [] h = refl
  scan_end k (x ∷ xs) h = rw (h.0, scan) (ap shift (scan_end k xs h.1))

insert_end : {A : Type 0} (xs : List A) (x : A) → insert_at xs (length xs) x ≡ xs ++ (x ∷ [])
insert_end [] x = refl
insert_end (y ∷ xs) x = ap (λ l. y ∷ l) (insert_end xs x)

module _ ⦃v : VarInt⦄ where
  -- On a valid leaf with room, a row above all others goes to the end, and the leaf stays valid.
  pub leaf_insert-append :
      (id : PageId) (lsn : Option ℕ) (records : List Row) (next prev : Option PageId) (r : Row)
      → IsValid (leaf_page id lsn records next prev)
      → IsEntry r
      → can_insert (leaf_page id lsn records next prev) r ≡ true
      → All (λ x. key_of x ≺ key_of r) records
      → (leaf_insert (leaf_page id lsn records next prev) r
          ≡ ok (leaf_page id lsn (records ++ (r ∷ [])) next prev))
        × IsValid (leaf_page id lsn (records ++ (r ∷ [])) next prev)
  leaf_insert-append id lsn records next prev r h e room below =
      let at = scan_end key_of (key_of r) records below in
      let valid = insert_at-IsValid id lsn records next prev r (length records) h e room at in
      let done = insert_absent id lsn records next prev r (length records) h e at room valid in
      subst
        (λ rs.
          (leaf_insert (leaf_page id lsn records next prev) r ≡ ok (leaf_page id lsn rs next prev))
          × IsValid (leaf_page id lsn rs next prev))
        (insert_end records r) (done, valid)
