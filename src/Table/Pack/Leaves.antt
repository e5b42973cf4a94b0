-- ===== src/Table/Pack/Leaves.antt =====
-- The leaves that the vacuum builds hold all the rows, in order.
use rust_db.Common.{
  ℕ, ◌+◌, ◌<◌, ◌^◌, ltb, ◌≡◌, refl, sym, true, Bool-cases, List, [], ◌∷◌, ◌++◌, length, ok, All,
  append_assoc, none, subst, inl, inr, lt, arith,
}
use rust_db.Common.Sorted.{IsAscending}
use rust_db.Types.{PageId}
use rust_db.Schema.Values.{VarInt}
use rust_db.Schema.Key.{key_ord}
use rust_db.Schema.Row.{Row, key_of}
use rust_db.Schema.Validate.{IsEntry, ConformAll, validate_row_complete}
use rust_db.Page.{Page, empty_leaf}
use rust_db.Page.Invariants.{IsValid}
use rust_db.Page.Leaf.{can_insert}
use rust_db.Page.Leaf.Search.{leaf_page}
use rust_db.Page.Leaf.Append.{ascending_before, IsAscending-after, leaf_insert-append}
use rust_db.Table.{Table}
use rust_db.Table.Pack.{get_page_id, insert_row, build_leaves}

-- The leaves with their rows, in order.
abbrev pub Holds : ⦃v : VarInt⦄ → List Page → List Row → Type 0
Holds [] rows = rows ≡ []
Holds (leaf ∷ leaves) rows =
    (records : List Row) × (others : List Row) × (rows ≡ records ++ others)
    × (leaf ≡ leaf_page leaf.page_id none records none none)
    × IsValid leaf
    × Holds leaves others

module _ ⦃v : VarInt⦄ where
  insert_row-append :
      (t : Table) (id : PageId) (records : List Row) (r : Row)
      → ConformAll t.schema.columns r.fields
      → IsEntry r
      → IsValid (leaf_page id none records none none)
      → can_insert (leaf_page id none records none none) r ≡ true
      → All (λ x. key_ord.cmp (key_of x) (key_of r) ≡ lt) records
      → (insert_row t (leaf_page id none records none none) r
          ≡ ok (leaf_page id none (records ++ (r ∷ [])) none none))
        × IsValid (leaf_page id none (records ++ (r ∷ [])) none none)
  insert_row-append t id records r c e h room below =
      let (done, valid) = leaf_insert-append id none records none none r h e room below in
      (rw (validate_row_complete t.schema r c e, done) refl, valid)

  empty_leaf-room : (id : PageId) (r : Row) → IsEntry r → can_insert (empty_leaf id) r ≡ true
  empty_leaf-room id r e = ground (arith, e.row_fits)

  pub empty_leaf-IsValid : (id : PageId) → IsValid (empty_leaf id)
  empty_leaf-IsValid id = record { fits = omega arith; sound = (tt, tt) }

  -- For rows in order that the schema accepts, after those of a valid current leaf, and page
  -- numbers that do not overflow, the vacuum's loop succeeds, and the leaves that it returns are
  -- valid and hold the rows of the current leaf and then the others, in order.
  pub build_leaves-Holds :
      (t : Table) (id : PageId) (records : List Row) (n : ℕ) (rows : List Row)
      → IsValid (leaf_page id none records none none)
      → All (λ r. ConformAll t.schema.columns r.fields) rows
      → All IsEntry rows
      → IsAscending key_of (records ++ rows)
      → n + length rows < 2 ^ 32
      → (leaves : List Page) × (last_num : ℕ) × (build_leaves t
            (leaf_page id none records none none)
            n
            rows
          ≡ ok (leaves, last_num))
        × Holds leaves (records ++ rows)
  unfolding build_leaves
  build_leaves-Holds t id records n [] valid conform entries ascending small =
      (leaf_page id none records none none ∷ [], n, refl, (records, [], refl, refl, valid, refl))
  build_leaves-Holds t id records n (row ∷ rows) valid conform entries ascending small =
      elim (Bool-cases (can_insert (leaf_page id none records none none) row)) [
        | inl room ↦
            let below = ascending_before key_of records rows row ascending in
            let (done, valid') =
              insert_row-append t id records row conform.0 entries.0 valid room below in
            let same = append_assoc records (row ∷ []) rows in
            let (leaves, last_num, built, holds) =
              build_leaves-Holds t id (records ++ (row ∷ [])) n rows valid' conform.1 entries.1
                (subst (IsAscending key_of) (sym same) ascending) (omega (arith, small)) in
            (
              leaves,
              last_num,
              rw (room, build_leaves) (rw done built),
              subst (Holds leaves) same holds,
            )
        | inr full ↦
            let fresh = get_page_id t n in
            let (done, valid') =
              insert_row-append t fresh [] row conform.0 entries.0 (empty_leaf-IsValid fresh)
                (empty_leaf-room fresh row entries.0) tt in
            let (leaves, last_num, built, holds) =
              build_leaves-Holds t fresh (row ∷ []) (n + 1) rows valid' conform.1 entries.1
                (IsAscending-after key_of records (row ∷ rows) ascending) (omega (arith, small)) in
            let counted : ltb (n + 1) (2 ^ 32) ≡ true = ground (arith, small) in
            (
              leaf_page id none records none none ∷ leaves,
              last_num,
              rw (full, build_leaves, counted) (rw done (rw built refl)),
              (records, row ∷ rows, refl, refl, valid, holds),
            )
      ]
