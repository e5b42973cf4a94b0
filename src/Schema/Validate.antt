-- ===== src/Schema/Validate.antt =====
-- `Schema::validate_row` of src/schema/mod.rs, and `ValidatedRow`.
use rust_db.Common.{
  ℕ, ◌+◌, ◌≤◌, ◌≡◌, ◌⊎◌, refl, ltb, ◌==◌, if◌then◌else◌, Bool, true, false, not, List, [], ◌∷◌,
  Outcome, ok, err, panic, ◌>>=◌, ◌>>◌, require, length, none, some, bind-ok_inv, arith,
}
use rust_db.Layout.{max_leaf_entry_size, max_internal_entry_size, max_field_len}
use rust_db.Schema.Values.{VarInt, RowValue, ColumnType, column_type}
use rust_db.Schema.Values.Codec.{IsStorable}
use rust_db.Schema.Key.{Key, key_of_value}
use rust_db.Schema.Row.{Row, HasKey, fields_key, key_of, leaf_entry_size, internal_entry_size}
use rust_db.Schema.Columns.{
  Column, Schema, SchemaError, type_mismatch, column_count_mismatch, null_value_in_non_null_col,
  row_too_long, key_too_long, field_too_long, invalid_key,
}

-- The derived `==` on column types.
abbrev pub type_eq : ColumnType → ColumnType → Bool
type_eq ColumnType.integer ColumnType.integer = true
type_eq ColumnType.float ColumnType.float = true
type_eq ColumnType.string ColumnType.string = true
type_eq ColumnType.bool ColumnType.bool = true
type_eq _ _ = false

-- `if let RowValue::String(s) = value && s.len() > MAX_FIELD_LEN`.
check_length : RowValue → Outcome SchemaError (Unit {0})
check_length (RowValue.string s) =
    require (not (ltb max_field_len (length s))) (field_too_long (length s))
check_length _ = ok tt

-- The body of the loop over the columns and their values.
check_value : ℕ → Column → RowValue → Outcome SchemaError (Unit {0})
unfolding check_length
check_value i col value = elim (column_type value) [
  | some c ↦ if type_eq c col.col_type then check_length value else err (type_mismatch i)
  | none ↦ if col.nullable then ok tt else err (null_value_in_non_null_col i)
]

check_values : ℕ → List Column → List RowValue → Outcome SchemaError (Unit {0})
unfolding check_value
check_values i [] values = ok tt
check_values i (c ∷ cs) [] = ok tt
check_values i (c ∷ cs) (x ∷ xs) = check_value i c x >> check_values (i + 1) cs xs

-- `match Key::try_from(&row.fields[0])`: indexing no field at all is a panic.
first_key : List RowValue → Outcome SchemaError Key
first_key [] = panic
first_key (x ∷ xs) = elim (key_of_value x) [ ok k ↦ ok k | err e ↦ err invalid_key | panic ↦ panic ]

module _ ⦃v : VarInt⦄ where
  -- A `ValidatedRow` is the row that passed.
  unfoldable pub validate_row : Schema → Row → Outcome SchemaError Row
  unfolding check_values first_key
  validate_row s row = do
    require (length s.columns == length row.fields) column_count_mismatch
    require (not (ltb max_leaf_entry_size (leaf_entry_size row)))
        (row_too_long (leaf_entry_size row))
    key ← first_key row.fields
    require (not (ltb max_internal_entry_size (internal_entry_size key)))
        (key_too_long (internal_entry_size key))
    check_values 0 s.columns row.fields
    ok row

  -- What the pages rely on: the row has a key, and both fit their limits.
  pub record IsEntry (r : Row) : Type 0 where
    pub keyed : HasKey r (key_of r)
    pub row_fits : leaf_entry_size r ≤ max_leaf_entry_size
    pub key_fits : internal_entry_size (key_of r) ≤ max_internal_entry_size

-- A value that a column takes: of its type, and a text not too long, or a null that is allowed.
abbrev pub Conforms : Column → RowValue → Type 0
Conforms col x =
    ((column_type x ≡ some col.col_type) × IsStorable x)
    ⊎ ((x ≡ RowValue.null) × (col.nullable ≡ true))

abbrev pub ConformAll : List Column → List RowValue → Type 0
ConformAll [] [] = Unit
ConformAll [] (x ∷ xs) = ⊥
ConformAll (c ∷ cs) [] = ⊥
ConformAll (c ∷ cs) (x ∷ xs) = Conforms c x × ConformAll cs xs

type_eq→eq : (a b : ColumnType) → type_eq a b ≡ true → a ≡ b
type_eq→eq a b h = ground arith

type_eq_self : (a : ColumnType) → type_eq a a ≡ true
type_eq_self a = ground arith

check_value-Conforms :
    (i : ℕ) (c : Column) (x : RowValue) → check_value i c x ≡ ok tt → Conforms c x
unfolding check_value
check_value-Conforms i c (RowValue.integer n) e =
    ground (arith, type_eq→eq ColumnType.integer c.col_type)
check_value-Conforms i c (RowValue.float n) e =
    ground (arith, type_eq→eq ColumnType.float c.col_type)
check_value-Conforms i c (RowValue.string n) e =
    ground (arith, type_eq→eq ColumnType.string c.col_type)
check_value-Conforms i c (RowValue.boolean n) e =
    ground (arith, type_eq→eq ColumnType.bool c.col_type)
check_value-Conforms i c RowValue.null e = ground arith

Conforms-check_value :
    (i : ℕ) (c : Column) (x : RowValue) → Conforms c x → check_value i c x ≡ ok tt
unfolding check_value
Conforms-check_value i c (RowValue.integer n) e = ground (arith, type_eq_self c.col_type)
Conforms-check_value i c (RowValue.float n) e = ground (arith, type_eq_self c.col_type)
Conforms-check_value i c (RowValue.string n) e = ground (arith, type_eq_self c.col_type)
Conforms-check_value i c (RowValue.boolean n) e = ground (arith, type_eq_self c.col_type)
Conforms-check_value i c RowValue.null e = ground arith

check_values-ConformAll :
    (i : ℕ) (cs : List Column) (xs : List RowValue)
    → length cs ≡ length xs
    → check_values i cs xs ≡ ok tt
    → ConformAll cs xs
unfolding check_values
check_values-ConformAll i [] [] n e = tt
check_values-ConformAll i [] (x ∷ xs) n e = absurd (omega arith)
check_values-ConformAll i (c ∷ cs) [] n e = absurd (omega arith)
check_values-ConformAll i (c ∷ cs) (x ∷ xs) n e =
    let (u, q, p) = bind-ok_inv (λ _. check_values (i + 1) cs xs) tt (check_value i c x) e in
    (check_value-Conforms i c x p, check_values-ConformAll (i + 1) cs xs (omega arith) q)

ConformAll-check_values :
    (i : ℕ) (cs : List Column) (xs : List RowValue)
    → ConformAll cs xs
    → (length cs ≡ length xs) × (check_values i cs xs ≡ ok tt)
unfolding check_values
ConformAll-check_values i [] [] h = (refl, refl)
ConformAll-check_values i [] (x ∷ xs) h = absurd h
ConformAll-check_values i (c ∷ cs) [] h = absurd h
ConformAll-check_values i (c ∷ cs) (x ∷ xs) h =
    let (n, e) = ConformAll-check_values (i + 1) cs xs h.1 in
    (omega arith, rw (Conforms-check_value i c x h.0) e)

HasKey-first_key :
    (xs : List RowValue) (k : Key) → fields_key xs ≡ some (ok k) → first_key xs ≡ ok k
unfolding first_key fields_key
HasKey-first_key [] k e = cc
HasKey-first_key (x ∷ xs) k e = ground arith

module _ ⦃v : VarInt⦄ where
  -- What each check has established.
  validate_row_checks :
      (s : Schema) (r r' : Row)
      → validate_row s r ≡ ok r'
      → (length s.columns ≡ length r.fields)
        × (leaf_entry_size r ≤ max_leaf_entry_size)
        × HasKey r (key_of r)
        × (internal_entry_size (key_of r) ≤ max_internal_entry_size)
        × (check_values 0 s.columns r.fields ≡ ok tt)
        × (r' ≡ r)
  unfolding validate_row key_of fields_key
  validate_row_checks s r r' e = ground arith

  -- A row that `validate_row` returns is the one it was given, each of its values conforms to its
  -- column, it has a key, and the row and the key are within the size limits of their pages.
  pub validate_row_sound :
      (s : Schema) (r r' : Row)
      → validate_row s r ≡ ok r'
      → (r' ≡ r) × ConformAll s.columns r.fields × IsEntry r
  validate_row_sound s r r' e =
      let (n, size, keyed, room, checked, same) = validate_row_checks s r r' e in
      (
        same,
        check_values-ConformAll 0 s.columns r.fields n checked,
        record { keyed = keyed; row_fits = size; key_fits = room },
      )

  -- A row is accepted by `validate_row` and returned as it is where each of its values conforms
  -- to its column, it has a key, and the row and the key are within the size limits of their
  -- pages.
  pub validate_row_complete :
      (s : Schema) (r : Row) → ConformAll s.columns r.fields → IsEntry r → validate_row s r ≡ ok r
  unfolding validate_row
  validate_row_complete s r c h =
      let (n, e) = ConformAll-check_values 0 s.columns r.fields c in
      let p : (length s.columns == length r.fields) ≡ true = ground arith in
      let q : ltb max_leaf_entry_size (leaf_entry_size r) ≡ false = ground (arith, h.row_fits) in
      let t : ltb max_internal_entry_size (internal_entry_size (key_of r)) ≡ false =
        ground (arith, h.key_fits) in
      rw (p, q, HasKey-first_key r.fields (key_of r) h.keyed, t, e)
