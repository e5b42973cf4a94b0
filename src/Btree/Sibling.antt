-- ===== src/Btree/Sibling.antt =====
-- src/btree/sibling.rs: the sibling that an underfull child merges with or borrows from.
use rust_db.Common.{
  ℕ, zero, suc, ◌+◌, ◌-◌, ◌≤◌, ◌<◌, ◌≡◌, ◌⊎◌, inl, inr, ◌==◌, false, List, length, Outcome, ok,
  ◌>>=◌, expect, Option, none, some, get_elem?, get_within, get_beyond, get_bound, Bool-cases, ltb,
  arith,
}
use rust_db.Types.{PageId}
use rust_db.PageError.{PageError}
use rust_db.Schema.Values.{VarInt}
use rust_db.Schema.Key.{Key}
use rust_db.Page.{Page}
use rust_db.Page.Invariants.{IsValid}
use rust_db.Page.Internal.{
  right_sibling, left_sibling, right_separator, left_separator, child_at, key_at,
}
use rust_db.Page.Internal.Route.{internal_page}

pub data Side : Type 0 where
  left right : Side

pub record Sibling : Type 0 where
  pub id : PageId
  pub separator : Key
  pub side : Side

-- The left sibling, where there is no right one; each `?` returns `None`.
abbrev left_choice : Page → Option ℕ → Option ℕ → Outcome PageError (Option Sibling)
left_choice parent none separator = ok none
left_choice parent (some sibling) separator = elim (child_at parent sibling) [
  | none ↦ ok none
  | some id ↦ elim separator [
    | none ↦ ok none
    | some at ↦ expect (key_at parent at) >>= λ k.
        ok (some (record { id = id; separator = k; side = left }))
  ]
]

unfoldable pub pick_sibling : Page → ℕ → Outcome PageError (Option Sibling)
pick_sibling parent idx = elim (child_at parent (right_sibling idx)) [
  | some id ↦ expect (key_at parent (right_separator idx)) >>= λ k.
      ok (some (record { id = id; separator = k; side = right }))
  | none ↦ left_choice parent (left_sibling idx) (left_separator idx)
]

module _ ⦃v : VarInt⦄ (id : PageId) (lsn : Option ℕ) (ks : List Key) (children : List PageId) where
  abbrev parent : Page
  parent = internal_page id lsn ks children

  -- The right sibling and the separator between; or, for the last child, the left one and the
  -- separator between; or none, where the child is the only one.
  abbrev pub SiblingCases : ℕ → Type 0
  SiblingCases i =
      ((c : PageId) × (k : Key) × (get_elem? children (i + 1) ≡ some c)
        × (get_elem? ks i ≡ some k)
        × (pick_sibling parent i ≡ ok (some (record { id = c; separator = k; side = right }))))
      ⊎ ((j : ℕ) × (c : PageId) × (k : Key) × (i ≡ j + 1)
          × (i + 1 ≡ length children)
          × (get_elem? children j ≡ some c)
          × (get_elem? ks j ≡ some k)
          × (pick_sibling parent i ≡ ok (some (record { id = c; separator = k; side = left }))))
      ⊎ ((length children ≡ 1) × (pick_sibling parent i ≡ ok none))

  left_chosen :
      (j : ℕ) (c : PageId) (k : Key)
      → get_elem? children j ≡ some c
      → get_elem? ks j ≡ some k
      → left_choice parent (some j) (some j)
        ≡ ok (some (record { id = c; separator = k; side = left }))
  left_chosen j c k child key = rw (child, key, left_choice)

  -- On a valid internal page and the index of a child, `pick_sibling` returns the right sibling
  -- with the separator between, or for the last child the left sibling with the separator
  -- between, and none only where the child is the only one.
  pub pick_sibling-SiblingCases : (i : ℕ) → IsValid parent → i < length children → SiblingCases i
  unfolding pick_sibling
  pick_sibling-SiblingCases i h inside = elim (Bool-cases (ltb (i + 1) (length children))) [
    | inl more ↦
        let (c, child) = get_within children (i + 1) (ground arith) in
        let (k, key) =
          get_within ks i (omega (arith, h.sound.0, get_bound children (i + 1) c child)) in
        inl (c, k, child, key, rw (child, key, pick_sibling))
    | inr final ↦ inr (last_child i inside (before final))
  ]
    where
      before : ltb (i + 1) (length children) ≡ false → length children ≤ i + 1
      before e = ground arith

      last_child :
          (i : ℕ)
          → i < length children
          → length children ≤ i + 1
          → ((j : ℕ) × (c : PageId) × (k : Key) × (i ≡ j + 1)
              × (i + 1 ≡ length children)
              × (get_elem? children j ≡ some c)
              × (get_elem? ks j ≡ some k)
              × (pick_sibling parent i ≡ ok (some (record { id = c; separator = k; side = left }))))
            ⊎ ((length children ≡ 1) × (pick_sibling parent i ≡ ok none))
      last_child zero inside final =
          inr (omega arith, rw (get_beyond children 1 (omega arith), pick_sibling))
      last_child (suc j) inside final =
          let (c, child) = get_within children j (omega arith) in
          let (k, key) = get_within ks j (omega (arith, h.sound.0)) in
          let gone = get_beyond children (suc j + 1) (omega arith) in
          let back : suc j - 1 ≡ j = omega arith in
          let more : (suc j == 0) ≡ false = ground arith in
          inl (
            j,
            c,
            k,
            omega arith,
            omega arith,
            child,
            key,
            rw (gone, more, back, pick_sibling) (left_chosen j c k child key),
          )
