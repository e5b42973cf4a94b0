-- ===== src/Page.antt =====
-- src/page/mod.rs: the page in memory, and what it measures.
pub mod Invariants
pub mod Leaf
pub mod Internal
pub mod Split
pub mod Meta
pub mod Dispatch
pub mod Codec
use rust_db.Common.{
  ℕ, ◌+◌, ◌-◌, ◌≡◌, ltb, leb, if◌then◌else◌, Bool, true, false, ◌&&◌, List, [], Outcome, ok, err,
  length, sum_by, Option, none, some, arith,
}
use rust_db.Types.{Bytes, PageId, page_id_size}
use rust_db.PageError.{PageError, stale_lsn_update}
use rust_db.Layout.{
  page_size, leaf_tag, internal_tag, meta_tag, free_tag, max_leaf_header_size,
  max_internal_header_size, max_leaf_entry_size, max_internal_entry_size, leaf_underfull_bytes,
  internal_underfull_bytes,
}
use rust_db.Schema.Values.{VarInt, text_size}
use rust_db.Schema.Key.{Key}
use rust_db.Schema.Row.{Row, leaf_entry_size, internal_entry_size}
use rust_db.Schema.Columns.{Schema, schema_size}

pub data PageBody : Type 0 where
  leaf : List Row → Option PageId → Option PageId → PageBody
  internal : List Key → List PageId → PageBody
  meta : PageId → ℕ → Option PageId → Schema → Bytes → PageBody
  free : Option PageId → PageBody

pub record Page : Type 0 where
  pub page_id : PageId
  pub last_update : Option ℕ
  pub body : PageBody

-- `Page::set_lsn`.
unfoldable pub set_lsn : Page → ℕ → Outcome PageError Page
set_lsn p new_lsn = elim p.last_update [
  | some old ↦
      if ltb new_lsn old
      then err (stale_lsn_update old new_lsn)
      else ok (record p { last_update = some new_lsn })
  | none ↦ ok (record p { last_update = some new_lsn })
]

abbrev pub make_free : Page → Page
make_free p = record p { body = free none }

abbrev pub body_is_leaf : PageBody → Bool
body_is_leaf (leaf records next prev) = true
body_is_leaf (internal keys children) = false
body_is_leaf (meta root_id page_count head schema name) = false
body_is_leaf (free next) = false

abbrev pub body_is_internal : PageBody → Bool
body_is_internal (internal keys children) = true
body_is_internal (leaf records next prev) = false
body_is_internal (meta root_id page_count head schema name) = false
body_is_internal (free next) = false

abbrev pub body_is_meta : PageBody → Bool
body_is_meta (meta root_id page_count head schema name) = true
body_is_meta (leaf records next prev) = false
body_is_meta (internal keys children) = false
body_is_meta (free next) = false

abbrev pub body_is_free : PageBody → Bool
body_is_free (free next) = true
body_is_free (leaf records next prev) = false
body_is_free (internal keys children) = false
body_is_free (meta root_id page_count head schema name) = false

-- `Page::is_leaf`, `is_internal`, `is_meta` and `is_free`.
abbrev pub is_leaf : Page → Bool
is_leaf p = body_is_leaf p.body

abbrev pub is_internal : Page → Bool
is_internal p = body_is_internal p.body

abbrev pub is_meta : Page → Bool
is_meta p = body_is_meta p.body

abbrev pub is_free : Page → Bool
is_free p = body_is_free p.body

abbrev pub empty_page : PageId → PageBody → Page
empty_page id body = record { page_id = id; last_update = none; body = body }

-- `Page::empty_leaf` of src/page/leaf.rs.
abbrev pub empty_leaf : PageId → Page
empty_leaf id = empty_page id (leaf [] none none)

body_tag : PageBody → ℕ
body_tag (internal keys children) = internal_tag
body_tag (leaf records next prev) = leaf_tag
body_tag (meta root_id page_count head schema name) = meta_tag
body_tag (free next) = free_tag

unfoldable pub page_type_tag : Page → ℕ
unfolding body_tag
page_type_tag p = body_tag p.body

body_items : PageBody → ℕ
body_items (leaf records next prev) = length records
body_items (internal keys children) = length keys
body_items (meta root_id page_count head schema name) = 0
body_items (free next) = 0

unfoldable pub num_items : Page → ℕ
unfolding body_items
num_items p = body_items p.body

-- `Page::records`, `keys` and `children`: an iterator, or `None` for another kind of page.
abbrev pub body_records : PageBody → Option (List Row)
body_records (leaf records next prev) = some records
body_records (internal keys children) = none
body_records (meta root_id page_count head schema name) = none
body_records (free next) = none

abbrev pub body_keys : PageBody → Option (List Key)
body_keys (internal keys children) = some keys
body_keys (leaf records next prev) = none
body_keys (meta root_id page_count head schema name) = none
body_keys (free next) = none

abbrev pub body_children : PageBody → Option (List PageId)
body_children (internal keys children) = some children
body_children (leaf records next prev) = none
body_children (meta root_id page_count head schema name) = none
body_children (free next) = none

-- `checked_sub`.
abbrev pub checked_sub : ℕ → ℕ → Option ℕ
checked_sub a b = if leb b a then some (a - b) else none

abbrev pub is_some_and : {A : Type 0} → Option A → (A → Bool) → Bool
is_some_and none f = false
is_some_and (some a) f = f a

module _ ⦃v : VarInt⦄ where
  abbrev pub keys_size : List Key → ℕ
  keys_size = sum_by internal_entry_size

  abbrev pub records_size : List Row → ℕ
  records_size = sum_by leaf_entry_size

  -- The header that is reserved, and the content.
  abbrev pub used_size : PageBody → ℕ
  used_size (leaf records next prev) = max_leaf_header_size + records_size records
  used_size (internal keys children) = max_internal_header_size + (keys_size keys + page_id_size)
  used_size (free next) = max_internal_header_size + (1 + page_id_size)
  used_size (meta root_id page_count head schema name) =
      max_internal_header_size
      + (page_id_size + 4 + (1 + page_id_size) + schema_size schema + text_size name)

  abbrev pub free_space : Page → Option ℕ
  free_space p = checked_sub page_size (used_size p.body)

  abbrev pub body_entries_size : PageBody → ℕ
  body_entries_size (internal keys children) = keys_size keys
  body_entries_size (leaf records next prev) = records_size records
  body_entries_size (meta root_id page_count head schema name) = 0
  body_entries_size (free next) = 0

  abbrev pub entries_size : Page → ℕ
  entries_size p = body_entries_size p.body

  body_is_underfull : PageBody → Bool
  body_is_underfull (leaf records next prev) = ltb (records_size records) leaf_underfull_bytes
  body_is_underfull (internal keys children) = ltb (keys_size keys) internal_underfull_bytes
  body_is_underfull (meta root_id page_count head schema name) = false
  body_is_underfull (free next) = false

  unfoldable pub is_underfull : Page → Bool
  unfolding body_is_underfull
  is_underfull p = body_is_underfull p.body

  body_is_delete_safe : Option ℕ → PageBody → Bool
  body_is_delete_safe space (internal keys children) =
      is_some_and space (λ f. leb max_internal_entry_size f)
      && leb (internal_underfull_bytes + max_internal_entry_size) (keys_size keys)
  body_is_delete_safe space (leaf records next prev) =
      leb (leaf_underfull_bytes + max_leaf_entry_size) (records_size records)
  body_is_delete_safe space (meta root_id page_count head schema name) = false
  body_is_delete_safe space (free next) = false

  unfoldable pub is_delete_safe : Page → Bool
  unfolding body_is_delete_safe
  is_delete_safe p = body_is_delete_safe (free_space p) p.body
