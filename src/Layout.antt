-- ===== src/Layout.antt =====
-- The constants of src/page/mod.rs and src/schema/mod.rs that fix the layout of a page.
use rust_db.Common.{ℕ, ◌+◌, ◌-◌, ◌*◌, ◌/◌, ◌≤◌, arith}
use rust_db.Types.{slot_entry_size, page_id_size}

abbrev pub page_size : ℕ
page_size = 4096

-- The tags of the four page types.
abbrev pub leaf_tag : ℕ
leaf_tag = 1

abbrev pub internal_tag : ℕ
internal_tag = 2

abbrev pub meta_tag : ℕ
meta_tag = 3

abbrev pub free_tag : ℕ
free_tag = 4

abbrev pub max_leaf_header_size : ℕ
max_leaf_header_size = 41

abbrev pub max_internal_header_size : ℕ
max_internal_header_size = 23

abbrev pub checksum_offset : ℕ
checksum_offset = 17

abbrev pub max_leaf_entry_size : ℕ
max_leaf_entry_size = (page_size - max_leaf_header_size) / 4

abbrev pub max_internal_entry_size : ℕ
max_internal_entry_size = (page_size - max_internal_header_size - page_id_size) / 4

abbrev pub min_key_encoded_size : ℕ
min_key_encoded_size = 2

abbrev pub min_row_encoded_size : ℕ
min_row_encoded_size = 1 + min_key_encoded_size

abbrev pub min_leaf_header_size : ℕ
min_leaf_header_size = max_leaf_header_size - 2 * page_id_size

abbrev pub leaf_usable : ℕ
leaf_usable = page_size - max_leaf_header_size

abbrev pub internal_usable : ℕ
internal_usable = page_size - max_internal_header_size - page_id_size

abbrev pub leaf_underfull_bytes : ℕ
leaf_underfull_bytes = leaf_usable / 2

abbrev pub internal_underfull_bytes : ℕ
internal_underfull_bytes = (internal_usable - max_internal_entry_size) / 2

abbrev pub max_leaf_items : ℕ
max_leaf_items = (page_size - min_leaf_header_size) / (slot_entry_size + min_row_encoded_size)

abbrev pub max_internal_items : ℕ
max_internal_items =
    (page_size - max_internal_header_size - page_id_size)
    / (slot_entry_size + page_id_size + min_key_encoded_size)

abbrev pub max_field_len : ℕ
max_field_len = max_leaf_entry_size - 1 - 2

abbrev pub max_num_fields : ℕ
max_num_fields = 255

-- The four compile-time assertions.
layout_fits :
    (2 * leaf_underfull_bytes ≤ leaf_usable)
    × (2 * internal_underfull_bytes + max_internal_entry_size ≤ internal_usable)
    × (min_leaf_header_size + max_leaf_items * slot_entry_size ≤ page_size)
    × (max_internal_header_size
          + (max_internal_items + 1) * page_id_size
          + max_internal_items * slot_entry_size
        ≤ page_size)
layout_fits = omega arith
