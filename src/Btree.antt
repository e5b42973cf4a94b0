-- ===== src/Btree.antt =====
-- src/btree: the search, the insertion, the deletion and the range scan of the tree, and the choice
-- of a sibling for a page that is underfull.
pub mod Sibling
pub mod Tree
pub mod Insert
pub mod Delete
pub mod Range
