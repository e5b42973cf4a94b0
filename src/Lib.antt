-- ===== src/Lib.antt =====
-- The paged storage of rust-db: the types that are stored on disk, schemas and rows, and the pages
-- of a B+tree with all their operations, the tree, the tables and the buffer pool.
--
-- The program keeps each table in a file of 4096-byte pages. Rows are validated against a schema
-- (src/schema), stored in leaf pages in the order of their keys, and found through internal pages
-- (src/page). A meta page heads the table and its list of free pages. The B+tree (src/btree) goes
-- down from the root that the meta page names, and asks its table (src/table) for pages; tree and
-- table reach all pages through the buffer pool (src/bpm), which keeps some of them in frames and
-- asks a policy for a frame to evict.
--
-- Files:
--   Common          shared names; lists over native numbers, i64, three-way orders, the result of
--                   a fallible operation, the standard library's binary search, maps as ascending
--                   lists, cutting by weight, big-endian bytes; Actions and Triples: calls on
--                   shared state, and what they end in
--   Types           src/types and src/traits.rs: PageId, SlotEntry, Lsn, PageLsn, Serializable
--   Layout          the constants of src/page/mod.rs and src/schema/mod.rs
--   Schema          src/schema: Values (RowValue), Key, Row, Columns (Column and Schema), Validate
--   PageError       src/page/error.rs
--   Page            src/page/mod.rs: the page and its sizes; Invariants (invariants.rs), Leaf
--                   (leaf.rs), Internal (internal.rs), Meta (meta.rs), Split and Dispatch (mod.rs),
--                   Codec (codec.rs, and the slots of mod.rs)
--   Bpm             src/bpm: Frames, Swept, Clock and Policy (frame.rs, eviction.rs), Codec; State and
--                   Manager (manager.rs, guards.rs), with Consistent, Preserved, Claim, Fetch and
--                   Flush on their invariant; Pool: what the tree and the tables ask of the pool (error.rs);
--                   View and Instance: the pool as that
--   Table           src/table/mod.rs: the meta page and the pages of the free list; Space, Rows,
--                   Pack and Vacuum
--   Btree           src/btree: Sibling (sibling.rs), Tree, Insert, Delete and Range (tree.rs). Under
--                   Tree: Shape (the trees that a store holds), Focus, Same, Way and Above (a leaf
--                   of a tree, the way to it and the guards above it), Store, Get;
--                   Insert/Outcome and Delete/Outcome
--   Tests           concrete pages, trees, pools and buffers, and a varint, a checksum and a disk that
--                   take the places of the parameters
--
-- Correspondence. A Rust struct is a record and an enum a data type. A method that takes `&mut
-- self` returns the page as it leaves it; where it returns an error it has not written, with one
-- exception: `split_page` has cut a leaf's rows when it finds that the promoted row has no key,
-- which no valid leaf has. Where an index past the end of the children of an internal page is a
-- panic in Rust, the page has too few children, and the debug assertion that follows here is the
-- panic. The type Outcome has three cases: `ok`, `err` with the error, and `panic` for an unwrap,
-- an index out of range and a failed debug assertion. The debug assertions of
-- src/page/invariants.rs are those of a debug build, so each result that is `ok` says that none
-- failed.
-- Numbers are native natural numbers; where a machine width matters it is written out (the page
-- count is a u32, and its overflow a panic). A String is the list of its UTF-8 bytes, checked as
-- `from_utf8` does; an f64 is its bit pattern.
-- `binary_search_by` is that of the standard library, with its halving loop on fuel that is the
-- length of the slice: the length halves in each round, and with that fuel the loop ends. Each
-- loop of the clock runs as many rounds as there are frames, as in the source.
--
-- A call on shared state is a function from the state to an outcome and the state that it leaves,
-- after an error too (Common/Actions). One thread runs it, and no call of another thread comes
-- between: a guard is the page as it was fetched or last written, a change through it is written at
-- once, and a latch is always free. A loop that goes down a tree has fuel, the height plus one is
-- enough, and so has the loop that fetches the root again while its id changes, where one round is
-- enough; running out of fuel is a `panic`. The scan of the leaves has fuel of its own. The bulk
-- borrow runs as many rounds as the donor has items, the accounting of pages as many as the page
-- count, and the vacuum as many levels as there are leaves.
-- The tree and the tables use the pool through the record Pool, whose laws are stated on the pages in
-- the frames of a pool that is ready, which is to say consistent and with counters that can count:
-- such a page can be fetched, a fetch of it changes no page, a write changes one. Bpm/Instance fills
-- the record with the pool's own model (Bpm/Manager). There the guard of a fetch is dropped once its
-- page was read, which only unpins the frame, and a write goes through the guard of the frame that
-- has the page. The laws say nothing of a page that is not in a frame, whose fetch can end for lack
-- of a frame or by an error of the disk. The pool's model has the policy, the disk and the two
-- functions of a page's codec as records, of which Bpm/Policy and Bpm/Codec have instances; its page
-- table is an association list.
--
-- A policy runs on frames that no other thread changes meanwhile: a guard that is dropped
-- during a sweep, which unpins its frame, is not interleaved with it.
--
-- Not modelled: the crate integer_encoding is the parameter VarInt, with its documented round trip
-- as hypotheses. The crate crc32_light is the parameter Crc32, whose checksum is a u32.
-- Left out are the latches and what threads do to each other, the text forms of rows and printing in
-- src/table, files (src/disk) and the shell (src/bin).
pub mod Common
pub mod Types
pub mod Layout
pub mod Schema
pub mod PageError
pub mod Page
pub mod Bpm
pub mod Table
pub mod Btree
pub mod Tests
