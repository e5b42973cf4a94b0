-- ===== src/Tests.antt =====
-- Runs at concrete inputs, and the parameter `VarInt` with a function in its place.
pub mod Leb128
pub mod Samples
pub mod Leaves
pub mod Internals
pub mod Metas
pub mod Choices
pub mod Encodings
pub mod Trees
pub mod Pools
pub mod Tables
pub mod Buffers
