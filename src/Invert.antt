-- ===== src/Invert.antt =====
-- The inverted table of invert/.
pub mod Node
pub mod Sort
pub mod Disk
pub mod Table
pub mod Groups
pub mod Build
pub mod Lookup
pub mod Create
pub mod Persist
pub mod Answers
pub mod Distinct
pub mod Reload
pub mod Creator
