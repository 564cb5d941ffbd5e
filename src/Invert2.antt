-- ===== src/Invert2.antt =====
-- The inverted table of invert_table/.
pub mod Node
pub mod Maps
pub mod Table
pub mod Build
pub mod Distinct
pub mod Persist
pub mod Answers
pub mod Create
pub mod Reload
pub mod ZTable
pub mod Creator
