-- ===== src/Market.antt =====
-- produce_consume/: a ring buffer between producers and consumers.
pub mod Ring
pub mod Threads
