-- ===== src/Base.antt =====
-- The headers under include/base: data structures that the other components build on.
pub mod Bitop
pub mod Queue
pub mod Dlist
pub mod BiasList
