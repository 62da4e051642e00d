-- ===== src/Lru.antt =====
-- src/lru_cache.c and include/lru_cache.h.
pub mod State
pub mod Links
pub mod Layout
pub mod Ops
pub mod Table
pub mod Spec
pub mod Invariant
pub mod Steps
pub mod Get
pub mod Evict
pub mod Tail
pub mod Gone
pub mod Put
pub mod Create
pub mod Destroy
pub mod Race
