-- ===== src/Lru/Put.antt =====
-- `lru_cache_put` against the specification.
mod Parts
mod Branches
mod Refines
mod Failed
pub use Parts.{Grants}
pub use Refines.{put-refines, put_no_room}
pub use Failed.{put_failed-get}
