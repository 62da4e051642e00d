-- ===== src/Tests.antt =====
-- Runs of the theorems at concrete inputs.
pub mod Disk
pub mod Memory
pub mod Partitions
mod Codec
pub mod Store
pub mod Server
mod Life
mod Requests
pub mod Numbers
pub mod Histories
mod Returns
mod Spills
mod Lasting
