-- ===== src/Store.antt =====
-- The store of package store: the data of a name's generations, and the operations on it.
pub mod GenId
pub mod Quota
pub mod Generation
pub mod State
pub mod Gate
pub mod Medium
pub mod Resolve
pub mod Reclaim
pub mod Reaper
pub mod Create
pub mod Writer
pub mod Open
pub mod Manage
pub mod Accounting
pub mod Invariant
pub mod Spares
pub mod Outcomes
pub mod Recovery
pub mod Restore
pub mod Record
pub mod Restored
pub mod Disk
pub mod Scan
pub mod History
pub mod Ages
pub mod Delivery
