-- ===== src/Store.antt =====
-- internal/app/store.go, and `decodeOrderedAccounts` of internal/app/model.go: what accounts.json may
-- hold, and how it is replaced.
pub mod Limits
pub mod Snapshot
pub mod Decode
pub mod Validate
pub mod Expire
pub mod Disk
pub mod Restore
