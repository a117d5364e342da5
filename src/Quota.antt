-- ===== src/Quota.antt =====
-- Quota: pools, the schedule of reads, the back-off and the memory of the quota service.
pub mod Pools
pub mod Schedule
pub mod Service
pub mod Onboard
pub mod Saved
pub mod Fetch
pub mod Summary
pub mod Refresh
