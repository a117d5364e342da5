-- ===== src/Files.antt =====
-- internal/store/atomic.go: `AtomicWrite`, which makes a temporary file and puts it in place of the old
-- one.
pub mod Atomic

-- How an AtomicWrite ends. It can fail after the file was replaced, at its last Chmod.
pub data WriteOutcome : Type 0 where
  written : WriteOutcome
  not_replaced : WriteOutcome
  replaced_then_failed : WriteOutcome
