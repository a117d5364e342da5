-- ===== src/Tests/FilesTests.antt =====
-- A write of a file whose disk fills up half-way.
use agy_swap.Prelude.{String, true, false, some}
use agy_swap.Prelude.Map
use agy_swap.Prelude.Map.{Map}
use agy_swap.Files.Atomic.{Answers}

abbrev full_disk : Answers
full_disk = record {
  windows = false;
  can_mkdir = true;
  can_create = true;
  can_chmod_tmp = true;
  part = some "ne";
  can_sync = true;
  can_close = true;
  can_replace = true;
  can_chmod = true;
  can_remove = true;
}

abbrev old_files : Map String
old_files = Map.insert "accounts.json" "old" Map.empty
