-- ===== src/Files/Atomic.antt =====
-- internal/store/atomic.go: `AtomicWrite`, step by step, over the texts of the files. Renaming a file is one step of
-- the operating system, as rename(2) promises; everything else can fail, and a write can stop half-way.
pub mod Refined
use agy_swap.Prelude.{String, Bool, true, false, not, ◌&&◌, ◌||◌, Option, none, some, if◌then◌else◌}
use agy_swap.Prelude.Map
use agy_swap.Prelude.Map.{Map}

-- What the operating system answers during one call. `part` is what a write that fails has written.
pub record Answers : Type 0 where
  pub windows : Bool
  pub can_mkdir : Bool
  pub can_create : Bool
  pub can_chmod_tmp : Bool
  pub part : Option String
  pub can_sync : Bool
  pub can_close : Bool
  pub can_replace : Bool
  pub can_chmod : Bool
  pub can_remove : Bool

-- os.Remove(tmpName), which is deferred: after the rename there is nothing to remove.
remove_tmp : Answers → String → Map String → Map String
remove_tmp f tmp files = if f.can_remove then Map.erase tmp files else files

-- ReplaceFile, and what comes after it. Nothing looks at a failure of the Sync of the directory.
replace : Answers → String → String → String → Map String → Bool × Map String
replace f tmp path content files =
    if not f.can_replace
    then (false, files)
    else (f.windows || f.can_chmod, Map.insert path content (Map.erase tmp files))

-- tmp.Write, tmp.Sync and tmp.Close
fill : Answers → Option String → String → String → String → Map String → Bool × Map String
unfolding replace
fill f (some part) tmp path content files = (false, Map.insert tmp part files)
fill f none tmp path content files =
    let filled : Map String = Map.insert tmp content files in
    if not f.can_sync || not f.can_close then (false, filled) else replace f tmp path content filled

after_create : Answers → String → String → String → Map String → Bool × Map String
unfolding fill
after_create f tmp path content files =
    if not f.windows && not f.can_chmod_tmp
    then (false, files)
    else fill f f.part tmp path content files

-- `tmp` is the name that os.CreateTemp gives.
unfoldable pub atomic_write : Answers → String → String → String → Map String → Bool × Map String
unfolding after_create remove_tmp
atomic_write f tmp path content files =
    let (done, files') = after_create f tmp path content (Map.insert tmp "" files) in
    if not f.can_mkdir || not f.can_create then (false, files) else (done, remove_tmp f tmp files')
