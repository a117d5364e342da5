-- ===== src/Files/Atomic/Refined.antt =====
-- internal/store/atomic.go: `AtomicWrite` is the one step that the other parts take it for.
use agy_swap.Prelude.{String, Bool, not, ◌&&◌, ◌||◌, Option, some, if◌then◌else◌, ◌==◌, is_some}
use agy_swap.Prelude.Map
use agy_swap.Prelude.Map.{Map}
use agy_swap.Files.{WriteOutcome, written, not_replaced, replaced_then_failed}
use agy_swap.Files.Atomic.{Answers}

-- Everything up to the rename has worked.
abbrev pub is_replaced : Answers → Bool
is_replaced f =
    f.can_mkdir
    && f.can_create
    && (f.windows || f.can_chmod_tmp)
    && not (is_some f.part)
    && f.can_sync
    && f.can_close
    && f.can_replace

abbrev pub outcome : Answers → WriteOutcome
outcome f =
    if is_replaced f
    then (if f.windows || f.can_chmod then written else replaced_then_failed)
    else not_replaced

-- What a file holds after a write that has, or has not, replaced the file at `path`.
abbrev placed : Bool → String → String → String → Map String → Option String
placed done path content q m = if done && path == q then some content else Map.get q m
