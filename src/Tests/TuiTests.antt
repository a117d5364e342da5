-- ===== src/Tests/TuiTests.antt =====
-- The terminal interface.
use agy_swap.Prelude.{◌+◌, ◌-◌, ◌≤◌, String, ◌≡◌, refl, Bool, true, [], ◌∷◌, some, member, arith}
use agy_swap.Prelude.Int.{negsuc}
use agy_swap.Prelude.Map
use agy_swap.Prelude.Map.{Map, get-empty, get-insert}
use agy_swap.Value.{Account, get_field, field, text, end}
use agy_swap.Clock.{second}
use agy_swap.Accounts.{Accounts}
use agy_swap.Tui.Scroll.{
  TuiScroll, scroll_state, scroll_to, scroll_by, scroll_to_thumb, scroll_thumb,
}
use agy_swap.Tui.Scroll.Thumb.{AreInside, scroll-AreInside, scroll_thumb-inside}
use agy_swap.Tui.Sync.{due_emails}
use agy_swap.Tui.Sync.Waiting.{due_emails-waits}
use agy_swap.Tests.Library.{go}

empty-AreInside : AreInside Map.empty
unfolding scroll_state
empty-AreInside = record { at_key = λ key. ground (arith, get-empty {V = TuiScroll} key) }

scroll-AreInside_example :
    AreInside (scroll_to Map.empty "list" "ann" (some 7) 9 20 5 true).1
    × AreInside (scroll_by Map.empty "list" (negsuc 2)).1
    × AreInside (scroll_to_thumb Map.empty "list" 3)
    × ((scroll_to Map.empty "list" "ann" (some 7) 9 20 5 true).0 ≤ 20 - 5)
scroll-AreInside_example =
    scroll-AreInside Map.empty "list" "ann" (some 7) 9 20 5 3 (negsuc 2) true empty-AreInside

scroll_thumb-inside_example : let (at, size) = scroll_thumb 7 20 5 in (1 ≤ size) × (at + size ≤ 5)
scroll_thumb-inside_example = scroll_thumb-inside 7 20 5 (omega arith) (omega arith) (omega arith)

abbrev one_account : Accounts
one_account = record {
  order = "ann" ∷ [];
  by_email = Map.insert "ann" (field "token_data" (text "t") end) Map.empty;
  revision = 0;
  revision_hash = "";
}

abbrev same_text : String → String → Bool
same_text a b = true

ann-due :
    member "ann" (due_emails go same_text one_account "ann" second Map.empty (λ e. 0) true) ≡ true
unfolding due_emails get_field
ann-due =
    rw (get-insert "ann" "ann" (field "token_data" (text "t") end) (Map.empty {V = Account})) refl

due_emails-waits_example : (member "ann" one_account.order ≡ true) × (0 ≤ second)
due_emails-waits_example =
    due_emails-waits go same_text one_account "ann" second Map.empty (λ e. 0) true "ann" ann-due
