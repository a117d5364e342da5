-- ===== src/Tui/Layout/Growing.antt =====
-- internal/app/tui_layout.go: the plans of a window that grows taller.
use agy_swap.Prelude.{ℕ, ◌+◌, ◌≤◌, ◌≡◌, arith}
use agy_swap.Tui.Layout.{
  Digits, no_digits, three, inline, five, tui_body_rows_for, tui_layout_plan_for, wide_digits,
}

-- How much detail the digits carry, in the order of their declaration.
abbrev pub rank : Digits → ℕ
rank no_digits = 0
rank three = 1
rank inline = 2
rank five = 3

-- At the same width, a window with at least as many rows keeps the arrangement of the screen, and gets
-- digits and list rows of at least the same detail. The body it is drawn into has at least one row and
-- grows with the window too, except for the row that the header takes at 32 rows.
pub tui_layout_plan_for-growing :
    (width height taller : ℕ)
    → height ≤ taller
    → let a = tui_layout_plan_for width height in
      let b = tui_layout_plan_for width taller in
      (a.arrangement ≡ b.arrangement)
      × (rank a.digits ≤ rank b.digits)
      × (a.list_lines ≤ b.list_lines)
      × (1 ≤ tui_body_rows_for height)
      × (tui_body_rows_for height ≤ tui_body_rows_for taller + 1)
unfolding tui_layout_plan_for tui_body_rows_for wide_digits
tui_layout_plan_for-growing width height taller h =
    (ground arith, ground arith, ground arith, ground arith, ground arith)
