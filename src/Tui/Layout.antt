-- ===== src/Tui/Layout.antt =====
-- internal/app/tui_layout.go: the plan of the screen for a terminal size. A height below the chrome
-- leaves one row, so `-` stopping at 0 is what the code's maxInt(1, …) needs.
pub mod Growing
use agy_swap.Prelude.{ℕ, ◌+◌, ◌-◌, ◌≤◌, Bool, true, false, if◌then◌else◌, leb, max}

pub data Arrangement : Type 0 where
  wide : Arrangement
  stacked : Arrangement
  compact : Arrangement
  narrow : Arrangement

pub data Panels : Type 0 where
  side : Panels
  stack : Panels

pub data Digits : Type 0 where
  no_digits : Digits
  three : Digits
  inline : Digits
  five : Digits

pub record TuiLayoutPlan : Type 0 where
  pub arrangement : Arrangement
  pub list_lines : ℕ
  pub panels : Panels
  pub digits : Digits
  pub tight : Bool
  pub scale : ℕ
  pub gap : ℕ
  pub thick : ℕ

abbrev tui_header_air_min_height : ℕ
tui_header_air_min_height = 32

abbrev tui_chrome_rows : ℕ
tui_chrome_rows = 9

abbrev tui_plan_chrome_rows : ℕ
tui_plan_chrome_rows = 8

abbrev tui_header_air : ℕ → Bool
tui_header_air height = leb tui_header_air_min_height height

unfoldable pub tui_body_rows_for : ℕ → ℕ
tui_body_rows_for height =
    max 1 (height - (if tui_header_air height then tui_chrome_rows + 1 else tui_chrome_rows))

abbrev plan : Arrangement → ℕ → Panels → Digits → TuiLayoutPlan
plan arrangement lines panels digits = record {
  arrangement = arrangement;
  list_lines = lines;
  panels = panels;
  digits = digits;
  tight = false;
  scale = 0;
  gap = 0;
  thick = 0;
}

wide_digits : Panels → ℕ → Digits
wide_digits side rows = if leb 22 rows then five else if leb 13 rows then three else no_digits
wide_digits stack rows = if leb 16 rows then inline else no_digits

unfoldable pub tui_layout_plan_for_rows : ℕ → ℕ → TuiLayoutPlan
unfolding wide_digits
tui_layout_plan_for_rows width rows =
    if leb 92 width
    then (let panels = if leb 120 width then side else stack in
        plan wide 2 panels (wide_digits panels rows))
    else if leb 64 width
    then (if leb 22 rows then plan stacked 2 side three else plan stacked 1 stack no_digits)
    else if leb 41 width
    then plan compact 1 stack (if leb 15 rows then three else no_digits)
    else plan narrow (if leb 18 rows then 2 else 1) stack no_digits

unfoldable pub tui_layout_plan_for : ℕ → ℕ → TuiLayoutPlan
unfolding tui_layout_plan_for_rows
tui_layout_plan_for width height =
    tui_layout_plan_for_rows width (max 1 (height - tui_plan_chrome_rows))
