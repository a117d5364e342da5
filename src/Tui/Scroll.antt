-- ===== src/Tui/Scroll.antt =====
-- internal/app/tui_scroll.go: the scroll views. Sizes and offsets are never negative there, so they are
-- numbers, on which `-` stops at 0, as the code's maxInt(0, …) does.
pub mod Thumb
use agy_swap.Prelude.{
  ℕ, ◌+◌, ◌-◌, ◌*◌, ◌/◌, String, Bool, true, false, not, ◌&&◌, ◌||◌, Option, none, some,
  if◌then◌else◌, ltb, leb, nat_eq, min, max, ◌==◌,
}
use agy_swap.Prelude.Int.{ℤ, pos_part, neg_part}
use agy_swap.Prelude.Map
use agy_swap.Prelude.Map.{Map}

-- type tuiScroll
pub record TuiScroll : Type 0 where
  pub offset : ℕ
  pub total : ℕ
  pub view : ℕ
  pub follow : String
  pub loose : Bool

abbrev or_new : Option TuiScroll → TuiScroll
or_new none = record { offset = 0; total = 0; view = 0; follow = ""; loose = false }
or_new (some sc) = sc

-- `scrollState`: the view of this key, made when it is first asked for.
unfoldable pub scroll_state : Map TuiScroll → String → TuiScroll
scroll_state scrolls key = or_new (Map.get key scrolls)

-- The rows [top, end) come into view; `none` is a negative top.
unfoldable pub show_rows : Option ℕ → ℕ → ℕ → ℕ → ℕ
show_rows none end view offset = offset
show_rows (some top) end view offset =
    if ltb top offset then top else if ltb (offset + view) end then end - view else offset

unfoldable pub scroll_to :
    Map TuiScroll → String → String → Option ℕ → ℕ → ℕ → ℕ → Bool → ℕ × Map TuiScroll
unfolding show_rows scroll_state
scroll_to scrolls key follow top end total view commit =
    let sc = scroll_state scrolls key in
    let moved =
      if not (follow == sc.follow) || not sc.loose
      then show_rows top end view sc.offset
      else sc.offset in
    let offset = min moved (total - view) in
    (
      offset,
      if commit
          then Map.insert key
              (record {
                offset = offset;
                total = total;
                view = view;
                follow = follow;
                loose = if not (follow == sc.follow) then false else sc.loose;
              })
              scrolls
          else Map.insert key sc scrolls,
    )

unfoldable pub scroll_by : Map TuiScroll → String → ℤ → Bool × Map TuiScroll
unfolding scroll_state
scroll_by scrolls key delta =
    let sc = scroll_state scrolls key in
    if leb sc.total sc.view then (false, Map.insert key sc scrolls) else (
      true,
      Map.insert key
          (record sc {
            offset = min (sc.offset + pos_part delta - neg_part delta) (sc.total - sc.view);
            loose = true;
          })
          scrolls,
    )

-- How tall the thumb is, when the view scrolls.
unfoldable pub thumb_size : ℕ → ℕ → ℕ
thumb_size total view = max 1 ((view * view + total / 2) / total)

-- Where the thumb sits, and how tall it is.
unfoldable pub scroll_thumb : ℕ → ℕ → ℕ → ℕ × ℕ
unfolding thumb_size
scroll_thumb offset total view =
    if leb total view || nat_eq view 0
    then (0, view)
    else let size = thumb_size total view in
      ((offset * (view - size) + (total - view) / 2) / (total - view), size)

unfoldable pub scroll_to_thumb : Map TuiScroll → String → ℕ → Map TuiScroll
unfolding scroll_state
scroll_to_thumb scrolls key at =
    let sc = scroll_state scrolls key in
    if leb sc.total sc.view
    then Map.insert key sc scrolls
    else let size = (scroll_thumb sc.offset sc.total sc.view).1 in
      let span = max 1 (sc.view - size) in
      Map.insert key
        (record sc {
          offset = min (sc.total - sc.view) ((at * (sc.total - sc.view) + span / 2) / span);
          loose = true;
        })
        scrolls
