-- ===== src/Tui/Scroll/Thumb.antt =====
-- internal/app/tui_scroll.go: the bounds of the offset and of the thumb.
use native.Mathlib.Nat.{div-lt_iff_lt-mul, mul-le-mul_right}
use mathlib.Core.Path.{subst}
use agy_swap.Prelude.{
  ℕ, suc, ◌+◌, ◌-◌, ◌*◌, ◌/◌, ◌≤◌, ◌<◌, String, ◌≡◌, Bool, Option, leb, arith, Bool-cases, inl, inr,
}
use agy_swap.Prelude.Int.{ℤ}
use agy_swap.Prelude.Map
use agy_swap.Prelude.Map.{Map, get-insert}
use agy_swap.Tui.Scroll.{
  TuiScroll, scroll_state, scroll_to, scroll_by, thumb_size, scroll_thumb, scroll_to_thumb,
}

-- The view never shows rows past the last one.
abbrev pub IsInside : TuiScroll → Type 0
IsInside sc = sc.offset ≤ sc.total - sc.view

pub record AreInside (scrolls : Map TuiScroll) : Type 0 where
  pub at_key : (key : String) → IsInside (scroll_state scrolls key)

insert-AreInside :
    (scrolls : Map TuiScroll) (key : String) (sc : TuiScroll)
    → AreInside scrolls
    → IsInside sc
    → AreInside (Map.insert key sc scrolls)
unfolding scroll_state
insert-AreInside scrolls key sc a h = record {
  at_key = λ j. ground (arith, a.at_key j, get-insert key j sc scrolls);
}

-- A frame, the wheel and a drag of the bar all keep every view inside its rows; and the offset that a
-- frame is drawn with is inside the rows of that frame.
pub scroll-AreInside :
    (scrolls : Map TuiScroll) (key follow : String) (top : Option ℕ) (end total view at : ℕ)
    (delta : ℤ) (commit : Bool)
    → AreInside scrolls
    → AreInside (scroll_to scrolls key follow top end total view commit).1
      × AreInside (scroll_by scrolls key delta).1
      × AreInside (scroll_to_thumb scrolls key at)
      × ((scroll_to scrolls key follow top end total view commit).0 ≤ total - view)
unfolding scroll_to scroll_by scroll_to_thumb
scroll-AreInside scrolls key follow top end total view at delta commit a =
    let sc = scroll_state scrolls key in
    let here = a.at_key key in
    let room : (committed : TuiScroll)
        → IsInside committed
        → AreInside (Map.insert key committed scrolls) =
      λ committed h. insert-AreInside scrolls key committed a h in
    (
      elim (Bool-cases commit) [
        | inl yes_commit ↦ rw yes_commit (room _ (omega arith))
        | inr measured ↦ rw measured (room sc here)
      ],
      elim (Bool-cases (leb sc.total sc.view)) [
        | inl short ↦ rw short (room sc here)
        | inr long ↦ rw long (room _ (omega arith))
      ],
      elim (Bool-cases (leb sc.total sc.view)) [
        | inl short ↦ rw short (room sc here)
        | inr long ↦ rw long (room _ (omega arith))
      ],
      omega arith,
    )

thumb_size_bounds :
    (v d : ℕ) → 0 < v → (1 ≤ thumb_size (v + suc d) v) × (thumb_size (v + suc d) v ≤ v)
unfolding thumb_size
thumb_size_bounds v d h =
    let t = v + suc d in
    let small : v * v + t / 2 < suc v * t = omega arith in
    let q : (v * v + t / 2) / t < suc v = (div-lt_iff_lt-mul (omega arith)).1 small in
    (omega arith, omega (arith, q))

at_bound : (o k d : ℕ) → 0 < d → o ≤ d → (o * k + d / 2) / d ≤ k
at_bound o k d h b =
    let small : o * k + d / 2 < suc k * d = omega (arith, mul-le-mul_right k b) in
    let q : (o * k + d / 2) / d < suc k = (div-lt_iff_lt-mul h).1 small in omega (arith, q)

-- When a view scrolls, its thumb is at least one row tall and lies inside the view, wherever the view
-- stands.
pub scroll_thumb-inside :
    (offset total view : ℕ)
    → 0 < view
    → view < total
    → offset ≤ total - view
    → let (at, size) = scroll_thumb offset total view in (1 ≤ size) × (at + size ≤ view)
unfolding scroll_thumb
scroll_thumb-inside offset total view h long inside =
    let size = thumb_size total view in
    let e : view + suc (total - view - 1) ≡ total = omega arith in
    let b : (1 ≤ size) × (size ≤ view) =
      subst (λ t. (1 ≤ thumb_size t view) × (thumb_size t view ≤ view)) e
        (thumb_size_bounds view (total - view - 1) h) in
    let at = at_bound offset (view - size) (total - view) (omega arith) inside in
    (ground (arith, b), ground (arith, b, at))
