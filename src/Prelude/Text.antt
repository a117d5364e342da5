-- ===== src/Prelude/Text.antt =====
-- The parts of Go's `strings` package that the program uses, over the native texts.
use Prim.Native.Nat.{ℕ}
use Prim.Native.Char.{code}
use Prim.Native.String.{String, [], ◌∷◌}
use mathlib.Core.Path.{◌≡◌, refl}
use mathlib.Core.Bool.{Bool, ◌&&◌, ◌||◌}
use mathlib.Core.Logic.{inl, inr}
use mathlib.Core.Option.{Option, none, some}
use mathlib.Core.List.{List}
use native.Mathlib.Omega.{arith}
use text.Mathlib.Text.{◌==◌}
use text.Mathlib.TextEquality.{eq_iff}
use agy_swap.Prelude.Tests.{leb, nat_eq, is_some, if◌then◌else◌, Bool-cases}

-- unicode.IsSpace
unfoldable pub is_space : ℕ → Bool
is_space c =
    leb 9 c && leb c 13
    || nat_eq c 32
    || nat_eq c 0x85
    || nat_eq c 0xa0
    || nat_eq c 0x1680
    || leb 0x2000 c && leb c 0x200a
    || nat_eq c 0x2028
    || nat_eq c 0x2029
    || nat_eq c 0x202f
    || nat_eq c 0x205f
    || nat_eq c 0x3000

unfoldable pub trim_left : String → String
trim_left [] = []
trim_left (c ∷ s) = if is_space (code c) then trim_left s else c ∷ s

unfoldable pub trim_right : String → String
trim_right [] = []
trim_right (c ∷ s) =
    let rest = trim_right s in if is_space (code c) && rest == [] then [] else c ∷ rest

-- strings.TrimSpace
unfoldable pub trim_space : String → String
unfolding trim_left trim_right is_space
trim_space s = trim_left (trim_right s)

trim_right_idem : (s : String) → trim_right (trim_right s) ≡ trim_right s
unfolding trim_right
trim_right_idem [] = refl
trim_right_idem (c ∷ s) = elim (Bool-cases (is_space (code c) && trim_right s == [])) [
  | inl blank ↦ rw blank
  | inr kept ↦ rw kept (rw (trim_right_idem s) (rw kept))
]

trim_right-trim_left : (s : String) → trim_right (trim_left s) ≡ trim_left (trim_right s)
unfolding trim_right trim_left
trim_right-trim_left [] = refl
trim_right-trim_left (c ∷ s) = ground (arith, trim_right-trim_left s, eq_iff (trim_right s) [])

trim_left_idem : (s : String) → trim_left (trim_left s) ≡ trim_left s
unfolding trim_left
trim_left_idem [] = refl
trim_left_idem (c ∷ s) = ground (arith, trim_left_idem s)

pub trim_space_idem : (s : String) → trim_space (trim_space s) ≡ trim_space s
unfolding trim_space
trim_space_idem s = rw (
  trim_right-trim_left (trim_right s),
  trim_left_idem (trim_right (trim_right s)),
  trim_right_idem s,
)

pub trim_right-trim_space : (s : String) → trim_right (trim_space s) ≡ trim_space s
unfolding trim_space
trim_right-trim_space s = rw (trim_right-trim_left (trim_right s), trim_right_idem s) refl

-- strings.HasPrefix(s, t), with the rest of s
unfoldable pub strip_prefix : String → String → Option String
strip_prefix [] s = some s
strip_prefix (d ∷ t) [] = none
strip_prefix (d ∷ t) (c ∷ s) = if nat_eq (code d) (code c) then strip_prefix t s else none

unfoldable pub has_prefix : String → String → Bool
unfolding strip_prefix
has_prefix s t = is_some (strip_prefix t s)

-- strings.CutSuffix: what stands before a suffix `t` of s
unfoldable pub strip_suffix : String → String → Option String
strip_suffix [] t = if t == [] then some [] else none
strip_suffix (c ∷ s) t =
    let rest = strip_suffix s t in
    if (c ∷ s) == t then some [] else elim rest [ none ↦ none | some r ↦ some (c ∷ r) ]

unfoldable pub has_suffix : String → String → Bool
unfolding strip_suffix
has_suffix s t = is_some (strip_suffix s t)

-- strings.TrimSuffix
unfoldable pub trim_suffix : String → String → String
unfolding strip_suffix
trim_suffix s t = elim (strip_suffix s t) [ none ↦ s | some r ↦ r ]

-- strings.Contains
unfoldable pub contains : String → String → Bool
unfolding has_prefix
contains [] t = t == []
contains (c ∷ s) t = has_prefix (c ∷ s) t || contains s t

-- strings.Split(s, sep) for a separator of one character: the first part, and the parts after it
unfoldable pub split_first : ℕ → String → String × List String
split_first sep [] = ([], List.[])
split_first sep (c ∷ s) =
    let (first, rest) = split_first sep s in
    if nat_eq (code c) sep then ([], List.◌∷◌ first rest) else (c ∷ first, rest)

unfoldable pub split : ℕ → String → List String
unfolding split_first
split sep s = let (first, rest) = split_first sep s in List.◌∷◌ first rest
