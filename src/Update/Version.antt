-- ===== src/Update/Version.antt =====
-- internal/config/version.go: `CompareVersions`. The regular expression is read from left to right: its
-- parts begin with different characters, so there is one way to match it.
pub mod Ordered
use Prim.Native.Char.{Char, code}
use Prim.Native.String.{len}
use agy_swap.Prelude.{
  ℕ, String, Bool, true, false, not, ◌&&◌, ◌||◌, List, [], ◌∷◌, Option, none, some, if◌then◌else◌,
  ltb, leb, nat_eq, ◌==◌,
}
use agy_swap.Prelude.Text.{trim_space, strip_prefix, split}
use agy_swap.Errors.{Result, ok, err, plain, and_then}

-- -1, 0 and 1
pub data Order : Type 0 where
  less : Order
  equal : Order
  greater : Order

-- Two results of which the first decides, unless it is 0.
abbrev pub then_order : Order → Order → Order
then_order less second = less
then_order equal second = second
then_order greater second = greater

-- strings.Compare
unfoldable pub text_order : String → String → Order
text_order String.[] String.[] = equal
text_order String.[] (String.◌∷◌ d t) = less
text_order (String.◌∷◌ c s) String.[] = greater
text_order (String.◌∷◌ c s) (String.◌∷◌ d t) =
    let rest = text_order s t in
    if ltb (code c) (code d) then less else if ltb (code d) (code c) then greater else rest

is_digit : Char → Bool
is_digit c = leb b'0' (code c) && leb (code c) b'9'

all_digits : String → Bool
unfolding is_digit
all_digits String.[] = true
all_digits (String.◌∷◌ c s) = is_digit c && all_digits s

unfoldable pub numeric_identifier : String → Bool
unfolding all_digits
numeric_identifier part = all_digits part && not (part == "")

-- The numbers of the code are texts of digits without leading zeros.
unfoldable pub number_order : String → String → Order
unfolding text_order
number_order a b =
    if ltb (len a) (len b) then less else if ltb (len b) (len a) then greater else text_order a b

unfoldable pub identifier_order : String → String → Order
unfolding number_order text_order
identifier_order a b =
    if numeric_identifier a
    then (if numeric_identifier b then number_order a b else less)
    else if numeric_identifier b
    then greater
    else text_order a b

unfoldable pub identifiers_order : List String → List String → Order
unfolding identifier_order
identifiers_order [] [] = equal
identifiers_order [] (b ∷ ys) = less
identifiers_order (a ∷ xs) [] = greater
identifiers_order (a ∷ xs) (b ∷ ys) =
    let rest = identifiers_order xs ys in then_order (identifier_order a b) rest

unfoldable pub prerelease_order : String → String → Order
unfolding identifiers_order
prerelease_order a b =
    if a == b
    then equal
    else if a == ""
    then greater
    else if b == ""
    then less
    else identifiers_order (split b'.' a) (split b'.' b)

-- The groups of the match that are compared; the build is not.
pub record Version : Type 0 where
  pub major : String
  pub minor : String
  pub patch : String
  pub prerelease : String

unfoldable pub version_order : Version → Version → Order
unfolding number_order prerelease_order
version_order a b = then_order (number_order a.major b.major) (
    then_order (number_order a.minor b.minor)
      (then_order (number_order a.patch b.patch) (prerelease_order a.prerelease b.prerelease)))

-- The longest beginning of digits, and the rest.
span_digits : String → String × String
unfolding is_digit
span_digits String.[] = ("", "")
span_digits (String.◌∷◌ c s) =
    let (digits, rest) = span_digits s in
    if is_digit c then (String.◌∷◌ c digits, rest) else ("", String.◌∷◌ c s)

-- 0|[1-9][0-9]*, of digits
is_number : String → Bool
is_number String.[] = false
is_number (String.◌∷◌ c s) = s == "" || not (nat_eq (code c) b'0')

-- [0-9A-Za-z-] or a dot
is_identifier_char : Char → Bool
unfolding is_digit
is_identifier_char c =
    is_digit c
    || leb b'A' (code c) && leb (code c) b'Z'
    || leb b'a' (code c) && leb (code c) b'z'
    || nat_eq (code c) b'-'
    || nat_eq (code c) b'.'

span_identifiers : String → String × String
unfolding is_identifier_char
span_identifiers String.[] = ("", "")
span_identifiers (String.◌∷◌ c s) =
    let (part, rest) = span_identifiers s in
    if is_identifier_char c then (String.◌∷◌ c part, rest) else ("", String.◌∷◌ c s)

has_empty : List String → Bool
has_empty [] = false
has_empty (part ∷ parts) = part == "" || has_empty parts

-- Identifiers with dots between them, none of them empty.
are_identifiers : String → Bool
unfolding has_empty
are_identifiers s = not (has_empty (split b'.' s))

-- (?:\+…)?$
is_build : String → Bool
unfolding span_identifiers are_identifiers
is_build String.[] = true
is_build (String.◌∷◌ c s) =
    let (part, rest) = span_identifiers s in
    nat_eq (code c) b'+' && are_identifiers part && rest == ""

-- (?:-…)?(?:\+…)?$, with the text of the first group
parse_prerelease : String → Option String
unfolding is_build span_identifiers are_identifiers
parse_prerelease String.[] = some ""
parse_prerelease (String.◌∷◌ c s) =
    let (part, rest) = span_identifiers s in
    if nat_eq (code c) b'-'
    then (if are_identifiers part && is_build rest then some part else none)
    else if is_build (String.◌∷◌ c s)
    then some ""
    else none

-- A number, and what stands after it.
parse_number : String → Option (String × String)
unfolding span_digits is_number
parse_number s =
    let (digits, rest) = span_digits s in if is_number digits then some (digits, rest) else none

after_dot : Option (String × String) → Option (String × (String × String))
unfolding parse_number
after_dot none = none
after_dot (some (number, rest)) = elim (strip_prefix "." rest) [
  | none ↦ none
  | some s ↦ elim (parse_number s) [ none ↦ none | some (next, more) ↦ some (number, (next, more)) ]
]

match_version : String → Option Version
unfolding after_dot parse_number parse_prerelease
match_version s = elim (after_dot (parse_number s)) [
  | none ↦ none
  | some (major, (minor, rest)) ↦ elim (after_dot (some (minor, rest))) [
    | none ↦ none
    | some (minor', (patch, more)) ↦ elim (parse_prerelease more) [
      | none ↦ none
      | some prerelease ↦
          some (record { major = major; minor = minor'; patch = patch; prerelease = prerelease })
    ]
  ]
]

-- A numeric identifier with a leading zero.
has_leading_zero : List String → Bool
has_leading_zero [] = false
has_leading_zero (part ∷ parts) =
    numeric_identifier part && not (is_number part) || has_leading_zero parts

checked_version : Option Version → Result Version
unfolding has_leading_zero
checked_version none = err (plain "invalid semantic version")
checked_version (some v) =
    if has_leading_zero (split b'.' v.prerelease)
    then err (plain "invalid numeric prerelease identifier")
    else ok v

-- The function `parse` of CompareVersions.
unfoldable pub parse_version : String → Result Version
unfolding checked_version match_version
parse_version value =
    let trimmed = trim_space value in
    checked_version
      (match_version (elim (strip_prefix "v" trimmed) [ none ↦ trimmed | some rest ↦ rest ]))

unfoldable pub compare_versions : String → String → Result Order
unfolding parse_version version_order
compare_versions a b =
    and_then (parse_version a) (λ v. and_then (parse_version b) (λ w. ok (version_order v w)))
