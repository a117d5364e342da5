-- ===== src/Update/Version/Ordered.antt =====
-- internal/config/version.go: versions are ordered.
use text.Mathlib.TextEquality.{codes_equal}
use agy_swap.Prelude.{String, List, [], ◌∷◌, ◌≡◌, refl, sym, ◌∙◌, ap, eq_iff, arith}
use agy_swap.Prelude.Text.{split}
use agy_swap.Errors.{ok, and_then-ok, ok-inj}
use agy_swap.Update.Version.{
  Order, less, equal, greater, then_order, text_order, number_order, identifier_order,
  identifiers_order, prerelease_order, Version, version_order, parse_version, compare_versions,
}

abbrev pub flip : Order → Order
flip less = greater
flip equal = equal
flip greater = less

text_order-flip : (s t : String) → text_order t s ≡ flip (text_order s t)
unfolding text_order
text_order-flip String.[] String.[] = refl
text_order-flip String.[] (String.◌∷◌ d t) = refl
text_order-flip (String.◌∷◌ c s) String.[] = refl
text_order-flip (String.◌∷◌ c s) (String.◌∷◌ d t) = ground (arith, text_order-flip s t)

text_order_trans :
    (s t u : String) → text_order s t ≡ less → text_order t u ≡ less → text_order s u ≡ less
unfolding text_order
text_order_trans String.[] String.[] u h g = absurd (ground arith)
text_order_trans String.[] (String.◌∷◌ d t) String.[] h g = absurd (ground arith)
text_order_trans String.[] (String.◌∷◌ d t) (String.◌∷◌ e u) h g = refl
text_order_trans (String.◌∷◌ c s) String.[] u h g = absurd (ground arith)
text_order_trans (String.◌∷◌ c s) (String.◌∷◌ d t) String.[] h g = absurd (ground arith)
text_order_trans (String.◌∷◌ c s) (String.◌∷◌ d t) (String.◌∷◌ e u) h g =
    ground (arith, text_order_trans s t u)

text_order-equal : (s t : String) → text_order s t ≡ equal → s ≡ t
unfolding text_order
text_order-equal String.[] String.[] h = refl
text_order-equal String.[] (String.◌∷◌ d t) h = absurd (ground arith)
text_order-equal (String.◌∷◌ c s) String.[] h = absurd (ground arith)
text_order-equal (String.◌∷◌ c s) (String.◌∷◌ d t) h =
    let rest : s ≡ t = text_order-equal s t (ground arith) in
    let first : c ≡ d = codes_equal c d (ground arith) in ground arith

number_order-flip : (a b : String) → number_order b a ≡ flip (number_order a b)
unfolding number_order
number_order-flip a b = ground (arith, text_order-flip a b)

number_order_trans :
    (a b c : String) → number_order a b ≡ less → number_order b c ≡ less → number_order a c ≡ less
unfolding number_order
number_order_trans a b c h g = ground (arith, text_order_trans a b c)

number_order-equal : (a b : String) → number_order a b ≡ equal → a ≡ b
unfolding number_order
number_order-equal a b h = text_order-equal a b (ground arith)

identifier_order-flip : (a b : String) → identifier_order b a ≡ flip (identifier_order a b)
unfolding identifier_order
identifier_order-flip a b = ground (arith, text_order-flip a b, number_order-flip a b)

identifier_order_trans :
    (a b c : String)
    → identifier_order a b ≡ less
    → identifier_order b c ≡ less
    → identifier_order a c ≡ less
unfolding identifier_order
identifier_order_trans a b c h g = ground (arith, text_order_trans a b c, number_order_trans a b c)

identifier_order-equal : (a b : String) → identifier_order a b ≡ equal → a ≡ b
unfolding identifier_order
identifier_order-equal a b h = ground (arith, text_order-equal a b, number_order-equal a b)

then_order-flip : (x y : Order) → then_order (flip x) (flip y) ≡ flip (then_order x y)
then_order-flip less y = refl
then_order-flip equal y = refl
then_order-flip greater y = refl

identifiers_order-flip : (a b : List String) → identifiers_order b a ≡ flip (identifiers_order a b)
unfolding identifiers_order
identifiers_order-flip [] [] = refl
identifiers_order-flip [] (b ∷ ys) = refl
identifiers_order-flip (a ∷ xs) [] = refl
identifiers_order-flip (a ∷ xs) (b ∷ ys) =
    rw (identifier_order-flip a b, identifiers_order-flip xs ys)
      (then_order-flip (identifier_order a b) (identifiers_order xs ys))

identifiers_order_trans :
    (a b c : List String)
    → identifiers_order a b ≡ less
    → identifiers_order b c ≡ less
    → identifiers_order a c ≡ less
unfolding identifiers_order
identifiers_order_trans [] [] c h g = absurd (ground arith)
identifiers_order_trans [] (b ∷ ys) [] h g = absurd (ground arith)
identifiers_order_trans [] (b ∷ ys) (c ∷ zs) h g = refl
identifiers_order_trans (a ∷ xs) [] c h g = absurd (ground arith)
identifiers_order_trans (a ∷ xs) (b ∷ ys) [] h g = absurd (ground arith)
identifiers_order_trans (a ∷ xs) (b ∷ ys) (c ∷ zs) h g = ground (
  arith,
  identifiers_order_trans xs ys zs,
  identifier_order_trans a b c,
  identifier_order-equal a b,
  identifier_order-equal b c,
)

prerelease_order-flip : (a b : String) → prerelease_order b a ≡ flip (prerelease_order a b)
unfolding prerelease_order
prerelease_order-flip a b = ground (
  arith,
  identifiers_order-flip (split b'.' a) (split b'.' b),
  eq_iff a b,
  eq_iff b a,
  eq_iff a "",
  eq_iff b "",
)

prerelease_order_trans :
    (a b c : String)
    → prerelease_order a b ≡ less
    → prerelease_order b c ≡ less
    → prerelease_order a c ≡ less
unfolding prerelease_order
prerelease_order_trans a b c h g = ground (
  arith,
  identifiers_order_trans (split b'.' a) (split b'.' b) (split b'.' c),
  identifiers_order-flip (split b'.' a) (split b'.' b),
  eq_iff a b,
  eq_iff b c,
  eq_iff a c,
  eq_iff a "",
  eq_iff b "",
  eq_iff c "",
)

-- The first of two comparisons decides; both are of one order.
lex_trans :
    (ab bc ac p q r : Order)
    → (ab ≡ less → bc ≡ less → ac ≡ less)
    → (ab ≡ equal → ac ≡ bc)
    → (bc ≡ equal → ac ≡ ab)
    → (p ≡ less → q ≡ less → r ≡ less)
    → then_order ab p ≡ less
    → then_order bc q ≡ less
    → then_order ac r ≡ less
lex_trans less less ac p q r t l k u h g = rw (t refl refl) refl
lex_trans less equal ac p q r t l k u h g = rw (k refl) refl
lex_trans less greater ac p q r t l k u h g = absurd (ground arith)
lex_trans equal less ac p q r t l k u h g = rw (l refl) refl
lex_trans equal equal ac p q r t l k u h g = rw (l refl) (u h g)
lex_trans equal greater ac p q r t l k u h g = absurd (ground arith)
lex_trans greater bc ac p q r t l k u h g = absurd (ground arith)

number_lex :
    (a b c : String) (p q r : Order)
    → (p ≡ less → q ≡ less → r ≡ less)
    → then_order (number_order a b) p ≡ less
    → then_order (number_order b c) q ≡ less
    → then_order (number_order a c) r ≡ less
number_lex a b c p q r u =
    lex_trans (number_order a b) (number_order b c) (number_order a c) p q r
      (number_order_trans a b c) (λ e. ap (λ x. number_order x c) (number_order-equal a b e))
      (λ e. ap (number_order a) (sym (number_order-equal b c e))) u

version_order_trans :
    (a b c : Version)
    → version_order a b ≡ less
    → version_order b c ≡ less
    → version_order a c ≡ less
unfolding version_order
version_order_trans a b c = number_lex a.major b.major c.major _ _ _ (
    number_lex a.minor b.minor c.minor _ _ _ (
      number_lex a.patch b.patch c.patch _ _ _
        (prerelease_order_trans a.prerelease b.prerelease c.prerelease)))

version_order-flip : (a b : Version) → version_order b a ≡ flip (version_order a b)
unfolding version_order
version_order-flip a b = ground (
  arith,
  number_order-flip a.major b.major,
  number_order-flip a.minor b.minor,
  number_order-flip a.patch b.patch,
  prerelease_order-flip a.prerelease b.prerelease,
)

parsed :
    (a b : String) (o : Order)
    → compare_versions a b ≡ ok o
    → (v : Version) × (w : Version) × (parse_version a ≡ ok v)
      × (parse_version b ≡ ok w)
      × (version_order v w ≡ o)
unfolding compare_versions
parsed a b o h =
    let (v, p, rest) = and_then-ok (parse_version a) _ o h in
    let (w, q, e) = and_then-ok (parse_version b) _ o rest in
    (v, w, p, q, ok-inj (version_order v w) o e)

compared :
    (a b : String) (v w : Version)
    → parse_version a ≡ ok v
    → parse_version b ≡ ok w
    → compare_versions a b ≡ ok (version_order v w)
unfolding compare_versions
compared a b v w p q = rw (p, q) refl

-- Versions are ordered: where one is less than a second one and that one less than a third, the first is less than
-- the third, and asked the other way round the answer is greater.
pub compare_versions_trans :
    (a b c : String)
    → compare_versions a b ≡ ok less
    → compare_versions b c ≡ ok less
    → (compare_versions a c ≡ ok less)
      × (compare_versions c a ≡ ok greater)
      × (compare_versions b a ≡ ok greater)
compare_versions_trans a b c h g =
    let (v, w, p, q, e) = parsed a b less h in
    let (w', u, q', r, e') = parsed b c less g in
    let same : w' ≡ w = ok-inj w' w (sym q' ∙ q) in
    let t : version_order v u ≡ less =
      version_order_trans v w u e (ap (λ x. version_order x u) (sym same) ∙ e') in
    (
      compared a c v u p r ∙ ap ok t,
      compared c a u v r p ∙ ap ok (version_order-flip v u ∙ ap flip t),
      compared b a w v q p ∙ ap ok (version_order-flip v w ∙ ap flip e),
    )
