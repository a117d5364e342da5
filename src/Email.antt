-- ===== src/Email.antt =====
-- internal/app/model.go: `cleanText` and `normalizeEmail`.
pub mod Trimmed
use Prim.Native.Char.{Char, code}
use Prim.Native.String.{[], ◌∷◌}
use agy_swap.Prelude.{
  ℕ, String, Bool, true, false, not, ◌&&◌, ◌||◌, Option, none, some, if◌then◌else◌, leb, nat_eq,
  ◌==◌,
}
use agy_swap.Prelude.Text.{trim_space}
use agy_swap.GoLib.{GoLib}

-- unicode.IsControl
is_control : ℕ → Bool
is_control c = leb c 0x1f || leb 0x7f c && leb c 0x9f

visible : GoLib → String → String
unfolding is_control
visible go [] = []
visible go (c ∷ s) =
    let r = code c in
    let rest = visible go s in
    if nat_eq r b'\t' || nat_eq r 32 || not (is_control r) && not (go.is_format r)
    then c ∷ rest
    else rest

unfoldable pub clean_text : GoLib → String → String
unfolding visible
clean_text go value = trim_space (visible go value)

-- [^@\s]
is_word : Char → Bool
is_word c =
    let r = code c in
    not (nat_eq r b'@' || leb 9 r && leb r 10 || leb 12 r && leb r 13 || nat_eq r 32)

all_word : String → Bool
unfolding is_word
all_word [] = true
all_word (c ∷ s) = is_word c && all_word s

-- [^@\s]*\.[^@\s]+ to the end of the text
dotted : String → Bool
unfolding all_word
dotted [] = false
dotted (c ∷ s) = nat_eq (code c) b'.' && all_word s && not (s == []) || is_word c && dotted s

-- [^@\s]+\.[^@\s]+
is_domain : String → Bool
unfolding dotted
is_domain [] = false
is_domain (c ∷ s) = is_word c && dotted s

-- [^@\s]*@ and a domain
is_local : String → Bool
unfolding is_domain
is_local [] = false
is_local (c ∷ s) = if nat_eq (code c) b'@' then is_domain s else is_word c && is_local s

-- emailPattern: ^[^@\s]+@[^@\s]+\.[^@\s]+$
unfoldable pub is_email : String → Bool
unfolding is_local
is_email [] = false
is_email (c ∷ s) = is_word c && is_local s

unfoldable pub normalize_email : GoLib → String → String
unfolding clean_text is_email
normalize_email go value =
    let email = go.to_lower (clean_text go value) in if is_email email then email else ""
