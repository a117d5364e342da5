-- ===== src/Value.antt =====
-- internal/app/model.go: values of Go's type `any` as they come out of encoding/json, and the
-- accessors of the program.
-- `number` is a float64, or an int64 that the program stored: a finite float64 is a whole number of
-- units of 2^-1074, so it is kept exactly, as the integer number of these units. `json_number` is the
-- text of a json.Number. A Go map is `Fields`; its order is not observable.
pub mod Numbers
use agy_swap.Prelude.{
  String, ◌≡◌, refl, Bool, List, [], ◌∷◌, Option, none, some, arith, ◌==◌, eq_iff, if◌then◌else◌,
}
use agy_swap.Prelude.Int.{ℤ}

mutual
  pub data Value : Type 0 where
    null : Value
    boolean : Bool → Value
    number : ℤ → Value
    json_number : String → Value
    text : String → Value
    array : Items → Value
    object : Fields → Value

  pub data Items : Type 0 where
    nil : Items
    cons : Value → Items → Items

  pub data Fields : Type 0 where
    end : Fields
    field : String → Value → Fields → Fields

-- type Account map[string]any
abbrev pub Account : Type 0
Account = Fields

-- v, ok := m[k]
unfoldable pub get_field : String → Fields → Option Value
get_field k end = none
get_field k (field j v fs) = if j == k then some v else get_field k fs

-- delete(m, k)
unfoldable pub delete_field : String → Fields → Fields
delete_field k end = end
delete_field k (field j v fs) =
    let rest = delete_field k fs in if j == k then rest else field j v rest

-- m[k] = v
unfoldable pub set_field : String → Value → Fields → Fields
unfolding delete_field
set_field k v fs = field k v (delete_field k fs)

pub get-delete :
    (k j : String) (fs : Fields)
    → get_field j (delete_field k fs) ≡ (if k == j then none else get_field j fs)
unfolding get_field delete_field
get-delete k j end = ground arith
get-delete k j (field i v fs) =
    ground (arith, get-delete k j fs, eq_iff i k, eq_iff i j, eq_iff k j)

pub get-set :
    (k j : String) (v : Value) (fs : Fields)
    → get_field j (set_field k v fs) ≡ (if k == j then some v else get_field j fs)
unfolding get_field set_field
get-set k j v fs = simp get-delete (ground arith)

pub get-end : (k : String) → get_field k end ≡ none
unfolding get_field
get-end k = refl

pub ruleset field_laws = (get-end, get-delete, get-set)

-- value.(string), with "" for any other dynamic type
abbrev pub text_of : Option Value → String
text_of (some (text s)) = s
text_of _ = ""

abbrev pub get_string : Fields → String → String
get_string m key = text_of (get_field key m)

abbrev pub first_string : Option Value → String → String
first_string (some (text s)) fallback = if s == "" then fallback else s
first_string _ fallback = fallback

-- `none` is the nil map. Reading a key of it gives nothing, as `fields_or_end` does.
abbrev pub get_map : Option Value → Option Fields
get_map (some (object fs)) = some fs
get_map _ = none

abbrev pub fields_or_end : Option Fields → Fields
fields_or_end none = end
fields_or_end (some fs) = fs

abbrev pub items_list : Items → List Value
items_list nil = []
items_list (cons v vs) = v ∷ items_list vs

abbrev pub get_slice : Option Value → List Value
get_slice (some (array vs)) = items_list vs
get_slice _ = []
