-- ===== src/Prelude/Map.antt =====
-- A Go map with string keys, as an association list. The representation is private: clients have
-- `map_laws`. The order of entries is not observable, as in Go.
use mathlib.Core.Path.{◌≡◌, refl}
use mathlib.Core.Option.{Option, none, some}
use mathlib.Core.List.{List, [], ◌∷◌}
use Prim.Native.String.{String}
use native.Mathlib.Omega.{arith}
use text.Mathlib.Text.{◌==◌}
use text.Mathlib.TextEquality.{eq_iff}
use agy_swap.Prelude.Tests.{if◌then◌else◌}

pub record Map {ℓ} (V : Type ℓ) : Type ℓ where
  entries : List (String × V)

module _ {ℓ} {V : Type ℓ} where
  find : String → List (String × V) → Option V
  find k [] = none
  find k ((j, v) ∷ l) = if j == k then some v else find k l

  without : String → List (String × V) → List (String × V)
  without k [] = []
  without k ((j, v) ∷ l) = let rest = without k l in if j == k then rest else (j, v) ∷ rest

  pub empty : Map V
  empty = record { entries = [] }

  -- v, ok := m[k]
  pub get : String → Map V → Option V
  get k m = find k m.entries

  -- delete(m, k)
  pub erase : String → Map V → Map V
  erase k m = record { entries = without k m.entries }

  -- m[k] = v
  pub insert : String → V → Map V → Map V
  insert k v m = record { entries = (k, v) ∷ without k m.entries }

  find-without :
      (k j : String) (l : List (String × V))
      → find j (without k l) ≡ (if k == j then none else find j l)
  unfolding find without
  find-without k j [] = ground arith
  find-without k j ((i, v) ∷ l) =
      ground (arith, find-without k j l, eq_iff i k, eq_iff i j, eq_iff k j)

  pub get-erase :
      (k j : String) (m : Map V) → get j (erase k m) ≡ (if k == j then none else get j m)
  unfolding get erase
  get-erase k j m = find-without k j m.entries

  pub get-insert :
      (k j : String) (v : V) (m : Map V)
      → get j (insert k v m) ≡ (if k == j then some v else get j m)
  unfolding get insert find
  get-insert k j v m = simp find-without (ground arith)

pub get-empty {ℓ} : {V : Type ℓ} (k : String) → get k (empty {V = V}) ≡ none
unfolding get empty find
get-empty k = refl

pub ruleset map_laws = (get-empty, get-erase, get-insert)
