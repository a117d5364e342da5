-- ===== src/Quota/Summary/Tightest.antt =====
-- internal/app/quota.go: the Gemini group of the model list stands for the tightest model.
use agy_swap.Prelude.{
  Bool, true, false, not, Option, none, some, ◌≡◌, refl, arith, String, inl, inr, Option-cases,
  Bool-cases, sym, ap, ◌∙◌, ◌==◌, eq_iff, All,
}
use agy_swap.Prelude.Int.{ltb_ℤ}
use agy_swap.Value.{Value, Fields, end, field, get_field, get_map, fields_or_end}
use agy_swap.GoLib.{GoLib}
use agy_swap.Clock.{Time}
use agy_swap.Quota.Summary.{
  PoolGroup, gemini_group_from_models, group_of_reading, ModelReading, is_tighter, with_reading,
  model_reading, tightest_model,
}

-- No reading of these is tighter than the best one.
abbrev is_covered : Option ModelReading → Option ModelReading → Bool
is_covered best none = true
is_covered none (some r) = false
is_covered (some b) (some r) = not (is_tighter r b)

tighter_trans :
    (a b c : ModelReading)
    → is_tighter b a ≡ false
    → is_tighter c b ≡ false
    → is_tighter c a ≡ false
tighter_trans a b c h g = ground arith

with_reading-covers :
    (best new r : Option ModelReading)
    → is_covered best r ≡ true
    → (is_covered (with_reading best new) r ≡ true)
      × (is_covered (with_reading best new) new ≡ true)
with_reading-covers best none r h = (h, refl)
with_reading-covers none (some n) none h = (refl, ground arith)
with_reading-covers none (some n) (some r) h = absurd (ground arith)
with_reading-covers (some b) (some n) none h = (refl, ground arith)
with_reading-covers (some b) (some n) (some r) h =
    (ground (arith, tighter_trans n b r), ground arith)

tightest_model-keeps :
    (go : GoLib) (models : Fields) (best r : Option ModelReading)
    → is_covered best r ≡ true
    → is_covered (tightest_model go models best) r ≡ true
unfolding tightest_model
tightest_model-keeps go end best r h = h
tightest_model-keeps go (field id entry models) best r h =
    let new = model_reading go id entry in
    tightest_model-keeps go models (with_reading best new) r (with_reading-covers best new r h).0

tightest_model-covers :
    (go : GoLib) (models : Fields) (best : Option ModelReading) (id : String) (entry : Value)
    → get_field id models ≡ some entry
    → is_covered (tightest_model go models best) (model_reading go id entry) ≡ true
unfolding tightest_model get_field
tightest_model-covers go end best id entry h = absurd (ground arith)
tightest_model-covers go (field j v models) best id entry h = elim (Bool-cases (j == id)) [
  | inl same ↦
      let new = model_reading go j v in
      let here : is_covered (tightest_model go models (with_reading best new)) new ≡ true =
        tightest_model-keeps go models (with_reading best new) new
          (with_reading-covers best new none refl).1 in
      let at : j ≡ id = (eq_iff j id).0 same in
      let what : v ≡ entry = ground arith in
      let same_reading : new ≡ model_reading go id entry = cc in
      sym (ap (is_covered (tightest_model go models (with_reading best new))) same_reading) ∙ here
  | inr other ↦
      tightest_model-covers go models (with_reading best (model_reading go j v)) id entry
        (ground arith)
]

-- A Gemini model of the list that says when its quota comes back has a share left that is no smaller than that of
-- the group which stands for all of them, whatever order Go goes through the models in.
pub gemini_group_from_models-tightest :
    (go : GoLib) (models : Fields) (now : Time) (id : String) (entry : Value) (r : ModelReading)
    → get_field id (fields_or_end (get_map (get_field "models" models))) ≡ some entry
    → model_reading go id entry ≡ some r
    → (g : PoolGroup) × (gemini_group_from_models go models now ≡ some g)
      × All (λ b. ltb_ℤ r.fraction b.remaining_fraction ≡ false) g.buckets
unfolding gemini_group_from_models group_of_reading
gemini_group_from_models-tightest go models now id entry r listed read =
    let list = fields_or_end (get_map (get_field "models" models)) in
    let covered : is_covered (tightest_model go list none) (some r) ≡ true =
      ap (is_covered (tightest_model go list none)) (sym read)
      ∙ tightest_model-covers go list none id entry listed in
    elim (Option-cases (tightest_model go list none)) [
      | inl missing ↦ absurd (ground arith)
      | inr (b, e) ↦
          (group_of_reading now b, rw (gemini_group_from_models, e) refl, (ground arith, tt))
    ]
