-- ===== src/Scorer/Output.antt =====
-- What a scorer's output becomes.
use sandbox_2025team.Errors.{raise, attribute_error}
use sandbox_2025team.Base.Int.{ℤ}
use sandbox_2025team.Json.{is_object, Json, obj}
use sandbox_2025team.Base.Text.{Text}
use sandbox_2025team.Scorer.{
  read_parsed, ℤ, run_custom_scorer, parse_scorer_output, raise, finished,
}
use sandbox_2025team.Base.{Option, ◌≡◌, false, is_empty, some, ◌∙◌, refl, ◌∷◌, []}

read_parsed_other :
    (v : Json) (stdout stderr : Text) (exit_code : ℤ)
    → is_object v ≡ false
    → read_parsed v stdout stderr exit_code ≡ raise attribute_error
unfolding read_parsed is_object
read_parsed_other (obj fs) stdout stderr exit_code h = absurd (cc)
read_parsed_other _ stdout stderr exit_code h = refl

read_output :
    (loads : Text → Option Json) (stdout stderr : Text) (exit_code : ℤ) (v : Json)
    → is_empty stdout ≡ false
    → loads stdout ≡ some v
    → run_custom_scorer loads (finished stdout stderr exit_code)
      ≡ read_parsed v stdout stderr exit_code
unfolding run_custom_scorer parse_scorer_output
read_output loads [] stderr exit_code v text parsed = absurd (cc)
read_output loads (c ∷ s) stderr exit_code v text parsed =
    rw (parsed, run_custom_scorer, parse_scorer_output)

module _ (loads : Text → Option Json) (stdout stderr : Text) (exit_code : ℤ) where
  pub run_custom_scorer_other :
      (v : Json)
      → is_empty stdout ≡ false
      → loads stdout ≡ some v
      → is_object v ≡ false
      → run_custom_scorer loads (finished stdout stderr exit_code) ≡ raise attribute_error
  run_custom_scorer_other v text parsed other =
      read_output loads stdout stderr exit_code v text parsed
      ∙ read_parsed_other v stdout stderr exit_code other
