-- ===== src/Scorer.antt =====
-- dispatcher/custom_scorer.py: what becomes of the output of a custom scorer. The container and
-- json.loads are parameters: how the run ended, and what a text parses to (`none` where it raises).
pub mod Output
use sandbox_2025team.Base.{not, [], Option, none, some, if◌then◌else◌, is_empty, ◌&&◌}
use sandbox_2025team.Base.Int.{ℤ, pos}
use sandbox_2025team.Base.Text.{Text, codes}
use sandbox_2025team.Json.{Json, null, int, str, obj, end, get_or, is_int, is_zero, truthy}
use sandbox_2025team.Errors.{Result, ok, raise, attribute_error}

-- An exception of the set-up or of the container, with its text, or the finished run.
pub data ScorerRun : Type 0 where
  failed : Text → ScorerRun
  finished : (stdout stderr : Text) → (exit_code : ℤ) → ScorerRun

pub record ScorerResult : Type 0 where
  pub status : Text
  pub score : Json
  pub message : Json
  pub breakdown : Json
  pub stdout : Text
  pub stderr : Text

unfoldable pub make_scorer_result : (status message stdout stderr : Text) → ScorerResult
make_scorer_result status message stdout stderr = record {
  status = status;
  score = int (pos 0);
  message = str message;
  breakdown = null;
  stdout = stdout;
  stderr = stderr;
}

-- `parsed.get` on what is no dict raises AttributeError, outside every `try` of the module.
unfoldable pub read_parsed : Json → (stdout stderr : Text) → ℤ → Result ScorerResult
read_parsed (obj fs) stdout stderr exit_code =
    let score = get_or (codes "score") (int (pos 0)) fs in
    let message = get_or (codes "message") (str []) fs in
    let failing = not (is_zero exit_code) in
    let said = if failing && not (is_empty stderr) then str stderr else message in
    ok (record {
      status = if failing then codes "JE" else codes "OK";
      score = if is_int score then score else int (pos 0);
      message = if truthy said then said else str [];
      breakdown = get_or (codes "breakdown") null fs;
      stdout = stdout;
      stderr = stderr;
    })
read_parsed _ stdout stderr exit_code = raise attribute_error

module _ (loads : Text → Option Json) where
  unfoldable pub parse_scorer_output : (stdout stderr : Text) → ℤ → Result ScorerResult
  unfolding read_parsed
  parse_scorer_output stdout stderr exit_code =
      let parsed = if is_empty stdout then some (obj end) else loads stdout in
      elim parsed [
        | none ↦ ok (make_scorer_result (codes "JE") (codes "Invalid scorer output") stdout stderr)
        | some v ↦ read_parsed v stdout stderr exit_code
      ]

  unfoldable pub run_custom_scorer : ScorerRun → Result ScorerResult
  run_custom_scorer (failed message) = ok (make_scorer_result (codes "JE") message [] [])
  run_custom_scorer (finished stdout stderr exit_code) = parse_scorer_output stdout stderr exit_code
