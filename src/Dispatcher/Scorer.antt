-- ===== src/Dispatcher/Scorer.antt =====
-- dispatcher/dispatcher.py, _run_custom_scorer_if_needed: the input of the scorer, and the scoring
-- part of the report.
use sandbox_2025team.Dict.{lookup}
use sandbox_2025team.Errors.{Result, Exn, ok, ◌>>=◌, raise, attribute_error}
use sandbox_2025team.Json.{Json, int, str, null}
use sandbox_2025team.Dispatcher.State.{Scoring, State, info_of, truthy_text}
use sandbox_2025team.Scoring.{
  ScoredTask, build_scoring_tasks, Stats, CheckerArtifacts, build_scoring_stats,
  scorer_time_limit_ms, checker_artifacts_for_scoring,
}
use sandbox_2025team.Results.{CaseResult}
use sandbox_2025team.Base.Int.{ℤ, pos}
use sandbox_2025team.Scorer.{ScorerResult, ScorerRun, run_custom_scorer}
use sandbox_2025team.Meta.{Language, Meta}
use sandbox_2025team.Base.Text.{Text, codes, text_eq}
use sandbox_2025team.Base.{ℕ, Option, List, Bool, [], some, if◌then◌else◌, is_empty, ◌∷◌, none, not}

pub record ScoringInput : Type 0 where
  pub submission_id : Text
  pub problem_id : Option ℕ
  pub language_type : ℕ
  pub tasks : List ScoredTask
  pub total_score : ℤ
  pub static_analysis : Option Json
  pub late_seconds : ℤ
  pub stats : Stats
  pub checker_artifacts : CheckerArtifacts

pub data PutReply : Type 0 where
  unreachable : PutReply
  replied : (is_ok : Bool) → PutReply

-- What the backend, the scorer's container, json.loads and the file manager answer meanwhile.
-- `run_scorer` is given the scorer's input and its time limit.
pub record Env : Type 0 where
  pub late_seconds : ℤ
  pub run_scorer : ScoringInput → ℤ → ScorerRun
  pub loads : Text → Option Json
  pub put : PutReply
  pub clean_fails : Bool
  pub backup_fails : Option Exn

unfoldable pub language_int : Language → ℕ
language_int Language.c = 0
language_int Language.cpp = 1
language_int Language.py = 2

-- `case.get(...)` of a case that has no result is an AttributeError.
unfoldable pub demand_cases : List (Option CaseResult) → Result (List CaseResult)
demand_cases [] = ok []
demand_cases (none ∷ rs) = raise attribute_error
demand_cases (some r ∷ rs) = do rest ← demand_cases rs; ok (r ∷ rest)

unfoldable pub demand_tasks : List (List (Option CaseResult)) → Result (List (List CaseResult))
demand_tasks [] = ok []
demand_tasks (cases ∷ rest) = do
  first ← demand_cases cases
  others ← demand_tasks rest
  ok (first ∷ others)

unfoldable pub scoring_input : Env → Text → Meta → List (List CaseResult) → State → ScoringInput
scoring_input env sid meta results s =
    let (tasks, total) = build_scoring_tasks meta.tasks results in
    record {
      submission_id = sid;
      problem_id = lookup sid s.problem_ids;
      language_type = language_int meta.language;
      tasks = tasks;
      total_score = total;
      static_analysis = lookup sid s.sa_payloads;
      late_seconds = env.late_seconds;
      stats = build_scoring_stats results;
      checker_artifacts = checker_artifacts_for_scoring (lookup sid s.checker_payloads);
    }

-- The scoring payload of the scorer's result, and the override of the submission's status.
unfoldable pub scoring_payload : ScorerResult → Option Scoring × Option Text
scoring_payload r = (
  some (record {
    status = if is_empty r.status then codes "OK" else r.status;
    score = r.score;
    message = r.message;
    breakdown = r.breakdown;
    stdout = r.stdout;
    stderr = r.stderr;
  }),
  if text_eq r.status (codes "JE") then some (codes "JE") else none,
)

unfoldable pub setup_error_payload : Text → Option Scoring × Option Text
setup_error_payload message = (
  some (record {
    status = codes "JE";
    score = int (pos 0);
    message = str message;
    breakdown = null;
    stdout = [];
    stderr = [];
  }),
  some (codes "JE"),
)

abbrev text_or_empty : Option Text → Text
text_or_empty none = []
text_or_empty (some t) = t

unfoldable pub run_custom_scorer_if_needed :
    Env
    → Text
    → Meta
    → List (List (Option CaseResult))
    → State
    → Result (Option Scoring × Option Text)
run_custom_scorer_if_needed env sid meta lists s =
    let info = info_of sid s.custom_scorer_info in
    let scored : Result (Option Scoring × Option Text) = do
      results ← demand_tasks lists
      r ←
          run_custom_scorer env.loads (
            env.run_scorer (scoring_input env sid meta results s) (scorer_time_limit_ms meta.tasks))
      ok (scoring_payload r)
    in if not info.enabled
      then ok (none, none)
      else if truthy_text info.error
      then ok (setup_error_payload (text_or_empty info.error))
      else scored
