-- ===== src/Scoring.antt =====
-- dispatcher/dispatcher.py, the input of the scorer: _build_scoring_tasks, _build_scoring_stats,
-- _scorer_time_limit_ms and _checker_artifacts_for_scoring.
pub mod Totals
use sandbox_2025team.Base.{
  ℕ, zero, suc, ◌+◌, Bool, true, false, List, [], ◌∷◌, ◌++◌, Option, none, some, ◌&&◌,
  if◌then◌else◌, get_elem?, length, all, map,
}
use sandbox_2025team.Base.Int.{ℤ, pos, ◌+ℤ◌, eqb_ℤ, ltb_ℤ, sum_ℤ}
use sandbox_2025team.Base.Text.{Text, codes, text_eq}
use sandbox_2025team.Json.{Json, truthy}
use sandbox_2025team.Meta.{Task}
use sandbox_2025team.Results.{CaseResult}

pub record ScoredCase : Type 0 where
  pub case_index : ℕ
  pub status : Text
  pub run_time : ℤ
  pub memory_usage : ℤ

pub record ScoredTask : Type 0 where
  pub task_index : ℕ
  pub task_score : ℤ
  pub case_count : ℤ
  pub results : List ScoredCase
  pub subtask_score : ℤ

-- The loop over the cases of a task: the entries, and whether all of them are AC.
unfoldable pub score_cases : ℕ → List CaseResult → List ScoredCase × Bool
score_cases i [] = ([], true)
score_cases i (r ∷ rs) =
    let (entries, all_ac) = score_cases (i + 1) rs in
    (
      record {
        case_index = i;
        status = r.status;
        run_time = r.exec_time;
        memory_usage = r.memory_usage;
      }
          ∷ entries,
      text_eq r.status (codes "AC") && all_ac,
    )

unfoldable pub score_task : ℕ → Task → List CaseResult → ScoredTask
unfolding score_cases
score_task idx task cases =
    let (entries, all_ac) = score_cases 0 cases in
    record {
      task_index = idx;
      task_score = task.task_score;
      case_count = task.case_count;
      results = entries;
      subtask_score =
          if all_ac && eqb_ℤ (pos (length cases)) task.case_count then task.task_score else pos 0;
    }

-- `submission_result[idx] if idx < len(submission_result) else []`.
abbrev pub cases_at : List (List CaseResult) → ℕ → List CaseResult
cases_at results idx = elim (get_elem? results idx) [ none ↦ [] | some cases ↦ cases ]

-- The loop over the tasks, with its two accumulators.
unfoldable pub score_loop :
    (idx : ℕ) → List Task → List (List CaseResult) → List ScoredTask → ℤ → List ScoredTask × ℤ
score_loop idx [] results payload total = (payload, total)
score_loop idx (t ∷ ts) results payload total =
    let scored = score_task idx t (cases_at results idx) in
    score_loop (idx + 1) ts results (payload ++ scored ∷ []) (total +ℤ scored.subtask_score)

unfoldable pub build_scoring_tasks : List Task → List (List CaseResult) → List ScoredTask × ℤ
unfolding score_loop
build_scoring_tasks tasks results = score_loop 0 tasks results [] (pos 0)

-- An average is left as its sum and count: the code rounds their quotient to two places.
pub data Average : Type 0 where
  no_values : Average
  quotient : ℤ → ℕ → Average

pub record Aggregate : Type 0 where
  pub maximum : ℤ
  pub average : Average
  pub sum : ℤ

pub record Stats : Type 0 where
  pub run_time : Aggregate
  pub memory : Aggregate

-- `max(vals)` of a list with first element `m`.
unfoldable pub max_from : ℤ → List ℤ → ℤ
max_from m [] = m
max_from m (v ∷ vs) = max_from (if ltb_ℤ m v then v else m) vs

unfoldable pub aggregate : List ℤ → Aggregate
unfolding max_from
aggregate [] = record { maximum = pos 0; average = no_values; sum = pos 0 }
aggregate (v ∷ vs) = record {
  maximum = max_from v vs;
  average = quotient (sum_ℤ (v ∷ vs)) (length (v ∷ vs));
  sum = sum_ℤ (v ∷ vs);
}

-- The values that are at least zero: -1 stands for a missing measurement.
unfoldable pub measured : (CaseResult → ℤ) → List CaseResult → List ℤ
measured f [] = []
measured f (r ∷ rs) = if ltb_ℤ (f r) (pos 0) then measured f rs else f r ∷ measured f rs

unfoldable pub measured_all : (CaseResult → ℤ) → List (List CaseResult) → List ℤ
unfolding measured
measured_all f [] = []
measured_all f (cases ∷ rest) = measured f cases ++ measured_all f rest

unfoldable pub build_scoring_stats : List (List CaseResult) → Stats
unfolding measured_all aggregate
build_scoring_stats results = record {
  run_time = aggregate (measured_all (λ r. r.exec_time) results);
  memory = aggregate (measured_all (λ r. r.memory_usage) results);
}

-- `max(t.timeLimit for t in meta.tasks)`, 5000 where there is no task.
unfoldable pub scorer_time_limit_ms : List Task → ℤ
unfolding max_from
scorer_time_limit_ms [] = pos 5000
scorer_time_limit_ms (t ∷ ts) = max_from t.time_limit (map (λ u. u.time_limit) ts)

pub record CheckerMessage : Type 0 where
  pub case : Text
  pub status : Text
  pub message : Text

-- The dict of type "custom"; nothing of the program sets its "artifacts".
pub record CheckerPayload : Type 0 where
  pub messages : List CheckerMessage
  pub artifacts : Option Json

pub data CheckerArtifacts : Type 0 where
  nothing : CheckerArtifacts
  given : Json → CheckerArtifacts
  payload : CheckerPayload → CheckerArtifacts

unfoldable pub checker_artifacts_for_scoring : Option CheckerPayload → CheckerArtifacts
checker_artifacts_for_scoring none = nothing
checker_artifacts_for_scoring (some p) = elim p.artifacts [
  | none ↦ payload p
  | some a ↦ if truthy a then given a else payload p
]
