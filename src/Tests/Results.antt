-- ===== src/Tests/Results.antt =====
-- The results, their regrouping, the verdicts and the scores.
use sandbox_2025team.Runner.Verdict.{run-append_space}
use sandbox_2025team.Base.Int.{◌+ℤ◌}
use sandbox_2025team.Checker.Outcome.{checker_outcome-ac_iff}
use sandbox_2025team.Runner.{CaseFiles, SandboxResult, run, exited}
use sandbox_2025team.Grouping.Complete.{chunks, group-eq-chunks}
use sandbox_2025team.Json.{Json, obj, end}
use sandbox_2025team.Tests.Data.{easy, accepted, hard}
use sandbox_2025team.Errors.{ok}
use sandbox_2025team.CaseNo.Roundtrip.{parse-format, case_no-collides}
use sandbox_2025team.Results.{CaseResult}
use sandbox_2025team.Scoring.{build_scoring_tasks, score_task}
use sandbox_2025team.Output.{is_space}
use sandbox_2025team.Base.Text.{Text, codes}
use sandbox_2025team.CaseNo.{task_of, case_no, case_of}
use sandbox_2025team.Dict.{Dict, values}
use sandbox_2025team.Base.Int.{pos, ◌≤ℤ◌, sum_ℤ}
use sandbox_2025team.Meta.{validate_task}
use sandbox_2025team.Grouping.{group}
use sandbox_2025team.Scoring.Totals.{IsAccepted, subtask_all_or_nothing, total_bounds}
use sandbox_2025team.Checker.{checker_outcome, parse_checker_output}
use sandbox_2025team.Base.{
  List, ◌≡◌, ◌/◌, Option, some, [], ◌∷◌, arith, ◌%◌, ◌↔◌, false, ◌*◌, ◌+◌, refl, ◌++◌,
}

parse-format_example : (task_of (case_no 7 123) ≡ some 7) × (case_of (case_no 7 123) ≡ some 123)
parse-format_example = parse-format 7 123 (omega arith)

case_no-collides_example :
    (case_no 123 4 ≡ case_no (123 / 10) (123 % 10 * 100 + 4))
    × (task_of (case_no 123 4) ≡ some (123 / 10))
case_no-collides_example =
    case_no-collides 123 4 (omega arith) (omega arith) (omega arith) (omega arith)

abbrev three_results : Dict CaseResult
three_results = (case_no 0 0, accepted) ∷ (case_no 0 1, accepted) ∷ (case_no 1 0, accepted) ∷ []

group-eq-chunks_example :
    group three_results ≡ ok (chunks (easy ∷ hard ∷ []) (values three_results))
group-eq-chunks_example =
    group-eq-chunks (easy ∷ hard ∷ []) three_results (omega arith) (omega arith, (omega arith, tt))
      refl

checker_outcome-ac_iff_example :
    ((checker_outcome (codes "STATUS: AC") [] (pos 0)).status ≡ codes "AC")
    ↔ ((pos 0 ≡ pos 0) × ((parse_checker_output (codes "STATUS: AC")).0 ≡ some (codes "AC")))
checker_outcome-ac_iff_example = checker_outcome-ac_iff (codes "STATUS: AC") [] (pos 0)

abbrev all_accepted : List (List CaseResult)
all_accepted = (accepted ∷ accepted ∷ []) ∷ (accepted ∷ []) ∷ []

valid_tasks : validate_task (easy ∷ hard ∷ []) ≡ some (easy ∷ hard ∷ [])
unfolding validate_task sum_ℤ ◌+ℤ◌
valid_tasks = refl

total_bounds_example :
    (pos 0 ≤ℤ (build_scoring_tasks (easy ∷ hard ∷ []) all_accepted).1)
    × ((build_scoring_tasks (easy ∷ hard ∷ []) all_accepted).1 ≤ℤ pos 100)
total_bounds_example =
    total_bounds (easy ∷ hard ∷ []) (easy ∷ hard ∷ []) all_accepted valid_tasks
      (omega arith, (omega arith, tt))

subtask_all_or_nothing_example :
    (IsAccepted easy (accepted ∷ []) → (score_task 0 easy (accepted ∷ [])).subtask_score ≡ pos 40)
    × (¬ IsAccepted easy (accepted ∷ [])
        → (score_task 0 easy (accepted ∷ [])).subtask_score ≡ pos 0)
subtask_all_or_nothing_example = subtask_all_or_nothing 0 easy (accepted ∷ [])

abbrev loads_object : Text → Option Json
loads_object text = some (obj end)

abbrev case_files : CaseFiles
case_files = record {
  input_path = [];
  output_path = [];
  input_exists = false;
  output_exists = false;
  answer = some (codes "42");
}

abbrev printed : SandboxResult
printed = record {
  status = codes "Exited Normally";
  duration = pos 3;
  mem_usage = pos 9;
  stdout = codes "42";
  stderr = [];
  docker_exit_code = pos 0;
}

run-append_space_example :
    (run false
      (record case_files { answer = some (codes "42" ++ 13 ∷ 10 ∷ []) })
      (exited (record printed { stdout = codes "42" ++ 32 ∷ 10 ∷ 10 ∷ [] }))).status
    ≡ (run false case_files (exited printed)).status
unfolding is_space
run-append_space_example =
    run-append_space false case_files printed (codes "42") (32 ∷ 10 ∷ 10 ∷ []) (13 ∷ 10 ∷ [])
      (refl, (refl, (refl, tt))) (refl, (refl, tt))
