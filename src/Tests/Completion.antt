-- ===== src/Tests/Completion.antt =====
-- The end of a submission.
use sandbox_2025team.Grouping.Split.{HasGap-IsSplit}
use sandbox_2025team.CaseNo.{pad2, digits}
use sandbox_2025team.Dispatcher.Failures.Reported.{complete_cases-IsReported}
use sandbox_2025team.Base.Int.{pos}
use sandbox_2025team.Json.{is_object, int}
use sandbox_2025team.Dispatcher.Complete.Sending.{
  on_submission_complete_reports, scorer_no_object_stuck,
}
use sandbox_2025team.Grouping.Gap.{group_gap}
use sandbox_2025team.Dispatcher.Scorer.{demand_tasks, run_custom_scorer_if_needed, demand_cases}
use sandbox_2025team.Dispatcher.Failures.Cases.{missing, filled_by, complete_cases}
use sandbox_2025team.Meta.{compile}
use sandbox_2025team.Errors.{ok, raise, attribute_error}
use sandbox_2025team.Dispatcher.Complete.{release, on_submission_complete, report_of}
use sandbox_2025team.Grouping.{group}
use sandbox_2025team.Tests.Data.{
  holding, empty_state, sid, accepted, two_tasks, other_sid, env, no_cases, hard,
}
use sandbox_2025team.CaseNo.{case_no}
use sandbox_2025team.Base.Text.{text_eq, Text, codes}
use sandbox_2025team.Results.{CaseResult}
use sandbox_2025team.Dict.{Dict, lookup, has_key, values}
use sandbox_2025team.Grouping.Complete.{chunks, group-eq-chunks}
use sandbox_2025team.Dispatcher.State.{State, Results, info_of, compile}
use sandbox_2025team.Dispatcher.Complete.Forget.{IsGone, IsReported, AgreeOn, release_forgets}
use sandbox_2025team.Base.{List, Option, some, ◌≡◌, ◌≢◌, true, none, ◌∷◌, [], arith, refl}

abbrev one_missing : Results
one_missing = (case_no 0 0, some accepted) ∷ (case_no 0 1, none) ∷ (case_no 1 0, some accepted) ∷ []

abbrev last_case : Dict CaseResult
last_case = (case_no 0 1, accepted) ∷ []

abbrev waiting_state : State
waiting_state = holding two_tasks one_missing

complete_cases-IsReported_example :
    IsReported sid
      (report_of sid
        (chunks two_tasks.tasks (values (filled_by last_case one_missing)))
        none
        none
        waiting_state)
      waiting_state
      (complete_cases env sid last_case waiting_state)
unfolding lookup text_eq info_of missing has_key case_no pad2 digits
complete_cases-IsReported_example =
    complete_cases-IsReported env sid two_tasks waiting_state one_missing last_case refl refl refl
      (omega arith) (omega arith, (omega arith, tt)) refl (refl, tt) (refl, tt) refl (omega arith)

release_forgets_example :
    IsGone sid (release sid waiting_state)
    × ((j : Text) → sid ≢ j → AgreeOn j waiting_state (release sid waiting_state))
release_forgets_example = release_forgets sid waiting_state

abbrev full_results : Results
full_results =
    (case_no 0 0, some accepted) ∷ (case_no 0 1, some accepted) ∷ (case_no 1 0, some accepted) ∷ []

abbrev full_lists : List (List (Option CaseResult))
full_lists = (some accepted ∷ some accepted ∷ []) ∷ (some accepted ∷ []) ∷ []

abbrev full_state : State
full_state = holding two_tasks full_results

full_lists_lem : group full_results ≡ ok full_lists
full_lists_lem =
    group-eq-chunks two_tasks.tasks full_results (omega arith) (omega arith, (omega arith, tt)) refl

on_submission_complete_reports_example :
    IsReported sid
      (report_of sid full_lists none none full_state)
      full_state
      (on_submission_complete env sid full_state).1
unfolding lookup text_eq info_of run_custom_scorer_if_needed
on_submission_complete_reports_example =
    on_submission_complete_reports env sid full_state two_tasks full_results refl refl full_lists
      (none, none) full_lists_lem refl

abbrev gap_results : Results
gap_results = (case_no 1 0, some accepted) ∷ []

gap_results_lem : (lists : List (List (Option CaseResult))) → group gap_results ≢ ok lists
gap_results_lem lists =
    group_gap (no_cases ∷ hard ∷ [])
      (HasGap-IsSplit (no_cases ∷ hard ∷ []) (record {
        before = [];
        empty_task = no_cases;
        between = [];
        filled = hard;
        after = [];
        split = refl;
        few = omega arith;
        no_case = refl;
        some_case = omega arith;
      }))
      gap_results lists refl

-- The submission has a scorer.
abbrev scored_state : State
scored_state = record full_state {
  custom_scorer_info =
      (sid, record { enabled = true; error = none; path = some (codes "p"); image = none }) ∷ [];
}

scorer_no_object_stuck_example :
    on_submission_complete env sid scored_state ≡ (raise attribute_error, scored_state)
unfolding lookup text_eq info_of demand_tasks demand_cases is_object
scorer_no_object_stuck_example =
    scorer_no_object_stuck env sid scored_state two_tasks full_results refl refl full_lists
      ((accepted ∷ accepted ∷ []) ∷ (accepted ∷ []) ∷ []) (codes "7") [] (pos 0) (int (pos 7))
      full_lists_lem refl refl refl refl refl refl refl

abbrev two_jobs : State
two_jobs = record empty_state { queue = compile sid ∷ compile other_sid ∷ [] }
