-- ===== src/Dispatcher/Complete/Sending.antt =====
-- on_submission_complete: the report is sent once, and the submission is forgotten, whatever the
-- backend answers; or nothing happens at all.
use sandbox_2025team.Scorer.Output.{run_custom_scorer_other}
use sandbox_2025team.Scorer.{finished}
use sandbox_2025team.Scoring.{scorer_time_limit_ms}
use sandbox_2025team.Json.{Json, is_object}
use sandbox_2025team.Base.Int.{ℤ}
use sandbox_2025team.Errors.{ok, Exn, raise, Result-cases, attribute_error}
use sandbox_2025team.Grouping.{group}
use sandbox_2025team.Dict.{discard, lookup, contains}
use sandbox_2025team.Results.{CaseResult}
use sandbox_2025team.Meta.{Meta}
use sandbox_2025team.Dispatcher.Complete.Forget.{
  IsGone, release_forgets, IsReported, AgreeOn, contains-discard_ne, contains-discard_self,
}
use sandbox_2025team.Dispatcher.State.{
  State, Report, Results, Effect, Scoring, info_of, truthy_text,
}
use sandbox_2025team.Dispatcher.Scorer.{
  Env, run_custom_scorer_if_needed, demand_tasks, scoring_input,
}
use sandbox_2025team.Base.Text.{Text}
use sandbox_2025team.Dispatcher.Complete.{
  finally_release, after_put, on_submission_complete, send, Text, complete_with, State, Env, Report,
  Meta, CaseResult, Results, Effect, release, Scoring, lookup, discard, report_of, group, ok,
  run_custom_scorer_if_needed, raise, settle,
}
use sandbox_2025team.Base.{
  List, Option, ◌≢◌, ◌≡◌, refl, false, some, ◌++◌, ◌∷◌, [], ◌∙◌, inl, inr, true, is_empty,
}

finally_release-IsGone : (sid : Text) (s : State) → IsGone sid (finally_release sid s)
unfolding finally_release
finally_release-IsGone sid s =
    (release_forgets sid (record s { trial_submissions = discard sid s.trial_submissions })).0

module _ (sid : Text) (reports : List Report) (effects : List Effect) (s : State) where
  abbrev ended : State
  ended = finally_release sid (record s { reports = reports; effects = effects })

  ended-AgreeOn : (j : Text) → sid ≢ j → AgreeOn j s ended
  unfolding finally_release release
  ended-AgreeOn j h =
      let discarded = discard sid s.trial_submissions in
      let before = record s {
        reports = reports;
        effects = effects;
        trial_submissions = discarded;
      } in
      let kept = (release_forgets sid before).1 j h in
      record {
        result = kept.result;
        locks = kept.locks;
        compile_locks = kept.compile_locks;
        compile_results = kept.compile_results;
        created_at = kept.created_at;
        problem_ids = kept.problem_ids;
        sa_payloads = kept.sa_payloads;
        pending_tasks = kept.pending_tasks;
        prebuilt = kept.prebuilt;
        build_strategies = kept.build_strategies;
        build_plans = kept.build_plans;
        build_locks = kept.build_locks;
        custom_checker_info = kept.custom_checker_info;
        custom_scorer_info = kept.custom_scorer_info;
        checker_payloads = kept.checker_payloads;
        resource_dirs = kept.resource_dirs;
        teacher_resource_dirs = kept.teacher_resource_dirs;
        trial = contains-discard_ne sid j s.trial_submissions h;
      }

  ended-not_trial : contains sid ended.trial_submissions ≡ false
  unfolding finally_release release
  ended-not_trial = contains-discard_self sid s.trial_submissions

  ended-reports : ended.reports ≡ reports
  unfolding finally_release release
  ended-reports = refl

  ended-queue : ended.queue ≡ s.queue
  unfolding finally_release release
  ended-queue = refl

send-IsReported :
    (env : Env) (sid : Text) (lists : List (List (Option CaseResult)))
    (scoring : Option Scoring × Option Text) (s : State)
    → IsReported sid (report_of sid lists scoring.0 scoring.1 s) s (send env sid lists scoring s).1
unfolding send after_put
send-IsReported env sid lists (scoring, override) s =
    let reports = s.reports ++ report_of sid lists scoring override s ∷ [] in
    let effects = (settle env sid s.effects).1 in
    record {
      gone = finally_release-IsGone sid (record s { reports = reports; effects = effects });
      not_trial = ended-not_trial sid reports effects s;
      sent = ended-reports sid reports effects s;
      others = ended-AgreeOn sid reports effects s;
      queue = ended-queue sid reports effects s;
    }

module _ (env : Env) (sid : Text) (s : State) (meta : Meta) (results : Results)
    (found : lookup sid s.result ≡ some (meta, results)) (live : s.testing ≡ false) where
  opened : on_submission_complete env sid s ≡ complete_with env sid meta results s
  unfolding on_submission_complete
  opened = rw (found, on_submission_complete) (rw live)

  completed :
      (lists : List (List (Option CaseResult))) (scoring : Option Scoring × Option Text)
      → group results ≡ ok lists
      → run_custom_scorer_if_needed env sid meta lists s ≡ ok scoring
      → on_submission_complete env sid s ≡ send env sid lists scoring s
  unfolding complete_with
  completed lists scoring grouped scored = opened ∙ rw (grouped, complete_with) (rw scored)

  -- Outside of testing, where the results of a registered submission regroup and the scorer comes
  -- to a payload or to none, the submission is reported once, to the endpoint of its kind, and
  -- then forgotten, on each answer of the backend and also where the clean-up or the backup
  -- fails; no other submission and no job is touched.
  pub on_submission_complete_reports :
      (lists : List (List (Option CaseResult))) (scoring : Option Scoring × Option Text)
      → group results ≡ ok lists
      → run_custom_scorer_if_needed env sid meta lists s ≡ ok scoring
      → IsReported sid
          (report_of sid lists scoring.0 scoring.1 s)
          s
          (on_submission_complete env sid s).1
  on_submission_complete_reports lists scoring grouped scored =
      rw (completed lists scoring grouped scored) (send-IsReported env sid lists scoring s)

  -- Outside of testing, where the results of a registered submission do not regroup,
  -- on_submission_complete raises before the report and before the `finally` block: the state
  -- stays as it is, and the submission is neither reported nor released.
  pub on_submission_complete_stuck :
      ((lists : List (List (Option CaseResult))) → group results ≢ ok lists)
      → (x : Exn) × (on_submission_complete env sid s ≡ (raise x, s))
  unfolding complete_with
  on_submission_complete_stuck bad = elim (Result-cases (group results)) [
    | inl (lists, grouped) ↦ absurd (bad lists grouped)
    | inr (x, raised) ↦ (x, opened ∙ rw (raised, complete_with))
  ]

  scorer_crashed :
      (lists : List (List (Option CaseResult))) (x : Exn)
      → group results ≡ ok lists
      → run_custom_scorer_if_needed env sid meta lists s ≡ raise x
      → on_submission_complete env sid s ≡ (raise x, s)
  unfolding complete_with
  scorer_crashed lists x grouped raised = opened ∙ rw (grouped, complete_with) (rw raised)

  -- Outside of testing, where the results of a registered submission regroup and no case misses
  -- its result, a prepared scorer that prints a JSON value other than an object makes
  -- on_submission_complete raise an AttributeError before the report, with the state as it was:
  -- the submission is neither reported nor released.
  pub scorer_no_object_stuck :
      (lists : List (List (Option CaseResult))) (cases : List (List CaseResult))
      (stdout stderr : Text) (exit_code : ℤ) (v : Json)
      → group results ≡ ok lists
      → demand_tasks lists ≡ ok cases
      → (info_of sid s.custom_scorer_info).enabled ≡ true
      → truthy_text (info_of sid s.custom_scorer_info).error ≡ false
      → env.run_scorer (scoring_input env sid meta cases s) (scorer_time_limit_ms meta.tasks)
        ≡ finished stdout stderr exit_code
      → is_empty stdout ≡ false
      → env.loads stdout ≡ some v
      → is_object v ≡ false
      → on_submission_complete env sid s ≡ (raise attribute_error, s)
  unfolding run_custom_scorer_if_needed
  scorer_no_object_stuck lists cases stdout stderr exit_code v grouped demanded on good ran text
        parsed other =
      scorer_crashed lists attribute_error grouped (
        rw (on, run_custom_scorer_if_needed)
          (rw good (
            rw demanded (
              rw ran (
                rw (
                  run_custom_scorer_other env.loads stdout stderr exit_code v text parsed
                    other))))))
