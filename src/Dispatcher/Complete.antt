-- ===== src/Dispatcher/Complete.antt =====
-- dispatcher/dispatcher.py, on_submission_complete and release: the report of a submission and the
-- end of its entries.
pub mod Forget
pub mod Sending
use sandbox_2025team.Results.{CaseResult}
use sandbox_2025team.Grouping.{group}
use sandbox_2025team.Dict.{discard, delete, lookup, contains}
use sandbox_2025team.Errors.{Result, raise, ok, submission_id_not_found}
use sandbox_2025team.Dispatcher.State.{
  State, Results, Scoring, network_cleanup, Report, artifact_cleanup, upload_artifacts, clean_data,
  backup_data, Effect,
}
use sandbox_2025team.Meta.{Meta}
use sandbox_2025team.Dispatcher.Scorer.{Env, run_custom_scorer_if_needed, unreachable, replied}
use sandbox_2025team.Base.Text.{Text}
use sandbox_2025team.Base.{
  List, Option, ◌++◌, Bool, ◌∷◌, [], none, false, some, if◌then◌else◌, ◌&&◌, not,
}

-- release() forgets a submission; the sets of trial submissions is left as it is.
unfoldable pub release : Text → State → State
release sid s = record s {
  result = delete sid s.result;
  compile_locks = delete sid s.compile_locks;
  compile_results = delete sid s.compile_results;
  locks = delete sid s.locks;
  created_at = delete sid s.created_at;
  problem_ids = delete sid s.problem_ids;
  sa_payloads = delete sid s.sa_payloads;
  pending_tasks = delete sid s.pending_tasks;
  prebuilt_submissions = discard sid s.prebuilt_submissions;
  build_strategies = delete sid s.build_strategies;
  build_plans = delete sid s.build_plans;
  build_locks = delete sid s.build_locks;
  custom_checker_info = delete sid s.custom_checker_info;
  custom_scorer_info = delete sid s.custom_scorer_info;
  checker_payloads = delete sid s.checker_payloads;
  resource_dirs = delete sid s.resource_dirs;
  teacher_resource_dirs = delete sid s.teacher_resource_dirs;
  effects = s.effects ++ network_cleanup sid ∷ artifact_cleanup sid ∷ [];
}

unfoldable pub report_of :
    Text → List (List (Option CaseResult)) → Option Scoring → Option Text → State → Report
report_of sid lists scoring override s = record {
  submission_id = sid;
  to_trial = contains sid s.trial_submissions;
  tasks = lists;
  static_analysis = lookup sid s.sa_payloads;
  checker = lookup sid s.checker_payloads;
  scoring = scoring;
  status_override = override;
}

-- The `finally` block.
unfoldable pub finally_release : Text → State → State
unfolding release
finally_release sid s =
    release sid (record s { trial_submissions = discard sid s.trial_submissions })

-- Behind a good answer the artifacts are uploaded and the data removed; a backup is made where the
-- report did not get through or the removal fails. A failing backup is tried again by the handler
-- and then leaves by its exception.
unfoldable pub settle : Env → Text → List Effect → Result (Unit {0}) × List Effect
settle env sid effects =
    let accepted : Bool = elim env.put [ unreachable ↦ false | replied is_ok ↦ is_ok ] in
    let uploaded = if accepted then effects ++ upload_artifacts sid ∷ [] else effects in
    if accepted && not env.clean_fails
    then (ok tt, uploaded ++ clean_data sid ∷ [])
    else elim env.backup_fails [
      | some x ↦ (raise x, uploaded)
      | none ↦ (ok tt, uploaded ++ backup_data sid ∷ [])
    ]

unfoldable pub after_put : Env → Text → State → Result (Unit {0}) × State
after_put env sid s =
    let (outcome, effects) = settle env sid s.effects in
    (outcome, finally_release sid (record s { effects = effects }))

unfoldable pub send :
    Env
    → Text
    → List (List (Option CaseResult))
    → Option Scoring × Option Text
    → State
    → Result (Unit {0}) × State
send env sid lists (scoring, override) s =
    after_put env sid
      (record s { reports = s.reports ++ report_of sid lists scoring override s ∷ [] })

unfoldable pub complete_with : Env → Text → Meta → Results → State → Result (Unit {0}) × State
complete_with env sid meta results s = elim (group results) [
  | raise x ↦ (raise x, s)
  | ok lists ↦ elim (run_custom_scorer_if_needed env sid meta lists s) [
    | raise x ↦ (raise x, s)
    | ok scoring ↦ send env sid lists scoring s
  ]
]

unfoldable pub on_submission_complete : Env → Text → State → Result (Unit {0}) × State
on_submission_complete env sid s = elim (lookup sid s.result) [
  | none ↦ (raise submission_id_not_found, s)
  | some (meta, results) ↦ if s.testing then (ok tt, s) else complete_with env sid meta results s
]
