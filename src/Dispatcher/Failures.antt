-- ===== src/Dispatcher/Failures.antt =====
-- dispatcher/dispatcher.py, the callers of on_submission_complete: _handle_sa_failure,
-- _mark_submission_failed, _handle_network_failure, _handle_build_failure and on_case_complete.
pub mod Cases
pub mod Reported
pub mod Queue
use sandbox_2025team.Dispatcher.Complete.{on_submission_complete}
use sandbox_2025team.Errors.{Result, raise, ok, submission_id_not_found, value_error}
use sandbox_2025team.Dispatcher.State.{State, Results, clear_submission_jobs, is_unfinished}
use sandbox_2025team.Results.{CaseResult, make_all_cases_result}
use sandbox_2025team.Json.{Json, truthy}
use sandbox_2025team.Dispatcher.Scorer.{Env}
use sandbox_2025team.Dict.{Dict, lookup, insert, delete, discard, has_key}
use sandbox_2025team.Base.Text.{Text, codes}
use sandbox_2025team.Base.{
  Option, Bool, some, if◌then◌else◌, false, is_empty, ◌++◌, [], ◌∷◌, none, not,
}

abbrev pub truthy_json : Option Json → Bool
truthy_json none = false
truthy_json (some v) = truthy v

unfoldable pub note_payload : Text → Option Json → State → State
note_payload sid none s = s
note_payload sid (some v) s = record s { sa_payloads = insert sid v s.sa_payloads }

-- The results of a failure are there for every case.
unfoldable pub all_done : Dict CaseResult → Results
all_done [] = []
all_done ((k, r) ∷ d) = (k, some r) ∷ all_done d

-- _handle_sa_failure, its payload being None or a dict that may be empty.
unfoldable pub handle_sa_failure :
    Env → Text → Option Json → Dict CaseResult → State → Result (Unit {0}) × State
handle_sa_failure env sid payload task_content s = elim (lookup sid s.result) [
  | none ↦ (ok tt, s)
  | some (meta, _) ↦
      let noted = if truthy_json payload then note_payload sid payload s else s in
      on_submission_complete env sid
        (record noted { result = insert sid (meta, all_done task_content) s.result })
]

unfoldable pub mark_submission_failed :
    Env → Text → (status message : Text) → State → Result (Unit {0}) × State
mark_submission_failed env sid status message s = elim (lookup sid s.result) [
  | none ↦ (ok tt, s)
  | some (meta, _) ↦ on_submission_complete env sid (record s {
    result = insert sid (meta, all_done (make_all_cases_result meta status message)) s.result;
  })
]

unfoldable pub handle_network_failure : Env → Text → Text → State → Result (Unit {0}) × State
unfolding mark_submission_failed
handle_network_failure env sid error_msg s =
    mark_submission_failed env sid (codes "CE") (codes "Network Setup Failed: " ++ error_msg) s

unfoldable pub handle_build_failure : Env → Text → Text → State → Result (Unit {0}) × State
unfolding mark_submission_failed
handle_build_failure env sid message s =
    let err_msg = if is_empty message then codes "build failed" else message in
    mark_submission_failed env sid (codes "CE") err_msg (
      clear_submission_jobs sid (record s {
        build_plans = delete sid s.build_plans;
        build_locks = delete sid s.build_locks;
        prebuilt_submissions = discard sid s.prebuilt_submissions;
      }))

-- on_case_complete, under the lock of the submission.
unfoldable pub on_case_complete : Env → Text → Text → CaseResult → State → Result (Unit {0}) × State
on_case_complete env sid number r s = elim (lookup sid s.result) [
  | none ↦ (raise submission_id_not_found, s)
  | some (meta, results) ↦
      let filled = insert number (some r) results in
      let next = record s { result = insert sid (meta, filled) s.result } in
      let completed = on_submission_complete env sid next in
      if not (has_key number results)
      then (raise value_error, s)
      else if is_unfinished filled
      then (ok tt, next)
      else completed
]
