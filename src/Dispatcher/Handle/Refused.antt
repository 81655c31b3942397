-- ===== src/Dispatcher/Handle/Refused.antt =====
-- A request that handle refuses because its submission is already there.
use sandbox_2025team.Dict.Laws.{contains-add}
use sandbox_2025team.Dict.{contains, add}
use sandbox_2025team.Results.{CaseResult}
use sandbox_2025team.Errors.{raise, duplicated_submission_id}
use sandbox_2025team.Dispatcher.Complete.{report_of}
use sandbox_2025team.Dispatcher.Handle.{handle, raise, duplicated_submission_id}
use sandbox_2025team.Dispatcher.State.{State, contains_id, Scoring}
use sandbox_2025team.Base.Text.{Text, text_eq_refl}
use sandbox_2025team.Dispatcher.Prepare.{HandleEnv}
use sandbox_2025team.Base.{ℕ, ◌≡◌, true, false, List, Option, refl, arith}

module _ (env : HandleEnv) (checker scorer sid : Text) (p : ℕ) (s : State)
    (exists : env.exists ≡ true) (is_dir : env.is_dir ≡ true)
    (taken : contains_id sid s ≡ true) where
  -- A second request for a submission that is in progress raises DuplicatedSubmissionIdError and
  -- leaves the state as it is, if it is not a trial request.
  pub handle_duplicate :
      handle env checker scorer sid p false s ≡ (raise duplicated_submission_id, s)
  unfolding handle
  handle_duplicate = rw (exists, handle) (rw is_dir (rw taken refl))

  -- A request for a submission that is in progress, not as a trial, raises
  -- DuplicatedSubmissionIdError if it is a trial one, but has marked the submission as a trial:
  -- its report, which went to the normal endpoint before, goes to the trial endpoint.
  pub handle_duplicate_trial :
      (lists : List (List (Option CaseResult))) (scoring : Option Scoring) (override : Option Text)
      → contains sid s.trial_submissions ≡ false
      → let (outcome, after) = handle env checker scorer sid p true s in
        (outcome ≡ raise duplicated_submission_id)
        × ((report_of sid lists scoring override s).to_trial ≡ false)
        × ((report_of sid lists scoring override after).to_trial ≡ true)
  unfolding handle report_of
  handle_duplicate_trial lists scoring override normal =
      let marks : contains sid (add sid s.trial_submissions) ≡ true =
        ground (arith, contains-add sid sid s.trial_submissions, text_eq_refl sid) in
      rw (exists, handle) (rw is_dir (rw taken (refl, normal, marks)))
