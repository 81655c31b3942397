-- ===== src/Tests/Handle.antt =====
-- Requests, and the threads of the cases.
use sandbox_2025team.Dispatcher.Container.Verdict.{apply_checker-ac_iff}
use sandbox_2025team.Dispatcher.Handle.Refused.{handle_duplicate_trial}
use sandbox_2025team.Checker.{CheckerRun, parse_checker_output}
use sandbox_2025team.Dispatcher.Complete.Forget.{IsGone}
use sandbox_2025team.Dispatcher.Complete.{report_of}
use sandbox_2025team.Dispatcher.Handle.Accepted.{
  IsAcceptedBy, handle-IsAcceptedBy, handle_full_queue,
}
use sandbox_2025team.Runner.{judge_error, only_status}
use sandbox_2025team.Errors.{ok, raise, duplicated_submission_id, queue_full}
use sandbox_2025team.Base.Int.{pos}
use sandbox_2025team.Dispatcher.Prepare.{prepared, prepare_with_build_strategy}
use sandbox_2025team.CaseNo.{case_no}
use sandbox_2025team.Meta.{compile, py, ExecutionMode}
use sandbox_2025team.Results.{RunnerResult}
use sandbox_2025team.Dispatcher.Handle.{handle}
use sandbox_2025team.Tests.Data.{holding, sid, empty_state, handle_env, two_tasks, other_sid, env}
use sandbox_2025team.Dispatcher.Container.{CaseEnv, apply_checker, final_statuses}
use sandbox_2025team.Dispatcher.Handle.Outcome.{IsPrepared}
use sandbox_2025team.Dict.{has_key, lookup, contains}
use sandbox_2025team.Base.Text.{Text, text_eq, codes, one_of}
use sandbox_2025team.Dispatcher.State.{
  CaseArgs, info_of, BuildPlan, is_full, State, compile, Job, contains_id,
}
use sandbox_2025team.Base.{
  true, false, [], none, ◌≡◌, some, inl, inr, ◌∷◌, refl, ◌↔◌, Bool, arith, List,
}

abbrev no_build : BuildPlan
no_build = record { needs_make = false; lang_key = none; finalize = none }

no_build_planned : prepare_with_build_strategy handle_env two_tasks ≡ prepared no_build
unfolding prepare_with_build_strategy
no_build_planned = refl

nothing_there : (jobs : List Job) → contains_id sid (record empty_state { queue = jobs }) ≡ false
unfolding has_key
nothing_there jobs = refl

abbrev ready : IsPrepared handle_env sid empty_state
ready = record {
  exists = refl;
  is_dir = refl;
  fresh = nothing_there [];
  meta = two_tasks;
  parsed = refl;
  resources = inl refl;
  teacher_resources = inl refl;
  plan = no_build;
  planned = no_build_planned;
  finalized = inr refl;
}

handle-IsAcceptedBy_example :
    let (outcome, t) = handle handle_env [] [] sid 7 false empty_state in
    (outcome ≡ ok tt) × IsAcceptedBy sid 7 two_tasks empty_state t
unfolding is_full
handle-IsAcceptedBy_example =
    handle-IsAcceptedBy handle_env [] [] sid 7 false empty_state ready (omega arith) refl

abbrev no_room : State
no_room = record empty_state { queue = compile other_sid ∷ compile other_sid ∷ [] }

abbrev ready_too : IsPrepared handle_env sid no_room
ready_too = record {
  exists = refl;
  is_dir = refl;
  fresh = nothing_there (compile other_sid ∷ compile other_sid ∷ []);
  meta = two_tasks;
  parsed = refl;
  resources = inl refl;
  teacher_resources = inl refl;
  plan = no_build;
  planned = no_build_planned;
  finalized = inr refl;
}

handle_full_queue_example :
    let (outcome, t) = handle handle_env [] [] sid 7 true no_room in
    (outcome ≡ raise queue_full)
    × IsGone sid t
    × (t.queue ≡ no_room.queue)
    × (◌≡◌ {A = Bool} true true → contains sid t.trial_submissions ≡ true)
unfolding is_full
handle_full_queue_example = handle_full_queue handle_env [] [] sid 7 true no_room ready_too refl

abbrev in_progress : State
in_progress = holding two_tasks []

handle_duplicate_trial_example :
    let (outcome, after) = handle handle_env [] [] sid 7 true in_progress in
    (outcome ≡ raise duplicated_submission_id)
    × ((report_of sid [] none none in_progress).to_trial ≡ false)
    × ((report_of sid [] none none after).to_trial ≡ true)
unfolding has_key text_eq contains
handle_duplicate_trial_example =
    handle_duplicate_trial handle_env [] [] sid 7 in_progress refl refl refl [] none none refl

abbrev pub checker_says : Text → CaseEnv
checker_says stdout = record {
  prepare_dir = prepared tt;
  copy_resources = prepared tt;
  files = record {
    input_path = [];
    output_path = [];
    input_exists = true;
    output_exists = true;
    answer = some [];
  };
  sandbox = ok judge_error;
  interactive = ok (only_status (codes "AC"));
  checker = CheckerRun.finished stdout [] (pos 0);
  completion = env;
}

abbrev checked_state : State
checked_state = record in_progress {
  custom_checker_info =
      (sid, record { enabled = true; error = none; path = some (codes "p"); image = none }) ∷ [];
}

apply_checker-ac_iff_example :
    (final : RunnerResult) × ((apply_checker
        (checker_says (codes "STATUS: AC"))
        sid
        (case_no 0 0)
        (only_status (codes "AC"))
        checked_state).0
      ≡ ok final)
    × ((final.status ≡ codes "AC") ↔ (
        (one_of (only_status (codes "AC")).status final_statuses ≡ false)
        × (pos 0 ≡ pos 0)
        × ((parse_checker_output (codes "STATUS: AC")).0 ≡ some (codes "AC"))))
unfolding info_of lookup text_eq
apply_checker-ac_iff_example =
    apply_checker-ac_iff (checker_says (codes "STATUS: AC")) sid (case_no 0 0) checked_state refl
      refl refl (only_status (codes "AC")) (codes "STATUS: AC") [] (pos 0) refl

abbrev pub case_args : CaseArgs
case_args = record {
  submission_id = sid;
  case_no = case_no 0 0;
  memory_limit = pos 1000;
  time_limit = pos 1000;
  lang = py;
  execution_mode = ExecutionMode.general;
  teacher_first = false;
  network_mode = codes "none";
}
