-- ===== src/Dispatcher/Container/Count.antt =====
-- The number of containers through the thread of a case.
use sandbox_2025team.Dispatcher.Prepare.{is_interactive}
use sandbox_2025team.Dispatcher.Loop.Turns.{Prepared-cases}
use sandbox_2025team.Dict.{has_key}
use sandbox_2025team.Dispatcher.Threads.{extract_compile_result}
use sandbox_2025team.Errors.{Result}
use sandbox_2025team.Results.{RunnerResult}
use sandbox_2025team.Dispatcher.Failures.Queue.{
  on_case_complete-SameQueue, mark_submission_failed-SameQueue, SameQueue,
}
use sandbox_2025team.Base.Text.{Text, text_eq, codes}
use sandbox_2025team.Dispatcher.State.{State, inc_container, CaseArgs, dec_container, compile_need}
use sandbox_2025team.Dispatcher.Container.{
  run_general, report_failure, report_case, apply_checker, run_counted, run_interactive, CaseEnv,
  inc_container, record_checker_message, CaseArgs, Text, dec_container, Result, RunnerResult, raise,
  compile_need, extract_compile_result, ok, has_key, case_result, run_case, then_check,
  create_container, is_interactive, teacher_lang_key, teacher_lang_of,
}
use sandbox_2025team.Base.{◌≡◌, Bool-cases, arith, ◌&&◌, inl, inr, refl, ◌∙◌, Option-cases}

same_queue : (s : State) → SameQueue s s
same_queue s = record { queue = refl; maximum = refl; count = refl }

pub then_same : {s t u : State} → SameQueue s t → SameQueue t u → SameQueue s u
then_same a b = record {
  queue = b.queue ∙ a.queue;
  maximum = b.maximum ∙ a.maximum;
  count = b.count ∙ a.count;
}

run_counted-SameQueue :
    (outcome : Result RunnerResult) (s : State) → SameQueue s (run_counted outcome s).1
unfolding run_counted inc_container dec_container
run_counted-SameQueue outcome s = record { queue = refl; maximum = refl; count = omega arith }

run_general-SameQueue :
    (env : CaseEnv) (args : CaseArgs) (s : State) → SameQueue s (run_general env args s).1
unfolding run_general
run_general-SameQueue env args s =
    elim (Bool-cases
      (text_eq (extract_compile_result args.submission_id args.lang s).status (codes "CE"))) [
        | inl bad ↦ rw (bad, run_general) (same_queue s)
        | inr good ↦ rw (good, run_general) (run_counted-SameQueue _ s)
      ]

run_interactive-SameQueue :
    (env : CaseEnv) (args : CaseArgs) (s : State) → SameQueue s (run_interactive env args s).1
unfolding run_interactive
run_interactive-SameQueue env args s =
    elim (Bool-cases (
      compile_need args.lang
      && text_eq (extract_compile_result args.submission_id args.lang s).status (codes "CE"))) [
        | inl bad ↦ rw (bad, run_interactive) (same_queue s)
        | inr good ↦ rw (good, run_interactive) (run_counted-SameQueue env.interactive s)
      ]

pub report_case-SameQueue :
    (env : CaseEnv) (args : CaseArgs) (r : Result RunnerResult × State)
    → SameQueue r.1 (report_case env args r).1
unfolding report_case
report_case-SameQueue env args (raise x, s) = same_queue s
report_case-SameQueue env args (ok res, s) =
    elim (Bool-cases (has_key args.submission_id s.locks)) [
      | inl there ↦
          rw (there, report_case)
            (on_case_complete-SameQueue env.completion _ _ (case_result res) s)
      | inr absent ↦ rw (absent, report_case) (same_queue s)
    ]

report_failure-SameQueue :
    (env : CaseEnv) (args : CaseArgs) (message : Text) (s : State)
    → SameQueue s (report_failure env args message s).1
unfolding report_failure
report_failure-SameQueue env args message s = (on_case_complete-SameQueue env.completion _ _ _ s)

apply_checker-SameQueue :
    (env : CaseEnv) (sid number : Text) (res : RunnerResult) (s : State)
    → SameQueue s (apply_checker env sid number res s).1
unfolding apply_checker record_checker_message
apply_checker-SameQueue env sid number res s = record {
  queue = ground arith;
  maximum = ground arith;
  count = ground arith;
}

pub then_check-SameQueue :
    (env : CaseEnv) (args : CaseArgs) (r : Result RunnerResult × State)
    → SameQueue r.1 (then_check env args r).1
unfolding then_check
then_check-SameQueue env args (raise x, s) = same_queue s
then_check-SameQueue env args (ok res, s) = apply_checker-SameQueue env _ _ res s

run_case-SameQueue :
    (env : CaseEnv) (args : CaseArgs) (s : State) → SameQueue s (run_case env args s).1
unfolding run_case
run_case-SameQueue env args s = elim (Bool-cases (is_interactive args.execution_mode)) [
  | inr general ↦
      rw (general, run_case)
        (then_same (run_general-SameQueue env args s)
          (then_same (then_check-SameQueue env args _) (report_case-SameQueue env args _)))
  | inl interactive ↦
      elim (Option-cases (teacher_lang_key (teacher_lang_of args.submission_id s))) [
        | inl unknown ↦
            rw (interactive, run_case)
              (rw unknown (mark_submission_failed-SameQueue env.completion _ _ _ s))
        | inr (key, known) ↦
            rw (interactive, run_case)
              (rw known (
                then_same (run_interactive-SameQueue env args s)
                  (report_case-SameQueue env args _)))
      ]
]

pub create_container-SameQueue :
    (env : CaseEnv) (args : CaseArgs) (s : State) → SameQueue s (create_container env args s).1
unfolding create_container
create_container-SameQueue env args s = elim (Prepared-cases env.prepare_dir) [
  | inr (message, e) ↦ rw (e, create_container) (report_failure-SameQueue env args _ s)
  | inl (_, e) ↦ elim (Prepared-cases env.copy_resources) [
    | inr (message, f) ↦ rw (e, create_container) (rw f (report_failure-SameQueue env args _ s))
    | inl (_, f) ↦ rw (e, create_container) (rw f (run_case-SameQueue env args s))
  ]
]

-- However the thread of a case ends, by an exception too, the containers that it counted are counted
-- off again, and no job is touched.
create_container-count :
    (env : CaseEnv) (args : CaseArgs) (s : State)
    → ((create_container env args s).1.container_count ≡ s.container_count)
      × ((create_container env args s).1.queue ≡ s.queue)
create_container-count env args s =
    let same = create_container-SameQueue env args s in (same.count, same.queue)
