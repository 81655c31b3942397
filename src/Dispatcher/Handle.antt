-- ===== src/Dispatcher/Handle.antt =====
-- dispatcher/dispatcher.py, handle: a new submission is prepared, registered and queued.
pub mod Steps
pub mod Accepted
pub mod Bounds
pub mod Outcome
pub mod Queued
pub mod Refused
use sandbox_2025team.Dispatcher.Prepare.{
  HandleEnv, custom_checker_info_of, prepare_with_build_strategy, refused, custom_scorer_info_of,
  prepared, prepare_resources,
}
use sandbox_2025team.Dispatcher.Failures.{all_done}
use sandbox_2025team.Base.Int.{pos_part}
use sandbox_2025team.Dispatcher.Complete.{on_submission_complete, release}
use sandbox_2025team.Results.{make_all_cases_result, put_tasks}
use sandbox_2025team.Dict.{insert, add}
use sandbox_2025team.Errors.{
  Result, ok, raise, file_not_found, external, not_a_directory, queue_full,
  duplicated_submission_id,
}
use sandbox_2025team.Dispatcher.State.{
  BuildPlan, State, is_prebuilt_submission, compile_need, Job, build, build_error, is_full, execute,
  contains_id, compile, fails, succeeds, static_analysis,
}
use sandbox_2025team.Meta.{Meta, Task, compile}
use sandbox_2025team.Base.Text.{Text, codes}
use sandbox_2025team.Base.{
  ℕ, Bool, if◌then◌else◌, false, List, some, none, not, [], ◌∷◌, suc, ◌++◌, ◌&&◌, ◌+◌, zero,
}

-- The Execute jobs of one task, from case `j` on, and of all tasks from number `i` on.
unfoldable pub execute_cases : Text → (i j left : ℕ) → List Job
execute_cases sid i j zero = []
execute_cases sid i j (suc left) = execute sid i j ∷ execute_cases sid i (j + 1) left

unfoldable pub execute_tasks : Text → ℕ → List Task → List Job
unfolding execute_cases
execute_tasks sid i [] = []
execute_tasks sid i (t ∷ ts) =
    execute_cases sid i 0 (pos_part t.case_count) ++ execute_tasks sid (i + 1) ts

-- tasks_to_run, where `prebuilt` says whether the submission was marked as such.
unfoldable pub tasks_to_run : Text → Meta → BuildPlan → Bool → List Job
unfolding execute_tasks
tasks_to_run sid meta plan prebuilt =
    (if plan.needs_make then build sid ∷ [] else [])
    ++ (if not plan.needs_make && not prebuilt && compile_need meta.language
        then compile sid ∷ []
        else [])
    ++ execute_tasks sid 0 meta.tasks

-- The `if needs_build` statement: the exception of `finalize` leaves handle.
unfoldable pub apply_plan : Text → Meta → BuildPlan → State → Result State
apply_plan sid meta plan s =
    let marked =
      if compile_need meta.language
      then s
      else record s { prebuilt_submissions = add sid s.prebuilt_submissions } in
    if plan.needs_make
    then ok (record s {
      build_plans = insert sid plan s.build_plans;
      build_locks = insert sid false s.build_locks;
    })
    else elim plan.finalize [
      | none ↦ ok marked
      | some succeeds ↦ ok marked
      | some (build_error message) ↦ raise (external message)
      | some (fails message) ↦ raise (external message)
    ]

-- The jobs wait in pending_tasks; only the static analysis is queued, by put_nowait.
unfoldable pub queue_submission : Text → ℕ → Meta → BuildPlan → State → Result (Unit {0}) × State
queue_submission sid problem_id meta plan s =
    let jobs = tasks_to_run sid meta plan (is_prebuilt_submission sid s) in
    let filled = put_tasks none 0 meta.tasks [] in
    let waiting = record s {
      result = insert sid (meta, filled) s.result;
      pending_tasks = insert sid jobs s.pending_tasks;
    } in
    if is_full waiting
    then (raise queue_full, release sid waiting)
    else (ok tt, record waiting { queue = waiting.queue ++ static_analysis sid problem_id ∷ [] })

-- From "assign submission context" on.
unfoldable pub register : HandleEnv → Text → ℕ → Meta → State → Result (Unit {0}) × State
register env sid problem_id meta s =
    let entered = record s {
      result = insert sid (meta, []) s.result;
      locks = insert sid false s.locks;
      compile_locks = insert sid false s.compile_locks;
      created_at = insert sid env.now s.created_at;
      build_strategies = insert sid meta.build_strategy s.build_strategies;
    } in
    elim (prepare_with_build_strategy env meta) [
      | refused message ↦ on_submission_complete env.completion sid (record entered {
        result =
            insert sid
              (
                meta,
                all_done
                    (make_all_cases_result meta (codes "AE") (codes "Build Failed: " ++ message)),
              )
              entered.result;
      })
      | prepared plan ↦ elim (apply_plan sid meta plan entered) [
        | raise x ↦ (raise x, entered)
        | ok planned ↦ queue_submission sid problem_id meta plan planned
      ]
    ]

-- From the parsed metadata on.
unfoldable pub handle_meta :
    HandleEnv
    → (checker_image scorer_image : Text) → Text
    → ℕ
    → Meta
    → State
    → Result (Unit {0}) × State
handle_meta env checker_image scorer_image sid problem_id meta s =
    let noted = record s {
      problem_ids = insert sid problem_id s.problem_ids;
      custom_checker_info =
          insert sid (custom_checker_info_of checker_image env.checker meta) s.custom_checker_info;
      custom_scorer_info =
          insert sid (custom_scorer_info_of scorer_image env.scorer meta) s.custom_scorer_info;
    } in
    let (outcome, stored) = prepare_resources env sid meta noted in
    elim outcome [
      | prepared _ ↦ register env sid problem_id meta stored
      | refused message ↦
          let content =
            make_all_cases_result meta (codes "JE")
              (codes "resource data preparation failed: " ++ message) in
          on_submission_complete env.completion sid
            (record stored { result = insert sid (meta, all_done content) stored.result })
    ]

unfoldable pub handle :
    HandleEnv
    → (checker_image scorer_image : Text) → Text
    → ℕ
    → Bool
    → State
    → Result (Unit {0}) × State
handle env checker_image scorer_image sid problem_id is_trial s =
    let tracked =
      if is_trial then record s { trial_submissions = add sid s.trial_submissions } else s in
    if not env.exists
    then (raise file_not_found, tracked)
    else if not env.is_dir
    then (raise not_a_directory, tracked)
    else if contains_id sid tracked
    then (raise duplicated_submission_id, tracked)
    else elim env.meta [
      | raise x ↦ (raise x, tracked)
      | ok meta ↦ handle_meta env checker_image scorer_image sid problem_id meta tracked
    ]
