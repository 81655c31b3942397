-- ===== src/Tests/System.antt =====
-- Steps of the dispatcher together with its threads.
use sandbox_2025team.Dispatcher.System.Overrun.{container_count_unbounded, copies, MayLaunch}
use sandbox_2025team.Errors.{ok}
use sandbox_2025team.Tests.Handle.{checker_says}
use sandbox_2025team.Runner.{run, error_result}
use sandbox_2025team.Base.Text.{text_eq, codes}
use sandbox_2025team.Dict.{lookup, contains, has_key}
use sandbox_2025team.Meta.{compile}
use sandbox_2025team.Dispatcher.Threads.{extract_compile_result}
use sandbox_2025team.Dispatcher.Loop.{round, gives_way, awaits_compile}
use sandbox_2025team.Tests.Data.{empty_state, loop_env, sid, holding, two_tasks, easy}
use sandbox_2025team.Dispatcher.Phases.{entering}
use sandbox_2025team.Dispatcher.State.{
  State, compile, is_prebuilt_submission, compile_need, is_timed_out, is_build_pending, execute,
}
use sandbox_2025team.Dispatcher.System.Invariant.{IsConsistent, Reachable-IsConsistent}
use sandbox_2025team.Base.{inr, [], ◌∷◌, arith, refl, ◌≡◌}
use sandbox_2025team.Dispatcher.System.{begins, goes_on, dispatch, System, Reachable}

abbrev one_job : State
one_job = record empty_state { queue = compile sid ∷ [] }

Reachable-IsConsistent_example :
    IsConsistent (record { state = (round loop_env one_job).1; inside = [] })
Reachable-IsConsistent_example =
    Reachable-IsConsistent one_job (record { state = (round loop_env one_job).1; inside = [] })
      (inr (omega arith)) refl
      (goes_on (record { state = one_job; inside = [] }) _ begins (dispatch loop_env one_job []))

-- Three cases of a submission wait in the queue, where one container may run.
abbrev three_cases : State
three_cases = record (holding two_tasks []) {
  max_task_count = 5;
  max_container_size = 1;
  queue = copies 3 (execute sid 0 0);
  created_at = (sid, 0) ∷ [];
}

three_cases-MayLaunch : MayLaunch loop_env sid 0 0 two_tasks easy refl three_cases
unfolding is_timed_out has_key lookup text_eq gives_way contains is_build_pending awaits_compile
    compile_need is_prebuilt_submission
three_cases-MayLaunch = record {
  is_running = refl;
  room = refl;
  results = [];
  registered = refl;
  in_time = refl;
  has_way = refl;
  no_build = refl;
  compiled = refl;
}

container_count_unbounded_example :
    (m : System) × Reachable three_cases m × (m.state.container_count ≡ 3)
unfolding entering extract_compile_result lookup text_eq is_prebuilt_submission contains
    compile_need run
container_count_unbounded_example =
    container_count_unbounded loop_env sid 0 0 two_tasks easy refl (checker_says [])
      (ok (error_result (codes "sandbox judge error"))) 3 three_cases three_cases-MayLaunch refl
      refl refl refl
