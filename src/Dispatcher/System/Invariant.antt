-- ===== src/Dispatcher/System/Invariant.antt =====
-- What stays true of the dispatcher and its threads in every order of their steps.
use sandbox_2025team.Dispatcher.Container.Count.{
  create_container-SameQueue, report_case-SameQueue, then_same, then_check-SameQueue,
}
use sandbox_2025team.Dispatcher.Prepare.{is_interactive}
use sandbox_2025team.Results.{RunnerResult}
use sandbox_2025team.Dispatcher.Phases.{leaving}
use sandbox_2025team.Dispatcher.Container.{CaseEnv}
use sandbox_2025team.Dispatcher.Handle.Bounds.{Steady-same, handle-Steady}
use sandbox_2025team.Dispatcher.Failures.Queue.{SameQueue, mark_submission_failed-SameQueue}
use sandbox_2025team.Dict.{delete, lookup, discard}
use sandbox_2025team.Errors.{Result-cases, Result}
use sandbox_2025team.Dispatcher.Loop.Bounds.{Steady, round-Steady}
use sandbox_2025team.Meta.{Language}
use sandbox_2025team.Base.Text.{Text, text_eq, codes}
use sandbox_2025team.Dispatcher.System.{
  dispatch, request, compiles, builds, enters, leaves, begins, goes_on, Reachable, CaseEnv, leaving,
  Step, Result, RunnerResult, left_with, Inside, ends_early,
}
use sandbox_2025team.Dispatcher.State.{
  clear_submission_jobs, State, BuildPlan, job_id, dec_container, inc_container, CaseArgs,
}
use sandbox_2025team.Dispatcher.Loop.Network.{IsBounded}
use sandbox_2025team.Dispatcher.Failures.{handle_build_failure}
use sandbox_2025team.Dispatcher.Threads.{
  build_thread, compile_thread, BuildEnv, make_and_finish, finish_build,
}
use sandbox_2025team.Dispatcher.System.{System, BuildEnv, Text, Language}
use sandbox_2025team.Dispatcher.State.{succeeds, build_error, fails}
use sandbox_2025team.Base.{
  true, false, ℕ, ◌≡◌, length, arith, Option-cases, inl, not, inr, Bool-cases, ◌++◌, ◌∷◌, [], ◌+◌,
  length-append, length-keep-le,
}

-- The queue is within its maximum, and the counted containers are those that run.
abbrev pub IsConsistent : System → Type 0
IsConsistent m = IsBounded m.state × (m.state.container_count ≡ length m.inside)

cleared-Steady :
    (n : ℕ) (sid : Text) (s : State) → Steady n s → Steady n (clear_submission_jobs sid s)
unfolding clear_submission_jobs
cleared-Steady n sid s (bounded, counted) =
    (ground (arith, length-keep-le (λ job. not (text_eq (job_id job) sid)) s.queue), counted)

build_failure-Steady :
    (n : ℕ) (env : BuildEnv) (sid message : Text) (s : State)
    → Steady n s
    → Steady n (handle_build_failure env.completion sid message s).1
unfolding handle_build_failure
build_failure-Steady n env sid message s b =
    let forgotten = record s {
      build_plans = delete sid s.build_plans;
      build_locks = delete sid s.build_locks;
      prebuilt_submissions = discard sid s.prebuilt_submissions;
    } in
    Steady-same n (mark_submission_failed-SameQueue env.completion sid _ _ _)
      (cleared-Steady n sid forgotten b)

compile_thread-SameQueue :
    (env : BuildEnv) (sid : Text) (lang : Language) (s : State)
    → SameQueue s (compile_thread env sid lang s).1
unfolding compile_thread
compile_thread-SameQueue env sid lang s = record {
  queue = ground arith;
  maximum = ground arith;
  count = ground arith;
}

finish_build-Steady :
    (n : ℕ) (env : BuildEnv) (sid : Text) (plan : BuildPlan) (s : State)
    → Steady n s
    → Steady n (finish_build env sid plan s).1
unfolding finish_build
finish_build-Steady n env sid plan s b = elim (Option-cases plan.finalize) [
  | inl nothing ↦ simp (nothing, finish_build) b
  | inr (succeeds, e) ↦ simp (e, finish_build) b
  | inr (build_error message, e) ↦
      simp (e, finish_build) (build_failure-Steady n env sid message s b)
  | inr (fails message, e) ↦
      simp (e, finish_build)
        (build_failure-Steady n env sid (codes "build finalization failed: " ++ message) s b)
]

make_and_finish-Steady :
    (n : ℕ) (env : BuildEnv) (sid : Text) (plan : BuildPlan) (s : State)
    → Steady n s
    → Steady n (make_and_finish env sid plan s).1
unfolding make_and_finish
make_and_finish-Steady n env sid plan s b = elim (Result-cases env.make) [
  | inr (x, e) ↦ simp (e, make_and_finish) b
  | inl (res, e) ↦ elim (Bool-cases (text_eq res.status (codes "AC"))) [
    | inl good ↦ simp (e, good, make_and_finish) (finish_build-Steady n env sid plan s b)
    | inr bad ↦ simp (e, bad, make_and_finish) (build_failure-Steady n env sid _ s b)
  ]
]

build_thread-Steady :
    (n : ℕ) (env : BuildEnv) (sid : Text) (s : State)
    → Steady n s
    → Steady n (build_thread env sid s).1
unfolding build_thread
build_thread-Steady n env sid s b = elim (Option-cases (lookup sid s.build_plans)) [
  | inl none_there ↦ simp (none_there, build_thread) b
  | inr (plan, e) ↦ elim (Option-cases (lookup sid s.build_locks)) [
    | inl no_lock ↦ simp (e, no_lock, build_thread) b
    | inr (true, f) ↦ simp (e, f, build_thread) b
    | inr (false, f) ↦ simp (e, f, build_thread) (make_and_finish-Steady n env sid plan s b)
  ]
]

-- Behind dec_container nothing touches the count.
leaving_same :
    (env : CaseEnv) (args : CaseArgs) (outcome : Result RunnerResult) (s : State)
    → SameQueue (dec_container s) (leaving env args outcome s).1
unfolding leaving
leaving_same env args outcome s = elim (Bool-cases (is_interactive args.execution_mode)) [
  | inl teacher ↦ simp (teacher, leaving) (report_case-SameQueue env args _)
  | inr alone ↦
      simp (alone, leaving)
        (then_same (then_check-SameQueue env args (outcome, dec_container s))
          (report_case-SameQueue env args _))
]

dec-Steady : (n : ℕ) (s : State) → Steady (n + 1) s → Steady n (dec_container s)
unfolding dec_container
dec-Steady n s (bounded, counted) = (bounded, omega (arith, counted))

leaving-Steady :
    (n : ℕ) (env : CaseEnv) (args : CaseArgs) (outcome : Result RunnerResult) (s : State)
    → Steady (n + 1) s
    → Steady n (leaving env args outcome s).1
leaving-Steady n env args outcome s b =
    Steady-same n (leaving_same env args outcome s) (dec-Steady n s b)

-- Each step of the dispatcher and its threads keeps the queue within its maximum, and the counter of
-- the containers at their number.
Step-IsConsistent : (m n : System) → Step m n → IsConsistent m → IsConsistent n
unfolding compile_thread inc_container
Step-IsConsistent _ _ (dispatch env s inside) c = round-Steady (length inside) env s c
Step-IsConsistent _ _ (request env checker scorer sid p is_trial s inside) c =
    handle-Steady (length inside) env checker scorer sid p is_trial s c
Step-IsConsistent _ _ (compiles env sid lang before after s inside e) c =
    Steady-same (length inside)
      (compile_thread-SameQueue env sid lang (left_with s (before ++ after))) c
Step-IsConsistent _ _ (builds env sid lang before after s inside e) c =
    build_thread-Steady (length inside) env sid (left_with s (before ++ after)) c
Step-IsConsistent _ _ (ends_early env args before after s inside e f) c =
    Steady-same (length inside)
      (create_container-SameQueue env args (left_with s (before ++ after))) c
Step-IsConsistent _ _ (enters env args outcome before after s inside e f) (bounded, counted) =
    let case : Inside = record { env = env; args = args; outcome = outcome } in
    (bounded, omega (arith, counted, length-append {0} inside (case ∷ [])))
Step-IsConsistent _ _ (leaves case before after s) (bounded, counted) =
    leaving-Steady (length (before ++ after)) case.env case.args case.outcome s (
      bounded,
      omega
          (arith, counted, length-append {0} before (case ∷ after), length-append {0} before after),
    )

-- In every state that the dispatcher and its threads reach, in whatever order their steps come, from
-- one that counts no container and has its queue within the maximum, the queue is within its
-- maximum and the counter of the containers is the number of containers that run.
pub Reachable-IsConsistent :
    (start : State) (m : System)
    → IsBounded start
    → start.container_count ≡ 0
    → Reachable start m
    → IsConsistent m
Reachable-IsConsistent start _ bounded none_runs begins = (bounded, none_runs)
Reachable-IsConsistent start _ bounded none_runs (goes_on m n before step) =
    Step-IsConsistent m n step (Reachable-IsConsistent start m bounded none_runs before)
