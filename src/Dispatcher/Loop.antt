-- ===== src/Dispatcher/Loop.antt =====
-- dispatcher/dispatcher.py, run: one round of the loop of the dispatcher's thread.
pub mod Turns
pub mod Start
pub mod Network
pub mod Starvation
pub mod Crash
pub mod Bounds
use sandbox_2025team.CaseNo.{case_no}
use sandbox_2025team.Results.{CaseResult, make_all_cases_result}
use sandbox_2025team.Dispatcher.Failures.{
  handle_network_failure, handle_sa_failure, truthy_json, note_payload,
}
use sandbox_2025team.Meta.{Meta}
use sandbox_2025team.Dispatcher.Scorer.{Env}
use sandbox_2025team.Json.{Json, obj, field, str, end}
use sandbox_2025team.Dict.{lookup, Dict, contains, delete, has_key}
use sandbox_2025team.Dispatcher.State.{
  State, Job, Thread, is_full, static_analysis, job_id, is_timed_out, network_setup,
  is_prebuilt_submission, build, compile_need, running, has_pending_normal_jobs, building, compile,
  is_build_pending, compiling, execute,
}
use sandbox_2025team.Dispatcher.Prepare.{Prepared, refused, prepared}
use sandbox_2025team.Base.Text.{Text, codes}
use sandbox_2025team.Errors.{
  Exn, Result, ok, raise, index_error, submission_id_not_found, key_error, duplicated_submission_id,
}
use sandbox_2025team.Base.{
  ℕ, List, none, Bool, ◌++◌, if◌then◌else◌, ◌∷◌, Option, false, some, [], true, not, get_elem?, leb,
  ◌&&◌,
}

-- What run_static_analysis (with the fetched rules) comes to: an exception's text, or its result.
pub data Analysis : Type 0 where
  broken : Text → Analysis
  analysed : (success : Bool) → Option Json → Dict CaseResult → Analysis

-- The outside of one round. `describe` gives the text of an exception.
pub record LoopEnv : Type 0 where
  pub now : ℕ
  pub analysis : Analysis
  pub network : Prepared (Unit {0})
  pub network_mode : Text
  pub completion : Env
  pub describe : Exn → Text

-- How a round ends. `blocked` is a `put` into a full queue: the thread waits in it, and it is the
-- only one that takes jobs off. `crashed` is an exception that leaves run, and ends the thread.
pub data Turn : Type 0 where
  stopped idle saturated : Turn
  discarded timed_out deferred waiting blocked : Turn
  done started : Turn
  crashed : Exn → Turn

-- `queue.put`; `none` is a call that waits.
unfoldable pub enqueue : Job → State → Option State
unfolding is_full
enqueue job s = if is_full s then none else some (record s { queue = s.queue ++ job ∷ [] })

-- The jobs that were put before one waits stay in the queue.
unfoldable pub enqueue_all : List Job → State → Turn × State
enqueue_all [] s = (done, s)
enqueue_all (job ∷ jobs) s = elim (enqueue job s) [
  | none ↦ (blocked, s)
  | some s' ↦ enqueue_all jobs s'
]

unfoldable pub put_back : Turn → Job → State → Turn × State
put_back turn job s = elim (enqueue job s) [ none ↦ (blocked, s) | some s' ↦ (turn, s') ]

-- `except Exception`: the classes of dispatcher/exception.py derive from BaseException.
unfoldable pub is_exception : Exn → Bool
is_exception submission_id_not_found = false
is_exception duplicated_submission_id = false
is_exception _ = true

abbrev pub turn_of : Result (Unit {0}) × State → Turn × State
turn_of (ok _, s) = (done, s)
turn_of (raise x, s) = (crashed x, s)

unfoldable pub sys_err : Text → Json
sys_err message =
    obj (field (codes "status") (str (codes "sys_err")) (field (codes "message") (str message) end))

-- The handler of the static analysis.
unfoldable pub analysis_broke : LoopEnv → Text → Meta → Text → State → Turn × State
analysis_broke env sid meta reason s =
    let message = codes "Static Analysis Exception: " ++ reason in
    turn_of (
      handle_sa_failure env.completion sid (some (sys_err message))
        (make_all_cases_result meta (codes "AE") message) s)

-- The `try` of the static analysis also covers _handle_sa_failure.
unfoldable pub after_failure : LoopEnv → Text → Meta → Result (Unit {0}) × State → Turn × State
after_failure env sid meta (ok _, s) = (done, s)
after_failure env sid meta (raise x, s) =
    if is_exception x then analysis_broke env sid meta (env.describe x) s else (crashed x, s)

unfoldable pub analyse : LoopEnv → Text → ℕ → Meta → State → Turn × State
analyse env sid problem_id meta s = elim env.analysis [
  | broken reason ↦ analysis_broke env sid meta reason s
  | analysed success payload content ↦
      let noted = if truthy_json payload then note_payload sid payload s else s in
      if success
      then put_back done (network_setup sid problem_id) noted
      else after_failure env sid meta (handle_sa_failure env.completion sid payload content noted)
]

-- The pending jobs of the submission are released once its network is there.
unfoldable pub set_up_network : LoopEnv → Text → State → Turn × State
set_up_network env sid s = elim env.network [
  | refused message ↦ turn_of (handle_network_failure env.completion sid message s)
  | prepared _ ↦
      enqueue_all (elim (lookup sid s.pending_tasks) [ none ↦ [] | some jobs ↦ jobs ])
        (record s { pending_tasks = delete sid s.pending_tasks })
]

unfoldable pub start : Thread → State → Turn × State
start thread s = (started, record s { threads = s.threads ++ thread ∷ [] })

-- The guard of an Execute job: its submission still waits for the compiler.
unfoldable pub awaits_compile : Text → Meta → State → Bool
awaits_compile sid meta s =
    not (is_prebuilt_submission sid s)
    && compile_need meta.language
    && not (has_key sid s.compile_results)

unfoldable pub start_case : LoopEnv → Text → ℕ → ℕ → Meta → State → Turn × State
unfolding start
start_case env sid t n meta s = elim (get_elem? meta.tasks t) [
  | none ↦ (crashed index_error, s)
  | some task ↦
      start
        (running (record {
          submission_id = sid;
          case_no = case_no t n;
          memory_limit = task.memory_limit;
          time_limit = task.time_limit;
          lang = meta.language;
          execution_mode = meta.execution_mode;
          teacher_first = meta.teacher_first;
          network_mode = env.network_mode;
        }))
        s
]

-- The chain of `isinstance` tests, for the job `job` of a submission that is registered.
unfoldable pub serve : LoopEnv → Job → Meta → State → Turn × State
serve env (static_analysis sid p) meta s = analyse env sid p meta s
serve env (network_setup sid p) meta s = set_up_network env sid s
serve env (build sid) meta s = start (building sid meta.language) s
serve env (compile sid) meta s =
    if is_build_pending sid s
    then put_back waiting (compile sid) s
    else start (compiling sid meta.language) s
serve env (execute sid t n) meta s =
    if is_build_pending sid s
    then put_back waiting (execute sid t n) s
    else if awaits_compile sid meta s
    then put_back waiting (execute sid t n) s
    else start_case env sid t n meta s

-- A trial submission gives way to the others.
unfoldable pub gives_way : Text → State → Bool
gives_way sid s = contains sid s.trial_submissions && has_pending_normal_jobs s

unfoldable pub take_job : LoopEnv → Job → State → Turn × State
take_job env job s = elim (lookup (job_id job) s.result) [
  | none ↦ (discarded, s)
  | some (meta, _) ↦ elim (is_timed_out env.now (job_id job) s) [
    | none ↦ (crashed key_error, s)
    | some true ↦ (timed_out, s)
    | some false ↦
        if gives_way (job_id job) s then put_back deferred job s else serve env job meta s
  ]
]

unfoldable pub round : LoopEnv → State → Turn × State
round env s = if not s.do_run then (stopped, s) else elim s.queue [
  | [] ↦ (idle, s)
  | job ∷ rest ↦
      if leb s.max_container_size s.container_count
      then (saturated, s)
      else take_job env job (record s { queue = rest })
]

unfoldable pub stop : State → State
stop s = record s { do_run = false }
