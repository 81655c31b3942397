-- ===== src/Dispatcher/System/Overrun.antt =====
-- The limit of the containers is tested before a thread starts, but counted in the thread.
use sandbox_2025team.Dispatcher.Threads.{extract_compile_result}
use sandbox_2025team.Dispatcher.Phases.{entering}
use sandbox_2025team.Results.{RunnerResult}
use sandbox_2025team.Errors.{Result}
use sandbox_2025team.Dispatcher.Container.{CaseEnv, teacher_lang_of}
use sandbox_2025team.Dispatcher.System.{
  dispatch, goes_on, Reachable, Inside, System, CaseEnv, Result, RunnerResult, entering, begins,
  left_with, enters,
}
use sandbox_2025team.Dict.{lookup}
use sandbox_2025team.CaseNo.{case_no}
use sandbox_2025team.Dispatcher.State.{
  CaseArgs, State, is_timed_out, job_id, Job, Results, has_pending_normal_jobs, execute,
  is_build_pending, running, is_prebuilt_submission, Thread, inc_container, use_custom_checker,
  info_of,
}
use sandbox_2025team.Meta.{Meta, Task}
use sandbox_2025team.Base.Text.{Text}
use sandbox_2025team.Dispatcher.Loop.{
  LoopEnv, round, take_job, gives_way, serve, start_case, start, awaits_compile, started, Turn,
}
use sandbox_2025team.Base.{
  zero, suc, ℕ, true, false, List, [], suc, ◌∷◌, zero, get_elem?, ◌≡◌, some, leb, ◌++◌, ap, subst,
  ◌∙◌, sym, append-nil, append_assoc, refl, ◌+◌, arith,
}

-- A list of equal elements.
pub copies {ℓ} : {A : Type ℓ} → ℕ → A → List A
copies zero x = []
copies (suc k) x = x ∷ copies k x

module _ (env : LoopEnv) (sid : Text) (t n : ℕ) (meta : Meta) (task : Task)
    (there : get_elem? meta.tasks t ≡ some task) where
  -- The thread of the case.
  abbrev pub case_args : CaseArgs
  case_args = record {
    submission_id = sid;
    case_no = case_no t n;
    memory_limit = task.memory_limit;
    time_limit = task.time_limit;
    lang = meta.language;
    execution_mode = meta.execution_mode;
    teacher_first = meta.teacher_first;
    network_mode = env.network_mode;
  }

  -- A round would start the case if it were first in the queue.
  pub record MayLaunch (s : State) : Type 0 where
    pub is_running : s.do_run ≡ true
    pub room : leb s.max_container_size s.container_count ≡ false
    pub results : Results
    pub registered : lookup sid s.result ≡ some (meta, results)
    pub in_time : is_timed_out env.now sid s ≡ some false
    pub has_way : gives_way sid s ≡ false
    pub no_build : is_build_pending sid s ≡ false
    pub compiled : awaits_compile sid meta s ≡ false

  abbrev launched : State → List Job → State
  launched s rest = record s { queue = rest; threads = s.threads ++ running case_args ∷ [] }

  MayLaunch-other :
      (s : State) (jobs : List Job) (threads : List Thread)
      → MayLaunch s
      → MayLaunch (record s { queue = jobs; threads = threads })
  unfolding is_timed_out gives_way has_pending_normal_jobs is_build_pending awaits_compile
      is_prebuilt_submission
  MayLaunch-other s jobs threads m = record {
    is_running = m.is_running;
    room = m.room;
    results = m.results;
    registered = m.registered;
    in_time = m.in_time;
    has_way = m.has_way;
    no_build = m.no_build;
    compiled = m.compiled;
  }

  take_job_launch :
      (s : State) → MayLaunch s → take_job env (execute sid t n) s ≡ (started, launched s s.queue)
  unfolding take_job job_id serve start_case start
  take_job_launch s m = simp (
    m.registered, m.in_time, m.has_way, m.no_build, m.compiled, there, take_job, job_id, serve,
    start_case, start,
  )

  round_takes :
      (s : State) (job : Job) (rest : List Job)
      → s.do_run ≡ true
      → leb s.max_container_size s.container_count ≡ false
      → s.queue ≡ job ∷ rest
      → round env s ≡ take_job env job (record s { queue = rest })
  unfolding round
  round_takes s job rest on room first = simp (on, room, first, round)

  round_launch :
      (s : State) (rest : List Job)
      → MayLaunch s
      → s.queue ≡ execute sid t n ∷ rest
      → (round env s).1 ≡ launched s rest
  round_launch s rest m first =
      ap (λ (r : Turn × State). r.1)
        (round_takes s (execute sid t n) rest m.is_running m.room first
          ∙ take_job_launch (record s { queue = rest }) (MayLaunch-other s rest s.threads m))

  abbrev with_threads : State → List Thread → State
  with_threads s threads = record s { queue = []; threads = threads }

  abbrev at : State → List Inside → System
  at s inside = record { state = s; inside = inside }

  -- So many equal jobs start so many threads, one round each.
  launches :
      (k : ℕ) (origin s : State)
      → Reachable origin (at s [])
      → MayLaunch s
      → s.queue ≡ copies k (execute sid t n)
      → Reachable origin (at (with_threads s (s.threads ++ copies k (running case_args))) [])
  unfolding copies
  launches zero origin s r m queued =
      subst (λ (u : State). Reachable origin (at u []))
        (ap (λ (q : List Job). record s { queue = q }) queued
          ∙ ap (λ (l : List Thread). with_threads s l) (sym (append-nil s.threads)))
        r
  launches (suc k) origin s r m queued =
      let jobs = copies k (execute sid t n) in
      let next = launched s jobs in
      let r' : Reachable origin (at next []) =
        subst (λ (u : State). Reachable origin (at u [])) (round_launch s jobs m queued)
          (goes_on (at s []) (at (round env s).1 []) r (dispatch env s [])) in
      subst (λ (l : List Thread). Reachable origin (at (with_threads s l) []))
        (append_assoc s.threads (running case_args ∷ []) (copies k (running case_args)))
        (launches k origin next r' (MayLaunch-other s jobs next.threads m) refl)

  module _ (cenv : CaseEnv) (outcome : Result RunnerResult) where
    -- Whether a thread gets to its container does not depend on the other threads or their count.
    entering-other :
        (s : State) (threads : List Thread)
        → entering cenv case_args (inc_container (left_with s threads)) ≡ entering cenv case_args s
    unfolding entering extract_compile_result is_prebuilt_submission use_custom_checker info_of
        teacher_lang_of inc_container
    entering-other s threads = refl

    entering-queue :
        (s : State) (threads : List Thread)
        → entering cenv case_args (with_threads s threads) ≡ entering cenv case_args s
    unfolding entering extract_compile_result is_prebuilt_submission use_custom_checker info_of
        teacher_lang_of
    entering-queue s threads = refl

    -- So many threads get to their containers, one behind the other.
    entries_all :
        (k : ℕ) (origin s : State) (inside : List Inside)
        → Reachable origin (at s inside)
        → entering cenv case_args s ≡ some outcome
        → s.threads ≡ copies k (running case_args)
        → (m : System) × Reachable origin m × (m.state.container_count ≡ s.container_count + k)
    unfolding copies inc_container
    entries_all zero origin s inside r e waiting = (at s inside, r, omega arith)
    entries_all (suc k) origin s inside r e waiting =
        let threads = copies k (running case_args) in
        let next = inc_container (left_with s threads) in
        let case : Inside = record { env = cenv; args = case_args; outcome = outcome } in
        let r' : Reachable origin (at next (inside ++ case ∷ [])) =
          goes_on (at s inside) _ r (enters cenv case_args outcome [] threads s inside waiting e) in
        let (m, reached, count) =
          entries_all k origin next (inside ++ case ∷ []) r' (entering-other s threads ∙ e) refl in
        (m, reached, omega (arith, count))

    -- The limit of the containers does not bound their number: from a state without threads and
    -- containers in which a round may launch a case, with k jobs of this case alone in the queue,
    -- and an environment in which its container is entered, a state is reached that counts k
    -- containers.
    pub container_count_unbounded :
        (k : ℕ) (s : State)
        → MayLaunch s
        → entering cenv case_args s ≡ some outcome
        → s.threads ≡ []
        → s.container_count ≡ 0
        → s.queue ≡ copies k (execute sid t n)
        → (m : System) × Reachable s m × (m.state.container_count ≡ k)
    container_count_unbounded k s m e none_waits none_runs queued =
        let threads = s.threads ++ copies k (running case_args) in
        let started_all = launches k s s begins m queued in
        let (reached, r, count) =
          entries_all k s (with_threads s threads) [] started_all (entering-queue s threads ∙ e)
            (ap (λ (l : List Thread). l ++ copies k (running case_args)) none_waits) in
        (reached, r, omega (arith, count, none_runs))
