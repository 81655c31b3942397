-- ===== src/Dispatcher/Loop/Start.antt =====
-- When a round of the loop starts a thread.
use sandbox_2025team.Dispatcher.Loop.Turns.{analyse-turn, put_back-turn, set_up_network-turn}
use sandbox_2025team.Dict.{lookup}
use sandbox_2025team.Meta.{Meta}
use sandbox_2025team.Dispatcher.State.{
  Job, State, is_build_pending, Results, job_id, is_timed_out, is_prebuilt_submission,
  has_pending_normal_jobs,
}
use sandbox_2025team.Errors.{Exn}
use sandbox_2025team.Dispatcher.Loop.{
  LoopEnv, State, Meta, build, started, compile, is_build_pending, lookup, execute, awaits_compile,
  job_id, static_analysis, is_timed_out, network_setup, gives_way, serve, round, take_job,
  start_case, waiting, has_pending_normal_jobs, Exn, saturated, deferred, timed_out, stopped, idle,
  is_prebuilt_submission, discarded, crashed,
}
use sandbox_2025team.Base.{
  List, ◌≡◌, true, ◌<◌, Option-cases, ◌∷◌, false, Bool-cases, inl, inr, some, List-cases, leb,
  arith,
}

-- A job that may start now. A build may at any time; a compilation and a case may if no build of their
-- submission is due, and a case if it is not ahead of the compiler.
abbrev pub IsReady : Job → Meta → State → Type 0
IsReady (build sid) meta s = Unit
IsReady (compile sid) meta s = is_build_pending sid s ≡ false
IsReady (execute sid t n) meta s =
    (is_build_pending sid s ≡ false) × (awaits_compile sid meta s ≡ false)
IsReady (static_analysis sid p) meta s = ⊥
IsReady (network_setup sid p) meta s = ⊥

pub record MayStart (env : LoopEnv) (s : State) : Type 0 where
  pub running : s.do_run ≡ true
  pub room : s.container_count < s.max_container_size
  pub job : Job
  pub rest : List Job
  pub first : s.queue ≡ job ∷ rest
  pub meta : Meta
  pub results : Results
  pub registered : lookup (job_id job) s.result ≡ some (meta, results)
  pub in_time : is_timed_out env.now (job_id job) s ≡ some false
  pub has_way : gives_way (job_id job) s ≡ false
  pub ready : IsReady job meta s

stopped_ne : ¬ (stopped ≡ started)
stopped_ne e = cc

idle_ne : ¬ (idle ≡ started)
idle_ne e = cc

saturated_ne : ¬ (saturated ≡ started)
saturated_ne e = cc

discarded_ne : ¬ (discarded ≡ started)
discarded_ne e = cc

timed_out_ne : ¬ (timed_out ≡ started)
timed_out_ne e = cc

crashed_ne : {x : Exn} → ¬ (crashed x ≡ started)
crashed_ne e = cc

-- Whether a job is ready does not depend on the queue.
IsReady-queue :
    (job : Job) (meta : Meta) (s : State) (rest : List Job)
    → IsReady job meta (record s { queue = rest })
    → IsReady job meta s
unfolding is_build_pending awaits_compile is_prebuilt_submission
IsReady-queue (build sid) meta s rest h = h
IsReady-queue (compile sid) meta s rest h = h
IsReady-queue (execute sid t n) meta s rest h = h
IsReady-queue (static_analysis sid p) meta s rest h = h
IsReady-queue (network_setup sid p) meta s rest h = h

serve-started :
    (env : LoopEnv) (job : Job) (meta : Meta) (s : State)
    → (serve env job meta s).0 ≡ started
    → IsReady job meta s
unfolding serve start_case
serve-started env (static_analysis sid p) meta s h = analyse-turn env sid p meta s h
serve-started env (network_setup sid p) meta s h = set_up_network-turn env sid s h
serve-started env (build sid) meta s h = tt
serve-started env (compile sid) meta s h = elim (Bool-cases (is_build_pending sid s)) [
  | inl pending ↦
      absurd (put_back-turn waiting (compile sid) s (λ d. cc) (rw (pending, serve) at h))
  | inr clear ↦ clear
]
serve-started env (execute sid t n) meta s h = elim (Bool-cases (is_build_pending sid s)) [
  | inl pending ↦
      absurd (put_back-turn waiting (execute sid t n) s (λ d. cc) (rw (pending, serve) at h))
  | inr clear ↦ elim (Bool-cases (awaits_compile sid meta s)) [
    | inl ahead ↦
        absurd (put_back-turn waiting (execute sid t n) s (λ d. cc) (rw (clear, ahead, serve) at h))
    | inr compiled ↦ (clear, compiled)
  ]
]

-- How a job that was taken off came to start.
record Taken (env : LoopEnv) (job : Job) (s : State) : Type 0 where
  meta : Meta
  results : Results
  registered : lookup (job_id job) s.result ≡ some (meta, results)
  in_time : is_timed_out env.now (job_id job) s ≡ some false
  has_way : gives_way (job_id job) s ≡ false
  ready : IsReady job meta s

take_job-started :
    (env : LoopEnv) (job : Job) (s : State) → (take_job env job s).0 ≡ started → Taken env job s
unfolding take_job
take_job-started env job s h = elim (Option-cases (lookup (job_id job) s.result)) [
  | inl absent ↦ absurd (discarded_ne (rw (absent, take_job) at h))
  | inr ((meta, results), found) ↦
      let late = is_timed_out env.now (job_id job) s in
      elim (Option-cases late) [
        | inl unknown ↦ absurd (crashed_ne (rw (found, unknown, take_job) at h))
        | inr (true, out) ↦ absurd (timed_out_ne (rw (found, out, take_job) at h))
        | inr (false, in_time) ↦ elim (Bool-cases (gives_way (job_id job) s)) [
          | inl gives ↦
              absurd
                (put_back-turn deferred job s (λ d. cc) (rw (found, in_time, gives, take_job) at h))
          | inr has_way ↦ record {
            meta = meta;
            results = results;
            registered = found;
            in_time = in_time;
            has_way = has_way;
            ready = serve-started env job meta s (rw (found, in_time, has_way, take_job) at h);
          }
        ]
      ]
]

-- A round starts a thread only below the container limit, for the first job of the queue, and only if
-- its submission is registered, within its time, and not a trial one that gives way to others. The job
-- is a build, or it is a compilation or a case and no build of its submission is due. It is no case of a
-- submission that waits for the compiler.
pub round-MayStart : (env : LoopEnv) (s : State) → (round env s).0 ≡ started → MayStart env s
unfolding round is_timed_out gives_way has_pending_normal_jobs is_build_pending awaits_compile
    is_prebuilt_submission
round-MayStart env s h = elim (Bool-cases s.do_run) [
  | inr off ↦ absurd (stopped_ne (rw (off, round) at h))
  | inl running ↦ elim (List-cases s.queue) [
    | inl empty ↦ absurd (idle_ne (rw (running, empty, round) at h))
    | inr (job, rest, first) ↦ elim (Bool-cases (leb s.max_container_size s.container_count)) [
      | inl full ↦ absurd (saturated_ne (rw (running, first, full, round) at h))
      | inr room ↦
          let taken =
            take_job-started env job (record s { queue = rest })
              (rw (running, first, room, round) at h) in
          record {
            running = running;
            room = ground (arith, room);
            job = job;
            rest = rest;
            first = first;
            meta = taken.meta;
            results = taken.results;
            registered = taken.registered;
            in_time = taken.in_time;
            has_way = taken.has_way;
            ready = IsReady-queue job taken.meta s rest taken.ready;
          }
    ]
  ]
]
