-- ===== src/Dispatcher/Loop/Starvation.antt =====
-- Trial jobs that give way to a normal submission whose jobs are gone.
use sandbox_2025team.Dict.{contains, lookup}
use sandbox_2025team.Base.Text.{Text}
use sandbox_2025team.Dispatcher.Loop.{
  take_job, Turn, round, put_back, has_pending_normal_jobs, enqueue, LoopEnv, started, gives_way,
  Text, done, contains, Job, job_id, waiting, deferred, is_full, is_timed_out,
}
use sandbox_2025team.Dispatcher.State.{
  State, has_pending_normal_jobs, Job, job_id, is_full, is_timed_out,
}
use sandbox_2025team.Base.{
  true, false, List, All, ◌∷◌, Bool-cases, [], inr, ◌≡◌, inl, ◌++◌, List-cases, Option-cases, leb,
}

-- All jobs of the queue belong to trial submissions, and a normal submission misses results.
pub record IsStarved (s : State) : Type 0 where
  pub trials : All (λ job. contains (job_id job) s.trial_submissions ≡ true) s.queue
  pub pending : has_pending_normal_jobs s ≡ true

-- The rounds of the loop, while nothing else happens.
pub rounds : List LoopEnv → State → List Turn × State
rounds [] s = ([], s)
rounds (env ∷ envs) s =
    let (turn, t) = round env s in let (turns, u) = rounds envs t in (turn ∷ turns, u)

-- A turn that begins no thread and serves no job.
abbrev pub IsIdle : Turn → Type 0
IsIdle started = ⊥
IsIdle done = ⊥
IsIdle waiting = ⊥
IsIdle _ = Unit

abbrev OnlyTrials : List Text → List Job → Type 0
OnlyTrials ids jobs = All (λ job. contains (job_id job) ids ≡ true) jobs

OnlyTrials-snoc :
    (ids : List Text) (jobs : List Job) (job : Job)
    → OnlyTrials ids jobs
    → contains (job_id job) ids ≡ true
    → OnlyTrials ids (jobs ++ job ∷ [])
OnlyTrials-snoc ids [] job h k = (k, tt)
OnlyTrials-snoc ids (j ∷ jobs) job (h, hs) k = (h, OnlyTrials-snoc ids jobs job hs k)

defer-IsStarved :
    (job : Job) (s : State)
    → contains (job_id job) s.trial_submissions ≡ true
    → IsStarved s
    → IsIdle (put_back deferred job s).0 × IsStarved (put_back deferred job s).1
unfolding put_back enqueue has_pending_normal_jobs
defer-IsStarved job s trial h = elim (Bool-cases (is_full s)) [
  | inl full ↦ rw (full, put_back, enqueue) (tt, h)
  | inr room ↦
      rw (room, put_back, enqueue)
        (
          tt,
          record {
            trials = OnlyTrials-snoc s.trial_submissions s.queue job h.trials trial;
            pending = h.pending;
          },
        )
]

take_job-IsStarved :
    (env : LoopEnv) (job : Job) (s : State)
    → contains (job_id job) s.trial_submissions ≡ true
    → IsStarved s
    → IsIdle (take_job env job s).0 × IsStarved (take_job env job s).1
unfolding take_job gives_way
take_job-IsStarved env job s trial h = elim (Option-cases (lookup (job_id job) s.result)) [
  | inl absent ↦ rw (absent, take_job) (tt, h)
  | inr ((meta, results), found) ↦ elim (Option-cases (is_timed_out env.now (job_id job) s)) [
    | inl unknown ↦ rw (found, take_job) (rw unknown (tt, h))
    | inr (true, out) ↦ rw (found, take_job) (rw out (tt, h))
    | inr (false, in_time) ↦
        rw (found, take_job)
          (rw in_time (rw (trial, gives_way) (rw h.pending (defer-IsStarved job s trial h))))
  ]
]

round-IsStarved :
    (env : LoopEnv) (s : State) → IsStarved s → IsIdle (round env s).0 × IsStarved (round env s).1
unfolding round has_pending_normal_jobs
round-IsStarved env s h = elim (Bool-cases s.do_run) [
  | inr off ↦ rw (off, round) (tt, record { trials = h.trials; pending = h.pending })
  | inl running ↦ elim (List-cases s.queue) [
    | inl empty ↦
        rw (running, round) (rw empty (tt, record { trials = h.trials; pending = h.pending }))
    | inr (job, rest, first) ↦
        let (trial, trials) = rw first at h.trials in
        elim (Bool-cases (leb s.max_container_size s.container_count)) [
          | inl full ↦
              rw (running, round)
                (rw first (rw full (tt, record { trials = h.trials; pending = h.pending })))
          | inr room ↦
              rw (running, round)
                (rw first (
                  rw room (
                    take_job-IsStarved env job (record s { queue = rest }) trial
                      (record { trials = trials; pending = h.pending }))))
        ]
  ]
]

-- As long as only rounds of the loop happen, a state stays starved in which the queue holds nothing
-- but jobs of trial submissions, while a normal submission misses results: no round starts a thread
-- or serves a job. The jobs of that submission need not be anywhere any more.
pub rounds-IsStarved :
    (envs : List LoopEnv) (s : State)
    → IsStarved s
    → All IsIdle (rounds envs s).0 × IsStarved (rounds envs s).1
unfolding rounds
rounds-IsStarved [] s h = (tt, h)
rounds-IsStarved (env ∷ envs) s h =
    let (idle_turn, next) = round-IsStarved env s h in
    let (idle_turns, last) = rounds-IsStarved envs (round env s).1 next in
    ((idle_turn, idle_turns), last)
