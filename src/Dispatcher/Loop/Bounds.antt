-- ===== src/Dispatcher/Loop/Bounds.antt =====
-- The bound of the queue through the rounds of the loop.
use sandbox_2025team.Dict.{lookup}
use sandbox_2025team.Dispatcher.Failures.{handle_network_failure}
use sandbox_2025team.Dispatcher.Loop.Turns.{Analysis-cases, Prepared-cases}
use sandbox_2025team.Meta.{Meta}
use sandbox_2025team.Base.Text.{Text}
use sandbox_2025team.Dispatcher.Loop.Network.{IsBounded}
use sandbox_2025team.Dispatcher.Failures.Queue.{
  SameQueue, handle_sa_failure-SameQueue, noted-SameQueue, mark_submission_failed-SameQueue,
}
use sandbox_2025team.Errors.{Result}
use sandbox_2025team.Dispatcher.State.{State, is_full, Job, job_id, is_timed_out, is_build_pending}
use sandbox_2025team.Dispatcher.Loop.{
  put_back, analyse, after_failure, enqueue, analysis_broke, enqueue_all, is_full, turn_of, Turn,
  LoopEnv, Text, Job, Meta, ok, raise, is_exception, done, serve, round, take_job, start_case,
  set_up_network, start, handle_network_failure, lookup, static_analysis, job_id, is_timed_out,
  network_setup, build, gives_way, compile, deferred, is_build_pending, waiting, execute,
  awaits_compile,
}
use sandbox_2025team.Base.{
  false, true, ℕ, List, ◌≡◌, some, Option-cases, ◌∷◌, arith, inl, refl, Bool-cases, inr, [], none,
  List-cases, get_elem?, ap, length, leb, ◌≢◌, ◌++◌, length-append, ◌∙◌,
}

module _ (n : ℕ) where
  -- The queue is within its maximum, and so many containers are counted.
  abbrev pub Steady : State → Type 0
  Steady s = IsBounded s × (s.container_count ≡ n)

  Steady-same : {s t : State} → SameQueue s t → Steady s → Steady t
  Steady-same same b =
      let (bounded, counted) = b in (ground (arith, same.queue, same.maximum), same.count ∙ counted)

  none_ne : {t : State} → none ≢ some t
  none_ne e = cc

  enqueue-Steady : (job : Job) (s t : State) → enqueue job s ≡ some t → Steady s → Steady t
  unfolding enqueue is_full
  enqueue-Steady job s t h b = elim (Bool-cases (is_full s)) [
    | inl full ↦ absurd (none_ne (rw (full, enqueue) at h))
    | inr room ↦
        let put : some (record s { queue = s.queue ++ job ∷ [] }) ≡ some t =
          rw (room, enqueue) at h in
        let queued : s.queue ++ job ∷ [] ≡ t.queue =
          ap (λ o. elim o [ none ↦ s.queue | some u ↦ u.queue ]) put in
        let maximum : s.max_task_count ≡ t.max_task_count =
          ap (λ o. elim o [ none ↦ 0 | some u ↦ u.max_task_count ]) put in
        ground (arith, room, ap length queued, maximum, length-append {0} s.queue (job ∷ []))
  ]

  enqueue_all-Steady : (jobs : List Job) (s : State) → Steady s → Steady (enqueue_all jobs s).1
  unfolding enqueue_all
  enqueue_all-Steady [] s b = b
  enqueue_all-Steady (job ∷ jobs) s b = elim (Option-cases (enqueue job s)) [
    | inl full ↦ rw (full, enqueue_all) b
    | inr (t, put) ↦
        rw (put, enqueue_all) (enqueue_all-Steady jobs t (enqueue-Steady job s t put b))
  ]

  put_back-Steady :
      (turn : Turn) (job : Job) (s : State) → Steady s → Steady (put_back turn job s).1
  unfolding put_back
  put_back-Steady turn job s b = elim (Option-cases (enqueue job s)) [
    | inl full ↦ rw (full, put_back) b
    | inr (t, put) ↦ rw (put, put_back) (enqueue-Steady job s t put b)
  ]

  turn_of-state : (r : Result (Unit {0}) × State) → (turn_of r).1 ≡ r.1
  turn_of-state (ok _, s) = refl
  turn_of-state (raise x, s) = refl

  analysis_broke-Steady :
      (env : LoopEnv) (sid : Text) (meta : Meta) (reason : Text) (s : State)
      → Steady s
      → Steady (analysis_broke env sid meta reason s).1
  unfolding analysis_broke
  analysis_broke-Steady env sid meta reason s b =
      rw (turn_of-state _) (Steady-same (handle_sa_failure-SameQueue _ _ _ _ s) b)

  after_failure-Steady :
      (env : LoopEnv) (sid : Text) (meta : Meta) (r : Result (Unit {0}) × State)
      → Steady r.1
      → Steady (after_failure env sid meta r).1
  unfolding after_failure
  after_failure-Steady env sid meta (ok _, s) b = b
  after_failure-Steady env sid meta (raise x, s) b = elim (Bool-cases (is_exception x)) [
    | inl caught ↦ rw (caught, after_failure) (analysis_broke-Steady env sid meta _ s b)
    | inr escapes ↦ rw (escapes, after_failure) b
  ]

  analyse-Steady :
      (env : LoopEnv) (sid : Text) (p : ℕ) (meta : Meta) (s : State)
      → Steady s
      → Steady (analyse env sid p meta s).1
  unfolding analyse
  analyse-Steady env sid p meta s b = elim (Analysis-cases env.analysis) [
    | inl (reason, e) ↦ rw (e, analyse) (analysis_broke-Steady env sid meta reason s b)
    | inr (success, payload, content, e) ↦
        let noted = Steady-same (noted-SameQueue sid payload s) b in
        elim (Bool-cases success) [
          | inl good ↦ rw (e, analyse) (rw good (put_back-Steady done _ _ noted))
          | inr bad ↦
              rw (e, analyse)
                (rw bad (
                  after_failure-Steady env sid meta _
                    (Steady-same (handle_sa_failure-SameQueue _ _ _ _ _) noted)))
        ]
  ]

  set_up_network-Steady :
      (env : LoopEnv) (sid : Text) (s : State) → Steady s → Steady (set_up_network env sid s).1
  unfolding set_up_network handle_network_failure
  set_up_network-Steady env sid s b = elim (Prepared-cases env.network) [
    | inl (_, e) ↦ rw (e, set_up_network) (enqueue_all-Steady _ _ b)
    | inr (message, e) ↦
        rw (e, set_up_network)
          (rw (turn_of-state _) (Steady-same (mark_submission_failed-SameQueue _ _ _ _ s) b))
  ]

  start_case-Steady :
      (env : LoopEnv) (sid : Text) (t n : ℕ) (meta : Meta) (s : State)
      → Steady s
      → Steady (start_case env sid t n meta s).1
  unfolding start_case start
  start_case-Steady env sid t n meta s b = elim (Option-cases (get_elem? meta.tasks t)) [
    | inl absent ↦ rw (absent, start_case) b
    | inr (task, there) ↦ rw (there, start_case) b
  ]

  serve-Steady :
      (env : LoopEnv) (job : Job) (meta : Meta) (s : State)
      → Steady s
      → Steady (serve env job meta s).1
  unfolding serve start
  serve-Steady env (static_analysis sid p) meta s b = analyse-Steady env sid p meta s b
  serve-Steady env (network_setup sid p) meta s b = set_up_network-Steady env sid s b
  serve-Steady env (build sid) meta s b = b
  serve-Steady env (compile sid) meta s b = elim (Bool-cases (is_build_pending sid s)) [
    | inl pending ↦ rw (pending, serve) (put_back-Steady waiting (compile sid) s b)
    | inr clear ↦ rw (clear, serve) b
  ]
  serve-Steady env (execute sid t n) meta s b = elim (Bool-cases (is_build_pending sid s)) [
    | inl pending ↦ rw (pending, serve) (put_back-Steady waiting (execute sid t n) s b)
    | inr clear ↦ elim (Bool-cases (awaits_compile sid meta s)) [
      | inl ahead ↦ rw (clear, serve) (rw ahead (put_back-Steady waiting (execute sid t n) s b))
      | inr compiled ↦ rw (clear, serve) (rw compiled (start_case-Steady env sid t n meta s b))
    ]
  ]

  take_job-Steady :
      (env : LoopEnv) (job : Job) (s : State) → Steady s → Steady (take_job env job s).1
  unfolding take_job
  take_job-Steady env job s b = elim (Option-cases (lookup (job_id job) s.result)) [
    | inl absent ↦ rw (absent, take_job) b
    | inr ((meta, results), found) ↦ elim (Option-cases (is_timed_out env.now (job_id job) s)) [
      | inl unknown ↦ rw (found, take_job) (rw unknown b)
      | inr (true, out) ↦ rw (found, take_job) (rw out b)
      | inr (false, in_time) ↦ elim (Bool-cases (gives_way (job_id job) s)) [
        | inl gives ↦
            rw (found, take_job) (rw in_time (rw gives (put_back-Steady deferred job s b)))
        | inr has_way ↦
            rw (found, take_job) (rw in_time (rw has_way (serve-Steady env job meta s b)))
      ]
    ]
  ]

  -- A round keeps the bound and the count.
  pub round-Steady : (env : LoopEnv) (s : State) → Steady s → Steady (round env s).1
  unfolding round
  round-Steady env s b = elim (Bool-cases s.do_run) [
    | inr off ↦ rw (off, round) b
    | inl running ↦ elim (List-cases s.queue) [
      | inl empty ↦ rw (running, round) (rw empty b)
      | inr (job, rest, first) ↦
          let fewer : Steady (record s { queue = rest }) = ground (arith, ap length first) in
          elim (Bool-cases (leb s.max_container_size s.container_count)) [
            | inl full ↦ rw (running, round) (rw first (rw full b))
            | inr room ↦ rw (running, round) (rw first (rw room (take_job-Steady env job _ fewer)))
          ]
    ]
  ]
