-- ===== src/Dispatcher/Loop/Network.antt =====
-- The release of a submission's jobs behind its network, and the bound of the queue.
use sandbox_2025team.Dict.{lookup, delete}
use sandbox_2025team.Dispatcher.Prepare.{prepared}
use sandbox_2025team.Base.Text.{Text}
use sandbox_2025team.Dispatcher.State.{State, Job}
use sandbox_2025team.Dispatcher.Loop.{
  enqueue_all, enqueue, LoopEnv, Text, Job, prepared, done, lookup, set_up_network, blocked, Turn,
}
use sandbox_2025team.Base.{
  dec_lt, ℕ, ◌≡◌, List, ◌<◌, length, ◌⊎◌, suc, some, ◌≤◌, ◌+◌, ◌++◌, none, ap, arith, ◌∷◌, [],
  length-append, sym, append-nil, ◌∙◌, append_assoc, inr,
}

-- The queue holds no more than its maximum, where it has one.
abbrev pub IsBounded : State → Type 0
IsBounded s = (s.max_task_count ≡ 0) ⊎ (length s.queue ≤ s.max_task_count)

-- There is room for so many jobs more.
abbrev pub HasRoom : ℕ → State → Type 0
HasRoom n s = (s.max_task_count ≡ 0) ⊎ (length s.queue + n ≤ s.max_task_count)

enqueue_fits :
    (job : Job) (n : ℕ) (s : State)
    → HasRoom (suc n) s
    → (enqueue job s ≡ some (record s { queue = s.queue ++ job ∷ [] }))
      × HasRoom n (record s { queue = s.queue ++ job ∷ [] })
unfolding enqueue
enqueue_fits job n s h = (ground arith, ground (arith, length-append {0} s.queue (job ∷ [])))

enqueue_full :
    (job : Job) (s : State)
    → 0 < s.max_task_count
    → s.max_task_count ≤ length s.queue
    → enqueue job s ≡ none
unfolding enqueue
enqueue_full job s h k = ground arith

pub enqueue_all_fits :
    (jobs : List Job) (s : State)
    → HasRoom (length jobs) s
    → enqueue_all jobs s ≡ (done, record s { queue = s.queue ++ jobs })
unfolding enqueue_all
enqueue_all_fits [] s h =
    ap (λ (q : List Job). let p : Turn × State = (done, record s { queue = q }) in p)
      (sym (append-nil s.queue))
enqueue_all_fits (job ∷ jobs) s h =
    let (put, room) = enqueue_fits job (length jobs) s h in
    let next = record s { queue = s.queue ++ job ∷ [] } in
    rw (put, enqueue_all)
      (enqueue_all_fits jobs next room
        ∙ ap (λ (q : List Job). let p : Turn × State = (done, record s { queue = q }) in p)
            (append_assoc s.queue (job ∷ []) jobs))

pub enqueue_all_blocks :
    (jobs : List Job) (s : State)
    → 0 < s.max_task_count
    → length s.queue ≤ s.max_task_count
    → s.max_task_count < length s.queue + length jobs
    → (enqueue_all jobs s).0 ≡ blocked
unfolding enqueue_all
enqueue_all_blocks [] s h k l = absurd (omega arith)
enqueue_all_blocks (job ∷ jobs) s h k l = elim (dec_lt (length s.queue) s.max_task_count) [
  | yes less ↦
      let (put, room) = enqueue_fits job 0 s (inr (omega arith)) in
      let next = record s { queue = s.queue ++ job ∷ [] } in
      let count = length-append {0} s.queue (job ∷ []) in
      rw (put, enqueue_all)
        (enqueue_all_blocks jobs next h (omega (arith, count)) (omega (arith, count)))
  | no more ↦ rw (enqueue_full job s h (omega arith), enqueue_all)
]

module _ (env : LoopEnv) (sid : Text) (s : State) (jobs : List Job)
    (there : env.network ≡ prepared tt) (pending : lookup sid s.pending_tasks ≡ some jobs) where
  -- Once its network is there, all pending jobs of a submission enter the queue, in order and
  -- behind the jobs that are in it, if the queue has room for them, and are pending no more.
  set_up_network_releases :
      HasRoom (length jobs) s
      → set_up_network env sid s
        ≡ (done, record s { queue = s.queue ++ jobs; pending_tasks = delete sid s.pending_tasks })
  unfolding set_up_network
  set_up_network_releases room =
      rw (there, set_up_network)
        (rw pending
          (enqueue_all_fits jobs (record s { pending_tasks = delete sid s.pending_tasks }) room))

  -- If the network is there, but a bounded queue that does not exceed its maximum has no room for all
  -- jobs of the submission, the turn is `blocked`: the dispatcher's thread waits in `put`.
  pub set_up_network_blocks :
      0 < s.max_task_count
      → length s.queue ≤ s.max_task_count
      → s.max_task_count < length s.queue + length jobs
      → (set_up_network env sid s).0 ≡ blocked
  unfolding set_up_network
  set_up_network_blocks limited bounded more =
      rw (there, set_up_network)
        (rw pending (
          enqueue_all_blocks jobs (record s { pending_tasks = delete sid s.pending_tasks }) limited
            bounded more))

-- A submission with more jobs than a bounded queue can ever hold blocks the dispatcher's thread when
-- its network is there, however empty the queue is.
pub oversized_blocks :
    (env : LoopEnv) (sid : Text) (s : State) (jobs : List Job)
    → env.network ≡ prepared tt
    → lookup sid s.pending_tasks ≡ some jobs
    → IsBounded s
    → 0 < s.max_task_count
    → s.max_task_count < length jobs
    → (set_up_network env sid s).0 ≡ blocked
oversized_blocks env sid s jobs there pending bounded limited more =
    set_up_network_blocks env sid s jobs there pending limited (omega arith) (omega arith)
