-- ===== src/Dispatcher/Handle/Accepted.antt =====
-- How handle ends for a submission whose preparation succeeds.
use sandbox_2025team.Dispatcher.Handle.Steps.{
  handle-queue_submission, tracked-full, tracked-queue, tracked-marked,
}
use sandbox_2025team.Dict.Laws.{lookup-insert_self}
use sandbox_2025team.Results.{put_tasks, CaseResult}
use sandbox_2025team.Dispatcher.Complete.{release}
use sandbox_2025team.Dispatcher.Handle.Queued.{case_numbers, case_numbers-tasks_to_run}
use sandbox_2025team.Dispatcher.Complete.Forget.{IsGone, release_forgets}
use sandbox_2025team.Errors.{raise, ok, queue_full}
use sandbox_2025team.Dispatcher.Handle.Outcome.{IsPrepared, Kept-full}
use sandbox_2025team.Dispatcher.State.{
  BuildPlan, State, is_full, Job, static_analysis, is_prebuilt_submission,
}
use sandbox_2025team.Results.AllCases.{entries, all_cases, put_tasks-eq-entries}
use sandbox_2025team.Dispatcher.Handle.{
  handle, queue_submission, is_full, raise, queue_full, ok, Job, static_analysis, release,
  put_tasks, tasks_to_run, is_prebuilt_submission,
}
use sandbox_2025team.Dict.{insert, lookup, contains}
use sandbox_2025team.Meta.{Meta}
use sandbox_2025team.Base.Text.{Text}
use sandbox_2025team.Dispatcher.Prepare.{HandleEnv}
use sandbox_2025team.Base.{
  ℕ, List, Bool, ◌≡◌, true, some, ◌∷◌, [], none, length, false, refl, ◌≤◌, ◌∙◌, ◌++◌, Option, ap,
}

-- What handle has done for a submission that it accepts.
pub record IsAcceptedBy (sid : Text) (p : ℕ) (meta : Meta) (s t : State) : Type 0 where
  -- Each case of the metadata has an empty slot, in order.
  pub slots : lookup sid t.result ≡ some (meta, entries none (all_cases 0 meta.tasks))
  pub jobs : List Job
  -- The jobs wait, and fill just these slots.
  pub waiting : lookup sid t.pending_tasks ≡ some jobs
  pub cases : case_numbers jobs ≡ all_cases 0 meta.tasks
  -- Only the static analysis enters the queue.
  pub queued : t.queue ≡ s.queue ++ static_analysis sid p ∷ []

-- The state of queue_submission before its job is put.
abbrev pending_state : Text → Meta → BuildPlan → State → State
pending_state sid meta plan s = record s {
  result = insert sid (meta, put_tasks none 0 meta.tasks []) s.result;
  pending_tasks =
      insert sid (tasks_to_run sid meta plan (is_prebuilt_submission sid s)) s.pending_tasks;
}

is_full-pending :
    (sid : Text) (meta : Meta) (plan : BuildPlan) (s : State)
    → is_full (pending_state sid meta plan s) ≡ is_full s
unfolding is_full
is_full-pending sid meta plan s = refl

module _ (sid : Text) (p : ℕ) (meta : Meta) (plan : BuildPlan) (s : State) where
  queue_submission-accepts :
      length meta.tasks ≤ 100
      → is_full s ≡ false
      → ((queue_submission sid p meta plan s).0 ≡ ok tt)
        × IsAcceptedBy sid p meta s (queue_submission sid p meta plan s).1
  unfolding queue_submission
  queue_submission-accepts hundred room =
      let jobs = tasks_to_run sid meta plan (is_prebuilt_submission sid s) in
      rw (is_full-pending sid meta plan s ∙ room, queue_submission)
        (
          refl,
          record {
            slots =
                rw (put_tasks-eq-entries {V = Option CaseResult} none meta.tasks hundred)
                  (lookup-insert_self sid _ s.result);
            jobs = jobs;
            waiting = lookup-insert_self sid jobs s.pending_tasks;
            cases = case_numbers-tasks_to_run sid meta plan (is_prebuilt_submission sid s);
            queued = refl;
          },
        )

  queue_submission-full :
      is_full s ≡ true
      → ((queue_submission sid p meta plan s).0 ≡ raise queue_full)
        × IsGone sid (queue_submission sid p meta plan s).1
        × ((queue_submission sid p meta plan s).1.queue ≡ s.queue)
        × ((queue_submission sid p meta plan s).1.trial_submissions ≡ s.trial_submissions)
  unfolding queue_submission release
  queue_submission-full full =
      let begun = pending_state sid meta plan s in
      let gone = (release_forgets sid begun).0 in
      rw (is_full-pending sid meta plan s ∙ full, queue_submission) (refl, gone, refl, refl)

module _ (env : HandleEnv) (checker scorer sid : Text) (p : ℕ) (is_trial : Bool) (s : State)
    (good : IsPrepared env sid s) where
  -- If the preparation of a new submission of at most a hundred tasks succeeds and the queue has a
  -- place, handle returns normally: the submission has an empty slot for each case of its metadata,
  -- jobs that wait and fill just these slots, and a static analysis behind the jobs of the queue.
  pub handle-IsAcceptedBy :
      length good.meta.tasks ≤ 100
      → is_full s ≡ false
      → let (outcome, t) = handle env checker scorer sid p is_trial s in
        (outcome ≡ ok tt) × IsAcceptedBy sid p good.meta s t
  handle-IsAcceptedBy hundred room =
      let (t, e, k) = handle-queue_submission env checker scorer sid p is_trial s good in
      let first = tracked-queue env checker scorer sid p good.meta s is_trial in
      let (fine, accepted) =
        queue_submission-accepts sid p good.meta good.plan t hundred
          (Kept-full k ∙ tracked-full env checker scorer sid p good.meta s is_trial ∙ room) in
      rw e (
        fine,
        record {
          slots = accepted.slots;
          jobs = accepted.jobs;
          waiting = accepted.waiting;
          cases = accepted.cases;
          queued = accepted.queued ∙ ap (λ q. q ++ static_analysis sid p ∷ []) (k.queue ∙ first);
        },
      )

  -- If the preparation of a new submission succeeds but the queue is full, handle raises queue.Full,
  -- no table keeps an entry of the submission and the queue is as it was; a trial submission stays
  -- in the set of trial submissions.
  pub handle_full_queue :
      is_full s ≡ true
      → let (outcome, t) = handle env checker scorer sid p is_trial s in
        (outcome ≡ raise queue_full)
        × IsGone sid t
        × (t.queue ≡ s.queue)
        × (is_trial ≡ true → contains sid t.trial_submissions ≡ true)
  handle_full_queue full =
      let (t, e, k) = handle-queue_submission env checker scorer sid p is_trial s good in
      let (bad, gone, same, trial) =
        queue_submission-full sid p good.meta good.plan t
          (Kept-full k ∙ tracked-full env checker scorer sid p good.meta s is_trial ∙ full) in
      let marked = tracked-marked env checker scorer sid p good.meta s is_trial in
      let first = tracked-queue env checker scorer sid p good.meta s is_trial in
      rw e (bad, gone, same ∙ k.queue ∙ first, λ h. ap (contains sid) (trial ∙ k.trial) ∙ marked h)
