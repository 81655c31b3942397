-- ===== src/Dispatcher/Handle/Bounds.antt =====
-- The bound of the queue and the count of the containers through handle.
use sandbox_2025team.Dispatcher.Handle.Steps.{noted}
use sandbox_2025team.Dict.{insert, add}
use sandbox_2025team.Dispatcher.Loop.Turns.{Prepared-cases}
use sandbox_2025team.Errors.{ok, Result-cases}
use sandbox_2025team.Meta.{Meta}
use sandbox_2025team.Dispatcher.Complete.{release}
use sandbox_2025team.Dispatcher.Loop.Bounds.{Steady}
use sandbox_2025team.Base.Text.{Text}
use sandbox_2025team.Dispatcher.Failures.Queue.{SameQueue, on_submission_complete-SameQueue}
use sandbox_2025team.Dispatcher.State.{State, is_full, BuildPlan, static_analysis, contains_id}
use sandbox_2025team.Dispatcher.Handle.{
  queue_submission, apply_plan, Text, is_full, HandleEnv, Meta, release, BuildPlan, ok,
  static_analysis, register, handle, handle_meta, prepare_with_build_strategy, insert, contains_id,
}
use sandbox_2025team.Dispatcher.Prepare.{
  prepare_resources, prepare_teacher_dir, HandleEnv, prepare_with_build_strategy,
}
use sandbox_2025team.Base.{
  ℕ, arith, ◌≡◌, ◌∙◌, length-append, ◌∷◌, [], Bool, inr, inl, false, if◌then◌else◌, Bool-cases,
}

prepare_resources-SameQueue :
    (env : HandleEnv) (sid : Text) (meta : Meta) (s : State)
    → SameQueue s (prepare_resources env sid meta s).1
unfolding prepare_resources prepare_teacher_dir
prepare_resources-SameQueue env sid meta s = record {
  queue = ground arith;
  maximum = ground arith;
  count = ground arith;
}

apply_plan-SameQueue :
    (sid : Text) (meta : Meta) (plan : BuildPlan) (s t : State)
    → apply_plan sid meta plan s ≡ ok t
    → SameQueue s t
unfolding apply_plan
apply_plan-SameQueue sid meta plan s t e = record {
  queue = ground arith;
  maximum = ground arith;
  count = ground arith;
}

module _ (n : ℕ) where
  pub Steady-same : {s t : State} → SameQueue s t → Steady n s → Steady n t
  Steady-same same (bounded, counted) =
      (ground (arith, same.queue, same.maximum), same.count ∙ counted)

  queue_submission-Steady :
      (sid : Text) (p : ℕ) (meta : Meta) (plan : BuildPlan) (s : State)
      → Steady n s
      → Steady n (queue_submission sid p meta plan s).1
  unfolding queue_submission is_full release
  queue_submission-Steady sid p meta plan s (bounded, counted) =
      ground (arith, length-append {0} s.queue (static_analysis sid p ∷ []))

  register-Steady :
      (env : HandleEnv) (sid : Text) (p : ℕ) (meta : Meta) (s : State)
      → Steady n s
      → Steady n (register env sid p meta s).1
  unfolding register
  register-Steady env sid p meta s b =
      elim (Prepared-cases (prepare_with_build_strategy env meta)) [
        | inr (message, e) ↦
            simp (e, register)
              (Steady-same (on_submission_complete-SameQueue env.completion sid _) b)
        | inl (plan, e) ↦
            let entered = record s {
              result = insert sid (meta, []) s.result;
              locks = insert sid false s.locks;
              compile_locks = insert sid false s.compile_locks;
              created_at = insert sid env.now s.created_at;
              build_strategies = insert sid meta.build_strategy s.build_strategies;
            } in
            elim (Result-cases (apply_plan sid meta plan entered)) [
              | inr (x, f) ↦ simp (e, f, register) b
              | inl (t, f) ↦
                  simp (e, f, register)
                    (queue_submission-Steady sid p meta plan t
                      (Steady-same (apply_plan-SameQueue sid meta plan entered t f) b))
            ]
      ]

  handle_meta-Steady :
      (env : HandleEnv) (checker scorer sid : Text) (p : ℕ) (meta : Meta) (s : State)
      → Steady n s
      → Steady n (handle_meta env checker scorer sid p meta s).1
  unfolding handle_meta
  handle_meta-Steady env checker scorer sid p meta s b =
      let marked = noted env checker scorer sid p meta s in
      let stored = prepare_resources env sid meta marked in
      let kept : Steady n stored.1 =
        Steady-same (prepare_resources-SameQueue env sid meta marked) b in
      elim (Prepared-cases stored.0) [
        | inl (_, e) ↦ simp (e, handle_meta) (register-Steady env sid p meta stored.1 kept)
        | inr (message, e) ↦
            simp (e, handle_meta)
              (Steady-same (on_submission_complete-SameQueue env.completion sid _) kept)
      ]

  pub handle-Steady :
      (env : HandleEnv) (checker scorer sid : Text) (p : ℕ) (is_trial : Bool) (s : State)
      → Steady n s
      → Steady n (handle env checker scorer sid p is_trial s).1
  unfolding handle
  handle-Steady env checker scorer sid p is_trial s b =
      let begun : State =
        if is_trial then record s { trial_submissions = add sid s.trial_submissions } else s in
      let kept : Steady n begun = elim (Bool-cases is_trial) [
        | inl trial ↦ rw trial b
        | inr normal ↦ rw normal b
      ] in
      elim (Bool-cases env.exists) [
        | inr absent ↦ simp (absent, handle) kept
        | inl there ↦ elim (Bool-cases env.is_dir) [
          | inr file ↦ simp (there, file, handle) kept
          | inl dir ↦ elim (Bool-cases (contains_id sid begun)) [
            | inl taken ↦ simp (there, dir, taken, handle) kept
            | inr fresh ↦ elim (Result-cases env.meta) [
              | inr (x, e) ↦ simp (there, dir, fresh, e, handle) kept
              | inl (meta, e) ↦
                  simp (there, dir, fresh, e, handle)
                    (handle_meta-Steady env checker scorer sid p meta begun kept)
            ]
          ]
        ]
      ]
