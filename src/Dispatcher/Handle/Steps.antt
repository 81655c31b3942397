-- ===== src/Dispatcher/Handle/Steps.antt =====
-- The parts of handle, one behind the other.
use sandbox_2025team.Dict.Laws.{contains-add}
use sandbox_2025team.Errors.{ok}
use sandbox_2025team.Dispatcher.Handle.Outcome.{
  IsPrepared, Kept, prepare_resources-Kept, apply_plan-Kept, Kept-trans,
}
use sandbox_2025team.Dict.{insert, add, contains}
use sandbox_2025team.Dispatcher.State.{State, is_full, BuildPlan, contains_id}
use sandbox_2025team.Dispatcher.Handle.{
  handle_meta, handle, register, prepare_resources, insert, is_full, BuildPlan,
  prepare_with_build_strategy, queue_submission, custom_checker_info_of, prepared, contains_id,
  custom_scorer_info_of, apply_plan, ok,
}
use sandbox_2025team.Meta.{Meta}
use sandbox_2025team.Base.Text.{Text, text_eq_refl}
use sandbox_2025team.Dispatcher.Prepare.{
  HandleEnv, prepare_resources, prepared, prepare_with_build_strategy, custom_checker_info_of,
  custom_scorer_info_of,
}
use sandbox_2025team.Base.{ℕ, Bool, ◌≡◌, if◌then◌else◌, [], true, false, arith, refl, ◌∙◌}

module _ (env : HandleEnv) (checker scorer sid : Text) (p : ℕ) (meta : Meta) where
  abbrev entered : State → State
  entered s = record s {
    result = insert sid (meta, []) s.result;
    locks = insert sid false s.locks;
    compile_locks = insert sid false s.compile_locks;
    created_at = insert sid env.now s.created_at;
    build_strategies = insert sid meta.build_strategy s.build_strategies;
  }

  abbrev pub noted : State → State
  noted s = record s {
    problem_ids = insert sid p s.problem_ids;
    custom_checker_info =
        insert sid (custom_checker_info_of checker env.checker meta) s.custom_checker_info;
    custom_scorer_info =
        insert sid (custom_scorer_info_of scorer env.scorer meta) s.custom_scorer_info;
  }

  abbrev pub tracked : Bool → State → State
  tracked is_trial s =
      if is_trial then record s { trial_submissions = add sid s.trial_submissions } else s

  register_step :
      (plan : BuildPlan) (s t : State)
      → prepare_with_build_strategy env meta ≡ prepared plan
      → apply_plan sid meta plan (entered s) ≡ ok t
      → register env sid p meta s ≡ queue_submission sid p meta plan t
  unfolding register
  register_step plan s t planned applied = rw (planned, register) (rw applied refl)

  handle_meta_step :
      (s t : State)
      → prepare_resources env sid meta (noted s) ≡ (prepared tt, t)
      → handle_meta env checker scorer sid p meta s ≡ register env sid p meta t
  unfolding handle_meta
  handle_meta_step s t stored = simp (stored, handle_meta)

  handle_step :
      (is_trial : Bool) (s : State)
      → env.exists ≡ true
      → env.is_dir ≡ true
      → contains_id sid s ≡ false
      → env.meta ≡ ok meta
      → handle env checker scorer sid p is_trial s
        ≡ handle_meta env checker scorer sid p meta (tracked is_trial s)
  unfolding handle
  handle_step true s exists is_dir fresh parsed = simp (exists, is_dir, fresh, parsed, handle)
  handle_step false s exists is_dir fresh parsed = simp (exists, is_dir, fresh, parsed, handle)

module _ (env : HandleEnv) (checker scorer sid : Text) (p : ℕ) (meta : Meta) (s : State) where
  -- The queue is as it was behind the first statement of handle, which marks a trial submission.
  pub tracked-full :
      (is_trial : Bool) → is_full (tracked env checker scorer sid p meta is_trial s) ≡ is_full s
  unfolding is_full
  tracked-full true = refl
  tracked-full false = refl

  pub tracked-queue :
      (is_trial : Bool) → (tracked env checker scorer sid p meta is_trial s).queue ≡ s.queue
  tracked-queue true = refl
  tracked-queue false = refl

  pub tracked-marked :
      (is_trial : Bool)
      → is_trial ≡ true
      → contains sid (tracked env checker scorer sid p meta is_trial s).trial_submissions ≡ true
  tracked-marked true h = ground (arith, contains-add sid sid s.trial_submissions, text_eq_refl sid)
  tracked-marked false h = absurd (ground arith)

module _ (env : HandleEnv) (checker scorer sid : Text) (p : ℕ) (is_trial : Bool) (s : State)
    (good : IsPrepared env sid s) where
  -- Up to queue_submission, handle touches the queue not at all, and of the trial submissions only
  -- this one.
  pub handle-queue_submission :
      (t : State) × (handle env checker scorer sid p is_trial s
        ≡ queue_submission sid p good.meta good.plan t)
      × Kept (tracked env checker scorer sid p good.meta is_trial s) t
  handle-queue_submission =
      let begun = tracked env checker scorer sid p good.meta is_trial s in
      let (stored, e, k) =
        prepare_resources-Kept env sid good.meta (noted env checker scorer sid p good.meta begun)
          good.resources good.teacher_resources in
      let (planned, f, l) =
        apply_plan-Kept env sid good.meta good.plan
          (entered env checker scorer sid p good.meta stored) good.finalized in
      (
        planned,
        handle_step env checker scorer sid p good.meta is_trial s good.exists good.is_dir good.fresh
              good.parsed
            ∙ handle_meta_step env checker scorer sid p good.meta begun stored e
            ∙ register_step env checker scorer sid p good.meta good.plan stored planned good.planned
                f,
        Kept-trans (record { queue = refl; maximum = refl; trial = refl })
            (Kept-trans k (Kept-trans (record { queue = refl; maximum = refl; trial = refl }) l)),
      )
