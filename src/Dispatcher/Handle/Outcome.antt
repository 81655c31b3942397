-- ===== src/Dispatcher/Handle/Outcome.antt =====
-- The preparation of a submission that succeeds.
use sandbox_2025team.Dict.{insert, add}
use sandbox_2025team.Errors.{ok}
use sandbox_2025team.Dispatcher.Handle.{
  apply_plan, contains_id, BuildPlan, ok, prepare_with_build_strategy, insert, compile_need,
}
use sandbox_2025team.Meta.{Meta}
use sandbox_2025team.Base.Text.{Text}
use sandbox_2025team.Dispatcher.State.{is_full, State, BuildPlan, contains_id, compile_need}
use sandbox_2025team.Dispatcher.Prepare.{
  HandleEnv, Prepared, prepare_resources, prepared, note_dir, prepare_teacher_dir,
  prepare_with_build_strategy,
}
use sandbox_2025team.Base.{
  Bool, ◌≡◌, ◌∙◌, refl, Option, arith, false, ◌⊎◌, Bool-cases, inr, inl, true, none,
}

-- A later state with the same queue and the same trial submissions.
pub record Kept (s t : State) : Type 0 where
  pub queue : t.queue ≡ s.queue
  pub maximum : t.max_task_count ≡ s.max_task_count
  pub trial : t.trial_submissions ≡ s.trial_submissions

pub Kept-refl : (s : State) → Kept s s
Kept-refl s = record { queue = refl; maximum = refl; trial = refl }

pub Kept-trans : {s t u : State} → Kept s t → Kept t u → Kept s u
Kept-trans a b = record {
  queue = b.queue ∙ a.queue;
  maximum = b.maximum ∙ a.maximum;
  trial = b.trial ∙ a.trial;
}

pub Kept-full : {s t : State} → Kept s t → is_full t ≡ is_full s
unfolding is_full
Kept-full a = ground (arith, a.queue, a.maximum)

-- A preparation that a submission does not ask for, or that succeeds.
abbrev pub IsFine : Bool → Prepared (Option Text) → Type 0
IsFine asked outcome = (asked ≡ false) ⊎ ((d : Option Text) × (outcome ≡ prepared d))

module _ (env : HandleEnv) (sid : Text) (meta : Meta) where
  prepare_teacher_dir-Kept :
      (s : State)
      → IsFine meta.resource_data_teacher env.teacher_resource_data
      → (t : State) × (prepare_teacher_dir env sid meta s ≡ (prepared tt, t)) × Kept s t
  unfolding prepare_teacher_dir
  prepare_teacher_dir-Kept s fine = elim (Bool-cases meta.resource_data_teacher) [
    | inr off ↦ (s, rw (off, prepare_teacher_dir) refl, Kept-refl s)
    | inl asked ↦ elim fine [
      | inl denied ↦ absurd (ground arith)
      | inr (d, e) ↦ (
        record s { teacher_resource_dirs = note_dir sid d s.teacher_resource_dirs },
        rw (asked, prepare_teacher_dir) (rw e refl),
        record { queue = refl; maximum = refl; trial = refl },
      )
    ]
  ]

  prepare_resources_on :
      (s : State) (d : Option Text)
      → meta.resource_data ≡ true
      → env.resource_data ≡ prepared d
      → prepare_resources env sid meta s
        ≡ prepare_teacher_dir env sid meta
            (record s { resource_dirs = note_dir sid d s.resource_dirs })
  unfolding prepare_resources
  prepare_resources_on s d asked there = rw (asked, prepare_resources) (rw there refl)

  prepare_resources_off :
      (s : State)
      → meta.resource_data ≡ false
      → prepare_resources env sid meta s ≡ prepare_teacher_dir env sid meta s
  unfolding prepare_resources
  prepare_resources_off s off = rw (off, prepare_resources) refl

  pub prepare_resources-Kept :
      (s : State)
      → IsFine meta.resource_data env.resource_data
      → IsFine meta.resource_data_teacher env.teacher_resource_data
      → (t : State) × (prepare_resources env sid meta s ≡ (prepared tt, t)) × Kept s t
  unfolding prepare_resources
  prepare_resources-Kept s fine teacher = elim (Bool-cases meta.resource_data) [
    | inr off ↦
        let (t, e, k) = prepare_teacher_dir-Kept s teacher in
        (t, prepare_resources_off s off ∙ e, k)
    | inl asked ↦ elim fine [
      | inl denied ↦ absurd (ground arith)
      | inr (d, there) ↦
          let with_dir = record s { resource_dirs = note_dir sid d s.resource_dirs } in
          let (t, e, k) = prepare_teacher_dir-Kept with_dir teacher in
          (
            t,
            prepare_resources_on s d asked there ∙ e,
            Kept-trans (record { queue = refl; maximum = refl; trial = refl }) k,
          )
    ]
  ]

  -- A plan that runs make, or that has nothing to finalize.
  pub apply_plan-Kept :
      (plan : BuildPlan) (s : State)
      → (plan.needs_make ≡ true) ⊎ (plan.finalize ≡ none)
      → (t : State) × (apply_plan sid meta plan s ≡ ok t) × Kept s t
  unfolding apply_plan
  apply_plan-Kept plan s fine = elim (Bool-cases plan.needs_make) [
    | inl makes ↦ (
      record s {
        build_plans = insert sid plan s.build_plans;
        build_locks = insert sid false s.build_locks;
      },
      rw (makes, apply_plan) refl,
      record { queue = refl; maximum = refl; trial = refl },
    )
    | inr plain ↦ elim fine [
      | inl makes ↦ absurd (ground arith)
      | inr nothing ↦ elim (Bool-cases (compile_need meta.language)) [
        | inl compiles ↦ (s, rw (plain, apply_plan) (rw nothing (rw compiles refl)), Kept-refl s)
        | inr not_compiled ↦ (
          record s { prebuilt_submissions = add sid s.prebuilt_submissions },
          rw (plain, apply_plan) (rw nothing (rw not_compiled refl)),
          record { queue = refl; maximum = refl; trial = refl },
        )
      ]
    ]
  ]

-- The preparation of a submission, up to its registration, succeeds.
pub record IsPrepared (env : HandleEnv) (sid : Text) (s : State) : Type 0 where
  pub exists : env.exists ≡ true
  pub is_dir : env.is_dir ≡ true
  pub fresh : contains_id sid s ≡ false
  pub meta : Meta
  pub parsed : env.meta ≡ ok meta
  pub resources : IsFine meta.resource_data env.resource_data
  pub teacher_resources : IsFine meta.resource_data_teacher env.teacher_resource_data
  pub plan : BuildPlan
  pub planned : prepare_with_build_strategy env meta ≡ prepared plan
  pub finalized : (plan.needs_make ≡ true) ⊎ (plan.finalize ≡ none)
