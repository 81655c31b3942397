-- ===== src/Interactive/Verdict.antt =====
-- When an interactive run is accepted, and what can be printed.
use sandbox_2025team.Base.Int.{ℤ, ltb_ℤ, pos}
use sandbox_2025team.Interactive.Configuration.{
  OrchestrateEnv, orchestrate, conclude, pipe_mode_of, configure, execute_both, Printed, read_sides,
  orchestrator_main, broken_off,
}
use sandbox_2025team.Base.{false, some, refl, inl, inr, ◌≡◌, ◌⊎◌, arith, ◌∙◌, Bool-cases, ap, ◌↔◌}
use sandbox_2025team.Base.Text.{Text, codes, text_eq, text_eq_iff}
use sandbox_2025team.Interactive.{
  done, failed_with, Orchestrated, judge_sides, count_files, Sides, parse_check_result, TextFile,
  memory_of,
}

pub Orchestrated-cases :
    {A : Type 0} (r : Orchestrated A)
    → ((a : A) × (r ≡ done a)) ⊎ ((e : Text) × (r ≡ failed_with e))
Orchestrated-cases (done a) = inl (a, refl)
Orchestrated-cases (failed_with e) = inr (e, refl)

-- FIFOs are given up for devfd, so that the second try of "auto" does what the first one did.
orchestrate-fifo :
    (env : OrchestrateEnv) → orchestrate env (codes "fifo") ≡ orchestrate env (codes "devfd")
unfolding orchestrate pipe_mode_of text_eq
orchestrate-fifo env = ground arith

-- A run that both sides leave normally, with an AC of the teacher and not too many files.
pub record IsAccepted (env : OrchestrateEnv) : Type 0 where
  pub max_new_files : ℤ
  pub configured : configure env ≡ done max_new_files
  pub executed : execute_both env ≡ done tt
  pub sides : Sides
  pub read : read_sides env ≡ done sides
  pub student : sides.student.status ≡ codes "AC"
  pub teacher : sides.teacher.status ≡ codes "AC"
  pub message : Text
  pub checked : parse_check_result env.check_result ≡ done (some (codes "AC"), message)
  pub few_files : ltb_ℤ max_new_files env.new_files ≡ false

orchestrate-IsAccepted :
    (env : OrchestrateEnv) (mode : Text)
    → IsAccepted env
    → (p : Printed) × (orchestrate env mode ≡ done p) × (p.status ≡ codes "AC")
unfolding orchestrate conclude judge_sides count_files text_eq
orchestrate-IsAccepted env mode a = (
  record {
    status = codes "AC";
    stderr = a.message;
    duration = env.duration;
    mem_usage = memory_of a.sides;
    docker_exit_code = pos 0;
    pipe_mode = pipe_mode_of mode env.allow_write_student;
  },
  ground (arith, a.configured, a.executed, a.read, a.student, a.teacher, a.checked, a.few_files),
  refl,
)

judge_sides-ac :
    (s : Sides) (check : TextFile) (message : Text)
    → judge_sides s check ≡ done (codes "AC", message)
    → (s.student.status ≡ codes "AC")
      × (s.teacher.status ≡ codes "AC")
      × (parse_check_result check ≡ done (some (codes "AC"), message))
unfolding judge_sides
judge_sides-ac s check message h = ground (
  arith,
  h,
  text_eq_iff s.student.status (codes "AC"),
  text_eq_iff s.teacher.status (codes "AC"),
  Orchestrated-cases (parse_check_result check),
)

count_files-ac :
    (new_files max_new_files : ℤ) (verdict : Text × Text)
    → (count_files new_files max_new_files verdict).0 ≡ codes "AC"
    → (verdict.0 ≡ codes "AC") × (ltb_ℤ max_new_files new_files ≡ false)
unfolding count_files
count_files-ac new_files max_new_files (status, message) h =
    ground (arith, h, text_eq_iff status (codes "AC"), Bool-cases (ltb_ℤ max_new_files new_files))

conclude-ac :
    (env : OrchestrateEnv) (max_new_files : ℤ) (pipe_mode : Text) (p : Printed)
    → conclude env max_new_files pipe_mode ≡ done p
    → p.status ≡ codes "AC"
    → configure env ≡ done max_new_files
    → execute_both env ≡ done tt
    → IsAccepted env
unfolding conclude
conclude-ac env max_new_files pipe_mode p h ac configured executed =
    elim (Orchestrated-cases (read_sides env)) [
      | inr (e, failed) ↦ absurd (ground (arith, h, failed))
      | inl (sides, read) ↦ elim (Orchestrated-cases (judge_sides sides env.check_result)) [
        | inr (e, failed) ↦ absurd (ground (arith, h, read, failed))
        | inl ((status, message), judged) ↦
            let (good, few) =
              count_files-ac env.new_files max_new_files (status, message)
                (ground (arith, h, ac, read, judged)) in
            let (student, teacher, checked) =
              judge_sides-ac sides env.check_result message
                (judged ∙ ap (λ (t : Text). done (t, message)) good) in
            record {
              max_new_files = max_new_files;
              configured = configured;
              executed = executed;
              sides = sides;
              read = read;
              student = student;
              teacher = teacher;
              message = message;
              checked = checked;
              few_files = few;
            }
      ]
    ]

IsAccepted-orchestrate :
    (env : OrchestrateEnv) (mode : Text) (p : Printed)
    → orchestrate env mode ≡ done p
    → p.status ≡ codes "AC"
    → IsAccepted env
unfolding orchestrate
IsAccepted-orchestrate env mode p ran ac = elim (Orchestrated-cases (configure env)) [
  | inr (e, failed) ↦ absurd (ground (arith, ran, failed))
  | inl (max_new_files, configured) ↦ elim (Orchestrated-cases (execute_both env)) [
    | inr (e, failed) ↦ absurd (ground (arith, ran, configured, failed))
    | inl (tt, executed) ↦
        conclude-ac env max_new_files (pipe_mode_of mode env.allow_write_student) p
          (ground (arith, ran, configured, executed)) ac configured executed
  ]
]

-- With a pipe mode other than "auto", main prints AC exactly for a run in which nothing failed: the
-- configuration was read, the processes were run, both sides ended normally, the teacher wrote AC into
-- Check_Result, and did not leave too many files.
pub orchestrator_main-ac_iff :
    (mode : Text) (first second : OrchestrateEnv)
    → text_eq mode (codes "auto") ≡ false
    → ((orchestrator_main mode first second).status ≡ codes "AC") ↔ IsAccepted first
unfolding orchestrator_main broken_off
orchestrator_main-ac_iff mode first second fixed =
    elim (Orchestrated-cases (orchestrate first mode)) [
      | inl (p, ran) ↦ (
        λ ac. IsAccepted-orchestrate first mode p ran (ground (arith, ac, fixed, ran)),
        λ a.
            let (q, same, ac) = orchestrate-IsAccepted first mode a in
            ground (arith, fixed, same, ac),
      )
      | inr (e, failed) ↦ (
        λ ac. absurd (ground (arith, ac, fixed, failed)),
        λ a.
            let (q, same, ac) = orchestrate-IsAccepted first mode a in
            ground (arith, fixed, same, ac),
      )
    ]
