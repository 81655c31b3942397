-- ===== src/Dispatcher/Handle/Queued.antt =====
-- What handle queues: the jobs of a submission and the slots of its results.
use sandbox_2025team.CaseNo.{case_no}
use sandbox_2025team.Base.Int.{pos_part}
use sandbox_2025team.Results.AllCases.{task_cases, all_cases}
use sandbox_2025team.Meta.{Task, Meta, compile}
use sandbox_2025team.Dispatcher.State.{Job, BuildPlan, build, network_setup, compile_need}
use sandbox_2025team.Base.Text.{Text}
use sandbox_2025team.Dispatcher.Handle.{
  tasks_to_run, execute_cases, execute_tasks, Job, Meta, Task, BuildPlan, execute, pos_part,
  static_analysis, build, compile, compile_need,
}
use sandbox_2025team.Base.{
  ℕ, List, ◌≡◌, ◌∷◌, ◌++◌, Bool, [], suc, inl, ◌+◌, ◌⊎◌, ap, Bool-cases, refl, zero, inr, not, ◌&&◌,
}

-- The case numbers of the Execute jobs.
pub case_numbers : List Job → List Text
case_numbers [] = []
case_numbers (execute sid i j ∷ jobs) = case_no i j ∷ case_numbers jobs
case_numbers (_ ∷ jobs) = case_numbers jobs

case_numbers-append :
    (xs ys : List Job) → case_numbers (xs ++ ys) ≡ case_numbers xs ++ case_numbers ys
unfolding case_numbers
case_numbers-append [] ys = refl
case_numbers-append (execute sid i j ∷ xs) ys =
    ap (λ l. case_no i j ∷ l) (case_numbers-append xs ys)
case_numbers-append (static_analysis sid p ∷ xs) ys = case_numbers-append xs ys
case_numbers-append (network_setup sid p ∷ xs) ys = case_numbers-append xs ys
case_numbers-append (build sid ∷ xs) ys = case_numbers-append xs ys
case_numbers-append (compile sid ∷ xs) ys = case_numbers-append xs ys

case_numbers-execute_cases :
    (sid : Text) (i j left : ℕ) → case_numbers (execute_cases sid i j left) ≡ task_cases i j left
unfolding case_numbers execute_cases
case_numbers-execute_cases sid i j zero = refl
case_numbers-execute_cases sid i j (suc left) =
    ap (λ l. case_no i j ∷ l) (case_numbers-execute_cases sid i (j + 1) left)

case_numbers-execute_tasks :
    (sid : Text) (i : ℕ) (ts : List Task) → case_numbers (execute_tasks sid i ts) ≡ all_cases i ts
unfolding case_numbers execute_tasks
case_numbers-execute_tasks sid i [] = refl
case_numbers-execute_tasks sid i (t ∷ ts) =
    let n = pos_part t.case_count in
    cc (
      case_numbers-append (execute_cases sid i 0 n) (execute_tasks sid (i + 1) ts),
      case_numbers-execute_cases sid i 0 n,
      case_numbers-execute_tasks sid (i + 1) ts,
    )

-- A submission is built by its Makefile or compiled, never both, and each of its cases is executed
-- once, in order.
record Planned (sid : Text) (meta : Meta) (jobs : List Job) : Type 0 where
  builders : List Job
  split : jobs ≡ builders ++ execute_tasks sid 0 meta.tasks
  one : (builders ≡ []) ⊎ ((builders ≡ build sid ∷ []) ⊎ (builders ≡ compile sid ∷ []))

tasks_to_run-Planned :
    (sid : Text) (meta : Meta) (plan : BuildPlan) (prebuilt : Bool)
    → Planned sid meta (tasks_to_run sid meta plan prebuilt)
unfolding tasks_to_run
tasks_to_run-Planned sid meta plan prebuilt = elim (Bool-cases plan.needs_make) [
  | inl makes ↦
      rw (makes, tasks_to_run)
        (record { builders = build sid ∷ []; split = refl; one = inr (inl refl) })
  | inr plain ↦ elim (Bool-cases (not prebuilt && compile_need meta.language)) [
    | inl compiles ↦
        rw (plain, compiles, tasks_to_run)
          (record { builders = compile sid ∷ []; split = refl; one = inr (inr refl) })
    | inr nothing ↦
        rw (plain, nothing, tasks_to_run) (record { builders = []; split = refl; one = inl refl })
  ]
]

-- The Execute jobs of a submission have the case numbers of its metadata, each once and in order,
-- with a build or a compilation in front of them or not.
pub case_numbers-tasks_to_run :
    (sid : Text) (meta : Meta) (plan : BuildPlan) (prebuilt : Bool)
    → case_numbers (tasks_to_run sid meta plan prebuilt) ≡ all_cases 0 meta.tasks
unfolding case_numbers
case_numbers-tasks_to_run sid meta plan prebuilt =
    let p = tasks_to_run-Planned sid meta plan prebuilt in
    let all = case_numbers-execute_tasks sid 0 meta.tasks in
    let joined = case_numbers-append p.builders (execute_tasks sid 0 meta.tasks) in
    elim p.one [
      | inl e ↦ rw p.split (rw e all)
      | inr (inl e) ↦ rw p.split (rw e all)
      | inr (inr e) ↦ rw p.split (rw e all)
    ]
