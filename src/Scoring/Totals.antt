-- ===== src/Scoring/Totals.antt =====
-- The score of a submission: what the loop of _build_scoring_tasks adds up, and its bounds.
use sandbox_2025team.Base.{
  ℕ, ◌+◌, ◌≡◌, List, [], ◌∷◌, ◌++◌, map, true, some, All, length, arith, ◌↔◌, sym, Bool-cases,
  append-nil, inl, inr, append_assoc, ◌∙◌, refl, ap,
}
use sandbox_2025team.Base.Int.{ℤ, pos, ◌+ℤ◌, ◌≤ℤ◌, sum_ℤ, int_laws, +ℤ_zero, +ℤ_assoc, zero_+ℤ}
use sandbox_2025team.Base.Text.{codes, text_eq_iff}
use sandbox_2025team.Meta.{Task, total_of, validate_task}
use sandbox_2025team.Results.{CaseResult}
use sandbox_2025team.Scoring.{
  ScoredTask, score_cases, score_task, cases_at, score_loop, build_scoring_tasks,
}

abbrev subtask_sum : List ScoredTask → ℤ
subtask_sum l = sum_ℤ (map (λ s. s.subtask_score) l)

-- The entries that the loop makes, without its accumulators.
abbrev pub scored_from : ℕ → List Task → List (List CaseResult) → List ScoredTask
scored_from idx [] results = []
scored_from idx (t ∷ ts) results =
    score_task idx t (cases_at results idx) ∷ scored_from (idx + 1) ts results

score_loop_lem :
    (idx : ℕ) (ts : List Task) (results : List (List CaseResult)) (payload : List ScoredTask)
    (total : ℤ)
    → ((score_loop idx ts results payload total).0 ≡ payload ++ scored_from idx ts results)
      × ((score_loop idx ts results payload total).1
          ≡ total +ℤ subtask_sum (scored_from idx ts results))
unfolding score_loop sum_ℤ
score_loop_lem idx [] results payload total = (sym (append-nil payload), sym (+ℤ_zero total))
score_loop_lem idx (t ∷ ts) results payload total =
    let scored = score_task idx t (cases_at results idx) in
    let (entries, sums) =
      score_loop_lem (idx + 1) ts results (payload ++ scored ∷ [])
        (total +ℤ scored.subtask_score) in
    (
      cc (entries, append_assoc payload (scored ∷ []) (scored_from (idx + 1) ts results)),
      sums ∙ +ℤ_assoc total scored.subtask_score (subtask_sum (scored_from (idx + 1) ts results)),
    )

-- A task earns its score or nothing.
abbrev pub IsAccepted : Task → List CaseResult → Type 0
IsAccepted t cases = All (λ r. r.status ≡ codes "AC") cases × (pos (length cases) ≡ t.case_count)

score_cases_ac_iff :
    (i : ℕ) (cases : List CaseResult)
    → ((score_cases i cases).1 ≡ true) ↔ All (λ r. r.status ≡ codes "AC") cases
unfolding score_cases
score_cases_ac_iff i [] = ((λ _. tt), λ _. refl)
score_cases_ac_iff i (r ∷ rs) =
    ground (arith, score_cases_ac_iff (i + 1) rs, text_eq_iff r.status (codes "AC"))

pub score_task_accepted :
    (idx : ℕ) (t : Task) (cases : List CaseResult)
    → IsAccepted t cases
    → (score_task idx t cases).subtask_score ≡ t.task_score
unfolding score_task
score_task_accepted idx t cases (ac, counted) =
    rw ((score_cases_ac_iff 0 cases).1 ac) (ground (arith, counted))

score_task_other :
    (idx : ℕ) (t : Task) (cases : List CaseResult)
    → ¬ IsAccepted t cases
    → (score_task idx t cases).subtask_score ≡ pos 0
unfolding score_task
score_task_other idx t cases other = elim (Bool-cases (score_cases 0 cases).1) [
  | inl ac ↦
      let all_ac = (score_cases_ac_iff 0 cases).0 ac in
      ground (arith, λ (c : pos (length cases) ≡ t.case_count). other (all_ac, c))
  | inr some_failed ↦ rw some_failed
]

score_task-bounds :
    (idx : ℕ) (t : Task) (cases : List CaseResult)
    → pos 0 ≤ℤ t.task_score
    → (pos 0 ≤ℤ (score_task idx t cases).subtask_score)
      × ((score_task idx t cases).subtask_score ≤ℤ t.task_score)
unfolding score_task
score_task-bounds idx t cases h = ground arith

scored_from-bounds :
    (idx : ℕ) (ts : List Task) (results : List (List CaseResult))
    → All (λ t. pos 0 ≤ℤ t.task_score) ts
    → (pos 0 ≤ℤ subtask_sum (scored_from idx ts results))
      × (subtask_sum (scored_from idx ts results) ≤ℤ total_of ts)
unfolding sum_ℤ
scored_from-bounds idx [] results h = omega arith
scored_from-bounds idx (t ∷ ts) results (h, hs) =
    let (low, high) = score_task-bounds idx t (cases_at results idx) h in
    let (rest_low, rest_high) = scored_from-bounds (idx + 1) ts results hs in omega int_laws

validated : (ts ts' : List Task) → validate_task ts ≡ some ts' → total_of ts ≡ pos 100
unfolding validate_task
validated ts ts' h = ground arith

-- The default total score is the sum of the subtask scores that are reported with it, task by task.
total-eq-sum :
    (ts : List Task) (results : List (List CaseResult))
    → ((build_scoring_tasks ts results).0 ≡ scored_from 0 ts results)
      × ((build_scoring_tasks ts results).1
          ≡ sum_ℤ (map (λ s. s.subtask_score) (build_scoring_tasks ts results).0))
unfolding build_scoring_tasks
total-eq-sum ts results =
    let (entries, sums) = score_loop_lem 0 ts results [] (pos 0) in
    (entries, sums ∙ zero_+ℤ _ ∙ ap subtask_sum (sym entries))

-- Where the metadata passed its validator and no score is negative, the default total of any results
-- lies between 0 and 100.
pub total_bounds :
    (ts ts' : List Task) (results : List (List CaseResult))
    → validate_task ts ≡ some ts'
    → All (λ t. pos 0 ≤ℤ t.task_score) ts
    → (pos 0 ≤ℤ (build_scoring_tasks ts results).1)
      × ((build_scoring_tasks ts results).1 ≤ℤ pos 100)
total_bounds ts ts' results h scores =
    let (entries, sums) = total-eq-sum ts results in
    let (low, high) = scored_from-bounds 0 ts results scores in
    let whole = validated ts ts' h in
    let same = sums ∙ ap subtask_sum entries in rw same (low, rw whole at high)

-- The tasks from number `idx` on have all their cases, each of them AC.
abbrev pub AllAccepted : ℕ → List Task → List (List CaseResult) → Type 0
AllAccepted idx [] results = Unit
AllAccepted idx (t ∷ ts) results =
    IsAccepted t (cases_at results idx) × AllAccepted (idx + 1) ts results

scored_from_accepted :
    (idx : ℕ) (ts : List Task) (results : List (List CaseResult))
    → AllAccepted idx ts results
    → subtask_sum (scored_from idx ts results) ≡ total_of ts
unfolding sum_ℤ
scored_from_accepted idx [] results h = refl
scored_from_accepted idx (t ∷ ts) results (h, hs) = cc (
  score_task_accepted idx t (cases_at results idx) h,
  scored_from_accepted (idx + 1) ts results hs,
)

-- Full marks: with validated metadata the default total is 100 if every case of every task is AC,
-- and no case is missing.
total_full :
    (ts ts' : List Task) (results : List (List CaseResult))
    → validate_task ts ≡ some ts'
    → AllAccepted 0 ts results
    → (build_scoring_tasks ts results).1 ≡ pos 100
total_full ts ts' results h accepted =
    let (entries, sums) = total-eq-sum ts results in
    sums ∙ ap subtask_sum entries ∙ scored_from_accepted 0 ts results accepted ∙ validated ts ts' h

-- All or nothing: each reported subtask score is the task's score if all cases are there and AC, and
-- 0 if not.
pub subtask_all_or_nothing :
    (idx : ℕ) (t : Task) (cases : List CaseResult)
    → (IsAccepted t cases → (score_task idx t cases).subtask_score ≡ t.task_score)
      × (¬ IsAccepted t cases → (score_task idx t cases).subtask_score ≡ pos 0)
subtask_all_or_nothing idx t cases = (score_task_accepted idx t cases, score_task_other idx t cases)
