-- ===== src/Results/AllCases.antt =====
-- The case numbers of a submission, and the dicts that its loops fill.
use sandbox_2025team.Base.{
  refl, ℕ, zero, suc, ◌+◌, ◌<◌, ◌≤◌, ◌≡◌, List, [], ◌∷◌, ◌++◌, length, false, ◌⊎◌, All, arith, ◌≢◌,
  sym, inr, ◌∙◌, append-nil, ap, subst, append_assoc,
}
use sandbox_2025team.Base.Int.{pos_part}
use sandbox_2025team.Base.Text.{Text, text_eq_iff}
use sandbox_2025team.Dict.{Dict, has_key, keys}
use sandbox_2025team.Dict.Laws.{insert_fresh}
use sandbox_2025team.CaseNo.{case_no}
use sandbox_2025team.CaseNo.Roundtrip.{case_no-injective}
use sandbox_2025team.Meta.{Task}
use sandbox_2025team.Results.{put_cases, put_tasks}

-- The case numbers of one task, from `ci` on.
abbrev pub task_cases : (ti ci left : ℕ) → List Text
task_cases ti ci zero = []
task_cases ti ci (suc left) = case_no ti ci ∷ task_cases ti (ci + 1) left

-- The case numbers of the tasks, the first of which has number `ti`.
abbrev pub all_cases : ℕ → List Task → List Text
all_cases ti [] = []
all_cases ti (t ∷ ts) = task_cases ti 0 (pos_part t.case_count) ++ all_cases (ti + 1) ts

-- A key that the loops wrote before case `ci` of task `ti`.
record IsEarlier (ti ci : ℕ) (k : Text) : Type 0 where
  task : ℕ
  number : ℕ
  named : k ≡ case_no task number
  earlier : (task < ti) ⊎ ((task ≡ ti) × (number < ci))

IsEarlier-ne : (ti ci : ℕ) (k : Text) → ti < 100 → IsEarlier ti ci k → k ≢ case_no ti ci
IsEarlier-ne ti ci k h e same =
    let (t, n) = case_no-injective e.task e.number ti ci (ground arith) h (sym e.named ∙ same) in
    ground arith

IsEarlier-later : (ti ci : ℕ) (k : Text) → IsEarlier ti ci k → IsEarlier ti (ci + 1) k
IsEarlier-later ti ci k e = record {
  task = e.task;
  number = e.number;
  named = e.named;
  earlier = ground arith;
}

IsEarlier-next : (ti ci : ℕ) (k : Text) → IsEarlier ti ci k → IsEarlier (ti + 1) 0 k
IsEarlier-next ti ci k e = record {
  task = e.task;
  number = e.number;
  named = e.named;
  earlier = ground arith;
}

-- A dict that maps each of the keys to one value.
abbrev pub entries {ℓ} : {V : Type ℓ} → V → List Text → Dict V
entries v [] = []
entries v (k ∷ ks) = (k, v) ∷ entries v ks

entries-append {ℓ} :
    {V : Type ℓ} (v : V) (ks js : List Text) → entries v (ks ++ js) ≡ entries v ks ++ entries v js
entries-append v [] js = refl
entries-append v (k ∷ ks) js = ap (λ l. (k, v) ∷ l) (entries-append v ks js)

module _ {ℓ} {V : Type ℓ} where
  fresh :
      (ti ci : ℕ) (d : Dict V)
      → ti < 100
      → All (IsEarlier ti ci) (keys d)
      → has_key (case_no ti ci) d ≡ false
  unfolding has_key
  fresh ti ci [] h e = refl
  fresh ti ci ((k, v) ∷ d) h (e, es) =
      ground (arith, fresh ti ci d h es, text_eq_iff k (case_no ti ci), IsEarlier-ne ti ci k h e)

  IsEarlier-snoc :
      (ti ci : ℕ) (v : V) (d : Dict V)
      → All (IsEarlier ti ci) (keys d)
      → All (IsEarlier ti (ci + 1)) (keys (d ++ (case_no ti ci, v) ∷ []))
  IsEarlier-snoc ti ci v [] e =
      (record { task = ti; number = ci; named = refl; earlier = inr (refl, omega arith) }, tt)
  IsEarlier-snoc ti ci v ((k, w) ∷ d) (e, es) =
      (IsEarlier-later ti ci k e, IsEarlier-snoc ti ci v d es)

  IsEarlier-All_next :
      (ti ci : ℕ) (d : Dict V)
      → All (IsEarlier ti ci) (keys d)
      → All (IsEarlier (ti + 1) 0) (keys d)
  IsEarlier-All_next ti ci [] e = tt
  IsEarlier-All_next ti ci ((k, w) ∷ d) (e, es) =
      (IsEarlier-next ti ci k e, IsEarlier-All_next ti ci d es)

  -- The loop over the cases appends their numbers.
  put_cases_lem :
      (v : V) (ti ci left : ℕ) (d : Dict V)
      → ti < 100
      → All (IsEarlier ti ci) (keys d)
      → (put_cases v ti ci left d ≡ d ++ entries v (task_cases ti ci left))
        × All (IsEarlier ti (ci + left)) (keys (put_cases v ti ci left d))
  unfolding put_cases
  put_cases_lem v ti ci zero d h e =
      (sym (append-nil d), subst (λ n. All (IsEarlier ti n) (keys d)) (omega arith) e)
  put_cases_lem v ti ci (suc left) d h e =
      let next = d ++ (case_no ti ci, v) ∷ [] in
      let (same, after) = put_cases_lem v ti (ci + 1) left next h (IsEarlier-snoc ti ci v d e) in
      let moved : ci + 1 + left ≡ ci + suc left = omega arith in
      rw (insert_fresh (case_no ti ci) v d (fresh ti ci d h e)) (
        same ∙ append_assoc d ((case_no ti ci, v) ∷ []) (entries v (task_cases ti (ci + 1) left)),
        rw moved at after,
      )

  put_tasks_lem :
      (v : V) (ti : ℕ) (ts : List Task) (d : Dict V)
      → ti + length ts ≤ 100
      → All (IsEarlier ti 0) (keys d)
      → put_tasks v ti ts d ≡ d ++ entries v (all_cases ti ts)
  unfolding put_tasks
  put_tasks_lem v ti [] d h e = sym (append-nil d)
  put_tasks_lem v ti (t ∷ ts) d h e =
      let n = pos_part t.case_count in
      let (same, after) = put_cases_lem v ti 0 n d (omega arith) e in
      let filled = put_cases v ti 0 n d in
      let rest =
        put_tasks_lem v (ti + 1) ts filled (omega arith)
          (IsEarlier-All_next ti (0 + n) filled after) in
      cc (
        rest,
        same,
        append_assoc d (entries v (task_cases ti 0 n)) (entries v (all_cases (ti + 1) ts)),
        entries-append v (task_cases ti 0 n) (all_cases (ti + 1) ts),
      )

-- With at most a hundred tasks, the loops over the tasks and their cases write one entry for each
-- case, in order and at its own key.
pub put_tasks-eq-entries {ℓ} :
    {V : Type ℓ} (v : V) (ts : List Task)
    → length ts ≤ 100
    → put_tasks v 0 ts [] ≡ entries v (all_cases 0 ts)
put_tasks-eq-entries v ts h = put_tasks_lem v 0 ts [] (omega arith) tt
