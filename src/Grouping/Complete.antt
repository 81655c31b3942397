-- ===== src/Grouping/Complete.antt =====
-- The results of a submission whose cases are all there regroup into the lists of its tasks.
use sandbox_2025team.Base.{
  ℕ, zero, suc, ◌+◌, ◌<◌, ◌≤◌, ◌≡◌, refl, List, [], ◌∷◌, ◌++◌, length, take, drop, arith,
  append-nil, All, length-append, append_assoc, sym, ◌∙◌,
}
use sandbox_2025team.Base.Int.{pos_part}
use sandbox_2025team.Base.Text.{Text}
use sandbox_2025team.Dict.{Dict, keys, values}
use sandbox_2025team.Errors.{ok}
use sandbox_2025team.CaseNo.{case_no}
use sandbox_2025team.CaseNo.Roundtrip.{parse-format}
use sandbox_2025team.Meta.{Task}
use sandbox_2025team.Results.AllCases.{task_cases, all_cases}
use sandbox_2025team.Grouping.{set_case, regroup, group}
use sandbox_2025team.Grouping.Tables.{
  cells, tables, set_inner-cells, set_case_new, set_case_last, tables_snoc, finish-tables,
}

pub nil_ne_cons : {x : Text} {xs : List Text} → ¬ ([] ≡ x ∷ xs)
nil_ne_cons e = cc

module _ {ℓ} {V : Type ℓ} where
  -- The values cut into the tasks' lists.
  abbrev pub chunks : List Task → List V → List (List V)
  chunks [] vs = []
  chunks (t ∷ ts) vs = take (pos_part t.case_count) vs ∷ chunks ts (drop (pos_part t.case_count) vs)

  pub regroup_step :
      (t c : ℕ) (v : V) (name : Text) (d : Dict V) (m : List (ℕ × List (ℕ × V)))
      → t < 100
      → name ≡ case_no t c
      → regroup ((name, v) ∷ d) m ≡ regroup d (set_case t c v m)
  unfolding regroup
  regroup_step t c v name d m h e =
      let (task, number) = parse-format t c h in rw e (ground (arith, task, number))

  -- The cases of one task, behind those that were seen.
  regroup_cases :
      (t c n : ℕ) (done : List (List V)) (seen : List V) (d : Dict V) (js : List Text)
      → t < 100
      → length done ≡ t
      → length seen ≡ c
      → keys d ≡ task_cases t c n ++ js
      → (regroup d (tables 0 done ++ (t, cells 0 seen) ∷ [])
          ≡ regroup (drop n d) (tables 0 done ++ (t, cells 0 (seen ++ take n (values d))) ∷ []))
        × (keys (drop n d) ≡ js)
        × (drop n (values d) ≡ values (drop n d))
  regroup_cases t c zero done seen d js h e g k = (rw (append-nil seen), k, refl)
  regroup_cases t c (suc n) done seen [] js h e g k = absurd (nil_ne_cons k)
  regroup_cases t c (suc n) done seen ((name, v) ∷ d) js h e g k =
      let here = regroup_step t c v name d (tables 0 done ++ (t, cells 0 seen) ∷ []) h (cc) in
      let last = set_case_last 0 t c v done (cells 0 seen) (omega arith) in
      let inner = set_inner-cells 0 c v seen (omega arith) in
      let (later, left, over) =
        regroup_cases t (c + 1) n done (seen ++ v ∷ []) d js h e
          (omega (arith, length-append {ℓ} seen (v ∷ []))) (cc) in
      (cc (here, last, inner, later, append_assoc seen (v ∷ []) (take n (values d))), left, over)

  -- A task with a case, behind the tasks that were seen.
  regroup_task :
      (t n : ℕ) (done : List (List V)) (d : Dict V) (js : List Text)
      → t < 100
      → length done ≡ t
      → 0 < n
      → keys d ≡ task_cases t 0 n ++ js
      → (regroup d (tables 0 done) ≡ regroup (drop n d) (tables 0 (done ++ take n (values d) ∷ [])))
        × (keys (drop n d) ≡ js)
        × (drop n (values d) ≡ values (drop n d))
  regroup_task t zero done d js h e p k = absurd (omega arith)
  regroup_task t (suc n) done [] js h e p k = absurd (nil_ne_cons k)
  regroup_task t (suc n) done ((name, v) ∷ d) js h e p k =
      let here = regroup_step t 0 v name d (tables 0 done) h (cc) in
      let new = set_case_new 0 t 0 v done (omega arith) in
      let (later, left, over) = regroup_cases t 1 n done (v ∷ []) d js h e refl (cc) in
      let number : 0 + length done ≡ t = omega (arith, e) in
      let closed = tables_snoc 0 done (v ∷ take n (values d)) in
      (cc (here, new, later, closed, number), left, over)

  -- The tasks `ts`, each with a case, in front of the keys `js`.
  pub regroup_tasks :
      (t : ℕ) (ts : List Task) (done : List (List V)) (d : Dict V) (js : List Text)
      → t + length ts ≤ 100
      → length done ≡ t
      → All (λ u. 0 < pos_part u.case_count) ts
      → keys d ≡ all_cases t ts ++ js
      → (d' : Dict V) × (regroup d (tables 0 done)
          ≡ regroup d' (tables 0 (done ++ chunks ts (values d))))
        × (keys d' ≡ js)
  regroup_tasks t [] done d js h e p k = (d, rw (append-nil done), k)
  regroup_tasks t (u ∷ ts) done d js h e (p, ps) k =
      let n = pos_part u.case_count in
      let here = task_cases t 0 n in
      let (first, left, over) =
        regroup_task t n done d (all_cases (t + 1) ts ++ js) (omega arith) e p
          (k ∙ append_assoc here (all_cases (t + 1) ts) js) in
      let (d', rest, ends) =
        regroup_tasks (t + 1) ts (done ++ take n (values d) ∷ []) (drop n d) js (omega arith)
          (omega (arith, e, length-append {ℓ} done (take n (values d) ∷ []))) ps left in
      (
        d',
        cc (
          first,
          rest,
          over,
          append_assoc done (take n (values d) ∷ []) (chunks ts (drop n (values d))),
        ),
        ends,
      )

regroup_nil {ℓ} :
    {V : Type ℓ} (d : Dict V) (m : List (ℕ × List (ℕ × V))) → keys d ≡ [] → regroup d m ≡ ok m
unfolding regroup
regroup_nil [] m k = refl
regroup_nil (x ∷ d) m k = absurd (nil_ne_cons (sym k))

-- Where every task has a case and there are at most a hundred tasks, the results of a submission,
-- whatever they are, regroup into the lists of its tasks, in order: neither assertion of
-- on_submission_complete fails.
pub group-eq-chunks {ℓ} :
    {V : Type ℓ} (ts : List Task) (d : Dict V)
    → length ts ≤ 100
    → All (λ u. 0 < pos_part u.case_count) ts
    → keys d ≡ all_cases 0 ts
    → group d ≡ ok (chunks ts (values d))
unfolding group
group-eq-chunks ts d h p k =
    let (d', grouped, ends) =
      regroup_tasks 0 ts [] d [] (omega arith) refl p (k ∙ sym (append-nil (all_cases 0 ts))) in
    rw (grouped ∙ regroup_nil d' (tables 0 (chunks ts (values d))) ends, group)
      (finish-tables (chunks ts (values d)))
