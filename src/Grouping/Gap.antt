-- ===== src/Grouping/Gap.antt =====
-- A task without cases in front of one that has some.
use mathlib.Core.List.{map-append}
use sandbox_2025team.CaseNo.{case_no}
use sandbox_2025team.Base.Text.{Text}
use sandbox_2025team.Base.{
  ◌==◌, Bool-cases, Option-cases, ℕ, suc, ◌+◌, ◌<◌, ◌≡◌, ◌≢◌, refl, List, [], ◌∷◌, ◌++◌, length, ap,
  arith, append_assoc, Bool-cases, false, append-nil, All, Option-cases, inl, inr, ◌∙◌, sym, drop,
  ◌-◌,
}
use sandbox_2025team.Base.Int.{pos_part}
use sandbox_2025team.Dict.{Dict, keys, values}
use sandbox_2025team.Errors.{ok, Result-cases, raise_ne_ok}
use sandbox_2025team.Meta.{Task}
use sandbox_2025team.Results.AllCases.{task_cases, all_cases}
use sandbox_2025team.Grouping.{set_case, regroup, group, finish, firsts, is_range, task_of, case_of}
use sandbox_2025team.Grouping.Tables.{tables, set_case_new}
use sandbox_2025team.Grouping.Complete.{chunks, regroup_tasks, nil_ne_cons, regroup_step}

all_cases-append :
    (t : ℕ) (ts us : List Task)
    → all_cases t (ts ++ us) ≡ all_cases t ts ++ all_cases (t + length ts) us
all_cases-append t [] us = ap (λ n. all_cases n us) (omega arith)
all_cases-append t (u ∷ ts) us =
    let moved : t + 1 + length ts ≡ t + suc (length ts) = omega arith in
    let rest = all_cases-append (t + 1) ts us in
    cc (
      moved,
      rest,
      append_assoc (task_cases t 0 (pos_part u.case_count)) (all_cases (t + 1) ts)
          (all_cases (t + 1 + length ts) us),
    )

module _ {ℓ} {V : Type ℓ} where
  firsts-set_case :
      (t c : ℕ) (v : V) (m : List (ℕ × List (ℕ × V)))
      → (ks : List ℕ) × (firsts (set_case t c v m) ≡ firsts m ++ ks)
  unfolding set_case
  firsts-set_case t c v [] = (t ∷ [], refl)
  firsts-set_case t c v ((u, cs) ∷ m) = elim (Bool-cases (u == t)) [
    | inl same ↦ ([], rw same (ap (λ l. u ∷ l) (sym (append-nil (firsts m)))))
    | inr other ↦ let (ks, e) = firsts-set_case t c v m in (ks, rw other (ap (λ l. u ∷ l) e))
  ]

  -- A key of the outer dict stays in its place.
  firsts-regroup :
      (d : Dict V) (m m' : List (ℕ × List (ℕ × V)))
      → regroup d m ≡ ok m'
      → (ks : List ℕ) × (firsts m' ≡ firsts m ++ ks)
  unfolding regroup
  firsts-regroup [] m m' e = ([], cc (append-nil (firsts m)))
  firsts-regroup ((name, v) ∷ d) m m' e = elim (Option-cases (task_of name)) [
    | inl bad ↦ absurd (raise_ne_ok (rw (bad, regroup) at e))
    | inr (t, task) ↦ elim (Option-cases (case_of name)) [
      | inl bad ↦ absurd (raise_ne_ok (rw (task, bad, regroup) at e))
      | inr (c, number) ↦
          let (ks, first) = firsts-set_case t c v m in
          let (js, rest) =
            firsts-regroup d (set_case t c v m) m' (rw (task, number, regroup) at e) in
          (ks ++ js, cc (first, rest, append_assoc (firsts m) ks js))
    ]
  ]

  is_range_gap :
      (i k : ℕ) (done : List (List V)) (ks : List ℕ)
      → i + length done < k
      → is_range i (firsts (tables i done) ++ k ∷ ks) ≡ false
  unfolding is_range
  is_range_gap i k [] ks h = ground arith
  is_range_gap i k (vs ∷ done) ks h = ground (arith, is_range_gap (i + 1) k done ks)

  finish_gap :
      (k : ℕ) (done : List (List V)) (ks : List ℕ) (m : List (ℕ × List (ℕ × V))) (l : List (List V))
      → length done < k
      → firsts m ≡ firsts (tables 0 done) ++ k ∷ ks
      → finish m ≢ ok l
  unfolding finish
  finish_gap k done ks m l h e same =
      let bad : is_range 0 (firsts m) ≡ false = rw e (is_range_gap 0 k done ks (omega arith)) in
      ground (arith, bad)

  length-chunks : (ts : List Task) (vs : List V) → length (chunks ts vs) ≡ length ts
  length-chunks [] vs = refl
  length-chunks (t ∷ ts) vs = ap suc (length-chunks ts (drop (pos_part t.case_count) vs))

  -- The first key after a gap in the numbers of the tasks.
  regroup_gap :
      (k : ℕ) (done : List (List V)) (d : Dict V) (js : List Text) (m : List (ℕ × List (ℕ × V)))
      (l : List (List V))
      → k < 100
      → length done < k
      → keys d ≡ case_no k 0 ∷ js
      → regroup d (tables 0 done) ≡ ok m
      → finish m ≢ ok l
  regroup_gap k done [] js m l h g e r = absurd (nil_ne_cons e)
  regroup_gap k done ((name, v) ∷ d) js m l h g e r =
      let here = regroup_step k 0 v name d (tables 0 done) h (cc) in
      let new = set_case_new 0 k 0 v done (omega arith) in
      let next = tables 0 done ++ (k, (0, v) ∷ []) ∷ [] in
      let (ks, first) = firsts-regroup d next m (cc (here, new, r)) in
      let both = map-append (λ x. x.0) (tables 0 done) ((k, (0, v) ∷ []) ∷ []) in
      finish_gap k done ks m l g
        (cc (first, both, append_assoc (firsts (tables 0 done)) (k ∷ []) ks))

group_cases {ℓ} :
    {V : Type ℓ} (d : Dict V) (l : List (List V))
    → group d ≡ ok l
    → (m : List (ℕ × List (ℕ × V))) × (regroup d [] ≡ ok m) × (finish m ≡ ok l)
unfolding group
group_cases d l e = elim (Result-cases (regroup d [])) [
  | inl (m, r) ↦ (m, r, rw (r, group) at e)
  | inr (x, r) ↦ absurd (raise_ne_ok (rw (r, group) at e))
]

all_cases_gap :
    (n : ℕ) (empties : List Task) (u : Task) (after : List Task)
    → All (λ w. pos_part w.case_count ≡ 0) empties
    → 0 < pos_part u.case_count
    → (js : List Text) × (all_cases n (empties ++ u ∷ after) ≡ case_no (n + length empties) 0 ∷ js)
all_cases_gap n [] u after z q =
    let k : pos_part u.case_count ≡ suc (pos_part u.case_count - 1) = omega arith in
    let here : n + 0 ≡ n = omega arith in
    (
      task_cases n (0 + 1) (pos_part u.case_count - 1) ++ all_cases (n + 1) after,
      ap (λ c. task_cases n 0 c ++ all_cases (n + 1) after) k
          ∙ ap
              (λ m.
                case_no m 0
                ∷ (task_cases n (0 + 1) (pos_part u.case_count - 1) ++ all_cases (n + 1) after))
              (sym here),
    )
all_cases_gap n (t ∷ empties) u after (z, zs) q =
    let (js, e) = all_cases_gap (n + 1) empties u after zs q in
    let k : n + 1 + length empties ≡ n + suc (length empties) = omega arith in
    (
      js,
      ap (λ c. task_cases n 0 c ++ all_cases (n + 1) (empties ++ u ∷ after)) z
          ∙ (e ∙ ap (λ m. case_no m 0 ∷ js) k),
    )

-- Tasks that have cases, then some without, then one that has cases again.
pub record IsSplit (ts : List Task) : Type 0 where
  pub before : List Task
  pub empties : List Task
  pub filled : Task
  pub after : List Task
  pub split : ts ≡ before ++ (empties ++ filled ∷ after)
  pub few : length before + length empties < 100
  pub earlier : All (λ w. 0 < pos_part w.case_count) before
  pub no_cases : All (λ w. pos_part w.case_count ≡ 0) empties
  pub gap : 0 < length empties
  pub some_case : 0 < pos_part filled.case_count

-- If the results have the case numbers of such tasks, they do not regroup: on_submission_complete
-- fails before it reports anything.
pub group_gap {ℓ} :
    {V : Type ℓ} (ts : List Task) (s : IsSplit ts) (d : Dict V) (l : List (List V))
    → keys d ≡ all_cases 0 ts
    → group d ≢ ok l
group_gap ts s d l k e =
    let n = length s.before in
    let rest = s.empties ++ s.filled ∷ s.after in
    let (m, grouped, ends) = group_cases d l e in
    let (js, next) = all_cases_gap (0 + n) s.empties s.filled s.after s.no_cases s.some_case in
    let (d', first, left) =
      regroup_tasks 0 s.before [] d (all_cases (0 + n) rest) (omega (arith, s.few)) refl s.earlier
        (k ∙ (ap (all_cases 0) s.split ∙ all_cases-append 0 s.before rest)) in
    regroup_gap (0 + n + length s.empties) (chunks s.before (values d)) d' js m l
      (omega (arith, s.few)) (omega (arith, s.gap, length-chunks s.before (values d))) (left ∙ next)
      (sym first ∙ grouped) ends
