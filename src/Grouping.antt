-- ===== src/Grouping.antt =====
-- dispatcher/dispatcher.py, on_submission_complete: the results by case number become a list of the
-- tasks' lists of results.
mod Tables
pub mod Complete
pub mod Gap
pub mod Split
use sandbox_2025team.Base.{
  ℕ, ◌+◌, Bool, true, false, List, [], ◌∷◌, Option, none, some, ◌&&◌, ◌==◌, if◌then◌else◌, all, map,
}
use sandbox_2025team.Dict.{Dict}
use sandbox_2025team.CaseNo.{task_of, case_of}
use sandbox_2025team.Errors.{Exn, Result, ok, raise, value_error, assertion_error}

abbrev pub firsts {ℓ} : {W : Type ℓ} → List (ℕ × W) → List ℕ
firsts l = map (λ e. e.0) l

module _ {ℓ} {V : Type ℓ} where
  -- The nested dicts are keyed by numbers.
  unfoldable pub set_inner : ℕ → V → List (ℕ × V) → List (ℕ × V)
  set_inner c v [] = (c, v) ∷ []
  set_inner c v ((b, w) ∷ cs) = if b == c then (b, v) ∷ cs else (b, w) ∷ set_inner c v cs

  -- submission_result[task_no][case_no] = r, the task's dict created where it is missing.
  unfoldable pub set_case : ℕ → ℕ → V → List (ℕ × List (ℕ × V)) → List (ℕ × List (ℕ × V))
  set_case t c v [] = (t, (c, v) ∷ []) ∷ []
  set_case t c v ((u, cs) ∷ m) =
      if u == t then (u, set_inner c v cs) ∷ m else (u, cs) ∷ set_case t c v m

  -- `for no, r in results.items()`, a number that `int` refuses being a ValueError.
  unfoldable pub regroup : Dict V → List (ℕ × List (ℕ × V)) → Result (List (ℕ × List (ℕ × V)))
  regroup [] m = ok m
  regroup ((name, r) ∷ d) m = elim (task_of name) [
    | none ↦ raise value_error
    | some t ↦ elim (case_of name) [
      | none ↦ raise value_error
      | some c ↦ regroup d (set_case t c r m)
    ]
  ]

-- [*keys] == [*range(i, i + len(keys))]
unfoldable pub is_range : ℕ → List ℕ → Bool
is_range i [] = true
is_range i (k ∷ ks) = k == i && is_range (i + 1) ks

module _ {ℓ} {V : Type ℓ} where
  unfoldable pub finish : List (ℕ × List (ℕ × V)) → Result (List (List V))
  finish m =
      if all (λ e. is_range 0 (firsts e.1)) m && is_range 0 (firsts m)
      then ok (map (λ e. map (λ x. x.1) e.1) m)
      else raise assertion_error

  -- The lists of results, or the exception that ends on_submission_complete.
  unfoldable pub group : Dict V → Result (List (List V))
  group d = elim (regroup d []) [ ok m ↦ finish m | raise e ↦ raise e ]
