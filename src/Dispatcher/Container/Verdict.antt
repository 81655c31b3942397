-- ===== src/Dispatcher/Container/Verdict.antt =====
-- The verdict of a case that a custom checker judges.
use sandbox_2025team.Checker.Outcome.{checker_outcome-ac_iff}
use sandbox_2025team.Scorer.{finished}
use sandbox_2025team.Errors.{ok, Result}
use sandbox_2025team.Base.Int.{ℤ, pos}
use sandbox_2025team.Checker.{
  run_custom_checker_case, finished, checker_outcome, parse_checker_output,
}
use sandbox_2025team.Results.{RunnerResult}
use sandbox_2025team.Dispatcher.State.{State, info_of, truthy_text}
use sandbox_2025team.Base.Text.{Text, one_of, codes, text_eq}
use sandbox_2025team.Dispatcher.Container.{
  CaseEnv, Text, State, info_of, truthy_text, apply_checker, RunnerResult, run_custom_checker_case,
  final_statuses, ok, checked_result, Result,
}
use sandbox_2025team.Base.{◌≡◌, true, false, refl, ◌↔◌, some, Bool-cases, inl, ap, inr, arith}

accepted_is_open : one_of (codes "AC") final_statuses ≡ false
unfolding one_of text_eq
accepted_is_open = refl

final-ne : (status : Text) → one_of status final_statuses ≡ true → ¬ (status ≡ codes "AC")
final-ne status final e = ground (arith, ap (λ t. one_of t final_statuses) e, accepted_is_open)

module _ (env : CaseEnv) (sid number : Text) (s : State)
    (enabled : (info_of sid s.custom_checker_info).enabled ≡ true)
    (no_error : truthy_text (info_of sid s.custom_checker_info).error ≡ false)
    (has_path : truthy_text (info_of sid s.custom_checker_info).path ≡ true) where
  -- A case whose run has a final status keeps it, and the checker is not asked.
  pub apply_checker-final :
      (res : RunnerResult)
      → one_of res.status final_statuses ≡ true
      → apply_checker env sid number res s ≡ (ok res, s)
  unfolding apply_checker
  apply_checker-final res final = rw (enabled, no_error, apply_checker) (rw final refl)

  apply_checker-judged :
      (res : RunnerResult) (stdout stderr : Text) (code : ℤ)
      → one_of res.status final_statuses ≡ false
      → env.checker ≡ finished stdout stderr code
      → (apply_checker env sid number res s).0
        ≡ ok (checked_result res (checker_outcome stdout stderr code))
  unfolding apply_checker run_custom_checker_case
  apply_checker-judged res stdout stderr code open_ ran =
      simp (enabled, no_error, open_, has_path, ran, apply_checker, run_custom_checker_case)

  -- For a submission with a custom checker that is prepared, and a checker that has run to its end, a
  -- case is accepted if and only if its run has no final status and the checker exits with code 0 and
  -- the status AC in its output.
  pub apply_checker-ac_iff :
      (res : RunnerResult) (stdout stderr : Text) (code : ℤ)
      → env.checker ≡ finished stdout stderr code
      → (final : RunnerResult) × ((apply_checker env sid number res s).0 ≡ ok final)
        × ((final.status ≡ codes "AC") ↔ (
            (one_of res.status final_statuses ≡ false)
            × (code ≡ pos 0)
            × ((parse_checker_output stdout).0 ≡ some (codes "AC"))))
  unfolding checked_result
  apply_checker-ac_iff res stdout stderr code ran =
      elim (Bool-cases (one_of res.status final_statuses)) [
        | inl final ↦ (
          res,
          ap (λ (r : Result RunnerResult × State). r.0) (apply_checker-final res final),
          (
            (λ e. absurd (final-ne res.status final e)),
            (λ (open_, _, _). ground (arith, open_, final)),
          ),
        )
        | inr open_ ↦ (
          checked_result res (checker_outcome stdout stderr code),
          apply_checker-judged res stdout stderr code open_ ran,
          ground (arith, open_, checker_outcome-ac_iff stdout stderr code),
        )
      ]
