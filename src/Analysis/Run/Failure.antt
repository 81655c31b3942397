-- ===== src/Analysis/Run/Failure.antt =====
-- What a failed static analysis hands to the dispatcher.
use sandbox_2025team.Dict.{keys}
use sandbox_2025team.Dispatcher.Loop.Crash.{IsFailure, keys-make_all_cases_result}
use sandbox_2025team.Rules.{RuleSet}
use sandbox_2025team.Results.{make_all_cases_result, or_default}
use sandbox_2025team.Analysis.Sources.{SourceTree}
use sandbox_2025team.Json.{Json, truthy}
use sandbox_2025team.Analysis.Run.{
  SaResult, sa_result, run_static_analysis, analysis_of, failed_by, analyze_submission, sa_failed,
  status_of,
}
use sandbox_2025team.Analysis.Report.{
  Printer, build_sa_payload, build_sa_ae_task_content, AnalysisResult, format_sa_failure_message,
  new_result,
}
use sandbox_2025team.Meta.{Meta}
use sandbox_2025team.Base.{
  true, false, [], none, some, refl, ◌≡◌, Option, Bool, length, ◌≤◌, inl, inr, ap, ◌∙◌, ◌⊎◌,
  Bool-cases,
}
use sandbox_2025team.Base.Text.{Text, codes}
use sandbox_2025team.Analysis.Analyzer.{
  returned, analysis_error, other_error, AnalysisOutcome, fail_with,
}

-- A failure as the dispatcher expects it: a payload to send, and a result for each case.
pub record IsAnswered (meta : Meta) (r : SaResult) : Type 0 where
  pub payload : Json
  pub noted : r.payload ≡ some payload
  pub filled : truthy payload ≡ true
  pub stderr : Text
  pub content : r.content ≡ some (make_all_cases_result meta (codes "AE") stderr)

module _ (printer : Printer) (meta : Meta) where
  failed-IsAnswered :
      (r : AnalysisResult) (status message : Text)
      → IsAnswered meta (sa_failed printer meta r status message)
  unfolding sa_failed build_sa_payload build_sa_ae_task_content truthy
  failed-IsAnswered r status message = record {
    payload = build_sa_payload printer r status;
    noted = refl;
    filled = refl;
    stderr = format_sa_failure_message message;
    content = refl;
  }

  sa_result-cases :
      (outcome : AnalysisOutcome)
      → ((sa_result printer meta outcome).success ≡ true)
        ⊎ (((sa_result printer meta outcome).success ≡ false)
            × IsAnswered meta (sa_result printer meta outcome))
  unfolding sa_result failed_by sa_failed
  sa_result-cases (returned r) = elim (Bool-cases r.success) [
    | inl good ↦ inl (rw good refl)
    | inr bad ↦ inr (simp bad (refl, failed-IsAnswered r (status_of r) r.message))
  ]
  sa_result-cases (analysis_error message) =
      inr (refl, failed-IsAnswered (fail_with message new_result) (codes "fail") message)
  sa_result-cases (other_error message) =
      inr (refl, failed-IsAnswered (fail_with message new_result) (codes "fail") message)

  -- However the analysis of a submission fails, by a violation, a missing file or an exception, it
  -- comes with a payload that is sent and with an AE for every case of at most a hundred tasks: the
  -- keys are those of all cases, so that the dispatcher can fill in the failure.
  pub run_static_analysis-IsFailure :
      (tree : SourceTree) (rules : Option RuleSet) (is_zip_mode : Bool)
      → length meta.tasks ≤ 100
      → (run_static_analysis printer meta tree rules is_zip_mode).success ≡ false
      → IsAnswered meta (run_static_analysis printer meta tree rules is_zip_mode)
        × IsFailure meta (analysis_of (run_static_analysis printer meta tree rules is_zip_mode))
  unfolding run_static_analysis analysis_of
  run_static_analysis-IsFailure tree none is_zip_mode hundred bad = cc
  run_static_analysis-IsFailure tree (some rules) is_zip_mode hundred bad =
      elim (sa_result-cases (analyze_submission tree meta rules is_zip_mode)) [
        | inl good ↦ cc
        | inr (same, reported) ↦ (
          reported,
          (
            same,
            ap (λ content. keys (or_default [] content)) reported.content
                ∙ keys-make_all_cases_result meta (codes "AE") reported.stderr hundred,
          ),
        )
      ]
