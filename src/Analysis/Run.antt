-- ===== src/Analysis/Run.antt =====
-- dispatcher/static_analysis.py, run_static_analysis, and what the dispatcher's loop gets of it.
pub mod Failure
pub mod Forbidden
use sandbox_2025team.Dict.{Dict}
use sandbox_2025team.Results.{or_default, CaseResult}
use sandbox_2025team.Json.{Json}
use sandbox_2025team.Rules.{RuleSet, is_python}
use sandbox_2025team.Dispatcher.Loop.{Analysis, analysed}
use sandbox_2025team.Analysis.Sources.{SourceTree, FilePath}
use sandbox_2025team.Analysis.Report.{
  AnalysisResult, Printer, build_sa_payload, new_result, build_sa_ae_task_content,
  format_sa_failure_message,
}
use sandbox_2025team.Base.{ℕ, true, false, [], ◌∷◌, none, some, Bool, if◌then◌else◌, Option, ◌++◌}
use sandbox_2025team.Base.Text.{Text, codes}
use sandbox_2025team.Meta.{
  compile, make_normal, make_function_only, make_interactive, Language, BuildStrategy, Meta,
}
use sandbox_2025team.Analysis.Analyzer.{
  returned, analysis_error, other_error, fail_with, analyze_zip_sources, analyze, AnalysisOutcome,
}

-- (success, payload, task_content).
pub record SaResult : Type 0 where
  pub success : Bool
  pub payload : Option Json
  pub content : Option (Dict CaseResult)

abbrev pub is_function_only : BuildStrategy → Bool
is_function_only make_function_only = true
is_function_only _ = false

-- `submission_path / "src"`, or its directory "common".
unfoldable pub src_base : SourceTree → FilePath
src_base tree =
    let common = codes "src" ∷ codes "common" ∷ [] in
    if tree.exists common then common else codes "src" ∷ []

unfoldable pub target_name : Language → Text
target_name language = if is_python language then codes "student_impl.py" else codes "function.h"

unfoldable pub analyze_function_only : SourceTree → Language → RuleSet → AnalysisOutcome
analyze_function_only tree language rules =
    let target = src_base tree ++ target_name language ∷ [] in
    if tree.exists target
    then analyze tree language rules (target ∷ [])
    else analysis_error (
        codes "Not found '"
        ++ target_name language
        ++ codes "'. Source path: "
        ++ tree.shown (src_base tree))

-- The `try` of run_static_analysis.
unfoldable pub analyze_submission :
    SourceTree → Meta → RuleSet → (is_zip_mode : Bool) → AnalysisOutcome
analyze_submission tree meta rules is_zip_mode =
    if is_zip_mode
    then analyze_zip_sources tree (src_base tree) meta.language rules
    else if is_function_only meta.build_strategy
    then analyze_function_only tree meta.language rules
    else analyze tree meta.language rules []

unfoldable pub status_of : AnalysisResult → Text
status_of r = if r.skipped then codes "skip" else if r.success then codes "pass" else codes "fail"

module _ (printer : Printer) (meta : Meta) where
  unfoldable pub sa_failed : AnalysisResult → (status message : Text) → SaResult
  sa_failed r status message = record {
    success = false;
    payload = some (build_sa_payload printer r status);
    content = some (build_sa_ae_task_content meta (format_sa_failure_message message));
  }

  -- Both `except` clauses.
  unfoldable pub failed_by : Text → SaResult
  failed_by message = sa_failed (fail_with message new_result) (codes "fail") message

  unfoldable pub sa_result : AnalysisOutcome → SaResult
  sa_result (returned r) =
      if r.success
      then record {
        success = true;
        payload = some (build_sa_payload printer r (status_of r));
        content = none;
      }
      else sa_failed r (status_of r) r.message
  sa_result (analysis_error message) = failed_by message
  sa_result (other_error message) = failed_by message

  -- `none` for rules that are missing or empty.
  unfoldable pub run_static_analysis : SourceTree → Option RuleSet → (is_zip_mode : Bool) → SaResult
  run_static_analysis tree none is_zip_mode = record {
    success = true;
    payload = none;
    content = none;
  }
  run_static_analysis tree (some rules) is_zip_mode =
      sa_result (analyze_submission tree meta rules is_zip_mode)

-- The result as the dispatcher's loop takes it apart; the contents of a success are not read.
unfoldable pub analysis_of : SaResult → Analysis
analysis_of r = analysed r.success r.payload (or_default [] r.content)
