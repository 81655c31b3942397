-- ===== src/Analysis/Report.antt =====
-- dispatcher/static_analysis.py, AnalysisResult and the texts that are made of it. `json.dumps` is a
-- parameter.
use sandbox_2025team.Base.Int.{pos}
use sandbox_2025team.Results.{CaseResult, make_all_cases_result}
use sandbox_2025team.CaseNo.{digits}
use sandbox_2025team.Dict.{Dict, add, contains}
use sandbox_2025team.Json.{Json, obj, Items, field, nil, cons, str, arr, int, end}
use sandbox_2025team.Checker.{trim}
use sandbox_2025team.Rules.{Violation, Violations, is_python}
use sandbox_2025team.Meta.{Meta, Language}
use sandbox_2025team.Base.{
  ℕ, true, false, [], ◌∷◌, none, some, ◌-◌, Bool, List, suc, ◌++◌, length, if◌then◌else◌, Option,
  zero, is_empty, ◌||◌,
}
use sandbox_2025team.Base.Text.{Text, codes, text_eq}

-- `json_result` is `none` for the empty dict.
pub record AnalysisResult : Type 0 where
  pub success : Bool
  pub skipped : Bool
  pub message : Text
  pub json_result : Option Json

unfoldable pub new_result : AnalysisResult
new_result = record { success = true; skipped = false; message = []; json_result = none }

unfoldable pub mark_skipped : Text → AnalysisResult → AnalysisResult
mark_skipped msg r = record r { skipped = true; success = true; message = r.message ++ msg }

abbrev pub spaces : ℕ → Text
spaces zero = []
spaces (suc n) = 32 ∷ spaces n

-- The format `:>4`.
unfoldable pub pad4 : ℕ → Text
pad4 n = spaces (4 - length (digits n)) ++ digits n

-- The entries of one category: an entry is shown once, and a new file gets a heading.
unfoldable pub line_entries : List Violation → (seen : List Text) → (last_file : Option Text) → Text
line_entries [] seen last_file = []
line_entries (v ∷ vs) seen last_file =
    let val = v.file ++ 58 ∷ (digits v.line ++ 58 ∷ v.content) in
    let same_file : Bool = elim last_file [ none ↦ false | some name ↦ text_eq v.file name ] in
    let heading =
      if is_empty v.file || same_file then [] else 10 ∷ (codes " [" ++ v.file ++ codes "]") in
    let repeated = line_entries vs seen last_file in
    let shown =
      heading
      ++ 10 ∷ (codes "    Line " ++ pad4 v.line ++ codes " : " ++ v.content)
      ++ line_entries vs (add val seen) (if is_empty v.file then last_file else some v.file) in
    if contains val seen then repeated else shown

unfoldable pub category : (item : Text) → List Violation → Text
category item lines =
    if is_empty lines
    then []
    else 10 ∷ (codes " [Category: " ++ item ++ codes "]" ++ line_entries lines [] none)

unfoldable pub includes_key : Language → Text
includes_key language = if is_python language then codes "imports" else codes "headers"

unfoldable pub violation_json : Violation → Json
violation_json v = obj (
    field (codes "content") (str v.content)
      (field (codes "line") (int (pos v.line)) (field (codes "file") (str v.file) end)))

unfoldable pub violations_json : List Violation → Items
violations_json [] = nil
violations_json (v ∷ vs) = cons (violation_json v) (violations_json vs)

-- The dict of get_violations, in its order.
unfoldable pub structured_violations : Language → Violations → Json
structured_violations language found = obj (
    field (codes "model") (str found.model) (
      field (codes "syntax") (arr (violations_json found.syntax)) (
        field (includes_key language) (arr (violations_json found.includes))
          (field (codes "functions") (arr (violations_json found.functions)) end))))

unfoldable pub set_violations : Language → Violations → AnalysisResult → AnalysisResult
set_violations language found r = record r {
  json_result = some (structured_violations language found);
  message =
      r.message
      ++ 10
        ∷ 10
        ∷ (codes " -------------------------- Static Analysis Result -------------------------"
            ++ category (codes "syntax") found.syntax
            ++ category (includes_key language) found.includes
            ++ category (codes "functions") found.functions);
}

-- `json.dumps(v)`, and `json.dumps(v, indent=4)`.
pub record Printer : Type 0 where
  pub dumps : Json → Text
  pub dumps_indented : Json → Text

module _ (printer : Printer) where
  unfoldable pub build_sa_report_text : AnalysisResult → Text
  build_sa_report_text r = elim r.json_result [
    | none ↦ trim r.message
    | some found ↦
        trim r.message
        ++ 10
          ∷ 10
          ∷ (codes "---------------------------- Violations (JSON) ----------------------------"
              ++ 10 ∷ printer.dumps_indented found)
  ]

  unfoldable pub build_sa_payload : AnalysisResult → (status : Text) → Json
  build_sa_payload r status = obj (
      field (codes "status") (str status) (
        field (codes "message") (str (trim r.message)) (
          field (codes "violations")
            (str (elim r.json_result [ none ↦ [] | some found ↦ printer.dumps found ]))
            (field (codes "report") (str (build_sa_report_text r)) (
              field (codes "json_result")
                (elim r.json_result [ none ↦ obj end | some found ↦ found ]) end)))))

-- The second text stands in for an empty first one, which it never is.
unfoldable pub format_sa_failure_message : Text → Text
format_sa_failure_message message =
    let formatted = trim (codes "Static Analysis Not Passed:" ++ 10 ∷ 32 ∷ trim message) in
    if is_empty formatted then codes "Static Analysis Not Passed" ++ 10 ∷ [] else formatted

unfoldable pub build_sa_ae_task_content : Meta → Text → Dict CaseResult
build_sa_ae_task_content meta stderr = make_all_cases_result meta (codes "AE") stderr
