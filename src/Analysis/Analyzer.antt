-- ===== src/Analysis/Analyzer.antt =====
-- dispatcher/static_analysis.py, StaticAnalyzer: the analysis of the files of a submission.
use sandbox_2025team.Analysis.Cpp.{facts_of_unit}
use sandbox_2025team.Analysis.Python.{facts_of_tree}
use sandbox_2025team.Analysis.Report.{AnalysisResult, new_result, mark_skipped, set_violations}
use sandbox_2025team.Dict.{Dict, add, insert}
use sandbox_2025team.Rules.{Facts, RuleSet, is_python, get_violations}
use sandbox_2025team.Analysis.Ast.{Node}
use sandbox_2025team.Analysis.Definitions.{Definitions, define}
use sandbox_2025team.Base.{
  false, [], ◌∷◌, none, some, if◌then◌else◌, List, ◌++◌, not, Option, is_empty,
}
use sandbox_2025team.Meta.{py, Language}
use sandbox_2025team.Base.Text.{Text, codes}
use sandbox_2025team.Analysis.Sources.{
  parsed, syntax_error, unreadable, unit, no_unit, unit_error, SourceTree, FilePath,
  collect_sources_from_makefile, disallowed_files, last_name, collect_sources_by_ext,
}

-- A result, a StaticAnalysisError or another exception, with its text.
pub data AnalysisOutcome : Type 0 where
  returned : AnalysisResult → AnalysisOutcome
  analysis_error other_error : Text → AnalysisOutcome

-- The first loop over Python files: all trees with their definitions, the first SyntaxError, or
-- another exception.
pub data Parsing : Type 0 where
  all_parsed : Definitions → List (Node × FilePath) → Parsing
  bad_syntax : FilePath → Text → Parsing
  broke : Text → Parsing

unfoldable pub add_all : List Text → List Text → List Text
add_all [] s = s
add_all (k ∷ ks) s = add_all ks (add k s)

unfoldable pub insert_all : Dict (List Text) → Dict (List Text) → Dict (List Text)
insert_all [] m = m
insert_all ((k, v) ∷ kvs) m = insert_all kvs (insert k v m)

unfoldable pub no_definitions : Definitions
no_definitions = record { global_functions = []; defined_classes = [] }

unfoldable pub join_definitions : Definitions → Definitions → Definitions
join_definitions d e = record {
  global_functions = add_all e.global_functions d.global_functions;
  defined_classes = insert_all e.defined_classes d.defined_classes;
}

abbrev pub with_tree : Node → FilePath → Parsing → Parsing
with_tree node path (all_parsed known trees) = all_parsed known ((node, path) ∷ trees)
with_tree node path (bad_syntax p e) = bad_syntax p e
with_tree node path (broke e) = broke e

unfoldable pub no_facts : Facts
no_facts = record { imports = []; headers = []; function_calls = []; syntax = [] }

unfoldable pub merge_facts : Facts → Facts → Facts
merge_facts target source = record {
  imports = target.imports ++ source.imports;
  headers = target.headers ++ source.headers;
  function_calls = target.function_calls ++ source.function_calls;
  syntax = target.syntax ++ source.syntax;
}

-- The second loop. `none` as in `detect_cycles`.
unfoldable pub facts_of_trees : Definitions → List (Node × FilePath) → Facts → Option Facts
facts_of_trees known [] facts = some facts
facts_of_trees known ((node, path) ∷ trees) facts =
    elim (facts_of_tree (last_name path) known node) [
      | none ↦ none
      | some found ↦ facts_of_trees known trees (merge_facts facts found)
    ]

-- The end of both analyses.
unfoldable pub judge : RuleSet → Language → AnalysisResult → Facts → AnalysisOutcome
judge rules language r facts = elim (get_violations facts rules language) [
  | none ↦ returned r
  | some found ↦ returned (set_violations language found (record r { success = false }))
]

abbrev pub fail_with : Text → AnalysisResult → AnalysisResult
fail_with msg r = record r { success = false; message = r.message ++ msg }

abbrev pub judge_all : RuleSet → Language → AnalysisResult → Option Facts → AnalysisOutcome
judge_all rules language r none = other_error (codes "KeyError")
judge_all rules language r (some facts) = judge rules language r facts

unfoldable pub good_job : Text
good_job = 10 ∷ codes "GOOD JOB, passed static analysis."

-- The end of `analyze` and of `analyze_zip_sources`.
unfoldable pub praise : AnalysisOutcome → AnalysisOutcome
praise (returned r) =
    returned (if r.success then record r { message = r.message ++ good_job } else r)
praise other = other

module _ (tree : SourceTree) where
  unfoldable pub parse_all : List FilePath → Definitions → Parsing
  parse_all [] known = all_parsed known []
  parse_all (path ∷ paths) known = elim (tree.parse_python path) [
    | parsed node ↦
        with_tree node path (parse_all paths (join_definitions known (define node no_definitions)))
    | syntax_error e ↦ bad_syntax path e
    | unreadable e ↦ broke e
  ]

  unfoldable pub analyze_trees : RuleSet → List FilePath → AnalysisResult → AnalysisOutcome
  analyze_trees rules targets r = elim (parse_all targets no_definitions) [
    | all_parsed known trees ↦ judge_all rules py r (facts_of_trees known trees no_facts)
    | bad_syntax path e ↦ returned (
        fail_with (10 ∷ (codes "Syntax Error could not analyze " ++ tree.shown path ++ 58 ∷ 10 ∷ e))
          r)
    | broke e ↦ other_error e
  ]

  -- An empty list of files counts as none given.
  unfoldable pub analyze_python :
      FilePath → RuleSet → List FilePath → AnalysisResult → AnalysisOutcome
  analyze_python dir rules files r =
      let main_py = dir ++ codes "main.py" ∷ [] in
      if not (is_empty files)
      then analyze_trees rules files r
      else if tree.exists main_py
      then analyze_trees rules (main_py ∷ []) r
      else analysis_error (codes "Not found 'main.py'. Source path: " ++ tree.shown dir)

  -- The loop over the C and C++ files.
  unfoldable pub analyze_units :
      RuleSet → Language → List FilePath → Facts → AnalysisResult → AnalysisOutcome
  analyze_units rules language [] facts r = judge rules language r facts
  analyze_units rules language (path ∷ paths) facts r = elim (tree.parse_unit path) [
    | unit_error e ↦ other_error e
    | no_unit ↦
        returned (fail_with (codes "[Syntax Error] Clang could not analyze " ++ last_name path) r)
    | unit cursor ↦ elim (facts_of_unit (tree.shown path) (last_name path) cursor) [
      | none ↦ other_error (codes "KeyError")
      | some found ↦ analyze_units rules language paths (merge_facts facts found) r
    ]
  ]

  unfoldable pub start_clang : RuleSet → Language → List FilePath → AnalysisResult → AnalysisOutcome
  start_clang rules language targets r = elim tree.clang_error [
    | some e ↦ analysis_error (codes "Libclang init failed: " ++ e)
    | none ↦ analyze_units rules language targets no_facts r
  ]

  unfoldable pub analyze_c_cpp :
      FilePath → RuleSet → Language → List FilePath → AnalysisResult → AnalysisOutcome
  analyze_c_cpp dir rules language files r =
      let main_c = dir ++ codes "main.c" ∷ [] in
      let main_cpp = dir ++ codes "main.cpp" ∷ [] in
      if not (is_empty files)
      then start_clang rules language files r
      else if tree.exists main_c
      then start_clang rules language (main_c ∷ []) r
      else if tree.exists main_cpp
      then start_clang rules language (main_cpp ∷ []) r
      else analysis_error
          (codes "Not found 'main.c' or 'main.cpp'.  Source path: " ++ tree.shown dir)

  -- A skipped analysis is not praised.
  unfoldable pub analyze_language :
      FilePath → RuleSet → Language → List FilePath → AnalysisResult → AnalysisOutcome
  analyze_language dir rules language files r =
      if is_python language
      then praise (analyze_python dir rules files r)
      else if tree.has_clang
      then praise (analyze_c_cpp dir rules language files r)
      else returned (mark_skipped (10 ∷ codes "libclang missing; static analysis skipped.") r)

  -- `except Exception`: an exception other than StaticAnalysisError becomes one.
  unfoldable pub wrap_error : AnalysisOutcome → AnalysisOutcome
  wrap_error (other_error e) = analysis_error (codes "An unexpected error occurred: " ++ e)
  wrap_error other = other

  unfoldable pub analyze : Language → RuleSet → List FilePath → AnalysisOutcome
  analyze language rules files =
      let base = if tree.exists (codes "src" ∷ []) then codes "src" ∷ [] else [] in
      let common_dir = base ++ codes "common" ∷ [] in
      if tree.exists common_dir
      then wrap_error (analyze_language (tree.home common_dir) rules language files new_result)
      else analysis_error (codes "common dir missing for SA: " ++ tree.shown common_dir)

  abbrev pub commas : FilePath → List FilePath → Text
  commas dir [] = []
  commas dir (p ∷ []) = tree.relative dir p
  commas dir (p ∷ q ∷ ps) = tree.relative dir p ++ codes ", " ++ commas dir (q ∷ ps)

  -- The files named in the Makefile, or else all files with an extension of the language.
  unfoldable pub zip_sources : FilePath → Language → List FilePath
  zip_sources dir language =
      let named = collect_sources_from_makefile tree dir language in
      if is_empty named then collect_sources_by_ext tree dir language else named

  unfoldable pub analyze_zip_sources : FilePath → Language → RuleSet → AnalysisOutcome
  analyze_zip_sources dir language rules =
      let bad = disallowed_files tree dir language in
      let sources = zip_sources dir language in
      if not (is_empty bad)
      then returned
          (fail_with (codes "Disallowed language files found: " ++ commas dir bad) new_result)
      else if is_empty sources
      then returned (fail_with (codes "no source files found for zip submission") new_result)
      else analyze_language dir rules language sources new_result
