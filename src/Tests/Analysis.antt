-- ===== src/Tests/Analysis.antt =====
-- The static analysis of small programs.
use sandbox_2025team.Analysis.Cpp.Below.{at_cursor, inside, in_head}
use sandbox_2025team.Analysis.Run.Failure.{run_static_analysis-IsFailure, IsAnswered}
use sandbox_2025team.Dispatcher.Loop.Crash.{IsFailure}
use sandbox_2025team.Tests.Data.{two_tasks}
use sandbox_2025team.Checker.{starts_with}
use sandbox_2025team.Analysis.Cpp.Recursion.{facts_of_unit-reports, last, CppCallIn}
use sandbox_2025team.Analysis.Cpp.{
  CursorInfo, Cursor, current_usr, is_function_kind, facts_of_unit, also, no_cursor, is_call_kind,
  has_word, in_main,
}
use sandbox_2025team.Analysis.Run.{
  run_static_analysis, analyze_submission, sa_result, failed_by, sa_failed, analysis_of,
}
use sandbox_2025team.Analysis.Cycles.Recursion.{detect_cycles-reports, detect_cycles_sound}
use sandbox_2025team.Rules.Passing.{model_of, breaks}
use sandbox_2025team.Dict.{contains, add, discard, lookup}
use sandbox_2025team.Analysis.Cycles.Search.{reported, IsReport}
use sandbox_2025team.Analysis.Report.{new_result, Printer}
use sandbox_2025team.Rules.{RuleSet, is_violation, matches, Fact, Facts}
use sandbox_2025team.Analysis.Python.Imports.{imported_by, subnodes, imported, visit-imports}
use sandbox_2025team.Analysis.Cycles.{
  CallGraph, detect_cycles, dfs_from_all, recursive_at, dfs_from, dfs, nodes_of, follow_all, follow,
  edges_of, report, leave,
}
use sandbox_2025team.Analysis.Python.{
  full_call_name, visit, called_func_name, new_visitor, rsplit_dot, fact_at,
}
use sandbox_2025team.Analysis.Definitions.{Definitions, define, methods_of}
use sandbox_2025team.Analysis.Run.Forbidden.{
  Refuses, analyze_trees-Refuses_import, analyze_trees-Refuses_recursion,
}
use sandbox_2025team.Base.{
  ℕ, true, false, [], ◌∷◌, none, some, refl, List, Memᴰ, ◌≡◌, ◌↔◌, ◌⊎◌, arith, ◌++◌, All,
}
use sandbox_2025team.Base.Text.{Text, codes, one_of, text_eq}
use sandbox_2025team.Analysis.Ast.{Node, name, call, import_names, function_def, other, nil, cons}
use sandbox_2025team.Analysis.Sources.{parsed, no_unit, SourceTree, last_name, FilePath}
use sandbox_2025team.Analysis.Analyzer.{
  all_parsed, parse_all, no_definitions, analyze_trees, join_definitions, add_all, insert_all,
  analyze,
}
use sandbox_2025team.Analysis.Cycles.Graph.{Cycle}
use sandbox_2025team.Analysis.Python.Recursion.{stay, go, CallIn}
use sandbox_2025team.Analysis.Python.Under.{in_other, in_first, in_rest, in_function, self}

abbrev f : Text
f = codes "f"

abbrev g : Text
g = codes "g"

abbrev main_py : Text
main_py = codes "main.py"

-- f calls g on line 2, and g calls f on line 4.
abbrev mutual_calls : CallGraph
mutual_calls = (f, (g, 2) ∷ []) ∷ (g, (f, 4) ∷ []) ∷ []

detect_cycles_runs : detect_cycles main_py mutual_calls [] ≡ some (recursive_at main_py 4 ∷ [])
unfolding detect_cycles dfs_from_all dfs_from dfs follow_all follow edges_of report leave nodes_of
    add discard contains lookup text_eq
detect_cycles_runs = refl

detect_cycles-reports_example :
    (result : List Fact) × (detect_cycles main_py mutual_calls [] ≡ some result)
    × ((reported result ≡ true)
        ↔ ((reported [] ≡ true) ⊎ ((lineno : ℕ) × Cycle mutual_calls lineno)))
detect_cycles-reports_example = detect_cycles-reports main_py mutual_calls []

abbrev call_of : Text → ℕ → Node
call_of callee line = other (codes "expr") (some line) (cons (call (name callee line) nil line) nil)

-- import os; def f(): g(); def g(): import sys; f()
abbrev program : Node
program = other (codes "module") none (
    cons (import_names (codes "os" ∷ []) 1) (
      cons (function_def f (cons (call_of g 3) nil) 2) (
        cons (function_def g (cons (import_names (codes "sys" ∷ []) 5) (cons (call_of f 6) nil)) 4)
          nil)))

abbrev known : Definitions
known = record { global_functions = f ∷ g ∷ []; defined_classes = [] }

visit-imports_example :
    (visit main_py known program new_visitor).imports ≡ imported_by main_py (subnodes program)
visit-imports_example = visit-imports main_py known program

imports_run :
    imported_by main_py (subnodes program)
    ≡ fact_at main_py (codes "os") 1 ∷ fact_at main_py (codes "sys") 5 ∷ []
unfolding imported_by imported subnodes
imports_run = refl

abbrev sources : SourceTree
sources = record {
  exists = λ p. true;
  is_file = λ p. true;
  files_under = λ p. [];
  makefile = λ p. none;
  home = λ p. p;
  resolve = λ p cand. p;
  shown = last_name;
  relative = λ d p. last_name p;
  parse_python = λ p. parsed program;
  has_clang = false;
  clang_error = none;
  parse_unit = λ p. no_unit;
}

abbrev targets : List FilePath
targets = (main_py ∷ []) ∷ []

abbrev rules : RuleSet
rules = record {
  model = none;
  imports = codes "sys" ∷ [];
  headers = [];
  functions = [];
  syntax = codes "recursive" ∷ [];
}

targets_parsed :
    parse_all sources targets no_definitions ≡ all_parsed known ((program, main_py ∷ []) ∷ [])
unfolding parse_all define no_definitions join_definitions add_all insert_all add methods_of text_eq
targets_parsed = refl

f_calls_g : CallIn known program f g 3
unfolding full_call_name called_func_name rsplit_dot contains text_eq
f_calls_g = record {
  callers = [];
  func = name g 3;
  args = nil;
  full = g;
  under = in_other (in_rest (in_first (in_function (in_first (in_other (in_first self))))));
  named = refl;
  filled = refl;
  defined = refl;
  callee_eq = refl;
}

g_calls_f : CallIn known program g f 6
unfolding full_call_name called_func_name rsplit_dot contains text_eq
g_calls_f = record {
  callers = [];
  func = name f 6;
  args = nil;
  full = f;
  under =
      in_other (
        in_rest (in_rest (in_first (in_function (in_rest (in_first (in_other (in_first self))))))));
  named = refl;
  filled = refl;
  defined = refl;
  callee_eq = refl;
}

recursion_forbidden : is_violation (model_of rules) rules.syntax (codes "recursive") ≡ true
unfolding is_violation matches one_of text_eq
recursion_forbidden = refl

analyze_trees-Refuses_recursion_example : Refuses (analyze_trees sources rules targets new_result)
analyze_trees-Refuses_recursion_example =
    analyze_trees-Refuses_recursion sources rules targets new_result known
      ((program, main_py ∷ []) ∷ []) targets_parsed program (main_py ∷ []) (Memᴰ.head refl) f g 3
      f_calls_g (go g_calls_f stay) recursion_forbidden

sys_below : Memᴰ (import_names (codes "sys" ∷ []) 5) (subnodes program)
unfolding subnodes
sys_below =
    Memᴰ.tail
      (Memᴰ.tail (Memᴰ.tail (Memᴰ.tail (Memᴰ.tail (Memᴰ.tail (Memᴰ.tail (Memᴰ.head refl)))))))

sys_forbidden :
    breaks
      (model_of rules)
      rules.imports
      (imported (last_name (main_py ∷ [])) (import_names (codes "sys" ∷ []) 5))
    ≡ true
unfolding imported last_name is_violation matches one_of text_eq
sys_forbidden = refl

analyze_trees-Refuses_import_example : Refuses (analyze_trees sources rules targets new_result)
analyze_trees-Refuses_import_example =
    analyze_trees-Refuses_import sources rules targets new_result known
      ((program, main_py ∷ []) ∷ []) targets_parsed program (main_py ∷ []) (Memᴰ.head refl)
      (import_names (codes "sys" ∷ []) 5) sys_below sys_forbidden

-- void f() { f(); }, all on line 1 of main.c.
abbrev main_c : Text
main_c = codes "main.c"

abbrev call_f : CursorInfo
call_f = record {
  kind = codes "CALL_EXPR";
  spelling = f;
  line = 1;
  file = some main_c;
  is_definition = false;
  usr = [];
  referenced = some (record { usr = codes "c:@F@f"; spelling = f; file = some main_c });
}

abbrev def_f : CursorInfo
def_f = record {
  kind = codes "FUNCTION_DECL";
  spelling = f;
  line = 1;
  file = some main_c;
  is_definition = true;
  usr = codes "c:@F@f";
  referenced = none;
}

abbrev c_program : Cursor
c_program = Cursor.known def_f (also (Cursor.known call_f no_cursor) no_cursor)

f_calls_f : CppCallIn main_c main_c c_program (codes "c:@F@f") (codes "c:@F@f") 1
unfolding current_usr is_function_kind is_call_kind has_word in_main one_of starts_with text_eq
f_calls_f = record {
  info = call_f;
  below = inside refl (in_head (at_cursor refl refl));
  named = refl;
  call = record {
    called = record { usr = codes "c:@F@f"; spelling = f; file = some main_c };
    main = refl;
    calls = refl;
    refers = refl;
    own = refl;
    callee_eq = refl;
  };
  line_eq = refl;
}

facts_of_unit-reports_example :
    (facts : Facts) × (facts_of_unit main_c main_c c_program ≡ some facts)
    × (reported facts.syntax ≡ true)
facts_of_unit-reports_example =
    facts_of_unit-reports main_c main_c c_program (codes "c:@F@f") (codes "c:@F@f") 1 f_calls_f last

abbrev printer : Printer
printer = record { dumps = λ v. []; dumps_indented = λ v. [] }

abbrev no_sources : SourceTree
no_sources = record sources { exists = λ p. false }

no_sources_fail :
    (run_static_analysis printer two_tasks no_sources (some rules) false).success ≡ false
unfolding run_static_analysis analyze_submission analyze sa_result failed_by sa_failed
no_sources_fail = refl

run_static_analysis-IsFailure_example :
    IsAnswered two_tasks (run_static_analysis printer two_tasks no_sources (some rules) false)
    × IsFailure two_tasks
        (analysis_of (run_static_analysis printer two_tasks no_sources (some rules) false))
run_static_analysis-IsFailure_example =
    run_static_analysis-IsFailure printer two_tasks no_sources (some rules) false (omega arith)
      no_sources_fail

detect_cycles_sound_example :
    (extra : List Fact) × (recursive_at main_py 4 ∷ [] ≡ [] ++ extra)
    × All (IsReport main_py mutual_calls []) extra
unfolding detect_cycles dfs_from_all dfs_from dfs follow_all follow edges_of report leave nodes_of
    lookup contains add discard one_of text_eq
detect_cycles_sound_example =
    detect_cycles_sound main_py mutual_calls [] (recursive_at main_py 4 ∷ []) refl
