-- ===== src/Analysis/Python.antt =====
-- dispatcher/static_analysis.py, PythonAstVisitor: the imports, the calls, the syntax and the
-- graph of calls of one file.
pub mod Growth
pub mod Visit
pub mod Under
pub mod Recursion
pub mod Imports
use sandbox_2025team.Analysis.Definitions.{Definitions}
use sandbox_2025team.Dict.{add, Dict, contains, has_key, insert, lookup}
use sandbox_2025team.Analysis.Cycles.{CallGraph, edges_of, detect_cycles}
use sandbox_2025team.Rules.{Fact, Facts}
use sandbox_2025team.Base.{
  ℕ, false, [], none, ◌∷◌, Option, ◌++◌, drop, if◌then◌else◌, List, ◌==◌, some, Bool, is_empty,
  ◌||◌, ◌&&◌, not,
}
use sandbox_2025team.Base.Text.{Text, codes, text_eq}
use sandbox_2025team.Analysis.Ast.{
  Node, Nodes, name, attribute, call, import_names, import_from, function_def, class_def, assign,
  other, nil, cons,
}

-- The state of a PythonAstVisitor. The stack of functions stands with its last element first.
pub record Visitor : Type 0 where
  pub imports : List Fact
  pub function_calls : List Fact
  pub syntax : List Fact
  pub current_function_stack : List Text
  pub variable_types : Dict Text
  pub call_graph : CallGraph

-- The name of a callee; an empty base counts as none.
unfoldable pub full_call_name : Node → Option Text
full_call_name (name id line) = some id
full_call_name (attribute value attr line) = elim (full_call_name value) [
  | none ↦ some attr
  | some base ↦ some (if is_empty base then attr else base ++ 46 ∷ attr)
]
full_call_name _ = none

-- `s.rsplit(".", 1)`, `none` if there is no dot.
unfoldable pub rsplit_dot : Text → Option (Text × Text)
rsplit_dot [] = none
rsplit_dot (c ∷ s) = elim (rsplit_dot s) [
  | none ↦ if c == 46 then some ([], s) else none
  | some (before, after) ↦ some (c ∷ before, after)
]

unfoldable pub called_func_name : Text → Text
called_func_name full = elim (rsplit_dot full) [ none ↦ full | some (obj, method) ↦ method ]

-- `self.call_graph[caller].append((callee, node.lineno))`, with a new entry where there is none.
unfoldable pub add_edge : Text → Text → ℕ → CallGraph → CallGraph
add_edge caller callee line g = insert caller (edges_of g caller ++ (callee, line) ∷ []) g

unfoldable pub note_edge : Text → ℕ → Visitor → Visitor
note_edge callee line s = elim s.current_function_stack [
  | [] ↦ s
  | caller ∷ callers ↦ record s { call_graph = add_edge caller callee line s.call_graph }
]

unfoldable pub enter_function : Text → Visitor → Visitor
enter_function called s = record s {
  current_function_stack = called ∷ s.current_function_stack;
  call_graph = if has_key called s.call_graph then s.call_graph else insert called [] s.call_graph;
}

unfoldable pub leave_function : Visitor → Visitor
leave_function s = record s { current_function_stack = drop 1 s.current_function_stack }

unfoldable pub note_targets : Text → Nodes → Dict Text → Dict Text
note_targets class nil types = types
note_targets class (cons (name id line) targets) types =
    note_targets class targets (insert id class types)
note_targets class (cons _ targets) types = note_targets class targets types

module _ (file : Text) where
  abbrev pub fact_at : Text → ℕ → Fact
  fact_at found line = record { name = found; line = line; file = file }

  abbrev pub note : Text → ℕ → Visitor → Visitor
  note tag line s = record s { syntax = s.syntax ++ fact_at tag line ∷ [] }

  unfoldable pub note_imports : List Text → ℕ → Visitor → Visitor
  note_imports [] line s = s
  note_imports (alias ∷ names) line s =
      note_imports names line (record s { imports = s.imports ++ fact_at alias line ∷ [] })

  -- `if node.module`.
  unfoldable pub note_source : Option Text → ℕ → Visitor → Visitor
  note_source none line s = s
  note_source (some source) line s =
      if is_empty source then s else record s { imports = s.imports ++ fact_at source line ∷ [] }

  unfoldable pub note_other : Text → Option ℕ → Visitor → Visitor
  note_other tag none s = s
  note_other tag (some line) s = note tag line s

module _ (known : Definitions) where
  -- A method of a variable's class, or of `self`.
  unfoldable pub is_method : Dict Text → (obj method : Text) → Bool
  is_method types obj method = text_eq obj (codes "self") || elim (lookup obj types) [
    | none ↦ false
    | some class ↦ not (is_empty class) && elim (lookup class known.defined_classes) [
      | none ↦ false
      | some methods ↦ contains method methods
    ]
  ]

  unfoldable pub is_user_defined : Dict Text → Text → Bool
  is_user_defined types full =
      contains full known.global_functions
      || elim (rsplit_dot full) [ none ↦ false | some (obj, method) ↦ is_method types obj method ]

  -- The class that an assigned value is made of: `none` if it is not a call of a class.
  unfoldable pub class_of : Node → Option Text
  class_of (call func args line) = elim (full_call_name func) [
    | none ↦ none
    | some full ↦
        if has_key full known.defined_classes && not (is_empty full) then some full else none
  ]
  class_of _ = none

  unfoldable pub note_assign : Nodes → Node → Visitor → Visitor
  note_assign targets value s = elim (class_of value) [
    | none ↦ s
    | some class ↦ record s { variable_types = note_targets class targets s.variable_types }
  ]

module _ (file : Text) (known : Definitions) where
  -- visit_Call, up to its generic_visit.
  unfoldable pub note_named_call : Text → ℕ → Visitor → Visitor
  note_named_call full line s =
      if is_user_defined known s.variable_types full
      then note_edge (called_func_name full) line (
          if contains (called_func_name full) s.current_function_stack
          then note file (codes "recursive") line s
          else s)
      else record s { function_calls = s.function_calls ++ fact_at file full line ∷ [] }

  unfoldable pub note_call : Node → ℕ → Visitor → Visitor
  note_call func line s = elim (full_call_name func) [
    | none ↦ s
    | some full ↦ if is_empty full then s else note_named_call full line s
  ]

  -- visit of a node: its own handler, or generic_visit.
  unfoldable mutual
    pub visit : Node → Visitor → Visitor
    visit (name id line) s = note file (codes "name") line s
    visit (attribute value attr line) s = visit value (note file (codes "attribute") line s)
    visit (call func args line) s =
        visit_all args (visit func (note file (codes "call") line (note_call func line s)))
    visit (import_names names line) s = note_imports file names line s
    visit (import_from source names line) s =
        visit_all names (note file (codes "importfrom") line (note_source file source line s))
    visit (function_def called children line) s =
        leave_function
          (visit_all children (note file (codes "functiondef") line (enter_function called s)))
    visit (class_def called bases body decorators line) s =
        visit_all decorators
          (visit_all body (visit_all bases (note file (codes "classdef") line s)))
    visit (assign targets value line) s =
        visit value
          (visit_all targets (note file (codes "assign") line (note_assign known targets value s)))
    visit (other tag line children) s = visit_all children (note_other file tag line s)

    pub visit_all : Nodes → Visitor → Visitor
    visit_all nil s = s
    visit_all (cons n ns) s = visit_all ns (visit n s)

-- A visitor before its visit.
unfoldable pub new_visitor : Visitor
new_visitor = record {
  imports = [];
  function_calls = [];
  syntax = [];
  current_function_stack = [];
  variable_types = [];
  call_graph = [];
}

-- The facts of one file: `visitor.visit(tree)`, then `visitor.detect_cycles()`. `none` as in
-- `detect_cycles`.
unfoldable pub facts_of_tree : (file : Text) → Definitions → Node → Option Facts
facts_of_tree file known tree =
    let s = visit file known tree new_visitor in
    elim (detect_cycles file s.call_graph s.syntax) [
      | none ↦ none
      | some syntax ↦ some (record {
        imports = s.imports;
        headers = [];
        function_calls = s.function_calls;
        syntax = syntax;
      })
    ]
