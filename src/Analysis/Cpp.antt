-- ===== src/Analysis/Cpp.antt =====
-- dispatcher/static_analysis.py, CppAstVisitor.
pub mod Below
pub mod Recursion
use sandbox_2025team.Checker.{starts_with}
use sandbox_2025team.Analysis.Cycles.{detect_cycles, CallGraph}
use sandbox_2025team.Analysis.Python.{fact_at, add_edge}
use sandbox_2025team.Analysis.Kinds.{cpp_cursor_kind_map}
use sandbox_2025team.Rules.{Facts, Fact}
use sandbox_2025team.Dict.{lookup, insert, Dict, has_key}
use sandbox_2025team.Base.{
  ℕ, false, [], ◌∷◌, none, some, List, Bool, if◌then◌else◌, Option, ◌&&◌, is_empty, ◌++◌, not, ◌||◌,
}
use sandbox_2025team.Base.Text.{Text, codes, one_of, text_eq}

-- What `node.referenced` tells of a callee.
pub record Callee : Type 0 where
  pub usr : Text
  pub spelling : Text
  pub file : Option Text

-- What the visitor reads of a cursor. The text of `file` is that of `location.file`.
pub record CursorInfo : Type 0 where
  pub kind : Text
  pub spelling : Text
  pub line : ℕ
  pub file : Option Text
  pub is_definition : Bool
  pub usr : Text
  pub referenced : Option Callee

-- `unknown` is a cursor whose kind libclang's binding does not know (`node.kind` raises ValueError).
mutual
  pub data Cursor : Type 0 where
    known : CursorInfo → Cursors → Cursor
    unknown : Cursors → Cursor

  pub data Cursors : Type 0 where
    no_cursor : Cursors
    also : Cursor → Cursors → Cursors

pub record CppVisitor : Type 0 where
  pub headers : List Fact
  pub function_calls : List Fact
  pub syntax : List Fact
  pub call_graph : CallGraph
  pub usr_to_name : Dict Text

unfoldable pub is_function_kind : Text → Bool
is_function_kind kind =
    one_of kind
      (codes "FUNCTION_DECL" ∷ codes "CXX_METHOD" ∷ codes "CONSTRUCTOR" ∷ codes "DESTRUCTOR" ∷ [])

unfoldable pub is_call_kind : Text → Bool
is_call_kind kind = one_of kind (codes "CALL_EXPR" ∷ codes "MEMBER_REF_EXPR" ∷ [])

-- `word in s`.
unfoldable pub has_word : Text → Text → Bool
has_word word [] = is_empty word
has_word word (c ∷ s) = starts_with word (c ∷ s) || has_word word s

-- The function whose body is entered: a definition, or the one around.
unfoldable pub current_usr : CursorInfo → Option Text → Option Text
current_usr c around = if is_function_kind c.kind && c.is_definition then some c.usr else around

unfoldable pub enter_definition : CursorInfo → CppVisitor → CppVisitor
enter_definition c s =
    if is_function_kind c.kind && c.is_definition
    then record s {
      usr_to_name = insert c.usr c.spelling s.usr_to_name;
      call_graph =
          if has_key c.usr s.call_graph then s.call_graph else insert c.usr [] s.call_graph;
    }
    else s

module _ (main_file file : Text) where
  unfoldable pub in_main : Option Text → Bool
  in_main none = false
  in_main (some path) = text_eq path main_file

  -- _handle_call: a callee outside of the main file counts as one of the system's. An empty USR of
  -- the caller counts as none.
  unfoldable pub handle_call : CursorInfo → Option Text → CppVisitor → CppVisitor
  handle_call c caller s = elim c.referenced [
    | none ↦ s
    | some callee ↦
        if in_main callee.file
        then elim caller [
          | none ↦ s
          | some usr ↦
              if is_empty usr
              then s
              else record s { call_graph = add_edge usr callee.usr c.line s.call_graph }
        ]
        else if is_empty callee.spelling
        then s
        else record s {
          function_calls = s.function_calls ++ fact_at file callee.spelling c.line ∷ [];
        }
  ]

  -- A loop over a range counts as "for", too.
  unfoldable pub note_syntax : CursorInfo → CppVisitor → CppVisitor
  note_syntax c s = elim (lookup c.kind cpp_cursor_kind_map) [
    | none ↦ s
    | some tag ↦
        let noted = s.syntax ++ fact_at file tag c.line ∷ [] in
        record s {
          syntax =
              if text_eq tag (codes "range_for")
              then noted ++ fact_at file (codes "for") c.line ∷ []
              else noted;
        }
  ]

  unfoldable pub note_cursor : CursorInfo → Option Text → CppVisitor → CppVisitor
  note_cursor c usr s =
      if in_main c.file
      then if is_call_kind c.kind && not (has_word (codes "operator") c.spelling)
        then handle_call c usr (note_syntax c s)
        else note_syntax c s
      else s

  unfoldable pub note_inclusion : CursorInfo → CppVisitor → CppVisitor
  note_inclusion c s =
      if in_main c.file
      then record s { headers = s.headers ++ fact_at file c.spelling c.line ∷ [] }
      else s

  -- The children of an inclusion are not visited.
  unfoldable mutual
    pub visit_cursor : Cursor → Option Text → CppVisitor → CppVisitor
    visit_cursor (unknown children) around s = visit_cursors children around s
    visit_cursor (known c children) around s =
        let usr = current_usr c around in
        let rest = visit_cursors children usr (note_cursor c usr (enter_definition c s)) in
        if text_eq c.kind (codes "INCLUSION_DIRECTIVE") then note_inclusion c s else rest

    pub visit_cursors : Cursors → Option Text → CppVisitor → CppVisitor
    visit_cursors no_cursor around s = s
    visit_cursors (also c cs) around s = visit_cursors cs around (visit_cursor c around s)

unfoldable pub new_cpp_visitor : CppVisitor
new_cpp_visitor = record {
  headers = [];
  function_calls = [];
  syntax = [];
  call_graph = [];
  usr_to_name = [];
}

-- The method detect_cycles is written twice; that of CppAstVisitor is the same.
unfoldable pub cpp_detect_cycles : (file : Text) → CppVisitor → Option (List Fact)
cpp_detect_cycles file s = detect_cycles file s.call_graph s.syntax

-- The facts of one file: `visitor.visit(translation_unit.cursor)`, then `visitor.detect_cycles()`.
unfoldable pub facts_of_unit : (main_file file : Text) → Cursor → Option Facts
facts_of_unit main_file file unit =
    let s = visit_cursor main_file file unit none new_cpp_visitor in
    elim (cpp_detect_cycles file s) [
      | none ↦ none
      | some syntax ↦ some (record {
        imports = [];
        headers = s.headers;
        function_calls = s.function_calls;
        syntax = syntax;
      })
    ]
