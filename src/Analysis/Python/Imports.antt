-- ===== src/Analysis/Python/Imports.antt =====
-- The imports that a visit collects, against the list of all nodes of the tree.
use sandbox_2025team.Rules.{Fact}
use sandbox_2025team.Analysis.Definitions.{Definitions}
use sandbox_2025team.Base.Text.{Text, codes}
use sandbox_2025team.Analysis.Python.{
  note_assign, note_imports, note_call, Visitor, note_named_call, note_edge, fact_at, visit,
  new_visitor, note_other, note_source, leave_function, enter_function, note, visit_all,
}
use sandbox_2025team.Base.{
  ℕ, refl, [], ◌∷◌, none, some, List, ◌++◌, ◌≡◌, map, append_assoc, arith, sym, if◌then◌else◌,
  is_empty, append-nil, ◌∙◌, Option, Bool-cases, inl, inr, ap,
}
use sandbox_2025team.Analysis.Ast.{
  Node, Nodes, name, attribute, call, import_names, import_from, function_def, class_def, assign,
  other, nil, cons,
}

-- All nodes of a tree, each before its children, as they stand in the source.
unfoldable mutual
  pub subnodes : Node → List Node
  subnodes (name id line) = name id line ∷ []
  subnodes (attribute value attr line) = attribute value attr line ∷ subnodes value
  subnodes (call func args line) = call func args line ∷ (subnodes func ++ subnodes_all args)
  subnodes (import_names names line) = import_names names line ∷ []
  subnodes (import_from source names line) = import_from source names line ∷ subnodes_all names
  subnodes (function_def called children line) =
      function_def called children line ∷ subnodes_all children
  subnodes (class_def called bases body decorators line) =
      class_def called bases body decorators line
      ∷ (subnodes_all bases ++ (subnodes_all body ++ subnodes_all decorators))
  subnodes (assign targets value line) =
      assign targets value line ∷ (subnodes_all targets ++ subnodes value)
  subnodes (other tag line children) = other tag line children ∷ subnodes_all children

  pub subnodes_all : Nodes → List Node
  subnodes_all nil = []
  subnodes_all (cons n ns) = subnodes n ++ subnodes_all ns

-- The modules that a node itself imports.
unfoldable pub imported : (file : Text) → Node → List Fact
imported file (import_names names line) = map (λ alias. fact_at file alias line) names
imported file (import_from none names line) = []
imported file (import_from (some source) names line) =
    if is_empty source then [] else fact_at file source line ∷ []
imported file _ = []

unfoldable pub imported_by : (file : Text) → List Node → List Fact
imported_by file [] = []
imported_by file (n ∷ ns) = imported file n ++ imported_by file ns

imported_by-append :
    (file : Text) (ns ms : List Node)
    → imported_by file (ns ++ ms) ≡ imported_by file ns ++ imported_by file ms
unfolding imported_by
imported_by-append file [] ms = refl
imported_by-append file (n ∷ ns) ms = simp (imported_by-append file ns ms, append_assoc)

note_imports_lem :
    (file : Text) (names : List Text) (line : ℕ) (s : Visitor)
    → (note_imports file names line s).imports
      ≡ s.imports ++ map (λ alias. fact_at file alias line) names
unfolding note_imports
note_imports_lem file [] line s = sym (append-nil s.imports)
note_imports_lem file (alias ∷ names) line s =
    note_imports_lem file names line
      (record s { imports = s.imports ++ fact_at file alias line ∷ [] })
    ∙ append_assoc s.imports (fact_at file alias line ∷ []) (map (λ a. fact_at file a line) names)

note_call-imports :
    (file : Text) (known : Definitions) (func : Node) (line : ℕ) (s : Visitor)
    → (note_call file known func line s).imports ≡ s.imports
unfolding note_call note_named_call note_edge
note_call-imports file known func line s = ground arith

note_assign-imports :
    (known : Definitions) (targets : Nodes) (value : Node) (s : Visitor)
    → (note_assign known targets value s).imports ≡ s.imports
unfolding note_assign
note_assign-imports known targets value s = ground arith

note_source_lem :
    (file : Text) (source : Option Text) (names : Nodes) (line : ℕ) (s : Visitor)
    → (note_source file source line s).imports
      ≡ s.imports ++ imported file (import_from source names line)
unfolding note_source imported
note_source_lem file none names line s = sym (append-nil s.imports)
note_source_lem file (some source) names line s = elim (Bool-cases (is_empty source)) [
  | inl blank ↦ rw blank (sym (append-nil s.imports))
  | inr filled ↦ rw filled
]

note_other-imports :
    (file tag : Text) (line : Option ℕ) (s : Visitor)
    → (note_other file tag line s).imports ≡ s.imports
unfolding note_other
note_other-imports file tag none s = refl
note_other-imports file tag (some line) s = refl

module _ (file : Text) (known : Definitions) where
  mutual
    unfolding visit subnodes imported_by imported leave_function enter_function

    visit-imports_lem :
        (n : Node) (s : Visitor)
        → (visit file known n s).imports ≡ s.imports ++ imported_by file (subnodes n)
    visit-imports_lem (name id line) s = simp append-nil
    visit-imports_lem (attribute value attr line) s =
        visit-imports_lem value (note file (codes "attribute") line s)
    visit-imports_lem (call func args line) s =
        let t = note file (codes "call") line (note_call file known func line s) in
        visit_all-imports_lem args (visit file known func t)
        ∙ ap (λ fs. fs ++ imported_by file (subnodes_all args)) (visit-imports_lem func t)
        ∙ simp (note_call-imports, imported_by-append, append_assoc)
    visit-imports_lem (import_names names line) s =
        note_imports_lem file names line s ∙ simp append-nil
    visit-imports_lem (import_from source names line) s =
        visit_all-imports_lem names
          (note file (codes "importfrom") line (note_source file source line s))
        ∙ ap (λ fs. fs ++ imported_by file (subnodes_all names))
            (note_source_lem file source names line s)
        ∙ append_assoc s.imports (imported file (import_from source names line))
            (imported_by file (subnodes_all names))
    visit-imports_lem (function_def called children line) s =
        visit_all-imports_lem children
          (note file (codes "functiondef") line (enter_function called s))
    visit-imports_lem (class_def called bases body decorators line) s =
        let t = note file (codes "classdef") line s in
        let r = visit_all file known bases t in
        visit_all-imports_lem decorators (visit_all file known body r)
        ∙ ap (λ fs. fs ++ imported_by file (subnodes_all decorators))
            (visit_all-imports_lem body r
              ∙ ap (λ fs. fs ++ imported_by file (subnodes_all body))
                  (visit_all-imports_lem bases t))
        ∙ simp (imported_by-append, append_assoc)
    visit-imports_lem (assign targets value line) s =
        let t = note file (codes "assign") line (note_assign known targets value s) in
        visit-imports_lem value (visit_all file known targets t)
        ∙ ap (λ fs. fs ++ imported_by file (subnodes value)) (visit_all-imports_lem targets t)
        ∙ simp (note_assign-imports, imported_by-append, append_assoc)
    visit-imports_lem (other tag line children) s =
        visit_all-imports_lem children (note_other file tag line s)
        ∙ ap (λ fs. fs ++ imported_by file (subnodes_all children))
            (note_other-imports file tag line s)

    visit_all-imports_lem :
        (ns : Nodes) (s : Visitor)
        → (visit_all file known ns s).imports ≡ s.imports ++ imported_by file (subnodes_all ns)
    visit_all-imports_lem nil s = sym (append-nil s.imports)
    visit_all-imports_lem (cons n ns) s =
        visit_all-imports_lem ns (visit file known n s)
        ∙ ap (λ fs. fs ++ imported_by file (subnodes_all ns)) (visit-imports_lem n s)
        ∙ simp (imported_by-append, append_assoc)

-- The visit of a tree collects the imports of all its nodes, each once and in the order of the
-- source, whatever functions and classes they stand in.
pub visit-imports :
    (file : Text) (known : Definitions) (tree : Node)
    → (visit file known tree new_visitor).imports ≡ imported_by file (subnodes tree)
unfolding new_visitor
visit-imports file known tree = visit-imports_lem file known tree new_visitor
