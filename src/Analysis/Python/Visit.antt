-- ===== src/Analysis/Python/Visit.antt =====
-- A visit of a node keeps what was collected before, and leaves the stack of functions as it was.
use sandbox_2025team.Dict.{has_key}
use sandbox_2025team.Analysis.Python.Growth.{
  Extends, note-Extends, Extends-trans, note_call-Extends, note_imports-Extends, edges_of-enter,
  note_source-Extends, note_assign-Extends, note_other-Extends, Extends-refl,
}
use sandbox_2025team.Analysis.Cycles.Graph.{Edge}
use sandbox_2025team.Base.Text.{Text, codes}
use sandbox_2025team.Analysis.Python.{
  leave_function, enter_function, Definitions, Visitor, visit, note, note_call, visit_all,
  note_source, note_assign, note_other,
}
use sandbox_2025team.Base.{ℕ, Bool-cases, ap, drop, inl, inr, subst, Memᴰ, sym}
use sandbox_2025team.Analysis.Ast.{
  Node, Nodes, name, attribute, call, import_names, import_from, function_def, class_def, assign,
  other, nil, cons,
}

pub enter_function_keeps :
    (called : Text) (s : Visitor) (u v : Text) (line : ℕ)
    → Edge s.call_graph u v line
    → Edge (enter_function called s).call_graph u v line
unfolding enter_function
enter_function_keeps called s u v line m = elim (Bool-cases (has_key called s.call_graph)) [
  | inl there ↦ rw there m
  | inr new ↦ rw new (subst (Memᴰ (v, line)) (sym (edges_of-enter called s.call_graph u new)) m)
]

pub leave_function-Extends :
    (called : Text) (s t : Visitor)
    → Extends (enter_function called s) t
    → Extends s (leave_function t)
unfolding leave_function enter_function
leave_function-Extends called s t h = record {
  stack = ap (drop 1) h.stack;
  edges = λ u v line m. h.edges u v line (enter_function_keeps called s u v line m);
  facts = h.facts;
}

module _ (file : Text) (known : Definitions) where
  mutual
    unfolding visit

    pub visit-Extends : (n : Node) (s : Visitor) → Extends s (visit file known n s)
    visit-Extends (name id line) s = note-Extends file (codes "name") line s
    visit-Extends (attribute value attr line) s =
        let t = note file (codes "attribute") line s in
        Extends-trans s t (visit file known value t) (note-Extends file (codes "attribute") line s)
          (visit-Extends value t)
    visit-Extends (call func args line) s =
        let t = note_call file known func line s in
        let r = note file (codes "call") line t in
        let q = visit file known func r in
        Extends-trans s t (visit_all file known args q) (note_call-Extends file known func line s) (
          Extends-trans t r (visit_all file known args q) (note-Extends file (codes "call") line t)
            (Extends-trans r q (visit_all file known args q) (visit-Extends func r)
              (visit_all-Extends args q)))
    visit-Extends (import_names names line) s = note_imports-Extends file names line s
    visit-Extends (import_from source names line) s =
        let t = note_source file source line s in
        let r = note file (codes "importfrom") line t in
        Extends-trans s t (visit_all file known names r) (note_source-Extends file source line s) (
          Extends-trans t r (visit_all file known names r)
            (note-Extends file (codes "importfrom") line t) (visit_all-Extends names r))
    visit-Extends (function_def called children line) s =
        let t = enter_function called s in
        let r = note file (codes "functiondef") line t in
        leave_function-Extends called s (visit_all file known children r) (
          Extends-trans t r (visit_all file known children r)
            (note-Extends file (codes "functiondef") line t) (visit_all-Extends children r))
    visit-Extends (class_def called bases body decorators line) s =
        let t = note file (codes "classdef") line s in
        let r = visit_all file known bases t in
        let q = visit_all file known body r in
        let p = visit_all file known decorators q in
        Extends-trans s t p (note-Extends file (codes "classdef") line s) (
          Extends-trans t r p (visit_all-Extends bases t)
            (Extends-trans r q p (visit_all-Extends body r) (visit_all-Extends decorators q)))
    visit-Extends (assign targets value line) s =
        let t = note_assign known targets value s in
        let r = note file (codes "assign") line t in
        let q = visit_all file known targets r in
        let p = visit file known value q in
        Extends-trans s t p (note_assign-Extends known targets value s) (
          Extends-trans t r p (note-Extends file (codes "assign") line t)
            (Extends-trans r q p (visit_all-Extends targets r) (visit-Extends value q)))
    visit-Extends (other tag line children) s =
        let t = note_other file tag line s in
        Extends-trans s t (visit_all file known children t) (note_other-Extends file tag line s)
          (visit_all-Extends children t)

    pub visit_all-Extends : (ns : Nodes) (s : Visitor) → Extends s (visit_all file known ns s)
    visit_all-Extends nil s = Extends-refl s
    visit_all-Extends (cons n ns) s =
        Extends-trans s (visit file known n s) (visit_all file known ns (visit file known n s))
          (visit-Extends n s) (visit_all-Extends ns (visit file known n s))
