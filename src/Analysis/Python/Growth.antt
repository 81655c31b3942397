-- ===== src/Analysis/Python/Growth.antt =====
-- What a visit keeps: the stack of functions, the calls and the syntax facts collected before.
use sandbox_2025team.Analysis.Ast.{Nodes, Node}
use sandbox_2025team.Dict.Laws.{lookup-insert, has_key-lookup}
use sandbox_2025team.Rules.{Fact}
use sandbox_2025team.Analysis.Cycles.Graph.{Edge}
use sandbox_2025team.Dict.{has_key, insert, contains}
use sandbox_2025team.Base.Text.{Text, text_eq, text_eq_iff, codes}
use sandbox_2025team.Analysis.Cycles.{edges_of, CallGraph}
use sandbox_2025team.Analysis.Python.{
  Visitor, add_edge, note, fact_at, note_imports, note_other, note_assign, Definitions, note_edge,
  note_source, note_named_call, note_call, is_user_defined, full_call_name, class_of,
  called_func_name,
}
use mathlib.Core.List.Memᴰ
use sandbox_2025team.Base.{
  ℕ, false, refl, [], ◌∷◌, ◌≡◌, ◌∙◌, if◌then◌else◌, Memᴰ, arith, ◌++◌, Bool-cases, List-cases,
  Option, List, inl, subst, inr, some, is_empty, none, sym, Option-cases,
}

pub record Extends (s t : Visitor) : Type 0 where
  pub stack : t.current_function_stack ≡ s.current_function_stack
  pub edges : (u v : Text) (line : ℕ) → Edge s.call_graph u v line → Edge t.call_graph u v line
  pub facts : (f : Fact) → Memᴰ f s.syntax → Memᴰ f t.syntax

pub Extends-refl : (s : Visitor) → Extends s s
Extends-refl s = record { stack = refl; edges = λ u v line e. e; facts = λ f m. m }

pub Extends-trans : (s t r : Visitor) → Extends s t → Extends t r → Extends s r
Extends-trans s t r a b = record {
  stack = b.stack ∙ a.stack;
  edges = λ u v line e. b.edges u v line (a.edges u v line e);
  facts = λ f m. b.facts f (a.facts f m);
}

pub edges_of-add_edge :
    (caller callee : Text) (line : ℕ) (g : CallGraph) (u : Text)
    → edges_of (add_edge caller callee line g) u
      ≡ (if text_eq caller u then edges_of g caller ++ (callee, line) ∷ [] else edges_of g u)
unfolding add_edge edges_of
edges_of-add_edge caller callee line g u =
    ground (arith, lookup-insert caller u (edges_of g caller ++ (callee, line) ∷ []) g)

pub edges_of-enter :
    (called : Text) (g : CallGraph) (u : Text)
    → has_key called g ≡ false
    → edges_of (insert called [] g) u ≡ edges_of g u
unfolding edges_of
edges_of-enter called g u h =
    ground (arith, lookup-insert called u [] g, has_key-lookup called g, text_eq_iff called u)

pub note-Extends : (file tag : Text) (line : ℕ) (s : Visitor) → Extends s (note file tag line s)
note-Extends file tag line s = record {
  stack = refl;
  edges = λ u v n e. e;
  facts = λ f m. Memᴰ.append_left (fact_at file tag line ∷ []) m;
}

pub add_edge_keeps :
    (caller callee : Text) (line : ℕ) (g : CallGraph) (u v : Text) (n : ℕ)
    → Edge g u v n
    → Edge (add_edge caller callee line g) u v n
add_edge_keeps caller callee line g u v n m =
    let now = edges_of-add_edge caller callee line g u in
    elim (Bool-cases (text_eq caller u)) [
      | inl same ↦
          let there : Memᴰ (v, n) (edges_of g caller) =
            subst (λ w. Edge g w v n) (sym ((text_eq_iff caller u).0 same)) m in
          subst (Memᴰ (v, n)) (sym (rw same at now)) (Memᴰ.append_left ((callee, line) ∷ []) there)
      | inr apart ↦ subst (Memᴰ (v, n)) (sym (rw apart at now)) m
    ]

pub note_edge-Extends :
    (callee : Text) (line : ℕ) (s : Visitor) → Extends s (note_edge callee line s)
unfolding note_edge
note_edge-Extends callee line s = elim (List-cases s.current_function_stack) [
  | inl top ↦ simp (top, note_edge) (Extends-refl s)
  | inr (caller, callers, e) ↦
      simp (e, note_edge)
        (record {
          stack = sym e;
          edges = add_edge_keeps caller callee line s.call_graph;
          facts = λ f m. m;
        })
]

pub note_imports-Extends :
    (file : Text) (names : List Text) (line : ℕ) (s : Visitor)
    → Extends s (note_imports file names line s)
unfolding note_imports
note_imports-Extends file [] line s = Extends-refl s
note_imports-Extends file (alias ∷ names) line s =
    let t : Visitor = record s { imports = s.imports ++ fact_at file alias line ∷ [] } in
    Extends-trans s t (note_imports file names line t)
      (record { stack = refl; edges = λ u v n m. m; facts = λ f m. m })
      (note_imports-Extends file names line t)

pub note_source-Extends :
    (file : Text) (source : Option Text) (line : ℕ) (s : Visitor)
    → Extends s (note_source file source line s)
unfolding note_source
note_source-Extends file none line s = Extends-refl s
note_source-Extends file (some source) line s = elim (Bool-cases (is_empty source)) [
  | inl blank ↦ rw blank (Extends-refl s)
  | inr filled ↦ rw filled (record { stack = refl; edges = λ u v n m. m; facts = λ f m. m })
]

pub note_other-Extends :
    (file tag : Text) (line : Option ℕ) (s : Visitor) → Extends s (note_other file tag line s)
unfolding note_other
note_other-Extends file tag none s = Extends-refl s
note_other-Extends file tag (some line) s = note-Extends file tag line s

pub note_assign-Extends :
    (known : Definitions) (targets : Nodes) (value : Node) (s : Visitor)
    → Extends s (note_assign known targets value s)
unfolding note_assign
note_assign-Extends known targets value s = elim (Option-cases (class_of known value)) [
  | inl plain ↦ rw (plain, note_assign) (Extends-refl s)
  | inr (class, e) ↦
      rw (e, note_assign) (record { stack = refl; edges = λ u v n m. m; facts = λ f m. m })
]

module _ (file : Text) (known : Definitions) where
  note_named_call-Extends :
      (full : Text) (line : ℕ) (s : Visitor) → Extends s (note_named_call file known full line s)
  unfolding note_named_call
  note_named_call-Extends full line s =
      elim (Bool-cases (is_user_defined known s.variable_types full)) [
        | inl own ↦
            rw own (elim (Bool-cases (contains (called_func_name full) s.current_function_stack)) [
              | inl again ↦
                  let t = note file (codes "recursive") line s in
                  rw again (
                    Extends-trans s t (note_edge (called_func_name full) line t)
                      (note-Extends file (codes "recursive") line s)
                      (note_edge-Extends (called_func_name full) line t))
              | inr first ↦ rw first (note_edge-Extends (called_func_name full) line s)
            ])
        | inr foreign ↦ rw foreign (record { stack = refl; edges = λ u v n m. m; facts = λ f m. m })
      ]

  pub note_call-Extends :
      (func : Node) (line : ℕ) (s : Visitor) → Extends s (note_call file known func line s)
  unfolding note_call
  note_call-Extends func line s = elim (Option-cases (full_call_name func)) [
    | inl anonymous ↦ rw (anonymous, note_call) (Extends-refl s)
    | inr (full, e) ↦ elim (Bool-cases (is_empty full)) [
      | inl blank ↦ rw (e, note_call) (rw blank (Extends-refl s))
      | inr filled ↦ rw (e, note_call) (rw filled (note_named_call-Extends full line s))
    ]
  ]
