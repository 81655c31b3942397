-- ===== src/Analysis/Python/Recursion.antt =====
-- Recursion of Python functions, from the tree to the report.
use sandbox_2025team.Analysis.Python.Visit.{visit-Extends, visit_all-Extends}
use sandbox_2025team.Analysis.Cycles.Recursion.{detect_cycles-reports}
use sandbox_2025team.Analysis.Python.Growth.{edges_of-add_edge}
use sandbox_2025team.Analysis.Cycles.Search.{reported}
use sandbox_2025team.Dict.{contains}
use sandbox_2025team.Analysis.Python.Under.{Under, visit-Handles}
use sandbox_2025team.Analysis.Cycles.{edges_of}
use sandbox_2025team.Rules.{Facts}
use sandbox_2025team.Base.Text.{Text, codes, text_eq_refl}
use sandbox_2025team.Analysis.Python.{
  Definitions, Visitor, visit, note_named_call, note_edge, note_call, is_user_defined,
  full_call_name, note, called_func_name, new_visitor, facts_of_tree,
}
use sandbox_2025team.Analysis.Cycles.Graph.{step, here, Reach, Edge}
use mathlib.Core.List.Memᴰ
use sandbox_2025team.Base.{
  ℕ, inl, inr, true, false, refl, [], ◌∷◌, some, List, ◌≡◌, is_empty, subst, Memᴰ, sym, Bool-cases,
}
use sandbox_2025team.Analysis.Ast.{Node, Nodes, call}

-- A call in the body of `caller`, however deep, of a name that DefinitionVisitor has collected.
pub record CallIn (known : Definitions) (tree : Node) (caller callee : Text) (line : ℕ)
    : Type 0 where
  pub callers : List Text
  pub func : Node
  pub args : Nodes
  pub full : Text
  pub under : Under [] tree (caller ∷ callers) (call func args line)
  pub named : full_call_name func ≡ some full
  pub filled : is_empty full ≡ false
  pub defined : contains full known.global_functions ≡ true
  pub callee_eq : callee ≡ called_func_name full

-- A chain of such calls.
pub data CallChain (known : Definitions) (tree : Node) : Text → Text → Type 0 where
  stay : {u : Text} → CallChain known tree u u
  go :
      {u v w : Text} {line : ℕ}
      → CallIn known tree u v line
      → CallChain known tree v w
      → CallChain known tree u w

module _ (file : Text) (known : Definitions) where
  note_edge-Edge :
      (callee : Text) (line : ℕ) (s : Visitor) (caller : Text) (callers : List Text)
      → s.current_function_stack ≡ caller ∷ callers
      → Edge (note_edge callee line s).call_graph caller callee line
  unfolding note_edge
  note_edge-Edge callee line s caller callers e =
      simp (e, note_edge)
        (let now = edges_of-add_edge caller callee line s.call_graph caller in
          subst (Memᴰ (callee, line)) (sym (rw (text_eq_refl caller) at now))
            (Memᴰ.append_right (edges_of s.call_graph caller) (Memᴰ.head refl)))

  note_named_call-Edge :
      (full : Text) (line : ℕ) (s : Visitor) (caller : Text) (callers : List Text)
      → s.current_function_stack ≡ caller ∷ callers
      → contains full known.global_functions ≡ true
      → Edge (note_named_call file known full line s).call_graph caller (called_func_name full) line
  unfolding note_named_call is_user_defined
  note_named_call-Edge full line s caller callers e own =
      rw own (elim (Bool-cases (contains (called_func_name full) s.current_function_stack)) [
        | inl again ↦ rw again (
            note_edge-Edge (called_func_name full) line (note file (codes "recursive") line s)
              caller callers e)
        | inr first ↦ rw first (note_edge-Edge (called_func_name full) line s caller callers e)
      ])

  note_call-Edge :
      (func : Node) (line : ℕ) (full : Text) (s : Visitor) (caller : Text) (callers : List Text)
      → s.current_function_stack ≡ caller ∷ callers
      → full_call_name func ≡ some full
      → is_empty full ≡ false
      → contains full known.global_functions ≡ true
      → Edge (note_call file known func line s).call_graph caller (called_func_name full) line
  unfolding note_call
  note_call-Edge func line full s caller callers e named filled own =
      rw (named, note_call) (rw filled (note_named_call-Edge full line s caller callers e own))

  visit-Edge :
      (tree : Node) (caller callee : Text) (line : ℕ)
      → CallIn known tree caller callee line
      → Edge (visit file known tree new_visitor).call_graph caller callee line
  unfolding visit new_visitor
  visit-Edge tree caller callee line c =
      let h = visit-Handles file known new_visitor refl c.under in
      let s = note_call file known c.func line h.at in
      let r = note file (codes "call") line s in
      let q = visit file known c.func r in
      let made =
        note_call-Edge c.func line c.full h.at caller c.callers h.stack c.named c.filled
          c.defined in
      let later =
        (visit-Extends file known c.func r).edges caller (called_func_name c.full) line made in
      let last =
        (visit_all-Extends file known c.args q).edges caller (called_func_name c.full) line later in
      subst (λ v. Edge (visit file known tree new_visitor).call_graph caller v line)
        (sym c.callee_eq) (h.kept.edges caller (called_func_name c.full) line last)

  chain-Reach :
      (tree : Node) {u w : Text}
      → CallChain known tree u w
      → Reach (visit file known tree new_visitor).call_graph u w
  chain-Reach tree stay = here
  chain-Reach tree (go {u} {v} {line} c rest) =
      step (visit-Edge tree u v line c) (chain-Reach tree rest)

  -- A function that is called, directly or over others, in the body of a function that it calls is
  -- found out: the facts of the file are computed, and hold a report of recursion. The callees are
  -- functions that DefinitionVisitor has collected, and the calls may stand at any depth.
  pub facts_of_tree-reports :
      (tree : Node) (caller callee : Text) (line : ℕ)
      → CallIn known tree caller callee line
      → CallChain known tree callee caller
      → (facts : Facts) × (facts_of_tree file known tree ≡ some facts)
        × (reported facts.syntax ≡ true)
  unfolding facts_of_tree
  facts_of_tree-reports tree caller callee line c chain =
      let s = visit file known tree new_visitor in
      let (syntax, ran, exactly) = detect_cycles-reports file s.call_graph s.syntax in
      (
        record {
          imports = s.imports;
          headers = [];
          function_calls = s.function_calls;
          syntax = syntax;
        },
        rw (ran, facts_of_tree),
        exactly.1 (
            inr (
              line,
              record {
                caller = caller;
                callee = callee;
                call = visit-Edge tree caller callee line c;
                back = chain-Reach tree chain;
              },
            )),
      )
