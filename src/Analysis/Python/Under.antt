-- ===== src/Analysis/Python/Under.antt =====
-- Where a node stands in a tree, and that the visit of the tree comes by it.
use sandbox_2025team.Analysis.Python.Visit.{visit-Extends, visit_all-Extends}
use sandbox_2025team.Rules.{Fact}
use sandbox_2025team.Analysis.Python.Growth.{
  Extends, note_call-Extends, note_source-Extends, note_assign-Extends, note_other-Extends,
}
use sandbox_2025team.Analysis.Cycles.Graph.{Edge}
use sandbox_2025team.Base.Text.{Text, codes}
use sandbox_2025team.Analysis.Python.{
  Visitor, Definitions, visit_all, visit, leave_function, enter_function, note, note_call,
  note_assign,
}
use sandbox_2025team.Base.{ℕ, ◌∷◌, List, Option, ◌≡◌, Memᴰ, ◌∙◌, ap}
use sandbox_2025team.Analysis.Ast.{
  Node, Nodes, attribute, call, import_from, function_def, class_def, assign, other, cons,
}

-- `Under k n j m`: the node `m` is `n` or stands below it. With the functions `k` around `n`, the
-- functions around `m` are `j`, the innermost first.
mutual
  pub data Under : List Text → Node → List Text → Node → Type 0 where
    self : {k : List Text} {n : Node} → Under k n k n
    in_value :
        {k j : List Text} {m value : Node} {attr : Text} {line : ℕ}
        → Under k value j m
        → Under k (attribute value attr line) j m
    in_func :
        {k j : List Text} {m func : Node} {args : Nodes} {line : ℕ}
        → Under k func j m
        → Under k (call func args line) j m
    in_args :
        {k j : List Text} {m func : Node} {args : Nodes} {line : ℕ}
        → UnderAny k args j m
        → Under k (call func args line) j m
    in_names :
        {k j : List Text} {m : Node} {source : Option Text} {names : Nodes} {line : ℕ}
        → UnderAny k names j m
        → Under k (import_from source names line) j m
    in_function :
        {k j : List Text} {m : Node} {called : Text} {children : Nodes} {line : ℕ}
        → UnderAny (called ∷ k) children j m
        → Under k (function_def called children line) j m
    in_bases :
        {k j : List Text} {m : Node} {called : Text} {bases body decorators : Nodes} {line : ℕ}
        → UnderAny k bases j m
        → Under k (class_def called bases body decorators line) j m
    in_body :
        {k j : List Text} {m : Node} {called : Text} {bases body decorators : Nodes} {line : ℕ}
        → UnderAny k body j m
        → Under k (class_def called bases body decorators line) j m
    in_decorators :
        {k j : List Text} {m : Node} {called : Text} {bases body decorators : Nodes} {line : ℕ}
        → UnderAny k decorators j m
        → Under k (class_def called bases body decorators line) j m
    in_targets :
        {k j : List Text} {m : Node} {targets : Nodes} {value : Node} {line : ℕ}
        → UnderAny k targets j m
        → Under k (assign targets value line) j m
    in_assigned :
        {k j : List Text} {m : Node} {targets : Nodes} {value : Node} {line : ℕ}
        → Under k value j m
        → Under k (assign targets value line) j m
    in_other :
        {k j : List Text} {m : Node} {tag : Text} {line : Option ℕ} {children : Nodes}
        → UnderAny k children j m
        → Under k (other tag line children) j m

  pub data UnderAny : List Text → Nodes → List Text → Node → Type 0 where
    in_first :
        {k j : List Text} {m n : Node} {ns : Nodes} → Under k n j m → UnderAny k (cons n ns) j m
    in_rest :
        {k j : List Text} {m n : Node} {ns : Nodes} → UnderAny k ns j m → UnderAny k (cons n ns) j m

-- What a later state has of an earlier one.
pub record Keeps (s t : Visitor) : Type 0 where
  pub edges : (u v : Text) (line : ℕ) → Edge s.call_graph u v line → Edge t.call_graph u v line
  pub facts : (f : Fact) → Memᴰ f s.syntax → Memᴰ f t.syntax

pub Keeps-trans : (s t r : Visitor) → Keeps s t → Keeps t r → Keeps s r
Keeps-trans s t r a b = record {
  edges = λ u v line e. b.edges u v line (a.edges u v line e);
  facts = λ f m. b.facts f (a.facts f m);
}

pub Extends-Keeps : (s t : Visitor) → Extends s t → Keeps s t
Extends-Keeps s t h = record { edges = h.edges; facts = h.facts }

module _ (file : Text) (known : Definitions) where
  -- The visit of `m` in the course of a visit that ends in `t`: the stack is `j` when it starts.
  pub record Handles (j : List Text) (m : Node) (t : Visitor) : Type 0 where
    pub at : Visitor
    pub stack : at.current_function_stack ≡ j
    pub kept : Keeps (visit file known m at) t

  Handles-on :
      {j : List Text} {m : Node} (s t : Visitor) → Handles j m s → Keeps s t → Handles j m t
  Handles-on {j} {m} s t h keeps = record {
    at = h.at;
    stack = h.stack;
    kept = Keeps-trans (visit file known m h.at) s t h.kept keeps;
  }

  Handles-then :
      {j : List Text} {m : Node} (s : Visitor) (ns : Nodes)
      → Handles j m s
      → Handles j m (visit_all file known ns s)
  Handles-then s ns h =
      Handles-on s (visit_all file known ns s) h
        (Extends-Keeps s (visit_all file known ns s) (visit_all-Extends file known ns s))

  leave_function-Keeps : (s : Visitor) → Keeps s (leave_function s)
  unfolding leave_function
  leave_function-Keeps s = record { edges = λ u v line e. e; facts = λ f m. m }

  enter_function-stack :
      (called : Text) (s : Visitor) {k : List Text}
      → s.current_function_stack ≡ k
      → (enter_function called s).current_function_stack ≡ called ∷ k
  unfolding enter_function
  enter_function-stack called s e = ap (λ k. called ∷ k) e

  mutual
    unfolding visit

    pub visit-Handles :
        {k j : List Text} {n m : Node} (s : Visitor)
        → s.current_function_stack ≡ k
        → Under k n j m
        → Handles j m (visit file known n s)
    visit-Handles s e self = record {
      at = s;
      stack = e;
      kept = record { edges = λ u v line h. h; facts = λ f h. h };
    }
    visit-Handles s e (in_value u) = visit-Handles _ e u
    visit-Handles s e (in_func {func} {args} {line} u) =
        Handles-then _ args
          (visit-Handles _ ((note_call-Extends file known func line s).stack ∙ e) u)
    visit-Handles s e (in_args {func} {args} {line} u) =
        let t = note file (codes "call") line (note_call file known func line s) in
        visit_all-Handles _
          ((visit-Extends file known func t).stack
            ∙ (note_call-Extends file known func line s).stack
            ∙ e)
          u
    visit-Handles s e (in_names {source} {line} u) =
        visit_all-Handles _ ((note_source-Extends file source line s).stack ∙ e) u
    visit-Handles s e (in_function {called} u) =
        Handles-on _ _ (visit_all-Handles _ (enter_function-stack called s e) u)
          (leave_function-Keeps _)
    visit-Handles s e (in_bases {body} {decorators} u) =
        Handles-then _ decorators (Handles-then _ body (visit_all-Handles _ e u))
    visit-Handles s e (in_body {bases} {decorators} {line} u) =
        let t = note file (codes "classdef") line s in
        Handles-then _ decorators
          (visit_all-Handles _ ((visit_all-Extends file known bases t).stack ∙ e) u)
    visit-Handles s e (in_decorators {bases} {body} {line} u) =
        let t = note file (codes "classdef") line s in
        let r = visit_all file known bases t in
        visit_all-Handles _
          ((visit_all-Extends file known body r).stack
            ∙ (visit_all-Extends file known bases t).stack
            ∙ e)
          u
    visit-Handles s e (in_targets {targets} {value} {line} u) =
        let t = note file (codes "assign") line (note_assign known targets value s) in
        let r = visit_all file known targets t in
        Handles-on r (visit file known value r)
          (visit_all-Handles t ((note_assign-Extends known targets value s).stack ∙ e) u)
          (Extends-Keeps r (visit file known value r) (visit-Extends file known value r))
    visit-Handles s e (in_assigned {targets} {value} {line} u) =
        let t = note file (codes "assign") line (note_assign known targets value s) in
        visit-Handles _
          ((visit_all-Extends file known targets t).stack
            ∙ (note_assign-Extends known targets value s).stack
            ∙ e)
          u
    visit-Handles s e (in_other {tag} {line} u) =
        visit_all-Handles _ ((note_other-Extends file tag line s).stack ∙ e) u

    pub visit_all-Handles :
        {k j : List Text} {ns : Nodes} {m : Node} (s : Visitor)
        → s.current_function_stack ≡ k
        → UnderAny k ns j m
        → Handles j m (visit_all file known ns s)
    visit_all-Handles s e (in_first {ns} u) = Handles-then _ ns (visit-Handles s e u)
    visit_all-Handles s e (in_rest {n} u) =
        visit_all-Handles _ ((visit-Extends file known n s).stack ∙ e) u
