-- ===== src/Analysis/Cycles.antt =====
-- dispatcher/static_analysis.py, detect_cycles of PythonAstVisitor and of CppAstVisitor: the
-- depth-first search for recursion in the graph of calls.
pub mod Graph
pub mod Search
pub mod Node
pub mod Recursion
use sandbox_2025team.Dict.{Dict, add, contains, lookup, discard, keys}
use sandbox_2025team.Rules.{Fact}
use sandbox_2025team.Base.{
  ℕ, List, Option, if◌then◌else◌, ◌∷◌, some, not, none, [], any, Bool, ◌++◌, ◌&&◌, length, suc,
  zero, ◌==◌,
}
use sandbox_2025team.Base.Text.{Text, text_eq, codes}

-- The callees of a function, each with the line of the call.
abbrev pub CallGraph : Type 0
CallGraph = Dict (List (Text × ℕ))

-- `recursion_stack` is a set, too.
pub record Walk : Type 0 where
  pub visited : List Text
  pub recursion_stack : List Text
  pub syntax : List Fact

abbrev pub is_recursive : Fact → Bool
is_recursive item = text_eq item.name (codes "recursive")

abbrev pub is_recursive_at : ℕ → Fact → Bool
is_recursive_at lineno item = is_recursive item && item.line == lineno

abbrev pub recursive_at : (file : Text) → ℕ → Fact
recursive_at file lineno = record { name = codes "recursive"; line = lineno; file = file }

-- A line is reported once, whatever its file and its column.
unfoldable pub report : (file : Text) → ℕ → Walk → Walk
report file lineno s =
    if any (is_recursive_at lineno) s.syntax
    then s
    else record s { syntax = s.syntax ++ recursive_at file lineno ∷ [] }

-- A node without an entry has no calls.
unfoldable pub edges_of : CallGraph → Text → List (Text × ℕ)
edges_of g u = elim (lookup u g) [ none ↦ [] | some edges ↦ edges ]

module _ (file : Text) (dfs : Text → Walk → Option Walk) where
  -- One round of the loop over the calls of a node.
  unfoldable pub follow : Text → ℕ → Walk → Option Walk
  follow v lineno s =
      if not (contains v s.visited)
      then dfs v s
      else if contains v s.recursion_stack
      then some (report file lineno s)
      else some s

  unfoldable pub follow_all : List (Text × ℕ) → Walk → Option Walk
  follow_all [] s = some s
  follow_all ((v, lineno) ∷ edges) s = elim (follow v lineno s) [
    | none ↦ none
    | some t ↦ follow_all edges t
  ]

abbrev pub enter : Text → Walk → Walk
enter u s = record s { visited = add u s.visited; recursion_stack = add u s.recursion_stack }

-- `recursion_stack.remove(u)`, which raises KeyError if `u` is not there.
unfoldable pub leave : Text → Walk → Option Walk
leave u s =
    if contains u s.recursion_stack
    then some (record s { recursion_stack = discard u s.recursion_stack })
    else none

module _ (file : Text) (g : CallGraph) where
  -- `none` if the fuel runs out, or if a KeyError is raised.
  unfoldable pub dfs : ℕ → Text → Walk → Option Walk
  dfs zero u s = none
  dfs (suc fuel) u s = elim (follow_all file (dfs fuel) (edges_of g u) (enter u s)) [
    | none ↦ none
    | some t ↦ leave u t
  ]

  -- One round of the loop over the nodes.
  unfoldable pub dfs_from : ℕ → Text → Walk → Option Walk
  dfs_from fuel node s = if not (contains node s.visited) then dfs fuel node s else some s

  unfoldable pub dfs_from_all : ℕ → List Text → Walk → Option Walk
  dfs_from_all fuel [] s = some s
  dfs_from_all fuel (node ∷ nodes) s = elim (dfs_from fuel node s) [
    | none ↦ none
    | some t ↦ dfs_from_all fuel nodes t
  ]

abbrev pub callees : List (Text × ℕ) → List Text
callees [] = []
callees ((v, lineno) ∷ edges) = v ∷ callees edges

-- All the names in a graph, some more than once.
unfoldable pub nodes_of : CallGraph → List Text
nodes_of [] = []
nodes_of ((u, edges) ∷ g) = u ∷ (callees edges ++ nodes_of g)

-- The fuel is one round for each name. The result is the new list of syntax facts.
unfoldable pub detect_cycles : (file : Text) → CallGraph → (syntax : List Fact) → Option (List Fact)
detect_cycles file g syntax =
    let start : Walk = record { visited = []; recursion_stack = []; syntax = syntax } in
    elim (dfs_from_all file g (length (nodes_of g)) (keys g) start) [
      | none ↦ none
      | some s ↦ some s.syntax
    ]
