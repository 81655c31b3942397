-- ===== src/Analysis/Ast.antt =====
-- The nodes of Python's `ast` that dispatcher/static_analysis.py tells apart. The children are listed
-- in the order of the node's fields; the contexts (Load, Store) have no line and no children, and are
-- left out.
use sandbox_2025team.Base.Text.{Text}
use sandbox_2025team.Base.{ℕ, List, Option}

-- `other` is a node of any other class, with the class's name in lower case and its line, if it has
-- one. An `import_from` holds its aliases as such nodes.
mutual
  pub data Node : Type 0 where
    name : (id : Text) (line : ℕ) → Node
    attribute : (value : Node) (attr : Text) (line : ℕ) → Node
    call : (func : Node) (args : Nodes) (line : ℕ) → Node
    import_names : (names : List Text) (line : ℕ) → Node
    import_from : (source : Option Text) (names : Nodes) (line : ℕ) → Node
    function_def : (called : Text) (children : Nodes) (line : ℕ) → Node
    class_def : (called : Text) (bases body decorators : Nodes) (line : ℕ) → Node
    assign : (targets : Nodes) (value : Node) (line : ℕ) → Node
    other : (tag : Text) (line : Option ℕ) (children : Nodes) → Node

  pub data Nodes : Type 0 where
    nil : Nodes
    cons : Node → Nodes → Nodes
