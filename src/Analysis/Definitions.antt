-- ===== src/Analysis/Definitions.antt =====
-- dispatcher/static_analysis.py, DefinitionVisitor.
use sandbox_2025team.Base.Text.{Text}
use sandbox_2025team.Dict.{add, insert, Dict}
use sandbox_2025team.Base.{[], List}
use sandbox_2025team.Analysis.Ast.{
  Node, Nodes, name, attribute, call, import_names, import_from, function_def, class_def, assign,
  other, nil, cons,
}

-- What DefinitionVisitor collects: the functions outside of classes, and the methods of the classes.
pub record Definitions : Type 0 where
  pub global_functions : List Text
  pub defined_classes : Dict (List Text)

unfoldable pub methods_of : Nodes → List Text → List Text
methods_of nil methods = methods
methods_of (cons (function_def called children line) body) methods =
    methods_of body (add called methods)
methods_of (cons _ body) methods = methods_of body methods

unfoldable mutual
  -- A class is not searched for functions; of two classes of a name the last one counts.
  pub define : Node → Definitions → Definitions
  define (name id line) d = d
  define (attribute value attr line) d = define value d
  define (call func args line) d = define_all args (define func d)
  define (import_names names line) d = d
  define (import_from source names line) d = define_all names d
  define (function_def called children line) d =
      define_all children (record d { global_functions = add called d.global_functions })
  define (class_def called bases body decorators line) d = record d {
    defined_classes = insert called (methods_of body []) d.defined_classes;
  }
  define (assign targets value line) d = define value (define_all targets d)
  define (other tag line children) d = define_all children d

  pub define_all : Nodes → Definitions → Definitions
  define_all nil d = d
  define_all (cons n ns) d = define_all ns (define n d)
