-- ===== src/Analysis/Kinds.antt =====
-- dispatcher/static_analysis.py, CPP_CURSOR_KIND_MAP: the syntax names of libclang's kinds of cursors.
use sandbox_2025team.Base.Text.{Text, codes}
use sandbox_2025team.Dict.{Dict}
use sandbox_2025team.Base.{[], ◌∷◌}

abbrev kind_name : Text → Text → Text × Text
kind_name kind syntax_name = (kind, syntax_name)

-- A kind goes by its name.
unfoldable pub cpp_cursor_kind_map : Dict Text
cpp_cursor_kind_map =
    kind_name (codes "FOR_STMT") (codes "for")
    ∷ kind_name (codes "CXX_FOR_RANGE_STMT") (codes "range_for")
    ∷ kind_name (codes "WHILE_STMT") (codes "while")
    ∷ kind_name (codes "DO_STMT") (codes "do_while")
    ∷ kind_name (codes "IF_STMT") (codes "if")
    ∷ kind_name (codes "SWITCH_STMT") (codes "switch")
    ∷ kind_name (codes "CASE_STMT") (codes "case")
    ∷ kind_name (codes "DEFAULT_STMT") (codes "default")
    ∷ kind_name (codes "BREAK_STMT") (codes "break")
    ∷ kind_name (codes "CONTINUE_STMT") (codes "continue")
    ∷ kind_name (codes "RETURN_STMT") (codes "return")
    ∷ kind_name (codes "GOTO_STMT") (codes "goto")
    ∷ kind_name (codes "LABEL_STMT") (codes "label")
    ∷ kind_name (codes "VAR_DECL") (codes "var_decl")
    ∷ kind_name (codes "PARM_DECL") (codes "param_decl")
    ∷ kind_name (codes "FUNCTION_DECL") (codes "function_decl")
    ∷ kind_name (codes "FIELD_DECL") (codes "field_decl")
    ∷ kind_name (codes "ENUM_DECL") (codes "enum_decl")
    ∷ kind_name (codes "ENUM_CONSTANT_DECL") (codes "enum_constant")
    ∷ kind_name (codes "STRUCT_DECL") (codes "struct_decl")
    ∷ kind_name (codes "UNION_DECL") (codes "union_decl")
    ∷ kind_name (codes "CLASS_DECL") (codes "class_decl")
    ∷ kind_name (codes "TYPEDEF_DECL") (codes "typedef")
    ∷ kind_name (codes "NAMESPACE") (codes "namespace")
    ∷ kind_name (codes "USING_DECLARATION") (codes "using")
    ∷ kind_name (codes "USING_DIRECTIVE") (codes "using_directive")
    ∷ kind_name (codes "TYPE_ALIAS_DECL") (codes "type_alias")
    ∷ kind_name (codes "STATIC_ASSERT") (codes "static_assert")
    ∷ kind_name (codes "CALL_EXPR") (codes "call")
    ∷ kind_name (codes "BINARY_OPERATOR") (codes "binary_op")
    ∷ kind_name (codes "UNARY_OPERATOR") (codes "unary_op")
    ∷ kind_name (codes "COMPOUND_ASSIGNMENT_OPERATOR") (codes "compound_assign")
    ∷ kind_name (codes "CONDITIONAL_OPERATOR") (codes "ternary")
    ∷ kind_name (codes "ARRAY_SUBSCRIPT_EXPR") (codes "array_subscript")
    ∷ kind_name (codes "MEMBER_REF_EXPR") (codes "member_access")
    ∷ kind_name (codes "INTEGER_LITERAL") (codes "integer_literal")
    ∷ kind_name (codes "FLOATING_LITERAL") (codes "float_literal")
    ∷ kind_name (codes "STRING_LITERAL") (codes "string_literal")
    ∷ kind_name (codes "CHARACTER_LITERAL") (codes "char_literal")
    ∷ kind_name (codes "CXX_BOOL_LITERAL_EXPR") (codes "bool_literal")
    ∷ kind_name (codes "CXX_NULL_PTR_LITERAL_EXPR") (codes "nullptr")
    ∷ kind_name (codes "CSTYLE_CAST_EXPR") (codes "c_cast")
    ∷ kind_name (codes "CXX_STATIC_CAST_EXPR") (codes "static_cast")
    ∷ kind_name (codes "CXX_DYNAMIC_CAST_EXPR") (codes "dynamic_cast")
    ∷ kind_name (codes "CXX_CONST_CAST_EXPR") (codes "const_cast")
    ∷ kind_name (codes "CXX_REINTERPRET_CAST_EXPR") (codes "reinterpret_cast")
    ∷ kind_name (codes "CXX_FUNCTIONAL_CAST_EXPR") (codes "functional_cast")
    ∷ kind_name (codes "CXX_NEW_EXPR") (codes "new")
    ∷ kind_name (codes "CXX_DELETE_EXPR") (codes "delete")
    ∷ kind_name (codes "CONSTRUCTOR") (codes "constructor")
    ∷ kind_name (codes "DESTRUCTOR") (codes "destructor")
    ∷ kind_name (codes "CXX_METHOD") (codes "method")
    ∷ kind_name (codes "CONVERSION_FUNCTION") (codes "conversion_func")
    ∷ kind_name (codes "CXX_THIS_EXPR") (codes "this")
    ∷ kind_name (codes "CXX_BASE_SPECIFIER") (codes "base_specifier")
    ∷ kind_name (codes "CXX_ACCESS_SPEC_DECL") (codes "access_specifier")
    ∷ kind_name (codes "FRIEND_DECL") (codes "friend")
    ∷ kind_name (codes "CXX_TRY_STMT") (codes "try")
    ∷ kind_name (codes "CXX_CATCH_STMT") (codes "catch")
    ∷ kind_name (codes "CXX_THROW_EXPR") (codes "throw")
    ∷ kind_name (codes "CLASS_TEMPLATE") (codes "class_template")
    ∷ kind_name (codes "FUNCTION_TEMPLATE") (codes "function_template")
    ∷ kind_name (codes "TEMPLATE_TYPE_PARAMETER") (codes "template_type_param")
    ∷ kind_name (codes "TEMPLATE_NON_TYPE_PARAMETER") (codes "template_nontype_param")
    ∷ kind_name (codes "TEMPLATE_TEMPLATE_PARAMETER") (codes "template_template_param")
    ∷ kind_name (codes "LAMBDA_EXPR") (codes "lambda")
    ∷ []
