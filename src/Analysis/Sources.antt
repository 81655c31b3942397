-- ===== src/Analysis/Sources.antt =====
-- dispatcher/static_analysis.py: which files of a submission are analysed. The files, and what `ast`
-- and libclang make of them, are parameters.
use sandbox_2025team.Meta.{Language, c, cpp}
use sandbox_2025team.Analysis.Python.{rsplit_dot}
use sandbox_2025team.Analysis.Cpp.{Cursor}
use sandbox_2025team.Analysis.Ast.{Node}
use sandbox_2025team.Base.{
  true, false, [], ◌∷◌, none, some, Bool, List, keep, if◌then◌else◌, Option, ◌&&◌, is_empty, ◌||◌,
  not, map,
}
use sandbox_2025team.Meta.{c, cpp, py}
use sandbox_2025team.Base.Text.{Text, codes, one_of, text_eq, lower_char}

-- The components of a path.
abbrev pub FilePath : Type 0
FilePath = List Text

-- What `ast.parse` makes of a file's text: a tree, a SyntaxError with its text, or another exception
-- on the way, with its text.
pub data ParsedTree : Type 0 where
  parsed : Node → ParsedTree
  syntax_error : Text → ParsedTree
  unreadable : Text → ParsedTree

-- What `index.parse` makes of a file.
pub data ParsedUnit : Type 0 where
  unit : Cursor → ParsedUnit
  no_unit : ParsedUnit
  unit_error : Text → ParsedUnit

-- The submission's directory is the path `[]`. `files_under` lists the files of `rglob("*")`, with
-- paths as they are opened; `makefile` the matches of the source pattern in the Makefile of a
-- directory, if there is one; `home` and `resolve` are `dir.resolve()` and `(dir / cand).resolve()`,
-- which follow `..` and symbolic links; `shown` is `str(path)`, and `relative` the text of a path
-- below a directory. `clang_error` is the text of a LibclangError of `Index.create`.
pub record SourceTree : Type 0 where
  pub exists : FilePath → Bool
  pub is_file : FilePath → Bool
  pub files_under : FilePath → List FilePath
  pub makefile : FilePath → Option (List Text)
  pub home : FilePath → FilePath
  pub resolve : FilePath → Text → FilePath
  pub shown : FilePath → Text
  pub relative : FilePath → FilePath → Text
  pub parse_python : FilePath → ParsedTree
  pub has_clang : Bool
  pub clang_error : Option Text
  pub parse_unit : FilePath → ParsedUnit

-- `path.name`.
unfoldable pub last_name : FilePath → Text
last_name [] = []
last_name (name ∷ []) = name
last_name (_ ∷ p ∷ ps) = last_name (p ∷ ps)

-- `path.suffix`.
unfoldable pub suffix_of : FilePath → Text
suffix_of path = elim (rsplit_dot (last_name path)) [
  | none ↦ []
  | some (before, after) ↦ if is_empty before || is_empty after then [] else 46 ∷ after
]

-- `path.suffix.lower()`, as far as the letters of ASCII go.
unfoldable pub suffix : FilePath → Text
suffix path = map lower_char (suffix_of path)

unfoldable pub allowed_ext_for_language : Language → List Text
allowed_ext_for_language c = codes ".c" ∷ codes ".h" ∷ []
allowed_ext_for_language cpp = codes ".cpp" ∷ codes ".cc" ∷ codes ".cxx" ∷ codes ".h" ∷ []
allowed_ext_for_language py = codes ".py" ∷ []

unfoldable pub is_code_file : FilePath → Bool
is_code_file path =
    one_of (suffix path)
      (codes ".c" ∷ codes ".cpp" ∷ codes ".cc" ∷ codes ".cxx" ∷ codes ".h" ∷ codes ".py" ∷ [])

unfoldable pub has_allowed_ext : Language → FilePath → Bool
has_allowed_ext language path = one_of (suffix path) (allowed_ext_for_language language)

-- `p.relative_to(dir)` does not raise.
unfoldable pub is_inside : FilePath → FilePath → Bool
is_inside [] path = true
is_inside (d ∷ ds) [] = false
is_inside (d ∷ ds) (p ∷ ps) = text_eq d p && is_inside ds ps

module _ (tree : SourceTree) where
  unfoldable pub collect_sources_by_ext : FilePath → Language → List FilePath
  collect_sources_by_ext dir language = keep (has_allowed_ext language) (tree.files_under dir)

  unfoldable pub disallowed_files : FilePath → Language → List FilePath
  disallowed_files dir language =
      keep (λ p. is_code_file p && not (has_allowed_ext language p)) (tree.files_under dir)

  -- The loop over the candidates: a path that leaves the directory is left out.
  unfoldable pub sources_among : FilePath → Language → List Text → List FilePath
  sources_among dir language [] = []
  sources_among dir language (cand ∷ cands) =
      let path = tree.resolve dir cand in
      let rest = sources_among dir language cands in
      if is_inside (tree.home dir) path
      then if tree.exists path && tree.is_file path && has_allowed_ext language path
        then path ∷ rest
        else rest
      else rest

  unfoldable pub collect_sources_from_makefile : FilePath → Language → List FilePath
  collect_sources_from_makefile dir language = elim (tree.makefile dir) [
    | none ↦ []
    | some cands ↦ sources_among dir language cands
  ]
