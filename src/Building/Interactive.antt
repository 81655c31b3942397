-- ===== src/Building/Interactive.antt =====
-- dispatcher/build_strategy.py: the interactive strategy, with the teacher's program.
use sandbox_2025team.Rules.{is_python}
use sandbox_2025team.Artifacts.{Bytes}
use sandbox_2025team.Dict.{lookup, insert, has_key}
use sandbox_2025team.Base.{
  true, false, [], ◌∷◌, none, some, Bool, Option, if◌then◌else◌, map, ◌++◌, not, ◌&&◌,
}
use sandbox_2025team.Base.Text.{Text, codes, text_eq, lower_char}
use sandbox_2025team.Meta.{c, cpp, py, zip, Meta, Language, AcceptedFormat}
use sandbox_2025team.Building.{
  built, unbuilt, strategy_error, other_fault, ◌>>=◌, Fault, Directory, Fetched, Built, require,
  Plan, non_empty, from_asset, no_make, student_entry, build_plan_for_student_artifacts,
}

-- str(assetPaths.get("teacherLang") or "").lower(), as far as the letters of ASCII go.
unfoldable pub teacher_language : Meta → Option Language
teacher_language meta = elim (lookup (codes "teacherLang") meta.asset_paths) [
  | none ↦ none
  | some lang ↦
      lookup (map lower_char lang) ((codes "c", c) ∷ (codes "cpp", cpp) ∷ (codes "py", py) ∷ [])
]

-- `parent` is the directory "teacher" from before, if there is one. `compile` is compile_at_path: the
-- status, and the directory it leaves; `linked` tells whether a link or a copy of the program succeeds.
pub record TeacherEnv : Type 0 where
  pub parent : Option Directory
  pub asset : Fetched Bytes
  pub compile : Language → Directory → Text × Directory
  pub linked : Bool

-- A local name of a Python function, with or without a value.
pub data Local : Type 0 where
  unbound bound : Local

-- `if parent_dir.exists(): shutil.rmtree(parent_dir)`, and the new directory.
unfoldable pub renew_parent : (shutil : Local) → Option Directory → Built Directory
renew_parent shutil none = built []
renew_parent bound (some old) = built []
renew_parent unbound (some old) =
    unbuilt (other_fault (codes "cannot access local variable 'shutil'"))

abbrev pub make_executable : Text → Directory → Directory
make_executable name dir = elim (lookup name dir) [
  | none ↦ dir
  | some e ↦ insert name (record e { executable = true }) dir
]

-- The programs of a compiled teacher.
unfoldable pub teacher_program : (linked : Bool) → Directory → Built Directory
teacher_program linked dir = elim (lookup (codes "teacher_main") dir) [
  | none ↦ unbuilt (strategy_error (codes "teacher binary missing after compile"))
  | some binary ↦
      let with_main =
        if not (has_key (codes "main") dir) && linked
        then insert (codes "main") binary dir
        else dir in
      built (make_executable (codes "main") (make_executable (codes "teacher_main") with_main))
]

unfoldable pub compile_teacher : TeacherEnv → Language → Directory → Built Directory
compile_teacher env py dir = built dir
compile_teacher env language dir = do
  _ ←
      require (text_eq (env.compile language dir).0 (codes "AC"))
        (codes "Interactive judge program failed to compile. Please contact course staff.")
  teacher_program env.linked (env.compile language dir).1

-- `import shutil` stands in this function, behind the compilation, so that the name is a local one,
-- which has no value yet where a directory from before is to be removed.
unfoldable pub prepare_teacher_artifacts : TeacherEnv → Meta → Built Directory
prepare_teacher_artifacts env meta = elim (teacher_language meta) [
  | none ↦ unbuilt (strategy_error (codes "interactive mode requires teacherLang"))
  | some language ↦ do
    _ ←
        require (non_empty (lookup (codes "teacher_file") meta.asset_paths))
          (codes "interactive mode requires Teacher_file")
    dir ← renew_parent unbound env.parent
    source ← from_asset (codes "failed to fetch teacher file: ") env.asset
    compile_teacher env language (
        insert (student_entry language)
          (record { is_file = true; executable = false; bytes = source }) dir)
]

abbrev pub fault_text : Fault → Text
fault_text (strategy_error e) = e
fault_text (other_fault e) = e

unfoldable pub prepare_interactive_teacher_artifacts : TeacherEnv → Meta → Built Directory
prepare_interactive_teacher_artifacts env meta = elim (prepare_teacher_artifacts env meta) [
  | built dir ↦ built dir
  | unbuilt e ↦
      unbuilt (strategy_error (codes "failed to prepare teacher artifacts: " ++ fault_text e))
]

abbrev pub is_zip : AcceptedFormat → Bool
is_zip zip = true
is_zip _ = false

unfoldable pub interactive_plan : Meta → Directory → Built Plan
interactive_plan meta dir =
    if is_zip meta.accepted_format
    then if is_python meta.language
      then (do
        _ ←
            require (has_key (codes "main.py") dir)
              (codes "interactive zip requires main.py for python submissions")
        built no_make)
      else (do
        _ ←
            require (has_key (codes "Makefile") dir)
              (codes "interactive zip requires Makefile for C/C++ submissions")
        build_plan_for_student_artifacts meta.language dir)
    else built no_make

-- The plan of the student's program, and the teacher's directory.
unfoldable pub prepare_make_interactive : TeacherEnv → Meta → Directory → Built (Plan × Directory)
prepare_make_interactive env meta dir = do
  teacher ← prepare_interactive_teacher_artifacts env meta
  plan ← interactive_plan meta dir
  built (plan, teacher)
