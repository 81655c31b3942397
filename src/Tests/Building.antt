-- ===== src/Tests/Building.antt =====
-- The build strategies on small directories.
use sandbox_2025team.Checker.{starts_with}
use sandbox_2025team.Building.Sealed.{IsSealed, prepare_function_only-IsSealed}
use sandbox_2025team.Building.Finalize.{IsFinal, finalize_binary_iff}
use sandbox_2025team.Dict.{lookup, insert, delete}
use sandbox_2025team.Artifacts.Upload.{elf_magic}
use sandbox_2025team.Artifacts.{Bytes}
use sandbox_2025team.Tests.Data.{meta_of, easy}
use sandbox_2025team.Meta.{Meta, c, py}
use sandbox_2025team.Building.Interactive.{
  prepare_make_interactive, TeacherEnv, prepare_interactive_teacher_artifacts,
  prepare_teacher_artifacts, teacher_language, compile_teacher, interactive_plan, renew_parent,
}
use sandbox_2025team.Base.{◌≡◌, [], true, false, ◌∷◌, some, refl, subst, none}
use sandbox_2025team.Base.Text.{codes, text_eq}
use sandbox_2025team.Building.{
  finalize_binary, prepare_function_only_submission, Directory, Entry, extras, built, no_make,
  unbuilt, fetched, strategy_error, make_plan, finalize_function_only_artifacts, student_entry,
  is_elf_executable, ensure_single_executable, template_name, unlink, write, replace_binary,
  Archive, reset_directory, remove_children, remove_child, rmtree, extract_all, extract_member,
}

abbrev program : Entry
program = record { is_file = true; executable = true; bytes = elf_magic }

abbrev source : Entry
source = record { is_file = true; executable = false; bytes = codes "int f();" }

-- What make leaves next to an old main.
abbrev made : Directory
made = (codes "main", source) ∷ (codes "a.out", program) ∷ (codes "Makefile", source) ∷ []

finalize_binary_runs :
    finalize_binary made ≡ built ((codes "Makefile", source) ∷ (codes "main", program) ∷ [])
unfolding finalize_binary lookup text_eq ensure_single_executable extras is_elf_executable
    starts_with elf_magic unlink replace_binary insert delete
finalize_binary_runs = refl

free_main : (e : Entry) → lookup (codes "main") made ≡ some e → e.is_file ≡ true
unfolding lookup text_eq
free_main e h = let same : source ≡ e = cc h in subst (λ (x : Entry). x.is_file ≡ true) same refl

finalize_binary_iff_example :
    (after : Directory) × (finalize_binary made ≡ built after) × IsFinal made after
unfolding extras lookup text_eq is_elf_executable starts_with elf_magic
finalize_binary_iff_example =
    (finalize_binary_iff made).0
      (record { binary = program; found = refl; single = refl; free = free_main })

abbrev function_only : Meta
function_only = record (meta_of c (easy ∷ [])) {
  asset_paths = (codes "makefile", codes "p.zip") ∷ [];
}

abbrev assets : Archive
assets =
    (codes "Makefile", record { is_dir = false; bytes = codes "all:" })
    ∷ (codes "lib", record { is_dir = true; bytes = [] })
    ∷ []

-- The student's own Makefile, and a directory.
abbrev submitted : Directory
submitted =
    (codes "main.c", source)
    ∷ (codes "Makefile", program)
    ∷ (codes "old", record { is_file = false; executable = false; bytes = [] })
    ∷ []

abbrev sealed : Directory
sealed =
    (codes "Makefile", record { is_file = true; executable = false; bytes = codes "all:" })
    ∷ (codes "lib", record { is_file = false; executable = false; bytes = [] })
    ∷ (codes "function.h", source)
    ∷ []

prepare_function_only-IsSealed_example :
    (student : Entry) × (code : Bytes) × (lookup (codes "main.c") submitted ≡ some student)
    × (some student.bytes ≡ some code)
    × IsSealed code c assets sealed
    × (true ≡ true)
unfolding prepare_function_only_submission lookup text_eq student_entry template_name write insert
    delete make_plan reset_directory remove_children remove_child unlink rmtree extract_all
    extract_member
prepare_function_only-IsSealed_example =
    prepare_function_only-IsSealed some function_only assets submitted sealed
      (make_plan c (finalize_function_only_artifacts c)) refl

abbrev teacher_env : TeacherEnv
teacher_env = record {
  parent = some [];
  asset = fetched (codes "print()");
  compile = λ language dir. (codes "AC", dir);
  linked = true;
}

abbrev interactive_meta : Meta
interactive_meta = record (meta_of py (easy ∷ [])) {
  asset_paths = (codes "teacherLang", codes "Py") ∷ (codes "teacher_file", codes "t.py") ∷ [];
}

-- The first time, the directory is prepared.
prepare_make_interactive_runs :
    prepare_make_interactive (record teacher_env { parent = none }) interactive_meta []
    ≡ built (
      no_make,
      (codes "main.py", record { is_file = true; executable = false; bytes = codes "print()" })
          ∷ [],
    )
unfolding prepare_make_interactive prepare_interactive_teacher_artifacts prepare_teacher_artifacts
    teacher_language lookup text_eq student_entry compile_teacher interactive_plan no_make
    renew_parent insert
prepare_make_interactive_runs = refl

-- A directory from before is in the way.
prepare_make_interactive_again :
    prepare_make_interactive teacher_env interactive_meta []
    ≡ unbuilt (
        strategy_error
          (codes "failed to prepare teacher artifacts: cannot access local variable 'shutil'"))
unfolding prepare_make_interactive prepare_interactive_teacher_artifacts prepare_teacher_artifacts
    teacher_language lookup text_eq renew_parent
prepare_make_interactive_again = refl
