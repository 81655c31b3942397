-- ===== src/Building.antt =====
-- dispatcher/build_strategy.py: the plans of the build strategies, and what is done after make. A
-- directory is a dict of the entries at its top; the assets, the compiler and the text of an
-- exception are parameters.
pub mod Interactive
pub mod Finalize
pub mod Sealed
use sandbox_2025team.Dispatcher.State.{Outcome, succeeds, build_error, fails}
use sandbox_2025team.Artifacts.Upload.{elf_magic}
use sandbox_2025team.Checker.{starts_with}
use sandbox_2025team.Rules.{is_python}
use sandbox_2025team.Artifacts.{Bytes}
use sandbox_2025team.Dict.{lookup, Dict, insert, has_key, delete, keys}
use sandbox_2025team.Base.{
  ℕ, true, false, [], ◌∷◌, none, some, is_empty, ◌++◌, List, Bool, Option, ◌&&◌, not, if◌then◌else◌,
  keep, map,
}
use sandbox_2025team.Base.Text.{Text, codes, text_eq, lower_char}
use sandbox_2025team.Meta.{c, cpp, py, Language, Meta, AcceptedFormat, zip}

pub record Entry : Type 0 where
  pub is_file : Bool
  pub executable : Bool
  pub bytes : Bytes

abbrev pub Directory : Type 0
Directory = Dict Entry

-- BuildStrategyError with its message, or another exception with its text.
pub data Fault : Type 0 where
  strategy_error other_fault : Text → Fault

pub data Built (A : Type 0) : Type 0 where
  built : A → Built A
  unbuilt : Fault → Built A

infixl 5 ◌>>=◌
abbrev pub ◌>>=◌ : {A B : Type 0} → Built A → (A → Built B) → Built B
built a >>= f = f a
unbuilt e >>= f = unbuilt e

abbrev pub require : Bool → Text → Built (Unit {0})
require true message = built tt
require false message = unbuilt (strategy_error message)

-- A plan, with the closure `finalize` as the change of the directory that its call makes.
pub record Plan : Type 0 where
  pub needs_make : Bool
  pub lang_key : Option Text
  pub finalize : Option (Directory → Built Directory)

unfoldable pub lang_key_of : Language → Text
lang_key_of c = codes "c11"
lang_key_of cpp = codes "cpp17"
lang_key_of py = codes "python3"

unfoldable pub no_make : Plan
no_make = record { needs_make = false; lang_key = none; finalize = none }

unfoldable pub is_elf_executable : Entry → Bool
is_elf_executable e = e.is_file && e.executable && starts_with elf_magic e.bytes

-- The executables that are not allowed.
unfoldable pub extras : (allowed : Text) → Directory → List Text
extras allowed dir = keys (keep (λ e. is_elf_executable e.1 && not (text_eq e.0 allowed)) dir)

unfoldable pub ensure_single_executable : Directory → Built (Unit {0})
ensure_single_executable dir =
    require (is_empty (extras (codes "a.out") dir))
      (codes "only one executable named a.out is allowed in zip submissions")

-- `if target.exists(): target.unlink()`, which raises for a directory.
unfoldable pub unlink : Text → Directory → Built Directory
unlink target dir = elim (lookup target dir) [
  | none ↦ built dir
  | some e ↦
      if e.is_file
      then built (delete target dir)
      else unbuilt (other_fault (codes "IsADirectoryError"))
]

-- os.replace of a.out by main, which becomes executable.
unfoldable pub replace_binary : Entry → Directory → Directory
replace_binary binary dir =
    insert (codes "main") (record binary { executable = true }) (delete (codes "a.out") dir)

unfoldable pub finalize_binary : Directory → Built Directory
finalize_binary dir = elim (lookup (codes "a.out") dir) [
  | none ↦ unbuilt (strategy_error (codes "a.out not found after running make"))
  | some binary ↦ do
    _ ← ensure_single_executable dir
    cleared ← unlink (codes "main") dir
    built (replace_binary binary cleared)
]

unfoldable pub finalize_compiled_binary : Language → Directory → Built Directory
finalize_compiled_binary py dir = built dir
finalize_compiled_binary c dir = finalize_binary dir
finalize_compiled_binary cpp dir = finalize_binary dir

unfoldable pub finalize_function_only_artifacts : Language → Directory → Built Directory
finalize_function_only_artifacts c dir = finalize_compiled_binary c dir
finalize_function_only_artifacts cpp dir = finalize_compiled_binary cpp dir
finalize_function_only_artifacts py dir = do
  _ ← require (has_key (codes "main.py") dir) (codes "main.py not found after running make")
  built dir

unfoldable pub make_plan : Language → (Directory → Built Directory) → Plan
make_plan language finalize = record {
  needs_make = true;
  lang_key = some (lang_key_of language);
  finalize = some finalize;
}

unfoldable pub build_plan_for_student_artifacts : Language → Directory → Built Plan
build_plan_for_student_artifacts py dir = do
  _ ← require (has_key (codes "main.py") dir) (codes "main.py not found in submission archive")
  built no_make
build_plan_for_student_artifacts language dir = do
  _ ← require (has_key (codes "Makefile") dir) (codes "Makefile not found in submission directory")
  built (make_plan language (finalize_compiled_binary language))

unfoldable pub prepare_make_normal : Meta → Directory → Built Plan
prepare_make_normal meta dir = build_plan_for_student_artifacts meta.language dir

-- ensure_custom_asset, with the text of its exception.
pub data Fetched (A : Type 0) : Type 0 where
  fetched : A → Fetched A
  asset_not_found fetch_failed : Text → Fetched A

abbrev pub from_asset : {A : Type 0} → (what : Text) → Fetched A → Built A
from_asset what (fetched a) = built a
from_asset what (asset_not_found e) = unbuilt (strategy_error e)
from_asset what (fetch_failed e) = unbuilt (strategy_error (what ++ e))

unfoldable pub student_entry : Language → Text
student_entry c = codes "main.c"
student_entry cpp = codes "main.cpp"
student_entry py = codes "main.py"

unfoldable pub template_name : Language → Text
template_name language = if is_python language then codes "student_impl.py" else codes "function.h"

-- `write_text` of a file that may be there.
unfoldable pub write : Text → Bytes → Directory → Built Directory
write name bytes dir = elim (lookup name dir) [
  | none ↦ built (insert name (record { is_file = true; executable = false; bytes = bytes }) dir)
  | some e ↦
      if e.is_file
      then built (insert name (record e { bytes = bytes }) dir)
      else unbuilt (other_fault (codes "IsADirectoryError"))
]

abbrev pub non_empty : Option Text → Bool
non_empty none = false
non_empty (some t) = not (is_empty t)

unfoldable pub rmtree : Text → Directory → Directory
rmtree child dir = delete child dir

unfoldable pub remove_child : Text → Directory → Built Directory
remove_child child dir = elim (lookup child dir) [
  | none ↦ built dir
  | some e ↦ if e.is_file then unlink child dir else built (rmtree child dir)
]

unfoldable pub remove_children : List Text → Directory → Built Directory
remove_children [] dir = built dir
remove_children (child ∷ children) dir = do
  fewer ← remove_child child dir
  remove_children children fewer

-- `iterdir` lists the children before the first one is removed.
unfoldable pub reset_directory : Directory → Built Directory
reset_directory dir = remove_children (keys dir) dir

-- A member of a zip archive at its top; what is below a directory stands for it.
pub record Member : Type 0 where
  pub is_dir : Bool
  pub bytes : Bytes

abbrev pub Archive : Type 0
Archive = List (Text × Member)

unfoldable pub extract_member : Text → Member → Directory → Built Directory
extract_member name member dir =
    if member.is_dir
    then elim (lookup name dir) [
      | none ↦ built (insert name (record { is_file = false; executable = false; bytes = [] }) dir)
      | some e ↦ if e.is_file then unbuilt (other_fault (codes "FileExistsError")) else built dir
    ]
    else write name member.bytes dir

-- ZipFile.extractall: a file that is there is written over.
unfoldable pub extract_all : Archive → Directory → Built Directory
extract_all [] dir = built dir
extract_all ((name, member) ∷ members) dir = do
  next ← extract_member name member dir
  extract_all members next

-- `archive` is the fetched asset, and `read_text` what the student's code is when it is read as text
-- and written again, `none` if it cannot be decoded.
unfoldable pub prepare_function_only_submission :
    (read_text : Bytes → Option Bytes)
    → Meta
    → (archive : Fetched Archive) → Directory
    → Built (Plan × Directory)
prepare_function_only_submission read_text meta archive dir =
    elim (lookup (student_entry meta.language) dir) [
      | none ↦ unbuilt (strategy_error (codes "student source not found"))
      | some student ↦ elim (if student.is_file then read_text student.bytes else none) [
        | none ↦ unbuilt (other_fault (codes "UnicodeDecodeError"))
        | some code ↦ do
          _ ←
              require (non_empty (lookup (codes "makefile") meta.asset_paths))
                (codes "functionOnly mode requires makefile asset")
          members ← from_asset (codes "failed to fetch makefile: ") archive
          emptied ← reset_directory dir
          unpacked ← extract_all members emptied
          written ← write (template_name meta.language) code unpacked
          built (make_plan meta.language (finalize_function_only_artifacts meta.language), written)
      ]
    ]

-- What the closure of a plan comes to on the directory that make has left, as the dispatcher's
-- threads see it.
unfoldable pub finalize_outcome : Plan → Directory → Option Outcome
finalize_outcome plan dir = elim plan.finalize [
  | none ↦ none
  | some finalize ↦ some (elim (finalize dir) [
    | built after ↦ succeeds
    | unbuilt (strategy_error e) ↦ build_error e
    | unbuilt (other_fault e) ↦ fails e
  ])
]
