-- ===== src/Interactive/Configuration.antt =====
-- runner/interactive_orchestrator.py: load_config, orchestrate up to the processes, and main.
use sandbox_2025team.Interactive.Numbers.{python_int}
use sandbox_2025team.Results.{minus_one}
use sandbox_2025team.Dict.{Dict, lookup, has_key, insert}
use sandbox_2025team.Base.{
  ℕ, true, false, [], ◌∷◌, none, some, Option, ◌++◌, Bool, if◌then◌else◌, ◌&&◌, ◌*◌, not,
}
use sandbox_2025team.Base.Int.{pos, ℤ}
use sandbox_2025team.Base.Text.{Text, codes, one_of, text_eq}
use sandbox_2025team.Json.{bool, int, float, str, obj, end, field, Fields, Json}
use sandbox_2025team.Interactive.{
  done, failed_with, ◌>>=◌, Orchestrated, TextFile, judge_sides, Sides, unreadable_file, text_file,
  read_result, count_files, no_file, memory_of,
}

unfoldable pub default_config : Dict Json
default_config =
    (codes "outputLimitBytes", int (pos (64 * 1024 * 1024)))
    ∷ (codes "maxTeacherNewFiles", int (pos 500))
    ∷ (codes "teacherUid", int (pos 1450))
    ∷ (codes "studentUid", int (pos 1451))
    ∷ (codes "sandboxGid", int (pos 1450))
    ∷ (codes "studentAllowRead", bool false)
    ∷ []

-- `default.update({k: v for k, v in data.items() if k in default})`.
unfoldable pub update_known : Fields → Dict Json → Dict Json
update_known end config = config
update_known (field k v fs) config =
    update_known fs (if has_key k config then insert k v config else config)

-- `none` for a file that is missing or is no JSON; a value without `items` changes nothing either.
unfoldable pub load_config : Option Json → Dict Json
load_config none = default_config
load_config (some (obj fs)) = update_known fs default_config
load_config (some _) = default_config

-- `int(v)`; `truncated` is the integer part of a float.
unfoldable pub json_int : (truncated : Text → Option ℤ) → Json → Option ℤ
json_int truncated (int n) = some n
json_int truncated (bool b) = some (if b then pos 1 else pos 0)
json_int truncated (str t) = python_int t
json_int truncated (float zero_value t) = truncated t
json_int truncated _ = none

unfoldable pub config_int : (truncated : Text → Option ℤ) → Text → Dict Json → Orchestrated ℤ
config_int truncated key config = elim (lookup key config) [
  | none ↦ failed_with key
  | some v ↦ elim (json_int truncated v) [ none ↦ failed_with key | some n ↦ done n ]
]

-- FIFOs are never used: both tests lead to devfd.
unfoldable pub pipe_mode_of : (mode : Text) (student_allow_write : Bool) → Text
pipe_mode_of mode student_allow_write =
    let first =
      if text_eq mode (codes "fifo") && not student_allow_write then codes "devfd" else mode in
    if text_eq first (codes "fifo") then codes "devfd" else first

-- The permissions of a file of the student, as chmod gets them (octal 0755 is 493, and so on).
unfoldable pub student_file_mode : (is_exec allow_write allow_read : Bool) → ℕ
student_file_mode is_exec allow_write allow_read =
    let mode =
      if allow_write then (if is_exec then 493 else 420) else (if is_exec then 365 else 292) in
    if not allow_read then (if is_exec then 329 else 288) else mode

unfoldable pub is_lang : Text → Bool
is_lang lang = one_of lang (codes "c11" ∷ codes "cpp17" ∷ codes "python3" ∷ [])

abbrev pub is_script : Text → Bool
is_script lang = text_eq lang (codes "python3")

-- The outside of one call of orchestrate. `secured`, `prepared` and `executed` hold the text of an
-- exception of the permissions, of the temporary directory and the pipes, and of the processes;
-- `has_teacher` and `has_student` tell whether the program or script is there, `has_student` after
-- _ensure_exec.
pub record OrchestrateEnv : Type 0 where
  pub teacher_lang : Text
  pub student_lang : Text
  pub allow_write_student : Bool
  pub config_file : Option Json
  pub truncated : Text → Option ℤ
  pub secured : Option Text
  pub has_teacher : Bool
  pub has_student : Bool
  pub prepared : Option Text
  pub executed : Option Text
  pub teacher_result : TextFile
  pub student_result : TextFile
  pub teacher_err : TextFile
  pub student_err : TextFile
  pub check_result : TextFile
  pub duration : ℤ
  pub new_files : ℤ

-- The dict that is printed, as far as the dispatcher reads it.
pub record Printed : Type 0 where
  pub status : Text
  pub stderr : Text
  pub duration : ℤ
  pub mem_usage : ℤ
  pub docker_exit_code : ℤ
  pub pipe_mode : Text

abbrev pub require_that : Bool → Text → Orchestrated (Unit {0})
require_that true message = done tt
require_that false message = failed_with message

abbrev pub without : Text → Option Text → Orchestrated (Unit {0})
without what none = done tt
without what (some e) = failed_with (what ++ e)

-- `if path.exists(): err = path.read_text()`.
abbrev pub text_of : TextFile → Orchestrated Text
text_of no_file = done []
text_of (unreadable_file e) = failed_with e
text_of (text_file t) = done t

unfoldable pub check_entries : OrchestrateEnv → Orchestrated (Unit {0})
check_entries env = do
  _ ← require_that env.has_teacher (
      if is_script env.teacher_lang
      then codes "teacher script missing"
      else codes "teacher binary missing")
  require_that env.has_student (codes "student entry not found")

unfoldable pub read_sides : OrchestrateEnv → Orchestrated Sides
read_sides env = do
  teacher ← read_result env.teacher_result
  student ← read_result env.student_result
  teacher_err ← text_of env.teacher_err
  student_err ← text_of env.student_err
  done (record {
    student = student;
    teacher = teacher;
    student_err = student_err;
    teacher_err = teacher_err;
  })

-- The end of orchestrate, behind the processes.
unfoldable pub conclude :
    OrchestrateEnv → (max_new_files : ℤ) → (pipe_mode : Text) → Orchestrated Printed
conclude env max_new_files pipe_mode = do
  sides ← read_sides env
  verdict ← judge_sides sides env.check_result
  let counted = count_files env.new_files max_new_files verdict
  done (record {
    status = counted.0;
    stderr = counted.1;
    duration = env.duration;
    mem_usage = memory_of sides;
    docker_exit_code = pos 0;
    pipe_mode = pipe_mode;
  })

-- Up to the choice of the pipes: the maximum of new files.
unfoldable pub configure : OrchestrateEnv → Orchestrated ℤ
configure env = do
  _ ←
      require_that (is_lang env.teacher_lang && is_lang env.student_lang)
        (codes "unsupported language")
  let config = load_config env.config_file
  output_limit ← config_int env.truncated (codes "outputLimitBytes") config
  max_new_files ← config_int env.truncated (codes "maxTeacherNewFiles") config
  teacher_uid ← config_int env.truncated (codes "teacherUid") config
  student_uid ← config_int env.truncated (codes "studentUid") config
  sandbox_gid ← config_int env.truncated (codes "sandboxGid") config
  done max_new_files

-- Up to the results of the processes.
unfoldable pub execute_both : OrchestrateEnv → Orchestrated (Unit {0})
execute_both env = do
  _ ← without (codes "failed to secure ") env.secured
  _ ← check_entries env
  _ ← without [] env.prepared
  without (codes "execution failed: ") env.executed

unfoldable pub orchestrate : OrchestrateEnv → (mode : Text) → Orchestrated Printed
orchestrate env mode = do
  max_new_files ← configure env
  _ ← execute_both env
  conclude env max_new_files (pipe_mode_of mode env.allow_write_student)

-- args.pipe_mode after a call: it is written back once the configuration is read.
unfoldable pub mode_after : OrchestrateEnv → (mode : Text) → Text
mode_after env mode = elim (configure env) [
  | done max_new_files ↦ pipe_mode_of mode env.allow_write_student
  | failed_with e ↦ mode
]

-- The result of an exception.
unfoldable pub broken_off : Text → (mode : Text) → Printed
broken_off e mode = record {
  status = codes "CE";
  stderr = codes "interactive orchestrator failed: " ++ e;
  duration = minus_one;
  mem_usage = minus_one;
  docker_exit_code = pos 1;
  pipe_mode = mode;
}

-- main: with "auto" a second call follows a first one that fails. `first` and `second` are the
-- outsides of the two calls.
unfoldable pub orchestrator_main : (mode : Text) (first second : OrchestrateEnv) → Printed
orchestrator_main mode first second =
    if text_eq mode (codes "auto")
    then elim (orchestrate first (codes "devfd")) [
      | done printed ↦ printed
      | failed_with e ↦ elim (orchestrate second (codes "fifo")) [
        | done printed ↦ printed
        | failed_with e' ↦
            broken_off (codes "failed to establish pipe (devfd/fifo); last error: " ++ e')
              (mode_after second (codes "fifo"))
      ]
    ]
    else elim (orchestrate first mode) [
      | done printed ↦ printed
      | failed_with e ↦ broken_off e (mode_after first mode)
    ]
