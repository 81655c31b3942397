-- ===== src/Runner.antt =====
-- runner/submission.py: what SubmissionRunner makes of a run of the sandbox. The container, make and
-- the file system are parameters.
pub mod Verdict
use sandbox_2025team.Output.{same_lines, strip}
use sandbox_2025team.Json.{is_zero}
use sandbox_2025team.Base.Text.{Text, codes, one_of, text_eq}
use sandbox_2025team.Base.Int.{ℤ, +ℤ_zero, pos}
use sandbox_2025team.Results.{RunnerResult, minus_one}
use sandbox_2025team.Base.{
  ℕ, Bool, List, if◌then◌else◌, none, Option, some, ◌∷◌, not, [], is_empty, ◌&&◌, ◌++◌,
}

-- runner/sandbox.py, Result, less ExitMsg and DockerError, which nothing reads.
pub record SandboxResult : Type 0 where
  pub status : Text
  pub duration : ℤ
  pub mem_usage : ℤ
  pub stdout : Text
  pub stderr : Text
  pub docker_exit_code : ℤ

pub data Sandboxed : Type 0 where
  judge_error : Sandboxed
  exited : SandboxResult → Sandboxed

-- `dataclasses.asdict(result)` with the given status.
unfoldable pub as_dict : Text → SandboxResult → RunnerResult
as_dict status r = record {
  status = status;
  stdout = some r.stdout;
  stderr = some r.stderr;
  duration = some r.duration;
  mem_usage = some r.mem_usage;
  docker_exit_code = some r.docker_exit_code;
}

abbrev pub only_status : Text → RunnerResult
only_status status = record {
  status = status;
  stdout = none;
  stderr = none;
  duration = none;
  mem_usage = none;
  docker_exit_code = none;
}

unfoldable pub compile_result : Sandboxed → RunnerResult
unfolding as_dict
compile_result judge_error = only_status (codes "JE")
compile_result (exited r) =
    as_dict (if text_eq r.status (codes "Exited Normally") then codes "AC" else codes "CE") r

unfoldable pub error_result : Text → RunnerResult
error_result message = record {
  status = codes "JE";
  stdout = some [];
  stderr = some message;
  duration = some minus_one;
  mem_usage = some minus_one;
  docker_exit_code = some (pos 1);
}

-- The files of a case: whether the input and the output are there, and the output's content when it
-- is opened after the run.
pub record CaseFiles : Type 0 where
  pub input_path : Text
  pub output_path : Text
  pub input_exists : Bool
  pub output_exists : Bool
  pub answer : Option Text

abbrev limit_statuses : List Text
limit_statuses = codes "TLE" ∷ codes "MLE" ∷ codes "RE" ∷ codes "OLE" ∷ []

-- The status that run() leaves in the result.
unfoldable pub verdict : (skip_diff : Bool) → (status stdout answer : Text) → Text
verdict skip_diff status stdout answer =
    if one_of status limit_statuses
    then status
    else if skip_diff
    then codes "AC"
    else if same_lines (strip stdout) (strip answer)
    then codes "AC"
    else codes "WA"

unfoldable pub run : (skip_diff : Bool) → CaseFiles → Sandboxed → RunnerResult
run skip_diff files outcome =
    if not (is_empty files.input_path) && not files.input_exists
    then error_result (codes "testcase input not found: " ++ files.input_path)
    else if not (is_empty files.output_path) && not files.output_exists
    then error_result (codes "testcase output not found: " ++ files.output_path)
    else (elim outcome [
      | judge_error ↦ error_result (codes "sandbox judge error")
      | exited r ↦ elim files.answer [
        | none ↦ error_result (codes "testcase output not found: " ++ files.output_path)
        | some answer ↦ as_dict (verdict skip_diff r.status r.stdout answer) r
      ]
    ])

-- The end of build_with_make, for the exit status and the logs of the container.
unfoldable pub make_result : (status_code : ℤ) → (stdout stderr : Text) → RunnerResult
make_result status_code stdout stderr = record {
  status = if is_zero status_code then codes "AC" else codes "CE";
  stdout = some stdout;
  stderr = some stderr;
  duration = none;
  mem_usage = none;
  docker_exit_code = some status_code;
}
