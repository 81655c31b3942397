-- ===== src/Tests/Interactive.antt =====
-- Interactive runs with given results of the two processes.
use sandbox_2025team.Interactive.Numbers.{
  python_int, first_word, split_once, signed_value, digits_value,
}
use sandbox_2025team.Checker.{trim, lstrip, starts_with}
use sandbox_2025team.Output.{lines_from, rstrip, is_space, is_break}
use sandbox_2025team.Dict.{lookup}
use sandbox_2025team.Interactive.Verdict.{orchestrator_main-ac_iff}
use sandbox_2025team.Base.Int.{pos}
use sandbox_2025team.Interactive.Verdict.{IsAccepted}
use sandbox_2025team.Interactive.Statuses.{IsStatus, orchestrator_main-IsStatus}
use sandbox_2025team.Base.{List, ◌∷◌, false, ◌≡◌, [], refl, none, true}
use sandbox_2025team.Interactive.Configuration.{
  orchestrator_main, OrchestrateEnv, configure, orchestrate, is_lang, config_int, load_config,
  default_config, json_int, execute_both, check_entries, read_sides, conclude, pipe_mode_of,
}
use sandbox_2025team.Base.Text.{text_eq, Text, codes, one_of}
use sandbox_2025team.Interactive.{
  text_file, TextFile, no_file, join_lines, judge_sides, read_result, count_files,
  read_result_lines, memory_of, status_map, exit_code_of, number_at, parse_check_result,
  read_check_lines, cut_message, max_message_length, is_check_status, SideResult,
}

abbrev lines_of : List Text → TextFile
lines_of lines = text_file (join_lines lines)

abbrev exited : TextFile
exited = lines_of (
    codes "Exited Normally"
    ∷ codes "WIFEXITED - WEXITSTATUS() = 0"
    ∷ codes "12"
    ∷ codes "3400"
    ∷ [])

abbrev accepting : OrchestrateEnv
accepting = record {
  teacher_lang = codes "python3";
  student_lang = codes "c11";
  allow_write_student = false;
  config_file = none;
  truncated = λ t. none;
  secured = none;
  has_teacher = true;
  has_student = true;
  prepared = none;
  executed = none;
  teacher_result = exited;
  student_result = exited;
  teacher_err = no_file;
  student_err = no_file;
  check_result = lines_of (codes "STATUS: AC" ∷ codes "MESSAGE: good" ∷ []);
  duration = pos 20;
  new_files = pos 1;
}

-- The teacher leaves no verdict.
abbrev undecided : OrchestrateEnv
undecided = record accepting { check_result = no_file }

orchestrator_main_runs : orchestrator_main (codes "auto") undecided undecided ≡ record {
  status = codes "CE";
  stderr = codes "Check_Result not found";
  duration = pos 20;
  mem_usage = pos 3400;
  docker_exit_code = pos 0;
  pipe_mode = codes "devfd";
}
unfolding orchestrator_main orchestrate configure is_lang one_of text_eq config_int lookup
    load_config default_config json_int execute_both check_entries conclude judge_sides count_files
    memory_of pipe_mode_of read_sides read_result read_result_lines lines_from trim lstrip rstrip
    is_space is_break status_map exit_code_of number_at python_int first_word split_once
    signed_value digits_value starts_with parse_check_result join_lines
orchestrator_main_runs = refl

abbrev exited_result : SideResult
exited_result = record {
  status = codes "AC";
  exit_code = pos 0;
  time_ms = pos 12;
  mem_kb = pos 3400;
  message = codes "WIFEXITED - WEXITSTATUS() = 0";
  raw = join_lines (
      codes "Exited Normally"
      ∷ codes "WIFEXITED - WEXITSTATUS() = 0"
      ∷ codes "12"
      ∷ codes "3400"
      ∷ []);
}

accepting-IsAccepted : IsAccepted accepting
unfolding configure is_lang one_of text_eq config_int lookup load_config default_config json_int
    execute_both check_entries read_sides read_result read_result_lines lines_from trim lstrip
    rstrip is_space is_break status_map exit_code_of number_at python_int first_word split_once
    signed_value digits_value starts_with parse_check_result read_check_lines cut_message
    max_message_length is_check_status join_lines
accepting-IsAccepted = record {
  max_new_files = pos 500;
  configured = refl;
  executed = refl;
  sides = record {
    student = exited_result;
    teacher = exited_result;
    student_err = [];
    teacher_err = [];
  };
  read = refl;
  student = refl;
  teacher = refl;
  message = codes "good";
  checked = refl;
  few_files = refl;
}

orchestrator_main-ac_iff_example :
    (orchestrator_main (codes "devfd") accepting undecided).status ≡ codes "AC"
unfolding text_eq
orchestrator_main-ac_iff_example =
    (orchestrator_main-ac_iff (codes "devfd") accepting undecided refl).1 accepting-IsAccepted

orchestrator_main-IsStatus_example :
    IsStatus (orchestrator_main (codes "auto") undecided accepting).status
orchestrator_main-IsStatus_example = orchestrator_main-IsStatus (codes "auto") undecided accepting
