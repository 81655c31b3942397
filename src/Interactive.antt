-- ===== src/Interactive.antt =====
-- runner/interactive_orchestrator.py: the verdict of an interactive run. The processes, the
-- permissions and the files that they leave are parameters.
pub mod Numbers
pub mod Configuration
pub mod Verdict
pub mod Statuses
use sandbox_2025team.Checker.{trim, behind, status_tag, message_tag, starts_with, lstrip}
use sandbox_2025team.Interactive.Numbers.{split_once, python_int, decimal, first_word}
use sandbox_2025team.Dict.{Dict, lookup}
use sandbox_2025team.Results.{minus_one, or_default}
use sandbox_2025team.Output.{lines_from}
use sandbox_2025team.Base.{
  ℕ, true, false, [], ◌∷◌, none, some, if◌then◌else◌, Option, List, ltb, ◌++◌, Bool, not, get_elem?,
  length, ◌&&◌, is_empty, take,
}
use sandbox_2025team.Base.Int.{pos, negsuc, ℤ, ltb_ℤ}
use sandbox_2025team.Base.Text.{Text, codes, text_eq, one_of}

-- A file that is read as text: it may be missing, or raise an exception.
pub data TextFile : Type 0 where
  no_file : TextFile
  unreadable_file : Text → TextFile
  text_file : Text → TextFile

-- The dict of _read_result.
pub record SideResult : Type 0 where
  pub status : Text
  pub exit_code : ℤ
  pub time_ms : ℤ
  pub mem_kb : ℤ
  pub message : Text
  pub raw : Text

abbrev pub no_result : Text → SideResult
no_result message = record {
  status = codes "CE";
  exit_code = minus_one;
  time_ms = minus_one;
  mem_kb = minus_one;
  message = message;
  raw = [];
}

-- `"\n".join(lines)`.
unfoldable pub join_lines : List Text → Text
join_lines [] = []
join_lines (l ∷ []) = l
join_lines (l ∷ m ∷ ls) = l ++ 10 ∷ join_lines (m ∷ ls)

-- The numbers of the third and the fourth line.
unfoldable pub number_at : ℕ → List Text → ℤ
number_at i lines = elim (get_elem? lines i) [
  | none ↦ minus_one
  | some line ↦ or_default minus_one (python_int line)
]

abbrev pub exit_mark : Text
exit_mark = codes "WEXITSTATUS() = "

-- `int(exit_info.split(mark)[1].split()[0])`, -1 where one of the steps fails.
unfoldable pub exit_code_of : Text → ℤ
exit_code_of exit_info = elim (split_once exit_mark exit_info) [
  | none ↦ minus_one
  | some (before, after) ↦
      let part : Text = elim (split_once exit_mark after) [
        | none ↦ after
        | some (first, rest) ↦ first
      ] in
      or_default minus_one (python_int (first_word (lstrip part)))
]

unfoldable pub status_map : Dict Text
status_map =
    (codes "Exited Normally", codes "AC")
    ∷ (codes "TLE", codes "TLE")
    ∷ (codes "MLE", codes "MLE")
    ∷ (codes "RE", codes "RE")
    ∷ (codes "OLE", codes "OLE")
    ∷ []

unfoldable pub read_result_lines : List Text → SideResult
read_result_lines [] = no_result (codes "empty result file")
read_result_lines (first ∷ lines) =
    let exit_info : Text = elim lines [ [] ↦ [] | second ∷ _ ↦ trim second ] in
    record {
      status = or_default (codes "CE") (lookup (trim first) status_map);
      exit_code = exit_code_of exit_info;
      time_ms = number_at 1 lines;
      mem_kb = number_at 2 lines;
      message = exit_info;
      raw = join_lines (first ∷ lines);
    }

-- An exception goes on to `main`.
pub data Orchestrated (A : Type 0) : Type 0 where
  done : A → Orchestrated A
  failed_with : Text → Orchestrated A

infixl 5 ◌>>=◌
abbrev pub ◌>>=◌ : {A B : Type 0} → Orchestrated A → (A → Orchestrated B) → Orchestrated B
done a >>= f = f a
failed_with e >>= f = failed_with e

unfoldable pub read_result : TextFile → Orchestrated SideResult
read_result no_file = done (no_result (codes "result file missing"))
read_result (unreadable_file e) = failed_with e
read_result (text_file text) = done (read_result_lines (lines_from false [] text))

unfoldable pub max_message_length : ℕ
max_message_length = 1024

-- A message that is too long is cut.
unfoldable pub cut_message : Text → Text
cut_message message =
    if ltb max_message_length (length message)
    then take max_message_length message ++ codes "...(truncated)"
    else message

unfoldable pub read_check_lines : List Text → Option Text → Text → Option Text × Text
read_check_lines [] status message = (status, message)
read_check_lines (line ∷ lines) status message =
    let with_status = read_check_lines lines (some (behind status_tag line)) message in
    let with_message = read_check_lines lines status (cut_message (behind message_tag line)) in
    let rest = read_check_lines lines status message in
    if starts_with status_tag line
    then with_status
    else if starts_with message_tag line
    then with_message
    else rest

unfoldable pub is_check_status : Option Text → Bool
is_check_status none = false
is_check_status (some status) = one_of status (codes "AC" ∷ codes "WA" ∷ [])

unfoldable pub parse_check_result : TextFile → Orchestrated (Option Text × Text)
parse_check_result no_file = done (none, codes "Check_Result not found")
parse_check_result (unreadable_file e) = failed_with e
parse_check_result (text_file text) =
    let (status, message) = read_check_lines (lines_from false [] text) none [] in
    done (
      if is_check_status status
      then (status, message)
      else (none, codes "Invalid Check_Result STATUS"))

-- `a or b or c`.
abbrev pub first_filled : Text → Text → Text → Text
first_filled a b c = if not (is_empty a) then a else if not (is_empty b) then b else c

-- What both sides have left.
pub record Sides : Type 0 where
  pub student : SideResult
  pub teacher : SideResult
  pub student_err : Text
  pub teacher_err : Text

-- The status and the message, before the files are counted.
unfoldable pub judge_sides : Sides → TextFile → Orchestrated (Text × Text)
judge_sides s check =
    if not (text_eq s.student.status (codes "AC"))
    then done (s.student.status, first_filled s.student.message s.student_err s.student.raw)
    else if not (text_eq s.teacher.status (codes "AC"))
    then done (s.teacher.status, first_filled s.teacher.message s.teacher_err s.teacher.raw)
    else do
      (status, message) ← parse_check_result check
      done (or_default (codes "CE") status, message)

-- A teacher that leaves too many files costs the AC.
unfoldable pub count_files : (new_files max_new_files : ℤ) → Text × Text → Text × Text
count_files new_files max_new_files (status, message) =
    if text_eq status (codes "AC") && ltb_ℤ max_new_files new_files
    then (codes "CE", codes "teacher created too many files (" ++ decimal new_files ++ codes ")")
    else (status, message)

unfoldable pub memory_of : Sides → ℤ
memory_of s =
    let larger =
      if ltb_ℤ s.teacher.mem_kb s.student.mem_kb then s.student.mem_kb else s.teacher.mem_kb in
    if ltb_ℤ larger (pos 0) then minus_one else larger
