-- ===== src/Checker.antt =====
-- dispatcher/custom_checker.py: the verdict that a custom checker prints. The files and the container
-- are parameters.
pub mod Outcome
use sandbox_2025team.Json.{is_zero}
use sandbox_2025team.Base.Int.{ℤ, +ℤ_zero}
use sandbox_2025team.Results.{CheckerResult, make_checker_result}
use sandbox_2025team.Output.{lines_from, rstrip, is_space}
use sandbox_2025team.Base.Text.{Text, codes, one_of}
use sandbox_2025team.Errors.{Result, Exn, ok, raise}
use sandbox_2025team.Base.{
  ℕ, List, Option, ◌∷◌, Bool, drop, if◌then◌else◌, true, none, false, [], some, length, ◌==◌, not,
  ◌&&◌, is_empty,
}

unfoldable pub starts_with : Text → Text → Bool
starts_with [] s = true
starts_with (p ∷ ps) [] = false
starts_with (p ∷ ps) (c ∷ s) = p == c && starts_with ps s

-- `s.lstrip()`, and `s.strip()`.
unfoldable pub lstrip : Text → Text
lstrip [] = []
lstrip (c ∷ s) = let rest = lstrip s in if is_space c then rest else c ∷ s

unfoldable pub trim : Text → Text
trim s = rstrip (lstrip s)

abbrev pub status_tag : Text
status_tag = codes "STATUS:"

abbrev pub message_tag : Text
message_tag = codes "MESSAGE:"

-- `line.split(tag, 1)[1].strip()` of a line that starts with the tag.
abbrev pub behind : Text → Text → Text
behind tag line = trim (drop (length tag) line)

-- The loop over the lines, with its two variables.
unfoldable pub read_lines : List Text → Option Text → Text → Option Text × Text
read_lines [] status message = (status, message)
read_lines (line ∷ lines) status message =
    let with_status = read_lines lines (some (behind status_tag line)) message in
    let with_message = read_lines lines status (behind message_tag line) in
    let rest = read_lines lines status message in
    if starts_with status_tag line
    then with_status
    else if starts_with message_tag line
    then with_message
    else rest

abbrev or_text : Text → Text → Text
or_text [] t = t
or_text (c ∷ s) t = c ∷ s

abbrev is_verdict : Option Text → Bool
is_verdict none = false
is_verdict (some status) = one_of status (codes "AC" ∷ codes "WA" ∷ [])

unfoldable pub parse_checker_output : Text → Option Text × Text
parse_checker_output raw =
    let (status, message) = read_lines (lines_from false [] raw) none [] in
    if is_verdict status then (status, message) else (none, or_text message raw)

-- A CustomCheckerError with its text, another exception, or the finished run.
pub data CheckerRun : Type 0 where
  failed : Text → CheckerRun
  escaped : Exn → CheckerRun
  finished : (stdout stderr : Text) → (exit_code : ℤ) → CheckerRun

unfoldable pub status_or_je : Option Text → Text
status_or_je none = codes "JE"
status_or_je (some status) = status

-- The statements behind the `finally`.
unfoldable pub checker_outcome : (stdout stderr : Text) → ℤ → CheckerResult
unfolding status_or_je
checker_outcome stdout stderr exit_code =
    let (status, message) = parse_checker_output stdout in
    let named : Text = elim status [
      | none ↦ or_text message (codes "Invalid custom checker output")
      | some _ ↦ message
    ] in
    let failing = not (is_zero exit_code) in
    let said = if failing && not (is_empty stderr) then stderr else named in
    record {
      status = if failing then codes "JE" else status_or_je status;
      message = if is_empty said then stderr else said;
      stdout = stdout;
      stderr = stderr;
    }

unfoldable pub run_custom_checker_case : CheckerRun → Result CheckerResult
run_custom_checker_case (failed message) = ok (make_checker_result (codes "JE") message)
run_custom_checker_case (escaped x) = raise x
run_custom_checker_case (finished stdout stderr exit_code) =
    ok (checker_outcome stdout stderr exit_code)
