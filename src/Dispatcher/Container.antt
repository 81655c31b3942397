-- ===== src/Dispatcher/Container.antt =====
-- dispatcher/dispatcher.py, create_container: one case of a submission, as one step.
pub mod Count
pub mod Verdict
use sandbox_2025team.Dispatcher.Scorer.{Env}
use sandbox_2025team.Checker.{CheckerRun, run_custom_checker_case}
use sandbox_2025team.Dispatcher.Threads.{extract_compile_result}
use sandbox_2025team.Dispatcher.Failures.{on_case_complete, mark_submission_failed}
use sandbox_2025team.Scoring.{CheckerPayload, CheckerMessage}
use sandbox_2025team.Dict.{lookup, has_key, insert}
use sandbox_2025team.Runner.{CaseFiles, Sandboxed, run}
use sandbox_2025team.Results.{
  RunnerResult, CaseResult, CheckerResult, or_default, minus_one, make_runner_result,
}
use sandbox_2025team.Base.Text.{Text, codes, text_eq, one_of, lower_char}
use sandbox_2025team.Dispatcher.Prepare.{Prepared, is_interactive, refused, prepared}
use sandbox_2025team.Errors.{Result, raise, ok, ◌>>=◌, key_error}
use sandbox_2025team.Dispatcher.State.{
  CaseArgs, State, info_of, dec_container, use_custom_checker, compile_need, truthy_text,
  inc_container,
}
use sandbox_2025team.Base.{
  ℕ, if◌then◌else◌, List, Option, ◌∷◌, leb, map, [], ◌&&◌, none, is_empty, ◌++◌, ◌+◌, some, not,
  ◌||◌,
}

-- The outside of one call: the case directory, the resources, the sandbox, the interactive runner and
-- the checker. A run of the sandbox is `raise` only where run() reaches the container.
pub record CaseEnv : Type 0 where
  pub prepare_dir : Prepared (Unit {0})
  pub copy_resources : Prepared (Unit {0})
  pub files : CaseFiles
  pub sandbox : Result Sandboxed
  pub interactive : Result RunnerResult
  pub checker : CheckerRun
  pub completion : Env

abbrev text_or : Option Text → Text
text_or = or_default []

-- The arguments of on_case_complete.
unfoldable pub case_result : RunnerResult → CaseResult
case_result res = record {
  stdout = text_or res.stdout;
  stderr = text_or res.stderr;
  exit_code = or_default minus_one res.docker_exit_code;
  exec_time = or_default minus_one res.duration;
  memory_usage = or_default minus_one res.mem_usage;
  status = res.status;
}

-- The languages of a teacher's program; None is the missing or unknown one.
unfoldable pub teacher_lang_key : Option Text → Option Text
teacher_lang_key lang =
    lookup (map lower_char (text_or lang))
      ((codes "c", codes "c11") ∷ (codes "cpp", codes "cpp17") ∷ (codes "py", codes "python3") ∷ [])

-- `assetPaths.get("teacherLang")` of the metadata, if the submission is still there.
unfoldable pub teacher_lang_of : Text → State → Option Text
teacher_lang_of sid s = elim (lookup sid s.result) [
  | none ↦ none
  | some (meta, _) ↦ lookup (codes "teacherLang") meta.asset_paths
]

abbrev pub final_statuses : List Text
final_statuses = codes "CE" ∷ codes "RE" ∷ codes "TLE" ∷ codes "MLE" ∷ codes "OLE" ∷ codes "JE" ∷ []

unfoldable pub record_checker_message : Text → (case_no status message : Text) → State → State
record_checker_message sid number status message s =
    let entry : CheckerMessage = record { case = number; status = status; message = message } in
    let old : CheckerPayload = elim (lookup sid s.checker_payloads) [
      | none ↦ record { messages = []; artifacts = none }
      | some p ↦ p
    ] in
    record s {
      checker_payloads =
          insert sid (record old { messages = old.messages ++ entry ∷ [] }) s.checker_payloads;
    }

-- "\n".join of the parts that are not empty.
abbrev join_lines : Text → Text → Text
join_lines [] t = t
join_lines (c ∷ s) t = (c ∷ s) ++ 10 ∷ t

-- The checker's verdict replaces the status, and its message goes behind the error output.
unfoldable pub checked_result : RunnerResult → CheckerResult → RunnerResult
checked_result res r = record res {
  status = r.status;
  stderr =
      if is_empty r.message
      then res.stderr
      else some (join_lines (text_or res.stderr) (codes "[custom_checker] " ++ r.message));
}

-- The two `if use_custom_checker` statements behind a run.
unfoldable pub apply_checker :
    CaseEnv → Text → Text → RunnerResult → State → Result RunnerResult × State
apply_checker env sid number res s =
    let info = info_of sid s.custom_checker_info in
    let known =
      if truthy_text info.error
      then make_runner_result (codes "JE") (text_or info.error)
      else res in
    if not info.enabled
    then (ok res, s)
    else if one_of known.status final_statuses || not (truthy_text info.path)
    then (ok known, s)
    else elim (run_custom_checker_case env.checker) [
      | raise x ↦ (raise x, s)
      | ok r ↦ (ok (checked_result known r), record_checker_message sid number r.status r.message s)
    ]

-- The runner between inc_container and, in the `finally`, dec_container.
unfoldable pub run_counted : Result RunnerResult → State → Result RunnerResult × State
run_counted outcome s = (outcome, dec_container (inc_container s))

unfoldable pub run_general : CaseEnv → CaseArgs → State → Result RunnerResult × State
run_general env args s =
    let compiled = extract_compile_result args.submission_id args.lang s in
    let skip_diff = use_custom_checker args.submission_id s in
    let outcome : Result RunnerResult = env.sandbox >>= λ o. ok (run skip_diff env.files o) in
    if text_eq compiled.status (codes "CE") then (ok compiled, s) else run_counted outcome s

unfoldable pub run_interactive : CaseEnv → CaseArgs → State → Result RunnerResult × State
run_interactive env args s =
    let compiled = extract_compile_result args.submission_id args.lang s in
    if compile_need args.lang && text_eq compiled.status (codes "CE")
    then (ok compiled, s)
    else run_counted env.interactive s

-- `with self.locks[submission_id]: self.on_case_complete(...)`.
unfoldable pub report_case :
    CaseEnv → CaseArgs → Result RunnerResult × State → Result (Unit {0}) × State
report_case env args (raise x, s) = (raise x, s)
report_case env args (ok res, s) =
    if has_key args.submission_id s.locks
    then on_case_complete env.completion args.submission_id args.case_no (case_result res) s
    else (raise key_error, s)

-- The early returns report without looking whether the lock is there.
unfoldable pub report_failure : CaseEnv → CaseArgs → Text → State → Result (Unit {0}) × State
report_failure env args message s =
    on_case_complete env.completion args.submission_id args.case_no
      (case_result (make_runner_result (codes "JE") message)) s

unfoldable pub then_check :
    CaseEnv → CaseArgs → Result RunnerResult × State → Result RunnerResult × State
then_check env args (raise x, s) = (raise x, s)
then_check env args (ok res, s) = apply_checker env args.submission_id args.case_no res s

unfoldable pub run_case : CaseEnv → CaseArgs → State → Result (Unit {0}) × State
run_case env args s =
    if is_interactive args.execution_mode
    then (elim (teacher_lang_key (teacher_lang_of args.submission_id s)) [
      | none ↦
          mark_submission_failed env.completion args.submission_id (codes "JE")
            (codes "teacherLang missing/invalid") s
      | some _ ↦ report_case env args (run_interactive env args s)
    ])
    else report_case env args (then_check env args (run_general env args s))

unfoldable pub create_container : CaseEnv → CaseArgs → State → Result (Unit {0}) × State
create_container env args s = elim env.prepare_dir [
  | refused message ↦ report_failure env args (codes "prepare case dir failed: " ++ message) s
  | prepared _ ↦ elim env.copy_resources [
    | refused message ↦ report_failure env args (codes "resource copy failed: " ++ message) s
    | prepared _ ↦ run_case env args s
  ]
]
