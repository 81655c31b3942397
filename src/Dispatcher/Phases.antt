-- ===== src/Dispatcher/Phases.antt =====
-- dispatcher/dispatcher.py, create_container in two steps: up to inc_container, and from
-- dec_container on. Other threads run between them, while the container does.
use sandbox_2025team.Runner.{run}
use sandbox_2025team.Dispatcher.Prepare.{is_interactive, refused, prepared}
use sandbox_2025team.Base.Text.{text_eq, codes}
use sandbox_2025team.Dispatcher.Threads.{extract_compile_result}
use sandbox_2025team.Results.{RunnerResult}
use sandbox_2025team.Errors.{Result, ◌>>=◌, ok}
use sandbox_2025team.Dispatcher.State.{
  CaseArgs, State, dec_container, use_custom_checker, compile_need,
}
use sandbox_2025team.Dispatcher.Container.{
  CaseEnv, report_case, then_check, teacher_lang_key, teacher_lang_of,
}
use sandbox_2025team.Base.{Option, if◌then◌else◌, some, none, ◌&&◌}

-- How the container will end, if the thread gets as far as inc_container.
unfoldable pub entering : CaseEnv → CaseArgs → State → Option (Result RunnerResult)
entering env args s =
    let compiled = extract_compile_result args.submission_id args.lang s in
    let broken_compile = text_eq compiled.status (codes "CE") in
    let skip_diff = use_custom_checker args.submission_id s in
    let judged : Result RunnerResult = env.sandbox >>= λ o. ok (run skip_diff env.files o) in
    elim env.prepare_dir [
      | refused message ↦ none
      | prepared _ ↦ elim env.copy_resources [
        | refused message ↦ none
        | prepared _ ↦
            if is_interactive args.execution_mode
            then (elim (teacher_lang_key (teacher_lang_of args.submission_id s)) [
              | none ↦ none
              | some _ ↦
                  if compile_need args.lang && broken_compile then none else some env.interactive
            ])
            else if broken_compile
            then none
            else some judged
      ]
    ]

-- The `finally` of the run, and all that follows it.
unfoldable pub leaving :
    CaseEnv → CaseArgs → Result RunnerResult → State → Result (Unit {0}) × State
leaving env args outcome s =
    let out = dec_container s in
    if is_interactive args.execution_mode
    then report_case env args (outcome, out)
    else report_case env args (then_check env args (outcome, out))
