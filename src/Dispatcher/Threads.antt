-- ===== src/Dispatcher/Threads.antt =====
-- dispatcher/dispatcher.py, compile, build and extract_compile_result: the targets of the threads,
-- each as one step. An exception that a thread raises ends that thread alone.
use sandbox_2025team.Dispatcher.Failures.{handle_build_failure}
use sandbox_2025team.Dispatcher.Scorer.{Env}
use sandbox_2025team.Results.{RunnerResult}
use sandbox_2025team.Dict.{add, lookup, delete, insert}
use sandbox_2025team.Meta.{Language}
use sandbox_2025team.Runner.{Sandboxed, only_status, compile_result}
use sandbox_2025team.Dispatcher.State.{
  State, BuildPlan, is_prebuilt_submission, build_error, compile_need, fails, succeeds,
}
use sandbox_2025team.Base.Text.{Text, text_eq, codes}
use sandbox_2025team.Errors.{Result, raise, ok, key_error}
use sandbox_2025team.Base.{Option, some, ◌∷◌, if◌then◌else◌, none, [], not, ◌++◌, true, false}

-- The outside of one call of compile or build: how the sandbox or make ends.
pub record BuildEnv : Type 0 where
  pub sandbox : Result Sandboxed
  pub make : Result RunnerResult
  pub completion : Env

-- `compile_results[submission_id]`, or what its absence means.
unfoldable pub extract_compile_result : Text → Language → State → RunnerResult
extract_compile_result sid lang s = elim (lookup sid s.compile_results) [
  | some res ↦ res
  | none ↦
      if is_prebuilt_submission sid s
      then only_status (codes "AC")
      else only_status (if compile_need lang then codes "CE" else codes "AC")
]

unfoldable pub compile_thread : BuildEnv → Text → Language → State → Result (Unit {0}) × State
compile_thread env sid lang s = elim (lookup sid s.compile_locks) [
  | none ↦ (raise key_error, s)
  | some true ↦ (ok tt, s)
  | some false ↦ if not (compile_need lang) then (ok tt, s) else (elim env.sandbox [
    | raise x ↦ (raise x, s)
    | ok outcome ↦ (
      ok tt,
      record s { compile_results = insert sid (compile_result outcome) s.compile_results },
    )
  ])
]

-- The end of a successful build: the plan's closure, then the submission counts as built.
unfoldable pub finish_build : BuildEnv → Text → BuildPlan → State → Result (Unit {0}) × State
finish_build env sid plan s =
    let built = record s {
      prebuilt_submissions = add sid s.prebuilt_submissions;
      build_plans = delete sid s.build_plans;
      build_locks = delete sid s.build_locks;
    } in
    elim plan.finalize [
      | none ↦ (ok tt, built)
      | some succeeds ↦ (ok tt, built)
      | some (build_error message) ↦ handle_build_failure env.completion sid message s
      | some (fails message) ↦
          handle_build_failure env.completion sid (codes "build finalization failed: " ++ message) s
    ]

abbrev or_else : Option Text → Text → Text
or_else none t = t
or_else (some []) t = t
or_else (some (c ∷ s)) t = c ∷ s

unfoldable pub make_and_finish : BuildEnv → Text → BuildPlan → State → Result (Unit {0}) × State
make_and_finish env sid plan s = elim env.make [
  | raise x ↦ (raise x, s)
  | ok res ↦
      if text_eq res.status (codes "AC")
      then finish_build env sid plan s
      else handle_build_failure env.completion sid (or_else res.stderr (codes "make failed")) s
]

unfoldable pub build_thread : BuildEnv → Text → State → Result (Unit {0}) × State
build_thread env sid s = elim (lookup sid s.build_plans) [
  | none ↦ (ok tt, s)
  | some plan ↦ elim (lookup sid s.build_locks) [
    | none ↦ (ok tt, s)
    | some true ↦ (ok tt, s)
    | some false ↦ make_and_finish env sid plan s
  ]
]
