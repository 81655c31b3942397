-- ===== src/Runner/Verdict.antt =====
-- White space at the end of an output, through the whole of a run.
use sandbox_2025team.Output.Trailing.{strip-append_space}
use sandbox_2025team.Output.{is_space}
use sandbox_2025team.Base.Text.{Text}
use sandbox_2025team.Base.{Bool, All, ◌≡◌, true, some, ◌++◌, arith}
use sandbox_2025team.Runner.{verdict, run, as_dict, error_result, CaseFiles, SandboxResult, exited}

-- White space at the end of the output or of the answer does not change the verdict.
verdict-append_space :
    (skip_diff : Bool) (status stdout answer ws vs : Text)
    → All (λ c. is_space c ≡ true) ws
    → All (λ c. is_space c ≡ true) vs
    → verdict skip_diff status (stdout ++ ws) (answer ++ vs)
      ≡ verdict skip_diff status stdout answer
unfolding verdict
verdict-append_space skip_diff status stdout answer ws vs h g =
    rw (strip-append_space stdout ws h, strip-append_space answer vs g)

-- White space and line breaks at the end of the output or of the answer, in any mixture, change the
-- status of no run: with a custom checker or without one, whatever limit is met, and with the files of
-- the case there or not.
pub run-append_space :
    (skip_diff : Bool) (files : CaseFiles) (r : SandboxResult) (answer ws vs : Text)
    → All (λ c. is_space c ≡ true) ws
    → All (λ c. is_space c ≡ true) vs
    → (run skip_diff
        (record files { answer = some (answer ++ vs) })
        (exited (record r { stdout = r.stdout ++ ws }))).status
      ≡ (run skip_diff (record files { answer = some answer }) (exited r)).status
unfolding run as_dict error_result
run-append_space skip_diff files r answer ws vs h g =
    ground (arith, verdict-append_space skip_diff r.status r.stdout answer ws vs h g)
