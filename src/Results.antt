-- ===== src/Results.antt =====
-- dispatcher/result_factory.py: the result dictionaries. A dict with fixed keys is a record; a
-- runner's result may lack every key but `Status`, since compile() returns {"Status": "JE"}.
pub mod AllCases
use sandbox_2025team.Base.{ℕ, zero, suc, ◌+◌, List, [], ◌∷◌, Option, none, some, if◌then◌else◌}
use sandbox_2025team.Base.Int.{ℤ, pos, negsuc, pos_part}
use sandbox_2025team.Base.Text.{Text, codes}
use sandbox_2025team.Dict.{Dict, insert}
use sandbox_2025team.CaseNo.{case_no}
use sandbox_2025team.Meta.{Task, Meta}

pub record CaseResult : Type 0 where
  pub stdout : Text
  pub stderr : Text
  pub exit_code : ℤ
  pub exec_time : ℤ
  pub memory_usage : ℤ
  pub status : Text

pub record RunnerResult : Type 0 where
  pub status : Text
  pub stdout : Option Text
  pub stderr : Option Text
  pub duration : Option ℤ
  pub mem_usage : Option ℤ
  pub docker_exit_code : Option ℤ

pub record CheckerResult : Type 0 where
  pub status : Text
  pub message : Text
  pub stdout : Text
  pub stderr : Text

-- `dict.get(key, default)` on a record's optional field.
abbrev pub or_default {ℓ} : {A : Type ℓ} → A → Option A → A
or_default d none = d
or_default d (some a) = a

abbrev pub minus_one : ℤ
minus_one = negsuc 0

-- The arguments that every caller leaves out have their defaults.
unfoldable pub make_case_result : Text → Text → CaseResult
make_case_result status stderr = record {
  stdout = [];
  stderr = stderr;
  exit_code = pos 1;
  exec_time = minus_one;
  memory_usage = minus_one;
  status = status;
}

unfoldable pub make_runner_result : Text → Text → RunnerResult
make_runner_result status stderr = record {
  status = status;
  stdout = some [];
  stderr = some stderr;
  duration = some minus_one;
  mem_usage = some minus_one;
  docker_exit_code = some (pos 1);
}

unfoldable pub make_checker_result : Text → Text → CheckerResult
make_checker_result status message = record {
  status = status;
  message = message;
  stdout = [];
  stderr = [];
}

module _ {ℓ} {V : Type ℓ} (v : V) where
  -- `for ci in range(caseCount)`, with the rounds left.
  unfoldable pub put_cases : (ti ci left : ℕ) → Dict V → Dict V
  put_cases ti ci zero d = d
  put_cases ti ci (suc left) d = put_cases ti (ci + 1) left (insert (case_no ti ci) v d)

  -- `for ti, task in enumerate(tasks)`.
  unfoldable pub put_tasks : (ti : ℕ) → List Task → Dict V → Dict V
  unfolding put_cases
  put_tasks ti [] d = d
  put_tasks ti (t ∷ ts) d = put_tasks (ti + 1) ts (put_cases ti 0 (pos_part t.case_count) d)

unfoldable pub make_all_cases_result : Meta → Text → Text → Dict CaseResult
make_all_cases_result meta status stderr =
    put_tasks (make_case_result status stderr) 0 meta.tasks []
