-- ===== src/Tests/Data.antt =====
-- A submission, its environment and a dispatcher for the tests.
use sandbox_2025team.Json.{int}
use sandbox_2025team.Errors.{ok}
use sandbox_2025team.Scorer.{ScorerRun}
use sandbox_2025team.Base.Int.{pos}
use sandbox_2025team.Dispatcher.Prepare.{HandleEnv, prepared, refused}
use sandbox_2025team.Dispatcher.State.{State, Results}
use sandbox_2025team.Dispatcher.Scorer.{Env, replied}
use sandbox_2025team.Base.Text.{Text, codes, text_eq}
use sandbox_2025team.Meta.{Meta, Language, Task, py, AcceptedFormat, ExecutionMode, BuildStrategy}
use sandbox_2025team.Dispatcher.Loop.{LoopEnv, broken}
use sandbox_2025team.Results.{CaseResult, make_case_result}
use sandbox_2025team.Base.{false, List, true, if◌then◌else◌, [], ◌∷◌, none, some}

abbrev pub sid : Text
sid = codes "s1"

abbrev pub other_sid : Text
other_sid = codes "s2"

abbrev pub easy : Task
easy = record {
  task_score = pos 40;
  memory_limit = pos 1000;
  time_limit = pos 1000;
  case_count = pos 2;
}

abbrev pub hard : Task
hard = record {
  task_score = pos 60;
  memory_limit = pos 1000;
  time_limit = pos 1000;
  case_count = pos 1;
}

abbrev pub no_cases : Task
no_cases = record {
  task_score = pos 0;
  memory_limit = pos 1000;
  time_limit = pos 1000;
  case_count = pos 0;
}

abbrev pub meta_of : Language → List Task → Meta
meta_of language tasks = record {
  language = language;
  tasks = tasks;
  accepted_format = AcceptedFormat.code;
  execution_mode = ExecutionMode.general;
  build_strategy = BuildStrategy.compile;
  asset_paths = [];
  teacher_first = false;
  network_access_restriction = none;
  sidecars = [];
  custom_checker = false;
  checker_asset = none;
  scoring_script = false;
  scorer_asset = none;
  artifact_collection = [];
  resource_data = false;
  resource_data_teacher = false;
  allow_read = false;
  allow_write = false;
  ai_checker = none;
}

abbrev pub two_tasks : Meta
two_tasks = meta_of py (easy ∷ hard ∷ [])

abbrev pub with_gap : Meta
with_gap = meta_of py (no_cases ∷ no_cases ∷ hard ∷ [])

abbrev pub accepted : CaseResult
accepted = make_case_result (codes "AC") []

abbrev pub empty_state : State
empty_state = record {
  testing = false;
  do_run = true;
  max_task_count = 2;
  queue = [];
  result = [];
  locks = [];
  compile_locks = [];
  compile_results = [];
  problem_ids = [];
  max_container_size = 2;
  container_count = 0;
  custom_checker_info = [];
  custom_scorer_info = [];
  checker_payloads = [];
  created_at = [];
  prebuilt_submissions = [];
  build_strategies = [];
  build_plans = [];
  build_locks = [];
  sa_payloads = [];
  pending_tasks = [];
  resource_dirs = [];
  teacher_resource_dirs = [];
  trial_submissions = [];
  threads = [];
  reports = [];
  effects = [];
}

-- The submission has these results.
abbrev pub holding : Meta → Results → State
holding meta results = record empty_state { result = (sid, (meta, results)) ∷ [] }

abbrev pub scorer_prints : Text → ScorerRun
scorer_prints stdout = ScorerRun.finished stdout [] (pos 0)

-- The scorer prints 7, and json.loads reads nothing else.
abbrev pub env : Env
env = record {
  late_seconds = pos 0;
  run_scorer = λ input limit. scorer_prints (codes "7");
  loads = λ text. if text_eq text (codes "7") then some (int (pos 7)) else none;
  put = replied true;
  clean_fails = false;
  backup_fails = none;
}

abbrev pub loop_env : LoopEnv
loop_env = record {
  now = 0;
  analysis = broken (codes "no rules");
  network = prepared tt;
  network_mode = codes "none";
  completion = env;
  describe = λ x. codes "error";
}

abbrev pub handle_env : HandleEnv
handle_env = record {
  exists = true;
  is_dir = true;
  meta = ok two_tasks;
  checker = prepared none;
  scorer = prepared [];
  resource_data = prepared none;
  teacher_resource_data = prepared none;
  make_normal = refused [];
  make_interactive = refused [];
  make_function_only = refused [];
  now = 0;
  completion = env;
}
