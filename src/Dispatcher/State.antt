-- ===== src/Dispatcher/State.antt =====
-- The state of a Dispatcher, its jobs (dispatcher/job.py) and the helpers that read one table.
use sandbox_2025team.Base.Int.{ℤ}
use sandbox_2025team.Base.{
  ℕ, ◌+◌, ◌-◌, ◌*◌, Bool, true, false, not, List, [], ◌∷◌, Option, none, some, ◌&&◌, ◌||◌, ltb, leb,
  if◌then◌else◌, length, any, keep, is_empty,
}
use sandbox_2025team.Base.Text.{Text, text_eq}
use sandbox_2025team.Dict.{Dict, lookup, has_key, values, contains}
use sandbox_2025team.Json.{Json}
use sandbox_2025team.Meta.{Language, c, cpp, py, ExecutionMode, BuildStrategy, Meta}
use sandbox_2025team.Results.{CaseResult, RunnerResult}
use sandbox_2025team.Scoring.{CheckerPayload}

-- The job classes; each one has the id of its submission.
pub data Job : Type 0 where
  compile build : (submission_id : Text) → Job
  execute : (submission_id : Text) → (task_id case_id : ℕ) → Job
  static_analysis network_setup : (submission_id : Text) → (problem_id : ℕ) → Job

unfoldable pub job_id : Job → Text
job_id (compile sid) = sid
job_id (build sid) = sid
job_id (execute sid t n) = sid
job_id (static_analysis sid p) = sid
job_id (network_setup sid p) = sid

-- How a call of code that is not modelled ends, where it returns nothing.
pub data Outcome : Type 0 where
  succeeds : Outcome
  build_error fails : Text → Outcome

-- dispatcher/build_strategy.py, BuildPlan: a closure is kept as what its call does.
pub record BuildPlan : Type 0 where
  pub needs_make : Bool
  pub lang_key : Option Text
  pub finalize : Option Outcome

-- The dicts of custom_checker_info and custom_scorer_info.
pub record AssetInfo : Type 0 where
  pub enabled : Bool
  pub error : Option Text
  pub path : Option Text
  pub image : Option Text

-- The body of the PUT request that reports a submission, with the endpoint that it goes to.
pub record Scoring : Type 0 where
  pub status : Text
  pub score : Json
  pub message : Json
  pub breakdown : Json
  pub stdout : Text
  pub stderr : Text

pub record Report : Type 0 where
  pub submission_id : Text
  pub to_trial : Bool
  pub tasks : List (List (Option CaseResult))
  pub static_analysis : Option Json
  pub checker : Option CheckerPayload
  pub scoring : Option Scoring
  pub status_override : Option Text

-- What the dispatcher asks of the file manager, the network controller and the artifact collector.
pub data Effect : Type 0 where
  clean_data backup_data upload_artifacts : (submission_id : Text) → Effect
  network_cleanup artifact_cleanup : (submission_id : Text) → Effect

-- A started thread, with the arguments of its target.
pub record CaseArgs : Type 0 where
  pub submission_id : Text
  pub case_no : Text
  pub memory_limit : ℤ
  pub time_limit : ℤ
  pub lang : Language
  pub execution_mode : ExecutionMode
  pub teacher_first : Bool
  pub network_mode : Text

pub data Thread : Type 0 where
  building compiling : (submission_id : Text) → Language → Thread
  running : CaseArgs → Thread

-- A result is None until its case is complete.
abbrev pub Results : Type 0
Results = Dict (Option CaseResult)

-- A lock is kept as whether it is held; the sets of ids are lists. `reports` and `effects` record
-- what the dispatcher sent and asked for.
pub record State : Type 0 where
  pub testing : Bool
  pub do_run : Bool
  pub max_task_count : ℕ
  pub queue : List Job
  pub result : Dict (Meta × Results)
  pub locks : Dict Bool
  pub compile_locks : Dict Bool
  pub compile_results : Dict RunnerResult
  pub problem_ids : Dict ℕ
  pub max_container_size : ℕ
  pub container_count : ℕ
  pub custom_checker_info : Dict AssetInfo
  pub custom_scorer_info : Dict AssetInfo
  pub checker_payloads : Dict CheckerPayload
  pub created_at : Dict ℕ
  pub prebuilt_submissions : List Text
  pub build_strategies : Dict BuildStrategy
  pub build_plans : Dict BuildPlan
  pub build_locks : Dict Bool
  pub sa_payloads : Dict Json
  pub pending_tasks : Dict (List Job)
  pub resource_dirs : Dict Text
  pub teacher_resource_dirs : Dict Text
  pub trial_submissions : List Text
  pub threads : List Thread
  pub reports : List Report
  pub effects : List Effect

unfoldable pub compile_need : Language → Bool
compile_need c = true
compile_need cpp = true
compile_need py = false

abbrev pub contains_id : Text → State → Bool
contains_id sid s = has_key sid s.result

abbrev pub is_none {ℓ} : {A : Type ℓ} → Option A → Bool
is_none none = true
is_none (some a) = false

-- `any(v is None for v in results.values())`.
unfoldable pub is_unfinished : Results → Bool
is_unfinished results = any is_none (values results)

-- The loop of _has_pending_normal_jobs over the submissions.
unfoldable pub normal_pending : List Text → Dict (Meta × Results) → Bool
normal_pending trials [] = false
normal_pending trials ((sid, (meta, results)) ∷ rest) =
    not (contains sid trials) && is_unfinished results || normal_pending trials rest

unfoldable pub has_pending_normal_jobs : State → Bool
has_pending_normal_jobs s = normal_pending s.trial_submissions s.result

-- Times are whole microseconds; the limit is 300 seconds. `none` is the KeyError of `created_at`.
unfoldable pub is_timed_out : ℕ → Text → State → Option Bool
is_timed_out now sid s =
    if contains_id sid s
    then (elim (lookup sid s.created_at) [
      | none ↦ none
      | some created ↦ some (ltb (300 * 1000000) (now - created))
    ])
    else some false

unfoldable pub is_prebuilt_submission : Text → State → Bool
is_prebuilt_submission sid s = contains sid s.prebuilt_submissions

unfoldable pub is_build_pending : Text → State → Bool
is_build_pending sid s = has_key sid s.build_plans

unfoldable pub is_sa_pending : Text → State → Bool
is_sa_pending sid s = has_key sid s.pending_tasks

unfoldable pub inc_container : State → State
inc_container s = record s { container_count = s.container_count + 1 }

-- Only ever called after `inc_container`, so the count does not fall below zero.
unfoldable pub dec_container : State → State
dec_container s = record s { container_count = s.container_count - 1 }

-- queue.Queue: a maximum of zero is no limit.
unfoldable pub is_full : State → Bool
is_full s = ltb 0 s.max_task_count && leb s.max_task_count (length s.queue)

-- _clear_submission_jobs takes every job off the queue and puts the others' back.
unfoldable pub clear_submission_jobs : Text → State → State
clear_submission_jobs sid s = record s {
  queue = keep (λ job. not (text_eq (job_id job) sid)) s.queue;
}

unfoldable pub empty_info : AssetInfo
empty_info = record { enabled = false; error = none; path = none; image = none }

-- `self.custom_checker_info.get(submission_id) or {}`.
unfoldable pub info_of : Text → Dict AssetInfo → AssetInfo
unfolding empty_info
info_of sid infos = elim (lookup sid infos) [ none ↦ empty_info | some info ↦ info ]

unfoldable pub use_custom_checker : Text → State → Bool
use_custom_checker sid s = (info_of sid s.custom_checker_info).enabled

unfoldable pub custom_checker_path : Text → State → Option Text
custom_checker_path sid s = (info_of sid s.custom_checker_info).path

-- The truth value of an optional text: None and "" are false.
abbrev pub truthy_text : Option Text → Bool
truthy_text none = false
truthy_text (some t) = not (is_empty t)
