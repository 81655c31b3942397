-- ===== src/Dispatcher/Failures/Reported.antt =====
-- A submission whose cases all complete is reported.
use sandbox_2025team.Dispatcher.Complete.Sending.{on_submission_complete_reports}
use sandbox_2025team.Grouping.Complete.{chunks, group-eq-chunks}
use sandbox_2025team.Dispatcher.Complete.{report_of}
use sandbox_2025team.Dispatcher.Failures.Cases.{
  IsDistinct, AllMissing, missing, filled_by, complete_cases, keys-filled_by, complete_cases_lem,
}
use sandbox_2025team.Results.AllCases.{all_cases}
use sandbox_2025team.Base.Int.{pos_part}
use sandbox_2025team.Errors.{ok}
use sandbox_2025team.Dict.Laws.{lookup-insert_ne, insert_same, lookup-insert_self}
use sandbox_2025team.Results.{CaseResult}
use sandbox_2025team.Dict.{Dict, insert, lookup, keys, values}
use sandbox_2025team.Dispatcher.Complete.Forget.{AgreeOn, IsReported}
use sandbox_2025team.Dispatcher.State.{State, Report, Results, info_of}
use sandbox_2025team.Meta.{Meta}
use sandbox_2025team.Dispatcher.Scorer.{Env, run_custom_scorer_if_needed}
use sandbox_2025team.Base.Text.{Text}
use sandbox_2025team.Base.{
  List, Option, ◌≢◌, ◌∙◌, refl, ◌≡◌, false, some, length, ◌≤◌, none, All, ◌<◌, ap, sym,
}

AgreeOn-insert :
    (sid j : Text) (v : Meta × Results) (s : State)
    → sid ≢ j
    → AgreeOn j s (record s { result = insert sid v s.result })
AgreeOn-insert sid j v s h = record {
  result = lookup-insert_ne sid j v s.result h;
  locks = refl;
  compile_locks = refl;
  compile_results = refl;
  created_at = refl;
  problem_ids = refl;
  sa_payloads = refl;
  pending_tasks = refl;
  prebuilt = refl;
  build_strategies = refl;
  build_plans = refl;
  build_locks = refl;
  custom_checker_info = refl;
  custom_scorer_info = refl;
  checker_payloads = refl;
  resource_dirs = refl;
  teacher_resource_dirs = refl;
  trial = refl;
}

AgreeOn-trans : {j : Text} {s t u : State} → AgreeOn j s t → AgreeOn j t u → AgreeOn j s u
AgreeOn-trans a b = record {
  result = b.result ∙ a.result;
  locks = b.locks ∙ a.locks;
  compile_locks = b.compile_locks ∙ a.compile_locks;
  compile_results = b.compile_results ∙ a.compile_results;
  created_at = b.created_at ∙ a.created_at;
  problem_ids = b.problem_ids ∙ a.problem_ids;
  sa_payloads = b.sa_payloads ∙ a.sa_payloads;
  pending_tasks = b.pending_tasks ∙ a.pending_tasks;
  prebuilt = b.prebuilt ∙ a.prebuilt;
  build_strategies = b.build_strategies ∙ a.build_strategies;
  build_plans = b.build_plans ∙ a.build_plans;
  build_locks = b.build_locks ∙ a.build_locks;
  custom_checker_info = b.custom_checker_info ∙ a.custom_checker_info;
  custom_scorer_info = b.custom_scorer_info ∙ a.custom_scorer_info;
  checker_payloads = b.checker_payloads ∙ a.checker_payloads;
  resource_dirs = b.resource_dirs ∙ a.resource_dirs;
  teacher_resource_dirs = b.teacher_resource_dirs ∙ a.teacher_resource_dirs;
  trial = b.trial ∙ a.trial;
}

-- What was reported from a state that differs in the results of the submission alone.
IsReported-insert :
    (sid : Text) (report : Report) (v : Meta × Results) (s t : State)
    → IsReported sid report (record s { result = insert sid v s.result }) t
    → IsReported sid report s t
IsReported-insert sid report v s t r = record {
  gone = r.gone;
  not_trial = r.not_trial;
  sent = r.sent;
  others = λ j h. AgreeOn-trans (AgreeOn-insert sid j v s h) (r.others j h);
  queue = r.queue;
}

unscored :
    (env : Env) (sid : Text) (meta : Meta) (lists : List (List (Option CaseResult))) (s : State)
    → (info_of sid s.custom_scorer_info).enabled ≡ false
    → run_custom_scorer_if_needed env sid meta lists s ≡ ok (none, none)
unfolding run_custom_scorer_if_needed
unscored env sid meta lists s h = rw h

-- Outside of testing, a registered submission without a scorer, of at most a hundred tasks that
-- each have a case, whose missing cases, at least one, complete once each, in any order, is
-- reported exactly once, with the results of each task in order, and then forgotten; no other
-- submission and no job is touched.
pub complete_cases-IsReported :
    (env : Env) (sid : Text) (meta : Meta) (s : State) (results : Results) (cs : Dict CaseResult)
    → lookup sid s.result ≡ some (meta, results)
    → s.testing ≡ false
    → (info_of sid s.custom_scorer_info).enabled ≡ false
    → length meta.tasks ≤ 100
    → All (λ t. 0 < pos_part t.case_count) meta.tasks
    → keys results ≡ all_cases 0 meta.tasks
    → IsDistinct cs
    → AllMissing results cs
    → length cs ≡ missing results
    → 0 < missing results
    → IsReported sid
        (report_of sid (chunks meta.tasks (values (filled_by cs results))) none none s)
        s
        (complete_cases env sid cs s)
unfolding report_of
complete_cases-IsReported env sid meta s results cs found live off hundred cases named distinct
      open_ all some_missing =
    let same : record s { result = insert sid (meta, results) s.result } ≡ s =
      ap (λ (m : Dict (Meta × Results)). record s { result = m })
        (insert_same sid (meta, results) s.result found) in
    let filled = filled_by cs results in
    let lists = chunks meta.tasks (values filled) in
    let last = record s { result = insert sid (meta, filled) s.result } in
    let grouped =
      group-eq-chunks meta.tasks filled hundred cases
        (keys-filled_by cs results distinct open_ ∙ named) in
    let reported =
      on_submission_complete_reports env sid last meta filled
        (lookup-insert_self sid (meta, filled) s.result) live lists (none, none) grouped
        (unscored env sid meta lists last off) in
    let ends = complete_cases_lem env sid meta s cs results distinct open_ all some_missing in
    let start = ap (complete_cases env sid cs) same in
    IsReported-insert sid _ (meta, filled) s _ (rw (sym start ∙ ends) reported)
