-- ===== src/Tests/Loop.antt =====
-- The rounds of the dispatcher's loop.
use sandbox_2025team.Grouping.Split.{HasGap}
use sandbox_2025team.Runner.{only_status}
use sandbox_2025team.Dispatcher.Loop.Start.{MayStart, round-MayStart}
use sandbox_2025team.CaseNo.{case_no}
use sandbox_2025team.Dispatcher.Loop.Starvation.{IsIdle, rounds, IsStarved, rounds-IsStarved}
use sandbox_2025team.Base.Text.{text_eq, codes}
use sandbox_2025team.Tests.Data.{
  empty_state, with_gap, holding, loop_env, meta_of, sid, other_sid, hard, no_cases,
}
use sandbox_2025team.Dispatcher.Loop.Network.{set_up_network_blocks}
use sandbox_2025team.Dispatcher.Loop.Crash.{IsDead, analyse-IsDead}
use sandbox_2025team.Meta.{Meta, compile, py, c}
use sandbox_2025team.Dict.{lookup, contains, has_key}
use sandbox_2025team.Dispatcher.Loop.{
  round, take_job, set_up_network, analyse, blocked, gives_way, serve, start, awaits_compile,
  start_case,
}
use sandbox_2025team.Dispatcher.State.{
  State, Results, Job, compile, job_id, build, execute, is_timed_out, has_pending_normal_jobs,
  normal_pending, is_unfinished, is_build_pending, is_prebuilt_submission, compile_need,
}
use sandbox_2025team.Base.{List, All, none, [], ◌∷◌, ◌≡◌, arith, refl}

abbrev py_meta : Meta
py_meta = meta_of py (hard ∷ [])

abbrev one_open : Results
one_open = (case_no 0 0, none) ∷ []

-- A build job is first in the queue.
abbrev build_first : State
build_first = record (holding py_meta one_open) {
  queue = build sid ∷ [];
  created_at = (sid, 0) ∷ [];
}

-- The compiler has finished with the submission of the first case.
abbrev case_first : State
case_first = record (holding (meta_of c (hard ∷ [])) one_open) {
  queue = execute sid 0 0 ∷ build sid ∷ [];
  created_at = (sid, 0) ∷ [];
  compile_results = (sid, only_status (codes "AC")) ∷ [];
}

round-MayStart_example : MayStart loop_env case_first
unfolding round take_job lookup text_eq job_id is_timed_out has_key gives_way contains serve start
    is_build_pending awaits_compile is_prebuilt_submission compile_need start_case
round-MayStart_example = round-MayStart loop_env case_first refl

abbrev two_waiting : List Job
two_waiting = execute sid 0 0 ∷ execute sid 0 1 ∷ []

abbrev network_ready : State
network_ready = record empty_state { pending_tasks = (sid, two_waiting) ∷ [] }

abbrev crowded : State
crowded = record network_ready { queue = compile other_sid ∷ [] }

set_up_network_blocks_example : (set_up_network loop_env sid crowded).0 ≡ blocked
unfolding lookup text_eq
set_up_network_blocks_example =
    set_up_network_blocks loop_env sid crowded two_waiting refl refl (omega arith) (omega arith)
      (omega arith)

abbrev gap_of : HasGap with_gap.tasks
gap_of = record {
  before = [];
  empty_task = no_cases;
  between = no_cases ∷ [];
  filled = hard;
  after = [];
  split = refl;
  few = omega arith;
  no_case = refl;
  some_case = omega arith;
}

analyse-IsDead_example : IsDead sid (analyse loop_env sid 7 with_gap (holding with_gap []))
unfolding lookup text_eq
analyse-IsDead_example =
    analyse-IsDead loop_env sid 7 with_gap gap_of (omega arith) (holding with_gap []) [] tt refl
      refl

-- The normal submission misses a result; the queue holds a job of a trial submission.
abbrev starved : State
starved = record (holding py_meta one_open) {
  queue = compile other_sid ∷ [];
  trial_submissions = other_sid ∷ [];
}

starved-IsStarved : IsStarved starved
unfolding contains text_eq job_id has_pending_normal_jobs normal_pending is_unfinished
starved-IsStarved = record { trials = (refl, tt); pending = refl }

rounds-IsStarved_example :
    All IsIdle (rounds (loop_env ∷ loop_env ∷ []) starved).0
    × IsStarved (rounds (loop_env ∷ loop_env ∷ []) starved).1
rounds-IsStarved_example = rounds-IsStarved (loop_env ∷ loop_env ∷ []) starved starved-IsStarved
