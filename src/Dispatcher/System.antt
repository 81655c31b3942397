-- ===== src/Dispatcher/System.antt =====
-- dispatcher/dispatcher.py, the threads together: requests, the loop of run, and the threads that it
-- starts, in any order. A case has two steps, between which others come.
-- The relation has more runs than the code: after a turn that crashes, stops or blocks there are
-- further rounds. The rest of a put that blocks, should another thread make room for it, is not in it.
pub mod Invariant
pub mod Overrun
use sandbox_2025team.Dispatcher.Phases.{entering, leaving}
use sandbox_2025team.Meta.{Language}
use sandbox_2025team.Dispatcher.Threads.{BuildEnv, compile_thread, build_thread}
use sandbox_2025team.Dispatcher.Handle.{handle}
use sandbox_2025team.Base.Text.{Text}
use sandbox_2025team.Dispatcher.Prepare.{HandleEnv}
use sandbox_2025team.Results.{RunnerResult}
use sandbox_2025team.Errors.{Result}
use sandbox_2025team.Dispatcher.State.{
  State, CaseArgs, Results, Thread, building, compiling, running, inc_container,
}
use sandbox_2025team.Dispatcher.Container.{CaseEnv, create_container}
use sandbox_2025team.Dispatcher.Loop.{LoopEnv, round}
use sandbox_2025team.Base.{ℕ, [], List, Bool, ◌≡◌, ◌++◌, ◌∷◌, none, some}

-- A case whose container runs: its thread is between inc_container and dec_container.
pub record Inside : Type 0 where
  pub env : CaseEnv
  pub args : CaseArgs
  pub outcome : Result RunnerResult

pub record System : Type 0 where
  pub state : State
  pub inside : List Inside

-- The thread at this place has been taken off the ones that wait to go on.
abbrev pub left_with : State → List Thread → State
left_with s threads = record s { threads = threads }

pub data Step : System → System → Type 0 where
  -- One round of run.
  dispatch :
      (env : LoopEnv) (s : State) (inside : List Inside)
      → Step
          (record { state = s; inside = inside })
          (record { state = (round env s).1; inside = inside })
  -- A call of handle by the web application.
  request :
      (env : HandleEnv) (checker scorer sid : Text) (p : ℕ) (is_trial : Bool) (s : State)
      (inside : List Inside)
      → Step
          (record { state = s; inside = inside })
          (record { state = (handle env checker scorer sid p is_trial s).1; inside = inside })
  -- The thread of a compilation or of a build.
  compiles :
      (env : BuildEnv) (sid : Text) (lang : Language) (before after : List Thread) (s : State)
      (inside : List Inside)
      → s.threads ≡ before ++ compiling sid lang ∷ after
      → Step
          (record { state = s; inside = inside })
          (record {
            state = (compile_thread env sid lang (left_with s (before ++ after))).1;
            inside = inside;
          })
  builds :
      (env : BuildEnv) (sid : Text) (lang : Language) (before after : List Thread) (s : State)
      (inside : List Inside)
      → s.threads ≡ before ++ building sid lang ∷ after
      → Step
          (record { state = s; inside = inside })
          (record {
            state = (build_thread env sid (left_with s (before ++ after))).1;
            inside = inside;
          })
  -- A case that does not get as far as its container.
  ends_early :
      (env : CaseEnv) (args : CaseArgs) (before after : List Thread) (s : State)
      (inside : List Inside)
      → s.threads ≡ before ++ running args ∷ after
      → entering env args s ≡ none
      → Step
          (record { state = s; inside = inside })
          (record {
            state = (create_container env args (left_with s (before ++ after))).1;
            inside = inside;
          })
  enters :
      (env : CaseEnv) (args : CaseArgs) (outcome : Result RunnerResult) (before after : List Thread)
      (s : State) (inside : List Inside)
      → s.threads ≡ before ++ running args ∷ after
      → entering env args s ≡ some outcome
      → Step
          (record { state = s; inside = inside })
          (record {
            state = inc_container (left_with s (before ++ after));
            inside = inside ++ record { env = env; args = args; outcome = outcome } ∷ [];
          })
  leaves :
      (case : Inside) (before after : List Inside) (s : State)
      → Step
          (record { state = s; inside = before ++ case ∷ after })
          (record {
            state = (leaving case.env case.args case.outcome s).1;
            inside = before ++ after;
          })

-- What the steps lead to from a dispatcher that has just been made.
pub data Reachable (start : State) : System → Type 0 where
  begins : Reachable start (record { state = start; inside = [] })
  goes_on : (m n : System) → Reachable start m → Step m n → Reachable start n
