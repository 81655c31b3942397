-- ===== src/Dispatcher/Loop/Turns.antt =====
-- The turns of the loop that start no thread.
use sandbox_2025team.Results.{CaseResult}
use sandbox_2025team.Dict.{Dict}
use sandbox_2025team.Json.{Json}
use sandbox_2025team.Meta.{Meta}
use sandbox_2025team.Dispatcher.State.{State, Job}
use sandbox_2025team.Base.Text.{Text}
use sandbox_2025team.Errors.{Result}
use sandbox_2025team.Dispatcher.Loop.{
  analysis_broke, after_failure, set_up_network, Analysis, put_back, enqueue_all, LoopEnv, analyse,
  Turn, State, Text, broken, Job, prepared, Meta, turn_of, started, refused, ok, raise, enqueue,
  Json, Dict, done, is_exception, CaseResult, analysed,
}
use sandbox_2025team.Dispatcher.Prepare.{Prepared, prepared, refused}
use sandbox_2025team.Base.{
  ℕ, List, ◌≡◌, ◌≢◌, ◌⊎◌, ◌∷◌, Option-cases, inl, Bool, inr, Option, refl, [], Bool-cases,
}

pub put_back-turn :
    (turn : Turn) (job : Job) (s : State) → turn ≢ started → (put_back turn job s).0 ≢ started
unfolding put_back
put_back-turn turn job s h = elim (Option-cases (enqueue job s)) [
  | inl full ↦ rw (full, put_back) (λ e. cc)
  | inr (s', put) ↦ rw (put, put_back) h
]

enqueue_all-turn : (jobs : List Job) (s : State) → (enqueue_all jobs s).0 ≢ started
unfolding enqueue_all
enqueue_all-turn [] s = λ e. cc
enqueue_all-turn (job ∷ jobs) s = elim (Option-cases (enqueue job s)) [
  | inl full ↦ rw (full, enqueue_all) (λ e. cc)
  | inr (s', put) ↦ rw (put, enqueue_all) (enqueue_all-turn jobs s')
]

turn_of-ne : (r : Result (Unit {0}) × State) → (turn_of r).0 ≢ started
turn_of-ne (ok _, s) e = cc
turn_of-ne (raise x, s) e = cc

after_failure-turn :
    (env : LoopEnv) (sid : Text) (meta : Meta) (r : Result (Unit {0}) × State)
    → (after_failure env sid meta r).0 ≢ started
unfolding after_failure analysis_broke
after_failure-turn env sid meta (ok _, s) = λ e. cc
after_failure-turn env sid meta (raise x, s) = elim (Bool-cases (is_exception x)) [
  | inl caught ↦ rw (caught, after_failure) (turn_of-ne _)
  | inr escapes ↦ rw (escapes, after_failure) (λ e. cc)
]

pub Analysis-cases :
    (a : Analysis)
    → ((reason : Text) × (a ≡ broken reason))
      ⊎ ((success : Bool) × (payload : Option Json) × (content : Dict CaseResult) × (a
            ≡ analysed success payload content))
Analysis-cases (broken reason) = inl (reason, refl)
Analysis-cases (analysed success payload content) = inr (success, payload, content, refl)

pub Prepared-cases :
    {A : Type 0} (p : Prepared A)
    → ((a : A) × (p ≡ prepared a)) ⊎ ((message : Text) × (p ≡ refused message))
Prepared-cases (prepared a) = inl (a, refl)
Prepared-cases (refused message) = inr (message, refl)

pub analyse-turn :
    (env : LoopEnv) (sid : Text) (p : ℕ) (meta : Meta) (s : State)
    → (analyse env sid p meta s).0 ≢ started
unfolding analysis_broke analyse
analyse-turn env sid p meta s = elim (Analysis-cases env.analysis) [
  | inl (reason, e) ↦ rw (e, analyse) (turn_of-ne _)
  | inr (success, payload, content, e) ↦ elim (Bool-cases success) [
    | inl good ↦ rw (e, analyse) (rw good (put_back-turn done _ _ (λ d. cc)))
    | inr bad ↦ rw (e, analyse) (rw bad (after_failure-turn env sid meta _))
  ]
]

pub set_up_network-turn :
    (env : LoopEnv) (sid : Text) (s : State) → (set_up_network env sid s).0 ≢ started
unfolding set_up_network
set_up_network-turn env sid s = elim (Prepared-cases env.network) [
  | inl (_, e) ↦ rw (e, set_up_network) (enqueue_all-turn _ _)
  | inr (message, e) ↦ rw (e, set_up_network) (turn_of-ne _)
]
