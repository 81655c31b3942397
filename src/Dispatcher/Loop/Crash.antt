-- ===== src/Dispatcher/Loop/Crash.antt =====
-- A static analysis that fails for a submission whose results cannot be grouped.
use sandbox_2025team.Grouping.Split.{HasGap, HasGap-IsSplit}
use sandbox_2025team.Dispatcher.Loop.Turns.{Analysis-cases}
use sandbox_2025team.Dispatcher.Complete.Sending.{on_submission_complete_stuck}
use sandbox_2025team.Dict.Laws.{lookup-insert_self, has_key_found}
use sandbox_2025team.Dispatcher.Loop.{
  Analysis, turn_of, Turn, LoopEnv, analysis_broke, crashed, broken, analysed, after_failure,
  analyse, sys_err, is_exception,
}
use sandbox_2025team.Grouping.Gap.{group_gap}
use sandbox_2025team.Grouping.{group}
use sandbox_2025team.Json.{Json, truthy}
use sandbox_2025team.Dispatcher.State.{State, Results, contains_id}
use sandbox_2025team.Errors.{Result, Exn, raise, ok}
use sandbox_2025team.Results.AllCases.{entries, all_cases, put_tasks-eq-entries}
use sandbox_2025team.Meta.{Meta}
use sandbox_2025team.Dict.{Dict, keys, lookup, insert}
use sandbox_2025team.Results.{make_all_cases_result, CaseResult, make_case_result}
use sandbox_2025team.Base.Text.{Text, codes}
use sandbox_2025team.Dispatcher.Scorer.{Env}
use sandbox_2025team.Dispatcher.Failures.{all_done, handle_sa_failure, note_payload, truthy_json}
use sandbox_2025team.Base.{
  ℕ, true, List, length, ◌≡◌, ◌∷◌, ◌≤◌, [], ◌++◌, Option, ap, refl, ◌≢◌, ◌∙◌, some, false,
  if◌then◌else◌, Bool-cases, inl, inr, none,
}

keys-entries {ℓ} : {V : Type ℓ} (v : V) (ks : List Text) → keys (entries v ks) ≡ ks
keys-entries v [] = refl
keys-entries v (k ∷ ks) = ap (λ l. k ∷ l) (keys-entries v ks)

keys-all_done : (d : Dict CaseResult) → keys (all_done d) ≡ keys d
unfolding all_done
keys-all_done [] = refl
keys-all_done ((k, r) ∷ d) = ap (λ l. k ∷ l) (keys-all_done d)

-- The failure results have one entry for each case.
pub keys-make_all_cases_result :
    (meta : Meta) (status stderr : Text)
    → length meta.tasks ≤ 100
    → keys (make_all_cases_result meta status stderr) ≡ all_cases 0 meta.tasks
unfolding make_all_cases_result
keys-make_all_cases_result meta status stderr hundred =
    let v = make_case_result status stderr in
    ap keys (put_tasks-eq-entries v meta.tasks hundred) ∙ keys-entries v (all_cases 0 meta.tasks)

-- The end of handle_sa_failure for a submission that is registered.
record HasRaised (sid : Text) (meta : Meta) (r : Result (Unit {0}) × State) : Type 0 where
  error : Exn
  state : State
  raised : r ≡ (raise error, state)
  results : Results
  kept : lookup sid state.result ≡ some (meta, results)
  live : state.testing ≡ false

module _ (env : Env) (sid : Text) (meta : Meta) (gap : HasGap meta.tasks) where
  no_groups :
      (content : Dict CaseResult) (lists : List (List (Option CaseResult)))
      → keys content ≡ all_cases 0 meta.tasks
      → group (all_done content) ≢ ok lists
  no_groups content lists named =
      group_gap meta.tasks (HasGap-IsSplit meta.tasks gap) (all_done content) lists
        (keys-all_done content ∙ named)

  noted_live :
      (payload : Option Json) (s : State)
      → s.testing ≡ false
      → (if truthy_json payload then note_payload sid payload s else s).testing ≡ false
  unfolding note_payload
  noted_live none s live = live
  noted_live (some v) s live = elim (Bool-cases (truthy v)) [
    | inl t ↦ rw t live
    | inr f ↦ rw f live
  ]

  noted_result :
      (payload : Option Json) (s : State)
      → (if truthy_json payload then note_payload sid payload s else s).result ≡ s.result
  unfolding note_payload
  noted_result none s = refl
  noted_result (some v) s = elim (Bool-cases (truthy v)) [ inl t ↦ rw t refl | inr f ↦ rw f refl ]

  handle_sa_failure_raises :
      (payload : Option Json) (content : Dict CaseResult) (s : State) (results : Results)
      → keys content ≡ all_cases 0 meta.tasks
      → lookup sid s.result ≡ some (meta, results)
      → s.testing ≡ false
      → HasRaised sid meta (handle_sa_failure env sid payload content s)
  unfolding handle_sa_failure
  handle_sa_failure_raises payload content s results named found live =
      let noted = if truthy_json payload then note_payload sid payload s else s in
      let failed = record noted { result = insert sid (meta, all_done content) s.result } in
      let there = lookup-insert_self sid (meta, all_done content) s.result in
      let (x, stuck) =
        on_submission_complete_stuck env sid failed meta (all_done content) there
          (noted_live payload s live) (λ lists. no_groups content lists named) in
      record {
        error = x;
        state = failed;
        raised = rw (found, handle_sa_failure) stuck;
        results = all_done content;
        kept = there;
        live = noted_live payload s live;
      }

turn_of_raised :
    (sid : Text) (meta : Meta) (r : Result (Unit {0}) × State) (h : HasRaised sid meta r)
    → turn_of r ≡ (crashed h.error, h.state)
turn_of_raised sid meta r h = ap turn_of h.raised

-- The dispatcher's thread has ended by an exception, with the submission still registered.
pub record IsDead (sid : Text) (r : Turn × State) : Type 0 where
  pub error : Exn
  pub ended : r.0 ≡ crashed error
  pub registered : contains_id sid r.1 ≡ true

dead :
    (sid : Text) (r : Turn × State) (x : Exn) (t : State) (v : Meta × Results)
    → r ≡ (crashed x, t)
    → lookup sid t.result ≡ some v
    → IsDead sid r
dead sid r x t v e found = record {
  error = x;
  ended = ap (λ (q : Turn × State). q.0) e;
  registered =
      ap (λ (q : Turn × State). contains_id sid q.1) e ∙ has_key_found sid v t.result found;
}

-- The results that the static analysis has prepared for its failure have an entry for each case.
abbrev pub IsFailure : Meta → Analysis → Type 0
IsFailure meta (broken reason) = Unit
IsFailure meta (analysed success payload content) =
    (success ≡ false) × (keys content ≡ all_cases 0 meta.tasks)

module _ (env : LoopEnv) (sid : Text) (p : ℕ) (meta : Meta) (gap : HasGap meta.tasks)
    (hundred : length meta.tasks ≤ 100) where
  analysis_broke-IsDead :
      (reason : Text) (s : State) (results : Results)
      → lookup sid s.result ≡ some (meta, results)
      → s.testing ≡ false
      → IsDead sid (analysis_broke env sid meta reason s)
  unfolding analysis_broke
  analysis_broke-IsDead reason s results found live =
      let message = codes "Static Analysis Exception: " ++ reason in
      let content = make_all_cases_result meta (codes "AE") message in
      let h =
        handle_sa_failure_raises env.completion sid meta gap (some (sys_err message)) content s
          results (keys-make_all_cases_result meta (codes "AE") message hundred) found live in
      dead sid _ h.error h.state (meta, h.results) (turn_of_raised sid meta _ h) h.kept

  after_failure-IsDead :
      (r : Result (Unit {0}) × State)
      → HasRaised sid meta r
      → IsDead sid (after_failure env sid meta r)
  unfolding after_failure
  after_failure-IsDead r h = rw h.raised (elim (Bool-cases (is_exception h.error)) [
    | inl caught ↦ rw caught (analysis_broke-IsDead _ h.state h.results h.kept h.live)
    | inr escapes ↦ rw escapes (dead sid _ h.error h.state (meta, h.results) refl h.kept)
  ])

  -- If a task without a case stands before one that has cases, among at most a hundred tasks, a
  -- static analysis of a registered submission that fails or breaks ends the dispatcher's thread,
  -- outside of testing: the report of the failure raises, the handler of the exception reports
  -- again and raises again. The submission stays registered.
  pub analyse-IsDead :
      (s : State) (results : Results)
      → IsFailure meta env.analysis
      → lookup sid s.result ≡ some (meta, results)
      → s.testing ≡ false
      → IsDead sid (analyse env sid p meta s)
  unfolding analyse note_payload
  analyse-IsDead s results failure found live = elim (Analysis-cases env.analysis) [
    | inl (reason, e) ↦ rw (e, analyse) (analysis_broke-IsDead reason s results found live)
    | inr (success, payload, content, e) ↦
        let (bad, named) = rw e at failure in
        let noted = if truthy_json payload then note_payload sid payload s else s in
        let h =
          handle_sa_failure_raises env.completion sid meta gap payload content noted results named
            (ap (lookup sid) (noted_result env.completion sid meta gap payload s) ∙ found)
            (noted_live env.completion sid meta gap payload s live) in
        rw (e, analyse) (rw bad (after_failure-IsDead _ h))
  ]
