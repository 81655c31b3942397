-- ===== src/Dispatcher/Failures/Cases.antt =====
-- The cases of a submission complete one by one, in any order.
use sandbox_2025team.Dispatcher.Complete.{on_submission_complete}
use sandbox_2025team.Errors.{ok, Result}
use sandbox_2025team.Dict.Laws.{
  lookup-insert, keys-insert, has_key_found, lookup-insert_self, insert-insert,
}
use sandbox_2025team.Dispatcher.Failures.{on_case_complete, ok, on_submission_complete, Result}
use sandbox_2025team.Meta.{Meta}
use sandbox_2025team.Results.{CaseResult}
use sandbox_2025team.Base.Text.{Text, text_eq_iff}
use sandbox_2025team.Dispatcher.Scorer.{Env}
use sandbox_2025team.Dict.{has_key, Dict, insert, lookup, keys}
use sandbox_2025team.Dispatcher.State.{Results, is_unfinished, State}
use sandbox_2025team.Base.{
  ℕ, ◌∷◌, [], ◌≡◌, suc, false, true, some, ◌↔◌, arith, ◌∙◌, none, if◌then◌else◌, ◌<◌, ◌+◌, refl,
  length, ap,
}

-- The calls of on_case_complete, in the order in which the threads get the submission's lock.
pub complete_cases : Env → Text → Dict CaseResult → State → State
complete_cases env sid [] s = s
complete_cases env sid ((k, r) ∷ cs) s =
    complete_cases env sid cs (on_case_complete env sid k r s).1

-- The results behind these calls.
pub filled_by : Dict CaseResult → Results → Results
filled_by [] results = results
filled_by ((k, r) ∷ cs) results = filled_by cs (insert k (some r) results)

-- The number of cases that have no result.
unfoldable pub missing : Results → ℕ
missing [] = 0
missing ((k, none) ∷ d) = suc (missing d)
missing ((k, some r) ∷ d) = missing d

abbrev pub IsDistinct : Dict CaseResult → Type 0
IsDistinct [] = Unit
IsDistinct ((k, r) ∷ cs) = (has_key k cs ≡ false) × IsDistinct cs

abbrev pub AllMissing : Results → Dict CaseResult → Type 0
AllMissing results [] = Unit
AllMissing results ((k, r) ∷ cs) = (lookup k results ≡ some none) × AllMissing results cs

missing-insert :
    (k : Text) (r : CaseResult) (results : Results)
    → lookup k results ≡ some none
    → missing (insert k (some r) results) + 1 ≡ missing results
unfolding missing insert lookup
missing-insert k r [] h = ground arith
missing-insert k r ((j, none) ∷ d) h = ground (arith, missing-insert k r d)
missing-insert k r ((j, some q) ∷ d) h = ground (arith, missing-insert k r d)

is_unfinished-missing : (results : Results) → (is_unfinished results ≡ true) ↔ (0 < missing results)
unfolding missing is_unfinished
is_unfinished-missing [] = ground arith
is_unfinished-missing ((j, none) ∷ d) = ground arith
is_unfinished-missing ((j, some q) ∷ d) = is_unfinished-missing d

AllMissing-insert :
    (k : Text) (r : CaseResult) (results : Results) (cs : Dict CaseResult)
    → has_key k cs ≡ false
    → AllMissing results cs
    → AllMissing (insert k (some r) results) cs
unfolding has_key
AllMissing-insert k r results [] h m = tt
AllMissing-insert k r results ((j, q) ∷ cs) h (m, ms) = (
  ground (arith, lookup-insert k j (some r) results, text_eq_iff k j, text_eq_iff j k),
  AllMissing-insert k r results cs (ground arith) ms,
)

pub keys-filled_by :
    (cs : Dict CaseResult) (results : Results)
    → IsDistinct cs
    → AllMissing results cs
    → keys (filled_by cs results) ≡ keys results
unfolding filled_by
keys-filled_by [] results d m = refl
keys-filled_by ((k, r) ∷ cs) results (d, ds) (m, ms) =
    keys-filled_by cs (insert k (some r) results) ds (AllMissing-insert k r results cs d ms)
    ∙ keys-insert k (some r) results (has_key_found k none results m)

module _ (env : Env) (sid : Text) (meta : Meta) (s : State) where
  -- The state in which the submission has these results.
  abbrev holding : Results → State
  holding results = record s { result = insert sid (meta, results) s.result }

  holding_step :
      (k : Text) (r : CaseResult) (results : Results)
      → lookup k results ≡ some none
      → on_case_complete env sid k r (holding results) ≡ (
          if is_unfinished (insert k (some r) results)
          then (ok tt, holding (insert k (some r) results))
          else on_submission_complete env sid (holding (insert k (some r) results)))
  unfolding on_case_complete
  holding_step k r results h =
      rw (lookup-insert_self sid (meta, results) s.result, on_case_complete)
        (rw (has_key_found k none results h)
          (rw (insert-insert sid (meta, results) (meta, insert k (some r) results) s.result)))

  holding_last :
      (k : Text) (r : CaseResult) (results : Results)
      → lookup k results ≡ some none
      → is_unfinished (insert k (some r) results) ≡ false
      → on_case_complete env sid k r (holding results)
        ≡ on_submission_complete env sid (holding (insert k (some r) results))
  holding_last k r results h last = holding_step k r results h ∙ rw last

  holding_more :
      (k : Text) (r : CaseResult) (results : Results)
      → lookup k results ≡ some none
      → is_unfinished (insert k (some r) results) ≡ true
      → on_case_complete env sid k r (holding results)
        ≡ (ok tt, holding (insert k (some r) results))
  holding_more k r results h more = holding_step k r results h ∙ rw more

  -- The submission completes with the last of its missing cases, and not before.
  pub complete_cases_lem :
      (cs : Dict CaseResult) (results : Results)
      → IsDistinct cs
      → AllMissing results cs
      → length cs ≡ missing results
      → 0 < missing results
      → complete_cases env sid cs (holding results)
        ≡ (on_submission_complete env sid (holding (filled_by cs results))).1
  unfolding complete_cases filled_by
  complete_cases_lem [] results d m n p = absurd (omega arith)
  complete_cases_lem ((k, r) ∷ []) results d (m, ms) n p =
      let filled = insert k (some r) results in
      let last : is_unfinished filled ≡ false =
        ground (arith, missing-insert k r results m, is_unfinished-missing filled) in
      ap (λ (x : Result (Unit {0}) × State). x.1) (holding_last k r results m last)
  complete_cases_lem ((k, r) ∷ c ∷ cs) results (d, ds) (m, ms) n p =
      let filled = insert k (some r) results in
      let count = missing-insert k r results m in
      let more : is_unfinished filled ≡ true =
        ground (arith, count, is_unfinished-missing filled) in
      ap (λ (x : Result (Unit {0}) × State). complete_cases env sid (c ∷ cs) x.1)
        (holding_more k r results m more)
      ∙ complete_cases_lem (c ∷ cs) filled ds (AllMissing-insert k r results (c ∷ cs) d ms)
          (omega (arith, count)) (omega (arith, count))
