-- ===== src/Dispatcher/Complete/Forget.antt =====
-- release() and the end of on_submission_complete: what is forgotten, and what stays.
use sandbox_2025team.Dict.Laws.{contains-discard, lookup-delete}
use sandbox_2025team.Dict.{Dict, lookup, contains, delete, discard}
use sandbox_2025team.Dispatcher.State.{Report, State}
use sandbox_2025team.Dispatcher.Complete.{release, Report, State}
use sandbox_2025team.Base.Text.{Text, text_eq, text_eq_refl, text_eq_iff}
use sandbox_2025team.Base.{◌≢◌, List, ◌≡◌, false, none, refl, arith, ◌++◌, ◌∷◌, []}

-- No table of the dispatcher has an entry for the submission; the trial set is not among them.
pub record IsGone (sid : Text) (s : State) : Type 0 where
  pub result : lookup sid s.result ≡ none
  pub locks : lookup sid s.locks ≡ none
  pub compile_locks : lookup sid s.compile_locks ≡ none
  pub compile_results : lookup sid s.compile_results ≡ none
  pub created_at : lookup sid s.created_at ≡ none
  pub problem_ids : lookup sid s.problem_ids ≡ none
  pub sa_payloads : lookup sid s.sa_payloads ≡ none
  pub pending_tasks : lookup sid s.pending_tasks ≡ none
  pub prebuilt : contains sid s.prebuilt_submissions ≡ false
  pub build_strategies : lookup sid s.build_strategies ≡ none
  pub build_plans : lookup sid s.build_plans ≡ none
  pub build_locks : lookup sid s.build_locks ≡ none
  pub custom_checker_info : lookup sid s.custom_checker_info ≡ none
  pub custom_scorer_info : lookup sid s.custom_scorer_info ≡ none
  pub checker_payloads : lookup sid s.checker_payloads ≡ none
  pub resource_dirs : lookup sid s.resource_dirs ≡ none
  pub teacher_resource_dirs : lookup sid s.teacher_resource_dirs ≡ none

-- Two states agree on every entry of a submission.
pub record AgreeOn (j : Text) (s t : State) : Type 0 where
  pub result : lookup j t.result ≡ lookup j s.result
  pub locks : lookup j t.locks ≡ lookup j s.locks
  pub compile_locks : lookup j t.compile_locks ≡ lookup j s.compile_locks
  pub compile_results : lookup j t.compile_results ≡ lookup j s.compile_results
  pub created_at : lookup j t.created_at ≡ lookup j s.created_at
  pub problem_ids : lookup j t.problem_ids ≡ lookup j s.problem_ids
  pub sa_payloads : lookup j t.sa_payloads ≡ lookup j s.sa_payloads
  pub pending_tasks : lookup j t.pending_tasks ≡ lookup j s.pending_tasks
  pub prebuilt : contains j t.prebuilt_submissions ≡ contains j s.prebuilt_submissions
  pub build_strategies : lookup j t.build_strategies ≡ lookup j s.build_strategies
  pub build_plans : lookup j t.build_plans ≡ lookup j s.build_plans
  pub build_locks : lookup j t.build_locks ≡ lookup j s.build_locks
  pub custom_checker_info : lookup j t.custom_checker_info ≡ lookup j s.custom_checker_info
  pub custom_scorer_info : lookup j t.custom_scorer_info ≡ lookup j s.custom_scorer_info
  pub checker_payloads : lookup j t.checker_payloads ≡ lookup j s.checker_payloads
  pub resource_dirs : lookup j t.resource_dirs ≡ lookup j s.resource_dirs
  pub teacher_resource_dirs : lookup j t.teacher_resource_dirs ≡ lookup j s.teacher_resource_dirs
  pub trial : contains j t.trial_submissions ≡ contains j s.trial_submissions

lookup-delete_self {ℓ} : {V : Type ℓ} (k : Text) (m : Dict V) → lookup k (delete k m) ≡ none
lookup-delete_self k m = simp (lookup-delete, text_eq_refl)

pub contains-discard_self : (k : Text) (l : List Text) → contains k (discard k l) ≡ false
contains-discard_self k l = simp (contains-discard, text_eq_refl)

pub text_eq_ne : (s t : Text) → s ≢ t → text_eq s t ≡ false
text_eq_ne s t h = ground (arith, text_eq_iff s t)

lookup-delete_ne {ℓ} :
    {V : Type ℓ} (k j : Text) (m : Dict V) → k ≢ j → lookup j (delete k m) ≡ lookup j m
lookup-delete_ne k j m h = rw (lookup-delete k j m, text_eq_ne k j h)

pub contains-discard_ne :
    (k j : Text) (l : List Text) → k ≢ j → contains j (discard k l) ≡ contains j l
contains-discard_ne k j l h = rw (contains-discard k j l, text_eq_ne k j h)

release-IsGone : (sid : Text) (s : State) → IsGone sid (release sid s)
unfolding release
release-IsGone sid s = record {
  result = lookup-delete_self sid s.result;
  locks = lookup-delete_self sid s.locks;
  compile_locks = lookup-delete_self sid s.compile_locks;
  compile_results = lookup-delete_self sid s.compile_results;
  created_at = lookup-delete_self sid s.created_at;
  problem_ids = lookup-delete_self sid s.problem_ids;
  sa_payloads = lookup-delete_self sid s.sa_payloads;
  pending_tasks = lookup-delete_self sid s.pending_tasks;
  prebuilt = contains-discard_self sid s.prebuilt_submissions;
  build_strategies = lookup-delete_self sid s.build_strategies;
  build_plans = lookup-delete_self sid s.build_plans;
  build_locks = lookup-delete_self sid s.build_locks;
  custom_checker_info = lookup-delete_self sid s.custom_checker_info;
  custom_scorer_info = lookup-delete_self sid s.custom_scorer_info;
  checker_payloads = lookup-delete_self sid s.checker_payloads;
  resource_dirs = lookup-delete_self sid s.resource_dirs;
  teacher_resource_dirs = lookup-delete_self sid s.teacher_resource_dirs;
}

release-AgreeOn : (sid j : Text) (s : State) → sid ≢ j → AgreeOn j s (release sid s)
unfolding release
release-AgreeOn sid j s h = record {
  result = lookup-delete_ne sid j s.result h;
  locks = lookup-delete_ne sid j s.locks h;
  compile_locks = lookup-delete_ne sid j s.compile_locks h;
  compile_results = lookup-delete_ne sid j s.compile_results h;
  created_at = lookup-delete_ne sid j s.created_at h;
  problem_ids = lookup-delete_ne sid j s.problem_ids h;
  sa_payloads = lookup-delete_ne sid j s.sa_payloads h;
  pending_tasks = lookup-delete_ne sid j s.pending_tasks h;
  prebuilt = contains-discard_ne sid j s.prebuilt_submissions h;
  build_strategies = lookup-delete_ne sid j s.build_strategies h;
  build_plans = lookup-delete_ne sid j s.build_plans h;
  build_locks = lookup-delete_ne sid j s.build_locks h;
  custom_checker_info = lookup-delete_ne sid j s.custom_checker_info h;
  custom_scorer_info = lookup-delete_ne sid j s.custom_scorer_info h;
  checker_payloads = lookup-delete_ne sid j s.checker_payloads h;
  resource_dirs = lookup-delete_ne sid j s.resource_dirs h;
  teacher_resource_dirs = lookup-delete_ne sid j s.teacher_resource_dirs h;
  trial = refl;
}

-- release() leaves no entry of the submission in any table, the set of trial submissions apart,
-- and changes no entry of another one.
pub release_forgets :
    (sid : Text) (s : State)
    → IsGone sid (release sid s) × ((j : Text) → sid ≢ j → AgreeOn j s (release sid s))
release_forgets sid s = (release-IsGone sid s, λ j h. release-AgreeOn sid j s h)

-- What the end of on_submission_complete has done to `s`.
pub record IsReported (sid : Text) (report : Report) (s t : State) : Type 0 where
  pub gone : IsGone sid t
  pub not_trial : contains sid t.trial_submissions ≡ false
  pub sent : t.reports ≡ s.reports ++ report ∷ []
  pub others : (j : Text) → sid ≢ j → AgreeOn j s t
  pub queue : t.queue ≡ s.queue
