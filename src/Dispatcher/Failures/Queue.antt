-- ===== src/Dispatcher/Failures/Queue.antt =====
-- What the end of a submission does to the queue: nothing, or the removal of its jobs.
use sandbox_2025team.Grouping.{group}
use sandbox_2025team.Errors.{Result-cases}
use sandbox_2025team.Dict.{lookup, Dict, insert, has_key}
use sandbox_2025team.Meta.{Meta}
use sandbox_2025team.Json.{Json}
use sandbox_2025team.Results.{CaseResult, make_all_cases_result}
use sandbox_2025team.Dispatcher.Scorer.{Env, run_custom_scorer_if_needed}
use sandbox_2025team.Base.Text.{Text, text_eq, text_eq_iff}
use sandbox_2025team.Dispatcher.Failures.{
  on_case_complete, handle_sa_failure, note_payload, mark_submission_failed, Env, Json, CaseResult,
  lookup, Results, Dict, truthy_json, all_done, is_unfinished, make_all_cases_result,
}
use sandbox_2025team.Dispatcher.Complete.{
  complete_with, send, on_submission_complete, after_put, finally_release, release,
}
use sandbox_2025team.Dispatcher.State.{
  clear_submission_jobs, State, job_id, Results, Scoring, Job, is_unfinished,
}
use sandbox_2025team.Base.{
  ◌≡◌, Option, All, refl, Option-cases, if◌then◌else◌, ◌≢◌, some, none, List, keep, inl, Bool-cases,
  inr, not, ◌∷◌, ◌∙◌, [], arith,
}

-- The queue, its maximum and the number of containers are as they were.
pub record SameQueue (s t : State) : Type 0 where
  pub queue : t.queue ≡ s.queue
  pub maximum : t.max_task_count ≡ s.max_task_count
  pub count : t.container_count ≡ s.container_count

send-SameQueue :
    (env : Env) (sid : Text) (lists : List (List (Option CaseResult)))
    (scoring : Option Scoring × Option Text) (s : State)
    → SameQueue s (send env sid lists scoring s).1
unfolding send after_put finally_release release
send-SameQueue env sid lists (scoring, override) s = record {
  queue = refl;
  maximum = refl;
  count = refl;
}

SameQueue-refl : (s : State) → SameQueue s s
SameQueue-refl s = record { queue = refl; maximum = refl; count = refl }

complete_with-SameQueue :
    (env : Env) (sid : Text) (meta : Meta) (results : Results) (s : State)
    → SameQueue s (complete_with env sid meta results s).1
unfolding complete_with
complete_with-SameQueue env sid meta results s = elim (Result-cases (group results)) [
  | inr (x, e) ↦ rw (e, complete_with) (SameQueue-refl s)
  | inl (lists, e) ↦ elim (Result-cases (run_custom_scorer_if_needed env sid meta lists s)) [
    | inr (x, f) ↦ rw (e, complete_with) (rw f (SameQueue-refl s))
    | inl (scoring, f) ↦ rw (e, complete_with) (rw f (send-SameQueue env sid lists scoring s))
  ]
]

pub on_submission_complete-SameQueue :
    (env : Env) (sid : Text) (s : State) → SameQueue s (on_submission_complete env sid s).1
unfolding on_submission_complete
on_submission_complete-SameQueue env sid s = elim (Option-cases (lookup sid s.result)) [
  | inl e ↦ rw (e, on_submission_complete) (SameQueue-refl s)
  | inr ((meta, results), e) ↦ elim (Bool-cases s.testing) [
    | inl t ↦ rw (e, on_submission_complete) (rw t (SameQueue-refl _))
    | inr t ↦ rw (e, on_submission_complete) (rw t (complete_with-SameQueue env sid meta results _))
  ]
]

pub mark_submission_failed-SameQueue :
    (env : Env) (sid status message : Text) (s : State)
    → SameQueue s (mark_submission_failed env sid status message s).1
unfolding mark_submission_failed
mark_submission_failed-SameQueue env sid status message s =
    elim (Option-cases (lookup sid s.result)) [
      | inl e ↦ rw (e, mark_submission_failed) (SameQueue-refl s)
      | inr ((meta, results), e) ↦
          let failed =
            insert sid (meta, all_done (make_all_cases_result meta status message)) s.result in
          let same = on_submission_complete-SameQueue env sid (record s { result = failed }) in
          rw (e, mark_submission_failed)
            (record { queue = same.queue; maximum = same.maximum; count = same.count })
    ]

note_payload-SameQueue :
    (sid : Text) (payload : Option Json) (s : State) → SameQueue s (note_payload sid payload s)
unfolding note_payload
note_payload-SameQueue sid none s = SameQueue-refl s
note_payload-SameQueue sid (some v) s = record { queue = refl; maximum = refl; count = refl }

pub noted-SameQueue :
    (sid : Text) (payload : Option Json) (s : State)
    → SameQueue s (if truthy_json payload then note_payload sid payload s else s)
noted-SameQueue sid payload s = elim (Bool-cases (truthy_json payload)) [
  | inl t ↦ rw t (note_payload-SameQueue sid payload s)
  | inr f ↦ rw f (SameQueue-refl s)
]

pub handle_sa_failure-SameQueue :
    (env : Env) (sid : Text) (payload : Option Json) (content : Dict CaseResult) (s : State)
    → SameQueue s (handle_sa_failure env sid payload content s).1
unfolding handle_sa_failure
handle_sa_failure-SameQueue env sid payload content s = elim (Option-cases (lookup sid s.result)) [
  | inl e ↦ rw (e, handle_sa_failure) (SameQueue-refl s)
  | inr ((meta, results), e) ↦
      let noted = if truthy_json payload then note_payload sid payload s else s in
      let before = noted-SameQueue sid payload s in
      let same =
        on_submission_complete-SameQueue env sid
          (record noted { result = insert sid (meta, all_done content) s.result }) in
      rw (e, handle_sa_failure)
        (record {
          queue = same.queue ∙ before.queue;
          maximum = same.maximum ∙ before.maximum;
          count = same.count ∙ before.count;
        })
]

pub on_case_complete-SameQueue :
    (env : Env) (sid number : Text) (r : CaseResult) (s : State)
    → SameQueue s (on_case_complete env sid number r s).1
unfolding on_case_complete
on_case_complete-SameQueue env sid number r s = elim (Option-cases (lookup sid s.result)) [
  | inl e ↦ rw (e, on_case_complete) (SameQueue-refl s)
  | inr ((meta, results), e) ↦
      let filled = insert number (some r) results in
      let next = record s { result = insert sid (meta, filled) s.result } in
      let same = on_submission_complete-SameQueue env sid next in
      elim (Bool-cases (has_key number results)) [
        | inr absent ↦ rw (e, on_case_complete) (rw absent (SameQueue-refl s))
        | inl there ↦ elim (Bool-cases (is_unfinished filled)) [
          | inl more ↦
              rw (e, on_case_complete)
                (rw there (rw more (record { queue = refl; maximum = refl; count = refl })))
          | inr last ↦
              rw (e, on_case_complete)
                (rw there (
                  rw last
                    (record { queue = same.queue; maximum = same.maximum; count = same.count })))
        ]
      ]
]

abbrev pub jobs_of : Text → List Job → List Job
jobs_of j jobs = keep (λ job. text_eq (job_id job) j) jobs

abbrev without : Text → List Job → List Job
without sid jobs = keep (λ job. not (text_eq (job_id job) sid)) jobs

without-ne : (sid : Text) (jobs : List Job) → All (λ job. job_id job ≢ sid) (without sid jobs)
without-ne sid [] = tt
without-ne sid (job ∷ jobs) = elim (Bool-cases (text_eq (job_id job) sid)) [
  | inl same ↦ rw same (without-ne sid jobs)
  | inr other ↦
      rw other ((λ e. ground (arith, text_eq_iff (job_id job) sid, other)), without-ne sid jobs)
]

jobs_of-without :
    (sid j : Text) (jobs : List Job) → j ≢ sid → jobs_of j (without sid jobs) ≡ jobs_of j jobs
jobs_of-without sid j [] h = refl
jobs_of-without sid j (job ∷ jobs) h =
    ground (
      arith,
      text_eq_iff (job_id job) sid,
      text_eq_iff (job_id job) j,
      jobs_of-without sid j jobs h,
    )

-- _clear_submission_jobs leaves no job of the submission in the queue, and the jobs of each other
-- submission as they were, in their order.
clear_submission_jobs_lem :
    (sid : Text) (s : State)
    → All (λ job. job_id job ≢ sid) (clear_submission_jobs sid s).queue
      × ((j : Text) → j ≢ sid → jobs_of j (clear_submission_jobs sid s).queue ≡ jobs_of j s.queue)
unfolding clear_submission_jobs
clear_submission_jobs_lem sid s = (without-ne sid s.queue, λ j h. jobs_of-without sid j s.queue h)
