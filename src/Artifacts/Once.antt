-- ===== src/Artifacts/Once.antt =====
-- A binary that came through after a build is not sent again with the artifacts.
use sandbox_2025team.Dict.Laws.{lookup-insert_self}
use sandbox_2025team.Dict.{has_key}
use sandbox_2025team.Artifacts.Upload.{Items}
use sandbox_2025team.Artifacts.{
  snapshot_before_case, Walked, Collector, FileNow, record_case_artifact, add_case_artifact,
  Members, Bytes, CaseTexts,
}
use sandbox_2025team.Artifacts.Upload.{
  upload_binary_only, upload_all, Upload, upload_cases, upload_last, upload, is_uploaded,
  collect_binary, case_upload, Sending, binary_upload, items_of, BinaryFile, tasks_of,
  start_sending, chosen_binary,
}
use sandbox_2025team.Base.{
  ℕ, true, false, [], ◌∷◌, refl, List, Bool, ◌≡◌, any, Bool-cases, Option-cases, ◌∙◌, arith,
  any-append, inl, inr,
}
use sandbox_2025team.Base.Text.{Text}

-- What the dispatcher does with a submission between the end of its build and the clean-up.
pub data Act : Type 0 where
  snapshot : (task_no number : ℕ) → Walked → Act
  record_case :
      (now : Text → FileNow) (zip_bytes : Members → Bytes) (task_no number : ℕ)
      → Walked
      → CaseTexts
      → Act
  collect : (main a_out : BinaryFile) → Act

unfoldable pub act : Text → Act → Collector → Collector
act sid (snapshot t n walked) c = snapshot_before_case sid t n walked c
act sid (record_case now zip_bytes t n walked texts) c =
    record_case_artifact now zip_bytes sid t n walked texts c
act sid (collect main a_out) c = collect_binary sid main a_out c

unfoldable pub act_all : Text → List Act → Collector → Collector
act_all sid [] c = c
act_all sid (a ∷ acts) c = act_all sid acts (act sid a c)

act-is_uploaded :
    (sid : Text) (a : Act) (c : Collector) → is_uploaded sid (act sid a c) ≡ is_uploaded sid c
unfolding act snapshot_before_case record_case_artifact add_case_artifact collect_binary
act-is_uploaded sid (snapshot t n walked) c = refl
act-is_uploaded sid (record_case now zip_bytes t n walked texts) c = refl
act-is_uploaded sid (collect main a_out) c = elim (Bool-cases (has_key sid c.binary)) [
  | inl there ↦ rw there refl
  | inr new ↦ elim (Option-cases (chosen_binary main a_out)) [
    | inl e ↦ rw (new, e) refl
    | inr (bytes, e) ↦ rw (new, e) refl
  ]
]

act_all-is_uploaded :
    (sid : Text) (acts : List Act) (c : Collector)
    → is_uploaded sid (act_all sid acts c) ≡ is_uploaded sid c
unfolding act_all
act_all-is_uploaded sid [] c = refl
act_all-is_uploaded sid (a ∷ acts) c =
    act_all-is_uploaded sid acts (act sid a c) ∙ act-is_uploaded sid a c

abbrev pub is_binary : Upload → Bool
is_binary (case_upload task_no number bytes) = false
is_binary (binary_upload bytes) = true

upload_cases_no_binary :
    (items : Items) (s : Sending)
    → any is_binary s.sent ≡ false
    → any is_binary (upload_cases items s).1.sent ≡ false
unfolding upload_cases upload
upload_cases_no_binary [] s h = h
upload_cases_no_binary ((t, n, bytes) ∷ items) s h = ground (
  arith,
  any-append is_binary s.sent (case_upload t n bytes ∷ []),
  upload_cases_no_binary items (upload (case_upload t n bytes) s).1,
)

-- The binary came through after the build.
abbrev pub CameThrough : Text → List Bool → Collector → Type 0
CameThrough sid replies c = any is_binary (upload_binary_only sid replies c).1.sent ≡ true

upload_binary_only-is_uploaded :
    (sid : Text) (replies : List Bool) (c : Collector)
    → CameThrough sid replies c
    → is_uploaded sid (upload_binary_only sid replies c).0 ≡ true
unfolding upload_binary_only upload
upload_binary_only-is_uploaded sid replies c h =
    ground (arith, h, lookup-insert_self sid true c.binary_uploaded)

-- If the binary came through after the build, upload_all sends no binary, whatever snapshots, case
-- artifacts and binaries are collected in between.
pub upload_all_no_binary :
    (sid : Text) (replies later : List Bool) (acts : List Act) (c : Collector)
    → CameThrough sid replies c
    → any is_binary
        (upload_all sid later (act_all sid acts (upload_binary_only sid replies c).0)).1.sent
      ≡ false
unfolding upload_all upload_last
upload_all_no_binary sid replies later acts c h =
    let built = (upload_binary_only sid replies c).0 in
    let d = act_all sid acts built in
    let flag : is_uploaded sid d ≡ true =
      act_all-is_uploaded sid acts built ∙ upload_binary_only-is_uploaded sid replies c h in
    let cases = upload_cases_no_binary (items_of (tasks_of sid d)) (start_sending later) refl in
    ground (arith, flag, cases)
