-- ===== src/Artifacts/Limits.antt =====
-- The limits of what is collected and sent.
use sandbox_2025team.Dict.{lookup}
use sandbox_2025team.Artifacts.Upload.{Items}
use sandbox_2025team.Artifacts.Upload.{
  upload_last, upload_all, Sending, upload, upload_cases, Upload, case_upload, payload_of,
  binary_upload, items_of, tasks_of, start_sending,
}
use sandbox_2025team.Base.{
  ℕ, [], ◌∷◌, refl, List, ◌≡◌, ◌+◌, All, ◌≤◌, ◌<◌, inl, arith, ◌⊎◌, Bool, length, ◌++◌, inr,
  Bool-cases, leb, ltb, Option-cases,
}
use sandbox_2025team.Base.Text.{Text}
use sandbox_2025team.Artifacts.{
  gone, unreadable, readable, FileNow, Bytes, add_files, Members, case_zip_limit, case_file_limit,
  submission_total_limit, Collector,
}

FileNow-cases :
    (f : FileNow)
    → (f ≡ gone)
      ⊎ (((size : ℕ) × (f ≡ unreadable size))
          ⊎ ((size : ℕ) × (bytes : Bytes) × (f ≡ readable size bytes)))
FileNow-cases gone = inl refl
FileNow-cases (unreadable size) = inr (inl (size, refl))
FileNow-cases (readable size bytes) = inr (inr (size, bytes, refl))

module _ (now : Text → FileNow) where
  -- A member that may be added: a file that could be read, and is not too large.
  abbrev pub IsFile : Text × Bytes → Type 0
  IsFile (rel, bytes) = (size : ℕ) × (now rel ≡ readable size bytes) × (size ≤ case_file_limit)

  -- The sizes of the files of some members, as they are counted.
  abbrev pub counted : Members → ℕ
  counted [] = 0
  counted ((rel, bytes) ∷ members) =
      elim (now rel) [ gone ↦ 0 | unreadable size ↦ 0 | readable size bytes' ↦ size ]
      + counted members

  -- What the loop makes of the size `total` of the texts.
  pub record IsWithin (total : ℕ) (r : Members × ℕ) : Type 0 where
    pub files : All IsFile r.0
    pub sum : r.1 ≡ total + counted r.0
    pub within : total ≤ case_zip_limit → r.1 ≤ case_zip_limit
    pub full : case_zip_limit < total → r.0 ≡ []

  IsWithin-nil : (total : ℕ) → IsWithin total ([], total)
  IsWithin-nil total = record { files = tt; sum = omega arith; within = λ h. h; full = λ h. refl }

  IsWithin-add :
      (rel : Text) (size : ℕ) (bytes : Bytes) (total : ℕ) (members : Members) (sum : ℕ)
      → now rel ≡ readable size bytes
      → size ≤ case_file_limit
      → total + size ≤ case_zip_limit
      → IsWithin (total + size) (members, sum)
      → IsWithin total ((rel, bytes) ∷ members, sum)
  IsWithin-add rel size bytes total members sum e small fits rest = record {
    files = ((size, e, small), rest.files);
    sum = simp e (omega (arith, rest.sum));
    within = λ h. rest.within fits;
    full = λ h. absurd (omega arith);
  }

  -- In whatever order the changed files come, each one that is added to a zip could be read and is
  -- within the limit of a file, and the sizes are added up. If the texts of the case are within the
  -- limit of the zip, all its members are; if they are not, no file is added.
  pub add_files-IsWithin :
      (rels : List Text) (total : ℕ) → IsWithin total (add_files now rels total)
  unfolding add_files
  add_files-IsWithin [] total = IsWithin-nil total
  add_files-IsWithin (rel ∷ rels) total = elim (FileNow-cases (now rel)) [
    | inl e ↦ rw (e, add_files) (add_files-IsWithin rels total)
    | inr (inl (size, e)) ↦
        rw (e, add_files)
          (elim (Bool-cases (ltb case_file_limit size)) [
            | inl large ↦ rw large (add_files-IsWithin rels total)
            | inr small ↦ rw small (elim (Bool-cases (ltb case_zip_limit (total + size))) [
              | inl over ↦ rw over (IsWithin-nil total)
              | inr fits ↦ rw fits (add_files-IsWithin rels total)
            ])
          ])
    | inr (inr (size, bytes, e)) ↦
        rw (e, add_files)
          (elim (Bool-cases (ltb case_file_limit size)) [
            | inl large ↦ rw large (add_files-IsWithin rels total)
            | inr small ↦ rw small (elim (Bool-cases (ltb case_zip_limit (total + size))) [
              | inl over ↦ rw over (IsWithin-nil total)
              | inr fits ↦ rw fits (
                  IsWithin-add rel size bytes total (add_files now rels (total + size)).0
                    (add_files now rels (total + size)).1 e (ground arith) (ground arith)
                    (add_files-IsWithin rels (total + size)))
            ])
          ])
  ]

-- What came through, in bytes.
abbrev pub volume : List Upload → ℕ
volume [] = 0
volume (item ∷ items) = length (payload_of item) + volume items

volume-append : (xs ys : List Upload) → volume (xs ++ ys) ≡ volume xs + volume ys
volume-append [] ys = omega arith
volume-append (x ∷ xs) ys = omega (arith, volume-append xs ys)

-- `used` counts what came through, and is within the limit.
abbrev Counts : Sending → Type 0
Counts s = (s.used ≡ volume s.sent) × (s.used ≤ submission_total_limit)

upload-Counts :
    (item : Upload) (s : Sending)
    → Counts s
    → s.used + length (payload_of item) ≤ submission_total_limit
    → Counts (upload item s).1
unfolding upload
upload-Counts item s (same, within) fits = ground (arith, volume-append s.sent (item ∷ []))

upload_cases-Counts : (items : Items) (s : Sending) → Counts s → Counts (upload_cases items s).1
unfolding upload_cases
upload_cases-Counts [] s h = h
upload_cases-Counts ((task_no, number, bytes) ∷ items) s h =
    let item = case_upload task_no number bytes in
    elim (Bool-cases (ltb submission_total_limit (s.used + length bytes))) [
      | inl over ↦ rw over h
      | inr fits ↦
          rw fits
            (upload_cases-Counts items (upload item s).1 (upload-Counts item s h (ground arith)))
    ]

upload_last-Counts :
    (sid : Text) (bytes : Bytes) (c : Collector) (s : Sending)
    → Counts s
    → Counts (upload_last sid bytes c s).1
unfolding upload_last
upload_last-Counts sid bytes c s h =
    elim (Bool-cases (leb (s.used + length bytes) submission_total_limit)) [
      | inl fits ↦ ground (arith, upload-Counts (binary_upload bytes) s h (ground arith))
      | inr over ↦ ground arith
    ]

-- What upload_all gets through for a submission, cases and binary together, is at most 100 MB,
-- whatever the backend replies.
pub upload_all-le-limit :
    (sid : Text) (replies : List Bool) (c : Collector)
    → volume (upload_all sid replies c).1.sent ≤ submission_total_limit
unfolding upload_all
upload_all-le-limit sid replies c =
    let r = upload_cases (items_of (tasks_of sid c)) (start_sending replies) in
    let counts =
      upload_cases-Counts (items_of (tasks_of sid c)) (start_sending replies) (refl, omega arith) in
    elim (Bool-cases r.0) [
      | inr stopped ↦ simp (stopped, upload_all) (omega (arith, counts))
      | inl on ↦ elim (Option-cases (lookup sid c.binary)) [
        | inl e ↦ simp (on, e, upload_all) (omega (arith, counts))
        | inr (bytes, e) ↦
            simp (on, e, upload_all) (omega (arith, upload_last-Counts sid bytes c r.1 counts))
      ]
    ]
