-- ===== src/Tests/Artifacts.antt =====
-- The artifacts of a small submission.
use sandbox_2025team.Dict.{lookup}
use sandbox_2025team.Artifacts.Once.{is_binary, act_all, collect, upload_all_no_binary}
use sandbox_2025team.Tests.Data.{sid}
use sandbox_2025team.Artifacts.Upload.{
  upload_binary_only, upload_all, elf_magic, case_upload, binary_upload, content, absent,
  upload_cases, items_of, upload, attempt, items_of_task, upload_last,
}
use sandbox_2025team.Base.{◌≡◌, List, [], any, true, ◌∷◌, if◌then◌else◌, false, ◌≤◌, refl, ◌*◌}
use sandbox_2025team.Base.Text.{Text, codes, text_eq}
use sandbox_2025team.Artifacts.Limits.{volume, IsWithin, add_files-IsWithin, upload_all-le-limit}
use sandbox_2025team.Artifacts.{
  add_files, Collector, FileNow, readable, submission_total_limit, unreadable, gone,
  case_file_limit, case_zip_limit,
}

-- A small file, one that is too large, and one that is gone.
abbrev now : Text → FileNow
now rel =
    if text_eq rel (codes "log.txt")
    then readable 3 (codes "log")
    else if text_eq rel (codes "big.bin")
    then unreadable (6 * 1024 * 1024)
    else gone

abbrev changed : List Text
changed = codes "big.bin" ∷ codes "log.txt" ∷ codes "tmp" ∷ []

add_files_runs : add_files now changed 10 ≡ ((codes "log.txt", codes "log") ∷ [], 13)
unfolding add_files text_eq case_file_limit case_zip_limit
add_files_runs = refl

add_files-IsWithin_example : IsWithin now 10 (add_files now changed 10)
add_files-IsWithin_example = add_files-IsWithin now changed 10

abbrev new_collector : Collector
new_collector = record { snapshots = []; case_artifacts = []; binary = []; binary_uploaded = [] }

abbrev collected : Collector
collected = record new_collector {
  case_artifacts = (sid, (0, (0, codes "zip0") ∷ (1, codes "zip1") ∷ []) ∷ []) ∷ [];
  binary = (sid, elf_magic) ∷ [];
}

-- The backend refuses the first try of the first case.
upload_all_runs :
    (upload_all sid (false ∷ true ∷ true ∷ true ∷ []) collected).1.sent
    ≡ case_upload 0 0 (codes "zip0") ∷ case_upload 0 1 (codes "zip1") ∷ binary_upload elf_magic ∷ []
unfolding upload_all upload_cases items_of lookup text_eq items_of_task submission_total_limit
    upload attempt upload_last elf_magic
upload_all_runs = refl

upload_all-le-limit_example :
    volume (upload_all sid (true ∷ true ∷ true ∷ []) collected).1.sent ≤ submission_total_limit
upload_all-le-limit_example = upload_all-le-limit sid (true ∷ true ∷ true ∷ []) collected

upload_all_no_binary_example :
    any is_binary
      (upload_all sid (true ∷ true ∷ true ∷ []) (
        act_all sid
          (collect (content elf_magic) absent ∷ [])
          (upload_binary_only sid (true ∷ []) collected).0)).1.sent
    ≡ false
unfolding upload_binary_only lookup text_eq elf_magic upload attempt
upload_all_no_binary_example =
    upload_all_no_binary sid (true ∷ []) (true ∷ true ∷ true ∷ [])
      (collect (content elf_magic) absent ∷ []) collected refl
