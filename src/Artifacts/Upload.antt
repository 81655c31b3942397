-- ===== src/Artifacts/Upload.antt =====
-- dispatcher/artifact_collector.py: the compiled binary and the uploads. The backend's replies are a
-- list: each attempt takes the next one, `true` if the request came through.
use sandbox_2025team.Checker.{starts_with}
use sandbox_2025team.Dict.{lookup, delete, has_key, insert}
use sandbox_2025team.Meta.{Meta}
use sandbox_2025team.Artifacts.{Collector, Bytes, NumDict, submission_total_limit, binary_limit}
use sandbox_2025team.Base.{
  ℕ, true, false, [], ◌∷◌, none, some, zero, suc, Bool, List, Option, ◌++◌, if◌then◌else◌, ltb,
  is_empty, not, ◌+◌, length, ◌&&◌, leb,
}
use sandbox_2025team.Base.Text.{Text, codes, one_of}

-- A candidate in the source directory, `absent` also if it is not executable.
pub data BinaryFile : Type 0 where
  absent broken_file : BinaryFile
  content : Bytes → BinaryFile

-- 0x7f, "ELF".
unfoldable pub elf_magic : Bytes
elf_magic = 127 ∷ codes "ELF"

-- The first candidate that is there decides, whether it is taken or not.
unfoldable pub chosen_binary : BinaryFile → BinaryFile → Option Bytes
chosen_binary absent (content bytes) =
    if starts_with elf_magic bytes && not (ltb binary_limit (length bytes))
    then some bytes
    else none
chosen_binary absent _ = none
chosen_binary broken_file _ = none
chosen_binary (content bytes) _ =
    if starts_with elf_magic bytes && not (ltb binary_limit (length bytes))
    then some bytes
    else none

unfoldable pub collect_binary : Text → (main a_out : BinaryFile) → Collector → Collector
collect_binary sid main a_out c =
    if has_key sid c.binary then c else elim (chosen_binary main a_out) [
      | none ↦ c
      | some bytes ↦ record c { binary = insert sid bytes c.binary }
    ]

-- What came through.
pub data Upload : Type 0 where
  case_upload : (task_no number : ℕ) → Bytes → Upload
  binary_upload : Bytes → Upload

abbrev pub payload_of : Upload → Bytes
payload_of (case_upload task_no number bytes) = bytes
payload_of (binary_upload bytes) = bytes

-- `for attempt in range(3)`, with the attempts left.
unfoldable pub attempt : ℕ → List Bool → Bool × List Bool
attempt zero replies = (false, replies)
attempt (suc n) [] = (false, [])
attempt (suc n) (ok ∷ replies) = if ok then (true, replies) else attempt n replies

pub record Sending : Type 0 where
  pub sent : List Upload
  pub used : ℕ
  pub replies : List Bool

-- One upload; a payload that came through counts.
unfoldable pub upload : Upload → Sending → Bool × Sending
upload item s =
    let (ok, rest) = attempt 3 s.replies in
    if ok
    then (
      true,
      record {
        sent = s.sent ++ item ∷ [];
        used = s.used + length (payload_of item);
        replies = rest;
      },
    )
    else (false, record s { replies = rest })

-- The payloads of a submission, case by case.
abbrev pub Items : Type 0
Items = List (ℕ × ℕ × Bytes)

unfoldable pub items_of_task : ℕ → NumDict Bytes → Items
items_of_task task_no [] = []
items_of_task task_no ((number, bytes) ∷ cases) =
    (task_no, number, bytes) ∷ items_of_task task_no cases

unfoldable pub items_of : NumDict (NumDict Bytes) → Items
items_of [] = []
items_of ((task_no, cases) ∷ tasks) = items_of_task task_no cases ++ items_of tasks

-- The loops over the cases; `false` if the limit made them return.
unfoldable pub upload_cases : Items → Sending → Bool × Sending
upload_cases [] s = (true, s)
upload_cases ((task_no, number, bytes) ∷ items) s =
    let rest = upload_cases items (upload (case_upload task_no number bytes) s).1 in
    if ltb submission_total_limit (s.used + length bytes) then (false, s) else rest

abbrev pub start_sending : List Bool → Sending
start_sending replies = record { sent = []; used = 0; replies = replies }

abbrev pub is_uploaded : Text → Collector → Bool
is_uploaded sid c = elim (lookup sid c.binary_uploaded) [ none ↦ false | some b ↦ b ]

-- The binary at the end of upload_all.
unfoldable pub upload_last : Text → Bytes → Collector → Sending → Collector × Sending
upload_last sid bytes c s =
    let (ok, after) = upload (binary_upload bytes) s in
    if not (is_empty bytes)
      && not (is_uploaded sid c)
      && leb (s.used + length bytes) submission_total_limit
    then (if ok then record c { binary_uploaded = insert sid true c.binary_uploaded } else c, after)
    else (c, s)

abbrev pub tasks_of : Text → Collector → NumDict (NumDict Bytes)
tasks_of sid c = elim (lookup sid c.case_artifacts) [ none ↦ [] | some d ↦ d ]

unfoldable pub upload_all : Text → List Bool → Collector → Collector × Sending
upload_all sid replies c =
    let (on, s) = upload_cases (items_of (tasks_of sid c)) (start_sending replies) in
    if not on
    then (c, s)
    else elim (lookup sid c.binary) [ none ↦ (c, s) | some bytes ↦ upload_last sid bytes c s ]

-- The binary of a finished build.
unfoldable pub upload_binary_only : Text → List Bool → Collector → Collector × Sending
upload_binary_only sid replies c = elim (lookup sid c.binary) [
  | none ↦ (c, start_sending replies)
  | some bytes ↦
      let (ok, s) = upload (binary_upload bytes) (start_sending replies) in
      if is_empty bytes
      then (c, start_sending replies)
      else if ok
      then (
        record c {
          binary_uploaded = insert sid true c.binary_uploaded;
          binary = delete sid c.binary;
        },
        s,
      )
      else (c, s)
]

unfoldable pub cleanup_artifacts : Text → Collector → Collector
cleanup_artifacts sid c = record {
  snapshots = delete sid c.snapshots;
  case_artifacts = delete sid c.case_artifacts;
  binary = delete sid c.binary;
  binary_uploaded = delete sid c.binary_uploaded;
}

unfoldable pub should_collect_artifacts : Meta → Bool
should_collect_artifacts meta = one_of (codes "zip") meta.artifact_collection

unfoldable pub should_collect_binary : Meta → Bool
should_collect_binary meta = one_of (codes "compiledBinary") meta.artifact_collection
