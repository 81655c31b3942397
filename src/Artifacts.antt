-- ===== src/Artifacts.antt =====
-- dispatcher/artifact_collector.py. The directories, the bytes of a zip archive and the replies of the
-- backend are parameters.
pub mod Upload
pub mod Limits
pub mod Once
use sandbox_2025team.Checker.{starts_with}
use sandbox_2025team.Analysis.Sources.{FilePath, last_name, suffix_of}
use sandbox_2025team.Dict.{lookup, Dict, keys, insert}
use sandbox_2025team.CaseNo.{case_no}
use sandbox_2025team.Base.{
  ℕ, true, false, [], ◌∷◌, none, some, ◌+◌, if◌then◌else◌, ◌*◌, List, Option, ◌++◌, ltb, Bool, ◌==◌,
  leb, keep, not, ◌&&◌, ◌||◌,
}
use sandbox_2025team.Base.Text.{Text, codes, one_of}

abbrev pub Bytes : Type 0
Bytes = List ℕ

unfoldable pub case_file_limit : ℕ
case_file_limit = 5 * 1024 * 1024

unfoldable pub case_zip_limit : ℕ
case_zip_limit = 10 * 1024 * 1024

unfoldable pub submission_total_limit : ℕ
submission_total_limit = 100 * 1024 * 1024

unfoldable pub binary_limit : ℕ
binary_limit = 50 * 1024 * 1024

pub record Stat : Type 0 where
  pub mtime : ℕ
  pub size : ℕ

-- The name and the bytes of a member of a zip archive.
abbrev pub Members : Type 0
Members = List (Text × Bytes)

-- A dict that is keyed by numbers.
abbrev pub NumDict : Type 0 → Type 0
NumDict V = List (ℕ × V)

unfoldable pub get_num : {V : Type 0} → ℕ → NumDict V → Option V
get_num n [] = none
get_num n ((k, v) ∷ d) = if k == n then some v else get_num n d

unfoldable pub set_num : {V : Type 0} → ℕ → V → NumDict V → NumDict V
set_num n v [] = (n, v) ∷ []
set_num n v ((k, w) ∷ d) = if k == n then (k, v) ∷ d else (k, w) ∷ set_num n v d

pub record Collector : Type 0 where
  pub snapshots : Dict (Dict (Dict Stat))
  pub case_artifacts : Dict (NumDict (NumDict Bytes))
  pub binary : Dict Bytes
  pub binary_uploaded : Dict Bool

-- A file that `os.walk` comes by, with its path below the directory; `none` if it is gone before it
-- is looked at.
abbrev pub Walked : Type 0
Walked = List (FilePath × Option Stat)

abbrev pub joined : FilePath → Text
joined [] = []
joined (p ∷ []) = p
joined (p ∷ q ∷ ps) = p ++ 47 ∷ joined (q ∷ ps)

unfoldable pub is_noise : FilePath → Bool
is_noise rel =
    starts_with (codes ".") (last_name rel)
    || one_of (last_name rel) (codes "a.out" ∷ codes "main" ∷ [])
    || one_of (suffix_of rel) (
        codes ".c"
        ∷ codes ".cpp"
        ∷ codes ".py"
        ∷ codes ".h"
        ∷ codes ".hpp"
        ∷ codes ".o"
        ∷ codes ".a"
        ∷ [])

unfoldable pub scan : Walked → Dict Stat
scan [] = []
scan ((rel, stat) ∷ files) =
    let rest = scan files in
    if is_noise rel then rest else elim stat [ none ↦ rest | some st ↦ (joined rel, st) ∷ rest ]

unfoldable pub is_changed : Dict Stat → Text × Stat → Bool
is_changed before (rel, st) = elim (lookup rel before) [
  | none ↦ true
  | some prev ↦ not (st.mtime == prev.mtime && st.size == prev.size)
]

-- A set of paths; the loop below may come by them in any order.
unfoldable pub diff : Dict Stat → Dict Stat → List Text
diff before after = keys (keep (is_changed before) after)

-- `snaps.setdefault(submission_id, {})[key] = ...`.
unfoldable pub snapshot_before_case : Text → ℕ → ℕ → Walked → Collector → Collector
snapshot_before_case sid task_no number walked c =
    let snaps : Dict (Dict Stat) = elim (lookup sid c.snapshots) [ none ↦ [] | some d ↦ d ] in
    record c {
      snapshots = insert sid (insert (case_no task_no number) (scan walked) snaps) c.snapshots;
    }

-- The bytes of a code point in UTF-8; a lone surrogate is ignored.
unfoldable pub utf8_length : ℕ → ℕ
utf8_length c =
    if ltb c 128
    then 1
    else if ltb c 2048
    then 2
    else if leb 55296 c && leb c 57343
    then 0
    else if ltb c 65536
    then 3
    else 4

unfoldable pub encoded_size : Text → ℕ
encoded_size [] = 0
encoded_size (c ∷ s) = utf8_length c + encoded_size s

-- A changed file when it comes to be added.
pub data FileNow : Type 0 where
  gone : FileNow
  unreadable : (size : ℕ) → FileNow
  readable : (size : ℕ) (bytes : Bytes) → FileNow

-- The loop over the changed files, from the size of the members so far: the members that are added,
-- and the new size.
module _ (now : Text → FileNow) where
  unfoldable pub add_files : List Text → (total : ℕ) → Members × ℕ
  add_files [] total = ([], total)
  add_files (rel ∷ rels) total = elim (now rel) [
    | gone ↦ add_files rels total
    | unreadable size ↦
        let skipped = add_files rels total in
        if ltb case_file_limit size
        then skipped
        else if ltb case_zip_limit (total + size)
        then ([], total)
        else skipped
    | readable size bytes ↦
        let skipped = add_files rels total in
        let (members, sum) = add_files rels (total + size) in
        if ltb case_file_limit size
        then skipped
        else if ltb case_zip_limit (total + size)
        then ([], total)
        else ((rel, bytes) ∷ members, sum)
  ]

abbrev pub optional_member : Text → Option (Text × Bytes) → Members
optional_member name none = []
optional_member name (some (text, bytes)) = (name, bytes) ∷ []

abbrev pub optional_size : Option (Text × Bytes) → ℕ
optional_size none = 0
optional_size (some (text, bytes)) = encoded_size text

-- The texts of a case, each with its bytes in the archive.
pub record CaseTexts : Type 0 where
  pub input_data : Option (Text × Bytes)
  pub answer_data : Option (Text × Bytes)
  pub stdout : Text × Bytes
  pub stderr : Text × Bytes

unfoldable pub fixed_members : Text → CaseTexts → Members
fixed_members name texts =
    optional_member (name ++ codes ".in") texts.input_data
    ++ (optional_member (name ++ codes ".out") texts.answer_data
        ++ (codes "stdout", texts.stdout.1) ∷ (codes "stderr", texts.stderr.1) ∷ [])

unfoldable pub fixed_size : CaseTexts → ℕ
fixed_size texts =
    optional_size texts.input_data
    + optional_size texts.answer_data
    + encoded_size texts.stdout.0
    + encoded_size texts.stderr.0

unfoldable pub add_case_artifact : Text → ℕ → ℕ → Bytes → Collector → Collector
add_case_artifact sid task_no number bytes c =
    let tasks : NumDict (NumDict Bytes) = elim (lookup sid c.case_artifacts) [
      | none ↦ []
      | some d ↦ d
    ] in
    let cases : NumDict Bytes = elim (get_num task_no tasks) [ none ↦ [] | some d ↦ d ] in
    record c {
      case_artifacts =
          insert sid (set_num task_no (set_num number bytes cases) tasks) c.case_artifacts;
    }

abbrev pub snapshot_of : Text → Text → Collector → Dict Stat
snapshot_of sid key c = elim (lookup sid c.snapshots) [
  | none ↦ []
  | some snaps ↦ elim (lookup key snaps) [ none ↦ [] | some d ↦ d ]
]

-- `zip_bytes` is what ZipFile writes for the members.
unfoldable pub record_case_artifact :
    (now : Text → FileNow) (zip_bytes : Members → Bytes)
    → Text
    → ℕ
    → ℕ
    → Walked
    → CaseTexts
    → Collector
    → Collector
record_case_artifact now zip_bytes sid task_no number walked texts c =
    let key = case_no task_no number in
    let changed = diff (snapshot_of sid key c) (scan walked) in
    let (extra, total) = add_files now changed (fixed_size texts) in
    add_case_artifact sid task_no number (zip_bytes (fixed_members key texts ++ extra)) c
