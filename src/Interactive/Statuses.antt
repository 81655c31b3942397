-- ===== src/Interactive/Statuses.antt =====
-- The statuses that an interactive run can have.
use sandbox_2025team.Interactive.Configuration.{
  conclude, OrchestrateEnv, Printed, orchestrator_main, orchestrate, read_sides, text_of, configure,
  broken_off, execute_both, pipe_mode_of,
}
use sandbox_2025team.Interactive.Verdict.{Orchestrated-cases}
use sandbox_2025team.Output.{lines_from}
use sandbox_2025team.Results.{or_default}
use sandbox_2025team.Base.Int.{ℤ, ltb_ℤ}
use sandbox_2025team.Checker.{trim}
use sandbox_2025team.Dict.{lookup, Dict}
use sandbox_2025team.Base.{
  true, false, [], ◌∷◌, none, some, refl, inl, inr, List, ◌≡◌, Bool-cases, arith, Option, ◌&&◌,
  subst, Option-cases, All,
}
use sandbox_2025team.Base.Text.{Text, codes, one_of, text_eq}
use sandbox_2025team.Interactive.{
  done, no_file, unreadable_file, text_file, read_result, parse_check_result, read_result_lines,
  status_map, is_check_status, judge_sides, count_files, TextFile, Sides, SideResult,
  read_check_lines, no_result,
}

abbrev pub statuses : List Text
statuses =
    codes "AC" ∷ codes "WA" ∷ codes "CE" ∷ codes "TLE" ∷ codes "MLE" ∷ codes "RE" ∷ codes "OLE" ∷ []

abbrev pub IsStatus : Text → Type 0
IsStatus status = one_of status statuses ≡ true

ce-IsStatus : IsStatus (codes "CE")
unfolding one_of text_eq
ce-IsStatus = refl

found-IsStatus :
    (line : Text) (d : Dict Text)
    → All (λ e. IsStatus e.1) d
    → IsStatus (or_default (codes "CE") (lookup line d))
unfolding lookup
found-IsStatus line [] all = ce-IsStatus
found-IsStatus line ((k, v) ∷ d) (h, all) = elim (Bool-cases (text_eq k line)) [
  | inl same ↦ rw same h
  | inr other ↦ rw other (found-IsStatus line d all)
]

status_map-IsStatus : (line : Text) → IsStatus (or_default (codes "CE") (lookup line status_map))
unfolding status_map one_of text_eq
status_map-IsStatus line = found-IsStatus line status_map (refl, (refl, (refl, (refl, (refl, tt)))))

lines-IsStatus : (lines : List Text) → IsStatus (read_result_lines lines).status
unfolding read_result_lines
lines-IsStatus [] = ce-IsStatus
lines-IsStatus (first ∷ lines) = status_map-IsStatus (trim first)

read_result-IsStatus :
    (file : TextFile) (r : SideResult) → read_result file ≡ done r → IsStatus r.status
unfolding read_result
read_result-IsStatus no_file r h =
    let e : no_result (codes "result file missing") ≡ r = cc h in
    subst (λ (q : SideResult). IsStatus q.status) e ce-IsStatus
read_result-IsStatus (unreadable_file e) r h = absurd cc
read_result-IsStatus (text_file text) r h =
    let e : read_result_lines (lines_from false [] text) ≡ r = cc h in
    subst (λ (q : SideResult). IsStatus q.status) e (lines-IsStatus (lines_from false [] text))

ac_or_wa-IsStatus : (status : Text) → is_check_status (some status) ≡ true → IsStatus status
unfolding is_check_status one_of
ac_or_wa-IsStatus status h = ground arith

parse_check_result-IsStatus :
    (check : TextFile) (status : Option Text) (message : Text)
    → parse_check_result check ≡ done (status, message)
    → IsStatus (or_default (codes "CE") status)
unfolding parse_check_result is_check_status
parse_check_result-IsStatus no_file status message h =
    let e : none ≡ status = ground (arith, h) in
    subst (λ s. IsStatus (or_default (codes "CE") s)) e ce-IsStatus
parse_check_result-IsStatus (unreadable_file e) status message h = absurd cc
parse_check_result-IsStatus (text_file text) status message h =
    let r = read_check_lines (lines_from false [] text) none [] in
    elim (Bool-cases (is_check_status r.0)) [
      | inr bad ↦
          let e : none ≡ status = ground (arith, h, bad) in
          subst (λ s. IsStatus (or_default (codes "CE") s)) e ce-IsStatus
      | inl good ↦ elim (Option-cases r.0) [
        | inl e ↦ absurd (ground (arith, good, e))
        | inr (s, e) ↦
            let same : some s ≡ status = ground (arith, h, good, e) in
            let verdict : is_check_status (some s) ≡ true = rw e at good in
            subst (λ t. IsStatus (or_default (codes "CE") t)) same (ac_or_wa-IsStatus s verdict)
      ]
    ]

judge_sides-IsStatus :
    (s : Sides) (check : TextFile) (status message : Text)
    → IsStatus s.student.status
    → IsStatus s.teacher.status
    → judge_sides s check ≡ done (status, message)
    → IsStatus status
unfolding judge_sides
judge_sides-IsStatus s check status message student teacher h =
    elim (Bool-cases (text_eq s.student.status (codes "AC"))) [
      | inr bad ↦ subst IsStatus (ground (arith, h, bad)) student
      | inl fine ↦ elim (Bool-cases (text_eq s.teacher.status (codes "AC"))) [
        | inr bad ↦ subst IsStatus (ground (arith, h, fine, bad)) teacher
        | inl both ↦ elim (Orchestrated-cases (parse_check_result check)) [
          | inr (e, failed) ↦ absurd (ground (arith, h, fine, both, failed))
          | inl ((given, said), checked) ↦
              subst IsStatus (ground (arith, h, fine, both, checked))
                (parse_check_result-IsStatus check given said checked)
        ]
      ]
    ]

count_files-IsStatus :
    (new_files max_new_files : ℤ) (verdict : Text × Text)
    → IsStatus verdict.0
    → IsStatus (count_files new_files max_new_files verdict).0
unfolding count_files
count_files-IsStatus new_files max_new_files (status, message) h =
    elim (Bool-cases (text_eq status (codes "AC") && ltb_ℤ max_new_files new_files)) [
      | inl many ↦ rw many ce-IsStatus
      | inr fine ↦ rw fine h
    ]

read_sides-IsStatus :
    (env : OrchestrateEnv) (s : Sides)
    → read_sides env ≡ done s
    → IsStatus s.student.status × IsStatus s.teacher.status
unfolding read_sides
read_sides-IsStatus env s h = elim (Orchestrated-cases (read_result env.teacher_result)) [
  | inr (e, failed) ↦ absurd (ground (arith, h, failed))
  | inl (teacher, t) ↦ elim (Orchestrated-cases (read_result env.student_result)) [
    | inr (e, failed) ↦ absurd (ground (arith, h, t, failed))
    | inl (student, u) ↦ elim (Orchestrated-cases (text_of env.teacher_err)) [
      | inr (e, failed) ↦ absurd (ground (arith, h, t, u, failed))
      | inl (teacher_err, v) ↦ elim (Orchestrated-cases (text_of env.student_err)) [
        | inr (e, failed) ↦ absurd (ground (arith, h, t, u, v, failed))
        | inl (student_err, w) ↦
            let one : student.status ≡ s.student.status = ground (arith, h, t, u, v, w) in
            let other : teacher.status ≡ s.teacher.status = ground (arith, h, t, u, v, w) in
            (
              subst IsStatus one (read_result-IsStatus env.student_result student u),
              subst IsStatus other (read_result-IsStatus env.teacher_result teacher t),
            )
      ]
    ]
  ]
]

conclude-IsStatus :
    (env : OrchestrateEnv) (max_new_files : ℤ) (pipe_mode : Text) (p : Printed)
    → conclude env max_new_files pipe_mode ≡ done p
    → IsStatus p.status
unfolding conclude
conclude-IsStatus env max_new_files pipe_mode p h = elim (Orchestrated-cases (read_sides env)) [
  | inr (e, failed) ↦ absurd (ground (arith, h, failed))
  | inl (sides, read) ↦ elim (Orchestrated-cases (judge_sides sides env.check_result)) [
    | inr (e, failed) ↦ absurd (ground (arith, h, read, failed))
    | inl ((status, message), judged) ↦
        let (student, teacher) = read_sides-IsStatus env sides read in
        let counted =
          count_files-IsStatus env.new_files max_new_files (status, message)
            (judge_sides-IsStatus sides env.check_result status message student teacher judged) in
        subst IsStatus (ground (arith, h, read, judged)) counted
  ]
]

orchestrate-IsStatus :
    (env : OrchestrateEnv) (mode : Text) (p : Printed)
    → orchestrate env mode ≡ done p
    → IsStatus p.status
unfolding orchestrate
orchestrate-IsStatus env mode p h = elim (Orchestrated-cases (configure env)) [
  | inr (e, failed) ↦ absurd (ground (arith, h, failed))
  | inl (max_new_files, configured) ↦ elim (Orchestrated-cases (execute_both env)) [
    | inr (e, failed) ↦ absurd (ground (arith, h, configured, failed))
    | inl (tt, executed) ↦
        conclude-IsStatus env max_new_files (pipe_mode_of mode env.allow_write_student) p
          (ground (arith, h, configured, executed))
  ]
]

-- Whatever the configuration and the processes leave, and in whatever mode, main prints one of seven
-- statuses.
pub orchestrator_main-IsStatus :
    (mode : Text) (first second : OrchestrateEnv)
    → IsStatus (orchestrator_main mode first second).status
unfolding orchestrator_main broken_off
orchestrator_main-IsStatus mode first second = elim (Bool-cases (text_eq mode (codes "auto"))) [
  | inl auto ↦ elim (Orchestrated-cases (orchestrate first (codes "devfd"))) [
    | inl (p, ran) ↦ rw (auto, ran) (orchestrate-IsStatus first (codes "devfd") p ran)
    | inr (e, failed) ↦ elim (Orchestrated-cases (orchestrate second (codes "fifo"))) [
      | inl (p, ran) ↦ rw (auto, failed, ran) (orchestrate-IsStatus second (codes "fifo") p ran)
      | inr (e', failed') ↦ rw (auto, failed, failed') ce-IsStatus
    ]
  ]
  | inr fixed ↦ elim (Orchestrated-cases (orchestrate first mode)) [
    | inl (p, ran) ↦ rw (fixed, ran) (orchestrate-IsStatus first mode p ran)
    | inr (e, failed) ↦ rw (fixed, failed) ce-IsStatus
  ]
]
