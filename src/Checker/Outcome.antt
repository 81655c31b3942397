-- ===== src/Checker/Outcome.antt =====
-- What a custom checker can decide.
use sandbox_2025team.Base.Int.{ℤ, pos, negsuc}
use sandbox_2025team.Checker.{
  read_lines, checker_outcome, parse_checker_output, ℤ, starts_with, status_tag, behind,
  message_tag, status_or_je,
}
use sandbox_2025team.Base.Text.{one_of, Text, codes, text_eq_iff}
use sandbox_2025team.Base.{
  ◌∷◌, [], ◌≡◌, true, ◌⊎◌, arith, List, some, ◌↔◌, Option, ◌++◌, Option-cases, inl, inr,
}

one_of_cases :
    (status : Text)
    → one_of status (codes "AC" ∷ codes "WA" ∷ []) ≡ true
    → (status ≡ codes "AC") ⊎ (status ≡ codes "WA")
unfolding one_of
one_of_cases status h =
    ground (arith, text_eq_iff status (codes "AC"), text_eq_iff status (codes "WA"))

parse-verdict :
    (raw : Text) (status : Text)
    → (parse_checker_output raw).0 ≡ some status
    → (status ≡ codes "AC") ⊎ (status ≡ codes "WA")
unfolding parse_checker_output
parse-verdict raw status h = ground (arith, one_of_cases status)

-- Whatever the checker printed and however it ended, the case becomes AC, WA or JE.
pub checker_outcome-status :
    (stdout stderr : Text) (exit_code : ℤ)
    → ((checker_outcome stdout stderr exit_code).status ≡ codes "AC")
      ⊎ ((checker_outcome stdout stderr exit_code).status ≡ codes "WA")
      ⊎ ((checker_outcome stdout stderr exit_code).status ≡ codes "JE")
unfolding checker_outcome status_or_je
checker_outcome-status stdout stderr exit_code =
    elim (Option-cases (parse_checker_output stdout).0) [
      | inl nothing ↦ ground (arith, nothing)
      | inr (status, said) ↦ ground (arith, said, parse-verdict stdout status said)
    ]

-- The outcome of a checker is AC exactly if its exit code is 0 and the status that its output is
-- parsed to is AC.
pub checker_outcome-ac_iff :
    (stdout stderr : Text) (exit_code : ℤ)
    → ((checker_outcome stdout stderr exit_code).status ≡ codes "AC")
      ↔ ((exit_code ≡ pos 0) × ((parse_checker_output stdout).0 ≡ some (codes "AC")))
unfolding checker_outcome status_or_je
checker_outcome-ac_iff stdout stderr (negsuc n) = ground arith
checker_outcome-ac_iff stdout stderr (pos n) = elim (Option-cases (parse_checker_output stdout).0) [
  | inl nothing ↦ ground (arith, nothing)
  | inr (status, said) ↦ ground (arith, said)
]

-- A status line at the end of the output decides the status, whatever the lines before it say.
read_lines_last :
    (lines : List Text) (line : Text) (status : Option Text) (message : Text)
    → starts_with status_tag line ≡ true
    → (read_lines (lines ++ line ∷ []) status message).0 ≡ some (behind status_tag line)
unfolding read_lines
read_lines_last [] line status message h = rw (h, read_lines)
read_lines_last (l ∷ lines) line status message h = ground (
  arith,
  read_lines_last lines line (some (behind status_tag l)) message h,
  read_lines_last lines line status (behind message_tag l) h,
  read_lines_last lines line status message h,
)
