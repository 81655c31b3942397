-- ===== src/CaseNo/Roundtrip.antt =====
-- Which pairs of numbers a case number tells apart.
use sandbox_2025team.Base.{ℕ, ◌+◌, ◌*◌, ◌/◌, ◌%◌, ◌≤◌, ◌<◌, some, ◌≡◌, ◌∙◌, ap, sym, arith}
use sandbox_2025team.CaseNo.{case_no, task_of, case_of, int_of}
use sandbox_2025team.CaseNo.Digits.{pad2_two, int_of-pad2, pad2_three}

module _ (i j : ℕ) (small : i < 100) where
  pub task_of-case_no : task_of (case_no i j) ≡ some i
  unfolding task_of case_no
  task_of-case_no = rw (pad2_two i small) (ap int_of (sym (pad2_two i small)) ∙ int_of-pad2 i)

  pub case_of-case_no : case_of (case_no i j) ≡ some j
  unfolding case_of case_no
  case_of-case_no = rw (pad2_two i small) (int_of-pad2 j)

-- Reading a case number gives back the two numbers that it was made of, for every task number below
-- a hundred and every case number, also one of three digits or more.
pub parse-format :
    (i j : ℕ) → i < 100 → (task_of (case_no i j) ≡ some i) × (case_of (case_no i j) ≡ some j)
parse-format i j h = (task_of-case_no i j h, case_of-case_no i j h)

-- Two cases whose task numbers are below a hundred have different case numbers, unless they are the
-- same case.
pub case_no-injective :
    (i j k l : ℕ) → i < 100 → k < 100 → case_no i j ≡ case_no k l → (i ≡ k) × (j ≡ l)
case_no-injective i j k l h g e =
    let (task, number) = parse-format i j h in
    let (task', number') = parse-format k l g in (cc (task, task'), cc (number, number'))

case_no_shift :
    (t j : ℕ)
    → 100 ≤ t
    → t < 1000
    → 0 < t % 10
    → j < 100
    → case_no t j ≡ case_no (t / 10) (t % 10 * 100 + j)
unfolding case_no
case_no_shift t j h g nonzero k =
    ground (arith, pad2_three t, pad2_two j, pad2_two (t / 10), pad2_three (t % 10 * 100 + j))

-- A case below a hundred of a task from 100 to 999 that does not end in zero has the case number of
-- another case, of the task with the last digit cut off.
pub case_no-collides :
    (t j : ℕ)
    → 100 ≤ t
    → t < 1000
    → 0 < t % 10
    → j < 100
    → (case_no t j ≡ case_no (t / 10) (t % 10 * 100 + j)) × (task_of (case_no t j) ≡ some (t / 10))
case_no-collides t j h g nonzero k = (
  case_no_shift t j h g nonzero k,
  rw (case_no_shift t j h g nonzero k) (task_of-case_no (t / 10) _ (omega arith)),
)
