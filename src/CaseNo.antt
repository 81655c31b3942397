-- ===== src/CaseNo.antt =====
-- The case numbers of dispatcher/dispatcher.py and dispatcher/result_factory.py: the format string
-- f"{i:02d}{j:02d}", and its reading by int(no[:2]) and int(no[2:]).
mod Digits
pub mod Roundtrip
use sandbox_2025team.Base.{
  ℕ, zero, suc, ◌+◌, ◌-◌, ◌*◌, ◌/◌, ◌%◌, List, [], ◌∷◌, ◌++◌, Option, none, some, ◌&&◌, ltb, leb,
  if◌then◌else◌, take, drop,
}
use sandbox_2025team.Base.Text.{Text}

-- The decimal digits of a number, on fuel above it (each round divides by ten).
digits_from : ℕ → ℕ → Text
digits_from zero n = []
digits_from (suc f) n =
    let longer = digits_from f (n / 10) ++ (48 + n % 10) ∷ [] in
    if ltb n 10 then (48 + n) ∷ [] else longer

unfoldable pub digits : ℕ → Text
unfolding digits_from
digits n = digits_from (suc n) n

-- The format `:02d`.
unfoldable pub pad2 : ℕ → Text
pad2 n = if ltb n 10 then 48 ∷ digits n else digits n

unfoldable pub case_no : ℕ → ℕ → Text
case_no i j = pad2 i ++ pad2 j

-- Python's `int` of a text, over the digits that a case number is made of.
int_from : ℕ → Text → Option ℕ
int_from acc [] = some acc
int_from acc (c ∷ cs) =
    let rest = int_from (acc * 10 + (c - 48)) cs in if leb 48 c && ltb c 58 then rest else none

unfoldable pub int_of : Text → Option ℕ
unfolding int_from
int_of [] = none
int_of (c ∷ cs) = int_from 0 (c ∷ cs)

-- int(no[:2]) and int(no[2:]).
unfoldable pub task_of : Text → Option ℕ
task_of name = int_of (take 2 name)

unfoldable pub case_of : Text → Option ℕ
case_of name = int_of (drop 2 name)
