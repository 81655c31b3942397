-- ===== src/Interactive/Numbers.antt =====
-- Numbers in texts, as Python's int reads and str writes them, over the digits of ASCII.
use sandbox_2025team.Checker.{trim, starts_with}
use sandbox_2025team.CaseNo.{digits}
use sandbox_2025team.Output.{is_space}
use mathlib.Core.Option
use sandbox_2025team.Base.{
  ℕ, zero, suc, true, false, [], ◌∷◌, none, some, if◌then◌else◌, Option, Bool, ◌==◌, ◌*◌, drop, ◌+◌,
  ◌-◌, length, leb, ◌&&◌,
}
use sandbox_2025team.Base.Int.{pos, negsuc, ℤ}
use sandbox_2025team.Base.Text.{Text}

-- Digits, with single underscores between them.
unfoldable pub digits_value : (acc : ℕ) (after_digit : Bool) → Text → Option ℕ
digits_value acc after_digit [] = if after_digit then some acc else none
digits_value acc after_digit (c ∷ s) =
    let more = digits_value (acc * 10 + (c - 48)) true s in
    let split = digits_value acc false s in
    if leb 48 c && leb c 57 then more else if c == 95 && after_digit then split else none

abbrev pub negated : ℕ → ℤ
negated zero = pos 0
negated (suc n) = negsuc n

unfoldable pub signed_value : Text → Option ℤ
signed_value [] = none
signed_value (c ∷ s) =
    if c == 45
    then Option.map negated (digits_value 0 false s)
    else if c == 43
    then Option.map pos (digits_value 0 false s)
    else Option.map pos (digits_value 0 false (c ∷ s))

-- `int(text)`, `none` for a ValueError.
unfoldable pub python_int : Text → Option ℤ
python_int text = signed_value (trim text)

-- `str(n)`.
unfoldable pub decimal : ℤ → Text
decimal (pos n) = digits n
decimal (negsuc n) = 45 ∷ digits (suc n)

-- What stands before and behind the first occurrence of a word that is not empty.
unfoldable pub split_once : Text → Text → Option (Text × Text)
split_once word [] = none
split_once word (c ∷ s) =
    let later : Option (Text × Text) = elim (split_once word s) [
      | none ↦ none
      | some (before, after) ↦ some (c ∷ before, after)
    ] in
    if starts_with word (c ∷ s) then some ([], drop (length word) (c ∷ s)) else later

-- The text up to the first white space.
unfoldable pub first_word : Text → Text
first_word [] = []
first_word (c ∷ s) = let rest = first_word s in if is_space c then [] else c ∷ rest
