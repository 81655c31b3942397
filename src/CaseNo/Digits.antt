-- ===== src/CaseNo/Digits.antt =====
-- Decimal digits and their reading.
use sandbox_2025team.Base.{
  ℕ, zero, suc, ◌+◌, ◌-◌, ◌*◌, ◌/◌, ◌%◌, ◌≤◌, ◌<◌, [], ◌∷◌, ◌++◌, some, ◌≡◌, refl, ltb, Bool-cases,
  inl, inr, arith, ◌∙◌, ap, is_empty, false,
}
use sandbox_2025team.Base.Text.{Text}
use sandbox_2025team.CaseNo.{digits_from, digits, pad2, int_from, int_of}

int_from_snoc :
    (acc : ℕ) (cs : Text) (d n : ℕ)
    → d < 10
    → int_from acc cs ≡ some n
    → int_from acc (cs ++ (48 + d) ∷ []) ≡ some (n * 10 + d)
unfolding int_from
int_from_snoc acc [] d n h e = ground arith
int_from_snoc acc (c ∷ cs) d n h e = ground (arith, int_from_snoc (acc * 10 + (c - 48)) cs d n h)

int_from-digits_from : (f n : ℕ) → n < f → int_from 0 (digits_from f n) ≡ some n
unfolding int_from digits_from
int_from-digits_from zero n h = elim h [ ]
int_from-digits_from (suc f) n h = elim (Bool-cases (ltb n 10)) [
  | inl small ↦ rw small (ground arith)
  | inr big ↦ rw big (
      ground (
        arith,
        int_from-digits_from f (n / 10),
        int_from_snoc 0 (digits_from f (n / 10)) (n % 10) (n / 10),
      ))
]

digits_from_one : (f n : ℕ) → n < f → n < 10 → digits_from f n ≡ (48 + n) ∷ []
unfolding digits_from
digits_from_one zero n h k = elim h [ ]
digits_from_one (suc f) n h k = ground arith

digits_from_more :
    (f n : ℕ)
    → n < suc f
    → 10 ≤ n
    → digits_from (suc f) n ≡ digits_from f (n / 10) ++ (48 + n % 10) ∷ []
unfolding digits_from
digits_from_more f n h k = ground arith

digits_from_two :
    (f n : ℕ) → n < f → 10 ≤ n → n < 100 → digits_from f n ≡ (48 + n / 10) ∷ (48 + n % 10) ∷ []
digits_from_two zero n h k l = elim h [ ]
digits_from_two (suc f) n h k l =
    digits_from_more f n h k
    ∙ ap (λ (ds : Text). ds ++ (48 + n % 10) ∷ [])
        (digits_from_one f (n / 10) (omega arith) (omega arith))

pub digits_two : (n : ℕ) → 10 ≤ n → n < 100 → digits n ≡ (48 + n / 10) ∷ (48 + n % 10) ∷ []
unfolding digits
digits_two n k l = digits_from_two (suc n) n (omega arith) k l

pub digits_three :
    (n : ℕ)
    → 100 ≤ n
    → n < 1000
    → digits n ≡ (48 + n / 10 / 10) ∷ (48 + n / 10 % 10) ∷ (48 + n % 10) ∷ []
unfolding digits
digits_three n k l =
    digits_from_more n n (omega arith) (omega arith)
    ∙ ap (λ (ds : Text). ds ++ (48 + n % 10) ∷ [])
        (digits_from_two n (n / 10) (omega arith) (omega arith) (omega arith))

digits_one : (n : ℕ) → n < 10 → digits n ≡ (48 + n) ∷ []
unfolding digits
digits_one n h = digits_from_one (suc n) n (omega arith) h

pub pad2_two : (n : ℕ) → n < 100 → pad2 n ≡ (48 + n / 10) ∷ (48 + n % 10) ∷ []
unfolding pad2
pad2_two n h = ground (arith, digits_one n, digits_two n)

pub pad2_three :
    (n : ℕ)
    → 100 ≤ n
    → n < 1000
    → pad2 n ≡ (48 + n / 10 / 10) ∷ (48 + n / 10 % 10) ∷ (48 + n % 10) ∷ []
unfolding pad2
pad2_three n h k = ground (arith, digits_three n)

int_of-eq-int_from : (cs : Text) → is_empty cs ≡ false → int_of cs ≡ int_from 0 cs
unfolding int_of
int_of-eq-int_from [] h = ground arith
int_of-eq-int_from (c ∷ cs) h = refl

is_empty-snoc : (cs : Text) (c : ℕ) → is_empty (cs ++ c ∷ []) ≡ false
is_empty-snoc [] c = refl
is_empty-snoc (d ∷ cs) c = refl

is_empty-digits_from : (f n : ℕ) → is_empty (digits_from (suc f) n) ≡ false
unfolding digits_from
is_empty-digits_from f n = ground (arith, is_empty-snoc (digits_from f (n / 10)) (48 + n % 10))

int_of-digits : (n : ℕ) → int_of (digits n) ≡ some n
unfolding digits
int_of-digits n =
    int_of-eq-int_from (digits_from (suc n) n) (is_empty-digits_from n n)
    ∙ int_from-digits_from (suc n) n (omega arith)

int_of-digits_zero : (n : ℕ) → n < 10 → int_of (48 ∷ digits n) ≡ some n
unfolding int_of int_from
int_of-digits_zero n h = ground (arith, digits_one n)

-- `int` reads what the format writes, also behind a zero.
pub int_of-pad2 : (n : ℕ) → int_of (pad2 n) ≡ some n
unfolding pad2
int_of-pad2 n = ground (arith, int_of-digits n, int_of-digits_zero n)
