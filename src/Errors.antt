-- ===== src/Errors.antt =====
-- The exceptions of dispatcher/exception.py and of the Python operations that the dispatcher calls,
-- and computations that may end in one.
use sandbox_2025team.Base.{◌≡◌, refl, ◌⊎◌, inl, inr}
use sandbox_2025team.Base.Text.{Text}

pub data Exn : Type 0 where
  submission_id_not_found duplicated_submission_id : Exn
  file_not_found not_a_directory file_exists queue_full : Exn
  key_error value_error assertion_error attribute_error index_error : Exn
  external : Text → Exn

pub data Result {ℓ} (A : Type ℓ) : Type ℓ where
  ok : A → Result A
  raise : Exn → Result A

infixl 5 ◌>>=◌
abbrev pub ◌>>=◌ {ℓ κ} : {A : Type ℓ} {B : Type κ} → Result A → (A → Result B) → Result B
ok a >>= f = f a
raise e >>= f = raise e

pub Result-cases {ℓ} :
    {A : Type ℓ} (r : Result A) → ((a : A) × (r ≡ ok a)) ⊎ ((e : Exn) × (r ≡ raise e))
Result-cases (ok a) = inl (a, refl)
Result-cases (raise e) = inr (e, refl)

pub raise_ne_ok {ℓ} : {A : Type ℓ} {x : Exn} {a : A} → ¬ (raise x ≡ ok a)
raise_ne_ok e = cc
