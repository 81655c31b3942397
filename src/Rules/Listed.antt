-- ===== src/Rules/Listed.antt =====
-- Which violations are listed.
use sandbox_2025team.Base.Text.{Text, text_eq_iff}
use sandbox_2025team.Rules.{
  violations, deduplicate, sort_by_line, insert_by_line, Violation, is_key, listed, Fact,
  violation_of, is_violation, check_items,
}
use sandbox_2025team.Base.{
  ℕ, true, List, ◌++◌, ◌≡◌, ◌||◌, ◌∷◌, any, arith, ◌∙◌, ◌&&◌, ap, [], refl, Bool-cases, inl, inr,
}

listed-violations :
    (content : Text) (line : ℕ) (model : Text) (rules : List Text) (facts : List Fact)
    → listed content line (violations model rules facts)
      ≡ any (λ f. is_key content line (violation_of f) && is_violation model rules f.name) facts
unfolding violations
listed-violations content line model rules [] = refl
listed-violations content line model rules (f ∷ fs) =
    ground (arith, listed-violations content line model rules fs)

pub listed-append :
    (content : Text) (line : ℕ) (vs ws : List Violation)
    → listed content line (vs ++ ws) ≡ (listed content line vs || listed content line ws)
listed-append content line [] ws = refl
listed-append content line (v ∷ vs) ws = ground (arith, listed-append content line vs ws)

listed-same :
    (content : Text) (line : ℕ) (v : Violation) (vs : List Violation)
    → is_key content line v ≡ true
    → listed v.content v.line vs ≡ listed content line vs
listed-same content line v vs h =
    let same_content : v.content ≡ content = ground (arith, h, text_eq_iff v.content content) in
    let same_line : v.line ≡ line = ground (arith, h) in
    ap (λ c. listed c v.line vs) same_content ∙ ap (λ n. listed content n vs) same_line

listed-deduplicate :
    (content : Text) (line : ℕ) (kept vs : List Violation)
    → listed content line (deduplicate kept vs)
      ≡ (listed content line kept || listed content line vs)
unfolding deduplicate
listed-deduplicate content line kept [] = ground arith
listed-deduplicate content line kept (v ∷ vs) = elim (Bool-cases (listed v.content v.line kept)) [
  | inl there ↦ rw there (
      ground (
        arith,
        there,
        listed-deduplicate content line kept vs,
        λ (h : is_key content line v ≡ true). listed-same content line v kept h,
      ))
  | inr absent ↦ rw absent (
      ground (
        arith,
        listed-deduplicate content line (kept ++ v ∷ []) vs,
        listed-append content line kept (v ∷ []),
      ))
]

pub listed-insert_by_line :
    (content : Text) (line : ℕ) (v : Violation) (ws : List Violation)
    → listed content line (insert_by_line v ws) ≡ (is_key content line v || listed content line ws)
unfolding insert_by_line
listed-insert_by_line content line v [] = refl
listed-insert_by_line content line v (w ∷ ws) =
    ground (arith, listed-insert_by_line content line v ws)

pub listed-sort_by_line :
    (content : Text) (line : ℕ) (vs : List Violation)
    → listed content line (sort_by_line vs) ≡ listed content line vs
unfolding sort_by_line
listed-sort_by_line content line [] = refl
listed-sort_by_line content line (v ∷ vs) =
    listed-insert_by_line content line v (sort_by_line vs)
    ∙ ap (λ b. is_key content line v || b) (listed-sort_by_line content line vs)

-- A name and a line are reported exactly if a fact of that name on that line violates the rules.
pub listed-check_items :
    (content : Text) (line : ℕ) (used : List Fact) (rules : List Text) (model : Text)
    → listed content line (check_items used rules model)
      ≡ any (λ f. is_key content line (violation_of f) && is_violation model rules f.name) used
unfolding check_items
listed-check_items content line used rules model =
    listed-sort_by_line content line (deduplicate [] (violations model rules used))
    ∙ listed-deduplicate content line [] (violations model rules used)
    ∙ listed-violations content line model rules used
