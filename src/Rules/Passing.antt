-- ===== src/Rules/Passing.antt =====
-- When the facts pass the rules.
use sandbox_2025team.Results.{or_default}
use sandbox_2025team.Meta.{Language}
use sandbox_2025team.Base.Text.{Text, text_eq, codes}
use sandbox_2025team.Rules.{
  insert_by_line, check_items, RuleSet, deduplicate, Facts, get_violations, violations,
  is_violation, sort_by_line, Violation, Language, or_default, Fact, is_python, listed,
}
use sandbox_2025team.Base.{
  false, List, is_empty, ◌≡◌, not, ◌&&◌, Bool, ◌∷◌, none, ◌↔◌, arith, any, [], if◌then◌else◌, refl,
  ◌∙◌, Bool-cases, inl, inr, ◌++◌,
}

-- Some fact violates the rules.
abbrev pub breaks : Text → List Text → List Fact → Bool
breaks model rules facts = any (λ f. is_violation model rules f.name) facts

is_empty-insert : (v : Violation) (ws : List Violation) → is_empty (insert_by_line v ws) ≡ false
unfolding insert_by_line
is_empty-insert v [] = refl
is_empty-insert v (w ∷ ws) = ground arith

is_empty-sort : (vs : List Violation) → is_empty (sort_by_line vs) ≡ is_empty vs
unfolding sort_by_line
is_empty-sort [] = refl
is_empty-sort (v ∷ vs) = is_empty-insert v (sort_by_line vs)

is_empty-deduplicate :
    (kept vs : List Violation) → is_empty (deduplicate kept vs) ≡ (is_empty kept && is_empty vs)
unfolding deduplicate
is_empty-deduplicate [] [] = refl
is_empty-deduplicate [] (v ∷ vs) = is_empty-deduplicate (v ∷ []) vs
is_empty-deduplicate (k ∷ ks) [] = refl
is_empty-deduplicate (k ∷ ks) (v ∷ vs) = elim (Bool-cases (listed v.content v.line (k ∷ ks))) [
  | inl there ↦ rw there (is_empty-deduplicate (k ∷ ks) vs)
  | inr absent ↦ rw absent (is_empty-deduplicate (k ∷ (ks ++ v ∷ [])) vs)
]

is_empty-violations :
    (model : Text) (rules : List Text) (facts : List Fact)
    → is_empty (violations model rules facts) ≡ not (breaks model rules facts)
unfolding violations
is_empty-violations model rules [] = refl
is_empty-violations model rules (f ∷ fs) = ground (arith, is_empty-violations model rules fs)

is_empty-check_items :
    (used : List Fact) (rules : List Text) (model : Text)
    → is_empty (check_items used rules model) ≡ not (breaks model rules used)
unfolding check_items
is_empty-check_items used rules model =
    is_empty-sort (deduplicate [] (violations model rules used))
    ∙ is_empty-deduplicate [] (violations model rules used)
    ∙ is_empty-violations model rules used

-- The model of the rules, black where they name none.
abbrev pub model_of : RuleSet → Text
model_of rules = or_default (codes "black") rules.model

-- The facts pass exactly if no call, no syntax and no import, or no header in C and C++, violates the
-- rules.
pub get_violations-none_iff :
    (facts : Facts) (rules : RuleSet) (language : Language)
    → (get_violations facts rules language ≡ none) ↔ (
        (breaks (model_of rules) rules.functions facts.function_calls ≡ false)
        × (breaks (model_of rules) rules.syntax facts.syntax ≡ false)
        × ((if is_python language
              then breaks (model_of rules) rules.imports facts.imports
              else breaks (model_of rules) rules.headers facts.headers)
            ≡ false))
unfolding get_violations
get_violations-none_iff facts rules language = ground (
  arith,
  is_empty-check_items facts.imports rules.imports (model_of rules),
  is_empty-check_items facts.headers rules.headers (model_of rules),
  is_empty-check_items facts.function_calls rules.functions (model_of rules),
  is_empty-check_items facts.syntax rules.syntax (model_of rules),
)

breaks-unknown :
    (model : Text) (rules : List Text) (facts : List Fact)
    → text_eq model (codes "black") ≡ false
    → text_eq model (codes "white") ≡ false
    → breaks model rules facts ≡ false
unfolding is_violation
breaks-unknown model rules [] h k = refl
breaks-unknown model rules (f ∷ fs) h k = ground (arith, breaks-unknown model rules fs h k)

-- Rules whose model is neither "black" nor "white" let every program pass.
get_violations_unknown_model :
    (facts : Facts) (rules : RuleSet) (language : Language)
    → text_eq (model_of rules) (codes "black") ≡ false
    → text_eq (model_of rules) (codes "white") ≡ false
    → get_violations facts rules language ≡ none
get_violations_unknown_model facts rules language h k =
    let clear : (names : List Text) (fs : List Fact) → breaks (model_of rules) names fs ≡ false =
      λ names fs. breaks-unknown (model_of rules) names fs h k in
    (get_violations-none_iff facts rules language).1 (
      clear rules.functions facts.function_calls,
      clear rules.syntax facts.syntax,
      ground (arith, clear rules.imports facts.imports, clear rules.headers facts.headers),
    )
