-- ===== src/Rules.antt =====
-- dispatcher/static_analysis.py, _check_items and get_violations: the rules of the static analysis
-- against the facts that the visitors have collected.
pub mod Listed
pub mod Order
pub mod Passing
use sandbox_2025team.Results.{or_default}
use sandbox_2025team.Base.Text.{Text, codes, text_eq, one_of}
use sandbox_2025team.Meta.{Language, py}
use sandbox_2025team.Base.{
  ℕ, true, false, List, Option, ◌∷◌, [], Bool, if◌then◌else◌, any, ◌&&◌, leb, ◌++◌, ◌||◌, is_empty,
  not, none, ◌==◌, some,
}

-- A fact, and a violation of a rule.
pub record Fact : Type 0 where
  pub name : Text
  pub line : ℕ
  pub file : Text

pub record Violation : Type 0 where
  pub content : Text
  pub line : ℕ
  pub file : Text

-- A key that a dict lacks is an empty list.
pub record Facts : Type 0 where
  pub imports : List Fact
  pub headers : List Fact
  pub function_calls : List Fact
  pub syntax : List Fact

pub record RuleSet : Type 0 where
  pub model : Option Text
  pub imports : List Text
  pub headers : List Text
  pub functions : List Text
  pub syntax : List Text

-- The dict of get_violations; `includes` is its entry "imports" or "headers".
pub record Violations : Type 0 where
  pub model : Text
  pub includes : List Violation
  pub functions : List Violation
  pub syntax : List Violation

-- `name.endswith(suffix)`.
unfoldable pub ends_with : Text → Text → Bool
ends_with suffix [] = text_eq [] suffix
ends_with suffix (c ∷ s) = text_eq (c ∷ s) suffix || ends_with suffix s

-- A name is one of the rules, or an attribute named by one.
unfoldable pub matches : List Text → Text → Bool
matches rules name = one_of name rules || any (λ rule. ends_with (46 ∷ rule) name) rules

unfoldable pub is_violation : (model : Text) → List Text → (name : Text) → Bool
is_violation model rules name =
    if text_eq model (codes "black")
    then matches rules name
    else if text_eq model (codes "white")
    then not (matches rules name)
    else false

abbrev pub violation_of : Fact → Violation
violation_of f = record { content = f.name; line = f.line; file = f.file }

-- The first loop.
unfoldable pub violations : (model : Text) → List Text → List Fact → List Violation
violations model rules [] = []
violations model rules (f ∷ fs) =
    let rest = violations model rules fs in
    if is_violation model rules f.name then violation_of f ∷ rest else rest

-- The key of the second loop: the file does not count.
abbrev pub is_key : Text → ℕ → Violation → Bool
is_key content line v = text_eq v.content content && v.line == line

abbrev pub listed : Text → ℕ → List Violation → Bool
listed content line vs = any (is_key content line) vs

-- The second loop, with the violations that were kept before.
unfoldable pub deduplicate : (kept : List Violation) → List Violation → List Violation
deduplicate kept [] = kept
deduplicate kept (v ∷ vs) =
    let next = if listed v.content v.line kept then kept else kept ++ v ∷ [] in deduplicate next vs

-- `sorted(..., key=lambda x: x["line"])`: equal lines keep their order.
unfoldable pub insert_by_line : Violation → List Violation → List Violation
insert_by_line v [] = v ∷ []
insert_by_line v (w ∷ ws) = if leb v.line w.line then v ∷ w ∷ ws else w ∷ insert_by_line v ws

unfoldable pub sort_by_line : List Violation → List Violation
sort_by_line [] = []
sort_by_line (v ∷ vs) = insert_by_line v (sort_by_line vs)

unfoldable pub check_items : (used : List Fact) (rules : List Text) (model : Text) → List Violation
check_items used rules model = sort_by_line (deduplicate [] (violations model rules used))

abbrev pub is_python : Language → Bool
is_python py = true
is_python _ = false

-- `none` is the empty dict.
unfoldable pub get_violations : Facts → RuleSet → Language → Option Violations
get_violations facts rules language =
    let model = or_default (codes "black") rules.model in
    let found : Violations = record {
      model = model;
      includes =
          if is_python language
          then check_items facts.imports rules.imports model
          else check_items facts.headers rules.headers model;
      functions = check_items facts.function_calls rules.functions model;
      syntax = check_items facts.syntax rules.syntax model;
    } in
    if is_empty found.includes && is_empty found.functions && is_empty found.syntax
    then none
    else some found
