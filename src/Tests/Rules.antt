-- ===== src/Tests/Rules.antt =====
-- The rules of the static analysis.
use sandbox_2025team.Rules.Order.{IsSorted, IsUnique, check_items-IsSorted}
use sandbox_2025team.Rules.Listed.{listed-check_items}
use sandbox_2025team.Rules.{
  Facts, listed, Fact, check_items, RuleSet, is_key, violation_of, is_violation,
}
use sandbox_2025team.Base.Text.{Text, codes}
use sandbox_2025team.Base.{[], some, ◌∷◌, ◌≡◌, any, ◌&&◌}

abbrev sort_call : Fact
sort_call = record { name = codes "list.sort"; line = 3; file = codes "main.py" }

abbrev calls : Facts
calls = record { imports = []; headers = []; function_calls = sort_call ∷ []; syntax = [] }

abbrev rules_of : Text → RuleSet
rules_of model = record {
  model = some model;
  imports = [];
  headers = [];
  functions = codes "sort" ∷ [];
  syntax = [];
}

listed-check_items_example :
    listed
      (codes "list.sort")
      3
      (check_items (sort_call ∷ sort_call ∷ []) (codes "sort" ∷ []) (codes "black"))
    ≡ any
        (λ f.
          is_key (codes "list.sort") 3 (violation_of f)
          && is_violation (codes "black") (codes "sort" ∷ []) f.name)
        (sort_call ∷ sort_call ∷ [])
listed-check_items_example =
    listed-check_items (codes "list.sort") 3 (sort_call ∷ sort_call ∷ []) (codes "sort" ∷ [])
      (codes "black")

check_items-IsSorted_example :
    IsSorted (check_items (sort_call ∷ sort_call ∷ []) (codes "sort" ∷ []) (codes "black"))
    × IsUnique (check_items (sort_call ∷ sort_call ∷ []) (codes "sort" ∷ []) (codes "black"))
check_items-IsSorted_example =
    check_items-IsSorted (sort_call ∷ sort_call ∷ []) (codes "sort" ∷ []) (codes "black")
