-- ===== src/Analysis/Run/Forbidden.antt =====
-- From what stands in a Python file to the verdict of its analysis.
use sandbox_2025team.Analysis.Cycles.{is_recursive}
use sandbox_2025team.Analysis.Cycles.Search.{reported}
use sandbox_2025team.Analysis.Cycles.Recursion.{detect_cycles-reports}
use sandbox_2025team.Analysis.Python.Imports.{subnodes, imported_by, imported, visit-imports}
use sandbox_2025team.Analysis.Python.Recursion.{CallIn, CallChain, facts_of_tree-reports}
use sandbox_2025team.Analysis.Ast.{Node}
use sandbox_2025team.Analysis.Report.{AnalysisResult, set_violations}
use sandbox_2025team.Rules.Passing.{breaks, model_of, get_violations-none_iff}
use sandbox_2025team.Analysis.Definitions.{Definitions}
use sandbox_2025team.Analysis.Python.{facts_of_tree, visit, new_visitor}
use sandbox_2025team.Rules.{RuleSet, Facts, get_violations, Fact, is_violation}
use mathlib.Core.List.Memᴰ
use sandbox_2025team.Meta.{py, Language}
use sandbox_2025team.Base.{
  ℕ, true, false, [], ◌∷◌, none, some, refl, inl, inr, List, ◌≡◌, ◌≢◌, ◌⊎◌, Option-cases, Memᴰ,
  Bool, ⊎_elim, ◌++◌, any, subst, arith, ap, sym, Bool-cases, any-append, ◌∙◌,
}
use sandbox_2025team.Base.Text.{Text, codes, text_eq_iff}
use sandbox_2025team.Analysis.Analyzer.{
  returned, all_parsed, AnalysisOutcome, judge, merge_facts, parse_all, no_definitions,
  facts_of_trees, analyze_trees, no_facts,
}
use sandbox_2025team.Analysis.Sources.{SourceTree, FilePath, last_name}

facts_of_tree_total :
    (file : Text) (known : Definitions) (node : Node)
    → (facts : Facts) × (facts_of_tree file known node ≡ some facts)
      × (facts.imports ≡ (visit file known node new_visitor).imports)
unfolding facts_of_tree
facts_of_tree_total file known node =
    let s = visit file known node new_visitor in
    let (syntax, ran, exactly) = detect_cycles-reports file s.call_graph s.syntax in
    (
      record {
        imports = s.imports;
        headers = [];
        function_calls = s.function_calls;
        syntax = syntax;
      },
      rw (ran, facts_of_tree),
      refl,
    )

-- One of the lists of facts, which merging appends, and a test of its elements.
module _ (items : Facts → List Fact) (p : Fact → Bool)
    (merges : (a b : Facts) → items (merge_facts a b) ≡ items a ++ items b) where
  abbrev Holds : Facts → Type 0
  Holds facts = any p (items facts) ≡ true

  facts_of_trees_kept :
      (known : Definitions) (trees : List (Node × FilePath)) (facts : Facts)
      → Holds facts
      → (total : Facts) × (facts_of_trees known trees facts ≡ some total) × Holds total
  unfolding facts_of_trees
  facts_of_trees_kept known [] facts h = (facts, refl, h)
  facts_of_trees_kept known ((node, path) ∷ trees) facts h =
      let (found, e, _) = facts_of_tree_total (last_name path) known node in
      let (total, ran, holds) = facts_of_trees_kept known trees (merge_facts facts found) (
        ground
          (arith, ap (any p) (merges facts found), any-append p (items facts) (items found))) in
      (total, rw (e, facts_of_trees) ran, holds)

  facts_of_trees_found :
      (known : Definitions) (trees : List (Node × FilePath)) (facts : Facts) (node : Node)
      (path : FilePath) (found : Facts)
      → Memᴰ (node, path) trees
      → facts_of_tree (last_name path) known node ≡ some found
      → Holds found
      → (total : Facts) × (facts_of_trees known trees facts ≡ some total) × Holds total
  unfolding facts_of_trees
  facts_of_trees_found known [] facts node path found m e h = absurd (Memᴰ.not-nil m)
  facts_of_trees_found known ((first_node, place) ∷ trees) facts node path found m e h =
      elim (Memᴰ.cases_cons m) [
        | inl same ↦
            let here : facts_of_tree (last_name place) known first_node ≡ some found =
              subst (λ (t : Node × FilePath). facts_of_tree (last_name t.1) known t.0 ≡ some found)
                same e in
            let (total, ran, holds) = facts_of_trees_kept known trees (merge_facts facts found) (
              ground (
                arith,
                ap (any p) (merges facts found),
                any-append p (items facts) (items found),
              )) in
            (total, rw (here, facts_of_trees) ran, holds)
        | inr later ↦
            let (first, ran_first, _) = facts_of_tree_total (last_name place) known first_node in
            let (total, ran, holds) =
              facts_of_trees_found known trees (merge_facts facts first) node path found later e
                h in
            (total, rw (ran_first, facts_of_trees) ran, holds)
      ]

-- The analysis returns, and the submission does not pass.
abbrev pub Refuses : AnalysisOutcome → Type 0
Refuses outcome = (r : AnalysisResult) × (outcome ≡ returned r) × (r.success ≡ false)

judge-Refuses :
    (rules : RuleSet) (language : Language) (r : AnalysisResult) (facts : Facts)
    → get_violations facts rules language ≢ none
    → Refuses (judge rules language r facts)
unfolding judge set_violations
judge-Refuses rules language r facts bad =
    elim (Option-cases (get_violations facts rules language)) [
      | inl clear ↦ absurd (bad clear)
      | inr (found, e) ↦
          (set_violations language found (record r { success = false }), rw (e, judge), refl)
    ]

-- A syntax or an import of a file that the rules do not allow.
abbrev pub Forbids : RuleSet → Facts → Type 0
Forbids rules facts =
    (breaks (model_of rules) rules.syntax facts.syntax ≡ true)
    ⊎ (breaks (model_of rules) rules.imports facts.imports ≡ true)

Forbids-ne :
    (rules : RuleSet) (facts : Facts) → Forbids rules facts → get_violations facts rules py ≢ none
Forbids-ne rules facts bad clear =
    let (_, syntax, imports) = (get_violations-none_iff facts rules py).0 clear in
    ⊎_elim (λ h. cc) (λ h. cc) bad

facts_of_trees-Forbids :
    (rules : RuleSet) (known : Definitions) (trees : List (Node × FilePath)) (facts : Facts)
    (node : Node) (path : FilePath) (found : Facts)
    → Memᴰ (node, path) trees
    → facts_of_tree (last_name path) known node ≡ some found
    → Forbids rules found
    → (total : Facts) × (facts_of_trees known trees facts ≡ some total) × Forbids rules total
unfolding merge_facts
facts_of_trees-Forbids rules known trees facts node path found m e (inl h) =
    let (total, ran, holds) =
      facts_of_trees_found (λ f. f.syntax) (λ f. is_violation (model_of rules) rules.syntax f.name)
        (λ a b. refl) known trees facts node path found m e h in
    (total, ran, inl holds)
facts_of_trees-Forbids rules known trees facts node path found m e (inr h) =
    let (total, ran, holds) =
      facts_of_trees_found (λ f. f.imports)
        (λ f. is_violation (model_of rules) rules.imports f.name) (λ a b. refl) known trees facts
        node path found m e h in
    (total, ran, inr holds)

module _ (rules : RuleSet) where
  breaks_recursive :
      (syntax : List Fact)
      → is_violation (model_of rules) rules.syntax (codes "recursive") ≡ true
      → reported syntax ≡ true
      → breaks (model_of rules) rules.syntax syntax ≡ true
  breaks_recursive [] v h = cc
  breaks_recursive (f ∷ fs) v h = elim (Bool-cases (is_recursive f)) [
    | inl same ↦
        let named : f.name ≡ codes "recursive" = (text_eq_iff f.name (codes "recursive")).0 same in
        ground (arith, ap (is_violation (model_of rules) rules.syntax) named)
    | inr other ↦ ground (arith, breaks_recursive fs v)
  ]

  breaks-imported :
      (file : Text) (m : Node) (ns : List Node)
      → Memᴰ m ns
      → breaks (model_of rules) rules.imports (imported file m) ≡ true
      → breaks (model_of rules) rules.imports (imported_by file ns) ≡ true
  unfolding imported_by
  breaks-imported file m [] among_ h = absurd (Memᴰ.not-nil among_)
  breaks-imported file m (n ∷ ns) among_ h =
      let split =
        any-append (λ f. is_violation (model_of rules) rules.imports f.name) (imported file n)
          (imported_by file ns) in
      elim (Memᴰ.cases_cons among_) [
        | inl same ↦
            let here : breaks (model_of rules) rules.imports (imported file n) ≡ true =
              subst (λ k. breaks (model_of rules) rules.imports (imported file k) ≡ true) same h in
            ground (arith, split, here)
        | inr later ↦ ground (arith, split, breaks-imported file m ns later h)
      ]

module _ (tree : SourceTree) (rules : RuleSet) (targets : List FilePath) (r : AnalysisResult)
    (known : Definitions) (trees : List (Node × FilePath))
    (all : parse_all tree targets no_definitions ≡ all_parsed known trees) (node : Node)
    (path : FilePath) (among : Memᴰ (node, path) trees) where
  analyze_trees-Refuses :
      (found : Facts)
      → facts_of_tree (last_name path) known node ≡ some found
      → Forbids rules found
      → Refuses (analyze_trees tree rules targets r)
  unfolding analyze_trees
  analyze_trees-Refuses found e bad =
      let (total, ran, forbids) =
        facts_of_trees-Forbids rules known trees no_facts node path found among e bad in
      rw (all, analyze_trees)
        (rw ran (judge-Refuses rules py r total (Forbids-ne rules total forbids)))

  -- Where all Python files to be analysed parse, they are refused for recursion in one of them,
  -- if the rules do not allow "recursive": a function calls, at any depth of its body, a function
  -- that leads back to it, over functions that are defined outside of classes in any of the
  -- files.
  pub analyze_trees-Refuses_recursion :
      (caller callee : Text) (line : ℕ)
      → CallIn known node caller callee line
      → CallChain known node callee caller
      → is_violation (model_of rules) rules.syntax (codes "recursive") ≡ true
      → Refuses (analyze_trees tree rules targets r)
  analyze_trees-Refuses_recursion caller callee line c chain v =
      let (found, e, said) =
        facts_of_tree-reports (last_name path) known node caller callee line c chain in
      analyze_trees-Refuses found e (inl (breaks_recursive rules found.syntax v said))

  -- Where all Python files to be analysed parse, they are refused for an import in one of them
  -- that the rules do not allow, wherever in the file it stands.
  pub analyze_trees-Refuses_import :
      (m : Node)
      → Memᴰ m (subnodes node)
      → breaks (model_of rules) rules.imports (imported (last_name path) m) ≡ true
      → Refuses (analyze_trees tree rules targets r)
  analyze_trees-Refuses_import m below bad =
      let (found, e, same) = facts_of_tree_total (last_name path) known node in
      analyze_trees-Refuses found e (
        inr (
          subst (λ fs. breaks (model_of rules) rules.imports fs ≡ true)
            (sym (same ∙ visit-imports (last_name path) known node))
            (breaks-imported rules (last_name path) m (subnodes node) below bad)))
