-- ===== src/Analysis/Cycles/Recursion.antt =====
-- The whole search: it ends, no KeyError is raised, and a report is made exactly if there is a cycle.
use sandbox_2025team.Analysis.Cycles.Node.{edges_of-cons, dfs_lem, fresh-le}
use sandbox_2025team.Analysis.Cycles.Search.{
  reported, Inv, fresh, IsReport, Grows, Visited, Grows-refl, Grows-trans,
}
use sandbox_2025team.Rules.{Fact}
use sandbox_2025team.Dict.{lookup, keys, contains}
use sandbox_2025team.Base.Text.{Text, text_eq, text_eq_iff}
use sandbox_2025team.Analysis.Cycles.{
  nodes_of, dfs_from_all, edges_of, CallGraph, Fact, Walk, keys, contains, detect_cycles, dfs_from,
  callees,
}
use mathlib.Core.List.Memᴰ
use sandbox_2025team.Base.{
  ℕ, true, false, some, [], inl, inr, refl, List, Memᴰ, ◌∷◌, ◌++◌, length, ◌≡◌, Bool-cases, sym,
  append-nil, length-keep-le, All, ◌↔◌, not, ◌⊎◌, ◌≤◌, subst, ◌∙◌, ⊎_elim, arith,
}
use sandbox_2025team.Analysis.Cycles.Graph.{Edge, Ends, Cycle, Ends-no_cycle}

dfs_from_all-cons :
    (file : Text) (g : CallGraph) (fuel : ℕ) (u : Text) (us : List Text) (s t r : Walk)
    → dfs_from file g fuel u s ≡ some t
    → dfs_from_all file g fuel us t ≡ some r
    → dfs_from_all file g fuel (u ∷ us) s ≡ some r
unfolding dfs_from_all
dfs_from_all-cons file g fuel u us s t r ran ran_on = rw (ran, dfs_from_all) ran_on

module _ (file : Text) (g : CallGraph) (syntax : List Fact) where
  record VisitedAll (t : Walk) (us : List Text) : Type 0 where
    inv : Inv file g syntax t
    idle : (k : Text) → contains k t.recursion_stack ≡ false
    visited : (u : Text) → Memᴰ u us → contains u t.visited ≡ true

  dfs_from_lem :
      (fuel : ℕ) (u : Text) (s : Walk)
      → Inv file g syntax s
      → ((k : Text) → contains k s.recursion_stack ≡ false)
      → Memᴰ u (nodes_of g)
      → fresh file g syntax s ≤ fuel
      → (t : Walk) × (dfs_from file g fuel u s ≡ some t) × Visited file g syntax s t u
  unfolding dfs_from
  dfs_from_lem fuel u s inv idle m few = elim (Bool-cases (contains u s.visited)) [
    | inl seen ↦
        (s, rw seen, record { inv = inv; grows = Grows-refl file g syntax s; visited = seen })
    | inr new ↦
        let (t, ran, done) =
          dfs_lem file g syntax fuel u s inv new m few (λ k on. absurd (cc (idle k))) in
        (t, rw new ran, done)
  ]

  dfs_from_all_lem :
      (fuel : ℕ) (us : List Text) (s : Walk)
      → Inv file g syntax s
      → ((k : Text) → contains k s.recursion_stack ≡ false)
      → ((u : Text) → Memᴰ u us → Memᴰ u (nodes_of g))
      → fresh file g syntax s ≤ fuel
      → (t : Walk) × (dfs_from_all file g fuel us s ≡ some t)
        × VisitedAll t us
        × Grows file g syntax s t
  unfolding dfs_from_all
  dfs_from_all_lem fuel [] s inv idle sub few = (
    s,
    refl,
    record { inv = inv; idle = idle; visited = λ u m. absurd (Memᴰ.not-nil m) },
    Grows-refl file g syntax s,
  )
  dfs_from_all_lem fuel (u ∷ us) s inv idle sub few =
      let (t, ran, first) = dfs_from_lem fuel u s inv idle (sub u (Memᴰ.head refl)) few in
      let (r, ran_on, rest, grows) =
        dfs_from_all_lem fuel us t first.inv (λ k. first.grows.stack k ∙ idle k)
          (λ w m. sub w (Memᴰ.tail m)) (omega (arith, fresh-le file g syntax s t first.grows)) in
      (
        r,
        dfs_from_all-cons file g fuel u us s t r ran ran_on,
        record {
          inv = rest.inv;
          idle = rest.idle;
          visited = λ w m.
              ⊎_elim
                (λ e.
                  subst (λ k. contains k r.visited ≡ true) (sym e) (grows.visits u first.visited))
                (rest.visited w) (Memᴰ.cases_cons m);
        },
        Grows-trans file g syntax s t r first.grows grows,
      )

keys-nodes_of : (g : CallGraph) (u : Text) → Memᴰ u (keys g) → Memᴰ u (nodes_of g)
unfolding nodes_of
keys-nodes_of [] u m = absurd (Memᴰ.not-nil m)
keys-nodes_of ((w, edges) ∷ g) u m = elim (Memᴰ.cases_cons m) [
  | inl e ↦ Memᴰ.head e
  | inr later ↦ Memᴰ.tail (Memᴰ.append_right (callees edges) (keys-nodes_of g u later))
]

Edge-keys : (g : CallGraph) (u v : Text) (lineno : ℕ) → Edge g u v lineno → Memᴰ u (keys g)
unfolding edges_of lookup
Edge-keys [] u v lineno m = absurd (Memᴰ.not-nil m)
Edge-keys ((w, edges) ∷ g) u v lineno m = elim (Bool-cases (text_eq w u)) [
  | inl same ↦ Memᴰ.head (sym ((text_eq_iff w u).0 same))
  | inr other ↦
      let found = subst (Memᴰ (v, lineno)) (edges_of-cons g w u edges) m in
      let later : Edge g u v lineno = rw other at found in Memᴰ.tail (Edge-keys g u v lineno later)
]

module _ (file : Text) (g : CallGraph) (syntax : List Fact) where
  start : Walk
  start = record { visited = []; recursion_stack = []; syntax = syntax }

  start-Inv : Inv file g syntax start
  unfolding start contains
  start-Inv = record {
    stacked = λ k on. cc;
    added = ([], sym (append-nil syntax), tt);
    settled = λ k seen off. cc;
  }

  record Detected (result : List Fact) : Type 0 where
    runs : detect_cycles file g syntax ≡ some result
    grows : reported syntax ≡ true → reported result ≡ true
    added : (extra : List Fact) × (result ≡ syntax ++ extra) × All (IsReport file g syntax) extra
    settled : (u : Text) → Memᴰ u (keys g) → (reported result ≡ true) ⊎ Ends g u

  detect_cycles_lem : (result : List Fact) × Detected result
  unfolding detect_cycles start contains
  detect_cycles_lem =
      let (t, ran, all, grows) =
        dfs_from_all_lem file g syntax (length (nodes_of g)) (keys g) start start-Inv (λ k. refl)
          (keys-nodes_of g) (length-keep-le (λ k. not (contains k start.visited)) (nodes_of g)) in
      (
        t.syntax,
        record {
          runs = rw (ran, detect_cycles);
          grows = grows.reports;
          added = all.inv.added;
          settled = λ u m. all.inv.settled u (all.visited u m) (all.idle u);
        },
      )

  reported-added :
      (extra : List Fact)
      → reported (syntax ++ extra) ≡ true
      → All (IsReport file g syntax) extra
      → (reported syntax ≡ true) ⊎ ((lineno : ℕ) × Cycle g lineno)
  reported-added [] r all = inl (simp append-nil at r)
  reported-added (f ∷ fs) r all = inr (f.line, all.0.1)

  -- detect_cycles ends and raises no KeyError, whatever the graph of calls. Its facts then hold a
  -- report of recursion exactly if they held one before, or some call of the graph is on a cycle.
  pub detect_cycles-reports :
      (result : List Fact) × (detect_cycles file g syntax ≡ some result)
      × ((reported result ≡ true) ↔ ((reported syntax ≡ true) ⊎ ((lineno : ℕ) × Cycle g lineno)))
  detect_cycles-reports =
      let (result, found) = detect_cycles_lem in
      let (extra, e, all) = found.added in
      (
        result,
        found.runs,
        (
          λ r. reported-added extra (subst (λ fs. reported fs ≡ true) e r) all,
          ⊎_elim found.grows (λ c.
              ⊎_elim (λ r. r) (λ done. absurd (Ends-no_cycle g done c.1.call c.1.back))
                (found.settled c.1.caller (Edge-keys g c.1.caller c.1.callee c.0 c.1.call))),
        ),
      )

  -- detect_cycles keeps the facts that were collected before, and each fact that it adds is named
  -- "recursive" and carries the line of a call that is on a cycle of the graph.
  pub detect_cycles_sound :
      (result : List Fact)
      → detect_cycles file g syntax ≡ some result
      → (extra : List Fact) × (result ≡ syntax ++ extra) × All (IsReport file g syntax) extra
  detect_cycles_sound result h =
      let (found, d) = detect_cycles_lem in
      let same : found ≡ result = cc (d.runs) in
      let (extra, e, all) = d.added in (extra, sym same ∙ e, all)
