-- ===== src/Analysis/Cycles/Node.antt =====
-- The search from one node: it ends, it raises no KeyError, and it settles the node.
use sandbox_2025team.Dict.Laws.{contains-add, contains-discard}
use mathlib.Core.List.Memᴰ
use sandbox_2025team.Analysis.Cycles.Search.{
  Grows, Inv, Serves, Settled, fresh, Leads, Grows-refl, reported, Visited, follow_lem, Grows-trans,
}
use sandbox_2025team.Rules.{Fact}
use sandbox_2025team.Dict.{lookup, contains, discard, add}
use sandbox_2025team.Base.Text.{Text, text_eq, text_eq_iff, text_eq_refl}
use sandbox_2025team.Analysis.Cycles.{
  nodes_of, CallGraph, List, edges_of, Fact, lookup, callees, Walk, follow_all, Option, not,
  contains, leave, enter, text_eq, discard, add, follow, dfs,
}
use sandbox_2025team.Base.{
  ℕ, false, some, [], inl, inr, refl, suc, zero, List, Memᴰ, Option, ◌≤◌, length-keep_mono, not,
  ◌≡◌, arith, Bool-cases, ◌∷◌, ◌<◌, ap, length-keep-lt, ⊎_elim, sym, ◌∙◌, subst, if◌then◌else◌,
}
use sandbox_2025team.Analysis.Cycles.Graph.{here, ends, Edge, Ends}

pub mem-callees :
    (v : Text) (lineno : ℕ) (edges : List (Text × ℕ))
    → Memᴰ (v, lineno) edges
    → Memᴰ v (callees edges)
mem-callees v lineno [] m = absurd (Memᴰ.not-nil m)
mem-callees v lineno ((w, n) ∷ edges) m = elim (Memᴰ.cases_cons m) [
  | inl e ↦ Memᴰ.head (ap (λ p. p.0) e)
  | inr later ↦ Memᴰ.tail (mem-callees v lineno edges later)
]

pub edges_of-cons :
    (g : CallGraph) (w u : Text) (edges : List (Text × ℕ))
    → edges_of ((w, edges) ∷ g) u ≡ (if text_eq w u then edges else edges_of g u)
unfolding edges_of lookup
edges_of-cons g w u edges = ground arith

mem-nodes_of : (g : CallGraph) (u v : Text) (lineno : ℕ) → Edge g u v lineno → Memᴰ v (nodes_of g)
unfolding nodes_of edges_of lookup
mem-nodes_of [] u v lineno m = absurd (Memᴰ.not-nil m)
mem-nodes_of ((w, edges) ∷ g) u v lineno m =
    let found = subst (Memᴰ (v, lineno)) (edges_of-cons g w u edges) m in
    elim (Bool-cases (text_eq w u)) [
      | inl same ↦
          let first : Memᴰ (v, lineno) edges = rw same at found in
          Memᴰ.tail (Memᴰ.append_left (nodes_of g) (mem-callees v lineno edges first))
      | inr other ↦
          let later : Edge g u v lineno = rw other at found in
          Memᴰ.tail (Memᴰ.append_right (callees edges) (mem-nodes_of g u v lineno later))
    ]

follow_all-cons :
    (file : Text) (d : Text → Walk → Option Walk) (v : Text) (lineno : ℕ) (edges : List (Text × ℕ))
    (s t r : Walk)
    → follow file d v lineno s ≡ some t
    → follow_all file d edges t ≡ some r
    → follow_all file d ((v, lineno) ∷ edges) s ≡ some r
unfolding follow_all
follow_all-cons file d v lineno edges s t r ran ran_on = rw (ran, follow_all) ran_on

module _ (file : Text) (g : CallGraph) (syntax : List Fact) where
  record FollowedAll (s t : Walk) (edges : List (Text × ℕ)) : Type 0 where
    inv : Inv file g syntax t
    grows : Grows file g syntax s t
    settled : (v : Text) (lineno : ℕ) → Memᴰ (v, lineno) edges → Settled file g syntax t v

  pub fresh-le :
      (s t : Walk) → Grows file g syntax s t → fresh file g syntax t ≤ fresh file g syntax s
  fresh-le s t grows =
      length-keep_mono (λ k. not (contains k t.visited)) (λ k. not (contains k s.visited))
        (nodes_of g) (λ k h. ground (arith, grows.visits k))

  follow_all_lem :
      (d : Text → Walk → Option Walk) (n : ℕ) (u : Text) (edges : List (Text × ℕ)) (s : Walk)
      → Serves file g syntax d n
      → Inv file g syntax s
      → fresh file g syntax s ≤ n
      → Leads file g syntax s u
      → ((v : Text) (lineno : ℕ) → Memᴰ (v, lineno) edges → Edge g u v lineno)
      → (t : Walk) × (follow_all file d edges s ≡ some t) × FollowedAll s t edges
  unfolding follow_all
  follow_all_lem d n u [] s serves inv few leads sub = (
    s,
    refl,
    record {
      inv = inv;
      grows = Grows-refl file g syntax s;
      settled = λ v lineno m. absurd (Memᴰ.not-nil m);
    },
  )
  follow_all_lem d n u ((v, lineno) ∷ edges) s serves inv few leads sub =
      let edge = sub v lineno (Memᴰ.head refl) in
      let (t, ran, first) =
        follow_lem file g syntax d n s serves inv few leads edge (mem-nodes_of g u v lineno edge) in
      let (r, ran_on, rest) =
        follow_all_lem d n u edges t serves first.inv (omega (arith, fresh-le s t first.grows))
          (λ k on. leads k (sym (first.grows.stack k) ∙ on)) (λ w l m. sub w l (Memᴰ.tail m)) in
      (
        r,
        follow_all-cons file d v lineno edges s t r ran ran_on,
        record {
          inv = rest.inv;
          grows = Grows-trans file g syntax s t r first.grows rest.grows;
          settled = λ w l m.
              ⊎_elim
                (λ e.
                  ⊎_elim (λ h. inl (rest.grows.reports h))
                    (λ h. inr (subst (Ends g) (sym (ap (λ p. p.0) e)) h)) first.settled)
                (rest.settled w l) (Memᴰ.cases_cons m);
        },
      )

  enter-Leads : (u : Text) (s : Walk) → Leads file g syntax s u → Leads file g syntax (enter u s) u
  enter-Leads u s leads k on = elim (Bool-cases (text_eq u k)) [
    | inl same ↦ rw ((text_eq_iff u k).0 same) here
    | inr other ↦ leads k (ground (arith, contains-add u k s.recursion_stack))
  ]

  enter-Inv : (u : Text) (s : Walk) → Inv file g syntax s → Inv file g syntax (enter u s)
  enter-Inv u s inv = record {
    stacked = λ k on.
        ground
          (arith, inv.stacked k, contains-add u k s.recursion_stack, contains-add u k s.visited);
    added = inv.added;
    settled = λ k seen off.
        inv.settled k
          (ground (arith, contains-add u k s.recursion_stack, contains-add u k s.visited))
          (ground (arith, contains-add u k s.recursion_stack));
  }

  fresh-enter :
      (u : Text) (s : Walk)
      → contains u s.visited ≡ false
      → Memᴰ u (nodes_of g)
      → fresh file g syntax (enter u s) < fresh file g syntax s
  fresh-enter u s new m =
      length-keep-lt (λ k. not (contains k (add u s.visited))) (λ k. not (contains k s.visited)) u
        (nodes_of g) m (λ k h. ground (arith, contains-add u k s.visited))
        (ground (arith, contains-add u u s.visited, text_eq_refl u)) (rw new)

  -- After the last call of `u`, it is settled: unless something is reported, all its callees are.
  Settled-by :
      (u : Text) (t : Walk)
      → ((v : Text) (lineno : ℕ) → Edge g u v lineno → Settled file g syntax t v)
      → Settled file g syntax t u
  Settled-by u t all = elim (Bool-cases (reported t.syntax)) [
    | inl yes_ ↦ inl yes_
    | inr no_ ↦ inr (ends (λ v lineno e. ⊎_elim (λ h. absurd (cc)) (λ h. h) (all v lineno e)))
  ]

  leave_lem :
      (u : Text) (s t : Walk)
      → contains u s.visited ≡ false
      → Inv file g syntax s
      → FollowedAll (enter u s) t (edges_of g u)
      → (r : Walk) × (leave u t ≡ some r) × Visited file g syntax s r u
  unfolding leave
  leave_lem u s t new inv all =
      let same_stack = λ (k : Text). (all.grows.stack k ∙ contains-add u k s.recursion_stack) in
      let left = λ (k : Text). contains-discard u k t.recursion_stack in
      (
        record t { recursion_stack = discard u t.recursion_stack },
        ground (arith, same_stack u, text_eq_refl u),
        record {
          inv = record {
            stacked = λ k on. all.inv.stacked k (ground (arith, left k));
            added = all.inv.added;
            settled = λ k seen off. elim (Bool-cases (text_eq u k)) [
              | inl same ↦
                  subst (Settled file g syntax t) ((text_eq_iff u k).0 same)
                    (Settled-by u t all.settled)
              | inr other ↦ all.inv.settled k seen (ground (arith, left k))
            ];
          };
          grows = record {
            visits = λ k h. all.grows.visits k (ground (arith, contains-add u k s.visited));
            stack = λ k. ground (arith, left k, same_stack k, inv.stacked k, text_eq_iff u k);
            reports = all.grows.reports;
          };
          visited = all.grows.visits u (ground (arith, contains-add u u s.visited, text_eq_refl u));
        },
      )

  pub dfs_lem : (fuel : ℕ) → Serves file g syntax (dfs file g fuel) fuel
  unfolding dfs
  dfs_lem zero u s inv new m few leads = absurd (omega (arith, fresh-enter u s new m))
  dfs_lem (suc fuel) u s inv new m few leads =
      let (t, ran, all) =
        follow_all_lem (dfs file g fuel) fuel u (edges_of g u) (enter u s) (dfs_lem fuel)
          (enter-Inv u s inv) (omega (arith, fresh-enter u s new m)) (enter-Leads u s leads)
          (λ v lineno e. e) in
      let (r, left, done) = leave_lem u s t new inv all in (r, rw (ran, dfs) left, done)
