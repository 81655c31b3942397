-- ===== src/Analysis/Cycles/Search.antt =====
-- The invariant of the search, and what one round of its loop over the calls keeps and finds.
use sandbox_2025team.Dict.{contains}
use sandbox_2025team.Rules.{Fact}
use sandbox_2025team.Analysis.Cycles.{
  CallGraph, Walk, report, any, follow, is_recursive, recursive_at, contains, Option, length,
  nodes_of, not, ◌∷◌, is_recursive_at, codes,
}
use sandbox_2025team.Base.Text.{Text, text_eq_refl, codes}
use sandbox_2025team.Base.{
  ℕ, true, false, some, [], inl, inr, refl, List, Bool, ◌≡◌, any, Memᴰ, length, ◌∙◌, ◌⊎◌, Option,
  ◌≤◌, keep, ◌++◌, All, arith, not, Bool-cases, append_assoc, All-append, ⊎_elim, any-append,
}
use sandbox_2025team.Analysis.Cycles.Graph.{Cycle, Reach, Ends, Edge, Reach-snoc}

reported_at :
    (lineno : ℕ) (syntax : List Fact)
    → any (is_recursive_at lineno) syntax ≡ true
    → any is_recursive syntax ≡ true
reported_at lineno [] h = cc
reported_at lineno (f ∷ fs) h = ground (arith, reported_at lineno fs)

abbrev pub reported : List Fact → Bool
reported syntax = any is_recursive syntax

module _ (file : Text) (g : CallGraph) (syntax : List Fact) where
  -- The nodes that are not visited yet.
  abbrev pub fresh : Walk → ℕ
  fresh s = length (keep (λ k. not (contains k s.visited)) (nodes_of g))

  -- A report names a line with a call on a cycle.
  abbrev pub IsReport : Fact → Type 0
  IsReport f = (f ≡ recursive_at file f.line) × Cycle g f.line

  -- What is known of a node once it is left.
  abbrev pub Settled : Walk → Text → Type 0
  Settled s k = (reported s.syntax ≡ true) ⊎ Ends g k

  pub record Inv (s : Walk) : Type 0 where
    pub stacked : (k : Text) → contains k s.recursion_stack ≡ true → contains k s.visited ≡ true
    pub added : (extra : List Fact) × (s.syntax ≡ syntax ++ extra) × All IsReport extra
    pub settled :
        (k : Text)
        → contains k s.visited ≡ true
        → contains k s.recursion_stack ≡ false
        → Settled s k

  pub record Grows (s t : Walk) : Type 0 where
    pub visits : (k : Text) → contains k s.visited ≡ true → contains k t.visited ≡ true
    pub stack : (k : Text) → contains k t.recursion_stack ≡ contains k s.recursion_stack
    pub reports : reported s.syntax ≡ true → reported t.syntax ≡ true

  pub Grows-refl : (s : Walk) → Grows s s
  Grows-refl s = record { visits = λ k h. h; stack = λ k. refl; reports = λ h. h }

  pub Grows-trans : (s t r : Walk) → Grows s t → Grows t r → Grows s r
  Grows-trans s t r a b = record {
    visits = λ k h. b.visits k (a.visits k h);
    stack = λ k. b.stack k ∙ a.stack k;
    reports = λ h. b.reports (a.reports h);
  }

  -- The chain of calls that is being followed leads to `u`.
  abbrev pub Leads : Walk → Text → Type 0
  Leads s u = (k : Text) → contains k s.recursion_stack ≡ true → Reach g k u

  pub record Visited (s t : Walk) (u : Text) : Type 0 where
    pub inv : Inv t
    pub grows : Grows s t
    pub visited : contains u t.visited ≡ true

  -- What the search from a node does, where at most `n` nodes are fresh.
  abbrev pub Serves : (Text → Walk → Option Walk) → ℕ → Type 0
  Serves d n =
      (u : Text) (s : Walk)
      → Inv s
      → contains u s.visited ≡ false
      → Memᴰ u (nodes_of g)
      → fresh s ≤ n
      → Leads s u
      → (t : Walk) × (d u s ≡ some t) × Visited s t u

  pub record Followed (s t : Walk) (v : Text) : Type 0 where
    pub inv : Inv t
    pub grows : Grows s t
    pub settled : Settled t v

  reported-report : (lineno : ℕ) (s : Walk) → reported (report file lineno s).syntax ≡ true
  unfolding report
  reported-report lineno s = ground (
    arith,
    reported_at lineno s.syntax,
    any-append is_recursive s.syntax (recursive_at file lineno ∷ []),
    text_eq_refl (codes "recursive"),
  )

  Inv-report : (lineno : ℕ) (s : Walk) → Inv s → Cycle g lineno → Inv (report file lineno s)
  unfolding report
  Inv-report lineno s h c = elim (Bool-cases (any (is_recursive_at lineno) s.syntax)) [
    | inl there ↦ rw there h
    | inr absent ↦ rw absent (record {
      stacked = h.stacked;
      added =
          let (extra, e, all) = h.added in
          (
            extra ++ recursive_at file lineno ∷ [],
            simp (e, append_assoc),
            All-append IsReport extra (recursive_at file lineno ∷ []) all ((refl, c), tt),
          );
      settled = λ k seen off.
          ⊎_elim
            (λ r.
              inl (
                ground
                  (arith, r, any-append is_recursive s.syntax (recursive_at file lineno ∷ []))))
            inr (h.settled k seen off);
    })
  ]

  Grows-report : (lineno : ℕ) (s : Walk) → Grows s (report file lineno s)
  unfolding report
  Grows-report lineno s = elim (Bool-cases (any (is_recursive_at lineno) s.syntax)) [
    | inl there ↦ rw there (Grows-refl s)
    | inr absent ↦ rw absent (record {
      visits = λ k h. h;
      stack = λ k. refl;
      reports = λ h. rw (any-append is_recursive s.syntax (recursive_at file lineno ∷ []), h);
    })
  ]

  pub follow_lem :
      (d : Text → Walk → Option Walk) (n : ℕ) {u v : Text} {lineno : ℕ} (s : Walk)
      → Serves d n
      → Inv s
      → fresh s ≤ n
      → Leads s u
      → Edge g u v lineno
      → Memᴰ v (nodes_of g)
      → (t : Walk) × (follow file d v lineno s ≡ some t) × Followed s t v
  unfolding follow
  follow_lem d n {u} {v} {lineno} s serves inv few leads e m =
      elim (Bool-cases (contains v s.visited)) [
        | inl seen ↦ elim (Bool-cases (contains v s.recursion_stack)) [
          | inl on ↦ (
            report file lineno s,
            rw (seen, on),
            record {
              inv =
                  Inv-report lineno s inv
                    (record { caller = u; callee = v; call = e; back = leads v on });
              grows = Grows-report lineno s;
              settled = inl (reported-report lineno s);
            },
          )
          | inr off ↦ (
            s,
            rw (seen, off),
            record { inv = inv; grows = Grows-refl s; settled = inv.settled v seen off },
          )
        ]
        | inr new ↦
            let (t, ran, done) = serves v s inv new m few (λ k on. Reach-snoc g (leads k on) e) in
            (
              t,
              rw (new, ran),
              record {
                inv = done.inv;
                grows = done.grows;
                settled =
                    done.inv.settled v done.visited
                      (ground (arith, done.grows.stack v, inv.stacked v));
              },
            )
      ]
