-- ===== src/Grouping/Tables.antt =====
-- The shape of the nested dicts while the results of a submission are regrouped in order.
use sandbox_2025team.Base.{
  ℕ, ◌+◌, ◌≤◌, ◌≡◌, refl, true, List, [], ◌∷◌, ◌++◌, map, length, all, arith, ap,
}
use sandbox_2025team.Grouping.{set_inner, set_case, is_range, finish, firsts, ok}

module _ {ℓ} {V : Type ℓ} where
  -- The dict of one task, whose cases are numbered from `c`.
  abbrev pub cells : ℕ → List V → List (ℕ × V)
  cells c [] = []
  cells c (v ∷ vs) = (c, v) ∷ cells (c + 1) vs

  -- The dict of the tasks, numbered from `t`.
  abbrev pub tables : ℕ → List (List V) → List (ℕ × List (ℕ × V))
  tables t [] = []
  tables t (vs ∷ rest) = (t, cells 0 vs) ∷ tables (t + 1) rest

  pub set_inner-cells :
      (b c : ℕ) (v : V) (vs : List V)
      → b + length vs ≡ c
      → set_inner c v (cells b vs) ≡ cells b (vs ++ v ∷ [])
  unfolding set_inner
  set_inner-cells b c v [] h = ground arith
  set_inner-cells b c v (w ∷ vs) h = ground (arith, set_inner-cells (b + 1) c v vs)

  pub set_case_new :
      (u t c : ℕ) (v : V) (done : List (List V))
      → u + length done ≤ t
      → set_case t c v (tables u done) ≡ tables u done ++ (t, (c, v) ∷ []) ∷ []
  unfolding set_case
  set_case_new u t c v [] h = refl
  set_case_new u t c v (d ∷ done) h = ground (arith, set_case_new (u + 1) t c v done)

  pub set_case_last :
      (u t c : ℕ) (v : V) (done : List (List V)) (cs : List (ℕ × V))
      → u + length done ≤ t
      → set_case t c v (tables u done ++ (t, cs) ∷ []) ≡ tables u done ++ (t, set_inner c v cs) ∷ []
  unfolding set_case
  set_case_last u t c v [] cs h = ground arith
  set_case_last u t c v (d ∷ done) cs h = ground (arith, set_case_last (u + 1) t c v done cs)

  pub tables_snoc :
      (u : ℕ) (done : List (List V)) (vs : List V)
      → tables u done ++ (u + length done, cells 0 vs) ∷ [] ≡ tables u (done ++ vs ∷ [])
  tables_snoc u [] vs = ground arith
  tables_snoc u (d ∷ done) vs = ground (arith, tables_snoc (u + 1) done vs)

  is_range-cells : (c : ℕ) (vs : List V) → is_range c (firsts (cells c vs)) ≡ true
  unfolding is_range
  is_range-cells c [] = refl
  is_range-cells c (v ∷ vs) = ground (arith, is_range-cells (c + 1) vs)

  is_range-tables : (t : ℕ) (vss : List (List V)) → is_range t (firsts (tables t vss)) ≡ true
  unfolding is_range
  is_range-tables t [] = refl
  is_range-tables t (vs ∷ vss) = ground (arith, is_range-tables (t + 1) vss)

  all-tables :
      (t : ℕ) (vss : List (List V)) → all (λ e. is_range 0 (firsts e.1)) (tables t vss) ≡ true
  all-tables t [] = refl
  all-tables t (vs ∷ vss) = rw (is_range-cells 0 vs) (all-tables (t + 1) vss)

  map-cells : (c : ℕ) (vs : List V) → map (λ x. x.1) (cells c vs) ≡ vs
  map-cells c [] = refl
  map-cells c (v ∷ vs) = ap (λ l. v ∷ l) (map-cells (c + 1) vs)

  map-tables : (t : ℕ) (vss : List (List V)) → map (λ e. map (λ x. x.1) e.1) (tables t vss) ≡ vss
  map-tables t [] = refl
  map-tables t (vs ∷ vss) = cc (map-cells 0 vs, map-tables (t + 1) vss)

  pub finish-tables : (vss : List (List V)) → finish (tables 0 vss) ≡ ok vss
  unfolding finish
  finish-tables vss = rw (all-tables 0 vss, is_range-tables 0 vss) (ap ok (map-tables 0 vss))
