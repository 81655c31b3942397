-- ===== src/Grouping/Split.antt =====
-- A task without a case before one that has cases.
use sandbox_2025team.Base.Int.{pos_part}
use sandbox_2025team.Meta.{Task}
use sandbox_2025team.Base.{
  ℕ, List, ◌∙◌, ◌<◌, ◌≡◌, ◌⊎◌, ◌∷◌, arith, ◌++◌, inl, length, suc, [], ◌+◌, ◌≤◌, ap, inr, sym, All,
  zero, refl, append_assoc, length-append, subst,
}
use sandbox_2025team.Grouping.Gap.{IsSplit}

-- A task without a case stands before one that has cases, and this one is among the first hundred.
pub record HasGap (ts : List Task) : Type 0 where
  pub before : List Task
  pub empty_task : Task
  pub between : List Task
  pub filled : Task
  pub after : List Task
  pub split : ts ≡ before ++ (empty_task ∷ (between ++ filled ∷ after))
  pub few : length before + length between + 2 ≤ 100
  pub no_case : pos_part empty_task.case_count ≡ 0
  pub some_case : 0 < pos_part filled.case_count

zero_or_positive : (n : ℕ) → (n ≡ 0) ⊎ (0 < n)
zero_or_positive zero = inl refl
zero_or_positive (suc n) = inr (omega arith)

-- The tasks up to the first one that has cases.
record IsLed (ts : List Task) (bound : ℕ) : Type 0 where
  empties : List Task
  filled : Task
  after : List Task
  split : ts ≡ empties ++ filled ∷ after
  short : length empties ≤ bound
  no_cases : All (λ w. pos_part w.case_count ≡ 0) empties
  some_case : 0 < pos_part filled.case_count

led :
    (between : List Task) (filled : Task) (after : List Task)
    → 0 < pos_part filled.case_count
    → IsLed (between ++ filled ∷ after) (length between)
led [] filled after h = record {
  empties = [];
  filled = filled;
  after = after;
  split = refl;
  short = omega arith;
  no_cases = tt;
  some_case = h;
}
led (t ∷ between) filled after h = elim (zero_or_positive (pos_part t.case_count)) [
  | inl z ↦
      let l = led between filled after h in
      record {
        empties = t ∷ l.empties;
        filled = l.filled;
        after = l.after;
        split = ap (λ ts. t ∷ ts) l.split;
        short = omega (arith, l.short);
        no_cases = (z, l.no_cases);
        some_case = l.some_case;
      }
  | inr q ↦ record {
    empties = [];
    filled = t;
    after = between ++ filled ∷ after;
    split = refl;
    short = omega arith;
    no_cases = tt;
    some_case = q;
  }
]

-- The tasks that have cases in front of the first that has none.
record IsParted (ts : List Task) (bound : ℕ) : Type 0 where
  full : List Task
  empties : List Task
  filled : Task
  after : List Task
  split : ts ≡ full ++ (empties ++ filled ∷ after)
  short : length full + length empties ≤ bound
  earlier : All (λ w. 0 < pos_part w.case_count) full
  no_cases : All (λ w. pos_part w.case_count ≡ 0) empties
  gap : 0 < length empties
  some_case : 0 < pos_part filled.case_count

IsParted-here :
    (t : Task) (between : List Task) (filled : Task) (after : List Task)
    → pos_part t.case_count ≡ 0
    → 0 < pos_part filled.case_count
    → IsParted (t ∷ (between ++ filled ∷ after)) (suc (length between))
IsParted-here t between filled after z q =
    let l = led between filled after q in
    record {
      full = [];
      empties = t ∷ l.empties;
      filled = l.filled;
      after = l.after;
      split = ap (λ ts. t ∷ ts) l.split;
      short = omega (arith, l.short);
      earlier = tt;
      no_cases = (z, l.no_cases);
      gap = omega arith;
      some_case = l.some_case;
    }

-- Between a first task without a case and the last one.
IsParted-longer :
    (b : Task) (before : List Task) (t : Task) (between : List Task) (filled : Task)
    (after : List Task)
    → pos_part b.case_count ≡ 0
    → 0 < pos_part filled.case_count
    → IsParted
        (b ∷ (before ++ (t ∷ (between ++ filled ∷ after))))
        (suc (length before) + suc (length between))
IsParted-longer b before t between filled after z q =
    let p = IsParted-here b (before ++ t ∷ between) filled after z q in
    record {
      full = p.full;
      empties = p.empties;
      filled = p.filled;
      after = p.after;
      split =
          ap (λ ts. b ∷ ts) (sym (append_assoc before (t ∷ between) (filled ∷ after))) ∙ p.split;
      short = omega (arith, p.short, length-append {0} before (t ∷ between));
      earlier = p.earlier;
      no_cases = p.no_cases;
      gap = p.gap;
      some_case = p.some_case;
    }

parted :
    (before : List Task) (t : Task) (between : List Task) (filled : Task) (after : List Task)
    → pos_part t.case_count ≡ 0
    → 0 < pos_part filled.case_count
    → IsParted (before ++ (t ∷ (between ++ filled ∷ after))) (length before + suc (length between))
parted [] t between filled after z q =
    subst (IsParted (t ∷ (between ++ filled ∷ after))) (omega arith)
      (IsParted-here t between filled after z q)
parted (b ∷ before) t between filled after z q = elim (zero_or_positive (pos_part b.case_count)) [
  | inl none_here ↦ IsParted-longer b before t between filled after none_here q
  | inr some_here ↦
      let p = parted before t between filled after z q in
      record {
        full = b ∷ p.full;
        empties = p.empties;
        filled = p.filled;
        after = p.after;
        split = ap (λ ts. b ∷ ts) p.split;
        short = omega (arith, p.short);
        earlier = (some_here, p.earlier);
        no_cases = p.no_cases;
        gap = p.gap;
        some_case = p.some_case;
      }
]

pub HasGap-IsSplit : (ts : List Task) → HasGap ts → IsSplit ts
HasGap-IsSplit ts g =
    let p = parted g.before g.empty_task g.between g.filled g.after g.no_case g.some_case in
    record {
      before = p.full;
      empties = p.empties;
      filled = p.filled;
      after = p.after;
      split = g.split ∙ p.split;
      few = omega (arith, p.short, g.few);
      earlier = p.earlier;
      no_cases = p.no_cases;
      gap = p.gap;
      some_case = p.some_case;
    }
