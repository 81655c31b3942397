-- ===== src/Rules/Order.antt =====
-- The order of the violations, that each one stands there once, and when there are none.
use sandbox_2025team.Rules.Listed.{listed-sort_by_line, listed-append, listed-insert_by_line}
use sandbox_2025team.Base.Text.{Text, text_eq_iff}
use sandbox_2025team.Rules.{
  check_items, sort_by_line, insert_by_line, deduplicate, Fact, Violation, listed, Text, violations,
}
use sandbox_2025team.Base.{
  ℕ, false, List, ◌≤◌, ◌∷◌, Bool-cases, All, [], ◌≡◌, leb, inl, arith, ◌∙◌, ◌++◌, inr, refl,
}

-- Sorted by line.
abbrev pub IsSorted : List Violation → Type 0
IsSorted [] = Unit
IsSorted (v ∷ vs) = All (λ w. v.line ≤ w.line) vs × IsSorted vs

-- No name stands twice on one line.
abbrev pub IsUnique : List Violation → Type 0
IsUnique [] = Unit
IsUnique (v ∷ vs) = (listed v.content v.line vs ≡ false) × IsUnique vs

after-insert :
    (n : ℕ) (v : Violation) (ws : List Violation)
    → n ≤ v.line
    → All (λ w. n ≤ w.line) ws
    → All (λ w. n ≤ w.line) (insert_by_line v ws)
unfolding insert_by_line
after-insert n v [] h k = (h, tt)
after-insert n v (w ∷ ws) h (k, ks) = elim (Bool-cases (leb v.line w.line)) [
  | inl less ↦ rw less (h, (k, ks))
  | inr more ↦ rw more (k, after-insert n v ws h ks)
]

All-later :
    (m n : ℕ) (ws : List Violation) → m ≤ n → All (λ w. n ≤ w.line) ws → All (λ w. m ≤ w.line) ws
All-later m n [] h k = tt
All-later m n (w ∷ ws) h (k, ks) = (omega arith, All-later m n ws h ks)

insert_by_line-IsSorted :
    (v : Violation) (ws : List Violation) → IsSorted ws → IsSorted (insert_by_line v ws)
unfolding insert_by_line
insert_by_line-IsSorted v [] s = (tt, tt)
insert_by_line-IsSorted v (w ∷ ws) (least, s) = elim (Bool-cases (leb v.line w.line)) [
  | inl less ↦
      let le : v.line ≤ w.line = ground (arith, less) in
      rw less ((le, All-later v.line w.line ws le least), (least, s))
  | inr more ↦
      rw more
        (after-insert w.line v ws (ground (arith, more)) least, insert_by_line-IsSorted v ws s)
]

sort_by_line-IsSorted : (vs : List Violation) → IsSorted (sort_by_line vs)
unfolding sort_by_line
sort_by_line-IsSorted [] = tt
sort_by_line-IsSorted (v ∷ vs) =
    insert_by_line-IsSorted v (sort_by_line vs) (sort_by_line-IsSorted vs)

insert_by_line-IsUnique :
    (v : Violation) (ws : List Violation)
    → listed v.content v.line ws ≡ false
    → IsUnique ws
    → IsUnique (insert_by_line v ws)
unfolding insert_by_line
insert_by_line-IsUnique v [] h u = (refl, tt)
insert_by_line-IsUnique v (w ∷ ws) h (new, u) = elim (Bool-cases (leb v.line w.line)) [
  | inl less ↦ rw less (h, (new, u))
  | inr more ↦ rw more (
    ground (
      arith,
      more,
      listed-insert_by_line w.content w.line v ws,
      text_eq_iff v.content w.content,
      text_eq_iff w.content v.content,
    ),
    insert_by_line-IsUnique v ws (ground arith) u,
  )
]

sort_by_line-IsUnique : (vs : List Violation) → IsUnique vs → IsUnique (sort_by_line vs)
unfolding sort_by_line
sort_by_line-IsUnique [] u = tt
sort_by_line-IsUnique (v ∷ vs) (new, u) =
    insert_by_line-IsUnique v (sort_by_line vs) (listed-sort_by_line v.content v.line vs ∙ new)
      (sort_by_line-IsUnique vs u)

IsUnique-snoc :
    (vs : List Violation) (v : Violation)
    → IsUnique vs
    → listed v.content v.line vs ≡ false
    → IsUnique (vs ++ v ∷ [])
IsUnique-snoc [] v u h = (refl, tt)
IsUnique-snoc (w ∷ ws) v (new, u) h = (
  ground (
    arith,
    listed-append w.content w.line ws (v ∷ []),
    text_eq_iff v.content w.content,
    text_eq_iff w.content v.content,
  ),
  IsUnique-snoc ws v u (ground arith),
)

deduplicate-IsUnique : (kept vs : List Violation) → IsUnique kept → IsUnique (deduplicate kept vs)
unfolding deduplicate
deduplicate-IsUnique kept [] u = u
deduplicate-IsUnique kept (v ∷ vs) u = elim (Bool-cases (listed v.content v.line kept)) [
  | inl there ↦ rw there (deduplicate-IsUnique kept vs u)
  | inr absent ↦
      rw absent (deduplicate-IsUnique (kept ++ v ∷ []) vs (IsUnique-snoc kept v u absent))
]

-- The violations are reported in the order of their lines, and no name twice on one line.
pub check_items-IsSorted :
    (used : List Fact) (rules : List Text) (model : Text)
    → IsSorted (check_items used rules model) × IsUnique (check_items used rules model)
unfolding check_items
check_items-IsSorted used rules model =
    let found = deduplicate [] (violations model rules used) in
    (
      sort_by_line-IsSorted found,
      sort_by_line-IsUnique found (deduplicate-IsUnique [] (violations model rules used) tt),
    )
