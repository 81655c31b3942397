-- ===== src/Output/Trailing.antt =====
-- White space at the end of an output does not count.
use sandbox_2025team.Base.Text.{Text}
use sandbox_2025team.Base.{
  ℕ, Bool, List, ◌≡◌, map, if◌then◌else◌, All, ◌∷◌, is_empty, true, [], ◌++◌, false, ◌∙◌, refl, sym,
  Bool-cases, ◌&&◌, ◌==◌, inl, inr,
}
use sandbox_2025team.Output.{is_break, is_space, lines_from, rstrip, drop_blank, strip, Text}

rstrip-snoc : (s : Text) (c : ℕ) → is_space c ≡ true → rstrip (s ++ c ∷ []) ≡ rstrip s
unfolding rstrip
rstrip-snoc [] c h = rw h
rstrip-snoc (d ∷ s) c h = rw (rstrip-snoc s c h)

-- What the lines are stripped to depends on the rest only through what that is stripped to.
abbrev stripped : List Text → List Text
stripped ls = drop_blank (map rstrip ls)

stripped-cons :
    (l : Text) (ks ls : List Text)
    → stripped ks ≡ stripped ls
    → stripped (l ∷ ks) ≡ stripped (l ∷ ls)
unfolding drop_blank
stripped-cons l ks ls h = rw h

stripped_line :
    (line : Text) → stripped (if is_empty line then [] else line ∷ []) ≡ stripped (line ∷ [])
unfolding drop_blank rstrip
stripped_line [] = refl
stripped_line (c ∷ s) = refl

stripped_blank : stripped ([] ∷ []) ≡ stripped []
unfolding drop_blank rstrip
stripped_blank = refl

stripped-snoc :
    (line : Text) (c : ℕ)
    → is_space c ≡ true
    → stripped ((line ++ c ∷ []) ∷ []) ≡ stripped (line ∷ [])
unfolding drop_blank
stripped-snoc line c h = rw (rstrip-snoc line c h)

-- White space behind the line that is being read.
lines_from-space :
    (after_cr : Bool) (line ws : Text)
    → All (λ c. is_space c ≡ true) ws
    → stripped (lines_from after_cr line ws) ≡ stripped (line ∷ [])
unfolding lines_from
lines_from-space after_cr line [] h = stripped_line line
lines_from-space after_cr line (c ∷ ws) (h, hs) = elim (Bool-cases (after_cr && c == 10)) [
  | inl skipped ↦ rw skipped (lines_from-space false line ws hs)
  | inr other ↦ elim (Bool-cases (is_break c)) [
    | inl ended ↦
        rw (other, ended)
          (stripped-cons line (lines_from (c == 13) [] ws) []
            (lines_from-space (c == 13) [] ws hs ∙ stripped_blank))
    | inr longer ↦
        rw (other, longer) (lines_from-space false (line ++ c ∷ []) ws hs ∙ stripped-snoc line c h)
  ]
]

strip_trailing :
    (after_cr : Bool) (line s ws : Text)
    → All (λ c. is_space c ≡ true) ws
    → stripped (lines_from after_cr line (s ++ ws)) ≡ stripped (lines_from after_cr line s)
unfolding lines_from
strip_trailing after_cr line [] ws h =
    lines_from-space after_cr line ws h ∙ sym (stripped_line line)
strip_trailing after_cr line (c ∷ s) ws h = elim (Bool-cases (after_cr && c == 10)) [
  | inl skipped ↦ rw skipped (strip_trailing false line s ws h)
  | inr other ↦ elim (Bool-cases (is_break c)) [
    | inl ended ↦
        rw (other, ended)
          (stripped-cons line (lines_from (c == 13) [] (s ++ ws)) (lines_from (c == 13) [] s)
            (strip_trailing (c == 13) [] s ws h))
    | inr longer ↦ rw (other, longer) (strip_trailing false (line ++ c ∷ []) s ws h)
  ]
]

-- White space at the end of a text, line breaks included, is stripped.
pub strip-append_space : (s ws : Text) → All (λ c. is_space c ≡ true) ws → strip (s ++ ws) ≡ strip s
unfolding strip
strip-append_space s ws h = strip_trailing false [] s ws h
