-- ===== src/Output.antt =====
-- runner/submission.py, SubmissionRunner.strip, over Python's str.splitlines and str.rstrip.
pub mod Trailing
use sandbox_2025team.Base.Text.{Text, text_eq}
use sandbox_2025team.Base.{
  ℕ, Bool, List, leb, map, if◌then◌else◌, ◌∷◌, false, is_empty, ◌&&◌, ◌||◌, [], ◌==◌, true, ◌++◌,
}

-- The characters that end a line for `splitlines`: LF, VT, FF, CR, FS, GS, RS, NEL, LS and PS.
unfoldable pub is_break : ℕ → Bool
is_break c = leb 10 c && leb c 13 || leb 28 c && leb c 30 || c == 133 || c == 8232 || c == 8233

-- The characters that `rstrip` removes.
unfoldable pub is_space : ℕ → Bool
is_space c =
    leb 9 c && leb c 13
    || leb 28 c && leb c 32
    || c == 133
    || c == 160
    || c == 5760
    || leb 8192 c && leb c 8202
    || c == 8232
    || c == 8233
    || c == 8239
    || c == 8287
    || c == 12288

-- The lines of a text, of which `line` was read; a LF directly after a CR ends no line of its own.
unfoldable pub lines_from : (after_cr : Bool) → (line : Text) → Text → List Text
lines_from after_cr line [] = if is_empty line then [] else line ∷ []
lines_from after_cr line (c ∷ s) =
    let skipped = lines_from false line s in
    let ended = line ∷ lines_from (c == 13) [] s in
    let longer = lines_from false (line ++ c ∷ []) s in
    if after_cr && c == 10 then skipped else if is_break c then ended else longer

unfoldable pub rstrip : Text → Text
rstrip [] = []
rstrip (c ∷ s) = let rest = rstrip s in if is_empty rest && is_space c then [] else c ∷ rest

-- `while len(ss) and ss[-1] == "": del ss[-1]`.
unfoldable pub drop_blank : List Text → List Text
drop_blank [] = []
drop_blank (l ∷ ls) =
    let rest = drop_blank ls in if is_empty rest && is_empty l then [] else l ∷ rest

unfoldable pub strip : Text → List Text
strip s = drop_blank (map rstrip (lines_from false [] s))

-- Equality of two lists of lines.
unfoldable pub same_lines : List Text → List Text → Bool
same_lines [] [] = true
same_lines [] (l ∷ ls) = false
same_lines (k ∷ ks) [] = false
same_lines (k ∷ ks) (l ∷ ls) = text_eq k l && same_lines ks ls
