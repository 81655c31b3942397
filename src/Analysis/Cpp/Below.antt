-- ===== src/Analysis/Cpp/Below.antt =====
-- Where a cursor stands in a translation unit, and what a visit keeps.
use sandbox_2025team.Analysis.Python.Growth.{add_edge_keeps, edges_of-enter}
use sandbox_2025team.Dict.{has_key}
use sandbox_2025team.Base.Text.{Text, text_eq, codes}
use sandbox_2025team.Analysis.Cycles.Graph.{Edge}
use sandbox_2025team.Base.{
  ℕ, inl, inr, false, Option, Bool, Bool-cases, Option-cases, ◌≡◌, ◌&&◌, arith, is_empty, subst,
  Memᴰ, sym, not,
}
use sandbox_2025team.Analysis.Cpp.{
  known, unknown, also, CppVisitor, enter_definition, CursorInfo, note_inclusion, handle_call,
  Cursor, note_syntax, Cursors, is_function_kind, in_main, current_usr, note_cursor, visit_cursor,
  visit_cursors, is_call_kind, has_word, no_cursor,
}

abbrev pub is_inclusion : CursorInfo → Bool
is_inclusion c = text_eq c.kind (codes "INCLUSION_DIRECTIVE")

-- `Below a n u d`: the cursor of `d` is `n` or stands below it, and outside of inclusions. With the
-- function `a` around `n`, the function at `d` is `u`.
mutual
  pub data Below : Option Text → Cursor → Option Text → CursorInfo → Type 0 where
    at_cursor :
        {a u : Option Text} {c : CursorInfo} {cs : Cursors}
        → is_inclusion c ≡ false
        → u ≡ current_usr c a
        → Below a (known c cs) u c
    inside :
        {a u : Option Text} {c d : CursorInfo} {cs : Cursors}
        → is_inclusion c ≡ false
        → BelowAny (current_usr c a) cs u d
        → Below a (known c cs) u d
    inside_unknown :
        {a u : Option Text} {d : CursorInfo} {cs : Cursors}
        → BelowAny a cs u d
        → Below a (unknown cs) u d

  pub data BelowAny : Option Text → Cursors → Option Text → CursorInfo → Type 0 where
    in_head :
        {a u : Option Text} {n : Cursor} {d : CursorInfo} {cs : Cursors}
        → Below a n u d
        → BelowAny a (also n cs) u d
    in_tail :
        {a u : Option Text} {n : Cursor} {d : CursorInfo} {cs : Cursors}
        → BelowAny a cs u d
        → BelowAny a (also n cs) u d

-- The calls that a later state still has.
abbrev pub KeepsEdges : CppVisitor → CppVisitor → Type 0
KeepsEdges s t = (u v : Text) (line : ℕ) → Edge s.call_graph u v line → Edge t.call_graph u v line

enter_definition_keeps : (c : CursorInfo) (s : CppVisitor) → KeepsEdges s (enter_definition c s)
unfolding enter_definition
enter_definition_keeps c s u v line m =
    elim (Bool-cases (is_function_kind c.kind && c.is_definition)) [
      | inr apart ↦ rw apart m
      | inl body ↦ rw body (elim (Bool-cases (has_key c.usr s.call_graph)) [
        | inl there ↦ rw there m
        | inr new ↦
            rw new (subst (Memᴰ (v, line)) (sym (edges_of-enter c.usr s.call_graph u new)) m)
      ])
    ]

module _ (main_file file : Text) where
  note_syntax-graph :
      (c : CursorInfo) (s : CppVisitor) → (note_syntax main_file file c s).call_graph ≡ s.call_graph
  unfolding note_syntax
  note_syntax-graph c s = ground arith

  note_inclusion-graph :
      (c : CursorInfo) (s : CppVisitor)
      → (note_inclusion main_file file c s).call_graph ≡ s.call_graph
  unfolding note_inclusion
  note_inclusion-graph c s = ground arith

  handle_call_keeps :
      (c : CursorInfo) (caller : Option Text) (s : CppVisitor)
      → KeepsEdges s (handle_call main_file file c caller s)
  unfolding handle_call
  handle_call_keeps c caller s u v line m = elim (Option-cases c.referenced) [
    | inl e ↦ rw (e, handle_call) m
    | inr (callee, e) ↦ elim (Bool-cases (in_main main_file file callee.file)) [
      | inr system ↦ elim (Bool-cases (is_empty callee.spelling)) [
        | inl blank ↦ rw (e, handle_call) (rw (system, blank) m)
        | inr named ↦ rw (e, handle_call) (rw (system, named) m)
      ]
      | inl own ↦ elim (Option-cases caller) [
        | inl alone ↦ rw (e, handle_call) (rw (own, alone) m)
        | inr (usr, f) ↦ elim (Bool-cases (is_empty usr)) [
          | inl blank ↦ rw (e, handle_call) (rw (own, f) (rw blank m))
          | inr named ↦
              rw (e, handle_call)
                (rw (own, f)
                  (rw named (add_edge_keeps usr callee.usr c.line s.call_graph u v line m)))
        ]
      ]
    ]
  ]

  note_syntax_keeps :
      (c : CursorInfo) (s : CppVisitor) → KeepsEdges s (note_syntax main_file file c s)
  note_syntax_keeps c s u v line m = subst (λ g. Edge g u v line) (sym (note_syntax-graph c s)) m

  note_cursor_keeps :
      (c : CursorInfo) (usr : Option Text) (s : CppVisitor)
      → KeepsEdges s (note_cursor main_file file c usr s)
  unfolding note_cursor
  note_cursor_keeps c usr s u v line m = elim (Bool-cases (in_main main_file file c.file)) [
    | inr outside ↦ rw outside m
    | inl main ↦
        elim (Bool-cases (is_call_kind c.kind && not (has_word (codes "operator") c.spelling))) [
          | inr other ↦ rw (main, other) (note_syntax_keeps c s u v line m)
          | inl calls ↦
              rw (main, calls)
                (handle_call_keeps c usr (note_syntax main_file file c s) u v line
                  (note_syntax_keeps c s u v line m))
        ]
  ]

  mutual
    unfolding visit_cursor

    pub visit_cursor_keeps :
        (n : Cursor) (a : Option Text) (s : CppVisitor)
        → KeepsEdges s (visit_cursor main_file file n a s)
    visit_cursor_keeps (unknown cs) a s u v line m = visit_cursors_keeps cs a s u v line m
    visit_cursor_keeps (known c cs) a s u v line m = elim (Bool-cases (is_inclusion c)) [
      | inl inclusion ↦
          rw inclusion (subst (λ g. Edge g u v line) (sym (note_inclusion-graph c s)) m)
      | inr other ↦
          let t = enter_definition c s in
          rw other (
            visit_cursors_keeps cs (current_usr c a)
              (note_cursor main_file file c (current_usr c a) t) u v line
              (note_cursor_keeps c (current_usr c a) t u v line
                (enter_definition_keeps c s u v line m)))
    ]

    pub visit_cursors_keeps :
        (cs : Cursors) (a : Option Text) (s : CppVisitor)
        → KeepsEdges s (visit_cursors main_file file cs a s)
    visit_cursors_keeps no_cursor a s u v line m = m
    visit_cursors_keeps (also n cs) a s u v line m =
        visit_cursors_keeps cs a (visit_cursor main_file file n a s) u v line
          (visit_cursor_keeps n a s u v line m)
