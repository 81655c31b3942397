-- ===== src/Analysis/Cpp/Recursion.antt =====
-- Recursion of C and C++ functions, from the cursors to the report.
use sandbox_2025team.Analysis.Python.{add_edge}
use sandbox_2025team.Analysis.Cycles.{edges_of}
use sandbox_2025team.Analysis.Cycles.Recursion.{detect_cycles-reports}
use sandbox_2025team.Analysis.Cycles.Search.{reported}
use sandbox_2025team.Analysis.Python.Growth.{edges_of-add_edge}
use sandbox_2025team.Rules.{Facts}
use sandbox_2025team.Analysis.Cpp.{
  facts_of_unit, note_cursor, Cursor, visit_cursor, CursorInfo, Callee, cpp_detect_cycles,
  handle_call, CppVisitor, new_cpp_visitor, in_main, enter_definition, is_call_kind, note_syntax,
  Cursors, has_word, visit_cursors,
}
use sandbox_2025team.Base.Text.{Text, codes, text_eq_refl}
use mathlib.Core.List.Memᴰ
use sandbox_2025team.Analysis.Cycles.Graph.{step, here, Reach, Edge}
use sandbox_2025team.Base.{
  ℕ, inr, true, false, refl, [], none, some, Option, is_empty, subst, ◌≡◌, ◌&&◌, not, Memᴰ, sym,
}
use sandbox_2025team.Analysis.Cpp.Below.{
  at_cursor, inside, inside_unknown, in_head, in_tail, Below, visit_cursors_keeps, BelowAny,
}

module _ (main_file file : Text) where
  -- A call of a function of the main file, in the body of `caller`.
  pub record CppCall (c : CursorInfo) (callee : Text) : Type 0 where
    pub called : Callee
    pub main : in_main main_file file c.file ≡ true
    pub calls : (is_call_kind c.kind && not (has_word (codes "operator") c.spelling)) ≡ true
    pub refers : c.referenced ≡ some called
    pub own : in_main main_file file called.file ≡ true
    pub callee_eq : called.usr ≡ callee

  note_cursor-Edge :
      (c : CursorInfo) (caller callee : Text) (s : CppVisitor)
      → is_empty caller ≡ false
      → CppCall c callee
      → Edge (note_cursor main_file file c (some caller) s).call_graph caller callee c.line
  unfolding note_cursor handle_call
  note_cursor-Edge c caller callee s filled h =
      let now =
        edges_of-add_edge caller h.called.usr c.line (note_syntax main_file file c s).call_graph
          caller in
      let old = edges_of (note_syntax main_file file c s).call_graph caller in
      rw (h.main, h.calls)
        (rw (h.refers, handle_call)
          (rw h.own (
            rw filled (
              subst
                (λ v.
                  Edge
                    (add_edge caller h.called.usr c.line
                      (note_syntax main_file file c s).call_graph)
                    caller v c.line)
                h.callee_eq
                (subst (Memᴰ (h.called.usr, c.line)) (sym (rw (text_eq_refl caller) at now))
                  (Memᴰ.append_right old (Memᴰ.head refl)))))))

  mutual
    unfolding visit_cursor

    visit_cursor-Edge :
        (n : Cursor) (a : Option Text) (c : CursorInfo) (caller callee : Text) (s : CppVisitor)
        → is_empty caller ≡ false
        → CppCall c callee
        → Below a n (some caller) c
        → Edge (visit_cursor main_file file n a s).call_graph caller callee c.line
    visit_cursor-Edge n a c caller callee s filled h (at_cursor {cs} other usr) =
        let t = enter_definition c s in
        rw other (
          rw (← usr) (
            visit_cursors_keeps main_file file cs (some caller)
              (note_cursor main_file file c (some caller) t) caller callee c.line
              (note_cursor-Edge c caller callee t filled h)))
    visit_cursor-Edge n a c caller callee s filled h (inside other below) =
        rw other (visit_cursors-Edge _ _ c caller callee _ filled h below)
    visit_cursor-Edge n a c caller callee s filled h (inside_unknown below) =
        visit_cursors-Edge _ a c caller callee s filled h below

    visit_cursors-Edge :
        (cs : Cursors) (a : Option Text) (c : CursorInfo) (caller callee : Text) (s : CppVisitor)
        → is_empty caller ≡ false
        → CppCall c callee
        → BelowAny a cs (some caller) c
        → Edge (visit_cursors main_file file cs a s).call_graph caller callee c.line
    visit_cursors-Edge ns a c caller callee s filled h (in_head {n} {cs} below) =
        visit_cursors_keeps main_file file cs a (visit_cursor main_file file n a s) caller callee
          c.line (visit_cursor-Edge n a c caller callee s filled h below)
    visit_cursors-Edge ns a c caller callee s filled h (in_tail {n} {cs} below) =
        visit_cursors-Edge cs a c caller callee (visit_cursor main_file file n a s) filled h below

  -- A call of a function of the main file, in the body of the function `caller`.
  pub record CppCallIn (unit : Cursor) (caller callee : Text) (line : ℕ) : Type 0 where
    pub info : CursorInfo
    pub below : Below none unit (some caller) info
    pub named : is_empty caller ≡ false
    pub call : CppCall info callee
    pub line_eq : info.line ≡ line

  -- A chain of such calls.
  pub data CppChain (unit : Cursor) : Text → Text → Type 0 where
    last : {u : Text} → CppChain unit u u
    next :
        {u v w : Text} {line : ℕ} → CppCallIn unit u v line → CppChain unit v w → CppChain unit u w

  visit-CppEdge :
      (unit : Cursor) (caller callee : Text) (line : ℕ)
      → CppCallIn unit caller callee line
      → Edge (visit_cursor main_file file unit none new_cpp_visitor).call_graph caller callee line
  visit-CppEdge unit caller callee line c =
      subst
        (λ n.
          Edge (visit_cursor main_file file unit none new_cpp_visitor).call_graph caller callee n)
        c.line_eq
        (visit_cursor-Edge unit none c.info caller callee new_cpp_visitor c.named c.call c.below)

  chain-CppReach :
      (unit : Cursor) {u w : Text}
      → CppChain unit u w
      → Reach (visit_cursor main_file file unit none new_cpp_visitor).call_graph u w
  chain-CppReach unit last = here
  chain-CppReach unit (next {u} {v} {line} c rest) =
      step (visit-CppEdge unit u v line c) (chain-CppReach unit rest)

  -- If a function of the main file is called, directly or over others of the file, in the body of
  -- a function that it calls, the facts of the file are computed, and hold a report of recursion.
  -- The calls stand in the main file, at any depth but outside of inclusions, in bodies of
  -- functions with an USR, and are not spelled with "operator".
  pub facts_of_unit-reports :
      (unit : Cursor) (caller callee : Text) (line : ℕ)
      → CppCallIn unit caller callee line
      → CppChain unit callee caller
      → (facts : Facts) × (facts_of_unit main_file file unit ≡ some facts)
        × (reported facts.syntax ≡ true)
  unfolding facts_of_unit cpp_detect_cycles
  facts_of_unit-reports unit caller callee line c chain =
      let s = visit_cursor main_file file unit none new_cpp_visitor in
      let (syntax, ran, exactly) = detect_cycles-reports file s.call_graph s.syntax in
      (
        record {
          imports = [];
          headers = s.headers;
          function_calls = s.function_calls;
          syntax = syntax;
        },
        rw (ran, facts_of_unit, cpp_detect_cycles),
        exactly.1 (
            inr (
              line,
              record {
                caller = caller;
                callee = callee;
                call = visit-CppEdge unit caller callee line c;
                back = chain-CppReach unit chain;
              },
            )),
      )
