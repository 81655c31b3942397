-- ===== src/Analysis/Cycles/Graph.antt =====
-- Calls, chains of calls and cycles of a call graph.
use sandbox_2025team.Base.Text.{Text}
use sandbox_2025team.Analysis.Cycles.{CallGraph, Text, edges_of}
use sandbox_2025team.Base.{ℕ, Memᴰ}

abbrev pub Edge : CallGraph → Text → Text → ℕ → Type 0
Edge g u v lineno = Memᴰ (v, lineno) (edges_of g u)

-- A chain of calls from `u` to `w`, which may be empty.
pub data Reach (g : CallGraph) : Text → Text → Type 0 where
  here : {u : Text} → Reach g u u
  step : {u v w : Text} {lineno : ℕ} → Edge g u v lineno → Reach g v w → Reach g u w

-- A call on a cycle: the callee leads back to the caller.
pub record Cycle (g : CallGraph) (lineno : ℕ) : Type 0 where
  pub caller : Text
  pub callee : Text
  pub call : Edge g caller callee lineno
  pub back : Reach g callee caller

-- Every chain of calls from `u` ends.
pub data Ends (g : CallGraph) : Text → Type 0 where
  ends : {u : Text} → ((v : Text) (lineno : ℕ) → Edge g u v lineno → Ends g v) → Ends g u

pub Reach-snoc :
    (g : CallGraph) {u v w : Text} {lineno : ℕ} → Reach g u v → Edge g v w lineno → Reach g u w
Reach-snoc g here e = step e here
Reach-snoc g (step d r) e = step d (Reach-snoc g r e)

-- A function whose chains of calls end is on no cycle.
pub Ends-no_cycle :
    (g : CallGraph) {u v : Text} {lineno : ℕ} → Ends g u → Edge g u v lineno → Reach g v u → ⊥
Ends-no_cycle g (ends below) e here = Ends-no_cycle g (below _ _ e) e here
Ends-no_cycle g (ends below) e (step d r) = Ends-no_cycle g (below _ _ e) d (Reach-snoc g r e)
