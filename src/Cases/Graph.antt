-- ===== src/Cases/Graph.antt =====
-- Chains of transitions in the table of case states of src/lib/service-cases.ts.
use rent_a_4_wheel.Prelude.{ℕ, suc, ◌≡◌, true, includes}
use rent_a_4_wheel.Cases.{Kind, CaseState, state_eq, case_states}

-- A chain of `n` transitions.
pub data Moves (k : Kind) (s : CaseState) : ℕ → CaseState → Type 0 where
  here : Moves k s 0 s
  move :
      {n : ℕ} {t u : CaseState}
      → Moves k s n t
      → includes (case_states k t) u ≡ true
      → Moves k s (suc n) u
