-- ===== src/Cases.antt =====
-- Service cases of src/lib/service-cases.ts: claims, disputes, incidents and tickets, the kinds and the table
-- of their states.
pub mod Rows
pub mod Text
pub mod Access
pub mod Context
pub mod Assignments
pub mod Transitions
pub mod Command
pub mod Graph
pub mod Closing
pub mod Inversion
pub mod Keeps
pub mod Decisions
pub mod Authority
use rent_a_4_wheel.Prelude.{
  ℕ, ◌≡◌, ◌↔◌, Bool, true, false, Option, none, some, List, [], ◌∷◌, nat_beq, arith, Eq, ◌==◌,
}

-- ServiceKind.
pub data Kind : Type 0 where
  claim dispute incident ticket : Kind

abbrev pub kind_rank : Kind → ℕ
kind_rank Kind.claim = 0
kind_rank Kind.dispute = 1
kind_rank Kind.incident = 2
kind_rank Kind.ticket = 3

abbrev pub kind_beq : Kind → Kind → Bool
kind_beq a b = nat_beq (kind_rank a) (kind_rank b)

pub kind_beq_iff : (a b : Kind) → (kind_beq a b ≡ true) ↔ (a ≡ b)
kind_beq_iff a b = ground arith

instance abbrev pub kind_eq : Eq Kind
kind_eq = record { beq = kind_beq; beq_iff = kind_beq_iff }

-- The texts of ServiceCase.state.
pub data CaseState : Type 0 where
  reported evidence_submitted initial_review customer_response : CaseState
  estimate_review responsibility_decision proposed_settlement accepted : CaseState
  disputed resolved closed response_requested under_review decided : CaseState
  triaged assistance_coordinated in_progress waiting_for_customer : CaseState

abbrev pub state_rank : CaseState → ℕ
state_rank CaseState.reported = 0
state_rank CaseState.evidence_submitted = 1
state_rank CaseState.initial_review = 2
state_rank CaseState.customer_response = 3
state_rank CaseState.estimate_review = 4
state_rank CaseState.responsibility_decision = 5
state_rank CaseState.proposed_settlement = 6
state_rank CaseState.accepted = 7
state_rank CaseState.disputed = 8
state_rank CaseState.resolved = 9
state_rank CaseState.closed = 10
state_rank CaseState.response_requested = 11
state_rank CaseState.under_review = 12
state_rank CaseState.decided = 13
state_rank CaseState.triaged = 14
state_rank CaseState.assistance_coordinated = 15
state_rank CaseState.in_progress = 16
state_rank CaseState.waiting_for_customer = 17

abbrev pub state_beq : CaseState → CaseState → Bool
state_beq a b = nat_beq (state_rank a) (state_rank b)

pub state_beq_iff : (a b : CaseState) → (state_beq a b ≡ true) ↔ (a ≡ b)
state_beq_iff a b = ground arith

instance abbrev pub state_eq : Eq CaseState
state_eq = record { beq = state_beq; beq_iff = state_beq_iff }

claim_states : CaseState → List CaseState
claim_states CaseState.reported = CaseState.evidence_submitted ∷ []
claim_states CaseState.evidence_submitted = CaseState.initial_review ∷ []
claim_states CaseState.initial_review = CaseState.customer_response ∷ []
claim_states CaseState.customer_response = CaseState.estimate_review ∷ []
claim_states CaseState.estimate_review = CaseState.responsibility_decision ∷ []
claim_states CaseState.responsibility_decision = CaseState.proposed_settlement ∷ []
claim_states CaseState.proposed_settlement = CaseState.accepted ∷ CaseState.disputed ∷ []
claim_states CaseState.accepted = CaseState.resolved ∷ []
claim_states CaseState.disputed = CaseState.resolved ∷ []
claim_states CaseState.resolved = CaseState.closed ∷ []
claim_states _ = []

dispute_states : CaseState → List CaseState
dispute_states CaseState.reported = CaseState.response_requested ∷ []
dispute_states CaseState.response_requested = CaseState.under_review ∷ []
dispute_states CaseState.under_review = CaseState.decided ∷ []
dispute_states CaseState.decided = CaseState.closed ∷ []
dispute_states _ = []

incident_states : CaseState → List CaseState
incident_states CaseState.reported = CaseState.triaged ∷ []
incident_states CaseState.triaged = CaseState.assistance_coordinated ∷ []
incident_states CaseState.assistance_coordinated = CaseState.resolved ∷ []
incident_states CaseState.resolved = CaseState.closed ∷ []
incident_states _ = []

ticket_states : CaseState → List CaseState
ticket_states CaseState.reported = CaseState.in_progress ∷ []
ticket_states CaseState.in_progress = CaseState.waiting_for_customer ∷ CaseState.resolved ∷ []
ticket_states CaseState.waiting_for_customer = CaseState.in_progress ∷ CaseState.resolved ∷ []
ticket_states CaseState.resolved = CaseState.closed ∷ []
ticket_states _ = []

-- `caseStates[kind][state] ?? []`.
unfoldable pub case_states : Kind → CaseState → List CaseState
unfolding claim_states dispute_states incident_states ticket_states
case_states Kind.claim s = claim_states s
case_states Kind.dispute s = dispute_states s
case_states Kind.incident s = incident_states s
case_states Kind.ticket s = ticket_states s
