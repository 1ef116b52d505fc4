-- ===== src/Cases/Closing/Ways.antt =====
-- From every state that a case of src/lib/service-cases.ts can be in, transitions lead to CLOSED.
use rent_a_4_wheel.Prelude.{
  ℕ, suc, ◌≤◌, ◌≡◌, refl, true, ◌⊎◌, inl, inr, [], ◌∷◌, includes, subst, arith,
}
use rent_a_4_wheel.Cases.{Kind, CaseState, state_beq_iff, state_eq, case_states}
use rent_a_4_wheel.Cases.Graph.{Moves, here, move}

prepend :
    {k : Kind} {s t u : CaseState} {n : ℕ}
    → includes (case_states k s) t ≡ true
    → Moves k t n u
    → Moves k s (suc n) u
prepend h here = move here h
prepend h (move m g) = move (prepend h m) g

single : (a t : CaseState) → includes (a ∷ []) t ≡ true → a ≡ t
single a t h = ground (arith, state_beq_iff a t)

either : (a b t : CaseState) → includes (a ∷ b ∷ []) t ≡ true → (a ≡ t) ⊎ (b ≡ t)
either a b t h = ground (arith, state_beq_iff a t, state_beq_iff b t)

-- At most nine transitions to CLOSED.
pub record CanClose (k : Kind) (s : CaseState) : Type 0 where
  pub steps : ℕ
  pub few : steps ≤ 9
  pub closes : Moves k s steps CaseState.closed

closable :
    (k : Kind) (n : ℕ) (a t : CaseState)
    → n ≤ 9
    → Moves k a n CaseState.closed
    → a ≡ t
    → CanClose k t
closable k n a t few m e = subst (CanClose k) e (record { steps = n; few = few; closes = m })

by_either :
    (k : Kind) (n m : ℕ) (a b t : CaseState)
    → n ≤ 9
    → m ≤ 9
    → Moves k a n CaseState.closed
    → Moves k b m CaseState.closed
    → (a ≡ t) ⊎ (b ≡ t)
    → CanClose k t
by_either k n m a b t f g c d (inl e) = closable k n a t f c e
by_either k n m a b t f g c d (inr e) = closable k m b t g d e

-- The ways of a claim.
pub claim_resolved : Moves Kind.claim CaseState.resolved 1 CaseState.closed
unfolding case_states
claim_resolved = prepend refl here

claim_accepted : Moves Kind.claim CaseState.accepted 2 CaseState.closed
unfolding case_states
claim_accepted = prepend refl claim_resolved

claim_disputed : Moves Kind.claim CaseState.disputed 2 CaseState.closed
unfolding case_states
claim_disputed = prepend refl claim_resolved

claim_proposed_settlement : Moves Kind.claim CaseState.proposed_settlement 3 CaseState.closed
unfolding case_states
claim_proposed_settlement = prepend refl claim_accepted

claim_responsibility_decision :
    Moves Kind.claim CaseState.responsibility_decision 4 CaseState.closed
unfolding case_states
claim_responsibility_decision = prepend refl claim_proposed_settlement

claim_estimate_review : Moves Kind.claim CaseState.estimate_review 5 CaseState.closed
unfolding case_states
claim_estimate_review = prepend refl claim_responsibility_decision

claim_customer_response : Moves Kind.claim CaseState.customer_response 6 CaseState.closed
unfolding case_states
claim_customer_response = prepend refl claim_estimate_review

pub claim_initial_review : Moves Kind.claim CaseState.initial_review 7 CaseState.closed
unfolding case_states
claim_initial_review = prepend refl claim_customer_response

claim_evidence_submitted : Moves Kind.claim CaseState.evidence_submitted 8 CaseState.closed
unfolding case_states
claim_evidence_submitted = prepend refl claim_initial_review

claim_reported : Moves Kind.claim CaseState.reported 9 CaseState.closed
unfolding case_states
claim_reported = prepend refl claim_evidence_submitted

claim-next :
    (s t : CaseState) → includes (case_states Kind.claim s) t ≡ true → CanClose Kind.claim t
unfolding case_states
claim-next CaseState.reported t h =
    closable Kind.claim 8 CaseState.evidence_submitted t (omega arith) claim_evidence_submitted
      (single _ t h)
claim-next CaseState.evidence_submitted t h =
    closable Kind.claim 7 CaseState.initial_review t (omega arith) claim_initial_review
      (single _ t h)
claim-next CaseState.initial_review t h =
    closable Kind.claim 6 CaseState.customer_response t (omega arith) claim_customer_response
      (single _ t h)
claim-next CaseState.customer_response t h =
    closable Kind.claim 5 CaseState.estimate_review t (omega arith) claim_estimate_review
      (single _ t h)
claim-next CaseState.estimate_review t h =
    closable Kind.claim 4 CaseState.responsibility_decision t (omega arith)
      claim_responsibility_decision (single _ t h)
claim-next CaseState.responsibility_decision t h =
    closable Kind.claim 3 CaseState.proposed_settlement t (omega arith) claim_proposed_settlement
      (single _ t h)
claim-next CaseState.proposed_settlement t h =
    by_either Kind.claim 2 2 CaseState.accepted CaseState.disputed t (omega arith) (omega arith)
      claim_accepted claim_disputed (either _ _ t h)
claim-next CaseState.accepted t h =
    closable Kind.claim 1 CaseState.resolved t (omega arith) claim_resolved (single _ t h)
claim-next CaseState.disputed t h =
    closable Kind.claim 1 CaseState.resolved t (omega arith) claim_resolved (single _ t h)
claim-next CaseState.resolved t h =
    closable Kind.claim 0 CaseState.closed t (omega arith) here (single _ t h)
claim-next _ t h = cc

-- The ways of a dispute.
pub dispute_decided : Moves Kind.dispute CaseState.decided 1 CaseState.closed
unfolding case_states
dispute_decided = prepend refl here

pub dispute_under_review : Moves Kind.dispute CaseState.under_review 2 CaseState.closed
unfolding case_states
dispute_under_review = prepend refl dispute_decided

dispute_response_requested : Moves Kind.dispute CaseState.response_requested 3 CaseState.closed
unfolding case_states
dispute_response_requested = prepend refl dispute_under_review

dispute_reported : Moves Kind.dispute CaseState.reported 4 CaseState.closed
unfolding case_states
dispute_reported = prepend refl dispute_response_requested

dispute-next :
    (s t : CaseState) → includes (case_states Kind.dispute s) t ≡ true → CanClose Kind.dispute t
unfolding case_states
dispute-next CaseState.reported t h =
    closable Kind.dispute 3 CaseState.response_requested t (omega arith) dispute_response_requested
      (single _ t h)
dispute-next CaseState.response_requested t h =
    closable Kind.dispute 2 CaseState.under_review t (omega arith) dispute_under_review
      (single _ t h)
dispute-next CaseState.under_review t h =
    closable Kind.dispute 1 CaseState.decided t (omega arith) dispute_decided (single _ t h)
dispute-next CaseState.decided t h =
    closable Kind.dispute 0 CaseState.closed t (omega arith) here (single _ t h)
dispute-next _ t h = cc

-- The ways of a incident.
incident_resolved : Moves Kind.incident CaseState.resolved 1 CaseState.closed
unfolding case_states
incident_resolved = prepend refl here

incident_assistance_coordinated :
    Moves Kind.incident CaseState.assistance_coordinated 2 CaseState.closed
unfolding case_states
incident_assistance_coordinated = prepend refl incident_resolved

incident_triaged : Moves Kind.incident CaseState.triaged 3 CaseState.closed
unfolding case_states
incident_triaged = prepend refl incident_assistance_coordinated

incident_reported : Moves Kind.incident CaseState.reported 4 CaseState.closed
unfolding case_states
incident_reported = prepend refl incident_triaged

incident-next :
    (s t : CaseState) → includes (case_states Kind.incident s) t ≡ true → CanClose Kind.incident t
unfolding case_states
incident-next CaseState.reported t h =
    closable Kind.incident 3 CaseState.triaged t (omega arith) incident_triaged (single _ t h)
incident-next CaseState.triaged t h =
    closable Kind.incident 2 CaseState.assistance_coordinated t (omega arith)
      incident_assistance_coordinated (single _ t h)
incident-next CaseState.assistance_coordinated t h =
    closable Kind.incident 1 CaseState.resolved t (omega arith) incident_resolved (single _ t h)
incident-next CaseState.resolved t h =
    closable Kind.incident 0 CaseState.closed t (omega arith) here (single _ t h)
incident-next _ t h = cc

-- The ways of a ticket.
ticket_resolved : Moves Kind.ticket CaseState.resolved 1 CaseState.closed
unfolding case_states
ticket_resolved = prepend refl here

ticket_in_progress : Moves Kind.ticket CaseState.in_progress 2 CaseState.closed
unfolding case_states
ticket_in_progress = prepend refl ticket_resolved

ticket_waiting_for_customer : Moves Kind.ticket CaseState.waiting_for_customer 2 CaseState.closed
unfolding case_states
ticket_waiting_for_customer = prepend refl ticket_resolved

ticket_reported : Moves Kind.ticket CaseState.reported 3 CaseState.closed
unfolding case_states
ticket_reported = prepend refl ticket_in_progress

ticket-next :
    (s t : CaseState) → includes (case_states Kind.ticket s) t ≡ true → CanClose Kind.ticket t
unfolding case_states
ticket-next CaseState.reported t h =
    closable Kind.ticket 2 CaseState.in_progress t (omega arith) ticket_in_progress (single _ t h)
ticket-next CaseState.in_progress t h =
    by_either Kind.ticket 2 1 CaseState.waiting_for_customer CaseState.resolved t (omega arith)
      (omega arith) ticket_waiting_for_customer ticket_resolved (either _ _ t h)
ticket-next CaseState.waiting_for_customer t h =
    by_either Kind.ticket 2 1 CaseState.in_progress CaseState.resolved t (omega arith) (omega arith)
      ticket_in_progress ticket_resolved (either _ _ t h)
ticket-next CaseState.resolved t h =
    closable Kind.ticket 0 CaseState.closed t (omega arith) here (single _ t h)
ticket-next _ t h = cc

pub any-next : (k : Kind) (s t : CaseState) → includes (case_states k s) t ≡ true → CanClose k t
any-next Kind.claim s t h = claim-next s t h
any-next Kind.dispute s t h = dispute-next s t h
any-next Kind.incident s t h = incident-next s t h
any-next Kind.ticket s t h = ticket-next s t h

pub reported-CanClose : (k : Kind) → CanClose k CaseState.reported
reported-CanClose Kind.claim =
    closable Kind.claim 9 CaseState.reported _ (omega arith) claim_reported refl
reported-CanClose Kind.dispute =
    closable Kind.dispute 4 CaseState.reported _ (omega arith) dispute_reported refl
reported-CanClose Kind.incident =
    closable Kind.incident 4 CaseState.reported _ (omega arith) incident_reported refl
reported-CanClose Kind.ticket =
    closable Kind.ticket 3 CaseState.reported _ (omega arith) ticket_reported refl
