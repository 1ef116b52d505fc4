-- ===== src/Cases/Transitions.antt =====
-- The commands of `caseCommand` of src/lib/service-cases.ts that move a case: transition, appeal and the
-- rating of a ticket.
use rent_a_4_wheel.Prelude.{
  ℕ, Bool, true, false, not, ◌&&◌, ◌||◌, Option, none, some, [], ◌∷◌, any, includes, length,
  update_where, if◌then◌else◌, ltb, leb, nat_eq, option_eq, ◌==◌, Result, ok, guard, or_throw,
  ◌>>=◌, ◌>>◌,
}
use rent_a_4_wheel.Sessions.{role_eq}
use rent_a_4_wheel.Schema.Enums.{FinancialDisposition}
use rent_a_4_wheel.Cases.{Kind, kind_eq, CaseState, state_eq, case_states}
use rent_a_4_wheel.Cases.Rows.{
  PartyRole, party_eq, Action, EventAction, ServiceCase, CaseDb, CaseError, wrong_state, forbidden,
  already_assigned, too_short, wait_for_response, no_evidence, already_appealed, no_appeal,
}
use rent_a_4_wheel.Cases.Access.{independent_case_actor}
use rent_a_4_wheel.Cases.Context.{
  CaseCommand, Context, after_days, respond_by, retention_days, decided_states,
}

is_reply_of : PartyRole → EventAction → Bool
is_reply_of r (EventAction.replied s) = s == r
is_reply_of r _ = false

-- The party opened the case or answered in it.
unfoldable pub has_responded : PartyRole → ServiceCase → CaseDb → Bool
unfolding is_reply_of
has_responded r c db =
    c.opened_by_role == r || any (λ e. e.case_id == c.id && is_reply_of r e.action) db.events

-- A step that the deadline or the answers of the parties have to precede.
unfoldable pub awaits_response : Context → CaseState → ServiceCase → Bool
awaits_response x state c =
    ltb x.now c.due_at
    && ((c.kind == Kind.claim && state == CaseState.estimate_review)
        || (c.kind == Kind.dispute && state == CaseState.under_review))

unfoldable pub responses_in : ServiceCase → CaseDb → Bool
unfolding has_responded
responses_in c db =
    has_responded PartyRole.customer c db
    && not (c.kind == Kind.dispute && not (has_responded PartyRole.host c db))

-- `ACCEPTED` and `DISPUTED` of a claim are the customer's.
unfoldable pub is_settlement : CaseState → ServiceCase → Bool
is_settlement state c =
    c.kind == Kind.claim && includes (CaseState.accepted ∷ CaseState.disputed ∷ []) state

unfoldable pub is_party_step : PartyRole → CaseState → ServiceCase → Bool
unfolding is_settlement
is_party_step role state c =
    (c.kind == Kind.claim && state == CaseState.evidence_submitted && role == PartyRole.host)
    || (is_settlement state c && role == PartyRole.customer)

has_evidence : ServiceCase → CaseDb → Bool
has_evidence c db =
    any (λ f. f.case_id == c.id && f.is_clean) db.files || leb 1 (length c.original_photo_ids)

-- The row after a transition.
moved : Context → CaseState → ServiceCase → ServiceCase
unfolding respond_by after_days retention_days
moved x state c = record c {
  state = state;
  due_at = if includes decided_states state then c.due_at else respond_by x;
  closed_at = if state == CaseState.closed then some x.now else c.closed_at;
  retain_until =
      if state == CaseState.closed
      then after_days x.now (retention_days x.policy c.kind)
      else c.retain_until;
}

-- An operator decides only as the independent agent to whom the case is assigned.
unfoldable pub agent_decides : Context → ServiceCase → CaseDb → Result CaseError (Unit {0})
agent_decides x c db = do
  _ ← independent_case_actor c x.user_id db
  guard (c.assigned_to_id == some x.user_id) already_assigned

unfoldable pub transition_case :
    Context → CaseCommand → ServiceCase → CaseDb → Result CaseError ServiceCase
unfolding has_evidence moved
transition_case x q c db = do
  state ← or_throw q.state wrong_state
  guard (includes (case_states c.kind c.state) state) wrong_state
  guard (not (is_settlement state c) || x.role == PartyRole.customer) forbidden
  guard (leb 10 (length x.body)) too_short
  guard (not (awaits_response x state c) || responses_in c db) wait_for_response
  guard (x.role == PartyRole.operator || is_party_step x.role state c) forbidden
  if x.role == PartyRole.operator then agent_decides x c db else ok tt
  guard (not (state == CaseState.evidence_submitted) || has_evidence c db) no_evidence
  ok (moved x state c)

is_appeal : EventAction → Bool
is_appeal (EventAction.commanded Action.appeal) = true
is_appeal _ = false

unfoldable pub appeal_case : Context → ServiceCase → CaseDb → Result CaseError ServiceCase
unfolding is_appeal respond_by
appeal_case x c db = do
  guard (includes decided_states c.state && not (x.role == PartyRole.operator)) wrong_state
  guard
      (not
        (any (λ e. e.case_id == c.id && e.actor_id == x.user_id && is_appeal e.action) db.events))
      already_appealed
  guard (c.kind == Kind.claim || c.kind == Kind.dispute) no_appeal
  ok (record c {
    state = if c.kind == Kind.dispute then CaseState.under_review else CaseState.initial_review;
    closed_at = none;
    assigned_to_id = none;
    due_at = respond_by x;
  })

-- The money of the reservation goes back to review, and so does its financial case.
unfoldable pub review_again : Option ℕ → CaseDb → CaseDb
review_again none db = db
review_again (some id) db = record db {
  reservations =
      update_where (λ r. r.id == id)
        (λ r. record r { financial_disposition = FinancialDisposition.review }) db.reservations;
  reviews =
      update_where (λ v. v.reservation_id == id) (λ v. record v { is_open = true }) db.reviews;
}

unfoldable pub rate_case : Context → CaseCommand → ServiceCase → Result CaseError ServiceCase
rate_case x q c = do
  guard
      (c.kind == Kind.ticket
        && c.opened_by_id == x.user_id
        && includes (CaseState.resolved ∷ CaseState.closed ∷ []) c.state)
      wrong_state
  rating ← or_throw q.rating wrong_state
  ok (record c { satisfaction = some rating })
