-- ===== src/Cases/Assignments.antt =====
-- The commands of `caseCommand` of src/lib/service-cases.ts that need an agent: assignment, escalation,
-- evidence, takeover, override and the end of a safety block.
use rent_a_4_wheel.Prelude.{
  ℕ, Bool, true, false, not, ◌&&◌, ◌||◌, Option, none, some, List, [], ◌∷◌, ◌++◌, any, includes,
  length, if◌then◌else◌, is_some, leb, nat_eq, option_eq, ◌==◌, Result, ok, guard, or_throw, ◌>>=◌,
  ◌>>◌,
}
use rent_a_4_wheel.Sessions.{Role, role_eq}
use rent_a_4_wheel.Cases.{Kind, kind_eq, CaseState, state_eq}
use rent_a_4_wheel.Cases.Rows.{
  PartyRole, party_eq, ServiceCase, CaseDb, CaseError, not_found, sign_in, operator_required,
  wrong_state, forbidden, already_assigned, step_up_required,
}
use rent_a_4_wheel.Cases.Access.{independent_case_actor}
use rent_a_4_wheel.Cases.Context.{CaseCommand, Context, decided_states}

-- `assign`.
unfoldable pub assign_case :
    Context → CaseCommand → ServiceCase → CaseDb → Result CaseError ServiceCase
assign_case x q c db = do
  guard (x.role == PartyRole.operator) operator_required
  _ ← independent_case_actor c x.user_id db
  assignee ← or_throw q.assignee_id sign_in
  agent ← independent_case_actor c assignee db
  guard (not (is_some c.assigned_to_id) || c.assigned_to_id == some agent.id) already_assigned
  ok (record c { assigned_to_id = some agent.id })

unfoldable pub escalate_case : Context → ServiceCase → Result CaseError ServiceCase
escalate_case x c = do
  guard (x.role == PartyRole.operator) operator_required
  ok (record c { is_urgent = true; due_at = x.now })

-- The photo is of an accepted report of the reservation.
has_photo : Option ℕ → ℕ → CaseDb → Bool
has_photo none photo db = false
has_photo (some id) photo db =
    any (λ p. p.reservation_id == id && includes p.accepted_photo_ids photo) db.reports

add_photo : ℕ → List ℕ → List ℕ
add_photo p ps = if includes ps p then ps else ps ++ p ∷ []

unfoldable pub reference_photo : CaseCommand → ServiceCase → CaseDb → Result CaseError ServiceCase
unfolding has_photo add_photo
reference_photo q c db = do
  guard
      (is_some c.reservation_id
        && not (includes (CaseState.closed ∷ CaseState.resolved ∷ []) c.state))
      wrong_state
  photo ← or_throw q.photo_id wrong_state
  guard (has_photo c.reservation_id photo db) not_found
  ok (record c { original_photo_ids = add_photo photo c.original_photo_ids })

-- A repair or inspection of the vehicle since the case was opened.
was_repaired : ServiceCase → Option ℕ → CaseDb → Bool
was_repaired c none db = false
was_repaired c (some v) db =
    any (λ m. m.vehicle_id == v && leb c.created_at m.service_date && m.is_repair) db.maintenance

unfoldable pub clear_safety : Context → ServiceCase → CaseDb → Result CaseError ServiceCase
unfolding was_repaired
clear_safety x c db = do
  guard
      (x.role == PartyRole.operator
        && c.kind == Kind.incident
        && c.state == CaseState.closed
        && was_repaired c c.vehicle_id db)
      wrong_state
  _ ← independent_case_actor c x.user_id db
  guard (c.assigned_to_id == some x.user_id) already_assigned
  ok (record c { safety_block = false })

unfoldable pub take_over : Context → ServiceCase → CaseDb → Result CaseError ServiceCase
take_over x c db = do
  agent ← independent_case_actor c x.user_id db
  guard
      (agent.role == Role.super_admin
        && leb 10 (length x.body)
        && not (includes decided_states c.state))
      forbidden
  guard (not (c.assigned_to_id == some x.user_id)) already_assigned
  ok (record c { assigned_to_id = some x.user_id })

unfoldable pub override_case :
    Context → CaseCommand → ServiceCase → CaseDb → Result CaseError ServiceCase
override_case x q c db = do
  guard
      (x.actor.role == Role.super_admin
        && not (includes decided_states c.state)
        && (c.kind == Kind.claim || c.kind == Kind.dispute))
      forbidden
  _ ← independent_case_actor c x.user_id db
  guard (c.assigned_to_id == some x.user_id) already_assigned
  guard (q.is_confirmed && leb 10 (length x.body) && q.has_step_up_code && q.verified)
      step_up_required
  ok (record c { state = if c.kind == Kind.dispute then CaseState.decided else CaseState.resolved })
