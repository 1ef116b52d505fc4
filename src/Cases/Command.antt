-- ===== src/Cases/Command.antt =====
-- `caseCommand` of src/lib/service-cases.ts. The reservation, case and user locks make it one step. The
-- notices, emails and audit rows that it writes as well are not in the tables here.
use rent_a_4_wheel.Prelude.{
  Option, ℕ, ◌+◌, Bool, true, false, not, ◌&&◌, [], ◌∷◌, ◌++◌, update_where, ltb, nat_eq, option_eq,
  ◌==◌, Result, ok, guard, or_throw, ◌>>=◌, ◌>>◌,
}
use rent_a_4_wheel.Sessions.{role_eq}
use rent_a_4_wheel.Cases.{kind_eq, CaseState, state_eq}
use rent_a_4_wheel.Cases.Rows.{
  PartyRole, party_eq, Action, EventAction, ServiceCase, CaseEvent, CaseDb, CaseError, not_found,
  operator_required, archived, case_changed, unsafe_text, case_closed,
}
use rent_a_4_wheel.Cases.Text.{safe_text}
use rent_a_4_wheel.Cases.Access.{find_case, case_access}
use rent_a_4_wheel.Cases.Context.{Policy, CaseCommand, Context}
use rent_a_4_wheel.Cases.Assignments.{
  assign_case, escalate_case, reference_photo, clear_safety, take_over, override_case,
}
use rent_a_4_wheel.Cases.Transitions.{transition_case, appeal_case, review_again, rate_case}

-- The row as the command leaves it, the version apart.
unfoldable pub decide :
    Action → Context → CaseCommand → ServiceCase → CaseDb → Result CaseError ServiceCase
decide Action.reply x q c db = do guard (not (c.state == CaseState.closed)) case_closed; ok c
decide Action.internal x q c db = do
  guard (x.role == PartyRole.operator) operator_required
  guard (not (c.state == CaseState.closed)) case_closed
  ok c
decide Action.transition x q c db = transition_case x q c db
decide Action.assign x q c db = assign_case x q c db
decide Action.escalate x q c db = escalate_case x c
decide Action.appeal x q c db = appeal_case x c db
decide Action.satisfaction x q c db = rate_case x q c
decide Action.override x q c db = override_case x q c db
decide Action.takeover x q c db = take_over x c db
decide Action.safety_clear x q c db = clear_safety x c db
decide Action.reference x q c db = reference_photo q c db

stored_action : Action → PartyRole → EventAction
stored_action Action.reply r = EventAction.replied r
stored_action a r = EventAction.commanded a

is_internal_action : Action → Bool
is_internal_action Action.internal = true
is_internal_action Action.assign = true
is_internal_action Action.takeover = true
is_internal_action Action.escalate = true
is_internal_action _ = false

case_event : Context → CaseCommand → ServiceCase → ServiceCase → CaseEvent
unfolding stored_action is_internal_action
case_event x q c c' = record {
  case_id = c.id;
  actor_id = x.user_id;
  action = stored_action q.action x.role;
  from_state = c.state;
  to_state = c'.state;
  is_internal = is_internal_action q.action;
  version = c.version + 1;
  deadline_at = c.due_at;
}

-- Only an appeal touches the money.
unfoldable pub after_review : Action → Option ℕ → CaseDb → CaseDb
after_review Action.appeal reservation_id db = review_again reservation_id db
after_review _ reservation_id db = db

-- The event and the row are written; the version goes up by one.
unfoldable pub record_command : Context → CaseCommand → ServiceCase → ServiceCase → CaseDb → CaseDb
unfolding case_event
record_command x q c c' db =
    let db1 = after_review q.action c.reservation_id db in
    record db1 {
      events = db1.events ++ case_event x q c c' ∷ [];
      cases =
          update_where (λ d. d.id == c.id) (λ d. record c' { version = c.version + 1 }) db1.cases;
    }

unfoldable pub case_command :
    (now user_id id : ℕ) → Policy → CaseCommand → CaseDb → Result CaseError CaseDb
case_command now user_id id policy q db = do
  c ← or_throw (find_case id db.cases) not_found
  (actor, role) ← case_access user_id c db
  guard (not (ltb c.retain_until now && c.state == CaseState.closed)) archived
  guard (c.version == q.version) case_changed
  body ← or_throw (safe_text q.body) unsafe_text
  let x : Context = record {
    now = now;
    user_id = user_id;
    actor = actor;
    role = role;
    policy = policy;
    body = body;
  }
  c' ← decide q.action x q c db
  ok (record_command x q c c' db)
