-- ===== src/Scenarios/Disputes.antt =====
-- A claim at concrete parties and agents.
use rent_a_4_wheel.Prelude.{ℕ, ◌≡◌, ◌≢◌, refl, true, false, none, some, List, [], ◌∷◌, ok}
use rent_a_4_wheel.Sessions.{Role}
use rent_a_4_wheel.Schema.Enums.{FinancialDisposition}
use rent_a_4_wheel.Cases.{Kind, CaseState, case_states}
use rent_a_4_wheel.Cases.Rows.{PartyRole, Action, ServiceCase, Account, CaseDb}
use rent_a_4_wheel.Cases.Access.{find_case}
use rent_a_4_wheel.Cases.Context.{Policy, CaseCommand}
use rent_a_4_wheel.Cases.Command.{case_command}
use rent_a_4_wheel.Cases.Closing.Ways.{CanClose}
use rent_a_4_wheel.Cases.Closing.{every_case-CanClose}
use rent_a_4_wheel.Cases.Decisions.{MovedBy}
use rent_a_4_wheel.Cases.Authority.{
  none_yet, command, moves_are_authorized, one_command_per_version,
}
use rent_a_4_wheel.Scenarios.World.{value}

-- `a specific reason`.
abbrev reason : List ℕ
reason = b'r' ∷ b'e' ∷ b'v' ∷ b'i' ∷ b'e' ∷ b'w' ∷ b' ' ∷ b'd' ∷ b'o' ∷ b'n' ∷ b'e' ∷ []

abbrev claim : ServiceCase
claim = record {
  id = 7;
  kind = Kind.claim;
  state = CaseState.initial_review;
  version = 2;
  reservation_id = some 1;
  vehicle_id = some 4;
  opened_by_id = 2;
  opened_by_role = PartyRole.host;
  assigned_to_id = some 9;
  is_urgent = false;
  due_at = 5000;
  created_at = 100;
  closed_at = none;
  retain_until = 900000;
  safety_block = false;
  satisfaction = none;
  original_photo_ids = [];
}

abbrev agent : Account
agent = record { id = 9; role = Role.claims_agent; email = 90; is_active = true }

abbrev office : CaseDb
office = record {
  accounts =
      agent
      ∷ (record { id = 2; role = Role.host; email = 20; is_active = true })
      ∷ (record { id = 3; role = Role.customer; email = 30; is_active = true })
      ∷ [];
  cases = claim ∷ [];
  events = [];
  reservations =
      (record {
        id = 1;
        customer_id = 3;
        vehicle_id = 4;
        financial_disposition = FinancialDisposition.review;
      })
      ∷ [];
  vehicles = (record { id = 4; host_id = some 6; owner_email = none; owner_host_id = none }) ∷ [];
  hosts = (record { id = 6; user_id = 2; is_suspended = false }) ∷ [];
  employments = [];
  affiliations = [];
  files = [];
  reports = [];
  maintenance = [];
  reviews = [];
}

abbrev policy : Policy
policy = record {
  response_hours = 72;
  claim_days = 1095;
  dispute_days = 1095;
  incident_days = 1095;
  ticket_days = 365;
}

abbrev ask_customer : CaseCommand
ask_customer = record {
  action = Action.transition;
  version = 2;
  body = reason;
  state = some CaseState.customer_response;
  assignee_id = none;
  rating = none;
  photo_id = none;
  is_confirmed = false;
  has_step_up_code = false;
  verified = false;
}

abbrev asked : CaseDb
asked = value (case_command 1000 9 7 policy ask_customer office) office

asks : case_command 1000 9 7 policy ask_customer office ≡ ok asked
unfolding case_command find_case rent_a_4_wheel.Cases.Access.case_access
    rent_a_4_wheel.Cases.Access.participant rent_a_4_wheel.Cases.Access.marketplace_actor
    rent_a_4_wheel.Cases.Access.find_account rent_a_4_wheel.Cases.Access.is_operator
    rent_a_4_wheel.Cases.Text.safe_text rent_a_4_wheel.Cases.Command.decide
    rent_a_4_wheel.Cases.Transitions.transition_case case_states
    rent_a_4_wheel.Cases.Transitions.is_settlement rent_a_4_wheel.Cases.Transitions.awaits_response
    rent_a_4_wheel.Cases.Transitions.agent_decides
    rent_a_4_wheel.Cases.Access.independent_case_actor rent_a_4_wheel.Cases.Access.has_rows
    rent_a_4_wheel.Cases.Access.has_interest
asks = refl

claim_found : find_case 7 office.cases ≡ some claim
unfolding find_case
claim_found = refl

abbrev asked_claim : ServiceCase
asked_claim = record claim { state = CaseState.customer_response; version = 3; due_at = 259201000 }

asked_found : find_case 7 asked.cases ≡ some asked_claim
unfolding case_command find_case rent_a_4_wheel.Cases.Access.case_access
    rent_a_4_wheel.Cases.Access.participant rent_a_4_wheel.Cases.Access.marketplace_actor
    rent_a_4_wheel.Cases.Access.find_account rent_a_4_wheel.Cases.Access.is_operator
    rent_a_4_wheel.Cases.Text.safe_text rent_a_4_wheel.Cases.Command.decide
    rent_a_4_wheel.Cases.Transitions.transition_case case_states
    rent_a_4_wheel.Cases.Transitions.is_settlement rent_a_4_wheel.Cases.Transitions.awaits_response
    rent_a_4_wheel.Cases.Transitions.agent_decides
    rent_a_4_wheel.Cases.Access.independent_case_actor rent_a_4_wheel.Cases.Access.has_rows
    rent_a_4_wheel.Cases.Access.has_interest rent_a_4_wheel.Cases.Command.record_command
    rent_a_4_wheel.Cases.Command.after_review
asked_found = refl

claim_moved : asked_claim.state ≢ claim.state
claim_moved h = cc

moves_are_authorized_example : MovedBy Action.transition 9 claim office
moves_are_authorized_example =
    moves_are_authorized 1000 9 7 policy ask_customer office asked claim asked_claim asks
      claim_found asked_found claim_moved

-- The agent notes something, in the version after it.
abbrev note : CaseCommand
note = record ask_customer { action = Action.internal; version = 3; state = none }

abbrev noted : CaseDb
noted = value (case_command 1500 9 7 policy note asked) asked

notes : case_command 1500 9 7 policy note asked ≡ ok noted
unfolding case_command find_case rent_a_4_wheel.Cases.Access.case_access
    rent_a_4_wheel.Cases.Access.participant rent_a_4_wheel.Cases.Access.marketplace_actor
    rent_a_4_wheel.Cases.Access.find_account rent_a_4_wheel.Cases.Access.is_operator
    rent_a_4_wheel.Cases.Text.safe_text rent_a_4_wheel.Cases.Command.decide
    rent_a_4_wheel.Cases.Transitions.transition_case case_states
    rent_a_4_wheel.Cases.Transitions.is_settlement rent_a_4_wheel.Cases.Transitions.awaits_response
    rent_a_4_wheel.Cases.Transitions.agent_decides
    rent_a_4_wheel.Cases.Access.independent_case_actor rent_a_4_wheel.Cases.Access.has_rows
    rent_a_4_wheel.Cases.Access.has_interest rent_a_4_wheel.Cases.Command.record_command
    rent_a_4_wheel.Cases.Command.after_review
notes = refl

one_command_per_version_example : case_command 2000 9 7 policy ask_customer noted ≢ ok office
one_command_per_version_example =
    one_command_per_version 7 1000 9 2000 9 policy policy ask_customer ask_customer office asked
      noted office asks (command 1500 9 7 policy note none_yet notes) refl

-- A reported claim that a super admin overrides and the customer appeals.
abbrev reported_claim : ServiceCase
reported_claim = record claim { state = CaseState.reported; assigned_to_id = some 8 }

abbrev reporting : CaseDb
reporting = record office {
  cases = reported_claim ∷ [];
  accounts =
      (record { id = 8; role = Role.super_admin; email = 80; is_active = true }) ∷ office.accounts;
}

abbrev override : CaseCommand
override = record ask_customer {
  action = Action.override;
  state = none;
  is_confirmed = true;
  has_step_up_code = true;
  verified = true;
}

abbrev overridden : CaseDb
overridden = value (case_command 1000 8 7 policy override reporting) reporting

overrides : case_command 1000 8 7 policy override reporting ≡ ok overridden
unfolding case_command find_case rent_a_4_wheel.Cases.Access.case_access
    rent_a_4_wheel.Cases.Access.participant rent_a_4_wheel.Cases.Access.marketplace_actor
    rent_a_4_wheel.Cases.Access.find_account rent_a_4_wheel.Cases.Access.is_operator
    rent_a_4_wheel.Cases.Text.safe_text rent_a_4_wheel.Cases.Command.decide
    rent_a_4_wheel.Cases.Assignments.override_case
    rent_a_4_wheel.Cases.Access.independent_case_actor rent_a_4_wheel.Cases.Access.has_rows
    rent_a_4_wheel.Cases.Access.has_interest
overrides = refl

abbrev appeal : CaseCommand
appeal = record ask_customer { action = Action.appeal; version = 3; state = none }

abbrev appealed : CaseDb
appealed = value (case_command 2000 3 7 policy appeal overridden) overridden

appeals : case_command 2000 3 7 policy appeal overridden ≡ ok appealed
unfolding case_command find_case rent_a_4_wheel.Cases.Access.case_access
    rent_a_4_wheel.Cases.Access.participant rent_a_4_wheel.Cases.Access.marketplace_actor
    rent_a_4_wheel.Cases.Access.find_account rent_a_4_wheel.Cases.Access.is_operator
    rent_a_4_wheel.Cases.Text.safe_text rent_a_4_wheel.Cases.Command.decide
    rent_a_4_wheel.Cases.Assignments.override_case
    rent_a_4_wheel.Cases.Access.independent_case_actor rent_a_4_wheel.Cases.Access.has_rows
    rent_a_4_wheel.Cases.Access.has_interest rent_a_4_wheel.Cases.Command.record_command
    rent_a_4_wheel.Cases.Command.after_review rent_a_4_wheel.Cases.Transitions.appeal_case
appeals = refl

abbrev appealed_claim : ServiceCase
appealed_claim = record reported_claim {
  state = CaseState.initial_review;
  version = 4;
  assigned_to_id = none;
  due_at = 259202000;
}

reported_found : find_case 7 reporting.cases ≡ some reported_claim
unfolding find_case
reported_found = refl

appealed_found : find_case 7 appealed.cases ≡ some appealed_claim
unfolding case_command find_case rent_a_4_wheel.Cases.Access.case_access
    rent_a_4_wheel.Cases.Access.participant rent_a_4_wheel.Cases.Access.marketplace_actor
    rent_a_4_wheel.Cases.Access.find_account rent_a_4_wheel.Cases.Access.is_operator
    rent_a_4_wheel.Cases.Text.safe_text rent_a_4_wheel.Cases.Command.decide
    rent_a_4_wheel.Cases.Transitions.transition_case case_states
    rent_a_4_wheel.Cases.Transitions.is_settlement rent_a_4_wheel.Cases.Transitions.awaits_response
    rent_a_4_wheel.Cases.Transitions.agent_decides
    rent_a_4_wheel.Cases.Access.independent_case_actor rent_a_4_wheel.Cases.Access.has_rows
    rent_a_4_wheel.Cases.Access.has_interest rent_a_4_wheel.Cases.Command.record_command
    rent_a_4_wheel.Cases.Command.after_review rent_a_4_wheel.Cases.Assignments.override_case
    rent_a_4_wheel.Cases.Transitions.appeal_case rent_a_4_wheel.Cases.Transitions.review_again
appealed_found = refl

every_case-CanClose_example :
    (Kind.claim ≡ Kind.claim) × CanClose Kind.claim CaseState.initial_review
every_case-CanClose_example =
    every_case-CanClose 7 reporting appealed reported_claim appealed_claim reported_found refl
      (command 2000 3 7 policy appeal (command 1000 8 7 policy override none_yet overrides) appeals)
      appealed_found
