-- ===== src/Cases/Context.antt =====
-- The input of `caseCommand` of src/lib/service-cases.ts, and the policy of src/lib/collaboration-access.ts.
use rent_a_4_wheel.Prelude.{
  ℕ, ◌+◌, ◌*◌, Bool, Option, none, some, List, [], ◌∷◌, min, max, nat_eq, option_eq,
}
use rent_a_4_wheel.Sessions.{role_eq}
use rent_a_4_wheel.Cases.{Kind, kind_eq, CaseState, state_eq}
use rent_a_4_wheel.Cases.Rows.{PartyRole, party_eq, Action, Account}

-- `policy`: a whole number between the bounds, or the default.
unfoldable pub policy_number : (value : Option ℕ) → (fallback lo hi : ℕ) → ℕ
policy_number none fallback lo hi = fallback
policy_number (some v) fallback lo hi = min hi (max lo v)

pub record Policy : Type 0 where
  pub response_hours : ℕ
  pub claim_days : ℕ
  pub dispute_days : ℕ
  pub incident_days : ℕ
  pub ticket_days : ℕ

-- The parsed input. `verified` is the answer of `verifyAuthCode` to the step-up code.
pub record CaseCommand : Type 0 where
  pub action : Action
  pub version : ℕ
  pub body : List ℕ
  pub state : Option CaseState
  pub assignee_id : Option ℕ
  pub rating : Option ℕ
  pub photo_id : Option ℕ
  pub is_confirmed : Bool
  pub has_step_up_code : Bool
  pub verified : Bool

-- What a command reads besides its input.
pub record Context : Type 0 where
  pub now : ℕ
  pub user_id : ℕ
  pub actor : Account
  pub role : PartyRole
  pub policy : Policy
  pub body : List ℕ

-- `afterDays`.
unfoldable pub after_days : (now days : ℕ) → ℕ
after_days now days = now + days * 86400000

unfoldable pub respond_by : Context → ℕ
respond_by x = x.now + x.policy.response_hours * 3600000

unfoldable pub retention_days : Policy → Kind → ℕ
retention_days p Kind.claim = p.claim_days
retention_days p Kind.dispute = p.dispute_days
retention_days p Kind.incident = p.incident_days
retention_days p Kind.ticket = p.ticket_days

-- The end states of a decision.
abbrev pub decided_states : List CaseState
decided_states = CaseState.closed ∷ CaseState.decided ∷ CaseState.resolved ∷ []
