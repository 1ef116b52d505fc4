-- ===== src/Cases/Rows.antt =====
-- The rows that src/lib/service-cases.ts and src/lib/case-decision-authority.ts read and write.
use rent_a_4_wheel.Prelude.{ℕ, ◌≡◌, ◌↔◌, Bool, true, Option, List, nat_beq, arith, Eq}
use rent_a_4_wheel.Sessions.{Role}
use rent_a_4_wheel.Schema.Enums.{FinancialDisposition}
use rent_a_4_wheel.Cases.{Kind, CaseState}

-- `participant(…).role`.
pub data PartyRole : Type 0 where
  customer operator host : PartyRole

abbrev pub party_rank : PartyRole → ℕ
party_rank PartyRole.customer = 0
party_rank PartyRole.operator = 1
party_rank PartyRole.host = 2

abbrev pub party_beq : PartyRole → PartyRole → Bool
party_beq a b = nat_beq (party_rank a) (party_rank b)

pub party_beq_iff : (a b : PartyRole) → (party_beq a b ≡ true) ↔ (a ≡ b)
party_beq_iff a b = ground arith

instance abbrev pub party_eq : Eq PartyRole
party_eq = record { beq = party_beq; beq_iff = party_beq_iff }

-- The commands; `reply` is stored with the role of its author.
pub data Action : Type 0 where
  reply internal transition assign escalate appeal : Action
  satisfaction override takeover safety_clear reference : Action

pub data EventAction : Type 0 where
  opened : EventAction
  replied : PartyRole → EventAction
  commanded : Action → EventAction

pub record ServiceCase : Type 0 where
  pub id : ℕ
  pub kind : Kind
  pub state : CaseState
  pub version : ℕ
  pub reservation_id : Option ℕ
  pub vehicle_id : Option ℕ
  pub opened_by_id : ℕ
  pub opened_by_role : PartyRole
  pub assigned_to_id : Option ℕ
  pub is_urgent : Bool
  pub due_at : ℕ
  pub created_at : ℕ
  pub closed_at : Option ℕ
  pub retain_until : ℕ
  pub safety_block : Bool
  pub satisfaction : Option ℕ
  pub original_photo_ids : List ℕ

pub record CaseEvent : Type 0 where
  pub case_id : ℕ
  pub actor_id : ℕ
  pub action : EventAction
  pub from_state : CaseState
  pub to_state : CaseState
  pub is_internal : Bool
  pub version : ℕ
  pub deadline_at : ℕ

-- An email is a text without the spaces around it, in lower case.
pub record Account : Type 0 where
  pub id : ℕ
  pub role : Role
  pub email : ℕ
  pub is_active : Bool

pub record CaseReservation : Type 0 where
  pub id : ℕ
  pub customer_id : ℕ
  pub vehicle_id : ℕ
  pub financial_disposition : FinancialDisposition

-- `owner_email` and `owner_host_id` are columns of the owner of the vehicle.
pub record CaseVehicle : Type 0 where
  pub id : ℕ
  pub host_id : Option ℕ
  pub owner_email : Option ℕ
  pub owner_host_id : Option ℕ

pub record HostProfile : Type 0 where
  pub id : ℕ
  pub user_id : ℕ
  pub is_suspended : Bool

-- An active employment, or a row of HostAffiliationHistory.
pub record Membership : Type 0 where
  pub host_id : ℕ
  pub user_id : ℕ

-- `is_clean` is scanStatus = CLEAN and deletedAt = null.
pub record CaseFile : Type 0 where
  pub case_id : ℕ
  pub uploaded_by_id : ℕ
  pub is_clean : Bool

-- A report of the reservation, and its photos where it was accepted.
pub record SubmittedReport : Type 0 where
  pub reservation_id : ℕ
  pub submitted_by_id : ℕ
  pub accepted_photo_ids : List ℕ

-- `is_repair` is service in [INSPECTION, REPAIR].
pub record MaintenanceRecord : Type 0 where
  pub vehicle_id : ℕ
  pub service_date : ℕ
  pub is_repair : Bool

-- The financial case `collaboration-review:…` of a reservation.
pub record CollaborationReview : Type 0 where
  pub reservation_id : ℕ
  pub is_open : Bool

pub record CaseDb : Type 0 where
  pub accounts : List Account
  pub cases : List ServiceCase
  pub events : List CaseEvent
  pub reservations : List CaseReservation
  pub vehicles : List CaseVehicle
  pub hosts : List HostProfile
  pub employments : List Membership
  pub affiliations : List Membership
  pub files : List CaseFile
  pub reports : List SubmittedReport
  pub maintenance : List MaintenanceRecord
  pub reviews : List CollaborationReview

-- What a command throws.
pub data CaseError : Type 0 where
  not_found sign_in not_independent operator_required archived : CaseError
  case_changed unsafe_text wrong_state forbidden already_assigned : CaseError
  step_up_required too_short wait_for_response no_evidence : CaseError
  already_appealed no_appeal case_closed : CaseError
