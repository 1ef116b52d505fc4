-- ===== src/Schema/Fleet.antt =====
-- Vehicles, their blocks and service cases, and the release gates of a jurisdiction.
use rent_a_4_wheel.Prelude.{ℕ, ◌≡◌, ◌↔◌, Bool, true, arith, Eq, nat_beq, Option, List}

-- Enum VehicleStatus.
pub data VehicleStatus : Type 0 where
  active maintenance inactive retired : VehicleStatus

abbrev pub vehicle_status_rank : VehicleStatus → ℕ
vehicle_status_rank VehicleStatus.active = 0
vehicle_status_rank VehicleStatus.maintenance = 1
vehicle_status_rank VehicleStatus.inactive = 2
vehicle_status_rank VehicleStatus.retired = 3

abbrev pub vehicle_status_beq : VehicleStatus → VehicleStatus → Bool
vehicle_status_beq a b = nat_beq (vehicle_status_rank a) (vehicle_status_rank b)

pub vehicle_status_beq_iff : (a b : VehicleStatus) → (vehicle_status_beq a b ≡ true) ↔ (a ≡ b)
vehicle_status_beq_iff a b = ground arith

instance abbrev pub vehicle_status_eq : Eq VehicleStatus
vehicle_status_eq = record { beq = vehicle_status_beq; beq_iff = vehicle_status_beq_iff }

-- JURISDICTION_GATES of src/lib/jurisdiction.ts.
pub data Gate : Type 0 where
  entity legal insurance tax privacy_retention operations payments : Gate
  host_payouts local_restrictions host_eligibility guest_eligibility : Gate
  vehicle_eligibility : Gate

abbrev pub gate_rank : Gate → ℕ
gate_rank Gate.entity = 0
gate_rank Gate.legal = 1
gate_rank Gate.insurance = 2
gate_rank Gate.tax = 3
gate_rank Gate.privacy_retention = 4
gate_rank Gate.operations = 5
gate_rank Gate.payments = 6
gate_rank Gate.host_payouts = 7
gate_rank Gate.local_restrictions = 8
gate_rank Gate.host_eligibility = 9
gate_rank Gate.guest_eligibility = 10
gate_rank Gate.vehicle_eligibility = 11

abbrev pub gate_beq : Gate → Gate → Bool
gate_beq a b = nat_beq (gate_rank a) (gate_rank b)

pub gate_beq_iff : (a b : Gate) → (gate_beq a b ≡ true) ↔ (a ≡ b)
gate_beq_iff a b = ground arith

instance abbrev pub gate_eq : Eq Gate
gate_eq = record { beq = gate_beq; beq_iff = gate_beq_iff }

-- `host_approved` is the host's onboardingStatus = APPROVED, if there is a host; `is_bookable`
-- is that of the availability row, if there is one.
pub record Vehicle : Type 0 where
  pub id : ℕ
  pub jurisdiction_code : Option (List ℕ)
  pub status : VehicleStatus
  pub is_demo : Bool
  pub listing_approved : Bool
  pub host_approved : Option Bool
  pub is_bookable : Option Bool

pub record VehicleBlock : Type 0 where
  pub vehicle_id : ℕ
  pub start_at : ℕ
  pub end_at : ℕ

-- `is_claim` is kind in [CLAIM, DISPUTE]; `is_closed` is state = CLOSED.
pub record ServiceCase : Type 0 where
  pub reservation_id : Option ℕ
  pub vehicle_id : Option ℕ
  pub is_claim : Bool
  pub is_closed : Bool
  pub safety_block : Bool

-- `is_staging` is mode = STAGING. A code is a list of character codes.
pub record Jurisdiction : Type 0 where
  pub code : List ℕ
  pub is_staging : Bool

-- `is_ready` is status = STAGING_READY; `is_reviewed` is reviewedAt and reviewedById being set.
pub record JurisdictionApproval : Type 0 where
  pub jurisdiction_code : List ℕ
  pub category : Gate
  pub version : ℕ
  pub is_ready : Bool
  pub is_reviewed : Bool
  pub effective_at : ℕ
  pub ends_at : Option ℕ
