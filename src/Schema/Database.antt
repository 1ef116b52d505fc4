-- ===== src/Schema/Database.antt =====
-- The tables as one state, what a transaction reads from its surroundings, and the queries.
-- A transaction holds the advisory and row locks of src/lib/financial-locks.ts until it commits, so
-- it is one step on the tables.
use rent_a_4_wheel.Prelude.{ℕ, Bool, Option, List, find, ◌==◌, nat_eq}
use rent_a_4_wheel.Schema.Enums.{OperationKind}
use rent_a_4_wheel.Schema.Booking.{Reservation, Trip}
use rent_a_4_wheel.Schema.Fleet.{
  Vehicle, VehicleBlock, ServiceCase, Jurisdiction, JurisdictionApproval,
}
use rent_a_4_wheel.Schema.Money.{
  Payment, Refund, SecurityDeposit, FinancialOperation, FinancialCase, PaymentReconciliation, Key,
  Payload,
}

pub record Db : Type 0 where
  pub reservations : List Reservation
  pub trips : List Trip
  pub vehicles : List Vehicle
  pub vehicle_blocks : List VehicleBlock
  pub service_cases : List ServiceCase
  pub jurisdictions : List Jurisdiction
  pub jurisdiction_approvals : List JurisdictionApproval
  pub payments : List Payment
  pub refunds : List Refund
  pub security_deposits : List SecurityDeposit
  pub financial_operations : List FinancialOperation
  pub financial_cases : List FinancialCase
  pub payment_reconciliations : List PaymentReconciliation
  pub next_id : ℕ

-- What `prepareOperation` fingerprints.
pub record OperationParams : Type 0 where
  pub key : Key
  pub kind : OperationKind
  pub reservation_id : Option ℕ
  pub payload : Payload

-- `now` is the clock, `is_production` the deployment, `fence_valid` the answer of the lease
-- query of `assertEventFence` (true outside an event), `fingerprint` the SHA-256 of canonical JSON.
pub record Env : Type 0 where
  pub now : ℕ
  pub is_production : Bool
  pub fence_valid : Bool
  pub fingerprint : OperationParams → ℕ

-- What the modelled code throws.
pub data Error : Type 0 where
  not_found event_lease_lost jurisdiction_unavailable : Error
  illegal_transition stale_reservation cannot_reopen cannot_cancel : Error
  claim_outstanding safety_review financial_state deposit_missing financial_review : Error
  terminated deposit_inconsistent deposit_uncertain ownership_mismatch : Error
  payment_method_missing refund_unauthorized feature_not_released : Error
  key_reused refund_amount rental_required refund_exceeds unfinished_trip operational_trip : Error

-- `findUnique({ where: { id } })` on the reservations.
unfoldable pub find_reservation : ℕ → List Reservation → Option Reservation
find_reservation id rs = find (λ r. r.id == id) rs

-- `findUnique({ where: { reservationId } })`.
unfoldable pub find_deposit : ℕ → List SecurityDeposit → Option SecurityDeposit
find_deposit id ds = find (λ d. d.reservation_id == id) ds

unfoldable pub find_trip : ℕ → List Trip → Option Trip
find_trip id ts = find (λ t. t.reservation_id == id) ts

unfoldable pub find_vehicle : ℕ → List Vehicle → Option Vehicle
find_vehicle id vs = find (λ v. v.id == id) vs
