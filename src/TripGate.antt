-- ===== src/TripGate.antt =====
-- `evaluateTripStartGate` of src/lib/trip-gate.ts: every condition on releasing the keys and starting a
-- trip.
pub mod Soundness
use rent_a_4_wheel.Prelude.{
  ℕ, ◌+◌, ◌-◌, ◌*◌, ◌≡◌, Bool, true, false, not, ◌&&◌, ◌||◌, Option, none, some, List, [], ◌∷◌,
  ◌++◌, any, find, includes, if◌then◌else◌, is_some, leb, ltb, nat_beq, nat_eq, Eq, ◌==◌, ◌↔◌,
  Result, ok, err, arith,
}
use rent_a_4_wheel.Schema.Enums.{ReservationStatus, status_eq, FinancialDisposition, disposition_eq}
use rent_a_4_wheel.Schema.Booking.{Reservation}
use rent_a_4_wheel.Schema.Database.{Db, Env, find_reservation}
use rent_a_4_wheel.Jurisdiction.{is_ok, require_reservation_jurisdiction}
use rent_a_4_wheel.Finance.Projection.{
  FinancialSnapshot, snapshot, paid_cents, money_available, deposit_valid,
}
use rent_a_4_wheel.Finance.Locks.{has_safety_block}

-- REQUIRED_DOCUMENT_TYPES, and the other types.
pub data DocumentType : Type 0 where
  license_front license_back selfie_with_license other_document : DocumentType

abbrev pub document_rank : DocumentType → ℕ
document_rank license_front = 0
document_rank license_back = 1
document_rank selfie_with_license = 2
document_rank other_document = 3

abbrev pub document_beq : DocumentType → DocumentType → Bool
document_beq a b = nat_beq (document_rank a) (document_rank b)

-- A document that is not deleted; `is_clean` is malwareScanStatus = CLEAN.
pub record DriverDocument : Type 0 where
  pub user_id : ℕ
  pub type : DocumentType
  pub is_clean : Bool
  pub is_rejected : Bool

pub record IdentityHandoff : Type 0 where
  pub verified_at : Option ℕ
  pub license_matches_upload : Bool
  pub physical_license_unexpired : Bool
  pub selfie_matches_customer : Bool

-- Who submitted a report.
pub data ReportRole : Type 0 where
  host_role customer_role other_role : ReportRole

abbrev pub role_rank : ReportRole → ℕ
role_rank host_role = 0
role_rank customer_role = 1
role_rank other_role = 2

abbrev pub role_beq : ReportRole → ReportRole → Bool
role_beq a b = nat_beq (role_rank a) (role_rank b)

-- A report of the phase PRE_TRIP.
pub record ConditionReport : Type 0 where
  pub id : ℕ
  pub submitted_by_role : ReportRole
  pub accepted_at : Option ℕ

-- What the query includes of one reservation; `photos` has the report of each photo, `keys_released` is
-- the checklist row PICKUP, HOST, KEYS_RELEASED.
pub record CheckInRecords : Type 0 where
  pub documents : List DriverDocument
  pub agreement_acceptances : List ℕ
  pub identity_handoff : Option IdentityHandoff
  pub condition_reports : List ConditionReport
  pub photos : List ℕ
  pub keys_released : Bool
  pub check_in_window_hours : ℕ

pub data Stage : Type 0 where
  start key_release : Stage

-- One constructor for each message.
pub data GateReason : Type 0 where
  jurisdiction_not_released reservation_not_found status_not_eligible : GateReason
  safety_review_required disposition_not_open rental_not_paid rental_refunded : GateReason
  deposit_not_valid : GateReason
  missing_document : DocumentType → GateReason
  agreement_not_signed handoff_incomplete no_host_report no_customer_report : GateReason
  host_not_accepted customer_not_accepted no_host_photos no_customer_photos : GateReason
  keys_not_released outside_window : GateReason

pub record TripStartGateResult : Type 0 where
  pub can_start : Bool
  pub reasons : List GateReason

-- `reasons.push` where the condition fails, in order.
unfoldable pub push_unmet : List (Bool × GateReason) → List GateReason
push_unmet [] = []
push_unmet ((b, r) ∷ cs) = let rest = push_unmet cs in if b then rest else r ∷ rest

abbrev pub pre_trip_statuses : List ReservationStatus
pre_trip_statuses =
    ReservationStatus.confirmed ∷ ReservationStatus.documents_required
    ∷ ReservationStatus.ready_for_check_in ∷ ReservationStatus.check_in_progress
    ∷ ReservationStatus.ready_to_start ∷ []

unfoldable pub has_document : CheckInRecords → (customer_id : ℕ) → DocumentType → Bool
has_document c customer_id type =
    any
      (λ d. document_beq d.type type && d.user_id == customer_id && d.is_clean && not d.is_rejected)
      c.documents

unfoldable pub handoff_done : Option IdentityHandoff → Bool
handoff_done none = false
handoff_done (some h) =
    is_some h.verified_at
    && h.license_matches_upload
    && h.physical_license_unexpired
    && h.selfie_matches_customer

-- `agreementAcceptances.length !== 0`.
unfoldable pub is_signed : List ℕ → Bool
is_signed [] = false
is_signed (a ∷ as') = true

unfoldable pub report_of : ReportRole → CheckInRecords → Option ConditionReport
report_of role c = find (λ r. role_beq r.submitted_by_role role) c.condition_reports

-- No report, or an accepted one.
unfoldable pub accepted_if_any : Option ConditionReport → Bool
accepted_if_any none = true
accepted_if_any (some r) = is_some r.accepted_at

-- No report, or one with a photo.
unfoldable pub photographed_if_any : CheckInRecords → Option ConditionReport → Bool
photographed_if_any c none = true
photographed_if_any c (some r) = includes c.photos r.id

unfoldable pub keys_ready : Stage → CheckInRecords → Bool
keys_ready start c = c.keys_released
keys_ready key_release c = true

-- The conditions on the reservation and on its money.
unfoldable pub financial_checks : Env → Db → Reservation → List (Bool × GateReason)
financial_checks env db r =
    let f : FinancialSnapshot = snapshot db r in
    (includes pre_trip_statuses r.status, status_not_eligible)
    ∷ (not (has_safety_block db r.vehicle_id), safety_review_required)
    ∷ (r.financial_disposition == FinancialDisposition.opened, disposition_not_open)
    ∷ (not (paid_cents f == 0), rental_not_paid)
    ∷ (paid_cents f == 0 || money_available f, rental_refunded)
    ∷ (deposit_valid env.now f, deposit_not_valid)
    ∷ []

-- The conditions on the papers, the handoff and the reports.
unfoldable pub check_in_checks : CheckInRecords → Reservation → List (Bool × GateReason)
unfolding has_document is_signed handoff_done report_of accepted_if_any photographed_if_any
check_in_checks c r =
    (has_document c r.customer_id license_front, missing_document license_front)
    ∷ (has_document c r.customer_id license_back, missing_document license_back)
    ∷ (has_document c r.customer_id selfie_with_license, missing_document selfie_with_license)
    ∷ (is_signed c.agreement_acceptances, agreement_not_signed)
    ∷ (handoff_done c.identity_handoff, handoff_incomplete)
    ∷ (is_some (report_of host_role c), no_host_report)
    ∷ (is_some (report_of customer_role c), no_customer_report)
    ∷ (accepted_if_any (report_of host_role c), host_not_accepted)
    ∷ (accepted_if_any (report_of customer_role c), customer_not_accepted)
    ∷ (photographed_if_any c (report_of host_role c), no_host_photos)
    ∷ (photographed_if_any c (report_of customer_role c), no_customer_photos)
    ∷ []

-- The keys and the check-in window.
unfoldable pub window_checks : Env → CheckInRecords → Reservation → Stage → List (Bool × GateReason)
unfolding keys_ready
window_checks env c r stage =
    (keys_ready stage c, keys_not_released)
    ∷ (leb (r.pickup_at - c.check_in_window_hours * 60 * 60 * 1000) env.now, outside_window)
    ∷ []

unfoldable pub all_checks :
    Env → Db → CheckInRecords → Stage → Reservation → List (Bool × GateReason)
unfolding financial_checks check_in_checks window_checks
all_checks env db c stage r =
    (is_ok (require_reservation_jurisdiction env db r.id), jurisdiction_not_released)
      ∷ financial_checks env db r
    ++ check_in_checks c r
    ++ window_checks env c r stage

is_empty : List GateReason → Bool
is_empty [] = true
is_empty (r ∷ rs) = false

pub gate_of : Env → Db → CheckInRecords → Stage → Option Reservation → TripStartGateResult
unfolding all_checks push_unmet is_empty
gate_of env db c stage none = record { can_start = false; reasons = reservation_not_found ∷ [] }
gate_of env db c stage (some r) =
    let reasons = push_unmet (all_checks env db c stage r) in
    record { can_start = is_empty reasons; reasons = reasons }

unfoldable pub evaluate_trip_start_gate :
    Env → Db → CheckInRecords → (id : ℕ) → Stage → TripStartGateResult
unfolding gate_of
evaluate_trip_start_gate env db c id stage =
    gate_of env db c stage (find_reservation id db.reservations)
