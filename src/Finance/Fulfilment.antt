-- ===== src/Finance/Fulfilment.antt =====
-- `requireRefund` and the transactions of `confirmAfterRentalPaymentSuccess` of
-- src/lib/stripe-webhook-handlers.ts, with `requireConfirmationAdmission` of src/lib/admission-authority.ts.
-- The deposit is authorized between the two transactions; notices and trip events are left out.
pub mod Returned
pub mod Confirmed
use rent_a_4_wheel.Prelude.{
  ℕ, ◌+◌, ◌*◌, ◌-◌, Bool, true, false, not, ◌&&◌, ◌||◌, Option, none, some, List, [], ◌∷◌, ◌++◌,
  any, includes, update_where, if◌then◌else◌, is_some, leb, nat_eq, option_eq, ◌==◌, Result, ok,
  err, guard, or_throw, ◌>>=◌, ◌>>◌,
}
use rent_a_4_wheel.Schema.Enums.{
  ReservationStatus, status_eq, FinancialDisposition, disposition_eq, PaymentStatus,
  ReconciliationReason, reason_eq,
}
use rent_a_4_wheel.Schema.Booking.{Reservation}
use rent_a_4_wheel.Schema.Money.{Payment, Refund, Key, PaymentReconciliation}
use rent_a_4_wheel.Schema.Database.{
  Db, Env, Error, not_found, refund_unauthorized, feature_not_released, find_reservation,
}
use rent_a_4_wheel.Jurisdiction.{require_reservation_jurisdiction, is_ok}
use rent_a_4_wheel.Availability.{is_vehicle_available}
use rent_a_4_wheel.Finance.Locks.{lock_reservation}
use rent_a_4_wheel.Finance.Projection.{snapshot, financial_eligible}
use rent_a_4_wheel.Finance.Refunds.{RefundRequest, find_refund, held_cents, reserve_refund}

-- FULFILLMENT_RECOVERY_STATES.
abbrev pub recovery_states : List ReservationStatus
recovery_states =
    ReservationStatus.checkout_hold ∷ ReservationStatus.awaiting_payment
    ∷ ReservationStatus.payment_failed ∷ ReservationStatus.expired ∷ []

-- The reasons that the code writes out, numbered.
pub data TerminalReason : Type 0 where
  after_termination admission_closed deadline_elapsed : TerminalReason
  dates_unavailable cannot_fulfil recovery_expired : TerminalReason

unfoldable pub reason_text : TerminalReason → ℕ
reason_text TerminalReason.after_termination = 0
reason_text TerminalReason.admission_closed = 1
reason_text TerminalReason.deadline_elapsed = 2
reason_text TerminalReason.dates_unavailable = 3
reason_text TerminalReason.cannot_fulfil = 4
reason_text TerminalReason.recovery_expired = 5

-- By the words of the text: termination, Dates, deadline or window.
reconciliation_reason : TerminalReason → ReconciliationReason
reconciliation_reason TerminalReason.after_termination = ReconciliationReason.after_cancellation
reconciliation_reason TerminalReason.dates_unavailable = ReconciliationReason.dates_unavailable
reconciliation_reason TerminalReason.deadline_elapsed = ReconciliationReason.window_expired
reconciliation_reason TerminalReason.recovery_expired = ReconciliationReason.window_expired
reconciliation_reason _ = ReconciliationReason.after_hold_expired

unfoldable pub update_reservation : ℕ → (Reservation → Reservation) → Db → Db
update_reservation id f db = record db {
  reservations = update_where (λ r. r.id == id) f db.reservations;
}

open_reconciliation : ℕ → Payment → ReconciliationReason → Db → Db
open_reconciliation id payment reason db = record db {
  payment_reconciliations =
      db.payment_reconciliations
      ++ (record {
        reservation_id = some id;
        payment_id = some payment.id;
        reason = reason;
        is_open = true;
        is_unsettled = true;
      })
        ∷ [];
}

-- The request for what is left of the payment.
unfoldable pub terminal_request : ℕ → Payment → TerminalReason → Db → RefundRequest
unfolding reason_text
terminal_request id payment reason db = record {
  idempotency_key = Key.terminal_refund payment.id;
  reservation_id = id;
  payment_id = payment.id;
  amount_cents = payment.amount_cents - held_cents payment.id db.refunds;
  reason = some (reason_text reason);
  initiated_by_id = none;
}

-- A refund is under the key already, or one is reserved for what is left, if anything is.
pub refund_rest :
    Env → ℕ → Payment → TerminalReason → Option Refund → Db → Result Error (Option Refund × Db)
unfolding terminal_request reconciliation_reason open_reconciliation
refund_rest env id payment reason (some existing) db = ok (some existing, db)
refund_rest env id payment reason none db =
    if leb payment.amount_cents (held_cents payment.id db.refunds) then ok (none, db) else (do
      (refund, db1) ← reserve_refund env (terminal_request id payment reason db) db
      ok (some refund, open_reconciliation id payment (reconciliation_reason reason) db1))

unfoldable pub mark_refund_required : ℕ → Db → Db
unfolding update_reservation
mark_refund_required id db =
    update_reservation id
      (λ r. record r { financial_disposition = FinancialDisposition.refund_required }) db

unfoldable pub require_refund :
    Env → ℕ → Payment → TerminalReason → Db → Result Error (Option Refund × Db)
unfolding refund_rest
require_refund env id payment reason db = do
  current ← or_throw (find_reservation id db.reservations) not_found
  guard
      (current.financial_disposition == FinancialDisposition.refund_required
        || current.financial_disposition == FinancialDisposition.opened
          && includes recovery_states current.status)
      refund_unauthorized
  let marked = mark_refund_required id db
  refund_rest env id payment reason (find_refund (Key.terminal_refund payment.id) marked.refunds)
      marked

is_past : ℕ → Option ℕ → Bool
is_past now none = false
is_past now (some t) = leb t now

unfoldable pub expire : ℕ → Db → Db
unfolding update_reservation
expire id db =
    update_reservation id (λ r. record r { status = ReservationStatus.expired; expires_at = none })
      db

-- `is_released` is the answer of `requireReleaseFeature` for bookings.
unfoldable pub require_confirmation_admission : Env → Bool → Db → ℕ → Result Error (Unit {0})
require_confirmation_admission env is_released db id = do
  require_reservation_jurisdiction env db id
  guard is_released feature_not_released

-- JurisdictionUnavailable or ReleaseGateError.
is_admission_error : Error → Bool
is_admission_error Error.jurisdiction_unavailable = true
is_admission_error Error.feature_not_released = true
is_admission_error _ = false

mark_paid : ℕ → Db → Db
mark_paid payment_id db = record db {
  payments =
      update_where (λ p. p.id == payment_id) (λ p. record p { status = PaymentStatus.succeeded })
        db.payments;
}

-- A payment that came after the hold had run out is recorded once.
record_late : (now : ℕ) → Reservation → Payment → Db → Db
unfolding is_past open_reconciliation
record_late now current payment db =
    if (current.status == ReservationStatus.expired
        || current.status == ReservationStatus.awaiting_payment && is_past now current.expires_at)
      && not (
          any
            (λ c.
              c.payment_id == some payment.id
              && c.reason == ReconciliationReason.after_hold_expired)
            db.payment_reconciliations)
    then open_reconciliation current.id payment ReconciliationReason.after_hold_expired db
    else db

-- The vehicle is held until the deadline for the deposit.
deposit_deadline : (now : ℕ) → Reservation → Option ℕ
deposit_deadline now current =
    if current.status == ReservationStatus.payment_failed && is_some current.expires_at
    then current.expires_at
    else some (now + 30 * 60000)

close_late : ℕ → Db → Db
close_late payment_id db = record db {
  payment_reconciliations =
      update_where
        (λ c.
          c.payment_id == some payment_id
          && c.reason == ReconciliationReason.after_hold_expired
          && c.is_open)
        (λ c. record c { is_open = false; is_unsettled = false }) db.payment_reconciliations;
}

unfoldable pub confirmed_row : Reservation → Reservation
confirmed_row r = record r { status = ReservationStatus.documents_required; expires_at = none }

unfoldable pub has_time : ℕ → Option ℕ → Bool
has_time now none = false
has_time now (some t) = not (leb t now)

module _ (env : Env) (is_released : Bool) (id : ℕ) (payment : Payment) where
  -- The answer of a transaction says whether the booking goes on.
  unfoldable pub refunded : TerminalReason → Db → Result Error (Bool × Db)
  refunded reason db = do (_, db1) ← require_refund env id payment reason db; ok (false, db1)

  unfoldable pub refunded_and_expired : TerminalReason → Db → Result Error (Bool × Db)
  refunded_and_expired reason db = do
    (_, db1) ← require_refund env id payment reason db
    ok (false, expire id db1)

  -- `try { admission } catch`.
  admitted :
      Result Error (Unit {0}) → (go_on : Result Error (Bool × Db)) → Db → Result Error (Bool × Db)
  admitted (ok u) go_on db = go_on
  admitted (err e) go_on db =
      if is_admission_error e then refunded TerminalReason.admission_closed db else err e

  unfoldable pub hold_inventory : Reservation → Db → Result Error (Bool × Db)
  unfolding is_past deposit_deadline record_late
  hold_inventory current db =
      if current.status == ReservationStatus.payment_failed && is_past env.now current.expires_at
      then refunded_and_expired TerminalReason.deadline_elapsed db
      else if not (
          is_vehicle_available env db current.vehicle_id current.pickup_at current.return_at
            (some current.id))
      then refunded_and_expired TerminalReason.dates_unavailable db
      else ok (
        true,
        update_reservation id
            (λ r. record r {
              status = ReservationStatus.payment_failed;
              expires_at = deposit_deadline env.now current;
            })
            (record_late env.now current payment db),
      )

  -- The first transaction.
  unfoldable pub take_payment : Db → Result Error (Bool × Db)
  unfolding mark_paid admitted is_admission_error
  take_payment db = do
    current ← lock_reservation env id db
    let paid = mark_paid payment.id db
    if current.financial_disposition == FinancialDisposition.refund_required
        then refunded TerminalReason.after_termination paid
        else if not (
            current.financial_disposition == FinancialDisposition.opened
            && includes recovery_states current.status)
        then ok (false, paid)
        else admitted (require_confirmation_admission env is_released paid id)
            (hold_inventory current paid) paid

  unfoldable pub finish : Reservation → Db → Result Error (Bool × Db)
  unfolding has_time close_late confirmed_row
  finish current db =
      if not (has_time env.now current.expires_at)
      then refunded_and_expired TerminalReason.deadline_elapsed db
      else if not (financial_eligible env.now (snapshot db current))
      then ok (false, db)
      else ok (true, close_late payment.id (update_reservation id confirmed_row db))

  -- The second transaction.
  unfoldable pub confirm : Db → Result Error (Bool × Db)
  unfolding admitted is_admission_error
  confirm db = do
    current ← lock_reservation env id db
    if not (
          current.financial_disposition == FinancialDisposition.opened
          && current.status == ReservationStatus.payment_failed)
        then ok (false, db)
        else admitted (require_confirmation_admission env is_released db id) (finish current db) db
