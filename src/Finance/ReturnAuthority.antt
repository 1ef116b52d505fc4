-- ===== src/Finance/ReturnAuthority.antt =====
-- src/lib/return-financial-authority.ts: the evidence that a return or a cancellation wants settled.
use rent_a_4_wheel.Prelude.{
  ℕ, Bool, false, not, ◌&&◌, ◌||◌, Option, none, some, List, [], ◌∷◌, ltb, nat_eq, option_eq, ◌==◌,
  includes, any, select, is_some, if◌then◌else◌, Result, ok, guard, or_throw, ◌>>=◌, ◌>>◌,
}
use rent_a_4_wheel.Schema.Enums.{
  ReservationStatus, status_eq, FinancialDisposition, PaymentType, PaymentStatus, RefundStatus,
  OperationKind, OperationState, IntentStatus, disposition_eq, payment_type_eq, payment_status_eq,
  refund_status_eq, operation_kind_eq, operation_state_eq, intent_status_eq,
}
use rent_a_4_wheel.Schema.Booking.{Reservation, Trip}
use rent_a_4_wheel.Schema.Money.{Payment, Refund, SecurityDeposit, FinancialOperation}
use rent_a_4_wheel.Schema.Database.{
  Db, Env, Error, not_found, claim_outstanding, financial_review, find_reservation, find_deposit,
  find_trip,
}
use rent_a_4_wheel.Finance.Locks.{has_open_claim}

unfoldable pub payments_of : Db → ℕ → List Payment
payments_of db id = select (λ p. p.reservation_id == id) db.payments

unfoldable pub refunds_of : Db → ℕ → List Refund
refunds_of db id = select (λ f. f.reservation_id == id) db.refunds

-- A case that is not resolved, other than the one the caller has verified.
has_open_case : Db → ℕ → Option ℕ → Bool
has_open_case db id verified =
    any (λ c. c.reservation_id == id && not c.is_resolved && not (verified == some c.id))
      db.financial_cases

paid_by : List Payment → Option ℕ → Bool
paid_by ps none = false
paid_by ps (some id) = any (λ p. p.id == id) ps

has_reconciliation : Db → ℕ → Bool
unfolding payments_of paid_by
has_reconciliation db id =
    any
      (λ c.
        (c.reservation_id == some id || paid_by (payments_of db id) c.payment_id) && c.is_unsettled)
      db.payment_reconciliations

-- The body of `operations.some`.
is_uncertain : FinancialOperation → Bool
is_uncertain op =
    (is_some op.lease_token
      || is_some op.lease_expires_at
      || not (op.state == OperationState.observed || op.state == OperationState.poll))
    || (not (op.state == OperationState.observed)
        && (not (is_some op.provider_id)
            || not (
                op.kind == OperationKind.rental && op.result_status == some IntentStatus.succeeded
                || op.kind == OperationKind.deposit
                  && op.result_status == some IntentStatus.requires_capture)))

has_uncertain : Db → ℕ → Bool
unfolding is_uncertain
has_uncertain db id =
    any
      (λ op.
        op.reservation_id == some id
        && includes
            (OperationKind.rental ∷ OperationKind.refund ∷ OperationKind.deposit
              ∷ OperationKind.deposit_release ∷ [])
            op.kind
        && is_uncertain op)
      db.financial_operations

deposit_uncertain : Option SecurityDeposit → Bool
deposit_uncertain none = false
deposit_uncertain (some d) = d.legacy_uncertain

-- The long disjunction of `assertSettledReturnEvidence`. PENDING, which it also looks for, is no
-- payment status.
unfoldable pub is_unsettled : Db → Reservation → Option ℕ → Bool
unfolding has_open_case has_reconciliation has_uncertain deposit_uncertain payments_of refunds_of
is_unsettled db r verified =
    has_open_case db r.id verified
    || has_reconciliation db r.id
    || has_uncertain db r.id
    || any (λ f. f.legacy_uncertain || f.status == RefundStatus.pending) (refunds_of db r.id)
    || deposit_uncertain (find_deposit r.id db.security_deposits)
    || (ltb 0 r.deposit_cents && not (is_some (find_deposit r.id db.security_deposits)))
    || not (
        any (λ p. p.type == PaymentType.rental && p.status == PaymentStatus.succeeded)
          (payments_of db r.id))
    || any (λ p. p.status == PaymentStatus.processing) (payments_of db r.id)

unfoldable pub assert_settled_return_evidence : Env → Db → ℕ → Option ℕ → Result Error Reservation
assert_settled_return_evidence env db id verified = do
  guard (not (has_open_claim db id)) claim_outstanding
  r ← or_throw (find_reservation id db.reservations) not_found
  guard (not (is_unsettled db r verified)) financial_review
  ok r

unfoldable pub assert_return_financial_authority : Env → Db → ℕ → Result Error (Unit {0})
unfolding assert_settled_return_evidence
assert_return_financial_authority env db id = do
  r ← assert_settled_return_evidence env db id none
  guard
      (includes (FinancialDisposition.opened ∷ FinancialDisposition.terminated ∷ [])
        r.financial_disposition)
      financial_review

has_quarantined : Db → ℕ → Bool
has_quarantined db id =
    any
      (λ op.
        op.reservation_id == some id
        && (op.state == OperationState.review || op.state == OperationState.dead_letter))
      db.financial_operations

unfoldable pub needs_review : Db → Reservation → Bool
unfolding has_open_case has_reconciliation has_quarantined deposit_uncertain refunds_of
needs_review db r =
    r.financial_disposition == FinancialDisposition.review
    || has_open_case db r.id none
    || has_reconciliation db r.id
    || has_quarantined db r.id
    || any (λ f. f.legacy_uncertain) (refunds_of db r.id)
    || deposit_uncertain (find_deposit r.id db.security_deposits)

unfoldable pub assert_no_unresolved_financial_review : Env → Db → ℕ → Result Error (Unit {0})
assert_no_unresolved_financial_review env db id = do
  guard (not (has_open_claim db id)) claim_outstanding
  r ← or_throw (find_reservation id db.reservations) not_found
  guard (not (needs_review db r)) financial_review

unfoldable pub has_started : Option Trip → Bool
has_started none = false
has_started (some t) = is_some t.started_at

-- A release of before the trip passes; one that follows a trip wants the review clear.
unfoldable pub assert_deposit_release_review_clear : Env → Db → ℕ → Result Error (Unit {0})
unfolding has_started
assert_deposit_release_review_clear env db id = do
  r ← or_throw (find_reservation id db.reservations) not_found
  if has_started (find_trip id db.trips)
        || includes
            (ReservationStatus.active ∷ ReservationStatus.return_in_progress
              ∷ ReservationStatus.completed ∷ ReservationStatus.disputed
              ∷ ReservationStatus.under_claim_review ∷ [])
            r.status
      then assert_no_unresolved_financial_review env db id
      else ok tt
