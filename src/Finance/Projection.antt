-- ===== src/Finance/Projection.antt =====
-- src/lib/financial-projection.ts: the one reading of a reservation's money that the confirmation
-- screens, the fulfilment and the trip-start gate share.
use rent_a_4_wheel.Prelude.{
  ℕ, ◌+◌, Bool, true, false, not, ◌&&◌, ◌||◌, Option, none, some, List, [], ◌∷◌, if◌then◌else◌, ltb,
  leb, nat_eq, option_eq, ◌==◌, includes, find, select, any, sum_by, is_some,
}
use rent_a_4_wheel.Schema.Enums.{
  ReservationStatus, FinancialDisposition, PaymentType, PaymentStatus, RefundStatus, OperationKind,
  OperationState, IntentStatus, status_eq, disposition_eq, payment_type_eq, payment_status_eq,
  refund_status_eq, operation_kind_eq, operation_state_eq, intent_status_eq,
}
use rent_a_4_wheel.Schema.Booking.{Reservation}
use rent_a_4_wheel.Schema.Money.{Payment, Refund, SecurityDeposit, FinancialOperation}
use rent_a_4_wheel.Schema.Database.{Db, find_deposit}

pub record FinancialSnapshot : Type 0 where
  pub status : ReservationStatus
  pub financial_disposition : FinancialDisposition
  pub deposit_cents : ℕ
  pub payments : List Payment
  pub refunds : List Refund
  pub deposit : Option SecurityDeposit
  pub operation : Option FinancialOperation

-- The operation that `deposit: { include: { operation: true } }` brings.
unfoldable pub find_operation :
    Option SecurityDeposit → List FinancialOperation → Option FinancialOperation
find_operation none ops = none
find_operation (some d) ops = find (λ o. d.operation_id == some o.id) ops

-- The `include` of the queries that feed the projection.
unfoldable pub snapshot : Db → Reservation → FinancialSnapshot
unfolding find_operation find_deposit
snapshot db r =
    let d = find_deposit r.id db.security_deposits in
    record {
      status = r.status;
      financial_disposition = r.financial_disposition;
      deposit_cents = r.deposit_cents;
      payments = select (λ p. p.reservation_id == r.id) db.payments;
      refunds = select (λ f. f.reservation_id == r.id) db.refunds;
      deposit = d;
      operation = find_operation d db.financial_operations;
    }

abbrev pub pre_trip_states : List ReservationStatus
pre_trip_states =
    ReservationStatus.confirmed ∷ ReservationStatus.documents_required
    ∷ ReservationStatus.ready_for_check_in ∷ ReservationStatus.check_in_progress
    ∷ ReservationStatus.ready_to_start ∷ []

unfoldable pub captured : List Payment → List Payment
captured ps = select (λ p. p.type == PaymentType.rental && p.status == PaymentStatus.succeeded) ps

amount : Payment → ℕ
amount p = p.amount_cents

unfoldable pub paid_cents : FinancialSnapshot → ℕ
unfolding captured amount
paid_cents r = sum_by amount (captured r.payments)

-- The refunds of captured rental payments.
relevant : FinancialSnapshot → List Refund
unfolding captured
relevant r = select (λ f. any (λ p. p.id == f.payment_id) (captured r.payments)) r.refunds

refund_amount : Refund → ℕ
refund_amount f = f.amount_cents

unfoldable pub refunded_cents : FinancialSnapshot → ℕ
unfolding relevant refund_amount
refunded_cents r =
    sum_by refund_amount (select (λ f. f.status == RefundStatus.succeeded) (relevant r))

unfoldable pub pending_refund_cents : FinancialSnapshot → ℕ
unfolding relevant refund_amount
pending_refund_cents r =
    sum_by refund_amount
      (select (λ f. f.status == RefundStatus.pending || f.legacy_uncertain) (relevant r))

pub data ProjectedRefund : Type 0 where
  pending failed refunded partial no_refund : ProjectedRefund

unfoldable pub refund_status : FinancialSnapshot → ProjectedRefund
unfolding paid_cents refunded_cents pending_refund_cents
refund_status r =
    if ltb 0 (pending_refund_cents r)
    then ProjectedRefund.pending
    else if any (λ f. f.status == RefundStatus.failed || f.status == RefundStatus.cancelled)
        (relevant r)
    then ProjectedRefund.failed
    else if ltb 0 (paid_cents r) && leb (paid_cents r) (refunded_cents r)
    then ProjectedRefund.refunded
    else if ltb 0 (refunded_cents r)
    then ProjectedRefund.partial
    else ProjectedRefund.no_refund

unfoldable pub after : ℕ → Option ℕ → Bool
after now none = false
after now (some t) = ltb now t

-- A live authorization of the operation that owns the deposit row, for the whole amount.
unfoldable pub authorization_valid : ℕ → ℕ → SecurityDeposit → FinancialOperation → Bool
unfolding after
authorization_valid now required d op =
    not d.legacy_uncertain
    && d.operation_id == some op.id
    && op.kind == OperationKind.deposit
    && op.generation == some d.generation
    && ltb 0 d.generation
    && op.provider_id == d.stripe_payment_intent_id
    && not (op.state == OperationState.review || op.state == OperationState.dead_letter)
    && leb required d.capturable_amount_cents
    && d.status == PaymentStatus.succeeded
    && d.stripe_status == some IntentStatus.requires_capture
    && leb required d.amount_cents
    && after now d.authorization_expires_at
    && not (is_some d.released_at)

unfoldable pub deposit_authorized :
    ℕ → ℕ → Option SecurityDeposit → Option FinancialOperation → Bool
unfolding authorization_valid
deposit_authorized now required none op = false
deposit_authorized now required (some d) none = false
deposit_authorized now required (some d) (some op) = authorization_valid now required d op

unfoldable pub deposit_valid : ℕ → FinancialSnapshot → Bool
unfolding deposit_authorized
deposit_valid now r =
    r.deposit_cents == 0 || deposit_authorized now r.deposit_cents r.deposit r.operation

unfoldable pub money_available : FinancialSnapshot → Bool
unfolding paid_cents refunded_cents pending_refund_cents
money_available r = ltb (refunded_cents r + pending_refund_cents r) (paid_cents r)

unfoldable pub financial_eligible : ℕ → FinancialSnapshot → Bool
unfolding money_available deposit_valid
financial_eligible now r =
    r.financial_disposition == FinancialDisposition.opened
    && money_available r
    && deposit_valid now r

pub data Outcome : Type 0 where
  processing refunded refund_pending refund_failed review_required cancelled expired : Outcome
  deposit_action_required confirmed payment_failed : Outcome

action_required : Option SecurityDeposit → Bool
action_required none = false
action_required (some d) = d.stripe_status == some IntentStatus.requires_action

is_failed : ProjectedRefund → Bool
is_failed ProjectedRefund.failed = true
is_failed _ = false

-- The ladder that gives `outcome`.
unfoldable pub outcome : ℕ → FinancialSnapshot → Outcome
unfolding paid_cents refunded_cents pending_refund_cents refund_status deposit_valid
    financial_eligible action_required is_failed
outcome now r =
    if ltb 0 (paid_cents r) && leb (paid_cents r) (refunded_cents r)
    then Outcome.refunded
    else if ltb 0 (paid_cents r) && ltb 0 (pending_refund_cents r)
    then Outcome.refund_pending
    else if is_failed (refund_status r)
    then Outcome.refund_failed
    else if r.financial_disposition == FinancialDisposition.review
    then Outcome.review_required
    else if r.status == ReservationStatus.cancelled_by_customer
        || r.status == ReservationStatus.cancelled_by_host
    then Outcome.cancelled
    else if r.status == ReservationStatus.expired
    then Outcome.expired
    else if not (r.financial_disposition == FinancialDisposition.opened)
    then Outcome.review_required
    else if action_required r.deposit && ltb 0 r.deposit_cents
    then Outcome.deposit_action_required
    else if financial_eligible now r
        && (includes pre_trip_states r.status || r.status == ReservationStatus.active)
    then Outcome.confirmed
    else if r.status == ReservationStatus.payment_failed
        || (ltb 0 (paid_cents r) && not (deposit_valid now r))
    then Outcome.payment_failed
    else Outcome.processing
