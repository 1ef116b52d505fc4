-- ===== src/Finance/Refunds.antt =====
-- `reserveRefund` of src/lib/refund-operations.ts: a refund is reserved against the captured payment
-- before anything is asked of the provider. The audit row that it writes is not in the tables here.
pub mod Reserve
use rent_a_4_wheel.Prelude.{
  ℕ, ◌+◌, ◌≡◌, Bool, true, false, not, ◌&&◌, ◌||◌, Option, none, some, List, [], ◌∷◌, ◌++◌, find,
  any, sum_by, update_where, includes, if◌then◌else◌, is_some, leb, nat_eq, option_eq, Eq, ◌==◌,
  Result, ok, err, guard, or_throw, ◌>>=◌, ◌>>◌,
}
use rent_a_4_wheel.Schema.Enums.{
  ReservationStatus, status_eq, FinancialDisposition, disposition_eq, PaymentType, payment_type_eq,
  PaymentStatus, payment_status_eq, RefundStatus, refund_status_eq, OperationKind,
}
use rent_a_4_wheel.Schema.Booking.{Reservation}
use rent_a_4_wheel.Schema.Money.{Payment, Refund, Key, key_eq, Payload, FinancialOperation}
use rent_a_4_wheel.Schema.Database.{
  Db, Env, OperationParams, Error, not_found, refund_amount, rental_required, key_reused,
  refund_exceeds, unfinished_trip, operational_trip, financial_review, find_reservation,
}
use rent_a_4_wheel.Finance.Operations.{prepare_operation}

-- `Request`.
pub record RefundRequest : Type 0 where
  pub idempotency_key : Key
  pub reservation_id : ℕ
  pub payment_id : ℕ
  pub amount_cents : ℕ
  pub reason : Option ℕ
  pub initiated_by_id : Option ℕ

unfoldable pub find_payment : ℕ → List Payment → Option Payment
find_payment id ps = find (λ p. p.id == id) ps

unfoldable pub find_refund : Key → List Refund → Option Refund
find_refund key rs = find (λ r. r.idempotency_key == key) rs

-- A refund that is pending or succeeded, or whose outcome is not known.
unfoldable pub is_held : Refund → Bool
is_held r =
    includes (RefundStatus.pending ∷ RefundStatus.succeeded ∷ []) r.status || r.legacy_uncertain

-- What is held against a payment.
unfoldable pub held_cents : ℕ → List Refund → ℕ
unfolding is_held
held_cents payment_id rs =
    sum_by (λ r. if r.payment_id == payment_id && is_held r then r.amount_cents else 0) rs

unfoldable pub is_captured_rental : Payment → Bool
is_captured_rental p = p.type == PaymentType.rental && p.status == PaymentStatus.succeeded

-- The payment of a refund is a captured rental.
is_rental_refund : Db → Refund → Bool
unfolding is_captured_rental
is_rental_refund db r = any (λ p. p.id == r.payment_id && is_captured_rental p) db.payments

rental_paid : Db → ℕ → ℕ
unfolding is_captured_rental
rental_paid db id =
    sum_by (λ p. if p.reservation_id == id && is_captured_rental p then p.amount_cents else 0)
      db.payments

rental_held : Db → ℕ → ℕ
unfolding is_held is_rental_refund
rental_held db id =
    sum_by
      (λ r.
        if r.reservation_id == id && is_rental_refund db r && is_held r then r.amount_cents else 0)
      db.refunds

-- `existing` was made by this request.
unfoldable pub same_request : Refund → RefundRequest → Bool
same_request r q =
    r.reservation_id == q.reservation_id
    && r.payment_id == q.payment_id
    && r.amount_cents == q.amount_cents
    && r.reason == q.reason
    && r.initiated_by_id == q.initiated_by_id

has_unfinished_trip : Db → ℕ → Bool
has_unfinished_trip db id =
    any (λ t. t.reservation_id == id && is_some t.started_at && not (is_some t.ended_at)) db.trips

is_operational : ReservationStatus → Bool
is_operational s =
    includes
      (ReservationStatus.active ∷ ReservationStatus.return_in_progress ∷ ReservationStatus.completed
        ∷ ReservationStatus.disputed ∷ ReservationStatus.under_claim_review ∷ [])
      s

-- A refund of all that was paid marks the reservation.
mark_refund_required : (is_full : Bool) → ℕ → Db → Db
mark_refund_required false id db = db
mark_refund_required true id db = record db {
  reservations =
      update_where (λ r. r.id == id)
        (λ r. record r { financial_disposition = FinancialDisposition.refund_required })
        db.reservations;
}

-- The row that `create` inserts.
unfoldable pub new_refund : ℕ → RefundRequest → Refund
new_refund id q = record {
  id = id;
  reservation_id = q.reservation_id;
  payment_id = q.payment_id;
  amount_cents = q.amount_cents;
  status = RefundStatus.pending;
  legacy_uncertain = false;
  idempotency_key = q.idempotency_key;
  reason = q.reason;
  initiated_by_id = q.initiated_by_id;
}

-- `create`.
insert_refund : Refund → Db → Db
insert_refund refund db = record db {
  refunds = db.refunds ++ refund ∷ [];
  next_id = db.next_id + 1;
}

-- What the operation of a refund asks for.
refund_operation : RefundRequest → Refund → Payment → OperationParams
refund_operation q refund payment = record {
  key = q.idempotency_key;
  kind = OperationKind.refund;
  reservation_id = some q.reservation_id;
  payload = Payload.refund_payment refund.id payment.stripe_payment_intent_id refund.amount_cents;
}

-- The reservation allows a new refund.
refund_allowed : Db → RefundRequest → Reservation → Result Error (Unit {0})
unfolding has_unfinished_trip is_operational
refund_allowed db q r = do
  guard (not (has_unfinished_trip db q.reservation_id)) unfinished_trip
  guard (not (is_operational r.status)) operational_trip
  guard (not (r.financial_disposition == FinancialDisposition.review)) financial_review

-- The row of the key, or a new one.
pub reserve_new : Env → RefundRequest → Payment → Db → Result Error (Refund × Db)
unfolding refund_allowed rental_held rental_paid mark_refund_required insert_refund refund_operation
    new_refund
reserve_new env q payment db = do
  guard (leb (q.amount_cents + held_cents payment.id db.refunds) payment.amount_cents)
      refund_exceeds
  r ← or_throw (find_reservation q.reservation_id db.reservations) not_found
  refund_allowed db q r
  let is_full = leb (rental_paid db r.id) (q.amount_cents + rental_held db r.id)
  let refund = new_refund db.next_id q
  let db1 = insert_refund refund (mark_refund_required is_full r.id db)
  (_, db2) ← prepare_operation env (refund_operation q refund payment) db1
  ok (refund, db2)

pub reserve_keyed : Env → RefundRequest → Payment → Option Refund → Db → Result Error (Refund × Db)
unfolding reserve_new same_request
reserve_keyed env q payment (some existing) db = do
  guard (same_request existing q) key_reused
  ok (existing, db)
reserve_keyed env q payment none db = reserve_new env q payment db

unfoldable pub reserve_refund : Env → RefundRequest → Db → Result Error (Refund × Db)
unfolding reserve_keyed is_captured_rental
reserve_refund env q db = do
  guard (leb 1 q.amount_cents && leb q.amount_cents 9007199254740991) refund_amount
  payment ← or_throw (find_payment q.payment_id db.payments) not_found
  guard (payment.reservation_id == q.reservation_id && is_captured_rental payment) rental_required
  reserve_keyed env q payment (find_refund q.idempotency_key db.refunds) db
