-- ===== src/Finance/Provider.antt =====
-- `assertCurrentLease` and `assertDispatchAuthority` of src/lib/provider-execution-guard.ts: what is asked of
-- the tables at the last moment before the provider is called. The kinds that begin with FINANCE_ have an
-- authority of their own and are not treated here.
pub mod Stopped
use rent_a_4_wheel.Prelude.{
  ℕ, Bool, true, false, not, ◌&&◌, ◌||◌, Option, none, some, List, [], ◌∷◌, find, select, includes,
  update_where, if◌then◌else◌, is_some, ltb, leb, nat_eq, option_eq, ◌==◌, Result, ok, err, guard,
  or_throw, ◌>>=◌, ◌>>◌,
}
use rent_a_4_wheel.Schema.Enums.{
  ReservationStatus, status_eq, FinancialDisposition, disposition_eq, PaymentType, payment_type_eq,
  PaymentStatus, payment_status_eq, RefundStatus, refund_status_eq, OperationKind,
  operation_kind_eq, OperationState, operation_state_eq,
}
use rent_a_4_wheel.Schema.Booking.{Reservation, Trip}
use rent_a_4_wheel.Schema.Money.{Payment, Refund, SecurityDeposit, FinancialOperation, Payload}
use rent_a_4_wheel.Schema.Database.{
  Db, Env, Error, not_found, find_reservation, find_deposit, find_trip,
}
use rent_a_4_wheel.Jurisdiction.{require_reservation_jurisdiction}
use rent_a_4_wheel.Reservation.Transitions.{cancelled_statuses}
use rent_a_4_wheel.Finance.Projection.{after}
use rent_a_4_wheel.Finance.Refunds.{find_payment, find_refund}
use rent_a_4_wheel.Finance.ReturnAuthority.{has_started, assert_deposit_release_review_clear}

pub data DispatchError : Type 0 where
  database : Error → DispatchError
  lease_lost not_released unauthorized : DispatchError
  -- The generation that the release took stays written.
  unauthorized_after : Db → DispatchError

abbrev pub from_database {ℓ} : {A : Type ℓ} → Result Error A → Result DispatchError A
from_database (ok a) = ok a
from_database (err e) = err (database e)

is_past : ℕ → Option ℕ → Bool
is_past now none = false
is_past now (some t) = leb t now

only : List FinancialOperation → Option FinancialOperation
only (o ∷ []) = some o
only _ = none

-- The row that is running under the token, if it is the operation still.
unfoldable pub assert_current_lease :
    (now : ℕ) → FinancialOperation → (token : ℕ) → Db → Result DispatchError FinancialOperation
unfolding after only
assert_current_lease now op token db = do
  row ←
      or_throw
        (only (
          select
            (λ o.
              o.id == op.id
              && o.lease_token == some token
              && after now o.lease_expires_at
              && o.state == OperationState.running)
            db.financial_operations))
        lease_lost
  guard
      (row.kind == op.kind
        && row.reservation_id == op.reservation_id
        && row.fingerprint == op.fingerprint)
      lease_lost
  ok row

-- Model ProviderObjectOwnership: which row an object of the provider belongs to.
pub record Ownership : Type 0 where
  pub provider_id : ℕ
  pub kind : OperationKind
  pub reservation_id : ℕ
  pub operation_id : Option ℕ
  pub payment_id : Option ℕ

unfoldable pub find_ownership : ℕ → List Ownership → Option Ownership
find_ownership id os = find (λ o. o.provider_id == id) os

release_target : Payload → Option ℕ
release_target (Payload.release_intent i) = some i
release_target _ = none

deposit_amount : Payload → Option ℕ
deposit_amount (Payload.authorize_deposit amount customer payment_method) = some amount
deposit_amount _ = none

-- The refund's id, the intent and the amount.
refund_terms : Payload → Option (ℕ × (ℕ × ℕ))
refund_terms (Payload.refund_payment refund_id (some intent) amount) =
    some (refund_id, (intent, amount))
refund_terms _ = none

-- A reservation whose end, or a deposit whose end, calls for the release.
unfoldable pub calls_for_release :
    (now target : ℕ)
    → Reservation
    → Option SecurityDeposit
    → (original : FinancialOperation) → (generation : ℕ) → Bool
unfolding is_past
calls_for_release now target r none original generation =
    includes (FinancialDisposition.refund_required ∷ FinancialDisposition.terminated ∷ [])
      r.financial_disposition
    || r.status == ReservationStatus.completed
    || includes cancelled_statuses r.status
calls_for_release now target r (some d) original generation =
    includes (FinancialDisposition.refund_required ∷ FinancialDisposition.terminated ∷ [])
      r.financial_disposition
    || r.status == ReservationStatus.completed
    || includes cancelled_statuses r.status
    || (is_some d.operation_id
        && not (d.operation_id == some original.id)
        && ltb generation d.generation)
    || (d.stripe_payment_intent_id == some target && is_past now d.authorization_expires_at)

-- A release without a generation takes that of the original.
adopt : FinancialOperation → (generation : ℕ) → Option ℕ → Db → Result DispatchError Db
adopt op generation none db = ok (record db {
  financial_operations =
      update_where (λ o. o.id == op.id) (λ o. record o { generation = some generation })
        db.financial_operations;
})
adopt op generation (some g) db = do guard (g == generation) unauthorized; ok db

unfoldable pub release_authority :
    Env → List Ownership → FinancialOperation → Reservation → Db → Result DispatchError Db
unfolding release_target only adopt
release_authority env owners op r db = do
  from_database (assert_deposit_release_review_clear env db r.id)
  target ← or_throw (release_target op.payload) unauthorized
  owner ← or_throw (find_ownership target owners) unauthorized
  original ←
      or_throw
        (only (
          select
            (λ o.
              o.kind == OperationKind.deposit
              && o.reservation_id == some r.id
              && o.provider_id == some target)
            db.financial_operations))
        unauthorized
  guard
      (owner.kind == OperationKind.deposit
        && owner.reservation_id == r.id
        && owner.operation_id == some original.id
        && (not (is_some op.provider_id) || op.provider_id == some target))
      unauthorized
  generation ← or_throw original.generation unauthorized
  db1 ← adopt op generation op.generation db
  guard
      (calls_for_release env.now target r (find_deposit r.id db.security_deposits) original
        generation)
      (unauthorized_after db1)
  ok db1

owns_deposit : FinancialOperation → Reservation → Option SecurityDeposit → Bool
unfolding deposit_amount
owns_deposit op r none = false
owns_deposit op r (some d) =
    not d.legacy_uncertain
    && d.operation_id == some op.id
    && op.generation == some d.generation
    && deposit_amount op.payload == some d.amount_cents
    && deposit_amount op.payload == some r.deposit_cents

unfoldable pub deposit_authority : FinancialOperation → Reservation → Db → Result DispatchError Db
unfolding owns_deposit
deposit_authority op r db = do
  guard
      (r.financial_disposition == FinancialDisposition.opened
        && not (includes cancelled_statuses r.status)
        && not (r.status == ReservationStatus.expired)
        && owns_deposit op r (find_deposit r.id db.security_deposits))
      unauthorized
  ok db

unfoldable pub refund_authority :
    List Ownership → FinancialOperation → Reservation → Db → Result DispatchError Db
unfolding refund_terms has_started
refund_authority owners op r db = do
  (refund_id, (intent, amount)) ← or_throw (refund_terms op.payload) unauthorized
  owner ← or_throw (find_ownership intent owners) unauthorized
  f ← or_throw (find_refund op.key db.refunds) unauthorized
  payment ← or_throw (find_payment f.payment_id db.payments) unauthorized
  guard
      (owner.kind == OperationKind.rental
        && owner.reservation_id == r.id
        && owner.payment_id == some f.payment_id)
      unauthorized
  guard
      (f.reservation_id == r.id
        && f.status == RefundStatus.pending
        && not f.legacy_uncertain
        && f.id == refund_id
        && f.amount_cents == amount
        && payment.type == PaymentType.rental
        && payment.status == PaymentStatus.succeeded
        && payment.stripe_payment_intent_id == some intent)
      unauthorized
  guard
      (not (
        r.financial_disposition == FinancialDisposition.review
        || has_started (find_trip r.id db.trips)
        || includes
            (ReservationStatus.active ∷ ReservationStatus.return_in_progress
              ∷ ReservationStatus.completed ∷ ReservationStatus.disputed
              ∷ ReservationStatus.under_claim_review ∷ [])
            r.status))
      unauthorized
  ok db

unfoldable pub rental_authority : (now : ℕ) → Reservation → Db → Result DispatchError Db
unfolding after
rental_authority now r db = do
  guard
      (r.financial_disposition == FinancialDisposition.opened
        && r.status == ReservationStatus.awaiting_payment
        && after now r.expires_at)
      unauthorized
  ok db

-- The admission gates, which compensation does not have to pass.
unfoldable pub is_admission : OperationKind → Bool
is_admission kind = kind == OperationKind.rental || kind == OperationKind.deposit

-- `is_released` is the answer of `requireReleaseFeature`.
module _ (env : Env) (is_released : OperationKind → Bool) (owners : List Ownership) where
  admission : FinancialOperation → ℕ → Db → Result DispatchError (Unit {0})
  unfolding is_admission
  admission op id db =
      if is_admission op.kind
      then (do
        from_database (require_reservation_jurisdiction env db id)
        guard (is_released op.kind) not_released)
      else ok tt

  unfoldable pub authority_for :
      OperationKind → FinancialOperation → Reservation → Db → Result DispatchError Db
  authority_for OperationKind.deposit_release op r db = release_authority env owners op r db
  authority_for OperationKind.deposit op r db = deposit_authority op r db
  authority_for OperationKind.refund op r db = refund_authority owners op r db
  authority_for OperationKind.rental op r db = rental_authority env.now r db
  authority_for _ op r db = err unauthorized

  unfoldable pub authority_on : FinancialOperation → Option ℕ → Db → Result DispatchError Db
  unfolding admission
  authority_on op none db = do guard (op.kind == OperationKind.customer) unauthorized; ok db
  authority_on op (some id) db = do
    admission op id db
    r ← or_throw (find_reservation id db.reservations) (database not_found)
    authority_for op.kind op r db

  unfoldable pub assert_dispatch_authority : FinancialOperation → Db → Result DispatchError Db
  assert_dispatch_authority op db = authority_on op op.reservation_id db
