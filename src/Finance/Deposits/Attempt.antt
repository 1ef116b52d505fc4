-- ===== src/Finance/Deposits/Attempt.antt =====
-- The transaction of `attemptDepositAuthorization` of src/lib/deposit-authorization.ts: the operation under
-- which the deposit is to be authorized.
use rent_a_4_wheel.Prelude.{
  ℕ, ◌+◌, Bool, false, not, ◌&&◌, Option, none, some, [], ◌∷◌, includes, count_by, if◌then◌else◌,
  is_some, nat_eq, option_eq, ◌==◌, Result, ok, guard, or_throw, ◌>>=◌, ◌>>◌,
}
use rent_a_4_wheel.Schema.Enums.{
  ReservationStatus, status_eq, FinancialDisposition, disposition_eq, OperationKind,
  operation_kind_eq, IntentStatus, intent_status_eq,
}
use rent_a_4_wheel.Schema.Booking.{Reservation}
use rent_a_4_wheel.Schema.Money.{SecurityDeposit, FinancialOperation, Key, Payload}
use rent_a_4_wheel.Schema.Database.{
  Db, Env, OperationParams, Error, terminated, deposit_inconsistent, deposit_uncertain,
  ownership_mismatch, payment_method_missing, find_deposit,
}
use rent_a_4_wheel.Finance.Locks.{lock_reservation}
use rent_a_4_wheel.Finance.Operations.{prepare_operation}
use rent_a_4_wheel.Finance.Deposits.{Intent, latest_operation, take_over}

-- An intent from the time before the operations were recorded.
abbrev pub legacy_params : Reservation → OperationParams
legacy_params r = record {
  key = Key.legacy_deposit r.id;
  kind = OperationKind.deposit;
  reservation_id = some r.id;
  payload = Payload.legacy;
}

abbrev pub attempt_params : Reservation → (sequence customer payment_method : ℕ) → OperationParams
attempt_params r sequence customer payment_method = record {
  key = Key.deposit r.id (sequence + 1);
  kind = OperationKind.deposit;
  reservation_id = some r.id;
  payload = Payload.authorize_deposit r.deposit_cents customer payment_method;
}

unfoldable pub adopt_legacy :
    Env → Reservation → SecurityDeposit → Db → Result Error (FinancialOperation × Db)
adopt_legacy env r d db = do
  (op, db1) ← prepare_operation env (legacy_params r) db
  ok (
      take_over d op
        (λ o. record o {
          provider_id = d.stripe_payment_intent_id;
          first_attempt_at = some d.created_at;
        })
        db1)

-- The number of the deposit operations of the reservation.
unfoldable pub count_attempts : ℕ → Db → ℕ
count_attempts reservation_id db =
    count_by (λ o. o.reservation_id == some reservation_id && o.kind == OperationKind.deposit)
      db.financial_operations

unfoldable pub start_attempt :
    Env → Reservation → SecurityDeposit → Intent → Db → Result Error (FinancialOperation × Db)
start_attempt env r d i db = do
  payment_method ← or_throw i.payment_method payment_method_missing
  customer ← or_throw i.customer payment_method_missing
  (op, db1) ←
      prepare_operation env (attempt_params r (count_attempts r.id db) customer payment_method) db
  ok (take_over d op (λ o. o) db1)

retryable : Option IntentStatus → Bool
retryable none = false
retryable (some s) = includes (IntentStatus.requires_payment_method ∷ IntentStatus.canceled ∷ []) s

-- A new attempt replaces the latest one only on a retry of the generation that the caller saw, after
-- the provider's refusal.
unfoldable pub is_retry :
    (retry : Bool) → (observed : Option ℕ) → SecurityDeposit → FinancialOperation → Bool
unfolding retryable
is_retry retry observed d latest =
    observed == some d.generation
    && retry
    && retryable d.stripe_status
    && is_some latest.provider_id

module _ (env : Env) (retry : Bool) (observed : Option ℕ) (i : Intent) where
  unfoldable pub choose_operation :
      Reservation
      → SecurityDeposit
      → Option FinancialOperation
      → Db
      → Result Error (FinancialOperation × Db)
  choose_operation r d none db =
      if is_some d.stripe_payment_intent_id
      then adopt_legacy env r d db
      else start_attempt env r d i db
  choose_operation r d (some latest) db = do
    guard
        (latest.generation == some d.generation
          && latest.reservation_id == some r.id
          && latest.kind == OperationKind.deposit)
        ownership_mismatch
    if is_retry retry observed d latest then start_attempt env r d i db else ok (latest, db)

  unfoldable pub authorize_deposit : Reservation → Db → Result Error (FinancialOperation × Db)
  authorize_deposit r db = do
    guard
        (r.financial_disposition == FinancialDisposition.opened
          && not (
              includes
                (ReservationStatus.cancelled_by_customer ∷ ReservationStatus.cancelled_by_host
                  ∷ ReservationStatus.expired ∷ [])
                r.status))
        terminated
    d ← or_throw (find_deposit r.id db.security_deposits) deposit_inconsistent
    guard (d.amount_cents == r.deposit_cents) deposit_inconsistent
    guard (not d.legacy_uncertain) deposit_uncertain
    choose_operation r d (latest_operation d db) db

  -- No operation where no deposit is required.
  unfoldable pub prepare_authorization :
      (reservation_id : ℕ) → Db → Result Error (Option FinancialOperation × Db)
  prepare_authorization reservation_id db = do
    r ← lock_reservation env reservation_id db
    if r.deposit_cents == 0
        then ok (none, db)
        else (authorize_deposit r db >>= λ t. ok (some t.0, t.1))
