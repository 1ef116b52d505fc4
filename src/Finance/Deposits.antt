-- ===== src/Finance/Deposits.antt =====
-- src/lib/deposit-authorization.ts: what an observation of the provider's intent writes to the deposit of a
-- reservation, and which operation the next authorization runs under.
pub mod Attempt
pub mod Owner
pub mod Rows
pub mod Released
pub mod Late
pub mod Valid
use rent_a_4_wheel.Prelude.{
  ℕ, ◌+◌, ◌*◌, Bool, true, false, not, ◌&&◌, ◌||◌, Option, none, some, List, [], ◌∷◌, includes,
  count_by, update_where, if◌then◌else◌, is_some, ltb, leb, nat_eq, option_eq, ◌==◌, Result, ok,
  err, guard, or_throw, ◌>>=◌, ◌>>◌,
}
use rent_a_4_wheel.Schema.Enums.{
  ReservationStatus, status_eq, FinancialDisposition, disposition_eq, PaymentStatus,
  payment_status_eq, OperationKind, operation_kind_eq, IntentStatus, intent_status_eq,
}
use rent_a_4_wheel.Schema.Booking.{Reservation}
use rent_a_4_wheel.Schema.Money.{SecurityDeposit, FinancialOperation, Key, Payload}
use rent_a_4_wheel.Schema.Database.{
  Db, Env, OperationParams, Error, not_found, deposit_missing, terminated, deposit_inconsistent,
  deposit_uncertain, ownership_mismatch, payment_method_missing, find_reservation, find_deposit,
}
use rent_a_4_wheel.Finance.Operations.{prepare_operation}
use rent_a_4_wheel.Finance.ReleasePlan.{plan_deposit_release, original}
use rent_a_4_wheel.Finance.Runs.{find_operation}

-- The charge of an intent, with the time in seconds until which it can be captured.
pub record Charge : Type 0 where
  pub created_at : ℕ
  pub capture_before : Option ℕ

-- The provider's PaymentIntent, its latest charge retrieved.
pub record Intent : Type 0 where
  pub id : ℕ
  pub status : IntentStatus
  pub is_usd : Bool
  pub amount : ℕ
  pub amount_capturable : ℕ
  pub created_at : ℕ
  pub charge : Option Charge
  pub payment_method : Option ℕ
  pub customer : Option ℕ

capture_of : Option Charge → Option ℕ
capture_of none = none
capture_of (some c) = c.capture_before

-- `expires ? new Date(expires * 1000) : null`.
in_milliseconds : Option ℕ → Option ℕ
in_milliseconds none = none
in_milliseconds (some t) = if t == 0 then none else some (t * 1000)

unfoldable pub expires_at : Intent → Option ℕ
unfolding capture_of in_milliseconds
expires_at i = in_milliseconds (capture_of i.charge)

charged_at : Option Charge → Option ℕ
charged_at none = none
charged_at (some c) = some (c.created_at * 1000)

is_before : ℕ → Option ℕ → Bool
is_before now none = false
is_before now (some t) = ltb now t

is_past : ℕ → Option ℕ → Bool
is_past now none = false
is_past now (some t) = leb t now

-- An authorization of the whole deposit that can be captured later than now.
unfoldable pub is_authorized : (now : ℕ) → Intent → SecurityDeposit → Bool
unfolding expires_at is_before
is_authorized now i d =
    i.status == IntentStatus.requires_capture
    && i.is_usd
    && i.amount == d.amount_cents
    && leb d.amount_cents i.amount_capturable
    && is_before now (expires_at i)

end_statuses : List IntentStatus
end_statuses = IntentStatus.canceled ∷ IntentStatus.succeeded ∷ []

is_end : Option IntentStatus → Bool
unfolding end_statuses
is_end none = false
is_end (some s) = includes end_statuses s

-- The deposit is released already, and the observation is of the time before.
unfoldable pub is_outdated : Intent → SecurityDeposit → Bool
unfolding is_end end_statuses
is_outdated i d =
    d.stripe_payment_intent_id == some i.id
    && (d.status == PaymentStatus.cancelled || is_end d.stripe_status || is_some d.released_at)
    && not (includes end_statuses i.status)

-- The authorization has run out.
unfoldable pub is_lapsed : (now : ℕ) → Intent → SecurityDeposit → Bool
unfolding is_past
is_lapsed now i d =
    d.stripe_payment_intent_id == some i.id
    && is_past now d.authorization_expires_at
    && i.status == IntentStatus.requires_capture

unfoldable pub released_by : (now : ℕ) → Intent → SecurityDeposit → Option ℕ
released_by now i d =
    if i.status == IntentStatus.canceled
    then (if is_some d.released_at then d.released_at else some now)
    else if d.stripe_payment_intent_id == some i.id
    then d.released_at
    else none

unfoldable pub observed_row : (now : ℕ) → Intent → SecurityDeposit → SecurityDeposit
unfolding is_authorized released_by charged_at expires_at
observed_row now i d =
    let valid = is_authorized now i d in
    record d {
      stripe_payment_intent_id = some i.id;
      stripe_status = some i.status;
      capturable_amount_cents = i.amount_capturable;
      released_at = released_by now i d;
      status =
          if valid
          then PaymentStatus.succeeded
          else if i.status == IntentStatus.canceled
          then PaymentStatus.cancelled
          else PaymentStatus.failed;
      authorized_at = charged_at i.charge;
      authorization_expires_at = expires_at i;
      failure_reason = if valid then none else some i.status;
    }

-- The operation of the deposit's current generation is the one that made the intent.
unfoldable pub owns_intent : Intent → SecurityDeposit → Option FinancialOperation → Bool
owns_intent i d none = false
owns_intent i d (some latest) =
    latest.provider_id == some i.id
    && latest.generation == some d.generation
    && not d.legacy_uncertain

operation_of : Option ℕ → List FinancialOperation → Option FinancialOperation
unfolding find_operation
operation_of none ops = none
operation_of (some id) ops = find_operation id ops

-- The operation that the deposit row names.
unfoldable pub latest_operation : SecurityDeposit → Db → Option FinancialOperation
unfolding operation_of
latest_operation d db = operation_of d.operation_id db.financial_operations

-- The observation counts: it is of the current generation, and neither outdated nor lapsed.
unfoldable pub is_accepted : (now : ℕ) → Intent → SecurityDeposit → Option FinancialOperation → Bool
unfolding owns_intent is_outdated is_lapsed
is_accepted now i d latest =
    owns_intent i d latest && not (is_outdated i d) && not (is_lapsed now i d)

-- An intent that nobody needs, because the booking ended or another operation owns the deposit.
unfoldable pub is_unneeded :
    Intent → Reservation → SecurityDeposit → Option FinancialOperation → Bool
is_unneeded i r d none = false
is_unneeded i r d (some op) =
    not (i.status == IntentStatus.canceled)
    && (includes (FinancialDisposition.refund_required ∷ FinancialDisposition.terminated ∷ [])
          r.financial_disposition
        || (is_some d.operation_id && not (d.operation_id == some op.id)))

-- The row is written if the observation counts. The answer says whether the deposit is valid.
unfoldable pub observe : (now : ℕ) → Intent → SecurityDeposit → Db → Bool × Db
unfolding is_accepted latest_operation observed_row is_authorized
observe now i d db =
    if is_accepted now i d (latest_operation d db)
    then (
      is_authorized now i d,
      record db {
        security_deposits =
            update_where (λ e. e.reservation_id == d.reservation_id) (λ e. observed_row now i d)
              db.security_deposits;
      },
    )
    else (false, db)

unfoldable pub sync_deposit_intent :
    Env → (reservation_id : ℕ) → Intent → Db → Result Error (Bool × Db)
unfolding is_unneeded
sync_deposit_intent env reservation_id i db = do
  r ← or_throw (find_reservation reservation_id db.reservations) not_found
  let op = original reservation_id i.id db.financial_operations
  d ← or_throw (find_deposit reservation_id db.security_deposits) deposit_missing
  planned ←
      (if is_unneeded i r d op then plan_deposit_release env reservation_id i.id db else ok db)
  ok (observe env.now i d planned)

-- The operation is made the deposit's, at the next generation.
unfoldable pub take_over :
    SecurityDeposit
    → FinancialOperation
    → (FinancialOperation → FinancialOperation)
    → Db
    → FinancialOperation × Db
take_over d op f db =
    let own = λ (o : FinancialOperation). record (f o) { generation = some (d.generation + 1) } in
    (
      own op,
      record db {
        security_deposits =
            update_where (λ e. e.reservation_id == d.reservation_id)
              (λ e. record e { operation_id = some op.id; generation = e.generation + 1 })
              db.security_deposits;
        financial_operations = update_where (λ o. o.id == op.id) own db.financial_operations;
      },
    )
