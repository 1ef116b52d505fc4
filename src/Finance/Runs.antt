-- ===== src/Finance/Runs.antt =====
-- `runOperation` of src/lib/financial-operations.ts: its transactions and its choice between asking the
-- provider and creating at the provider. The calls of the provider lie between them: what they answer is
-- an argument. The transaction that records a failure is not modelled.
pub mod Leases
pub mod Dates
pub mod Dispatch
use rent_a_4_wheel.Prelude.{
  ℕ, ◌+◌, ◌*◌, ◌≡◌, Bool, true, false, not, ◌&&◌, ◌||◌, Option, none, some, List, [], ◌∷◌, any,
  find, count_by, update_where, includes, if◌then◌else◌, is_some, from_option, ltb, leb, nat_eq,
  option_eq, Eq, ◌==◌, Result, ok, err, guard, or_throw, ◌>>=◌, ◌>>◌,
}
use rent_a_4_wheel.Schema.Enums.{
  OperationKind, operation_kind_eq, OperationState, operation_state_eq, IntentStatus,
  intent_status_eq, FinancialDisposition, disposition_eq, RefundStatus, refund_status_eq,
}
use rent_a_4_wheel.Schema.Booking.{Reservation}
use rent_a_4_wheel.Schema.Money.{FinancialOperation, Refund, Key, key_eq}
use rent_a_4_wheel.Schema.Database.{Db, Env, Error, not_found, find_reservation}
use rent_a_4_wheel.Finance.Locks.{assert_event_fence, lock_reservation}
use rent_a_4_wheel.Finance.Refunds.{find_refund}

pub data RunError : Type 0 where
  database : Error → RunError
  refund_terminal already_processing lease_lost needs_operator outcome_unknown : RunError

abbrev pub lift {ℓ} : {A : Type ℓ} → Result Error A → Result RunError A
lift (ok a) = ok a
lift (err e) = err (database e)

-- `kind.startsWith("FINANCE_")`.
abbrev pub is_finance : OperationKind → Bool
is_finance kind =
    includes
      (OperationKind.finance_connect ∷ OperationKind.finance_transfer ∷ OperationKind.finance_payout
        ∷ OperationKind.finance_reversal ∷ [])
      kind

unfoldable pub find_operation : ℕ → List FinancialOperation → Option FinancialOperation
find_operation id ops = find (λ o. o.id == id) ops

-- The refund of a refund operation is not terminal, or there is none.
refund_is_open : FinancialOperation → Option Refund → Bool
refund_is_open op none = true
refund_is_open op (some r) = r.status == RefundStatus.pending || r.legacy_uncertain

unfoldable pub refund_open : Db → FinancialOperation → Bool
unfolding refund_is_open
refund_open db op =
    not (op.kind == OperationKind.refund) || refund_is_open op (find_refund op.key db.refunds)

-- No operator is asked for, and no lease is running.
unfoldable pub is_free : (now : ℕ) → FinancialOperation → Bool
is_free now o =
    not (includes (OperationState.review ∷ OperationState.dead_letter ∷ []) o.state)
    && leb (from_option o.lease_expires_at 0) now

-- The claimed row: the lease is two minutes long.
unfoldable pub leased : (token now : ℕ) → FinancialOperation → FinancialOperation
leased token now o = record o {
  lease_token = some token;
  lease_expires_at = some (now + 120000);
  state = OperationState.running;
  attempts = o.attempts + 1;
}

unfoldable pub take_lease : (id token now : ℕ) → List FinancialOperation → List FinancialOperation
unfolding is_free leased
take_lease id token now ops = update_where (λ o. o.id == id && is_free now o) (leased token now) ops

-- The first attempt is dated once.
unfoldable pub date_attempt :
    (now : ℕ) → FinancialOperation → List FinancialOperation → List FinancialOperation
date_attempt now current ops =
    if is_some current.first_attempt_at
    then ops
    else update_where (λ o. o.id == current.id) (λ o. record o { first_attempt_at = some now }) ops

-- What the provider answers: `requiresDispatch` of what is read before, where it reads first, and
-- `discover`.
pub record ProviderView : Type 0 where
  pub read_before_dispatch : Option Bool
  pub discovered : Option ℕ

-- Model FinancialDispatch: a call of the provider; `is_dispatched` is the phase DISPATCHED.
pub record FinancialDispatch : Type 0 where
  pub operation_id : ℕ
  pub is_dispatched : Bool

-- `financialDispatch.count` of the calls that were sent.
unfoldable pub was_dispatched : List FinancialDispatch → FinancialOperation → Bool
was_dispatched calls o = leb 1 (count_by (λ d. d.operation_id == o.id && d.is_dispatched) calls)

-- The step after the claim: `observe` what is there, or `dispatch` the creation.
pub data Plan : Type 0 where
  dispatch : Plan
  observe_read observe_retrieved : Plan
  observe_discovered : ℕ → Plan

-- `discover`, which must find something.
abbrev pub discovery : Option ℕ → Result RunError Plan
discovery none = err outcome_unknown
discovery (some id) = ok (Plan.observe_discovered id)

-- `firstAttemptAt && now - firstAttemptAt > 23 h`.
unfoldable pub is_past_replay : (now : ℕ) → Option ℕ → Bool
is_past_replay now none = false
is_past_replay now (some first) = ltb (first + 23 * 3600000) now

-- A deposit is created only for a reservation whose disposition is OPEN.
unfoldable pub plan_deposit : Db → Option ℕ → ProviderView → Result RunError Plan
plan_deposit db none v = ok Plan.dispatch
plan_deposit db (some id) v = do
  r ← or_throw (find_reservation id db.reservations) (database not_found)
  if r.financial_disposition == FinancialDisposition.opened
      then ok Plan.dispatch
      else discovery v.discovered

-- The branches where the operation was not read before.
unfoldable pub plan_unread :
    (now : ℕ)
    → Db
    → List FinancialDispatch
    → FinancialOperation
    → ProviderView
    → Result RunError Plan
unfolding is_past_replay was_dispatched plan_deposit
plan_unread now db calls o v =
    if is_some o.provider_id
    then ok Plan.observe_retrieved
    else if is_past_replay now o.first_attempt_at
        && (not (is_finance o.kind) || was_dispatched calls o)
    then discovery v.discovered
    else if is_finance o.kind && was_dispatched calls o
    then discovery v.discovered
    else if o.kind == OperationKind.deposit
    then plan_deposit db o.reservation_id v
    else ok Plan.dispatch

plan_read : Bool → Plan
plan_read true = Plan.dispatch
plan_read false = Plan.observe_read

pub plan_after :
    (now : ℕ)
    → Db
    → List FinancialDispatch
    → FinancialOperation
    → ProviderView
    → Option Bool
    → Result RunError Plan
unfolding plan_unread plan_read
plan_after now db calls o v (some b) = ok (plan_read b)
plan_after now db calls o v none = plan_unread now db calls o v

unfoldable pub plan_run :
    (now : ℕ)
    → Db
    → List FinancialDispatch
    → FinancialOperation
    → ProviderView
    → Result RunError Plan
unfolding plan_after
plan_run now db calls o v =
    if includes (OperationState.review ∷ OperationState.dead_letter ∷ []) o.state
    then err needs_operator
    else plan_after now db calls o v v.read_before_dispatch

-- The operation stays to be polled after an answer with this status.
unfoldable pub is_polling : OperationKind → Option IntentStatus → Bool
is_polling kind status =
    if kind == OperationKind.refund
    then not (
        any (λ s. status == some s)
          (IntentStatus.succeeded ∷ IntentStatus.failed ∷ IntentStatus.canceled ∷ []))
    else kind == OperationKind.rental
      || (kind == OperationKind.deposit
          && not
              (any (λ s. status == some s) (IntentStatus.succeeded ∷ IntentStatus.canceled ∷ [])))

-- The saved row.
unfoldable pub observed :
    (now : ℕ)
    → FinancialOperation
    → (provider_id : ℕ) → Option IntentStatus
    → FinancialOperation
    → FinancialOperation
unfolding is_polling
observed now claimed provider_id status o =
    let polling = is_polling claimed.kind status in
    let captured = status == some IntentStatus.requires_capture in
    record o {
      provider_id = some provider_id;
      result_status = status;
      state = if polling then OperationState.poll else OperationState.observed;
      priority = if captured then 90 else claimed.priority;
      lease_token = none;
      lease_expires_at = none;
      consecutive_failures = 0;
      next_attempt_at =
          if polling then some (now + (if captured then 3600000 else 60000)) else none;
    }

-- The lease is the token's and is running.
unfoldable pub holds_lease : (token now : ℕ) → FinancialOperation → Bool
holds_lease token now o = o.lease_token == some token && ltb now (from_option o.lease_expires_at 0)

-- `lock_finance` is `lockFinanceOperation` of src/lib/payout-operations.ts, `apply` is the provider's.
module _ (lock_finance : Env → Db → FinancialOperation → Result Error (Unit {0}))
    (apply : Db → Result RunError Db) where
  unfoldable pub lock_operation : Env → Db → FinancialOperation → Option ℕ → Result Error (Unit {0})
  lock_operation env db o none = assert_event_fence env
  lock_operation env db o (some id) = do r ← lock_reservation env id db; ok tt

  unfoldable pub lock_run : Env → Db → FinancialOperation → Result Error (Unit {0})
  unfolding lock_operation
  lock_run env db o =
      if is_finance o.kind then lock_finance env db o else lock_operation env db o o.reservation_id

  unfoldable pub claim_run :
      Env → (token : ℕ) → FinancialOperation → Db → Result RunError (FinancialOperation × Db)
  claim_run env token op db = do
    lift (lock_run env db op)
    guard (refund_open db op) refund_terminal
    guard (leb 1 (count_by (λ o. o.id == op.id && is_free env.now o) db.financial_operations))
        already_processing
    let ops = take_lease op.id token env.now db.financial_operations
    current ← or_throw (find_operation op.id ops) (database not_found)
    ok (current, record db { financial_operations = date_attempt env.now current ops })

  unfoldable pub save_run :
      Env
      → (token : ℕ) → FinancialOperation
      → (provider_id : ℕ) → Option IntentStatus
      → Db
      → Result RunError Db
  save_run env token claimed provider_id status db = do
    lift (lock_run env db claimed)
    guard
        (leb 1 (
          count_by (λ o. o.id == claimed.id && holds_lease token env.now o)
            db.financial_operations))
        lease_lost
    apply (record db {
      financial_operations =
          update_where (λ o. o.id == claimed.id && holds_lease token env.now o)
            (observed env.now claimed provider_id status) db.financial_operations;
    })
