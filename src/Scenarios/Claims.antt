-- ===== src/Scenarios/Claims.antt =====
-- Leases, sign-in codes and workers at concrete rows.
use rent_a_4_wheel.Prelude.{
  count_by, ◌&&◌, ltb, ◌-◌, option_eq, ℕ, ◌+◌, ◌≤◌, ◌≡◌, refl, true, ◌==◌, find, Option, none, some,
  [], ◌∷◌, nat_beq, nat_eq, Result, ok, arith,
}
use rent_a_4_wheel.Events.{
  EventStatus, StripeEvent, EventTable, EventParams, ClaimResult, already_processed, find_event,
  is_claimable, claim_update, mark_stripe_event_failed, mark_stripe_event_processed, fail_update,
  claim_stripe_event_for_processing,
}
use rent_a_4_wheel.Events.Lease.{Holds, Rivals, done, more, claims, fails, lease_survives}
use rent_a_4_wheel.Events.Claims.{Afterwards, processed_is_final}
use rent_a_4_wheel.Schema.Enums.{
  OperationKind, operation_kind_eq, OperationState, operation_state_eq, IntentStatus,
}
use rent_a_4_wheel.Schema.Money.{FinancialOperation, Key, Payload}
use rent_a_4_wheel.Schema.Database.{Db, Env, Error}
use rent_a_4_wheel.Schema.Enums.{ReservationStatus}
use rent_a_4_wheel.Finance.Runs.{
  RunError, ProviderView, Plan, plan_run, claim_run, save_run, find_operation,
}
use rent_a_4_wheel.Finance.Runs.Leases.{Fails, IsLeased, lease_is_exclusive}
use rent_a_4_wheel.Finance.Runs.Dates.{IsDated, unclaimed}
use rent_a_4_wheel.Finance.Runs.Dispatch.{IsSafeToCreate, creation_is_safe}
use rent_a_4_wheel.Auth.{
  sign_in, AuthCode, CodeTable, CodeRequest, issued, verified, Guess, is_for, latest, email_count,
  ip_count, purpose_beq, request_auth_code, verify_auth_code,
}
use rent_a_4_wheel.Auth.Guesses.{verify_all, mismatches, guesses_limited}
use rent_a_4_wheel.Auth.Limits.{IsRested, issued_within_limits}
use rent_a_4_wheel.Workers.{
  WorkerCounts, WorkerResult, WorkerStatus, worker_result, worker_http_status,
}
use rent_a_4_wheel.Scenarios.World.{value, env, world}

abbrev event : EventStatus → Option ℕ → Option ℕ → StripeEvent
event s since token = record {
  id = 4;
  stripe_event_id = 40;
  type = 1;
  payload = 0;
  status = s;
  attempt_count = 1;
  last_error = none;
  received_at = 10;
  processing_started_at = since;
  processed_at = none;
  next_retry_at = none;
  lease_token = token;
}

abbrev table_of : StripeEvent → EventTable
table_of e = record { events = e ∷ []; next_id = 5 }

abbrev leased_row : StripeEvent
leased_row = event EventStatus.processing (some 500000) (some 77)

leased_found : find_event 4 (table_of leased_row).events ≡ some leased_row
unfolding find_event
leased_found = refl

leased : Holds 4 77 500000 (table_of leased_row)
leased = record {
  row = leased_row;
  found = leased_found;
  in_processing = refl;
  since = refl;
  under = refl;
}

abbrev after_claim : EventTable
after_claim = claim_update 4 88 400000 520000 (table_of leased_row)

abbrev after_failure : EventTable
after_failure = fail_update 4 66 1 0 530000 after_claim

rivals : Rivals 77 500000 (table_of leased_row) after_failure
rivals =
    more (more done (claims 4 88 400000 520000 (omega arith)))
      (fails 4 66 1 0 530000 (λ e. absurd (omega arith)))

lease_survives_example :
    (find_event 4 after_failure.events ≡ some leased_row)
    × (find_event 4 (mark_stripe_event_processed 4 77 540000 after_failure).events
        ≡ some (record leased_row { status = EventStatus.processed; processed_at = some 540000 }))
unfolding leased
lease_survives_example =
    lease_survives 4 77 500000 540000 (table_of leased_row) after_failure leased rivals

abbrev failed_row : StripeEvent
failed_row = event EventStatus.failed (some 100) (some 55)

failed_found : find_event 4 (table_of failed_row).events ≡ some failed_row
unfolding find_event
failed_found = refl

failed_claimable : is_claimable 380000 failed_row ≡ true
unfolding is_claimable
failed_claimable = refl

abbrev processed_row : StripeEvent
processed_row = event EventStatus.processed (some 100) (some 55)

abbrev delivery : EventParams
delivery = record { stripe_event_id = 40; type = 1; payload = 0 }

-- A claim long after, and a failure of the worker that held it before.
abbrev much_later : EventTable
much_later =
    mark_stripe_event_failed 4 54 3 910000
      (claim_update 4 99 780000 900000 (table_of processed_row))

afterwards : Afterwards 55 (table_of processed_row) much_later
afterwards =
    Afterwards.fails 4 54 3 910000 (omega arith)
      (Afterwards.claims 4 99 780000 900000 Afterwards.done)

processed_is_final_example :
    (find (λ e. e.stripe_event_id == 40) much_later.events ≡ some processed_row)
    × (claim_stripe_event_for_processing 920000 920010 98 delivery much_later
        ≡ ok (ClaimResult.refused already_processed, much_later))
processed_is_final_example =
    processed_is_final 920000 920010 55 98 delivery (table_of processed_row) much_later
      processed_row refl refl refl afterwards

abbrev running : FinancialOperation
running = record {
  id = 30;
  key = Key.custom 3;
  kind = OperationKind.deposit;
  reservation_id = some 1;
  payload = Payload.legacy;
  fingerprint = 7;
  provider_id = none;
  result_status = none;
  generation = none;
  state = OperationState.running;
  priority = 50;
  lease_token = some 5;
  lease_expires_at = some 2000;
  first_attempt_at = some 900;
  next_attempt_at = none;
  attempts = 1;
  consecutive_failures = 0;
}

abbrev running_db : Db
running_db = record (world ReservationStatus.confirmed) { financial_operations = running ∷ [] }

running_found : find_operation 30 running_db.financial_operations ≡ some running
unfolding find_operation
running_found = refl

running-IsLeased : IsLeased 30 5 1000 running_db.financial_operations
running-IsLeased = record {
  row = running;
  unique = omega arith;
  found = running_found;
  under = refl;
  until = 2000;
  expires = refl;
  running = omega arith;
}

abbrev no_finance_lock : Env → Db → FinancialOperation → Result Error (Unit {0})
no_finance_lock e d o = ok tt

abbrev no_apply : Db → Result RunError Db
no_apply d = ok d

lease_is_exclusive_example :
    Fails (claim_run no_finance_lock no_apply env 6 running running_db)
    × Fails (
        save_run no_finance_lock no_apply env 6 running 70 (some IntentStatus.succeeded) running_db)
lease_is_exclusive_example =
    lease_is_exclusive no_finance_lock no_apply env 5 6 70 (some IntentStatus.succeeded) running
      running_db running-IsLeased (λ e. absurd (omega arith))

-- An attempt that failed an hour ago and that nobody holds.
abbrev retried : FinancialOperation
retried = record running {
  state = OperationState.retry;
  lease_token = none;
  lease_expires_at = none;
  first_attempt_at = some 0;
}

abbrev retry_db : Db
retry_db = record (world ReservationStatus.confirmed) { financial_operations = retried ∷ [] }

abbrev claimed_again : FinancialOperation × Db
claimed_again =
    value (claim_run no_finance_lock no_apply env 6 retried retry_db) (retried, retry_db)

claims_again :
    claim_run no_finance_lock no_apply env 6 retried retry_db
    ≡ ok (claimed_again.0, claimed_again.1)
unfolding claim_run rent_a_4_wheel.Finance.Runs.lock_run
    rent_a_4_wheel.Finance.Locks.lock_reservation rent_a_4_wheel.Schema.Database.find_reservation
    rent_a_4_wheel.Finance.Runs.refund_open rent_a_4_wheel.Finance.Runs.is_free find_operation
    rent_a_4_wheel.Finance.Runs.take_lease
claims_again = refl

retried-IsDated : IsDated 30 0 retry_db.financial_operations
unfolding find_operation
retried-IsDated = record { row = retried; found = refl; dated = refl }

abbrev unseen : ProviderView
unseen = record { read_before_dispatch = none; discovered = none }

plans : plan_run 3600000 claimed_again.1 [] claimed_again.0 unseen ≡ ok Plan.dispatch
unfolding plan_run claim_run rent_a_4_wheel.Finance.Runs.lock_run
    rent_a_4_wheel.Finance.Locks.lock_reservation rent_a_4_wheel.Schema.Database.find_reservation
    rent_a_4_wheel.Finance.Runs.refund_open rent_a_4_wheel.Finance.Runs.is_free find_operation
    rent_a_4_wheel.Finance.Runs.take_lease
plans = refl

creation_is_safe_example : IsSafeToCreate 3600000 0 claimed_again.1 [] claimed_again.0
creation_is_safe_example =
    creation_is_safe no_finance_lock no_apply env 6 0 3600000 retried claimed_again.0 retry_db
      retry_db claimed_again.1 claimed_again.1 [] unseen retried-IsDated unclaimed claims_again refl
      plans

abbrev no_codes : CodeTable
no_codes = record { codes = []; next_id = 1 }

abbrev ask : CodeRequest
ask = record {
  email = 11;
  purpose = sign_in;
  ip = some 3;
  now = 5000000;
  created_at = 5000000;
  code_hash = 123456;
}

abbrev asked : CodeTable
asked = (request_auth_code ask no_codes).1

asks : request_auth_code ask no_codes ≡ (issued, asked)
unfolding request_auth_code latest email_count ip_count
asks = refl

issued_within_limits_example :
    IsRested 5000000 (latest (is_for 11 sign_in) [])
    × (count_by
          (λ c.
            c.email == 11 && purpose_beq c.purpose sign_in && ltb (5000000 - 3600000) c.created_at)
          asked.codes
        ≤ 5)
    × ((ip : ℕ)
        → some 3 ≡ some ip
        → count_by
            (λ c.
              c.request_ip == some ip
              && purpose_beq c.purpose sign_in
              && ltb (5000000 - 3600000) c.created_at)
            asked.codes
          ≤ 20)
issued_within_limits_example = issued_within_limits ask no_codes asked asks

abbrev guess : ℕ → Guess
guess n = record { code = n; now = 5001000; later = 5001001 }

abbrev code_row : AuthCode
code_row = record {
  id = 1;
  email = 11;
  purpose = sign_in;
  code_hash = 123456;
  attempts = 0;
  max_attempts = 5;
  request_ip = some 3;
  created_at = 5000000;
  expires_at = 5600000;
  consumed_at = none;
}

abbrev with_code : CodeTable
with_code = record { codes = code_row ∷ []; next_id = 2 }

code_is_latest : latest (is_for 11 sign_in) with_code.codes ≡ some code_row
unfolding latest is_for
code_is_latest = refl

guesses_limited_example :
    mismatches (verify_all nat_beq 11 sign_in (guess 1 ∷ guess 2 ∷ guess 123456 ∷ []) with_code) + 0
    ≤ 5
guesses_limited_example =
    guesses_limited nat_beq 11 sign_in (guess 1 ∷ guess 2 ∷ guess 123456 ∷ []) with_code code_row
      code_is_latest (omega arith)

abbrev signed_in : CodeTable
signed_in = (verify_auth_code nat_beq 11 sign_in (guess 123456) with_code).1

signs_in : verify_auth_code nat_beq 11 sign_in (guess 123456) with_code ≡ (verified, signed_in)
unfolding verify_auth_code latest is_for
signs_in = refl

abbrev counts : ℕ → WorkerCounts
counts n = record {
  checked = n;
  actionable = n;
  attempted = n;
  committed = n;
  processed = n;
  failed = 0;
  stale = 0;
  review = 0;
  quarantined = 0;
  uncertain = 0;
  skipped = 0;
  disabled = 0;
}

abbrev child : WorkerResult
child = record { counts = counts 2; status = WorkerStatus.success }

abbrev parent : WorkerResult
parent = value (worker_result (counts 1) (child ∷ [])) child

parents : worker_result (counts 1) (child ∷ []) ≡ ok parent
unfolding worker_result
parents = refl

parent_http : worker_http_status parent ≡ 200
unfolding worker_http_status worker_result
parent_http = refl
