-- ===== src/Scenarios/Holds.antt =====
-- Deposits of a booking at concrete intents.
use rent_a_4_wheel.Prelude.{
  ◌≡◌, refl, true, false, Option, none, some, [], ◌∷◌, nat_eq, ◌==◌, ok, arith,
}
use rent_a_4_wheel.Schema.Enums.{
  ReservationStatus, PaymentStatus, OperationKind, OperationState, IntentStatus,
}
use rent_a_4_wheel.Schema.Booking.{Reservation}
use rent_a_4_wheel.Schema.Money.{FinancialOperation, SecurityDeposit, Key, Payload}
use rent_a_4_wheel.Schema.Database.{Db, find_reservation, find_deposit}
use rent_a_4_wheel.Finance.Projection.{snapshot, deposit_valid}
use rent_a_4_wheel.Finance.Runs.{find_operation}
use rent_a_4_wheel.Finance.Deposits.{Intent, sync_deposit_intent}
use rent_a_4_wheel.Finance.Deposits.Attempt.{prepare_authorization}
use rent_a_4_wheel.Finance.Deposits.Owner.{Authorizes, attempt_owns_deposit}
use rent_a_4_wheel.Finance.Deposits.Released.{IsReleased}
use rent_a_4_wheel.Finance.Deposits.Late.{Observed, released_stays_released}
use rent_a_4_wheel.Finance.Deposits.Valid.{IsRunning, authorization_counts}
use rent_a_4_wheel.Scenarios.World.{value, env, world, booking}

abbrev guest : Reservation
guest = record (booking ReservationStatus.confirmed) { deposit_cents = 20000 }

abbrev hold : SecurityDeposit
hold = record {
  reservation_id = 1;
  amount_cents = 20000;
  capturable_amount_cents = 0;
  status = PaymentStatus.processing;
  stripe_status = none;
  stripe_payment_intent_id = none;
  operation_id = some 30;
  generation = 1;
  legacy_uncertain = false;
  released_at = none;
  authorized_at = none;
  authorization_expires_at = none;
  failure_reason = none;
  created_at = 400;
}

abbrev authorizing : FinancialOperation
authorizing = record {
  id = 30;
  key = Key.deposit 1 1;
  kind = OperationKind.deposit;
  reservation_id = some 1;
  payload = Payload.authorize_deposit 20000 7 8;
  fingerprint = 0;
  provider_id = some 60;
  result_status = none;
  generation = some 1;
  state = OperationState.running;
  priority = 50;
  lease_token = none;
  lease_expires_at = none;
  first_attempt_at = some 500;
  next_attempt_at = none;
  attempts = 1;
  consecutive_failures = 0;
}

abbrev held : SecurityDeposit → Db
held d = record (world ReservationStatus.confirmed) {
  reservations = guest ∷ [];
  security_deposits = d ∷ [];
  financial_operations = authorizing ∷ [];
}

abbrev intent : IntentStatus → Intent
intent s = record {
  id = 60;
  status = s;
  is_usd = true;
  amount = 20000;
  amount_capturable = 20000;
  created_at = 500;
  charge = some (record { created_at = 1; capture_before = some 900 });
  payment_method = some 8;
  customer = some 7;
}

abbrev observed : Db
observed =
    (value (sync_deposit_intent env 1 (intent IntentStatus.requires_capture) (held hold))
      (false, held hold)).1

observes :
    sync_deposit_intent env 1 (intent IntentStatus.requires_capture) (held hold)
    ≡ ok (true, observed)
unfolding sync_deposit_intent find_reservation find_deposit
    rent_a_4_wheel.Finance.ReleasePlan.original rent_a_4_wheel.Finance.Deposits.observe
observes = refl

hold-IsRunning : IsRunning guest (held hold)
unfolding find_deposit find_operation
hold-IsRunning = record {
  row = hold;
  found = refl;
  covers = refl;
  generation = omega arith;
  owner = 30;
  owned = refl;
  operation = authorizing;
  operation_found = refl;
  is_deposit = refl;
  not_reviewed = λ h. cc;
  not_dead = λ h. cc;
}

authorization_counts_example : deposit_valid env.now (snapshot observed guest) ≡ true
authorization_counts_example =
    authorization_counts env (intent IntentStatus.requires_capture) guest (held hold) observed
      hold-IsRunning observes

abbrev released : SecurityDeposit
released = record hold {
  status = PaymentStatus.cancelled;
  stripe_status = some IntentStatus.canceled;
  stripe_payment_intent_id = some 60;
  released_at = some 700;
}

released-IsReleased : IsReleased 1 60 (held released)
unfolding find_deposit find_operation
released-IsReleased = record {
  row = released;
  found = refl;
  of_intent = refl;
  time = 700;
  released = refl;
  owner = 30;
  owned = refl;
  operation = authorizing;
  operation_found = refl;
  made = refl;
}

-- A late observation of the time before the release.
abbrev late : Db
late =
    (value (sync_deposit_intent env 1 (intent IntentStatus.requires_capture) (held released))
      (false, held released)).1

late_observed :
    sync_deposit_intent env 1 (intent IntentStatus.requires_capture) (held released)
    ≡ ok (false, late)
unfolding sync_deposit_intent find_reservation find_deposit
    rent_a_4_wheel.Finance.ReleasePlan.original rent_a_4_wheel.Finance.Deposits.observe
late_observed = refl

deposit_required : (guest.deposit_cents == 0) ≡ false
deposit_required = refl

released_stays_released_example : deposit_valid 800 (snapshot late guest) ≡ false
released_stays_released_example =
    released_stays_released 800 60 guest (held released) late released-IsReleased
      (Observed.next env 1 (intent IntentStatus.requires_capture) false Observed.here late_observed)
      deposit_required

abbrev fresh : Db
fresh = held (record hold { operation_id = none; generation = 0 })

abbrev attempted : Option FinancialOperation × Db
attempted =
    value (prepare_authorization env false (some 0) (intent IntentStatus.succeeded) 1 fresh)
      (none, fresh)

abbrev operation_or : Option FinancialOperation → FinancialOperation
operation_or none = authorizing
operation_or (some op) = op

abbrev attempt_operation : FinancialOperation
attempt_operation = operation_or attempted.0

attempts :
    prepare_authorization env false (some 0) (intent IntentStatus.succeeded) 1 fresh
    ≡ ok (some attempt_operation, attempted.1)
unfolding prepare_authorization find_reservation
    rent_a_4_wheel.Finance.Deposits.Attempt.authorize_deposit find_deposit
    rent_a_4_wheel.Finance.Deposits.Attempt.choose_operation
    rent_a_4_wheel.Finance.Deposits.latest_operation
    rent_a_4_wheel.Finance.Deposits.Attempt.start_attempt
    rent_a_4_wheel.Finance.Operations.prepare_operation rent_a_4_wheel.Finance.Operations.find_key
    rent_a_4_wheel.Finance.Deposits.Attempt.count_attempts
    rent_a_4_wheel.Finance.Locks.lock_reservation
attempts = refl

guest_found : find_reservation 1 fresh.reservations ≡ some guest
unfolding find_reservation
guest_found = refl

attempt_owns_deposit_example : Authorizes guest attempt_operation attempted.1
attempt_owns_deposit_example =
    attempt_owns_deposit env false (some 0) (intent IntentStatus.succeeded) guest 1 fresh
      attempted.1 attempt_operation guest_found attempts
