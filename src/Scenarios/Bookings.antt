-- ===== src/Scenarios/Bookings.antt =====
-- The state machine at a booking that starts, and at one that is cancelled.
use mathlib.Core.List.{Memᴰ}
use rent_a_4_wheel.Prelude.{
  ℕ, ◌≡◌, ◌≢◌, ◌⊎◌, includes, refl, true, false, none, some, List, [], ◌∷◌, ok, arith,
}
use rent_a_4_wheel.Schema.Enums.{
  ReservationStatus, FinancialDisposition, OperationKind, OperationState, IntentStatus, status_eq,
}
use rent_a_4_wheel.Schema.Money.{FinancialOperation, SecurityDeposit, Key, Payload}
use rent_a_4_wheel.Schema.Booking.{Reservation}
use rent_a_4_wheel.Schema.Database.{Db, find_reservation, find_trip, find_deposit}
use rent_a_4_wheel.Reservation.Machine.{
  TransitionParams, UpdateInput, transition_reservation, cancellable_statuses, is_started,
}
use rent_a_4_wheel.Reservation.Machine.Guards.{active_needs_money, cancellation_releases}
use rent_a_4_wheel.Reservation.Machine.Exclusion.{IsKeyed, transition_lem, rival_loses}
use rent_a_4_wheel.Reservation.Transitions.{is_transition_allowed, can_customer_cancel, allowed}
use rent_a_4_wheel.Reservation.Lifecycle.{Run, here, moves, active_needs_confirmed}
use rent_a_4_wheel.Finance.Projection.{money_available, deposit_valid, snapshot}
use rent_a_4_wheel.Finance.Locks.{has_open_claim, has_safety_block}
use rent_a_4_wheel.Finance.Provider.{is_admission, assert_dispatch_authority}
use rent_a_4_wheel.Finance.Provider.Stopped.{cancelled_stops_charges}
use rent_a_4_wheel.Finance.ReleasePlan.{release_params}
use rent_a_4_wheel.Finance.Operations.Prepare.{IsPrepared}
use rent_a_4_wheel.Scenarios.World.{value, env, booking, world}

abbrev no_changes : UpdateInput
no_changes = record { expires_at = none; financial_disposition = none; checkout_fingerprint = none }

abbrev move : ReservationStatus → ReservationStatus → TransitionParams
move from to = record {
  id = 1;
  from = from;
  to = to;
  force = false;
  changes = no_changes;
  where_extra = λ r. true;
}

abbrev starting : TransitionParams
starting = move ReservationStatus.ready_to_start ReservationStatus.active

abbrev before_start : Db
before_start = world ReservationStatus.ready_to_start

abbrev started : Db
started = value (transition_reservation env starting before_start) before_start

abbrev before_start_row : Reservation
before_start_row = booking ReservationStatus.ready_to_start

before_start_found : find_reservation 1 before_start.reservations ≡ some before_start_row
unfolding find_reservation
before_start_found = refl

starts : transition_reservation env starting before_start ≡ ok started
unfolding transition_reservation rent_a_4_wheel.Finance.Locks.lock_reservation find_reservation
    is_transition_allowed rent_a_4_wheel.Finance.Locks.assert_financial_trip_start
    rent_a_4_wheel.Jurisdiction.require_reservation_jurisdiction money_available snapshot
    deposit_valid
starts = refl

active_needs_money_example :
    (before_start_row.financial_disposition ≡ FinancialDisposition.opened)
    × (money_available (snapshot before_start before_start_row) ≡ true)
    × (deposit_valid env.now (snapshot before_start before_start_row) ≡ true)
    × (has_open_claim before_start 1 ≡ false)
    × (has_safety_block before_start 3 ≡ false)
active_needs_money_example =
    active_needs_money env starting before_start started before_start_row before_start_found refl
      starts

before_start-IsKeyed : IsKeyed 1 before_start
before_start-IsKeyed = omega arith

rival_loses_example : transition_reservation env starting started ≢ ok started
rival_loses_example =
    rival_loses env env starting starting before_start started started before_start-IsKeyed refl
      refl (λ e. ground arith) starts

transition_lem_example :
    (r r' : Reservation) × (find_reservation 1 before_start.reservations ≡ some r)
    × (r.status ≡ ReservationStatus.ready_to_start)
    × ((false ≡ true)
        ⊎ (is_transition_allowed ReservationStatus.ready_to_start ReservationStatus.active ≡ true))
    × (find_reservation 1 started.reservations ≡ some r')
    × (r'.status ≡ ReservationStatus.active)
    × ((j : ℕ)
        → j ≢ 1
        → find_reservation j started.reservations ≡ find_reservation j before_start.reservations)
transition_lem_example =
    transition_lem env starting before_start started before_start-IsKeyed starts

abbrev confirming : TransitionParams
confirming = move ReservationStatus.awaiting_payment ReservationStatus.confirmed

abbrev before_confirm : Db
before_confirm = world ReservationStatus.awaiting_payment

abbrev confirmed_db : Db
confirmed_db = value (transition_reservation env confirming before_confirm) before_confirm

confirms : transition_reservation env confirming before_confirm ≡ ok confirmed_db
unfolding transition_reservation rent_a_4_wheel.Finance.Locks.lock_reservation find_reservation
    is_transition_allowed
confirms = refl

abbrev confirmed_row : Reservation
confirmed_row = record (booking ReservationStatus.confirmed) { expires_at = none }

confirmed_found : find_reservation 1 confirmed_db.reservations ≡ some confirmed_row
unfolding find_reservation transition_reservation rent_a_4_wheel.Finance.Locks.lock_reservation
    is_transition_allowed
confirmed_found = refl

before_confirm-IsKeyed : IsKeyed 1 before_confirm
before_confirm-IsKeyed = omega arith

abbrev cancelling : TransitionParams
cancelling = move ReservationStatus.confirmed ReservationStatus.cancelled_by_customer

abbrev before_cancel : Db
before_cancel = world ReservationStatus.confirmed

abbrev cancelled_db : Db
cancelled_db = value (transition_reservation env cancelling before_cancel) before_cancel

cancels : transition_reservation env cancelling before_cancel ≡ ok cancelled_db
unfolding transition_reservation rent_a_4_wheel.Finance.Locks.lock_reservation find_reservation
    is_transition_allowed
    rent_a_4_wheel.Finance.ReturnAuthority.assert_no_unresolved_financial_review has_open_claim
    rent_a_4_wheel.Finance.ReturnAuthority.needs_review rent_a_4_wheel.Schema.Database.find_deposit
    find_trip rent_a_4_wheel.Finance.ReleasePlan.plan_all_deposit_releases
cancels = refl

abbrev cancelled_row : Reservation
cancelled_row = record (booking ReservationStatus.cancelled_by_customer) {
  financial_disposition = FinancialDisposition.terminated;
}

cancelled_found : find_reservation 1 cancelled_db.reservations ≡ some cancelled_row
unfolding find_reservation transition_reservation rent_a_4_wheel.Finance.Locks.lock_reservation
    is_transition_allowed
    rent_a_4_wheel.Finance.ReturnAuthority.assert_no_unresolved_financial_review has_open_claim
    rent_a_4_wheel.Finance.ReturnAuthority.needs_review rent_a_4_wheel.Schema.Database.find_deposit
    find_trip rent_a_4_wheel.Finance.ReleasePlan.plan_all_deposit_releases
cancelled_found = refl

before_cancel_found :
    find_reservation 1 before_cancel.reservations ≡ some (booking ReservationStatus.confirmed)
unfolding find_reservation
before_cancel_found = refl

before_cancel-IsKeyed : IsKeyed 1 before_cancel
before_cancel-IsKeyed = omega arith

-- A deposit authorization of the cancelled booking, ready to be sent.
abbrev late_charge : FinancialOperation
late_charge = record {
  id = 30;
  key = Key.deposit 1 1;
  kind = OperationKind.deposit;
  reservation_id = some 1;
  payload = Payload.authorize_deposit 20000 7 8;
  fingerprint = 0;
  provider_id = none;
  result_status = none;
  generation = some 1;
  state = OperationState.running;
  priority = 50;
  lease_token = none;
  lease_expires_at = none;
  first_attempt_at = none;
  next_attempt_at = none;
  attempts = 1;
  consecutive_failures = 0;
}

-- The same booking with an authorization at the provider.
abbrev authorization : FinancialOperation
authorization = record late_charge { provider_id = some 500; state = OperationState.poll }

abbrev before_release : Db
before_release = record before_cancel { financial_operations = authorization ∷ [] }

abbrev released_db : Db
released_db = value (transition_reservation env cancelling before_release) before_release

cancels_held : transition_reservation env cancelling before_release ≡ ok released_db
unfolding transition_reservation rent_a_4_wheel.Finance.Locks.lock_reservation find_reservation
    is_transition_allowed
    rent_a_4_wheel.Finance.ReturnAuthority.assert_no_unresolved_financial_review has_open_claim
    rent_a_4_wheel.Finance.ReturnAuthority.needs_review find_deposit find_trip
    rent_a_4_wheel.Finance.ReleasePlan.plan_all_deposit_releases
    rent_a_4_wheel.Finance.Operations.prepare_operation rent_a_4_wheel.Finance.Operations.find_key
cancels_held = refl

cancelled_held : find_reservation 1 released_db.reservations ≡ some cancelled_row
unfolding find_reservation transition_reservation rent_a_4_wheel.Finance.Locks.lock_reservation
    is_transition_allowed
    rent_a_4_wheel.Finance.ReturnAuthority.assert_no_unresolved_financial_review has_open_claim
    rent_a_4_wheel.Finance.ReturnAuthority.needs_review find_deposit find_trip
    rent_a_4_wheel.Finance.ReleasePlan.plan_all_deposit_releases
    rent_a_4_wheel.Finance.Operations.prepare_operation rent_a_4_wheel.Finance.Operations.find_key
cancelled_held = refl

cancellation_releases_example :
    (includes cancellable_statuses ReservationStatus.confirmed ≡ true)
    × (is_started (find_trip 1 []) ≡ false)
    × (false ≡ true → FinancialDisposition.terminated ≡ FinancialDisposition.refund_required)
    × (false ≡ false → FinancialDisposition.terminated ≡ FinancialDisposition.terminated)
    × ((o : FinancialOperation) (intent : ℕ)
        → Memᴰ o (authorization ∷ [])
        → o.reservation_id ≡ some 1
        → o.kind ≡ OperationKind.deposit
        → o.provider_id ≡ some intent
        → IsPrepared env (release_params 1 intent) released_db.financial_operations)
    × ((d : SecurityDeposit) (intent : ℕ)
        → find_deposit 1 before_release.security_deposits ≡ some d
        → d.stripe_payment_intent_id ≡ some intent
        → d.released_at ≡ none
        → d.stripe_status ≢ some IntentStatus.canceled
        → d.stripe_status ≢ some IntentStatus.succeeded
        → IsPrepared env (release_params 1 intent) released_db.financial_operations)
cancellation_releases_example =
    cancellation_releases env cancelling before_release released_db
      (booking ReservationStatus.confirmed) cancelled_row before_cancel-IsKeyed refl cancels_held
      before_cancel_found cancelled_held

charge_is_admission : is_admission late_charge.kind ≡ true
unfolding is_admission
charge_is_admission = refl

cancelled_stops_charges_example :
    assert_dispatch_authority env (λ k. true) [] late_charge cancelled_db ≢ ok cancelled_db
cancelled_stops_charges_example =
    cancelled_stops_charges env env (λ k. true) [] cancelling late_charge before_cancel cancelled_db
      cancelled_db before_cancel-IsKeyed refl cancels charge_is_admission refl

-- The second cancellation of the same booking, forced to EXPIRED.
abbrev closing : TransitionParams
closing = record (move ReservationStatus.cancelled_by_customer ReservationStatus.expired) {
  force = true;
}

abbrev closed_db : Db
closed_db = value (transition_reservation env closing cancelled_db) cancelled_db

closes : transition_reservation env closing cancelled_db ≡ ok closed_db
unfolding transition_reservation rent_a_4_wheel.Finance.Locks.lock_reservation find_reservation
    is_transition_allowed
    rent_a_4_wheel.Finance.ReturnAuthority.assert_no_unresolved_financial_review has_open_claim
    rent_a_4_wheel.Finance.ReturnAuthority.needs_review rent_a_4_wheel.Schema.Database.find_deposit
    find_trip rent_a_4_wheel.Finance.ReleasePlan.plan_all_deposit_releases
closes = refl

button : can_customer_cancel ReservationStatus.confirmed 5000 100 ≡ allowed
unfolding can_customer_cancel
button = refl

-- The whole way from the payment to the trip.
abbrev db0 : Db
db0 = world ReservationStatus.awaiting_payment

abbrev move0 : TransitionParams
move0 = move ReservationStatus.awaiting_payment ReservationStatus.confirmed

abbrev db1 : Db
db1 = value (transition_reservation env move0 db0) db0

moves0 : transition_reservation env move0 db0 ≡ ok db1
unfolding transition_reservation rent_a_4_wheel.Finance.Locks.lock_reservation find_reservation
    is_transition_allowed
moves0 = refl

abbrev move1 : TransitionParams
move1 = move ReservationStatus.confirmed ReservationStatus.documents_required

abbrev db2 : Db
db2 = value (transition_reservation env move1 db1) db1

moves1 : transition_reservation env move1 db1 ≡ ok db2
unfolding transition_reservation rent_a_4_wheel.Finance.Locks.lock_reservation find_reservation
    is_transition_allowed
moves1 = refl

abbrev move2 : TransitionParams
move2 = move ReservationStatus.documents_required ReservationStatus.ready_for_check_in

abbrev db3 : Db
db3 = value (transition_reservation env move2 db2) db2

moves2 : transition_reservation env move2 db2 ≡ ok db3
unfolding transition_reservation rent_a_4_wheel.Finance.Locks.lock_reservation find_reservation
    is_transition_allowed
moves2 = refl

abbrev move3 : TransitionParams
move3 = move ReservationStatus.ready_for_check_in ReservationStatus.check_in_progress

abbrev db4 : Db
db4 = value (transition_reservation env move3 db3) db3

moves3 : transition_reservation env move3 db3 ≡ ok db4
unfolding transition_reservation rent_a_4_wheel.Finance.Locks.lock_reservation find_reservation
    is_transition_allowed
moves3 = refl

abbrev move4 : TransitionParams
move4 = move ReservationStatus.check_in_progress ReservationStatus.ready_to_start

abbrev db5 : Db
db5 = value (transition_reservation env move4 db4) db4

moves4 : transition_reservation env move4 db4 ≡ ok db5
unfolding transition_reservation rent_a_4_wheel.Finance.Locks.lock_reservation find_reservation
    is_transition_allowed
moves4 = refl

abbrev move5 : TransitionParams
move5 = move ReservationStatus.ready_to_start ReservationStatus.active

abbrev db6 : Db
db6 = value (transition_reservation env move5 db5) db5

moves5 : transition_reservation env move5 db5 ≡ ok db6
unfolding transition_reservation rent_a_4_wheel.Finance.Locks.lock_reservation find_reservation
    is_transition_allowed rent_a_4_wheel.Finance.Locks.assert_financial_trip_start
    rent_a_4_wheel.Jurisdiction.require_reservation_jurisdiction money_available snapshot
    deposit_valid
moves5 = refl

abbrev visited : List ReservationStatus
visited =
    ReservationStatus.confirmed ∷ ReservationStatus.documents_required
    ∷ ReservationStatus.ready_for_check_in ∷ ReservationStatus.check_in_progress
    ∷ ReservationStatus.ready_to_start ∷ ReservationStatus.active ∷ []

run : Run 1 db0 visited db6
run = moves env move0 db0 db1 db6 _ refl refl moves0 (
    moves env move1 db1 db2 db6 _ refl refl moves1 (
      moves env move2 db2 db3 db6 _ refl refl moves2 (
        moves env move3 db3 db4 db6 _ refl refl moves3 (
          moves env move4 db4 db5 db6 _ refl refl moves4
            (moves env move5 db5 db6 db6 _ refl refl moves5 (here db6))))))

abbrev last_row : Reservation
last_row = record (booking ReservationStatus.active) { expires_at = none }

last_found : find_reservation 1 db6.reservations ≡ some last_row
unfolding find_reservation transition_reservation rent_a_4_wheel.Finance.Locks.lock_reservation
    is_transition_allowed rent_a_4_wheel.Finance.Locks.assert_financial_trip_start
    rent_a_4_wheel.Jurisdiction.require_reservation_jurisdiction money_available snapshot
    deposit_valid
last_found = refl

first_found :
    find_reservation 1 db0.reservations ≡ some (booking ReservationStatus.awaiting_payment)
unfolding find_reservation
first_found = refl

db0-IsKeyed : IsKeyed 1 db0
db0-IsKeyed = omega arith

active_needs_confirmed_example : Memᴰ ReservationStatus.confirmed visited
active_needs_confirmed_example =
    active_needs_confirmed 1 (booking ReservationStatus.awaiting_payment) last_row run db0-IsKeyed
      first_found refl last_found refl
