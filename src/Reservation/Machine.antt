-- ===== src/Reservation/Machine.antt =====
-- `transitionReservation` of src/lib/reservation-state-machine.ts, over the tables of a transaction.
pub mod Inversion
pub mod Exclusion
pub mod Guards
use rent_a_4_wheel.Prelude.{
  ℕ, ◌≡◌, Bool, true, false, not, ◌&&◌, ◌||◌, Option, none, some, List, [], ◌∷◌, nat_eq, Eq, ◌==◌,
  includes, is_some, from_option, count_by, update_where, if◌then◌else◌, Result, ok, err, guard,
  ◌>>=◌, ◌>>◌,
}
use rent_a_4_wheel.Schema.Enums.{
  ReservationStatus, FinancialDisposition, checkout_hold, awaiting_payment, payment_failed,
  confirmed, documents_required, ready_for_check_in, check_in_progress, ready_to_start, active,
  completed, expired, status_eq, disposition_eq,
}
use rent_a_4_wheel.Schema.Booking.{Reservation, Trip}
use rent_a_4_wheel.Schema.Database.{
  Db, Env, Error, illegal_transition, stale_reservation, cannot_reopen, cannot_cancel, find_trip,
}
use rent_a_4_wheel.Finance.Locks.{lock_reservation, assert_financial_trip_start}
use rent_a_4_wheel.Finance.ReturnAuthority.{
  assert_return_financial_authority, assert_no_unresolved_financial_review,
}
use rent_a_4_wheel.Finance.ReleasePlan.{plan_all_deposit_releases}
use rent_a_4_wheel.Reservation.Transitions.{
  is_transition_allowed, durable_blocking_statuses, cancelled_statuses,
}

-- `data`: `none` is a column that the update leaves alone.
pub record UpdateInput : Type 0 where
  pub expires_at : Option (Option ℕ)
  pub financial_disposition : Option FinancialDisposition
  pub checkout_fingerprint : Option ℕ

pub record TransitionParams : Type 0 where
  pub id : ℕ
  pub from : ReservationStatus
  pub to : ReservationStatus
  pub force : Bool
  pub changes : UpdateInput
  pub where_extra : Reservation → Bool

assert_transition_allowed : ReservationStatus → ReservationStatus → Result Error (Unit {0})
assert_transition_allowed from to = guard (is_transition_allowed from to) illegal_transition

-- `if (to === "ACTIVE") …`.
pub start_gate : Env → Db → TransitionParams → Result Error (Unit {0})
start_gate env db p = if p.to == active then assert_financial_trip_start env db p.id else ok tt

-- `if (to === "COMPLETED") …`: completion keeps the disposition.
pub completion_gate : Env → Db → TransitionParams → Reservation → Result Error UpdateInput
completion_gate env db p current =
    if p.to == completed
    then (do
      assert_return_financial_authority env db p.id
      ok (record p.changes { financial_disposition = some current.financial_disposition }))
    else ok p.changes

abbrev end_statuses : List ReservationStatus
end_statuses =
    ReservationStatus.cancelled_by_customer ∷ ReservationStatus.cancelled_by_host ∷ expired
    ∷ completed ∷ []

-- A financially terminated or cancelled reservation cannot reopen.
pub reopens : ReservationStatus → Reservation → Bool
reopens to current =
    (not (current.financial_disposition == FinancialDisposition.opened)
      || includes cancelled_statuses current.status)
    && not (includes end_statuses to)

-- The statuses that a reservation can be cancelled from.
abbrev pub cancellable_statuses : List ReservationStatus
cancellable_statuses =
    checkout_hold ∷ awaiting_payment ∷ payment_failed ∷ confirmed ∷ documents_required
    ∷ ready_for_check_in ∷ check_in_progress ∷ ready_to_start ∷ []

pub is_started : Option Trip → Bool
is_started none = false
is_started (some t) = is_some t.started_at

-- What a cancellation leaves owed: before the confirmation a refund.
unfoldable pub cancelled_disposition : ReservationStatus → FinancialDisposition
cancelled_disposition from =
    if includes (checkout_hold ∷ awaiting_payment ∷ payment_failed ∷ []) from
    then FinancialDisposition.refund_required
    else FinancialDisposition.terminated

-- `if (cancelled.includes(to)) …`.
pub cancellation_gate :
    Env → Db → TransitionParams → Reservation → UpdateInput → Result Error UpdateInput
unfolding is_started cancelled_disposition
cancellation_gate env db p current changes =
    if includes cancelled_statuses p.to
    then (do
      assert_no_unresolved_financial_review env db p.id
      guard
          (includes cancellable_statuses current.status
            && not (is_started (find_trip p.id db.trips)))
          cannot_cancel
      ok (record changes { financial_disposition = some (cancelled_disposition p.from) }))
    else ok changes

pub auto_clears_expiry : ReservationStatus → UpdateInput → Bool
auto_clears_expiry to changes =
    not (is_some changes.expires_at)
    && includes durable_blocking_statuses to
    && not (to == payment_failed)

-- The update of one row.
pub apply_update : ReservationStatus → UpdateInput → Reservation → Reservation
unfolding auto_clears_expiry
apply_update to changes r = record r {
  status = to;
  expires_at =
      if auto_clears_expiry to changes then none else from_option changes.expires_at r.expires_at;
  financial_disposition = from_option changes.financial_disposition r.financial_disposition;
  checkout_fingerprint =
      if is_some changes.checkout_fingerprint
      then changes.checkout_fingerprint
      else r.checkout_fingerprint;
}

-- The compare-and-swap condition beyond the id.
pub swaps : TransitionParams → Reservation → Bool
swaps p r = r.status == p.from && p.where_extra r

pub compare_and_swap : TransitionParams → UpdateInput → List Reservation → List Reservation
unfolding apply_update swaps
compare_and_swap p changes rs =
    update_where (λ r. r.id == p.id && swaps p r) (apply_update p.to changes) rs

pub swapped : TransitionParams → List Reservation → ℕ
unfolding swaps
swapped p rs = count_by (λ r. r.id == p.id && swaps p r) rs

pub plan_cancellation : Env → TransitionParams → Db → Result Error Db
plan_cancellation env p db =
    if includes cancelled_statuses p.to then plan_all_deposit_releases env p.id db else ok db

unfoldable pub transition_reservation : Env → TransitionParams → Db → Result Error Db
unfolding assert_transition_allowed start_gate completion_gate reopens cancellation_gate
    compare_and_swap swapped plan_cancellation
transition_reservation env p db = do
  current ← lock_reservation env p.id db
  if p.force then ok tt else assert_transition_allowed p.from p.to
  start_gate env db p
  kept ← completion_gate env db p current
  guard (not (reopens p.to current)) cannot_reopen
  changes ← cancellation_gate env db p current kept
  guard (swapped p db.reservations == 1) stale_reservation
  plan_cancellation env p (record db { reservations = compare_and_swap p changes db.reservations })
