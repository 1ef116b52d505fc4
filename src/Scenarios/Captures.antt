-- ===== src/Scenarios/Captures.antt =====
-- Captured rentals of concrete bookings.
use rent_a_4_wheel.Prelude.{◌≤◌, ◌≡◌, refl, Bool, true, false, none, some, [], ◌∷◌, ok}
use rent_a_4_wheel.Schema.Enums.{ReservationStatus, status_eq, FinancialDisposition, disposition_eq}
use rent_a_4_wheel.Schema.Booking.{Reservation}
use rent_a_4_wheel.Schema.Money.{Key}
use rent_a_4_wheel.Schema.Database.{Db, find_reservation}
use rent_a_4_wheel.Finance.Refunds.{find_refund, held_cents}
use rent_a_4_wheel.Finance.Fulfilment.{recovery_states, take_payment, confirm}
use rent_a_4_wheel.Finance.Fulfilment.Returned.{payment_not_stranded}
use rent_a_4_wheel.Finance.Fulfilment.Confirmed.{IsFulfilled, confirmed_is_paid}
use rent_a_4_wheel.Scenarios.World.{value, env, booking, rental, world}

-- The payment comes after the booking was given up.
abbrev given_up : Reservation
given_up = record (booking ReservationStatus.expired) {
  financial_disposition = FinancialDisposition.refund_required;
}

abbrev too_late : Db
too_late = record (world ReservationStatus.expired) { reservations = given_up ∷ [] }

abbrev returned : Bool × Db
returned = value (take_payment env true 1 rental too_late) (true, too_late)

returns : take_payment env true 1 rental too_late ≡ ok (false, returned.1)
unfolding take_payment find_reservation rent_a_4_wheel.Finance.Fulfilment.refunded
    rent_a_4_wheel.Finance.Fulfilment.require_refund find_refund
    rent_a_4_wheel.Finance.Fulfilment.mark_refund_required held_cents
    rent_a_4_wheel.Finance.Refunds.reserve_refund rent_a_4_wheel.Finance.Refunds.find_payment
    rent_a_4_wheel.Finance.Operations.prepare_operation rent_a_4_wheel.Finance.Operations.find_key
    rent_a_4_wheel.Finance.Locks.lock_reservation
returns = refl

given_up_found : find_reservation 1 too_late.reservations ≡ some given_up
unfolding find_reservation
given_up_found = refl

no_refund_yet : find_refund (Key.terminal_refund rental.id) too_late.refunds ≡ none
unfolding find_refund
no_refund_yet = refl

payment_not_stranded_example : 50000 ≤ held_cents 8 returned.1.refunds
payment_not_stranded_example =
    payment_not_stranded env true 1 rental given_up too_late returned.1 given_up_found refl
      no_refund_yet returns

abbrev waiting : Db
waiting = world ReservationStatus.payment_failed

abbrev fulfilled : Bool × Db
fulfilled = value (confirm env true 1 rental waiting) (false, waiting)

fulfils : confirm env true 1 rental waiting ≡ ok (true, fulfilled.1)
unfolding confirm find_reservation rent_a_4_wheel.Finance.Fulfilment.require_confirmation_admission
    rent_a_4_wheel.Jurisdiction.require_reservation_jurisdiction
    rent_a_4_wheel.Finance.Fulfilment.finish rent_a_4_wheel.Finance.Projection.financial_eligible
    rent_a_4_wheel.Finance.Projection.snapshot rent_a_4_wheel.Finance.Locks.lock_reservation
fulfils = refl

waiting_found :
    find_reservation 1 waiting.reservations ≡ some (booking ReservationStatus.payment_failed)
unfolding find_reservation
waiting_found = refl

confirmed_is_paid_example :
    IsFulfilled env true 1 rental (booking ReservationStatus.payment_failed) waiting fulfilled.1
confirmed_is_paid_example =
    confirmed_is_paid env true 1 rental (booking ReservationStatus.payment_failed) waiting
      fulfilled.1 waiting_found fulfils
