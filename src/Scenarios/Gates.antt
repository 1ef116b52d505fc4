-- ===== src/Scenarios/Gates.antt =====
-- The trip gate, the availability, the quotes and the releases at concrete bookings.
use mathlib.Core.List.{Memᴰ}
use rent_a_4_wheel.Prelude.{
  ℕ, ◌-◌, ◌≡◌, ◌≢◌, refl, true, false, none, some, [], ◌∷◌, includes, if◌then◌else◌, nat_eq, ok,
  err, arith,
}
use rent_a_4_wheel.Prelude.Int.{pos}
use rent_a_4_wheel.Schema.Enums.{ReservationStatus, IntentStatus, PaymentStatus}
use rent_a_4_wheel.Schema.Booking.{Reservation}
use rent_a_4_wheel.Schema.Fleet.{VehicleBlock}
use rent_a_4_wheel.Schema.Money.{SecurityDeposit}
use rent_a_4_wheel.Schema.Database.{
  Db, Env, Error, claim_outstanding, find_reservation, find_vehicle,
}
use rent_a_4_wheel.Finance.Locks.{has_open_claim, has_safety_block, assert_financial_trip_start}
use rent_a_4_wheel.Finance.ReleasePlan.{plan_all_deposit_releases}
use rent_a_4_wheel.Jurisdiction.{is_ok, has_code, visible_jurisdictions, jurisdiction_decision}
use rent_a_4_wheel.TripGate.{
  CheckInRecords, DriverDocument, DocumentType, license_front, license_back, selfie_with_license,
  ConditionReport, ReportRole, host_role, customer_role, start, evaluate_trip_start_gate,
}
use rent_a_4_wheel.TripGate.Soundness.{IsReady, gate-IsReady, gate_permits_start}
use rent_a_4_wheel.Availability.{is_vehicle_available, get_available_vehicle_ids, found_listed}
use rent_a_4_wheel.Availability.Guarantees.{IsDisjoint, HoldsVehicle, available_excludes}
use rent_a_4_wheel.Availability.Search.{search-available}
use rent_a_4_wheel.Pricing.Rate.{Calendar, VehicleRates}
use rent_a_4_wheel.Pricing.Quote.{PricingParams}
use rent_a_4_wheel.Pricing.Coupon.{Coupon}
use rent_a_4_wheel.Scenarios.World.{value, env, world}

abbrev document : DocumentType → DriverDocument
document t = record { user_id = 5; type = t; is_clean = true; is_rejected = false }

abbrev report : ℕ → ReportRole → ConditionReport
report n role = record { id = n; submitted_by_role = role; accepted_at = some 900 }

abbrev papers : CheckInRecords
papers = record {
  documents = document license_front ∷ document license_back ∷ document selfie_with_license ∷ [];
  agreement_acceptances = 1 ∷ [];
  identity_handoff = some (record {
    verified_at = some 800;
    license_matches_upload = true;
    physical_license_unexpired = true;
    selfie_matches_customer = true;
  });
  condition_reports = report 1 host_role ∷ report 2 customer_role ∷ [];
  photos = 1 ∷ 2 ∷ [];
  keys_released = true;
  check_in_window_hours = 1;
}

abbrev ready_db : Db
ready_db = world ReservationStatus.ready_to_start

opens : (evaluate_trip_start_gate env ready_db papers 1 start).can_start ≡ true
unfolding evaluate_trip_start_gate find_reservation is_ok
    rent_a_4_wheel.Jurisdiction.require_reservation_jurisdiction has_safety_block
    rent_a_4_wheel.Finance.Projection.paid_cents rent_a_4_wheel.Finance.Projection.snapshot
    rent_a_4_wheel.Finance.Projection.money_available
    rent_a_4_wheel.Finance.Projection.deposit_valid
opens = refl

gate-IsReady_example :
    (r : Reservation) × (find_reservation 1 ready_db.reservations ≡ some r)
    × IsReady env ready_db papers start r
gate-IsReady_example = gate-IsReady env ready_db papers 1 start opens

gate_permits_start_example :
    assert_financial_trip_start env ready_db 1
    ≡ (if has_open_claim ready_db 1 then err claim_outstanding else ok tt)
gate_permits_start_example = gate_permits_start env ready_db papers 1 start opens

abbrev confirmed_world : Db
confirmed_world = world ReservationStatus.confirmed

available : is_vehicle_available env confirmed_world 3 9000 9500 none ≡ true
unfolding is_vehicle_available is_ok rent_a_4_wheel.Jurisdiction.require_vehicle_jurisdiction
    find_vehicle has_safety_block
available = refl

available_excludes_example :
    ((r : Reservation)
      → Memᴰ r confirmed_world.reservations
      → r.vehicle_id ≡ 3
      → none ≢ some r.id
      → HoldsVehicle env.now r
      → IsDisjoint r.pickup_at r.return_at 9000 9500)
    × ((k : VehicleBlock)
        → Memᴰ k confirmed_world.vehicle_blocks
        → k.vehicle_id ≡ 3
        → IsDisjoint k.start_at k.end_at 9000 9500)
    × (has_safety_block confirmed_world 3 ≡ false)
    × (found_listed (find_vehicle 3 confirmed_world.vehicles) ≡ true)
available_excludes_example = available_excludes env confirmed_world 3 9000 9500 none available

search-available_example :
    includes (get_available_vehicle_ids env confirmed_world 9000 9500) 3
    ≡ is_vehicle_available env confirmed_world 3 9000 9500 none
search-available_example = search-available env confirmed_world 9000 9500 3 (omega arith)

-- Dates are days here.
abbrev calendar : Calendar
calendar = record { days_until = λ zone a b. pos (b - a) }

abbrev rates : VehicleRates
rates = record {
  daily_rate_cents = 5000;
  weekly_rate_cents = 28000;
  monthly_rate_cents = 90000;
  security_deposit_cents = 20000;
}

abbrev stay : PricingParams
stay = record {
  vehicle = rates;
  pickup_at = 3;
  return_at = 13;
  booking_timezone = 0;
  extras = [];
  coupon = none;
  tax_rate_percent = 900;
  fees_cents = 0;
}

abbrev coupon : Coupon
coupon = record {
  is_active = true;
  starts_at = 0;
  expires_at = 100;
  min_rental_days = some 3;
  max_uses = none;
  used_count = 0;
  applicable_vehicle_ids = [];
}

abbrev deposit : SecurityDeposit
deposit = record {
  reservation_id = 1;
  amount_cents = 20000;
  capturable_amount_cents = 20000;
  status = PaymentStatus.succeeded;
  stripe_status = some IntentStatus.requires_capture;
  stripe_payment_intent_id = some 60;
  operation_id = none;
  generation = 1;
  legacy_uncertain = false;
  released_at = none;
  authorized_at = some 500;
  authorization_expires_at = some 90000;
  failure_reason = none;
  created_at = 400;
}

abbrev with_deposit : Db
with_deposit = record (world ReservationStatus.cancelled_by_host) {
  security_deposits = deposit ∷ [];
}

abbrev planned : Db
planned = value (plan_all_deposit_releases env 1 with_deposit) with_deposit

plans_releases : plan_all_deposit_releases env 1 with_deposit ≡ ok planned
unfolding plan_all_deposit_releases rent_a_4_wheel.Schema.Database.find_deposit
    rent_a_4_wheel.Finance.Operations.prepare_operation rent_a_4_wheel.Finance.Operations.find_key
plans_releases = refl
