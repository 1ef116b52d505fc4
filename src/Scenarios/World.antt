-- ===== src/Scenarios/World.antt =====
-- A released jurisdiction, one vehicle and one paid booking that is ready to start.
use rent_a_4_wheel.Prelude.{ℕ, true, false, none, some, List, [], ◌∷◌, map, Result, ok, err}
use rent_a_4_wheel.Schema.Enums.{
  ReservationStatus, FinancialDisposition, PaymentType, PaymentStatus,
}
use rent_a_4_wheel.Schema.Booking.{Reservation}
use rent_a_4_wheel.Schema.Fleet.{Vehicle, VehicleStatus, JurisdictionApproval, Gate}
use rent_a_4_wheel.Schema.Money.{Payment}
use rent_a_4_wheel.Schema.Database.{Db, Env}
use rent_a_4_wheel.Jurisdiction.{jurisdiction_gates}

-- The value of a call that succeeds.
abbrev pub value {ℓ κ} : {E : Type ℓ} {A : Type κ} → Result E A → A → A
value (ok a) d = a
value (err e) d = d

abbrev pub env : Env
env = record { now = 1000; is_production = false; fence_valid = true; fingerprint = λ p. 7 }

abbrev pub az : List ℕ
az = b'A' ∷ b'Z' ∷ []

abbrev pub approval : Gate → JurisdictionApproval
approval g = record {
  jurisdiction_code = az;
  category = g;
  version = 1;
  is_ready = true;
  is_reviewed = true;
  effective_at = 0;
  ends_at = none;
}

abbrev pub booking : ReservationStatus → Reservation
booking s = record {
  id = 1;
  customer_id = 5;
  vehicle_id = 3;
  jurisdiction_code = some az;
  status = s;
  financial_disposition = FinancialDisposition.opened;
  pickup_at = 1200;
  return_at = 9000;
  expires_at = some 1500;
  checkout_fingerprint = none;
  total_cents = 50000;
  deposit_cents = 0;
}

abbrev pub car : Vehicle
car = record {
  id = 3;
  jurisdiction_code = some az;
  status = VehicleStatus.active;
  is_demo = false;
  listing_approved = true;
  host_approved = some true;
  is_bookable = some true;
}

abbrev pub rental : Payment
rental = record {
  id = 8;
  reservation_id = 1;
  type = PaymentType.rental;
  status = PaymentStatus.succeeded;
  amount_cents = 50000;
  stripe_payment_intent_id = some 80;
}

abbrev pub world : ReservationStatus → Db
world s = record {
  reservations = booking s ∷ [];
  trips = [];
  vehicles = car ∷ [];
  vehicle_blocks = [];
  service_cases = [];
  jurisdictions = record { code = az; is_staging = true } ∷ [];
  jurisdiction_approvals = map approval jurisdiction_gates;
  payments = rental ∷ [];
  refunds = [];
  security_deposits = [];
  financial_operations = [];
  financial_cases = [];
  payment_reconciliations = [];
  next_id = 100;
}
