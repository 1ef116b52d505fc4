-- ===== src/Pricing/Rate.antt =====
-- `selectRate` of src/lib/pricing.ts and `bookingDays` of src/lib/booking-time.ts.
use rent_a_4_wheel.Prelude.{ℕ, ◌+◌, ◌-◌, ◌*◌, ◌/◌, ◌≤◌, ◌<◌, max, ◌≡◌, leb, if◌then◌else◌, arith}
use rent_a_4_wheel.Prelude.Int.{ℤ, pos_part}

-- The Temporal polyfill: the whole days from the local date of one instant to that of another, in
-- a zone.
pub record Calendar : Type 0 where
  pub days_until : (zone start end_ : ℕ) → ℤ

-- `Math.max(1, start.until(end).days)`.
unfoldable pub booking_days : Calendar → ℕ → ℕ → ℕ → ℕ
booking_days cal pickup_at return_at zone =
    max 1 (pos_part (cal.days_until zone pickup_at return_at))

pub data RateType : Type 0 where
  daily weekly monthly : RateType

pub record VehicleRates : Type 0 where
  pub daily_rate_cents : ℕ
  pub weekly_rate_cents : ℕ
  pub monthly_rate_cents : ℕ
  pub security_deposit_cents : ℕ

pub record RateSelection : Type 0 where
  pub rate_type : RateType
  pub rate_amount_cents : ℕ
  pub units : ℕ
  pub subtotal_cents : ℕ
  pub days : ℕ

-- `Math.ceil(a / b)`, for b > 0.
abbrev pub ceil_div : ℕ → ℕ → ℕ
ceil_div a b = (a + (b - 1)) / b

-- The ladder of `selectRate`, once the days are counted.
unfoldable pub rate_for : VehicleRates → ℕ → RateSelection
rate_for vehicle days =
    if leb 28 days
    then record {
      rate_type = monthly;
      rate_amount_cents = vehicle.monthly_rate_cents;
      units = ceil_div days 30;
      subtotal_cents = ceil_div days 30 * vehicle.monthly_rate_cents;
      days = days;
    }
    else if leb 7 days
    then record {
      rate_type = weekly;
      rate_amount_cents = vehicle.weekly_rate_cents;
      units = ceil_div days 7;
      subtotal_cents = ceil_div days 7 * vehicle.weekly_rate_cents;
      days = days;
    }
    else record {
      rate_type = daily;
      rate_amount_cents = vehicle.daily_rate_cents;
      units = days;
      subtotal_cents = days * vehicle.daily_rate_cents;
      days = days;
    }

unfoldable pub select_rate :
    Calendar → VehicleRates → (pickup_at return_at zone : ℕ) → RateSelection
unfolding booking_days
select_rate cal vehicle pickup_at return_at zone =
    rate_for vehicle (max 1 (booking_days cal pickup_at return_at zone))

-- The days that one unit of a tier covers.
abbrev pub unit_days : RateType → ℕ
unit_days daily = 1
unit_days weekly = 7
unit_days monthly = 30

rate_for-covers :
    (v : VehicleRates) (days : ℕ)
    → 1 ≤ days
    → let s = rate_for v days in
      (1 ≤ s.days)
      × (s.days ≤ s.units * unit_days s.rate_type)
      × (s.units * unit_days s.rate_type < s.days + unit_days s.rate_type)
      × (s.subtotal_cents ≡ s.units * s.rate_amount_cents)
unfolding rate_for
rate_for-covers v days h = ground arith

-- Whatever the calendar says, at least one day is billed; the units of the chosen tier cover the
-- days, one unit less would not, and the subtotal is the units at the tier's rate.
select_rate-covers :
    (cal : Calendar) (v : VehicleRates) (pickup_at return_at zone : ℕ)
    → let s = select_rate cal v pickup_at return_at zone in
      (1 ≤ s.days)
      × (s.days ≤ s.units * unit_days s.rate_type)
      × (s.units * unit_days s.rate_type < s.days + unit_days s.rate_type)
      × (s.subtotal_cents ≡ s.units * s.rate_amount_cents)
unfolding select_rate
select_rate-covers cal v pickup_at return_at zone =
    rate_for-covers v (max 1 (booking_days cal pickup_at return_at zone)) (omega arith)

-- The tiers do not cap the price. Where n days below a week come to more than one weekly rate, they are
-- billed more than seven days are; where n days from a week on and below 28 come, in weeks, to more than
-- one monthly rate, they are billed more than 28 days are.
short_stay_costs_more :
    (v : VehicleRates) (n : ℕ)
    → 1 ≤ n
    → ((n < 7) × (v.weekly_rate_cents < n * v.daily_rate_cents)
        → (rate_for v 7).subtotal_cents < (rate_for v n).subtotal_cents)
      × ((7 ≤ n) × (n < 28) × (v.monthly_rate_cents < ceil_div n 7 * v.weekly_rate_cents)
          → (rate_for v 28).subtotal_cents < (rate_for v n).subtotal_cents)
unfolding rate_for
short_stay_costs_more v n h = (λ p. ground arith, λ p. ground arith)
