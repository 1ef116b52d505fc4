-- ===== src/Availability.antt =====
-- src/lib/availability.ts: whether a vehicle can be booked for a period, and the bulk search.
pub mod Guarantees
pub mod Search
use rent_a_4_wheel.Prelude.{
  ℕ, ◌≡◌, Bool, true, false, not, ◌&&◌, ◌||◌, Option, none, some, List, [], ◌∷◌, ltb, nat_eq,
  option_eq, Eq, ◌==◌, includes, any, select, map, Result, ok, err, if◌then◌else◌,
}
use rent_a_4_wheel.Schema.Enums.{status_eq}
use rent_a_4_wheel.Schema.Booking.{Reservation}
use rent_a_4_wheel.Schema.Fleet.{
  Vehicle, VehicleBlock, ServiceCase, VehicleStatus, vehicle_status_eq,
}
use rent_a_4_wheel.Schema.Database.{Db, Env, Error, find_vehicle}
use rent_a_4_wheel.Finance.Locks.{has_safety_block}
use rent_a_4_wheel.Jurisdiction.{
  require_vehicle_jurisdiction, visible_jurisdictions, has_code, is_ok,
}
use rent_a_4_wheel.Reservation.Transitions.{durable_blocking_statuses, transient_hold_statuses}

-- Half-open periods: the first starts before the second ends, and ends after the second starts.
abbrev pub overlaps : (start end_ pickup_at return_at : ℕ) → Bool
overlaps start end_ pickup_at return_at = ltb start return_at && ltb pickup_at end_

pub unexpired : ℕ → Option ℕ → Bool
unexpired now none = false
unexpired now (some e) = ltb now e

-- The `OR` of the query: a durable status, or a hold whose deadline is in the future.
unfoldable pub occupies : ℕ → Reservation → Bool
unfolding unexpired
occupies now r =
    includes durable_blocking_statuses r.status
    || (includes transient_hold_statuses r.status && unexpired now r.expires_at)

-- `excludeReservationId`, if it is given.
pub is_excluded : Option ℕ → Reservation → Bool
is_excluded none r = false
is_excluded (some id) r = r.id == id

unfoldable pub reservation_conflicts : ℕ → ℕ → ℕ → ℕ → Option ℕ → Reservation → Bool
unfolding occupies is_excluded
reservation_conflicts now vehicle_id pickup_at return_at exclude r =
    r.vehicle_id == vehicle_id
    && not (is_excluded exclude r)
    && overlaps r.pickup_at r.return_at pickup_at return_at
    && occupies now r

unfoldable pub block_conflicts : ℕ → ℕ → ℕ → VehicleBlock → Bool
block_conflicts vehicle_id pickup_at return_at b =
    b.vehicle_id == vehicle_id && overlaps b.start_at b.end_at pickup_at return_at

-- `x && !x.approved` on a relation that may be missing.
pub refuses : Option Bool → Bool
refuses none = false
refuses (some b) = not b

unfoldable pub is_listed : Vehicle → Bool
unfolding refuses
is_listed v =
    v.status == VehicleStatus.active
    && not v.is_demo
    && v.listing_approved
    && not (refuses v.host_approved)
    && not (refuses v.is_bookable)

pub found_listed : Option Vehicle → Bool
unfolding is_listed
found_listed none = false
found_listed (some v) = is_listed v

unfoldable pub is_vehicle_available : Env → Db → ℕ → ℕ → ℕ → Option ℕ → Bool
unfolding reservation_conflicts block_conflicts found_listed
is_vehicle_available env db vehicle_id pickup_at return_at exclude =
    is_ok (require_vehicle_jurisdiction env db vehicle_id)
    && not (has_safety_block db vehicle_id)
    && not
        (any (reservation_conflicts env.now vehicle_id pickup_at return_at exclude) db.reservations)
    && not (any (block_conflicts vehicle_id pickup_at return_at) db.vehicle_blocks)
    && found_listed (find_vehicle vehicle_id db.vehicles)

-- The vehicle ids of the rows that overlap the period.
pub reserved_ids : ℕ → ℕ → ℕ → List Reservation → List ℕ
reserved_ids now pickup_at return_at rs =
    map (λ r. r.vehicle_id)
      (select (λ r. overlaps r.pickup_at r.return_at pickup_at return_at && occupies now r) rs)

pub blocked_ids : ℕ → ℕ → List VehicleBlock → List ℕ
blocked_ids pickup_at return_at bs =
    map (λ b. b.vehicle_id) (select (λ b. overlaps b.start_at b.end_at pickup_at return_at) bs)

-- A safety case is about the vehicle, if it is about one.
pub is_about : ℕ → ServiceCase → Bool
is_about id c = c.vehicle_id == some id && c.safety_block

pub is_unavailable : Env → Db → ℕ → ℕ → ℕ → Bool
unfolding reserved_ids blocked_ids is_about
is_unavailable env db pickup_at return_at id =
    includes (reserved_ids env.now pickup_at return_at db.reservations) id
    || includes (blocked_ids pickup_at return_at db.vehicle_blocks) id
    || any (is_about id) db.service_cases

pub is_visible : List (List ℕ) → Option (List ℕ) → Bool
is_visible codes none = false
is_visible codes (some code) = has_code codes code

pub offered : Env → Db → ℕ → ℕ → Vehicle → Bool
unfolding is_visible is_listed is_unavailable
offered env db pickup_at return_at v =
    is_visible (visible_jurisdictions env db db.jurisdictions) v.jurisdiction_code
    && is_listed v
    && not (is_unavailable env db pickup_at return_at v.id)

unfoldable pub get_available_vehicle_ids : Env → Db → ℕ → ℕ → List ℕ
unfolding offered
get_available_vehicle_ids env db pickup_at return_at =
    map (λ v. v.id) (select (offered env db pickup_at return_at) db.vehicles)
