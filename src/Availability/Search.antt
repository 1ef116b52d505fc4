-- ===== src/Availability/Search.antt =====
-- The bulk search `getAvailableVehicleIds` and the check of one vehicle agree.
use rent_a_4_wheel.Prelude.{
  ℕ, ◌≤◌, ◌≡◌, refl, ◌∙◌, Bool, false, not, ◌&&◌, ◌||◌, Option, none, some, List, [], ◌∷◌, nat_eq,
  option_eq, ◌==◌, includes, any, select, count_by, map, arith,
}
use rent_a_4_wheel.Schema.Booking.{Reservation}
use rent_a_4_wheel.Schema.Fleet.{Vehicle, VehicleBlock}
use rent_a_4_wheel.Schema.Database.{Db, Env, find_vehicle}
use rent_a_4_wheel.Finance.Locks.{has_safety_block}
use rent_a_4_wheel.Jurisdiction.{
  require_vehicle_jurisdiction, jurisdiction_decision, visible_jurisdictions, is_ok,
}
use rent_a_4_wheel.Jurisdiction.Visible.{visible_lem, decision_none}
use rent_a_4_wheel.Availability.{
  is_vehicle_available, get_available_vehicle_ids, reservation_conflicts, block_conflicts,
  is_listed, reserved_ids, blocked_ids, is_about, is_unavailable, is_visible, offered,
}

reserved_lem :
    (now v a b : ℕ) (rs : List Reservation)
    → includes (reserved_ids now a b rs) v ≡ any (reservation_conflicts now v a b none) rs
unfolding reserved_ids reservation_conflicts
reserved_lem now v a b [] = refl
reserved_lem now v a b (r ∷ rs) = ground (arith, reserved_lem now v a b rs)

blocked_lem :
    (v a b : ℕ) (bs : List VehicleBlock)
    → includes (blocked_ids a b bs) v ≡ any (block_conflicts v a b) bs
unfolding blocked_ids block_conflicts
blocked_lem v a b [] = refl
blocked_lem v a b (k ∷ bs) = ground (arith, blocked_lem v a b bs)

-- The vehicle of a unique id is in the result exactly if it is offered.
offered_of : Env → Db → ℕ → ℕ → Option Vehicle → Bool
offered_of env db a b none = false
offered_of env db a b (some v) = offered env db a b v

absent_lem :
    (f : Vehicle → Bool) (id : ℕ) (vs : List Vehicle)
    → count_by (λ v. v.id == id) vs ≡ 0
    → includes (map (λ v. v.id) (select f vs)) id ≡ false
absent_lem f id [] h = refl
absent_lem f id (v ∷ vs) h = ground (arith, absent_lem f id vs)

search_lem :
    (env : Env) (db : Db) (a b id : ℕ) (vs : List Vehicle)
    → count_by (λ v. v.id == id) vs ≤ 1
    → includes (map (λ v. v.id) (select (offered env db a b) vs)) id
      ≡ offered_of env db a b (find_vehicle id vs)
unfolding find_vehicle offered_of
search_lem env db a b id [] h = refl
search_lem env db a b id (v ∷ vs) h =
    ground (arith, search_lem env db a b id vs, absent_lem (offered env db a b) id vs)

found_id : (id : ℕ) (vs : List Vehicle) (v : Vehicle) → find_vehicle id vs ≡ some v → v.id ≡ id
unfolding find_vehicle
found_id id [] v h = cc
found_id id (x ∷ vs) v h = ground (arith, found_id id vs v)

visible_of :
    (env : Env) (db : Db) (c : Option (List ℕ))
    → is_visible (visible_jurisdictions env db db.jurisdictions) c
      ≡ is_ok (jurisdiction_decision env db c)
unfolding is_visible
visible_of env db none = rw (decision_none env db)
visible_of env db (some code) = visible_lem env db code

about_lem : (db : Db) (id : ℕ) → any (is_about id) db.service_cases ≡ has_safety_block db id
unfolding is_about has_safety_block
about_lem db id = refl

unavailable_lem :
    (env : Env) (db : Db) (a b id : ℕ)
    → is_unavailable env db a b id ≡ (
        any (reservation_conflicts env.now id a b none) db.reservations
        || any (block_conflicts id a b) db.vehicle_blocks
        || has_safety_block db id)
unfolding is_unavailable
unavailable_lem env db a b id = rw (
  reserved_lem env.now id a b db.reservations,
  blocked_lem id a b db.vehicle_blocks,
  about_lem db id,
)

-- `offered` and the check of one vehicle, with the shared tests left shut.
offered_lem :
    (env : Env) (db : Db) (a b : ℕ) (v : Vehicle)
    → offered env db a b v ≡ (
        is_ok (jurisdiction_decision env db v.jurisdiction_code)
        && is_listed v
        && not (
            any (reservation_conflicts env.now v.id a b none) db.reservations
            || any (block_conflicts v.id a b) db.vehicle_blocks
            || has_safety_block db v.id))
unfolding offered
offered_lem env db a b v =
    rw (visible_of env db v.jurisdiction_code, unavailable_lem env db a b v.id)

one_vehicle :
    (env : Env) (db : Db) (a b id : ℕ) (o : Option Vehicle)
    → find_vehicle id db.vehicles ≡ o
    → offered_of env db a b o ≡ is_vehicle_available env db id a b none
unfolding offered_of is_vehicle_available require_vehicle_jurisdiction
one_vehicle env db a b id none e = ground arith
one_vehicle env db a b id (some v) e =
    ground (arith, offered_lem env db a b v, found_id id db.vehicles v e)

-- The search lists a vehicle exactly when the check of that vehicle alone, with no reservation
-- excluded, finds it available; vehicle ids are unique.
pub search-available :
    (env : Env) (db : Db) (a b id : ℕ)
    → count_by (λ v. v.id == id) db.vehicles ≤ 1
    → includes (get_available_vehicle_ids env db a b) id ≡ is_vehicle_available env db id a b none
unfolding get_available_vehicle_ids
search-available env db a b id u =
    search_lem env db a b id db.vehicles u
    ∙ one_vehicle env db a b id (find_vehicle id db.vehicles) refl
