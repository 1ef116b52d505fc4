-- ===== src/Availability/Guarantees.antt =====
-- What a positive answer of `isVehicleAvailable` rules out.
use mathlib.Core.List.{Memᴰ}
use rent_a_4_wheel.Prelude.{
  ℕ, ◌≤◌, ◌<◌, ◌≡◌, ◌≢◌, Bool, true, false, ◌⊎◌, Option, none, some, List, [], ◌∷◌, nat_eq,
  option_eq, includes, any, arith,
}
use rent_a_4_wheel.Schema.Enums.{status_eq}
use rent_a_4_wheel.Schema.Booking.{Reservation}
use rent_a_4_wheel.Schema.Fleet.{VehicleBlock}
use rent_a_4_wheel.Schema.Database.{Db, Env, find_vehicle}
use rent_a_4_wheel.Finance.Locks.{has_safety_block}
use rent_a_4_wheel.Reservation.Transitions.{durable_blocking_statuses, transient_hold_statuses}
use rent_a_4_wheel.Availability.{
  is_vehicle_available, reservation_conflicts, block_conflicts, found_listed,
}

any-false {ℓ} :
    {A : Type ℓ} (p : A → Bool) (xs : List A) (x : A) → any p xs ≡ false → Memᴰ x xs → p x ≡ false
any-false p [] x h m = elim m [ ]
any-false p (y ∷ xs) x h (Memᴰ.head e) = ground arith
any-false p (y ∷ xs) x h (Memᴰ.tail m) = any-false p xs x (ground arith) m

-- Two periods share no moment.
abbrev pub IsDisjoint : ℕ → ℕ → ℕ → ℕ → Type 0
IsDisjoint start end_ pickup_at return_at = (end_ ≤ pickup_at) ⊎ (return_at ≤ start)

-- A row that holds the vehicle now: durable, or a hold whose deadline is still to come.
abbrev pub HoldsVehicle : ℕ → Reservation → Type 0
HoldsVehicle now r =
    (includes durable_blocking_statuses r.status ≡ true)
    ⊎ ((includes transient_hold_statuses r.status ≡ true)
        × ((e : ℕ) × (r.expires_at ≡ some e) × (now < e)))

no_conflict :
    (now v a b : ℕ) (exclude : Option ℕ) (r : Reservation)
    → reservation_conflicts now v a b exclude r ≡ false
    → r.vehicle_id ≡ v
    → exclude ≢ some r.id
    → HoldsVehicle now r
    → IsDisjoint r.pickup_at r.return_at a b
unfolding reservation_conflicts
no_conflict now v a b none r h e n o = ground arith
no_conflict now v a b (some x) r h e n o = ground arith

no_block :
    (v a b : ℕ) (k : VehicleBlock)
    → block_conflicts v a b k ≡ false
    → k.vehicle_id ≡ v
    → IsDisjoint k.start_at k.end_at a b
unfolding block_conflicts
no_block v a b k h e = ground arith

-- If a vehicle is available for a period, then no other reservation that holds it (a durable one
-- whatever its deadline, a checkout hold before its deadline) and no block shares a moment with the
-- period, there is no safety block, and the listing is live.
pub available_excludes :
    (env : Env) (db : Db) (v a b : ℕ) (exclude : Option ℕ)
    → is_vehicle_available env db v a b exclude ≡ true
    → ((r : Reservation)
        → Memᴰ r db.reservations
        → r.vehicle_id ≡ v
        → exclude ≢ some r.id
        → HoldsVehicle env.now r
        → IsDisjoint r.pickup_at r.return_at a b)
      × ((k : VehicleBlock)
          → Memᴰ k db.vehicle_blocks
          → k.vehicle_id ≡ v
          → IsDisjoint k.start_at k.end_at a b)
      × (has_safety_block db v ≡ false)
      × (found_listed (find_vehicle v db.vehicles) ≡ true)
unfolding is_vehicle_available block_conflicts
available_excludes env db v a b exclude h = (
  λ r m e n o.
      no_conflict env.now v a b exclude r
        (any-false (reservation_conflicts env.now v a b exclude) db.reservations r (ground arith) m)
        e n o,
  λ k m e.
      no_block v a b k (any-false (block_conflicts v a b) db.vehicle_blocks k (ground arith) m) e,
  ground arith,
  ground arith,
)
