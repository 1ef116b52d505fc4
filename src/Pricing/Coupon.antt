-- ===== src/Pricing/Coupon.antt =====
-- `isCouponValid` of src/lib/pricing.ts.
use rent_a_4_wheel.Prelude.{
  ℕ, ◌≤◌, ◌<◌, ◌≡◌, ◌≢◌, ◌↔◌, ◌⊎◌, Bool, true, false, not, ◌&&◌, Option, none, some, List, [], ◌∷◌,
  ltb, leb, length, nat_eq, ◌==◌, includes, if◌then◌else◌, arith,
}

pub record Coupon : Type 0 where
  pub is_active : Bool
  pub starts_at : ℕ
  pub expires_at : ℕ
  pub min_rental_days : Option ℕ
  pub max_uses : Option ℕ
  pub used_count : ℕ
  pub applicable_vehicle_ids : List ℕ

-- The `reason` of a refusal.
pub data CouponVerdict : Type 0 where
  valid not_active not_yet_active expired : CouponVerdict
  minimum_rental usage_limit wrong_vehicle : CouponVerdict

-- `coupon.minRentalDays && days < coupon.minRentalDays`; 0 is falsy, and no number is below it.
below_minimum : Option ℕ → ℕ → Bool
below_minimum none days = false
below_minimum (some m) days = not (m == 0) && ltb days m

-- `coupon.maxUses && coupon.usedCount >= coupon.maxUses`: 0 means no limit.
used_up : Option ℕ → ℕ → Bool
used_up none used = false
used_up (some m) used = not (m == 0) && leb m used

-- `ids.length > 0 && !ids.includes(vehicleId)`.
wrong_for : List ℕ → ℕ → Bool
wrong_for ids vehicle_id = ltb 0 (length ids) && not (includes ids vehicle_id)

unfoldable pub is_coupon_valid : Coupon → (rental_days vehicle_id now : ℕ) → CouponVerdict
unfolding below_minimum used_up wrong_for
is_coupon_valid c rental_days vehicle_id now =
    if not c.is_active
    then not_active
    else if ltb now c.starts_at
    then not_yet_active
    else if ltb c.expires_at now
    then expired
    else if below_minimum c.min_rental_days rental_days
    then minimum_rental
    else if used_up c.max_uses c.used_count
    then usage_limit
    else if wrong_for c.applicable_vehicle_ids vehicle_id
    then wrong_vehicle
    else valid

-- A limit that is set and not zero.
abbrev pub Limit : (ℕ → Type 0) → Option ℕ → Type 0
Limit P none = Unit {0}
Limit P (some m) = m ≢ 0 → P m

pub record Usable (c : Coupon) (rental_days vehicle_id now : ℕ) : Type 0 where
  pub live : c.is_active ≡ true
  pub started : c.starts_at ≤ now
  pub unexpired : now ≤ c.expires_at
  pub long_enough : Limit (λ m. m ≤ rental_days) c.min_rental_days
  pub uses_left : Limit (λ m. c.used_count < m) c.max_uses
  pub on_vehicle :
      (c.applicable_vehicle_ids ≡ []) ⊎ (includes c.applicable_vehicle_ids vehicle_id ≡ true)

minimum_lem : (o : Option ℕ) (days : ℕ) → (below_minimum o days ≡ false) ↔ Limit (λ m. m ≤ days) o
unfolding below_minimum
minimum_lem none days = ground arith
minimum_lem (some m) days = ground arith

used_lem : (o : Option ℕ) (used : ℕ) → (used_up o used ≡ false) ↔ Limit (λ m. used < m) o
unfolding used_up
used_lem none used = ground arith
used_lem (some m) used = ground arith

vehicle_lem :
    (ids : List ℕ) (v : ℕ) → (wrong_for ids v ≡ false) ↔ ((ids ≡ []) ⊎ (includes ids v ≡ true))
unfolding wrong_for
vehicle_lem [] v = ground arith
vehicle_lem (x ∷ ids) v = ground arith

-- The ladder falls through exactly when no test fires.
falls_through :
    (c : Coupon) (days v now : ℕ)
    → (is_coupon_valid c days v now ≡ valid) ↔ (
        (c.is_active ≡ true)
        × (c.starts_at ≤ now)
        × (now ≤ c.expires_at)
        × (below_minimum c.min_rental_days days ≡ false)
        × (used_up c.max_uses c.used_count ≡ false)
        × (wrong_for c.applicable_vehicle_ids v ≡ false))
unfolding is_coupon_valid
falls_through c days v now = ground arith

-- A coupon is accepted exactly when it is active, inside its period (both ends included), the
-- rental is long enough, a use is left, and the vehicle is listed or the list is empty.
is_coupon_valid-Usable :
    (c : Coupon) (rental_days vehicle_id now : ℕ)
    → (is_coupon_valid c rental_days vehicle_id now ≡ valid) ↔ Usable c rental_days vehicle_id now
is_coupon_valid-Usable c days v now = (
  λ h.
      let t = (falls_through c days v now).0 h in
      record {
        live = t.0;
        started = t.1;
        unexpired = t.2;
        long_enough = (minimum_lem c.min_rental_days days).0 t.3;
        uses_left = (used_lem c.max_uses c.used_count).0 t.4;
        on_vehicle = (vehicle_lem c.applicable_vehicle_ids v).0 t.5;
      },
  λ u. (falls_through c days v now).1 (
    u.live,
    u.started,
    u.unexpired,
    (minimum_lem c.min_rental_days days).1 u.long_enough,
    (used_lem c.max_uses c.used_count).1 u.uses_left,
    (vehicle_lem c.applicable_vehicle_ids v).1 u.on_vehicle,
  ),
)
