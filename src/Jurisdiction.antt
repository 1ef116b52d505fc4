-- ===== src/Jurisdiction.antt =====
-- src/lib/jurisdiction.ts: whether a jurisdiction is released for an action. Every action asks for the
-- same twelve gates.
pub mod Visible
use rent_a_4_wheel.Prelude.{
  ℕ, ◌≡◌, Bool, true, false, not, ◌&&◌, ◌||◌, Option, none, some, List, [], ◌∷◌, if◌then◌else◌, leb,
  nat_eq, Eq, ◌==◌, find, select, any, Result, ok, err, guard, or_throw, ◌>>=◌, ◌>>◌, nat_beq,
  arith,
}
use rent_a_4_wheel.Schema.Booking.{Reservation}
use rent_a_4_wheel.Schema.Fleet.{Vehicle, Jurisdiction, JurisdictionApproval, Gate, gate_eq}
use rent_a_4_wheel.Schema.Database.{
  Db, Env, Error, not_found, jurisdiction_unavailable, find_reservation, find_vehicle,
}

-- Codes are compared as texts.
abbrev pub code_beq : List ℕ → List ℕ → Bool
code_beq [] [] = true
code_beq [] (b ∷ bs) = false
code_beq (a ∷ as') [] = false
code_beq (a ∷ as') (b ∷ bs) = nat_beq a b && code_beq as' bs

is_upper : ℕ → Bool
is_upper c = leb b'A' c && leb c b'Z'

-- The pattern /^[A-Z]{2}$/.
is_code : List ℕ → Bool
unfolding is_upper
is_code (a ∷ b ∷ []) = is_upper a && is_upper b
is_code _ = false

abbrev pub jurisdiction_gates : List Gate
jurisdiction_gates =
    Gate.entity ∷ Gate.legal ∷ Gate.insurance ∷ Gate.tax ∷ Gate.privacy_retention ∷ Gate.operations
    ∷ Gate.payments ∷ Gate.host_payouts ∷ Gate.local_restrictions ∷ Gate.host_eligibility
    ∷ Gate.guest_eligibility ∷ Gate.vehicle_eligibility ∷ []

-- `orderBy: version desc`.
insert_version : JurisdictionApproval → List JurisdictionApproval → List JurisdictionApproval
insert_version a [] = a ∷ []
insert_version a (b ∷ bs) = if leb b.version a.version then a ∷ b ∷ bs else b ∷ insert_version a bs

by_version_desc : List JurisdictionApproval → List JurisdictionApproval
unfolding insert_version
by_version_desc [] = []
by_version_desc (a ∷ rest) = insert_version a (by_version_desc rest)

-- `versions`: the approvals of the code that are in effect, the newest first.
versions : Env → List ℕ → List JurisdictionApproval → List JurisdictionApproval
unfolding by_version_desc
versions env code approvals =
    by_version_desc
      (select (λ v. code_beq v.jurisdiction_code code && leb v.effective_at env.now) approvals)

ended : Env → Option ℕ → Bool
ended env none = false
ended env (some e) = leb e env.now

-- The test that `selected.some` makes on the newest approval of a gate.
gate_blocked : Env → Option JurisdictionApproval → Bool
unfolding ended
gate_blocked env none = true
gate_blocked env (some v) = not v.is_ready || not v.is_reviewed || ended env v.ends_at

gates_blocked : Env → List JurisdictionApproval → Bool
unfolding gate_blocked
gates_blocked env vs =
    any (λ g. gate_blocked env (find (λ v. v.category == g) vs)) jurisdiction_gates

unfoldable pub jurisdiction_decision : Env → Db → Option (List ℕ) → Result Error (Unit {0})
unfolding is_code versions gates_blocked
jurisdiction_decision env db none = err jurisdiction_unavailable
jurisdiction_decision env db (some code) = do
  guard (is_code code && not env.is_production) jurisdiction_unavailable
  row ← or_throw (find (λ j. code_beq j.code code) db.jurisdictions) jurisdiction_unavailable
  guard row.is_staging jurisdiction_unavailable
  guard (not (gates_blocked env (versions env code db.jurisdiction_approvals)))
      jurisdiction_unavailable

unfoldable pub require_vehicle_jurisdiction : Env → Db → ℕ → Result Error (Unit {0})
unfolding jurisdiction_decision
require_vehicle_jurisdiction env db vehicle_id = do
  v ← or_throw (find_vehicle vehicle_id db.vehicles) not_found
  jurisdiction_decision env db v.jurisdiction_code

unfoldable pub is_ok : Result Error (Unit {0}) → Bool
is_ok (ok u) = true
is_ok (err e) = false

unfoldable pub has_code : List (List ℕ) → List ℕ → Bool
has_code codes code = any (λ c. code_beq c code) codes

-- The staging jurisdictions whose decision does not throw.
unfoldable pub visible_jurisdictions : Env → Db → List Jurisdiction → List (List ℕ)
unfolding is_ok
visible_jurisdictions env db [] = []
visible_jurisdictions env db (row ∷ rows) =
    let rest = visible_jurisdictions env db rows in
    if row.is_staging && is_ok (jurisdiction_decision env db (some row.code))
    then row.code ∷ rest
    else rest

-- The code of the reservation, or that of its vehicle where it has none.
own_or_vehicle : Env → Db → Option (List ℕ) → ℕ → Result Error (Unit {0})
unfolding require_vehicle_jurisdiction
own_or_vehicle env db none v = require_vehicle_jurisdiction env db v
own_or_vehicle env db (some code) v = jurisdiction_decision env db (some code)

unfoldable pub require_reservation_jurisdiction : Env → Db → ℕ → Result Error (Unit {0})
unfolding own_or_vehicle
require_reservation_jurisdiction env db id = do
  r ← or_throw (find_reservation id db.reservations) not_found
  own_or_vehicle env db r.jurisdiction_code r.vehicle_id
