-- ===== src/Finance/Locks.antt =====
-- src/lib/financial-locks.ts: taking the reservation lock, and what a trip start needs of the money.
use rent_a_4_wheel.Prelude.{
  ℕ, ◌≡◌, Bool, Bool-cases, inl, inr, not, ◌&&◌, some, nat_eq, option_eq, ◌==◌, any, Result, ok,
  err, guard, or_throw, ◌>>=◌, ◌>>◌,
}
use rent_a_4_wheel.Schema.Enums.{FinancialDisposition, disposition_eq}
use rent_a_4_wheel.Schema.Booking.{Reservation}
use rent_a_4_wheel.Schema.Database.{
  Db, Env, Error, not_found, event_lease_lost, claim_outstanding, safety_review, financial_state,
  deposit_missing, find_reservation,
}
use rent_a_4_wheel.Jurisdiction.{require_reservation_jurisdiction}
use rent_a_4_wheel.Finance.Projection.{snapshot, money_available, deposit_valid}

unfoldable pub assert_event_fence : Env → Result Error (Unit {0})
assert_event_fence env = guard env.fence_valid event_lease_lost

-- The row that the lock reads back.
unfoldable pub lock_reservation : Env → ℕ → Db → Result Error Reservation
unfolding assert_event_fence
lock_reservation env id db = do
  assert_event_fence env
  or_throw (find_reservation id db.reservations) not_found

no_row :
    {A : Type 0} (run : Reservation → Result Error A) (a : A)
    → ¬ ((◌≡◌ {A = Result Error A}) (err event_lease_lost) (ok a))
no_row run a h = cc

-- What succeeds under the lock succeeds with the row that the tables have.
pub locked_row :
    {A : Type 0} (env : Env) (id : ℕ) (db : Db) (r : Reservation)
    (run : Reservation → Result Error A) (a : A)
    → find_reservation id db.reservations ≡ some r
    → (lock_reservation env id db >>= run) ≡ ok a
    → run r ≡ ok a
unfolding lock_reservation assert_event_fence
locked_row env id db r run a f h = elim (Bool-cases env.fence_valid) [
  | inl b ↦ rw (b, f) at h
  | inr b ↦ absurd (no_row run a (rw b at h))
]

-- `serviceCase.count` of open claims and disputes on the reservation.
unfoldable pub has_open_claim : Db → ℕ → Bool
has_open_claim db id =
    any (λ c. c.reservation_id == some id && c.is_claim && not c.is_closed) db.service_cases

unfoldable pub has_safety_block : Db → ℕ → Bool
has_safety_block db vehicle_id =
    any (λ c. c.vehicle_id == some vehicle_id && c.safety_block) db.service_cases

unfoldable pub assert_financial_trip_start : Env → Db → ℕ → Result Error (Unit {0})
unfolding has_open_claim has_safety_block
assert_financial_trip_start env db id = do
  require_reservation_jurisdiction env db id
  guard (not (has_open_claim db id)) claim_outstanding
  r ← or_throw (find_reservation id db.reservations) not_found
  guard (not (has_safety_block db r.vehicle_id)) safety_review
  guard (r.financial_disposition == FinancialDisposition.opened && money_available (snapshot db r))
      financial_state
  guard (deposit_valid env.now (snapshot db r)) deposit_missing
