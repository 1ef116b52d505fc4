-- ===== src/Finance/Deposits/Late.antt =====
-- A released deposit of src/lib/deposit-authorization.ts is not revived by late observations.
use rent_a_4_wheel.Prelude.{
  ℕ, ◌≡◌, refl, Bool, false, Option, none, some, nat_eq, option_eq, ◌==◌, ok, arith,
}
use rent_a_4_wheel.Schema.Enums.{intent_status_eq, payment_status_eq}
use rent_a_4_wheel.Schema.Booking.{Reservation}
use rent_a_4_wheel.Schema.Money.{SecurityDeposit, FinancialOperation}
use rent_a_4_wheel.Schema.Database.{Db, Env, find_deposit}
use rent_a_4_wheel.Finance.Projection.{
  snapshot, deposit_valid, deposit_authorized, authorization_valid,
}
use rent_a_4_wheel.Finance.Deposits.{Intent, sync_deposit_intent}
use rent_a_4_wheel.Finance.Deposits.Released.{IsReleased, sync-IsReleased}

-- Observations of intents, of any reservations, at any times; one that fails changes nothing.
pub data Observed (db : Db) : Db → Type 0 where
  here : Observed db db
  next :
      (env : Env) (reservation_id : ℕ) (i : Intent) (v : Bool) {db' db'' : Db}
      → Observed db db'
      → sync_deposit_intent env reservation_id i db' ≡ ok (v, db'')
      → Observed db db''

Observed-IsReleased :
    (id intent_id : ℕ) {db db' : Db}
    → Observed db db'
    → IsReleased id intent_id db
    → IsReleased id intent_id db'
Observed-IsReleased id intent_id here s = s
Observed-IsReleased id intent_id (next env r i v {db'} {db''} o h) s =
    sync-IsReleased id intent_id env r i v db' db'' h (Observed-IsReleased id intent_id o s)

authorization_released :
    (now required : ℕ) (d : SecurityDeposit) (o : Option FinancialOperation) (t : ℕ)
    → d.released_at ≡ some t
    → deposit_authorized now required (some d) o ≡ false
unfolding deposit_authorized authorization_valid
authorization_released now required d none t e = refl
authorization_released now required d (some op) t e = ground arith

released_invalid :
    (now : ℕ) (r : Reservation) (db : Db) (d : SecurityDeposit) (t : ℕ)
    → find_deposit r.id db.security_deposits ≡ some d
    → d.released_at ≡ some t
    → (r.deposit_cents == 0) ≡ false
    → deposit_valid now (snapshot db r) ≡ false
unfolding deposit_valid snapshot
released_invalid now r db d t f e n = rw (n, f) (authorization_released now r.deposit_cents d _ t e)

-- After the deposit of a booking was released, whatever observations of intents arrive in whatever order
-- and at whatever time, the deposit does not count as valid again.
pub released_stays_released :
    (now intent_id : ℕ) (r : Reservation) (db db' : Db)
    → IsReleased r.id intent_id db
    → Observed db db'
    → (r.deposit_cents == 0) ≡ false
    → deposit_valid now (snapshot db' r) ≡ false
released_stays_released now intent_id r db db' s o n =
    let k = Observed-IsReleased r.id intent_id o s in
    released_invalid now r db' k.row k.time k.found k.released n
