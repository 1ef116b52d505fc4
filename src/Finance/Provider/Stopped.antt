-- ===== src/Finance/Provider/Stopped.antt =====
-- After a cancellation by src/lib/reservation-state-machine.ts, src/lib/provider-execution-guard.ts lets no
-- charge of the reservation through.
use rent_a_4_wheel.Prelude.{
  ℕ, ◌≡◌, ◌≢◌, ◌∙◌, Bool, true, some, List, includes, nat_eq, option_eq, ok, >>=-eq-ok, ap, sym,
  subst, arith,
}
use rent_a_4_wheel.Schema.Enums.{status_eq, disposition_eq, OperationKind, operation_kind_eq}
use rent_a_4_wheel.Schema.Booking.{Reservation}
use rent_a_4_wheel.Schema.Money.{FinancialOperation}
use rent_a_4_wheel.Schema.Database.{Db, Env, find_reservation}
use rent_a_4_wheel.Reservation.Transitions.{cancelled_statuses}
use rent_a_4_wheel.Reservation.Machine.{TransitionParams, transition_reservation}
use rent_a_4_wheel.Reservation.Machine.Exclusion.{IsKeyed, transition_lem}
use rent_a_4_wheel.Finance.Provider.{
  Ownership, is_admission, deposit_authority, rental_authority, admission, authority_for,
  authority_on, assert_dispatch_authority,
}

no_rental :
    (now : ℕ) (r : Reservation) (db db' : Db)
    → includes cancelled_statuses r.status ≡ true
    → rental_authority now r db ≢ ok db'
unfolding rental_authority
no_rental now r db db' c h = ground arith

no_deposit :
    (op : FinancialOperation) (r : Reservation) (db db' : Db)
    → includes cancelled_statuses r.status ≡ true
    → deposit_authority op r db ≢ ok db'
unfolding deposit_authority
no_deposit op r db db' c h = ground arith

module _ (env : Env) (is_released : OperationKind → Bool) (owners : List Ownership) where
  no_charge :
      (k : OperationKind) (op : FinancialOperation) (r : Reservation) (db db' : Db)
      → is_admission k ≡ true
      → includes cancelled_statuses r.status ≡ true
      → authority_for env is_released owners k op r db ≢ ok db'
  unfolding authority_for is_admission
  no_charge OperationKind.rental op r db db' a c h = no_rental env.now r db db' c h
  no_charge OperationKind.deposit op r db db' a c h = no_deposit op r db db' c h
  no_charge _ op r db db' a c h = cc

  refused :
      (op : FinancialOperation) (id : ℕ) (r : Reservation) (db db' : Db)
      → is_admission op.kind ≡ true
      → find_reservation id db.reservations ≡ some r
      → includes cancelled_statuses r.status ≡ true
      → authority_on env is_released owners op (some id) db ≢ ok db'
  unfolding authority_on
  refused op id r db db' a f c h =
      let (_, _, h1) = >>=-eq-ok (admission env is_released owners op id db) _ h in
      no_charge op.kind op r db db' a c (rw f at h1)

-- Once a transition to a cancelled status is committed, forced or not, no operation that charges the
-- rental or authorizes the deposit of the reservation is dispatched from the tables that it leaves, at
-- any time.
pub cancelled_stops_charges :
    (env later : Env) (is_released : OperationKind → Bool) (owners : List Ownership)
    (p : TransitionParams) (op : FinancialOperation) (db db' db'' : Db)
    → IsKeyed p.id db
    → includes cancelled_statuses p.to ≡ true
    → transition_reservation env p db ≡ ok db'
    → is_admission op.kind ≡ true
    → op.reservation_id ≡ some p.id
    → assert_dispatch_authority later is_released owners op db' ≢ ok db''
unfolding assert_dispatch_authority
cancelled_stops_charges env later is_released owners p op db db' db'' u c h a e k =
    let t = transition_lem env p db db' u h in
    refused later is_released owners op p.id t.1 db' db'' a t.5
      (subst (λ s. includes cancelled_statuses s ≡ true) (sym t.6) c)
      (ap (λ o. authority_on later is_released owners op o db') (sym e) ∙ k)
