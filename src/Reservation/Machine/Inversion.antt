-- ===== src/Reservation/Machine/Inversion.antt =====
-- What a successful `transitionReservation` says of the tables before and after it.
use rent_a_4_wheel.Prelude.{
  ℕ, ◌≡◌, refl, Bool, true, false, not, ◌⊎◌, inl, inr, some, nat_eq, ◌==◌, nat_beq_iff, ok, guard,
  >>=-eq-ok, guard-eq-ok, arith, if◌then◌else◌,
}
use rent_a_4_wheel.Schema.Enums.{ReservationStatus, status_eq}
use rent_a_4_wheel.Schema.Booking.{Reservation}
use rent_a_4_wheel.Schema.Database.{Db, Env, find_reservation}
use rent_a_4_wheel.Finance.Locks.{lock_reservation}
use rent_a_4_wheel.Reservation.Transitions.{is_transition_allowed}
use rent_a_4_wheel.Reservation.Machine.{
  UpdateInput, TransitionParams, transition_reservation, assert_transition_allowed, start_gate,
  completion_gate, reopens, cancellation_gate, compare_and_swap, swapped, plan_cancellation,
}

-- The steps of a transition that went through.
pub record Swap (env : Env) (p : TransitionParams) (db db' : Db) : Type 0 where
  pub current : Reservation
  pub kept : UpdateInput
  pub changes : UpdateInput
  pub found : find_reservation p.id db.reservations ≡ some current
  pub legal : (p.force ≡ true) ⊎ (is_transition_allowed p.from p.to ≡ true)
  pub starts : start_gate env db p ≡ ok tt
  pub completes : completion_gate env db p current ≡ ok kept
  pub closed : reopens p.to current ≡ false
  pub cancels : cancellation_gate env db p current kept ≡ ok changes
  pub swapped_one : swapped p db.reservations ≡ 1
  pub planned :
      plan_cancellation env p
        (record db { reservations = compare_and_swap p changes db.reservations })
      ≡ ok db'

legal_cases :
    (f : Bool) (a b : ReservationStatus) {u : Unit {0}}
    → (if f then ok tt else assert_transition_allowed a b) ≡ ok u
    → (f ≡ true) ⊎ (is_transition_allowed a b ≡ true)
unfolding assert_transition_allowed
legal_cases true a b h = inl refl
legal_cases false a b h = inr (guard-eq-ok _ _ h)

lock_found :
    (env : Env) (id : ℕ) (db : Db) (r : Reservation)
    → lock_reservation env id db ≡ ok r
    → find_reservation id db.reservations ≡ some r
unfolding lock_reservation
lock_found env id db r h = ground arith

pub transition-Swap :
    (env : Env) (p : TransitionParams) (db db' : Db)
    → transition_reservation env p db ≡ ok db'
    → Swap env p db db'
unfolding transition_reservation
transition-Swap env p db db' h =
    let (r, l, h1) = >>=-eq-ok (lock_reservation env p.id db) _ h in
    let (_, a, h2) =
      >>=-eq-ok (if p.force then ok tt else assert_transition_allowed p.from p.to) _ h1 in
    let (_, s, h3) = >>=-eq-ok (start_gate env db p) _ h2 in
    let (kept, c, h4) = >>=-eq-ok (completion_gate env db p r) _ h3 in
    let (_, o, h5) = >>=-eq-ok (guard (not (reopens p.to r)) _) _ h4 in
    let (changes, k, h6) = >>=-eq-ok (cancellation_gate env db p r kept) _ h5 in
    let (_, w, h7) = >>=-eq-ok (guard (swapped p db.reservations == 1) _) _ h6 in
    record {
      current = r;
      kept = kept;
      changes = changes;
      found = lock_found env p.id db r l;
      legal = legal_cases p.force p.from p.to a;
      starts = ground (arith, s);
      completes = c;
      closed = ground (arith, guard-eq-ok _ _ o);
      cancels = k;
      swapped_one = (nat_beq_iff _ _).0 (guard-eq-ok _ _ w);
      planned = h7;
    }
