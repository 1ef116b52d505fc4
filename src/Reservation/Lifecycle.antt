-- ===== src/Reservation/Lifecycle.antt =====
-- Histories of a reservation under the transition table of src/lib/reservation-state-machine.ts.
use mathlib.Core.List.{Memᴰ}
use rent_a_4_wheel.Prelude.{
  ℕ, ◌≡◌, ◌≢◌, sym, ◌∙◌, Bool, true, false, ◌⊎◌, inl, inr, some, List, [], ◌∷◌, nat_eq, includes,
  ok, arith,
}
use rent_a_4_wheel.Schema.Enums.{
  ReservationStatus, draft, checkout_hold, awaiting_payment, payment_failed, confirmed, active,
  cancelled_by_customer, cancelled_by_host, expired, status_eq, status_beq_iff,
}
use rent_a_4_wheel.Schema.Booking.{Reservation}
use rent_a_4_wheel.Schema.Database.{Db, Env, find_reservation}
use rent_a_4_wheel.Reservation.Transitions.{is_transition_allowed, can_customer_cancel, allowed}
use rent_a_4_wheel.Reservation.Machine.{
  TransitionParams, transition_reservation, cancellable_statuses, apply_update,
}
use rent_a_4_wheel.Reservation.Machine.Inversion.{transition-Swap}
use rent_a_4_wheel.Reservation.Machine.Exclusion.{
  IsKeyed, Swap-from, Swap-row, Swap-others, Swap-IsKeyed, apply_update-status,
}

-- Whenever the cancel button is offered to the customer, the table has the transition and the
-- cancellation gate accepts the status.
cancel_button_sound :
    (status : ReservationStatus) (pickup_at now : ℕ)
    → can_customer_cancel status pickup_at now ≡ allowed
    → (is_transition_allowed status cancelled_by_customer ≡ true)
      × (includes cancellable_statuses status ≡ true)
unfolding can_customer_cancel is_transition_allowed
cancel_button_sound status pickup_at now h = ground arith

-- Not confirmed: before the confirmation, or ended without it.
abbrev pub unconfirmed : ReservationStatus → Bool
unconfirmed s =
    includes
      (draft ∷ checkout_hold ∷ awaiting_payment ∷ payment_failed ∷ cancelled_by_customer
        ∷ cancelled_by_host ∷ expired ∷ [])
      s

leaves_by_confirmed :
    (from to : ReservationStatus)
    → is_transition_allowed from to ≡ true
    → unconfirmed from ≡ true
    → (to ≡ confirmed) ⊎ (unconfirmed to ≡ true)
unfolding is_transition_allowed
leaves_by_confirmed from to h u = ground (arith, status_beq_iff to confirmed)

-- The statuses that unforced transitions give one reservation, among transitions of the others.
pub data Run (id : ℕ) : Db → List ReservationStatus → Db → Type 0 where
  here : (db : Db) → Run id db [] db
  moves :
      (env : Env) (p : TransitionParams) (db db1 db2 : Db) (visited : List ReservationStatus)
      → p.force ≡ false
      → p.id ≡ id
      → transition_reservation env p db ≡ ok db1
      → Run id db1 visited db2
      → Run id db (p.to ∷ visited) db2
  other :
      (env : Env) (p : TransitionParams) (db db1 db2 : Db) (visited : List ReservationStatus)
      → p.id ≢ id
      → transition_reservation env p db ≡ ok db1
      → Run id db1 visited db2
      → Run id db visited db2

-- One step of the reservation itself: an edge of the table between its two rows.
move-edge :
    (id : ℕ) (env : Env) (p : TransitionParams) (db db1 : Db) (r : Reservation)
    → IsKeyed id db
    → p.force ≡ false
    → p.id ≡ id
    → transition_reservation env p db ≡ ok db1
    → find_reservation id db.reservations ≡ some r
    → (is_transition_allowed r.status p.to ≡ true)
      × ((r' : Reservation) × (find_reservation id db1.reservations ≡ some r') × (r'.status ≡ p.to))
      × IsKeyed id db1
move-edge id env p db db1 r u n i h f =
    let s = transition-Swap env p db db1 h in
    let keyed : IsKeyed p.id db = rw i u in
    let row : Reservation = apply_update p.to s.changes s.current in
    (
      ground (arith, s.legal, s.found, Swap-from s keyed),
      (row, ground (arith, Swap-row s keyed), apply_update-status p.to s.changes s.current),
      Swap-IsKeyed s id u,
    )

-- However transitions interleave, where none is forced on the reservation itself (on others they may
-- be), a reservation that was not yet confirmed and is ACTIVE at the end has been CONFIRMED on the way.
pub active_needs_confirmed :
    (id : ℕ) {db db' : Db} {visited : List ReservationStatus} (r r' : Reservation)
    → Run id db visited db'
    → IsKeyed id db
    → find_reservation id db.reservations ≡ some r
    → unconfirmed r.status ≡ true
    → find_reservation id db'.reservations ≡ some r'
    → r'.status ≡ active
    → Memᴰ confirmed visited
active_needs_confirmed id r r' (here db) u f n f' a = ground arith
active_needs_confirmed id r r' (moves env p db db1 db2 visited nf i h run) u f n f' a =
    let (e, (s, fs, es), k) = move-edge id env p db db1 r u nf i h f in
    elim (leaves_by_confirmed r.status p.to e n) [
      | inl c ↦ Memᴰ.head (sym c)
      | inr still ↦ Memᴰ.tail (active_needs_confirmed id s r' run k fs (rw es still) f' a)
    ]
active_needs_confirmed id r r' (other env p db db1 db2 visited ne h run) u f n f' a =
    let s = transition-Swap env p db db1 h in
    active_needs_confirmed id r r' run (Swap-IsKeyed s id u)
      (Swap-others s id (λ e. ne (sym e)) ∙ f) n f' a
