-- ===== src/Reservation/Machine/Exclusion.antt =====
-- The compare-and-swap of a transition: which row it changes, and that one of two rivals loses.
use rent_a_4_wheel.Prelude.{
  ℕ, ◌≤◌, ◌≡◌, ◌≢◌, refl, true, ◌&&◌, ◌⊎◌, some, nat_eq, ◌==◌, includes, count_by, Bool-cases, inl,
  inr, find-count_by, find-update_where_self, find-update_where_other, count_by-update_where, ok,
  arith,
}
use rent_a_4_wheel.Schema.Enums.{ReservationStatus, status_eq, status_beq_iff}
use rent_a_4_wheel.Schema.Booking.{Reservation}
use rent_a_4_wheel.Schema.Database.{Db, Env, find_reservation}
use rent_a_4_wheel.Finance.ReleasePlan.Frame.{plan_all-reservations}
use rent_a_4_wheel.Reservation.Transitions.{is_transition_allowed, cancelled_statuses}
use rent_a_4_wheel.Reservation.Machine.{
  UpdateInput, TransitionParams, transition_reservation, apply_update, compare_and_swap, swapped,
  swaps, plan_cancellation,
}
use rent_a_4_wheel.Reservation.Machine.Inversion.{Swap, transition-Swap}

-- `id` is a primary key.
abbrev pub IsKeyed : ℕ → Db → Type 0
IsKeyed id db = count_by (λ r. r.id == id) db.reservations ≤ 1

plan-reservations :
    (env : Env) (p : TransitionParams) (db db' : Db)
    → plan_cancellation env p db ≡ ok db'
    → db'.reservations ≡ db.reservations
unfolding plan_cancellation
plan-reservations env p db db' h = elim (Bool-cases (includes cancelled_statuses p.to)) [
  | inl e ↦ plan_all-reservations env p.id db db' (rw e at h)
  | inr e ↦ ground arith
]

pub Swap-reservations :
    {env : Env} {p : TransitionParams} {db db' : Db} (s : Swap env p db db')
    → db'.reservations ≡ compare_and_swap p s.changes db.reservations
Swap-reservations {env} {p} {db} {db'} s =
    plan-reservations env p
      (record db { reservations = compare_and_swap p s.changes db.reservations }) db' s.planned

swaps-from : (p : TransitionParams) (r : Reservation) → swaps p r ≡ true → r.status ≡ p.from
unfolding swaps
swaps-from p r h = ground (arith, status_beq_iff r.status p.from)

-- The row that was read passed the condition of the write.
pub Swap-from :
    {env : Env} {p : TransitionParams} {db db' : Db} (s : Swap env p db db')
    → IsKeyed p.id db
    → (swaps p s.current ≡ true) × (s.current.status ≡ p.from)
unfolding find_reservation swapped
Swap-from {env} {p} {db} {db'} s u =
    let e =
      find-count_by (λ r. r.id == p.id) (swaps p) db.reservations s.current u s.found
        s.swapped_one in
    (e, swaps-from p s.current e)

pub Swap-row :
    {env : Env} {p : TransitionParams} {db db' : Db} (s : Swap env p db db')
    → IsKeyed p.id db
    → find_reservation p.id db'.reservations ≡ some (apply_update p.to s.changes s.current)
unfolding find_reservation compare_and_swap
Swap-row {env} {p} {db} {db'} s u = rw (Swap-reservations s) (
    find-update_where_self (λ r. r.id == p.id) (swaps p) (apply_update p.to s.changes)
      db.reservations s.current (λ r. refl) s.found (Swap-from s u).0)

pub Swap-others :
    {env : Env} {p : TransitionParams} {db db' : Db} (s : Swap env p db db') (j : ℕ)
    → j ≢ p.id
    → find_reservation j db'.reservations ≡ find_reservation j db.reservations
unfolding find_reservation compare_and_swap
Swap-others {env} {p} {db} {db'} s j n = rw (Swap-reservations s) (
    find-update_where_other (λ r. r.id == p.id) (swaps p) (λ r. r.id == j)
      (apply_update p.to s.changes) db.reservations (λ r e. ground arith))

pub Swap-IsKeyed :
    {env : Env} {p : TransitionParams} {db db' : Db} (s : Swap env p db db') (j : ℕ)
    → IsKeyed j db
    → IsKeyed j db'
unfolding compare_and_swap
Swap-IsKeyed {env} {p} {db} {db'} s j u = rw (Swap-reservations s) (
    omega (
      arith,
      count_by-update_where (λ r. r.id == j) (λ r. r.id == p.id && swaps p r)
          (apply_update p.to s.changes) db.reservations (λ r. refl),
    ))

pub apply_update-status :
    (to : ReservationStatus) (c : UpdateInput) (r : Reservation) → (apply_update to c r).status ≡ to
unfolding apply_update
apply_update-status to c r = refl

-- A transition that goes through found the row in `from`, by the table or by force, leaves it in
-- `to`, and changes no other reservation.
pub transition_lem :
    (env : Env) (p : TransitionParams) (db db' : Db)
    → IsKeyed p.id db
    → transition_reservation env p db ≡ ok db'
    → (r r' : Reservation) × (find_reservation p.id db.reservations ≡ some r)
      × (r.status ≡ p.from)
      × ((p.force ≡ true) ⊎ (is_transition_allowed p.from p.to ≡ true))
      × (find_reservation p.id db'.reservations ≡ some r')
      × (r'.status ≡ p.to)
      × ((j : ℕ)
          → j ≢ p.id
          → find_reservation j db'.reservations ≡ find_reservation j db.reservations)
transition_lem env p db db' u h =
    let s = transition-Swap env p db db' h in
    (
      s.current,
      apply_update p.to s.changes s.current,
      s.found,
      (Swap-from s u).1,
      s.legal,
      Swap-row s u,
      apply_update-status p.to s.changes s.current,
      Swap-others s,
    )

-- Of two attempts to leave the same status the second fails: once a transition to another status
-- is committed, no transition of that reservation that expects the old status goes through, forced
-- or not.
pub rival_loses :
    (env env' : Env) (p q : TransitionParams) (db db' db'' : Db)
    → IsKeyed p.id db
    → q.id ≡ p.id
    → q.from ≡ p.from
    → p.from ≢ p.to
    → transition_reservation env p db ≡ ok db'
    → transition_reservation env' q db' ≢ ok db''
rival_loses env env' p q db db' db'' u i f n h k =
    let s = transition-Swap env p db db' h in
    let t = transition-Swap env' q db' db'' k in
    let from = (Swap-from t (rw i (Swap-IsKeyed s p.id u))).1 in
    n (ground (arith, from, i, t.found, Swap-row s u, apply_update-status p.to s.changes s.current))
