-- ===== src/Reservation/Machine/Guards.antt =====
-- What the gates of a transition guarantee, forced or not: deadlines, reopening, trip start and
-- cancellation.
use mathlib.Core.List.{Memᴰ}
use rent_a_4_wheel.Prelude.{
  ap, subst, List, [], ◌∷◌, option_eq, from_option, ℕ, ◌≡◌, ◌≢◌, ◌∙◌, true, false, ◌⊎◌, none, some,
  nat_eq, includes, inl, inr, ok, arith,
}
use rent_a_4_wheel.Schema.Enums.{
  ReservationStatus, FinancialDisposition, OperationKind, IntentStatus, checkout_hold,
  awaiting_payment, payment_failed, active, status_eq, disposition_eq, status_beq_iff,
  disposition_beq_iff,
}
use rent_a_4_wheel.Schema.Booking.{Reservation}
use rent_a_4_wheel.Schema.Money.{FinancialOperation, SecurityDeposit}
use rent_a_4_wheel.Schema.Database.{Db, Env, find_reservation, find_trip, find_deposit}
use rent_a_4_wheel.Finance.Locks.{assert_financial_trip_start, has_open_claim, has_safety_block}
use rent_a_4_wheel.Finance.Projection.{snapshot, money_available, deposit_valid}
use rent_a_4_wheel.Finance.Operations.Prepare.{IsPrepared}
use rent_a_4_wheel.Finance.ReleasePlan.{release_params, deposit_targets, current_target}
use rent_a_4_wheel.Finance.ReleasePlan.Coverage.{
  ArePlanned, plan_all-ArePlanned, deposit_targets-member, current_target-live, All-member,
}
use rent_a_4_wheel.Reservation.Transitions.{
  durable_blocking_statuses, blocking_reservation_statuses, cancelled_statuses,
}
use rent_a_4_wheel.Reservation.Machine.{
  UpdateInput, TransitionParams, transition_reservation, start_gate, completion_gate,
  cancellation_gate, reopens, apply_update, compare_and_swap, plan_cancellation, is_started,
  cancelled_disposition, cancellable_statuses,
}
use rent_a_4_wheel.Reservation.Machine.Inversion.{transition-Swap}
use rent_a_4_wheel.Reservation.Machine.Exclusion.{IsKeyed, Swap-from, Swap-row}

-- The gates rewrite the disposition of the update and nothing else.
completion-expires_at :
    (env : Env) (db : Db) (p : TransitionParams) (r : Reservation) (c : UpdateInput)
    → completion_gate env db p r ≡ ok c
    → c.expires_at ≡ p.changes.expires_at
unfolding completion_gate
completion-expires_at env db p r c h = ground arith

cancellation-expires_at :
    (env : Env) (db : Db) (p : TransitionParams) (r : Reservation) (k c : UpdateInput)
    → cancellation_gate env db p r k ≡ ok c
    → c.expires_at ≡ k.expires_at
unfolding cancellation_gate
cancellation-expires_at env db p r k c h = ground arith

cleared :
    (to : ReservationStatus) (c : UpdateInput) (r : Reservation)
    → c.expires_at ≡ none
    → includes durable_blocking_statuses to ≡ true
    → to ≢ payment_failed
    → (apply_update to c r).expires_at ≡ none
unfolding apply_update
cleared to c r e d n = ground (arith, status_beq_iff to payment_failed)

-- A transition into a durable status other than PAYMENT_FAILED leaves no checkout deadline on the
-- row, unless the caller gave one.
durable_clears_expiry :
    (env : Env) (p : TransitionParams) (db db' : Db) (r' : Reservation)
    → IsKeyed p.id db
    → p.changes.expires_at ≡ none
    → includes durable_blocking_statuses p.to ≡ true
    → p.to ≢ payment_failed
    → transition_reservation env p db ≡ ok db'
    → find_reservation p.id db'.reservations ≡ some r'
    → r'.expires_at ≡ none
durable_clears_expiry env p db db' r' u e d n h f =
    let s = transition-Swap env p db db' h in
    let same =
      cancellation-expires_at env db p s.current s.kept s.changes s.cancels
      ∙ completion-expires_at env db p s.current s.kept s.completes
      ∙ e in
    ground (arith, f, Swap-row s u, cleared p.to s.changes s.current same d n)

reopens-cases :
    (to : ReservationStatus) (r : Reservation)
    → reopens to r ≡ false
    → (r.financial_disposition ≢ FinancialDisposition.opened)
      ⊎ (includes cancelled_statuses r.status ≡ true)
    → includes blocking_reservation_statuses to ≡ false
unfolding reopens
reopens-cases to r h (inl d) =
    ground (arith, disposition_beq_iff r.financial_disposition FinancialDisposition.opened)
reopens-cases to r h (inr c) = ground arith

-- No transition, not even a forced one, brings a cancelled or financially terminated reservation
-- back into a status that blocks the vehicle.
closed_never_blocks :
    (env : Env) (p : TransitionParams) (db db' : Db) (r : Reservation)
    → find_reservation p.id db.reservations ≡ some r
    → (r.financial_disposition ≢ FinancialDisposition.opened)
      ⊎ (includes cancelled_statuses r.status ≡ true)
    → transition_reservation env p db ≡ ok db'
    → includes blocking_reservation_statuses p.to ≡ false
closed_never_blocks env p db db' r f c h =
    let s = transition-Swap env p db db' h in
    reopens-cases p.to r (ground (arith, f, s.found, s.closed)) c

start-financial :
    (env : Env) (db : Db) (id : ℕ) (r : Reservation)
    → find_reservation id db.reservations ≡ some r
    → assert_financial_trip_start env db id ≡ ok tt
    → (r.financial_disposition ≡ FinancialDisposition.opened)
      × (money_available (snapshot db r) ≡ true)
      × (deposit_valid env.now (snapshot db r) ≡ true)
      × (has_open_claim db id ≡ false)
      × (has_safety_block db r.vehicle_id ≡ false)
unfolding assert_financial_trip_start
start-financial env db id r f h =
    ground (arith, f, disposition_beq_iff r.financial_disposition FinancialDisposition.opened)

-- A trip starts, by force too, only when the disposition is OPEN, more is paid than refunded or
-- pending, the deposit authorization is valid, and no claim or safety block stands in the way.
pub active_needs_money :
    (env : Env) (p : TransitionParams) (db db' : Db) (r : Reservation)
    → find_reservation p.id db.reservations ≡ some r
    → p.to ≡ active
    → transition_reservation env p db ≡ ok db'
    → (r.financial_disposition ≡ FinancialDisposition.opened)
      × (money_available (snapshot db r) ≡ true)
      × (deposit_valid env.now (snapshot db r) ≡ true)
      × (has_open_claim db p.id ≡ false)
      × (has_safety_block db r.vehicle_id ≡ false)
unfolding start_gate
active_needs_money env p db db' r f a h =
    let s = transition-Swap env p db db' h in
    start-financial env db p.id r f (ground (arith, s.starts))

cancel-facts :
    (env : Env) (db : Db) (p : TransitionParams) (r : Reservation) (k c : UpdateInput)
    → includes cancelled_statuses p.to ≡ true
    → cancellation_gate env db p r k ≡ ok c
    → (includes cancellable_statuses r.status ≡ true)
      × (is_started (find_trip p.id db.trips) ≡ false)
      × (includes (checkout_hold ∷ awaiting_payment ∷ payment_failed ∷ []) p.from ≡ true
          → c.financial_disposition ≡ some FinancialDisposition.refund_required)
      × (includes (checkout_hold ∷ awaiting_payment ∷ payment_failed ∷ []) p.from ≡ false
          → c.financial_disposition ≡ some FinancialDisposition.terminated)
unfolding cancellation_gate cancelled_disposition
cancel-facts env db p r k c t h = (ground arith, ground arith, λ e. ground arith, λ e. ground arith)

cancel-plan :
    (env : Env) (p : TransitionParams) (db db' : Db)
    → includes cancelled_statuses p.to ≡ true
    → plan_cancellation env p db ≡ ok db'
    → ArePlanned env p.id (deposit_targets p.id db.financial_operations) db'
      × ArePlanned env p.id (current_target (find_deposit p.id db.security_deposits)) db'
unfolding plan_cancellation
cancel-plan env p db db' c h = plan_all-ArePlanned env p.id db db' (rw c at h)

operation-planned :
    (env : Env) (id intent : ℕ) (o : FinancialOperation) (ops : List FinancialOperation) (db' : Db)
    → Memᴰ o ops
    → o.reservation_id ≡ some id
    → o.kind ≡ OperationKind.deposit
    → o.provider_id ≡ some intent
    → ArePlanned env id (deposit_targets id ops) db'
    → IsPrepared env (release_params id intent) db'.financial_operations
operation-planned env id intent o ops db' m i k t a =
    All-member _ intent (deposit_targets id ops) (deposit_targets-member id intent o ops m i k t) a

row-planned :
    (env : Env) (id intent : ℕ) (d : SecurityDeposit) (db db' : Db)
    → find_deposit id db.security_deposits ≡ some d
    → d.stripe_payment_intent_id ≡ some intent
    → d.released_at ≡ none
    → d.stripe_status ≢ some IntentStatus.canceled
    → d.stripe_status ≢ some IntentStatus.succeeded
    → ArePlanned env id (current_target (find_deposit id db.security_deposits)) db'
    → IsPrepared env (release_params id intent) db'.financial_operations
row-planned env id intent d db db' g t r a b p =
    (subst (λ ts. ArePlanned env id ts db')
      (ap current_target g ∙ current_target-live d intent t r a b) p).0

-- A cancellation, by force too, finds the trip not started and the status one that can be cancelled.
-- It leaves REFUND_REQUIRED where the booking was in CHECKOUT_HOLD, AWAITING_PAYMENT or PAYMENT_FAILED,
-- and TERMINATED otherwise. In the same commit each deposit operation of the reservation that has a
-- provider id has its release operation, and so has the intent of the deposit row, unless the row is
-- released or its intent canceled or captured.
pub cancellation_releases :
    (env : Env) (p : TransitionParams) (db db' : Db) (r r' : Reservation)
    → IsKeyed p.id db
    → includes cancelled_statuses p.to ≡ true
    → transition_reservation env p db ≡ ok db'
    → find_reservation p.id db.reservations ≡ some r
    → find_reservation p.id db'.reservations ≡ some r'
    → (includes cancellable_statuses r.status ≡ true)
      × (is_started (find_trip p.id db.trips) ≡ false)
      × (includes (checkout_hold ∷ awaiting_payment ∷ payment_failed ∷ []) r.status ≡ true
          → r'.financial_disposition ≡ FinancialDisposition.refund_required)
      × (includes (checkout_hold ∷ awaiting_payment ∷ payment_failed ∷ []) r.status ≡ false
          → r'.financial_disposition ≡ FinancialDisposition.terminated)
      × ((o : FinancialOperation) (intent : ℕ)
          → Memᴰ o db.financial_operations
          → o.reservation_id ≡ some p.id
          → o.kind ≡ OperationKind.deposit
          → o.provider_id ≡ some intent
          → IsPrepared env (release_params p.id intent) db'.financial_operations)
      × ((d : SecurityDeposit) (intent : ℕ)
          → find_deposit p.id db.security_deposits ≡ some d
          → d.stripe_payment_intent_id ≡ some intent
          → d.released_at ≡ none
          → d.stripe_status ≢ some IntentStatus.canceled
          → d.stripe_status ≢ some IntentStatus.succeeded
          → IsPrepared env (release_params p.id intent) db'.financial_operations)
unfolding apply_update
cancellation_releases env p db db' r r' u c h f f' =
    let s = transition-Swap env p db db' h in
    let (able, unstarted, owed, ended) =
      cancel-facts env db p s.current s.kept s.changes c s.cancels in
    let from : p.from ≡ r.status = ground (arith, f, s.found, Swap-from s u) in
    let written : r'.financial_disposition
        ≡ from_option s.changes.financial_disposition s.current.financial_disposition =
      ground (arith, f', Swap-row s u) in
    let (operations, row) =
      cancel-plan env p (record db { reservations = compare_and_swap p s.changes db.reservations })
        db' c s.planned in
    (
      ground (arith, f, s.found, able),
      unstarted,
      λ e. ground (arith, written, owed (rw from e)),
      λ e. ground (arith, written, ended (rw from e)),
      λ o intent m i k t.
          operation-planned env p.id intent o db.financial_operations db' m i k t operations,
      λ d intent g t a b e. row-planned env p.id intent d db db' g t a b e row,
    )
