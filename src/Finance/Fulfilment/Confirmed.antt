-- ===== src/Finance/Fulfilment/Confirmed.antt =====
-- A booking that src/lib/stripe-webhook-handlers.ts confirms has its money and its deposit.
use rent_a_4_wheel.Prelude.{
  ℕ, ◌≡◌, refl, Bool, true, false, not, ◌&&◌, some, find-update_where_pass, update_where, any, none,
  ◌<◌, Option, List, [], ◌∷◌, option_eq, >>=-eq-ok, guard-eq-ok, inl, inr, Bool-cases,
  if◌then◌else◌, nat_eq, ◌==◌, Result, ok, err, ok_inj, ap, subst, find-holds, arith,
}
use rent_a_4_wheel.Schema.Enums.{
  ReservationStatus, status_eq, status_beq_iff, FinancialDisposition, disposition_eq,
  disposition_beq_iff, ReconciliationReason, reason_eq,
}
use rent_a_4_wheel.Schema.Booking.{Reservation}
use rent_a_4_wheel.Schema.Money.{Payment, PaymentReconciliation}
use rent_a_4_wheel.Jurisdiction.{require_reservation_jurisdiction}
use rent_a_4_wheel.Schema.Database.{Db, Env, Error, find_reservation}
use rent_a_4_wheel.Finance.Locks.{locked_row}
use rent_a_4_wheel.Finance.Projection.{snapshot, financial_eligible, money_available, deposit_valid}
use rent_a_4_wheel.Finance.Fulfilment.{
  TerminalReason, refunded, refunded_and_expired, admitted, is_admission_error, finish, confirm,
  has_time, confirmed_row, update_reservation, close_late, require_confirmation_admission,
}

-- The booking waited as PAYMENT_FAILED with a deadline ahead and an open disposition, more is paid than
-- returned, the deposit is valid, bookings are admitted, and the tables have it in DOCUMENTS_REQUIRED
-- without a deadline, the rest of it as before; no late payment is left open.
pub record IsFulfilled (env : Env) (is_released : Bool) (id : ℕ) (payment : Payment)
    (r : Reservation) (db db' : Db) : Type 0 where
  pub waited : r.status ≡ ReservationStatus.payment_failed
  pub deadline : ℕ
  pub deadline_set : r.expires_at ≡ some deadline
  pub in_time : env.now < deadline
  pub undisputed : r.financial_disposition ≡ FinancialDisposition.opened
  pub paid : money_available (snapshot db r) ≡ true
  pub secured : deposit_valid env.now (snapshot db r) ≡ true
  pub admission_open : is_released ≡ true
  pub jurisdiction_open : require_reservation_jurisdiction env db id ≡ ok tt
  pub row :
      find_reservation id db'.reservations
      ≡ some (record r { status = ReservationStatus.documents_required; expires_at = none })
  pub late_closed :
      any
        (λ c.
          c.payment_id == some payment.id
          && c.reason == ReconciliationReason.after_hold_expired
          && c.is_open)
        db'.payment_reconciliations
      ≡ false

not-false : (b : Bool) → not b ≡ false → b ≡ true
not-false b h = ground arith

second_of : (a b : Bool) → (a && b) ≡ true → b ≡ true
second_of a b h = ground arith

no_error : {db : Db} (e : Error) → ¬ (◌≡◌ {A = Result Error (Bool × Db)} (err e) (ok (true, db)))
no_error e h = cc

not_yet : (db db' : Db) → ¬ (◌≡◌ {A = Result Error (Bool × Db)} (ok (false, db)) (ok (true, db')))
not_yet db db' h = cc

-- Of three branches, only the last one confirms.
last_branch :
    (late ineligible : Bool) (x : Result Error (Bool × Db)) (db d db' : Db)
    → ¬ (x ≡ ok (true, db'))
    → (if late then x else if ineligible then ok (false, db) else ok (true, d)) ≡ ok (true, db')
    → (late ≡ false) × (ineligible ≡ false) × (d ≡ db')
last_branch true ineligible x db d db' n h = absurd (n h)
last_branch false true x db d db' n h = cc
last_branch false false x db d db' n h = (refl, refl, ap (λ t. t.1) (ok_inj _ _ _ refl h))

eligible_parts :
    (now : ℕ) (r : Reservation) (db : Db)
    → financial_eligible now (snapshot db r) ≡ true
    → (r.financial_disposition ≡ FinancialDisposition.opened)
      × (money_available (snapshot db r) ≡ true)
      × (deposit_valid now (snapshot db r) ≡ true)
unfolding financial_eligible snapshot
eligible_parts now r db h =
    ground (arith, disposition_beq_iff r.financial_disposition FinancialDisposition.opened)

-- Money that is to be given back never confirms.
deadline_of : (now : ℕ) (o : Option ℕ) → has_time now o ≡ true → (t : ℕ) × (o ≡ some t) × (now < t)
unfolding has_time
deadline_of now none h = cc
deadline_of now (some t) h = (t, refl, ground arith)

none_late :
    (id : ℕ) (cs : List PaymentReconciliation)
    → any
        (λ c.
          c.payment_id == some id
          && c.reason == ReconciliationReason.after_hold_expired
          && c.is_open)
        (update_where
          (λ c.
            c.payment_id == some id
            && c.reason == ReconciliationReason.after_hold_expired
            && c.is_open)
          (λ c. record c { is_open = false; is_unsettled = false })
          cs)
      ≡ false
none_late id [] = refl
none_late id (c ∷ cs) = ground (arith, none_late id cs)

module _ (env : Env) (is_released : Bool) (id : ℕ) (payment : Payment) where
  no_refunded :
      (reason : TerminalReason) (db db' : Db)
      → ¬ (refunded env is_released id payment reason db ≡ ok (true, db'))
  unfolding refunded
  no_refunded reason db db' h = ground arith

  no_expired :
      (reason : TerminalReason) (db db' : Db)
      → ¬ (refunded_and_expired env is_released id payment reason db ≡ ok (true, db'))
  unfolding refunded_and_expired
  no_expired reason db db' h = ground arith

  finished :
      (r : Reservation) (db db' : Db)
      → finish env is_released id payment r db ≡ ok (true, db')
      → (has_time env.now r.expires_at ≡ true)
        × (financial_eligible env.now (snapshot db r) ≡ true)
        × (close_late payment.id (update_reservation id confirmed_row db) ≡ db')
  unfolding finish
  finished r db db' h =
      let (l, e, d) =
        last_branch (not (has_time env.now r.expires_at))
          (not (financial_eligible env.now (snapshot db r))) _ db _ db'
          (no_expired TerminalReason.deadline_elapsed db db') h in
      (not-false _ l, not-false _ e, d)

  -- The admission has to be given.
  admission_given :
      (a : Result Error (Unit {0})) (go_on : Result Error (Bool × Db)) (db db' : Db)
      → admitted env is_released id payment a go_on db ≡ ok (true, db')
      → a ≡ ok tt
  unfolding admitted
  admission_given (ok tt) go_on db db' h = refl
  admission_given (err e) go_on db db' h = elim (Bool-cases (is_admission_error e)) [
    | inl b ↦ absurd (no_refunded TerminalReason.admission_closed db db' (rw b at h))
    | inr b ↦ absurd (no_error e (rw b at h))
  ]

  admission_parts :
      (db : Db)
      → require_confirmation_admission env is_released db id ≡ ok tt
      → (is_released ≡ true) × (require_reservation_jurisdiction env db id ≡ ok tt)
  unfolding require_confirmation_admission
  admission_parts db h =
      let (_, j, h1) = >>=-eq-ok (require_reservation_jurisdiction env db id) _ h in
      (guard-eq-ok _ _ h1, j)

  admitted_goes_on :
      (a : Result Error (Unit {0})) (go_on : Result Error (Bool × Db)) (db db' : Db)
      → admitted env is_released id payment a go_on db ≡ ok (true, db')
      → go_on ≡ ok (true, db')
  unfolding admitted
  admitted_goes_on (ok u) go_on db db' h = h
  admitted_goes_on (err e) go_on db db' h = elim (Bool-cases (is_admission_error e)) [
    | inl b ↦ absurd (no_refunded TerminalReason.admission_closed db db' (rw b at h))
    | inr b ↦ absurd (no_error e (rw b at h))
  ]

  row_confirmed :
      (r : Reservation) (db : Db)
      → find_reservation id db.reservations ≡ some r
      → find_reservation id
          (close_late payment.id (update_reservation id confirmed_row db)).reservations
        ≡ some (record r { status = ReservationStatus.documents_required; expires_at = none })
  unfolding close_late update_reservation confirmed_row find_reservation
  row_confirmed r db f =
      find-update_where_pass (λ x. x.id == id) (λ x. x.id == id) confirmed_row db.reservations r
        (λ x. refl) f (find-holds (λ x. x.id == id) db.reservations r f)

  late_are_closed :
      (db : Db)
      → any
          (λ c.
            c.payment_id == some payment.id
            && c.reason == ReconciliationReason.after_hold_expired
            && c.is_open)
          (close_late payment.id db).payment_reconciliations
        ≡ false
  unfolding close_late
  late_are_closed db = none_late payment.id db.payment_reconciliations

  confirmed_from :
      (r : Reservation) (db db' : Db)
      → find_reservation id db.reservations ≡ some r
      → (r.financial_disposition == FinancialDisposition.opened
          && r.status == ReservationStatus.payment_failed)
        ≡ true
      → require_confirmation_admission env is_released db id ≡ ok tt
      → finish env is_released id payment r db ≡ ok (true, db')
      → IsFulfilled env is_released id payment r db db'
  confirmed_from r db db' f c g h =
      let (t, e, d) = finished r db db' h in
      let (u, m, v) = eligible_parts env.now r db e in
      let (open_, place) = admission_parts db g in
      let (limit, set, before) = deadline_of env.now r.expires_at t in
      record {
        waited = (status_beq_iff _ _).0 (second_of _ _ c);
        deadline = limit;
        deadline_set = set;
        in_time = before;
        admission_open = open_;
        jurisdiction_open = place;
        undisputed = u;
        paid = m;
        secured = v;
        row =
            subst
              (λ x.
                find_reservation id x.reservations
                ≡ some
                    (record r { status = ReservationStatus.documents_required; expires_at = none }))
              d (row_confirmed r db f);
        late_closed =
            subst
              (λ x.
                any
                  (λ c.
                    c.payment_id == some payment.id
                    && c.reason == ReconciliationReason.after_hold_expired
                    && c.is_open)
                  x.payment_reconciliations
                ≡ false)
              d (late_are_closed (update_reservation id confirmed_row db));
      }

  -- The second transaction confirms a booking only if it waits as PAYMENT_FAILED with its deadline ahead
  -- and its disposition is OPEN, more is paid than returned or going to be, the deposit is valid and
  -- bookings are admitted. Then its row is as before but in DOCUMENTS_REQUIRED and without a deadline, and
  -- no late payment of it is open.
  pub confirmed_is_paid :
      (r : Reservation) (db db' : Db)
      → find_reservation id db.reservations ≡ some r
      → confirm env is_released id payment db ≡ ok (true, db')
      → IsFulfilled env is_released id payment r db db'
  unfolding confirm
  confirmed_is_paid r db db' f h0 =
      let h = locked_row env id db r _ _ f h0 in
      elim (Bool-cases (
        r.financial_disposition == FinancialDisposition.opened
        && r.status == ReservationStatus.payment_failed)) [
          | inl b ↦
              confirmed_from r db db' f b
                (admission_given (require_confirmation_admission env is_released db id)
                  (finish env is_released id payment r db) db db' (rw b at h))
                (admitted_goes_on (require_confirmation_admission env is_released db id)
                  (finish env is_released id payment r db) db db' (rw b at h))
          | inr b ↦ absurd (not_yet db db' (rw b at h))
        ]
