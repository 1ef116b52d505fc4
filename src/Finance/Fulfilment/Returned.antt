-- ===== src/Finance/Fulfilment/Returned.antt =====
-- A captured payment that src/lib/stripe-webhook-handlers.ts does not turn into a booking is all held for its
-- refund.
use rent_a_4_wheel.Prelude.{
  ℕ, ◌+◌, ◌≤◌, ◌≡◌, refl, ◌∙◌, Bool, true, false, not, ◌&&◌, ◌||◌, inl, inr, Option, none, some,
  List, [], ◌∷◌, ◌++◌, includes, sum_by-append, if◌then◌else◌, Bool-cases, leb, leb→le, nat_eq,
  nat_beq_iff, option_eq, ◌==◌, Result, ok, err, guard, or_throw, >>=-eq-ok, ok_inj, ap, sym, subst,
  arith,
}
use rent_a_4_wheel.Schema.Enums.{status_eq, FinancialDisposition, disposition_eq, refund_status_eq}
use rent_a_4_wheel.Schema.Booking.{Reservation}
use rent_a_4_wheel.Schema.Money.{Payment, Refund, Key}
use rent_a_4_wheel.Schema.Database.{
  Db, Env, Error, not_found, refund_unauthorized, find_reservation,
}
use rent_a_4_wheel.Finance.Locks.{locked_row}
use rent_a_4_wheel.Finance.Refunds.{
  RefundRequest, find_refund, is_held, held_cents, new_refund, reserve_refund,
}
use rent_a_4_wheel.Finance.Refunds.Reserve.{reserved_anew}
use rent_a_4_wheel.Finance.Fulfilment.{
  TerminalReason, recovery_states, terminal_request, refund_rest, mark_refund_required,
  require_refund, is_admission_error, mark_paid, refunded, refunded_and_expired, admitted,
  hold_inventory, take_payment, require_confirmation_admission, expire,
}

-- The whole payment is returned or going to be.
abbrev pub IsReturned : Payment → Db → Type 0
IsReturned payment db = payment.amount_cents ≤ held_cents payment.id db.refunds

held-append :
    (id n : ℕ) (rs : List Refund) (q : RefundRequest)
    → q.payment_id ≡ id
    → held_cents id (rs ++ new_refund n q ∷ []) ≡ held_cents id rs + q.amount_cents
unfolding held_cents is_held new_refund
held-append id n rs q e =
    sum_by-append (λ r. if r.payment_id == id && is_held r then r.amount_cents else 0) rs
      (new_refund n q ∷ [])
    ∙ ap (λ k. held_cents id rs + k) (ground (arith, nat_beq_iff q.payment_id id))

-- What is asked for is what is not held yet.
fills :
    (payment : Payment) (id : ℕ) (reason : TerminalReason) (db : Db)
    → payment.amount_cents
      ≤ held_cents payment.id
          (db.refunds ++ new_refund db.next_id (terminal_request id payment reason db) ∷ [])
unfolding terminal_request
fills payment id reason db = omega (
  arith,
  held-append payment.id db.next_id db.refunds (terminal_request id payment reason db) refl,
)

rest-IsReturned :
    (env : Env) (id : ℕ) (payment : Payment) (reason : TerminalReason) (db db' : Db)
    (o : Option Refund)
    → find_refund (Key.terminal_refund payment.id) db.refunds ≡ none
    → refund_rest env id payment reason none db ≡ ok (o, db')
    → IsReturned payment db'
unfolding refund_rest
rest-IsReturned env id payment reason db db' o n h =
    elim (Bool-cases (leb payment.amount_cents (held_cents payment.id db.refunds))) [
      | inl b ↦
          subst (IsReturned payment) (ap (λ t. t.1) (ok_inj _ _ _ refl (rw b at h))) (leb→le _ _ b)
      | inr b ↦
          let q = terminal_request id payment reason db in
          let ((refund, db1), e, h1) = >>=-eq-ok (reserve_refund env q db) _ (rw b at h) in
          let rows = reserved_anew env q db refund db1 e n in
          subst (λ rs. payment.amount_cents ≤ held_cents payment.id rs)
            (sym rows ∙ ap (λ t. t.1.refunds) (ok_inj _ _ _ refl h1)) (fills payment id reason db)
    ]

require-IsReturned :
    (env : Env) (id : ℕ) (payment : Payment) (reason : TerminalReason) (db db' : Db)
    (o : Option Refund)
    → find_refund (Key.terminal_refund payment.id) db.refunds ≡ none
    → require_refund env id payment reason db ≡ ok (o, db')
    → IsReturned payment db'
unfolding require_refund mark_refund_required
require-IsReturned env id payment reason db db' o n h =
    let (current, _, h1) =
      >>=-eq-ok (or_throw (find_reservation id db.reservations) not_found) _ h in
    let (_, _, h2) =
      >>=-eq-ok
        (guard
          (current.financial_disposition == FinancialDisposition.refund_required
            || current.financial_disposition == FinancialDisposition.opened
              && includes recovery_states current.status)
          refund_unauthorized)
        _ h1 in
    rest-IsReturned env id payment reason (mark_refund_required id db) db' o n (rw n at h2)

either :
    (payment : Payment) (b : Bool) (x y : Result Error (Bool × Db)) (db : Db)
    → (x ≡ ok (false, db) → IsReturned payment db)
    → (y ≡ ok (false, db) → IsReturned payment db)
    → (if b then x else y) ≡ ok (false, db)
    → IsReturned payment db
either payment true x y db f g h = f h
either payment false x y db f g h = g h

goes_on :
    (payment : Payment) (d db : Db)
    → ◌≡◌ {A = Result Error (Bool × Db)} (ok (true, d)) (ok (false, db))
    → IsReturned payment db
goes_on payment d db h = cc

failed :
    (payment : Payment) (e : Error) (db : Db)
    → ◌≡◌ {A = Result Error (Bool × Db)} (err e) (ok (false, db))
    → IsReturned payment db
failed payment e db h = cc

module _ (env : Env) (is_released : Bool) (id : ℕ) (payment : Payment) where
  refunded-IsReturned :
      (reason : TerminalReason) (db db' : Db) (b : Bool)
      → find_refund (Key.terminal_refund payment.id) db.refunds ≡ none
      → refunded env is_released id payment reason db ≡ ok (b, db')
      → IsReturned payment db'
  unfolding refunded
  refunded-IsReturned reason db db' b n h =
      let ((o, db1), e, h1) = >>=-eq-ok (require_refund env id payment reason db) _ h in
      subst (IsReturned payment) (ap (λ t. t.1) (ok_inj _ _ _ refl h1))
        (require-IsReturned env id payment reason db db1 o n e)

  expired-IsReturned :
      (reason : TerminalReason) (db db' : Db) (b : Bool)
      → find_refund (Key.terminal_refund payment.id) db.refunds ≡ none
      → refunded_and_expired env is_released id payment reason db ≡ ok (b, db')
      → IsReturned payment db'
  unfolding refunded_and_expired expire
  expired-IsReturned reason db db' b n h =
      let ((o, db1), e, h1) = >>=-eq-ok (require_refund env id payment reason db) _ h in
      subst (IsReturned payment) (ap (λ t. t.1) (ok_inj _ _ _ refl h1))
        (require-IsReturned env id payment reason db db1 o n e)

  held-IsReturned :
      (current : Reservation) (db db' : Db)
      → find_refund (Key.terminal_refund payment.id) db.refunds ≡ none
      → hold_inventory env is_released id payment current db ≡ ok (false, db')
      → IsReturned payment db'
  unfolding hold_inventory
  held-IsReturned current db db' n h =
      either payment _ _ _ db' (expired-IsReturned TerminalReason.deadline_elapsed db db' false n)
        (either payment _ _ _ db'
          (expired-IsReturned TerminalReason.dates_unavailable db db' false n)
          (goes_on payment _ db'))
        h

  admitted-IsReturned :
      (a : Result Error (Unit {0})) (go_on : Result Error (Bool × Db)) (db db' : Db)
      → find_refund (Key.terminal_refund payment.id) db.refunds ≡ none
      → (go_on ≡ ok (false, db') → IsReturned payment db')
      → admitted env is_released id payment a go_on db ≡ ok (false, db')
      → IsReturned payment db'
  unfolding admitted
  admitted-IsReturned (ok u) go_on db db' n f h = f h
  admitted-IsReturned (err e) go_on db db' n f h =
      either payment (is_admission_error e) _ (err e) db'
        (refunded-IsReturned TerminalReason.admission_closed db db' false n) (failed payment e db')
        h

  taken :
      (r : Reservation) (db db' : Db) (owes recovers : Bool)
      → (owes || recovers) ≡ true
      → find_refund (Key.terminal_refund payment.id) db.refunds ≡ none
      → (if owes
          then refunded env is_released id payment TerminalReason.after_termination db
          else if not recovers
          then ok (false, db)
          else admitted env is_released id payment
              (require_confirmation_admission env is_released db id)
              (hold_inventory env is_released id payment r db)
              db)
        ≡ ok (false, db')
      → IsReturned payment db'
  taken r db db' true recovers c n h =
      refunded-IsReturned TerminalReason.after_termination db db' false n h
  taken r db db' false true c n h = admitted-IsReturned _ _ db db' n (held-IsReturned r db db' n) h
  taken r db db' false false c n h = cc

  -- Where the rental of a booking is captured that is open for fulfilment or owes a refund, the first
  -- transaction either lets the booking go on or leaves the whole payment held for refunds, if no refund
  -- was made under the key of its final refund before.
  pub payment_not_stranded :
      (r : Reservation) (db db' : Db)
      → find_reservation id db.reservations ≡ some r
      → (r.financial_disposition == FinancialDisposition.refund_required
          || r.financial_disposition == FinancialDisposition.opened
            && includes recovery_states r.status)
        ≡ true
      → find_refund (Key.terminal_refund payment.id) db.refunds ≡ none
      → take_payment env is_released id payment db ≡ ok (false, db')
      → payment.amount_cents ≤ held_cents payment.id db'.refunds
  unfolding take_payment
  payment_not_stranded r db db' f c n h =
      let paid = mark_paid payment.id db in
      taken r paid db' _ _ c n (locked_row env id db r _ _ f h)
