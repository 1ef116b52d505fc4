-- ===== src/Finance/Refunds/Reserve.antt =====
-- What `reserveRefund` of src/lib/refund-operations.ts guarantees of the captured payments.
use rent_a_4_wheel.Prelude.{
  some-injective, ℕ, ◌+◌, ◌≤◌, ◌≡◌, refl, sym, ◌∙◌, ap, subst, Bool, true, false, ◌&&◌, Option,
  none, some, List, [], ◌∷◌, ◌++◌, sum_by-append, if◌then◌else◌, leb, leb→le, nat_eq, nat_beq_iff,
  option_eq, option_beq_iff, ◌==◌, Result, ok, guard, or_throw, >>=-eq-ok, guard-eq-ok, arith,
}
use rent_a_4_wheel.Schema.Money.{Payment, Refund, key_eq, key_beq_iff}
use rent_a_4_wheel.Schema.Database.{Db, Env, Error, find_reservation}
use rent_a_4_wheel.Finance.Operations.{prepare_operation}
use rent_a_4_wheel.Finance.Operations.Prepare.{prepare-Prepared}
use rent_a_4_wheel.Finance.Refunds.{
  RefundRequest, find_payment, find_refund, is_held, held_cents, is_captured_rental, same_request,
  new_refund, reserve_new, reserve_keyed, reserve_refund, refund_allowed, rental_held, rental_paid,
  mark_refund_required, insert_refund, refund_operation,
}

-- No payment has more held against it than it captured.
abbrev pub IsCovered : Db → Type 0
IsCovered db =
    (id : ℕ) (p : Payment)
    → find_payment id db.payments ≡ some p
    → held_cents id db.refunds ≤ p.amount_cents

find_refund-append_new :
    (xs : List Refund) (r : Refund)
    → find_refund r.idempotency_key xs ≡ none
    → find_refund r.idempotency_key (xs ++ r ∷ []) ≡ some r
unfolding find_refund
find_refund-append_new [] r h = ground (arith, key_beq_iff r.idempotency_key r.idempotency_key)
find_refund-append_new (x ∷ xs) r h = ground (arith, find_refund-append_new xs r)

find_payment-id :
    (id : ℕ) (ps : List Payment) (p : Payment) → find_payment id ps ≡ some p → p.id ≡ id
unfolding find_payment
find_payment-id id [] p h = cc
find_payment-id id (x ∷ ps) p h = ground (arith, find_payment-id id ps p, nat_beq_iff x.id id)

-- The new row holds its amount against its payment and nothing against another.
held-new :
    (id : ℕ) (rs : List Refund) (n : ℕ) (q : RefundRequest)
    → held_cents id (rs ++ new_refund n q ∷ [])
      ≡ held_cents id rs + (if q.payment_id == id then q.amount_cents else 0)
unfolding held_cents new_refund is_held
held-new id rs n q = ground (
  arith,
  sum_by-append (λ r. if r.payment_id == id && is_held r then r.amount_cents else 0) rs
      (new_refund n q ∷ []),
)

-- What a reservation leaves.
record Reserved (q : RefundRequest) (db : Db) (refund : Refund) (db' : Db) : Type 0 where
  pub found : find_refund q.idempotency_key db'.refunds ≡ some refund
  pub matches : same_request refund q ≡ true
  pub same_payments : db'.payments ≡ db.payments
  pub covers : IsCovered db → IsCovered db'

marked-refunds : (b : Bool) (id : ℕ) (db : Db) → (mark_refund_required b id db).refunds ≡ db.refunds
unfolding mark_refund_required
marked-refunds true id db = refl
marked-refunds false id db = refl

marked-payments :
    (b : Bool) (id : ℕ) (db : Db) → (mark_refund_required b id db).payments ≡ db.payments
unfolding mark_refund_required
marked-payments true id db = refl
marked-payments false id db = refl

-- The new row, after all checks.
record Inserted (q : RefundRequest) (payment : Payment) (db : Db) (refund : Refund) (db' : Db)
    : Type 0 where
  pub fits : q.amount_cents + held_cents payment.id db.refunds ≤ payment.amount_cents
  pub row : refund ≡ new_refund db.next_id q
  pub refunds_are : db'.refunds ≡ db.refunds ++ new_refund db.next_id q ∷ []
  pub payments_are : db'.payments ≡ db.payments

ok_first :
    (a b : Refund) (x y : Db) → ◌≡◌ {A = Result Error (Refund × Db)} (ok (a, x)) (ok (b, y)) → a ≡ b
ok_first a b x y h = cc

ok_second :
    (a b : Refund) (x y : Db) → ◌≡◌ {A = Result Error (Refund × Db)} (ok (a, x)) (ok (b, y)) → x ≡ y
ok_second a b x y h = cc

inserted :
    (env : Env) (q : RefundRequest) (payment : Payment) (db : Db) (refund : Refund) (db' : Db)
    → reserve_new env q payment db ≡ ok (refund, db')
    → Inserted q payment db refund db'
unfolding reserve_new insert_refund
inserted env q payment db refund db' h =
    let (_, g1, h1) =
      >>=-eq-ok
        (guard (leb (q.amount_cents + held_cents payment.id db.refunds) payment.amount_cents) _) _
        h in
    let (r, g2, h2) =
      >>=-eq-ok (or_throw (find_reservation q.reservation_id db.reservations) _) _ h1 in
    let (_, g3, h3) = >>=-eq-ok (refund_allowed db q r) _ h2 in
    let refund1 = new_refund db.next_id q in
    let marked =
      mark_refund_required (leb (rental_paid db r.id) (q.amount_cents + rental_held db r.id)) r.id
        db in
    let ((op, db2), g4, h4) =
      >>=-eq-ok
        (prepare_operation env (refund_operation q refund1 payment) (insert_refund refund1 marked))
        _ h3 in
    let p =
      prepare-Prepared env (refund_operation q refund1 payment) (insert_refund refund1 marked) op
        db2 g4 in
    record {
      fits = leb→le _ _ (guard-eq-ok _ _ g1);
      row = sym (ok_first _ _ _ _ h4);
      refunds_are =
          ap (λ d. d.refunds) (sym (ok_second _ _ _ _ h4))
          ∙ p.same_refunds
          ∙ ap (λ rs. rs ++ refund1 ∷ []) (marked-refunds _ r.id db);
      payments_are =
          ap (λ d. d.payments) (sym (ok_second _ _ _ _ h4))
          ∙ p.same_payments
          ∙ marked-payments _ r.id db;
    }

-- The row that is inserted is the request's.
new-same_request : (n : ℕ) (q : RefundRequest) → same_request (new_refund n q) q ≡ true
unfolding same_request new_refund
new-same_request n q = ground (
  arith,
  option_beq_iff nat_eq q.reason q.reason,
  option_beq_iff nat_eq q.initiated_by_id q.initiated_by_id,
)

covers_one :
    (b : Bool) (held amount captured : ℕ)
    → held ≤ captured
    → (b ≡ true → amount + held ≤ captured)
    → held + (if b then amount else 0) ≤ captured
covers_one true held amount captured k f = omega (arith, f refl)
covers_one false held amount captured k f = omega arith

-- Against the payment of the request, the tested sum is what is held after it.
fits_again :
    (id : ℕ) (q : RefundRequest) (payment p : Payment) (ps : List Payment) (rs : List Refund)
    → find_payment q.payment_id ps ≡ some payment
    → find_payment id ps ≡ some p
    → q.amount_cents + held_cents payment.id rs ≤ payment.amount_cents
    → (q.payment_id == id) ≡ true
    → q.amount_cents + held_cents id rs ≤ p.amount_cents
fits_again id q payment p ps rs f e k b =
    let same : q.payment_id ≡ id = (nat_beq_iff q.payment_id id).0 b in
    let this : payment.id ≡ id = find_payment-id q.payment_id ps payment f ∙ same in
    let row : payment ≡ p = some-injective (sym f ∙ ap (λ x. find_payment x ps) same ∙ e) in
    subst (λ x. q.amount_cents + held_cents id rs ≤ x.amount_cents) row
      (subst (λ x. q.amount_cents + held_cents x rs ≤ payment.amount_cents) this k)

new-Reserved :
    (q : RefundRequest) (payment : Payment) (db : Db) (refund : Refund) (db' : Db)
    → find_payment q.payment_id db.payments ≡ some payment
    → find_refund q.idempotency_key db.refunds ≡ none
    → Inserted q payment db refund db'
    → Reserved q db refund db'
unfolding new_refund
new-Reserved q payment db refund db' f n i = record {
  found =
      rw i.refunds_are (rw i.row (find_refund-append_new db.refunds (new_refund db.next_id q) n));
  matches = rw i.row (new-same_request db.next_id q);
  same_payments = i.payments_are;
  covers = λ c id p e.
      let e' : find_payment id db.payments ≡ some p =
        ap (find_payment id) (sym i.payments_are) ∙ e in
      rw i.refunds_are (
        rw (held-new id db.refunds db.next_id q) (
          covers_one (q.payment_id == id) (held_cents id db.refunds) q.amount_cents p.amount_cents
            (c id p e') (fits_again id q payment p db.payments db.refunds f e' i.fits)));
}

-- The row that was found is returned.
again-Reserved :
    (q : RefundRequest) (db : Db) (existing refund : Refund) (db' : Db)
    → find_refund q.idempotency_key db.refunds ≡ some existing
    → same_request existing q ≡ true
    → existing ≡ refund
    → db ≡ db'
    → Reserved q db refund db'
again-Reserved q db existing refund db' f m e d = subst (Reserved q db refund) d (
    subst (λ x. Reserved q db x db) e
      (record { found = f; matches = m; same_payments = refl; covers = λ c. c }))

keyed-Reserved :
    (env : Env) (q : RefundRequest) (payment : Payment) (o : Option Refund) (db : Db)
    (refund : Refund) (db' : Db)
    → find_payment q.payment_id db.payments ≡ some payment
    → find_refund q.idempotency_key db.refunds ≡ o
    → reserve_keyed env q payment o db ≡ ok (refund, db')
    → Reserved q db refund db'
unfolding reserve_keyed
keyed-Reserved env q payment (some existing) db refund db' f e h =
    let (_, g, h1) = >>=-eq-ok (guard (same_request existing q) _) _ h in
    again-Reserved q db existing refund db' e (guard-eq-ok _ _ g) (ok_first _ _ _ _ h1)
      (ok_second _ _ _ _ h1)
keyed-Reserved env q payment none db refund db' f e h =
    new-Reserved q payment db refund db' f e (inserted env q payment db refund db' h)

or_throw-eq-ok : (o : Option Payment) (e : Error) (p : Payment) → or_throw o e ≡ ok p → o ≡ some p
or_throw-eq-ok none e p h = cc
or_throw-eq-ok (some x) e p h = cc

-- The checks before the key is looked up.
record Checked (q : RefundRequest) (db : Db) (payment : Payment) : Type 0 where
  pub amount : (leb 1 q.amount_cents && leb q.amount_cents 9007199254740991) ≡ true
  pub payment_found : find_payment q.payment_id db.payments ≡ some payment
  pub rental : (payment.reservation_id == q.reservation_id && is_captured_rental payment) ≡ true

checked :
    (env : Env) (q : RefundRequest) (db : Db) (refund : Refund) (db' : Db)
    → reserve_refund env q db ≡ ok (refund, db')
    → (payment : Payment) × Checked q db payment
      × (reserve_keyed env q payment (find_refund q.idempotency_key db.refunds) db
          ≡ ok (refund, db'))
unfolding reserve_refund
checked env q db refund db' h =
    let (_, g1, h1) =
      >>=-eq-ok (guard (leb 1 q.amount_cents && leb q.amount_cents 9007199254740991) _) _ h in
    let (payment, g2, h2) = >>=-eq-ok (or_throw (find_payment q.payment_id db.payments) _) _ h1 in
    let (_, g3, h3) =
      >>=-eq-ok (guard (payment.reservation_id == q.reservation_id && is_captured_rental payment) _)
        _ h2 in
    (
      payment,
      record {
        amount = guard-eq-ok _ _ g1;
        payment_found = or_throw-eq-ok _ _ _ g2;
        rental = guard-eq-ok _ _ g3;
      },
      h3,
    )

reserved :
    (env : Env) (q : RefundRequest) (db : Db) (refund : Refund) (db' : Db)
    → reserve_refund env q db ≡ ok (refund, db')
    → Reserved q db refund db'
reserved env q db refund db' h =
    let (payment, c, k) = checked env q db refund db' h in
    keyed-Reserved env q payment _ db refund db' c.payment_found refl k

-- Under a new key the refund is a new row.
pub reserved_anew :
    (env : Env) (q : RefundRequest) (db : Db) (refund : Refund) (db' : Db)
    → reserve_refund env q db ≡ ok (refund, db')
    → find_refund q.idempotency_key db.refunds ≡ none
    → db'.refunds ≡ db.refunds ++ new_refund db.next_id q ∷ []
unfolding reserve_keyed
reserved_anew env q db refund db' h n =
    let (payment, c, k) = checked env q db refund db' h in
    (inserted env q payment db refund db' (rw n at k)).refunds_are

-- Reserving refunds never overdraws: where no payment has more held against it (pending, succeeded or
-- uncertain refunds) than it captured, this is still so after any reservation that succeeds.
pub refunds_never_exceed :
    (env : Env) (q : RefundRequest) (db : Db) (refund : Refund) (db' : Db)
    → IsCovered db
    → reserve_refund env q db ≡ ok (refund, db')
    → IsCovered db'
refunds_never_exceed env q db refund db' c h = (reserved env q db refund db' h).covers c

-- A refund is reserved once: the same request again, whatever the clock and the lease of its retry, has
-- the same row and changes nothing.
pub refund_reserved_once :
    (env env' : Env) (q : RefundRequest) (db : Db) (refund : Refund) (db' : Db)
    → reserve_refund env q db ≡ ok (refund, db')
    → reserve_refund env' q db' ≡ ok (refund, db')
unfolding reserve_refund reserve_keyed
refund_reserved_once env env' q db refund db' h =
    let (payment, c, _) = checked env q db refund db' h in
    let r = reserved env q db refund db' h in
    rw c.amount
      (rw r.same_payments (rw c.payment_found (rw c.rental (rw r.found (rw r.matches refl)))))
