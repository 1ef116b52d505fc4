-- ===== src/Finance/Deposits/Owner.antt =====
-- The operation that src/lib/deposit-authorization.ts runs an authorization under is the owner of the deposit.
use rent_a_4_wheel.Prelude.{
  ℕ, ◌+◌, ◌≡◌, refl, ◌∙◌, Bool, true, false, not, ◌&&◌, Option, none, some, find-update_where_pass,
  find-holds, Bool-cases, inl, inr, List, [], ◌∷◌, includes, if◌then◌else◌, is_some, some-injective,
  nat_eq, nat_beq_iff, option_eq, option_beq_iff, ◌==◌, Result, ok, guard, or_throw, ◌>>=◌,
  >>=-eq-ok, guard-eq-ok, ok_inj, ap, sym, subst, arith,
}
use rent_a_4_wheel.Schema.Enums.{
  ReservationStatus, status_eq, FinancialDisposition, disposition_eq, disposition_beq_iff,
  OperationKind, operation_kind_eq,
}
use rent_a_4_wheel.Schema.Booking.{Reservation}
use rent_a_4_wheel.Schema.Money.{SecurityDeposit, FinancialOperation}
use rent_a_4_wheel.Schema.Database.{
  Db, Env, OperationParams, Error, terminated, deposit_inconsistent, deposit_uncertain,
  ownership_mismatch, payment_method_missing, find_reservation, find_deposit,
}
use rent_a_4_wheel.Finance.Runs.{find_operation}
use rent_a_4_wheel.Finance.Locks.{locked_row}
use rent_a_4_wheel.Finance.Operations.{prepare_operation}
use rent_a_4_wheel.Finance.Operations.Prepare.{prepare-Prepared}
use rent_a_4_wheel.Finance.Deposits.{Intent, latest_operation, operation_of, take_over}
use rent_a_4_wheel.Finance.Deposits.Attempt.{
  legacy_params, attempt_params, adopt_legacy, count_attempts, start_attempt, is_retry,
  choose_operation, authorize_deposit, prepare_authorization,
}

-- The deposit row names the operation, and both are of one generation.
pub record Owns (reservation_id : ℕ) (op : FinancialOperation) (db : Db) : Type 0 where
  pub row : SecurityDeposit
  pub found : find_deposit reservation_id db.security_deposits ≡ some row
  pub named : row.operation_id ≡ some op.id
  pub same_generation : op.generation ≡ some row.generation

operation_of-id :
    (k : Option ℕ) (ops : List FinancialOperation) (o : FinancialOperation)
    → operation_of k ops ≡ some o
    → k ≡ some o.id
unfolding operation_of find_operation
operation_of-id none ops o h = cc
operation_of-id (some n) ops o h =
    ap some (sym ((nat_beq_iff _ _).0 (find-holds (λ x. x.id == n) ops o h)))

first_of : (a b c : Bool) → (a && b && c) ≡ true → a ≡ true
first_of a b c h = ground arith

module _ (env : Env) (r : Reservation) (d : SecurityDeposit) where
  taken-Owns :
      (op : FinancialOperation) (f : FinancialOperation → FinancialOperation) (db : Db)
      → (f op).id ≡ op.id
      → find_deposit r.id db.security_deposits ≡ some d
      → Owns r.id (take_over d op f db).0 (take_over d op f db).1
  unfolding take_over find_deposit
  taken-Owns op f db k e = record {
    row = record d { operation_id = some op.id; generation = d.generation + 1 };
    found =
        find-update_where_pass (λ x. x.reservation_id == r.id)
          (λ x. x.reservation_id == d.reservation_id)
          (λ x. record x { operation_id = some op.id; generation = x.generation + 1 })
          db.security_deposits d (λ x. refl) e ((nat_beq_iff _ _).1 refl);
    named = ap some (sym k);
    same_generation = refl;
  }

  -- A prepared operation is taken over.
  prepared-Owns :
      (p : OperationParams) (f : FinancialOperation → FinancialOperation) (db db' : Db)
      (op : FinancialOperation)
      → ((o : FinancialOperation) → (f o).id ≡ o.id)
      → find_deposit r.id db.security_deposits ≡ some d
      → (prepare_operation env p db >>= λ t. ok (take_over d t.0 f t.1)) ≡ ok (op, db')
      → Owns r.id op db'
  prepared-Owns p f db db' op k e h =
      let ((o, db1), g, h1) = >>=-eq-ok (prepare_operation env p db) _ h in
      let same = (prepare-Prepared env p db o db1 g).same_deposits in
      let result = ok_inj _ _ _ refl h1 in
      subst (λ t. Owns r.id t.0 t.1) result
        (taken-Owns o f db1 (k o) (ap (find_deposit r.id) same ∙ e))

  started-Owns :
      (i : Intent) (db db' : Db) (op : FinancialOperation)
      → find_deposit r.id db.security_deposits ≡ some d
      → start_attempt env r d i db ≡ ok (op, db')
      → Owns r.id op db'
  unfolding start_attempt
  started-Owns i db db' op e h =
      let (m, _, h1) = >>=-eq-ok (or_throw i.payment_method payment_method_missing) _ h in
      let (c, _, h2) = >>=-eq-ok (or_throw i.customer payment_method_missing) _ h1 in
      prepared-Owns (attempt_params r (count_attempts r.id db) c m) (λ o. o) db db' op (λ o. refl) e
        h2

  adopted-Owns :
      (db db' : Db) (op : FinancialOperation)
      → find_deposit r.id db.security_deposits ≡ some d
      → adopt_legacy env r d db ≡ ok (op, db')
      → Owns r.id op db'
  unfolding adopt_legacy
  adopted-Owns db db' op e h = prepared-Owns (legacy_params r) _ db db' op (λ o. refl) e h

  latest-Owns :
      (o : FinancialOperation) (db : Db)
      → find_deposit r.id db.security_deposits ≡ some d
      → latest_operation d db ≡ some o
      → (o.generation == some d.generation
          && o.reservation_id == some r.id
          && o.kind == OperationKind.deposit)
        ≡ true
      → Owns r.id o db
  unfolding latest_operation
  latest-Owns o db e l g = record {
    row = d;
    found = e;
    named = operation_of-id d.operation_id db.financial_operations o l;
    same_generation = (option_beq_iff nat_eq _ _).0 (first_of _ _ _ g);
  }

  chosen-Owns :
      (retry : Bool) (observed : Option ℕ) (i : Intent) (latest : Option FinancialOperation)
      (db db' : Db) (op : FinancialOperation)
      → find_deposit r.id db.security_deposits ≡ some d
      → latest_operation d db ≡ latest
      → choose_operation env retry observed i r d latest db ≡ ok (op, db')
      → Owns r.id op db'
  unfolding choose_operation
  chosen-Owns retry observed i none db db' op e l h =
      elim (Bool-cases (is_some d.stripe_payment_intent_id)) [
        | inl b ↦ adopted-Owns db db' op e (rw b at h)
        | inr b ↦ started-Owns i db db' op e (rw b at h)
      ]
  chosen-Owns retry observed i (some o) db db' op e l h =
      let (_, g, h1) =
        >>=-eq-ok
          (guard
            (o.generation == some d.generation
              && o.reservation_id == some r.id
              && o.kind == OperationKind.deposit)
            ownership_mismatch)
          _ h in
      elim (Bool-cases (is_retry retry observed d o)) [
        | inl b ↦ started-Owns i db db' op e (rw b at h1)
        | inr b ↦
            subst (λ t. Owns r.id t.0 t.1) (ok_inj _ _ _ refl (rw b at h1))
              (latest-Owns o db e l (guard-eq-ok _ _ g))
      ]

deposit_of :
    (o : Option SecurityDeposit) (e : Error) (d : SecurityDeposit)
    → or_throw o e ≡ ok d
    → o ≡ some d
deposit_of o e d h = ground arith

-- The booking is open, and its deposit is the operation's.
abbrev pub Authorizes : Reservation → FinancialOperation → Db → Type 0
Authorizes r op db = (r.financial_disposition ≡ FinancialDisposition.opened) × Owns r.id op db

module _ (env : Env) (retry : Bool) (observed : Option ℕ) (i : Intent) where
  authorized-Owns :
      (r : Reservation) (db db' : Db) (op : FinancialOperation)
      → authorize_deposit env retry observed i r db ≡ ok (op, db')
      → Authorizes r op db'
  unfolding authorize_deposit
  authorized-Owns r db db' op h =
      let still = not (
        includes
          (ReservationStatus.cancelled_by_customer ∷ ReservationStatus.cancelled_by_host
            ∷ ReservationStatus.expired ∷ [])
          r.status) in
      let (_, g, h1) =
        >>=-eq-ok
          (guard (r.financial_disposition == FinancialDisposition.opened && still) terminated) _
          h in
      let (d, f, h2) =
        >>=-eq-ok (or_throw (find_deposit r.id db.security_deposits) deposit_inconsistent) _ h1 in
      let (_, _, h3) =
        >>=-eq-ok (guard (d.amount_cents == r.deposit_cents) deposit_inconsistent) _ h2 in
      let (_, _, h4) = >>=-eq-ok (guard (not d.legacy_uncertain) deposit_uncertain) _ h3 in
      (
        (disposition_beq_iff _ _).0 (first_of _ still true (ground (arith, guard-eq-ok _ _ g))),
        chosen-Owns env r d retry observed i (latest_operation d db) db db' op (deposit_of _ _ d f)
            refl h4,
      )

  required :
      (r : Reservation) (db db' : Db) (op : FinancialOperation) (b : Bool)
      → ◌≡◌ {A = Result Error (Option FinancialOperation × Db)}
          (if b
            then ok (none, db)
            else (authorize_deposit env retry observed i r db >>= λ t. ok (some t.0, t.1)))
          (ok (some op, db'))
      → Authorizes r op db'
  required r db db' op true h = cc
  required r db db' op false h =
      let ((o, db1), g, h1) = >>=-eq-ok (authorize_deposit env retry observed i r db) _ h in
      let e = ok_inj _ _ _ refl h1 in
      subst (λ x. Authorizes r x db') (some-injective (ap (λ t. t.0) e))
        (subst (Authorizes r o) (ap (λ t. t.1) e) (authorized-Owns r db db1 o g))

  -- Where an authorization is prepared, the booking is open, and the operation under which it runs is
  -- the one that the deposit row names, of the generation of that row.
  pub attempt_owns_deposit :
      (r : Reservation) (id : ℕ) (db db' : Db) (op : FinancialOperation)
      → find_reservation id db.reservations ≡ some r
      → prepare_authorization env retry observed i id db ≡ ok (some op, db')
      → Authorizes r op db'
  unfolding prepare_authorization
  attempt_owns_deposit r id db db' op f h =
      required r db db' op (r.deposit_cents == 0) (locked_row env id db r _ _ f h)
