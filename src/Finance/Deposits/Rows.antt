-- ===== src/Finance/Deposits/Rows.antt =====
-- What a successful `syncDepositIntent` went through, and what planning a release leaves of the deposits and
-- of the other operations.
use rent_a_4_wheel.Prelude.{
  ℕ, ◌≡◌, refl, ◌∙◌, Bool, true, false, ◌&&◌, Option, none, some, List, find-update_where_keeps,
  nat_eq, option_eq, ◌==◌, ok, or_throw, find-holds, nat_beq_iff, if◌then◌else◌, >>=-eq-ok, ap, sym,
  subst, ok_inj, arith,
}
use rent_a_4_wheel.Schema.Enums.{OperationKind, OperationState}
use rent_a_4_wheel.Schema.Booking.{Reservation}
use rent_a_4_wheel.Schema.Money.{FinancialOperation, SecurityDeposit}
use rent_a_4_wheel.Schema.Database.{
  Db, Env, Error, not_found, deposit_missing, find_reservation, find_deposit,
}
use rent_a_4_wheel.Finance.Deposits.{Intent, is_unneeded, observe, sync_deposit_intent}
use rent_a_4_wheel.Finance.Operations.{prepare_operation}
use rent_a_4_wheel.Finance.Operations.Prepare.{prepare-Prepared}
use rent_a_4_wheel.Finance.ReleasePlan.{
  release_params, plan_deposit_release, original, is_backing_off, hurry, set_generation,
  adopt_generation,
}
use rent_a_4_wheel.Finance.Runs.{find_operation}

-- The columns that a plan leaves as they are.
abbrev pub Kept : Type 0
Kept = OperationKind × (OperationState × Option ℕ)

abbrev pub kept_columns : FinancialOperation → Kept
kept_columns o = (o.kind, (o.state, o.provider_id))

-- The row of an id is there still, with those columns.
abbrev pub IsKept : ℕ → FinancialOperation → List FinancialOperation → Type 0
IsKept id o ops =
    (s : FinancialOperation) × (find_operation id ops ≡ some s) × (kept_columns s ≡ kept_columns o)

module _ (id : ℕ) (o : FinancialOperation) where
  set-IsKept :
      (g : Option ℕ) (n : ℕ) (ops : List FinancialOperation)
      → IsKept id o ops
      → IsKept id o (set_generation g n ops)
  unfolding set_generation find_operation
  set-IsKept none n ops k = k
  set-IsKept (some g) n ops (s, f, e) =
      let (t, h, e1) =
        find-update_where_keeps (λ x. x.id == id) (λ x. x.id == n)
          (λ x. record x { generation = some g }) kept_columns ops s (λ x. refl) (λ x. refl) f in
      (t, h, e1 ∙ e)

  adopt-IsKept :
      (g : Option ℕ) (a : Option FinancialOperation) (n : ℕ) (ops : List FinancialOperation)
      → IsKept id o ops
      → IsKept id o (adopt_generation g a n ops)
  unfolding adopt_generation
  adopt-IsKept (some g) a n ops k = k
  adopt-IsKept none none n ops k = k
  adopt-IsKept none (some b) n ops k = set-IsKept b.generation n ops k

  hurry-IsKept :
      (now n : ℕ) (ops : List FinancialOperation) → IsKept id o ops → IsKept id o (hurry now n ops)
  unfolding hurry find_operation
  hurry-IsKept now n ops (s, f, e) =
      let (t, h, e1) =
        find-update_where_keeps (λ x. x.id == id) (λ x. x.id == n && is_backing_off now x)
          (λ x. record x { next_attempt_at = some now }) kept_columns ops s (λ x. refl) (λ x. refl)
          f in
      (t, h, e1 ∙ e)

  pub plan-IsKept :
      (env : Env) (reservation_id i : ℕ) (db db' : Db)
      → plan_deposit_release env reservation_id i db ≡ ok db'
      → find_operation id db.financial_operations ≡ some o
      → IsKept id o db'.financial_operations
  unfolding plan_deposit_release find_operation
  plan-IsKept env reservation_id i db db' h f =
      let p = release_params reservation_id i in
      let ((op, db1), e, h1) = >>=-eq-ok (prepare_operation env p db) _ h in
      let ops = hurry env.now op.id db1.financial_operations in
      let kept : IsKept id o db1.financial_operations =
        (o, (prepare-Prepared env p db op db1 e).kept_id id o f, refl) in
      subst (IsKept id o) (ap (λ d. d.financial_operations) (ok_inj _ _ _ refl h1)) (
        adopt-IsKept op.generation (original reservation_id i ops) op.id ops
          (hurry-IsKept env.now op.id db1.financial_operations kept))

pub plan-deposits :
    (env : Env) (reservation_id i : ℕ) (db db' : Db)
    → plan_deposit_release env reservation_id i db ≡ ok db'
    → db'.security_deposits ≡ db.security_deposits
unfolding plan_deposit_release
plan-deposits env reservation_id i db db' h =
    let p = release_params reservation_id i in
    let ((op, db1), e, h1) = >>=-eq-ok (prepare_operation env p db) _ h in
    sym (ap (λ d. d.security_deposits) (ok_inj _ _ _ refl h1))
    ∙ (prepare-Prepared env p db op db1 e).same_deposits

or_throw-found {ℓ} :
    {A : Type ℓ} (o : Option A) (e : Error) (a : A) → or_throw o e ≡ ok a → o ≡ some a
or_throw-found o e a h = ground arith

-- The steps of an observation that went through.
pub record Synced (env : Env) (id : ℕ) (i : Intent) (v : Bool) (db db' : Db) : Type 0 where
  pub reservation : Reservation
  pub reservation_found : find_reservation id db.reservations ≡ some reservation
  pub row : SecurityDeposit
  pub row_found : find_deposit id db.security_deposits ≡ some row
  pub row_key : row.reservation_id ≡ id
  pub planned : Db
  pub plan :
      (if is_unneeded i reservation row (original id i.id db.financial_operations)
        then plan_deposit_release env id i.id db
        else ok db)
      ≡ ok planned
  pub same_deposits : planned.security_deposits ≡ db.security_deposits
  pub observed : observe env.now i row planned ≡ (v, db')

maybe_plan-deposits :
    (env : Env) (id i : ℕ) (b : Bool) (db db' : Db)
    → (if b then plan_deposit_release env id i db else ok db) ≡ ok db'
    → db'.security_deposits ≡ db.security_deposits
maybe_plan-deposits env id i true db db' h = plan-deposits env id i db db' h
maybe_plan-deposits env id i false db db' h =
    sym (ap (λ d. d.security_deposits) (ok_inj _ _ _ refl h))

-- An operation is kept, planned release or not.
pub maybe_plan-IsKept :
    (id : ℕ) (o : FinancialOperation) (env : Env) (reservation_id i : ℕ) (b : Bool) (db db' : Db)
    → (if b then plan_deposit_release env reservation_id i db else ok db) ≡ ok db'
    → find_operation id db.financial_operations ≡ some o
    → IsKept id o db'.financial_operations
maybe_plan-IsKept id o env r i true db db' h f = plan-IsKept id o env r i db db' h f
maybe_plan-IsKept id o env r i false db db' h f =
    subst (λ d. IsKept id o d.financial_operations) (ok_inj _ _ _ refl h) (o, f, refl)

pub sync-Synced :
    (env : Env) (id : ℕ) (i : Intent) (v : Bool) (db db' : Db)
    → sync_deposit_intent env id i db ≡ ok (v, db')
    → Synced env id i v db db'
unfolding sync_deposit_intent find_deposit
sync-Synced env id i v db db' h =
    let (r, g, h1) = >>=-eq-ok (or_throw (find_reservation id db.reservations) not_found) _ h in
    let op = original id i.id db.financial_operations in
    let (d, f, h2) =
      >>=-eq-ok (or_throw (find_deposit id db.security_deposits) deposit_missing) _ h1 in
    let (planned, p, h3) =
      >>=-eq-ok (if is_unneeded i r d op then plan_deposit_release env id i.id db else ok db) _
        h2 in
    let found = or_throw-found _ _ d f in
    record {
      reservation = r;
      reservation_found = or_throw-found _ _ r g;
      row = d;
      row_found = found;
      row_key =
          (nat_beq_iff _ _).0
            (find-holds (λ e. e.reservation_id == id) db.security_deposits d found);
      planned = planned;
      plan = p;
      same_deposits = maybe_plan-deposits env id i.id (is_unneeded i r d op) db planned p;
      observed = ok_inj _ _ _ refl h3;
    }
