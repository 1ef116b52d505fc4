-- ===== src/Finance/Runs/Dates.antt =====
-- The date of the first attempt that `runOperation` of src/lib/financial-operations.ts writes: no claim
-- changes it.
use rent_a_4_wheel.Prelude.{
  ℕ, ◌≡◌, ◌≢◌, refl, Bool, true, false, ◌&&◌, inl, inr, Bool-cases, Option, some, List, count_by,
  find, update_where, find-update_where_keeps, find-update_where_past, find-holds, some-injective,
  if-cases, is_some, leb, nat_eq, nat_beq_iff, option_eq, ◌==◌, Result, ok, ok_inj, guard, or_throw,
  >>=-eq-ok, ap, sym, subst, ◌∙◌, arith,
}
use rent_a_4_wheel.Schema.Enums.{operation_kind_eq, operation_state_eq, disposition_eq}
use rent_a_4_wheel.Schema.Money.{FinancialOperation}
use rent_a_4_wheel.Schema.Database.{Db, Env, Error, not_found}
use rent_a_4_wheel.Finance.Runs.{
  RunError, database, refund_terminal, already_processing, lift, find_operation, refund_open,
  is_free, leased, take_lease, date_attempt, lock_run, claim_run,
}

-- The first attempt that is dated on the row of the operation.
pub record IsDated (id first : ℕ) (ops : List FinancialOperation) : Type 0 where
  pub row : FinancialOperation
  pub found : find_operation id ops ≡ some row
  pub dated : row.first_attempt_at ≡ some first

update-IsDated :
    (id first : ℕ) (p : FinancialOperation → Bool) (f : FinancialOperation → FinancialOperation)
    (ops : List FinancialOperation)
    → ((x : FinancialOperation) → (f x).id ≡ x.id)
    → ((x : FinancialOperation) → (f x).first_attempt_at ≡ x.first_attempt_at)
    → IsDated id first ops
    → IsDated id first (update_where p f ops)
unfolding find_operation
update-IsDated id first p f ops k t d =
    let (r, g, e) =
      find-update_where_keeps (λ x. x.id == id) p f (λ x. x.first_attempt_at) ops d.row
        (λ x. ap (λ n. n == id) (k x)) t d.found in
    record { row = r; found = g; dated = e ∙ d.dated }

leased-IsDated :
    (id first id' token now : ℕ) (ops : List FinancialOperation)
    → IsDated id first ops
    → IsDated id first (take_lease id' token now ops)
unfolding take_lease leased
leased-IsDated id first id' token now ops d =
    update-IsDated id first (λ o. o.id == id' && is_free now o) (leased token now) ops (λ x. refl)
      (λ x. refl) d

true_is_not_false : ¬ (true ≡ false)
true_is_not_false h = cc

same_row :
    (ops : List FinancialOperation) (m n : ℕ) (a b : FinancialOperation)
    → find (λ x. x.id == m) ops ≡ some a
    → find (λ x. x.id == n) ops ≡ some b
    → (a.id == b.id) ≡ true
    → a ≡ b
same_row ops m n a b f g h =
    let i = (nat_beq_iff a.id m).0 (find-holds (λ x. x.id == m) ops a f) in
    let j = (nat_beq_iff b.id n).0 (find-holds (λ x. x.id == n) ops b g) in
    let e : m ≡ n = sym i ∙ (nat_beq_iff a.id b.id).0 h ∙ j in
    some-injective (sym f ∙ subst (λ k. find (λ x. x.id == k) ops ≡ some b) (sym e) g)

dated_clash :
    (a b : FinancialOperation) (first : ℕ)
    → a ≡ b
    → a.first_attempt_at ≡ some first
    → is_some b.first_attempt_at ≢ false
dated_clash a b first e d n =
    true_is_not_false (ap is_some (sym d ∙ ap (λ o. o.first_attempt_at) e) ∙ n)

-- A date is written only where there is none.
undated_is_other :
    (id first : ℕ) (c : FinancialOperation) (id' : ℕ) (ops : List FinancialOperation)
    (d : IsDated id first ops)
    → find_operation id' ops ≡ some c
    → is_some c.first_attempt_at ≡ false
    → (d.row.id == c.id) ≡ false
unfolding find_operation
undated_is_other id first c id' ops d f n = elim (Bool-cases (d.row.id == c.id)) [
  | inl b ↦ absurd (dated_clash d.row c first (same_row ops id id' d.row c d.found f b) d.dated n)
  | inr b ↦ b
]

date-IsDated :
    (id id' first now : ℕ) (c : FinancialOperation) (ops : List FinancialOperation)
    → find_operation id' ops ≡ some c
    → IsDated id first ops
    → IsDated id first (date_attempt now c ops)
unfolding date_attempt find_operation
date-IsDated id id' first now c ops f d =
    if-cases (IsDated id first) (is_some c.first_attempt_at) ops
      (update_where (λ o. o.id == c.id) (λ o. record o { first_attempt_at = some now }) ops)
      (λ b. d)
      (λ b. record {
        row = d.row;
        found =
            find-update_where_past (λ x. x.id == id) (λ o. o.id == c.id)
              (λ o. record o { first_attempt_at = some now }) ops d.row (λ x h. refl) d.found
              (undated_is_other id first c id' ops d f b);
        dated = d.dated;
      })

or_throw_ok :
    {A : Type 0} (o : Option A) (e : Error) (a : A) → or_throw o (database e) ≡ ok a → o ≡ some a
or_throw_ok o e a h = ground arith

module _ (lock_finance : Env → Db → FinancialOperation → Result Error (Unit {0}))
    (apply : Db → Result RunError Db) where
  -- Claims that go through, of any operations, at any times and under any tokens.
  pub data Claims : Db → Db → Type 0 where
    unclaimed : {db : Db} → Claims db db
    claimed_by :
        {db db1 db2 : Db} (env : Env) (token : ℕ) (op c : FinancialOperation)
        → Claims db db1
        → claim_run lock_finance apply env token op db1 ≡ ok (c, db2)
        → Claims db db2

  pub claim-IsDated :
      (id first token : ℕ) (env : Env) (op c : FinancialOperation) (db db' : Db)
      → claim_run lock_finance apply env token op db ≡ ok (c, db')
      → IsDated id first db.financial_operations
      → IsDated id first db'.financial_operations × (op.id ≡ id → c.first_attempt_at ≡ some first)
  unfolding claim_run
  claim-IsDated id first token env op c db db' h d =
      let (_, _, h1) = >>=-eq-ok (lift (lock_run lock_finance apply env db op)) _ h in
      let (_, _, h2) = >>=-eq-ok (guard (refund_open db op) refund_terminal) _ h1 in
      let (_, _, h3) =
        >>=-eq-ok
          (guard
            (leb 1 (count_by (λ o. o.id == op.id && is_free env.now o) db.financial_operations))
            already_processing)
          _ h2 in
      let ops = take_lease op.id token env.now db.financial_operations in
      let (current, f, h4) =
        >>=-eq-ok (or_throw (find_operation op.id ops) (database not_found)) _ h3 in
      let found = or_throw_ok (find_operation op.id ops) not_found current f in
      let still = leased-IsDated id first op.id token env.now db.financial_operations d in
      let result = ok_inj _ _ _ refl h4 in
      (
        subst (λ t. IsDated id first t.1.financial_operations) result
            (date-IsDated id op.id first env.now current ops found still),
        λ e.
            subst (λ t. t.0.first_attempt_at ≡ some first) result
              (ap (λ x. x.first_attempt_at)
                  (some-injective (
                    sym found
                    ∙ subst (λ n. find_operation n ops ≡ some still.row) (sym e) still.found))
                ∙ still.dated),
      )

  pub Claims-IsDated :
      (id first : ℕ) (db db' : Db)
      → Claims db db'
      → IsDated id first db.financial_operations
      → IsDated id first db'.financial_operations
  Claims-IsDated id first db _ unclaimed d = d
  Claims-IsDated id first db db' (claimed_by {db1 = db1} env token op c cs h) d =
      (claim-IsDated id first token env op c db1 db' h (Claims-IsDated id first db db1 cs d)).0
