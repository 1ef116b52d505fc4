-- ===== src/Finance/Runs/Leases.antt =====
-- The lease of a run of src/lib/financial-operations.ts excludes every other run.
use rent_a_4_wheel.Prelude.{
  ℕ, ◌≤◌, ◌<◌, ◌≡◌, ◌≢◌, refl, Bool, true, false, ◌&&◌, Option, some, List, count_by,
  count_by-and-le, find-count_by, leb, nat_eq, nat_beq_iff, option_eq, ◌==◌, Result, ok, err, guard,
  ◌>>=◌, ◌>>◌, arith,
}
use rent_a_4_wheel.Schema.Enums.{IntentStatus}
use rent_a_4_wheel.Schema.Money.{FinancialOperation}
use rent_a_4_wheel.Schema.Database.{Db, Env, Error}
use rent_a_4_wheel.Finance.Runs.{
  RunError, refund_terminal, already_processing, lease_lost, lift, find_operation, refund_open,
  is_free, holds_lease, lock_run, claim_run, save_run,
}

abbrev pub Fails {ℓ} : {A : Type ℓ} → Result RunError A → Type ℓ
Fails m = (e : RunError) × (m ≡ err e)

bind-Fails {ℓ κ} :
    {A : Type ℓ} {B : Type κ} (m : Result RunError A) (f : A → Result RunError B)
    → ((a : A) → Fails (f a))
    → Fails (m >>= f)
bind-Fails (ok a) f k = k a
bind-Fails (err e) f k = (e, refl)

guard-Fails {ℓ} :
    {B : Type ℓ} (b : Bool) (e : RunError) (k : Result RunError B)
    → b ≡ false
    → Fails (guard b e >> k)
guard-Fails true e k h = cc
guard-Fails false e k h = (e, refl)

-- A row of a unique id that does not pass is not counted.
none_counted :
    (id : ℕ) (p : FinancialOperation → Bool) (ops : List FinancialOperation)
    (r : FinancialOperation)
    → count_by (λ o. o.id == id) ops ≤ 1
    → find_operation id ops ≡ some r
    → p r ≡ false
    → leb 1 (count_by (λ o. o.id == id && p o) ops) ≡ false
unfolding find_operation
none_counted id p ops r u f n =
    ground
      (arith, count_by-and-le (λ o. o.id == id) p ops, find-count_by (λ o. o.id == id) p ops r u f)

-- The operation has one row, under a lease of the token that is running.
pub record IsLeased (id token now : ℕ) (ops : List FinancialOperation) : Type 0 where
  pub row : FinancialOperation
  pub unique : count_by (λ o. o.id == id) ops ≤ 1
  pub found : find_operation id ops ≡ some row
  pub under : row.lease_token ≡ some token
  pub until : ℕ
  pub expires : row.lease_expires_at ≡ some until
  pub running : now < until

not_free :
    (id token now : ℕ) (ops : List FinancialOperation) (l : IsLeased id token now ops)
    → is_free now l.row ≡ false
unfolding is_free
not_free id token now ops l = rw l.expires (ground (arith, l.running))

not_held :
    (id token now other : ℕ) (ops : List FinancialOperation) (l : IsLeased id token now ops)
    → other ≢ token
    → holds_lease other now l.row ≡ false
unfolding holds_lease
not_held id token now other ops l n = rw l.under (ground (arith, nat_beq_iff token other))

module _ (lock_finance : Env → Db → FinancialOperation → Result Error (Unit {0}))
    (apply : Db → Result RunError Db) where
  -- While a lease runs, no other run of the operation can claim it, and no run under another token can
  -- save a result of it: each fails and so changes nothing.
  pub lease_is_exclusive :
      (env : Env) (token other provider_id : ℕ) (status : Option IntentStatus)
      (op : FinancialOperation) (db : Db)
      → IsLeased op.id token env.now db.financial_operations
      → other ≢ token
      → Fails (claim_run lock_finance apply env other op db)
        × Fails (save_run lock_finance apply env other op provider_id status db)
  unfolding claim_run save_run
  lease_is_exclusive env token other provider_id status op db l n = (
    bind-Fails (lift (lock_run lock_finance apply env db op)) _ (λ a.
        bind-Fails (guard (refund_open db op) refund_terminal) _ (λ b.
          guard-Fails _ already_processing _ (
            none_counted op.id (is_free env.now) db.financial_operations l.row l.unique l.found
              (not_free op.id token env.now db.financial_operations l)))),
    bind-Fails (lift (lock_run lock_finance apply env db op)) _ (λ a. guard-Fails _ lease_lost _ (
        none_counted op.id (holds_lease other env.now) db.financial_operations l.row l.unique
          l.found (not_held op.id token env.now other db.financial_operations l n))),
  )
