-- ===== src/Finance/Operations/Prepare.antt =====
-- What preparing an operation leaves in the tables.
use rent_a_4_wheel.Prelude.{
  ℕ, ◌≡◌, refl, Option, none, some, List, [], ◌∷◌, ◌++◌, find, find-append, ◌==◌, nat_eq,
  nat_beq_iff, ok, >>=-eq-ok, arith,
}
use rent_a_4_wheel.Schema.Money.{FinancialOperation, Key, key_eq, key_beq_iff}
use rent_a_4_wheel.Schema.Database.{Db, Env, OperationParams}
use rent_a_4_wheel.Finance.Locks.{assert_event_fence}
use rent_a_4_wheel.Finance.Operations.{find_key, new_operation, upsert_operation, prepare_operation}

-- There is an operation under the key, made for these parameters.
abbrev pub fingerprint_of : Option FinancialOperation → Option ℕ
fingerprint_of none = none
fingerprint_of (some o) = some o.fingerprint

abbrev pub IsPrepared : Env → OperationParams → List FinancialOperation → Type 0
IsPrepared env p ops = fingerprint_of (find_key p.key ops) ≡ some (env.fingerprint p)

find_key-append_some :
    (k : Key) (xs ys : List FinancialOperation) (o : FinancialOperation)
    → find_key k xs ≡ some o
    → find_key k (xs ++ ys) ≡ some o
unfolding find_key
find_key-append_some k [] ys o h = cc
find_key-append_some k (x ∷ xs) ys o h = ground (arith, find_key-append_some k xs ys o)

find_key-append_none :
    (k : Key) (xs ys : List FinancialOperation)
    → find_key k xs ≡ none
    → find_key k (xs ++ ys) ≡ find_key k ys
unfolding find_key
find_key-append_none k [] ys h = refl
find_key-append_none k (x ∷ xs) ys h = ground (arith, find_key-append_none k xs ys)

find_key-new :
    (env : Env) (id : ℕ) (p : OperationParams)
    → find_key p.key (new_operation env id p ∷ []) ≡ some (new_operation env id p)
unfolding find_key new_operation
find_key-new env id p = ground (arith, key_beq_iff p.key p.key)

-- The result is the operation of the key, the others stay, and no other table changes.
pub record Prepared (env : Env) (p : OperationParams) (db : Db) (op : FinancialOperation) (db' : Db)
    : Type 0 where
  pub prepared : find_key p.key db'.financial_operations ≡ some op
  pub fingerprinted : op.fingerprint ≡ env.fingerprint p
  pub kept :
      (k : Key) (o : FinancialOperation)
      → find_key k db.financial_operations ≡ some o
      → find_key k db'.financial_operations ≡ some o
  pub kept_id :
      (id : ℕ) (o : FinancialOperation)
      → find (λ r. r.id == id) db.financial_operations ≡ some o
      → find (λ r. r.id == id) db'.financial_operations ≡ some o
  pub same_reservations : db'.reservations ≡ db.reservations
  pub same_deposits : db'.security_deposits ≡ db.security_deposits
  pub same_refunds : db'.refunds ≡ db.refunds
  pub same_payments : db'.payments ≡ db.payments

upsert-Prepared :
    (env : Env) (p : OperationParams) (db : Db) (o : Option FinancialOperation)
    (op : FinancialOperation) (db' : Db)
    → find_key p.key db.financial_operations ≡ o
    → upsert_operation env p o db ≡ ok (op, db')
    → Prepared env p db op db'
unfolding upsert_operation
upsert-Prepared env p db none op db' e h = record {
  prepared = ground (
    arith,
    find_key-append_none p.key db.financial_operations (new_operation env db.next_id p ∷ []),
    find_key-new env db.next_id p,
  );
  fingerprinted = ground arith;
  kept = λ k o f. ground (
    arith,
    find_key-append_some k db.financial_operations (new_operation env db.next_id p ∷ []) o,
  );
  kept_id = λ id o f. ground (
    arith,
    find-append (λ r. r.id == id) db.financial_operations (new_operation env db.next_id p ∷ []) o,
  );
  same_reservations = ground arith;
  same_deposits = ground arith;
  same_refunds = ground arith;
  same_payments = ground arith;
}
upsert-Prepared env p db (some x) op db' e h = record {
  prepared = ground arith;
  fingerprinted = ground (arith, nat_beq_iff x.fingerprint (env.fingerprint p));
  kept = λ k o f. ground arith;
  kept_id = λ id o f. ground arith;
  same_reservations = ground arith;
  same_deposits = ground arith;
  same_refunds = ground arith;
  same_payments = ground arith;
}

-- An operation that is prepared stands under its key with the fingerprint of its parameters; every
-- operation that stood before still stands as it was, and the reservations, deposits, refunds and
-- payments are unchanged.
pub prepare-Prepared :
    (env : Env) (p : OperationParams) (db : Db) (op : FinancialOperation) (db' : Db)
    → prepare_operation env p db ≡ ok (op, db')
    → Prepared env p db op db'
unfolding prepare_operation
prepare-Prepared env p db op db' h =
    let (_, _, h1) = >>=-eq-ok (assert_event_fence env) _ h in
    upsert-Prepared env p db (find_key p.key db.financial_operations) op db' refl h1
