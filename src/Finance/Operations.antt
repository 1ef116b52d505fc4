-- ===== src/Finance/Operations.antt =====
-- `prepareOperation` of src/lib/financial-operations.ts: a durable request to the provider, made once
-- for each key.
pub mod Prepare
use rent_a_4_wheel.Prelude.{
  ℕ, ◌+◌, ◌≡◌, Bool, Option, none, some, List, [], ◌∷◌, ◌++◌, nat_eq, Eq, ◌==◌, includes, find,
  if◌then◌else◌, Result, ok, err, guard, ◌>>=◌, ◌>>◌,
}
use rent_a_4_wheel.Schema.Enums.{OperationKind, OperationState, operation_kind_eq}
use rent_a_4_wheel.Schema.Money.{FinancialOperation, Key, key_eq}
use rent_a_4_wheel.Schema.Database.{Db, Env, OperationParams, Error, key_reused}
use rent_a_4_wheel.Finance.Locks.{assert_event_fence}

unfoldable pub find_key : Key → List FinancialOperation → Option FinancialOperation
find_key k ops = find (λ o. o.key == k) ops

-- Compensation goes first.
initial_priority : OperationKind → ℕ
initial_priority kind =
    if includes (OperationKind.refund ∷ OperationKind.deposit_release ∷ []) kind
    then 10
    else if kind == OperationKind.rental
    then 20
    else 50

-- The row that `create` inserts, with the column defaults.
unfoldable pub new_operation : Env → ℕ → OperationParams → FinancialOperation
unfolding initial_priority
new_operation env id p = record {
  id = id;
  key = p.key;
  kind = p.kind;
  reservation_id = p.reservation_id;
  payload = p.payload;
  fingerprint = env.fingerprint p;
  provider_id = none;
  result_status = none;
  generation = none;
  state = OperationState.ready;
  priority = initial_priority p.kind;
  lease_token = none;
  lease_expires_at = none;
  first_attempt_at = none;
  next_attempt_at = none;
  attempts = 0;
  consecutive_failures = 0;
}

-- The `upsert` with an empty update, and the check of the fingerprint.
pub upsert_operation :
    Env → OperationParams → Option FinancialOperation → Db → Result Error (FinancialOperation × Db)
unfolding new_operation
upsert_operation env p (some op) db = do
  guard (op.fingerprint == env.fingerprint p) key_reused
  ok (op, db)
upsert_operation env p none db =
    let op = new_operation env db.next_id p in
    ok (
      op,
      record db {
        financial_operations = db.financial_operations ++ op ∷ [];
        next_id = db.next_id + 1;
      },
    )

unfoldable pub prepare_operation :
    Env → OperationParams → Db → Result Error (FinancialOperation × Db)
unfolding assert_event_fence upsert_operation
prepare_operation env p db = do
  assert_event_fence env
  upsert_operation env p (find_key p.key db.financial_operations) db
