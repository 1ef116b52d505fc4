-- ===== src/Finance/ReleasePlan.antt =====
-- src/lib/deposit-release-plan.ts: the compensation that is committed together with a terminal
-- transition.
pub mod Frame
pub mod Coverage
use rent_a_4_wheel.Prelude.{
  ℕ, ◌≡◌, Bool, true, false, not, ◌&&◌, ◌||◌, Option, none, some, List, [], ◌∷◌, ltb, leb, nat_eq,
  option_eq, Eq, ◌==◌, includes, find, select, is_some, update_where, if◌then◌else◌, Result, ok,
  err, ◌>>=◌,
}
use rent_a_4_wheel.Schema.Enums.{
  OperationKind, OperationState, IntentStatus, operation_kind_eq, operation_state_eq,
  intent_status_eq,
}
use rent_a_4_wheel.Schema.Money.{FinancialOperation, SecurityDeposit, Key, Payload}
use rent_a_4_wheel.Schema.Database.{Db, Env, OperationParams, Error, find_deposit}
use rent_a_4_wheel.Finance.Operations.{prepare_operation}

abbrev pub release_params : ℕ → ℕ → OperationParams
release_params reservation_id intent_id = record {
  key = Key.deposit_release intent_id;
  kind = OperationKind.deposit_release;
  reservation_id = some reservation_id;
  payload = Payload.release_intent intent_id;
}

later : ℕ → Option ℕ → Bool
later now none = false
later now (some t) = ltb now t

lease_free : ℕ → Option ℕ → Bool
lease_free now none = true
lease_free now (some t) = leb t now

-- A queued attempt that backs off and that nobody holds.
pub is_backing_off : ℕ → FinancialOperation → Bool
unfolding later lease_free
is_backing_off now op =
    includes (OperationState.ready ∷ OperationState.retry ∷ OperationState.poll ∷ []) op.state
    && later now op.next_attempt_at
    && lease_free now op.lease_expires_at

-- The first deposit operation on the intent.
unfoldable pub original : ℕ → ℕ → List FinancialOperation → Option FinancialOperation
original reservation_id intent_id ops =
    find
      (λ o.
        o.reservation_id == some reservation_id
        && o.kind == OperationKind.deposit
        && o.provider_id == some intent_id)
      ops

unfoldable pub set_generation : Option ℕ → ℕ → List FinancialOperation → List FinancialOperation
set_generation none id ops = ops
set_generation (some g) id ops =
    update_where (λ o. o.id == id) (λ o. record o { generation = some g }) ops

-- A release with no generation takes that of the original, if it has one.
unfoldable pub adopt_generation :
    Option ℕ → Option FinancialOperation → ℕ → List FinancialOperation → List FinancialOperation
unfolding set_generation
adopt_generation (some g) o id ops = ops
adopt_generation none none id ops = ops
adopt_generation none (some o) id ops = set_generation o.generation id ops

unfoldable pub hurry : ℕ → ℕ → List FinancialOperation → List FinancialOperation
unfolding is_backing_off
hurry now id ops =
    update_where (λ o. o.id == id && is_backing_off now o)
      (λ o. record o { next_attempt_at = some now }) ops

unfoldable pub plan_deposit_release : Env → ℕ → ℕ → Db → Result Error Db
unfolding hurry original adopt_generation
plan_deposit_release env reservation_id intent_id db = do
  (release, db1) ← prepare_operation env (release_params reservation_id intent_id) db
  let ops = hurry env.now release.id db1.financial_operations
  ok (record db1 {
    financial_operations =
        adopt_generation release.generation (original reservation_id intent_id ops) release.id ops;
  })

pub add_target : Bool → Option ℕ → List ℕ → List ℕ
add_target true (some t) ts = t ∷ ts
add_target _ _ ts = ts

-- The provider ids of the deposit operations of the reservation that have one.
unfoldable pub deposit_targets : ℕ → List FinancialOperation → List ℕ
unfolding add_target
deposit_targets reservation_id [] = []
deposit_targets reservation_id (o ∷ ops) =
    add_target (o.reservation_id == some reservation_id && o.kind == OperationKind.deposit)
      o.provider_id (deposit_targets reservation_id ops)

pub plan_targets : Env → ℕ → List ℕ → Db → Result Error Db
unfolding plan_deposit_release
plan_targets env reservation_id [] db = ok db
plan_targets env reservation_id (t ∷ ts) db = do
  db1 ← plan_deposit_release env reservation_id t db
  plan_targets env reservation_id ts db1

pub is_live : SecurityDeposit → Bool
is_live d =
    not (is_some d.released_at)
    && not (
        d.stripe_status == some IntentStatus.canceled
        || d.stripe_status == some IntentStatus.succeeded)

pub live_target : Option ℕ → Bool → List ℕ
live_target (some t) true = t ∷ []
live_target _ _ = []

-- The intent of the deposit row, unless it is released or in a final state.
pub current_target : Option SecurityDeposit → List ℕ
unfolding is_live live_target
current_target none = []
current_target (some d) = live_target d.stripe_payment_intent_id (is_live d)

unfoldable pub plan_all_deposit_releases : Env → ℕ → Db → Result Error Db
unfolding deposit_targets plan_targets current_target
plan_all_deposit_releases env reservation_id db = do
  db1 ← plan_targets env reservation_id (deposit_targets reservation_id db.financial_operations) db
  plan_targets env reservation_id
      (current_target (find_deposit reservation_id db1.security_deposits)) db1
