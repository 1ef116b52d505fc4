-- ===== src/Finance/ReleasePlan/Coverage.antt =====
-- Every authorization of a reservation is planned for release.
use mathlib.Core.List.{Memᴰ}
use rent_a_4_wheel.Prelude.{
  ℕ, ◌≡◌, ◌≢◌, refl, ◌∙◌, Bool, true, false, ◌&&◌, Option, none, some, List, [], ◌∷◌, update_where,
  All, ap, sym, nat_eq, option_eq, option_beq_iff, ◌==◌, Option-cases, inl, inr, ok, subst,
  >>=-eq-ok, arith,
}
use rent_a_4_wheel.Schema.Enums.{
  OperationKind, operation_kind_eq, operation_kind_beq_iff, IntentStatus, intent_status_eq,
}
use rent_a_4_wheel.Schema.Money.{FinancialOperation, SecurityDeposit, Key, key_eq}
use rent_a_4_wheel.Schema.Database.{Db, Env, find_deposit}
use rent_a_4_wheel.Finance.Operations.{find_key, prepare_operation}
use rent_a_4_wheel.Finance.Operations.Prepare.{IsPrepared, fingerprint_of, prepare-Prepared}
use rent_a_4_wheel.Finance.ReleasePlan.Frame.{plan_targets-deposits}
use rent_a_4_wheel.Finance.ReleasePlan.{
  release_params, hurry, is_backing_off, adopt_generation, original, set_generation,
  plan_deposit_release, add_target, is_live, live_target, plan_targets, plan_all_deposit_releases,
  deposit_targets, current_target,
}

fingerprint-update_where :
    (k : Key) (q : FinancialOperation → Bool) (f : FinancialOperation → FinancialOperation)
    (ops : List FinancialOperation)
    → ((o : FinancialOperation) → ((f o).key ≡ o.key) × ((f o).fingerprint ≡ o.fingerprint))
    → fingerprint_of (find_key k (update_where q f ops)) ≡ fingerprint_of (find_key k ops)
unfolding find_key
fingerprint-update_where k q f [] h = refl
fingerprint-update_where k q f (x ∷ ops) h =
    ground (arith, h x, fingerprint-update_where k q f ops h)

fingerprint-hurry :
    (k : Key) (now id : ℕ) (ops : List FinancialOperation)
    → fingerprint_of (find_key k (hurry now id ops)) ≡ fingerprint_of (find_key k ops)
unfolding hurry
fingerprint-hurry k now id ops =
    fingerprint-update_where k (λ o. o.id == id && is_backing_off now o)
      (λ o. record o { next_attempt_at = some now }) ops (λ o. (refl, refl))

fingerprint-set_generation :
    (k : Key) (g : Option ℕ) (id : ℕ) (ops : List FinancialOperation)
    → fingerprint_of (find_key k (set_generation g id ops)) ≡ fingerprint_of (find_key k ops)
unfolding set_generation
fingerprint-set_generation k none id ops = refl
fingerprint-set_generation k (some g) id ops =
    fingerprint-update_where k (λ o. o.id == id) (λ o. record o { generation = some g }) ops
      (λ o. (refl, refl))

fingerprint-adopt :
    (k : Key) (g : Option ℕ) (o : Option FinancialOperation) (id : ℕ)
    (ops : List FinancialOperation)
    → fingerprint_of (find_key k (adopt_generation g o id ops)) ≡ fingerprint_of (find_key k ops)
unfolding adopt_generation
fingerprint-adopt k (some g) o id ops = refl
fingerprint-adopt k none none id ops = refl
fingerprint-adopt k none (some o) id ops = fingerprint-set_generation k o.generation id ops

planned_still :
    (env : Env) (id s : ℕ) (db db1 db' : Db)
    → ((o : FinancialOperation)
        → find_key (Key.deposit_release s) db.financial_operations ≡ some o
        → find_key (Key.deposit_release s) db1.financial_operations ≡ some o)
    → fingerprint_of (find_key (Key.deposit_release s) db'.financial_operations)
      ≡ fingerprint_of (find_key (Key.deposit_release s) db1.financial_operations)
    → IsPrepared env (release_params id s) db.financial_operations
    → IsPrepared env (release_params id s) db'.financial_operations
planned_still env id s db db1 db' kept same i =
    elim (Option-cases (find_key (Key.deposit_release s) db.financial_operations)) [
      | inl e ↦ ground arith
      | inr (o, e) ↦ ground (arith, kept o e)
    ]

-- The release of `t` is planned, and the earlier plans stay.
plan_one-IsPrepared :
    (env : Env) (id t : ℕ) (db db' : Db)
    → plan_deposit_release env id t db ≡ ok db'
    → IsPrepared env (release_params id t) db'.financial_operations
      × ((s : ℕ)
          → IsPrepared env (release_params id s) db.financial_operations
          → IsPrepared env (release_params id s) db'.financial_operations)
unfolding plan_deposit_release
plan_one-IsPrepared env id t db db' h =
    let p = release_params id t in
    let ((op, db1), e, h1) = >>=-eq-ok (prepare_operation env p db) _ h in
    let made = prepare-Prepared env p db op db1 e in
    let ops = hurry env.now op.id db1.financial_operations in
    let same = λ (k : Key).
      fingerprint-adopt k op.generation (original id t ops) op.id ops
      ∙ fingerprint-hurry k env.now op.id db1.financial_operations in
    (
      ground (arith, same p.key, made.prepared, made.fingerprinted),
      λ s i.
          planned_still env id s db db1 db' (λ o. made.kept (Key.deposit_release s) o)
            (ground (arith, same (Key.deposit_release s))) i,
    )

plan_targets-keeps :
    (env : Env) (id s : ℕ) (ts : List ℕ) (db db' : Db)
    → plan_targets env id ts db ≡ ok db'
    → IsPrepared env (release_params id s) db.financial_operations
    → IsPrepared env (release_params id s) db'.financial_operations
unfolding plan_targets
plan_targets-keeps env id s [] db db' h i = ground arith
plan_targets-keeps env id s (t ∷ ts) db db' h i =
    let (db1, e, h1) = >>=-eq-ok (plan_deposit_release env id t db) _ h in
    plan_targets-keeps env id s ts db1 db' h1 ((plan_one-IsPrepared env id t db db1 e).1 s i)

abbrev pub ArePlanned : Env → ℕ → List ℕ → Db → Type 0
ArePlanned env id ts db = All (λ t. IsPrepared env (release_params id t) db.financial_operations) ts

plan_targets-ArePlanned :
    (env : Env) (id : ℕ) (ts : List ℕ) (db db' : Db)
    → plan_targets env id ts db ≡ ok db'
    → ArePlanned env id ts db'
unfolding plan_targets
plan_targets-ArePlanned env id [] db db' h = tt
plan_targets-ArePlanned env id (t ∷ ts) db db' h =
    let (db1, e, h1) = >>=-eq-ok (plan_deposit_release env id t db) _ h in
    (
      plan_targets-keeps env id t ts db1 db' h1 (plan_one-IsPrepared env id t db db1 e).0,
      plan_targets-ArePlanned env id ts db1 db' h1,
    )

keep-ArePlanned :
    (env : Env) (id : ℕ) (us ts : List ℕ) (db db' : Db)
    → plan_targets env id us db ≡ ok db'
    → ArePlanned env id ts db
    → ArePlanned env id ts db'
keep-ArePlanned env id us [] db db' h a = tt
keep-ArePlanned env id us (t ∷ ts) db db' h a =
    (plan_targets-keeps env id t us db db' h a.0, keep-ArePlanned env id us ts db db' h a.1)

-- After `planAllDepositReleases` every deposit operation of the reservation that has a provider id and
-- the deposit row's intent, unless it is final, have their releases.
pub plan_all-ArePlanned :
    (env : Env) (id : ℕ) (db db' : Db)
    → plan_all_deposit_releases env id db ≡ ok db'
    → ArePlanned env id (deposit_targets id db.financial_operations) db'
      × ArePlanned env id (current_target (find_deposit id db.security_deposits)) db'
unfolding plan_all_deposit_releases
plan_all-ArePlanned env id db db' h =
    let ts = deposit_targets id db.financial_operations in
    let (db1, e, h1) = >>=-eq-ok (plan_targets env id ts db) _ h in
    let us = current_target (find_deposit id db1.security_deposits) in
    (
      keep-ArePlanned env id us ts db1 db' h1 (plan_targets-ArePlanned env id ts db db1 e),
      subst (λ d. ArePlanned env id (current_target (find_deposit id d)) db')
          (plan_targets-deposits env id ts db db1 e) (plan_targets-ArePlanned env id us db1 db' h1),
    )

-- An operation with a provider id is among the targets.
add_target-member :
    (n : ℕ) (b : Bool) (o : Option ℕ) (ts : List ℕ) → Memᴰ n ts → Memᴰ n (add_target b o ts)
unfolding add_target
add_target-member n true (some t) ts m = Memᴰ.tail m
add_target-member n true none ts m = m
add_target-member n false (some t) ts m = m
add_target-member n false none ts m = m

added :
    (n : ℕ) (b : Bool) (o : Option ℕ) (ts : List ℕ)
    → b ≡ true
    → o ≡ some n
    → Memᴰ n (add_target b o ts)
unfolding add_target
added n b o ts e t = rw (e, t) (Memᴰ.head refl)

pub deposit_targets-member :
    (id intent : ℕ) (o : FinancialOperation) (ops : List FinancialOperation)
    → Memᴰ o ops
    → o.reservation_id ≡ some id
    → o.kind ≡ OperationKind.deposit
    → o.provider_id ≡ some intent
    → Memᴰ intent (deposit_targets id ops)
unfolding deposit_targets
deposit_targets-member id intent o [] m i k t = elim m [ ]
deposit_targets-member id intent o (x ∷ ops) (Memᴰ.head e) i k t =
    added intent (x.reservation_id == some id && x.kind == OperationKind.deposit) x.provider_id
      (deposit_targets id ops)
      (ground (
        arith,
        ap (λ y. y.reservation_id) e,
        ap (λ y. y.kind) e,
        option_beq_iff nat_eq x.reservation_id (some id),
        operation_kind_beq_iff x.kind OperationKind.deposit,
      ))
      (sym (ap (λ y. y.provider_id) e) ∙ t)
deposit_targets-member id intent o (x ∷ ops) (Memᴰ.tail m) i k t =
    add_target-member intent _ x.provider_id _ (deposit_targets-member id intent o ops m i k t)

pub current_target-live :
    (d : SecurityDeposit) (intent : ℕ)
    → d.stripe_payment_intent_id ≡ some intent
    → d.released_at ≡ none
    → d.stripe_status ≢ some IntentStatus.canceled
    → d.stripe_status ≢ some IntentStatus.succeeded
    → current_target (some d) ≡ intent ∷ []
unfolding current_target is_live live_target
current_target-live d intent t r a b =
    let c : (d.stripe_status == some IntentStatus.canceled) ≡ false =
      ground
        (arith, option_beq_iff intent_status_eq d.stripe_status (some IntentStatus.canceled)) in
    let e : (d.stripe_status == some IntentStatus.succeeded) ≡ false =
      ground
        (arith, option_beq_iff intent_status_eq d.stripe_status (some IntentStatus.succeeded)) in
    rw (t, r, c, e) refl

pub All-member {ℓ κ} :
    {A : Type ℓ} (P : A → Type κ) (x : A) (xs : List A) → Memᴰ x xs → All P xs → P x
All-member P x [] m a = elim m [ ]
All-member P x (y ∷ ys) (Memᴰ.head e) a = subst P (sym e) a.0
All-member P x (y ∷ ys) (Memᴰ.tail m) a = All-member P x ys m a.1
