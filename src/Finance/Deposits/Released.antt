-- ===== src/Finance/Deposits/Released.antt =====
-- An observation of src/lib/deposit-authorization.ts leaves a released deposit released.
use rent_a_4_wheel.Prelude.{
  ℕ, ◌≡◌, refl, ◌∙◌, Bool, true, false, inl, inr, some, find, find-holds, find-update_where_only,
  find-update_where_past, some-injective, update_where, if-cases, Bool-cases, nat_eq, nat_beq_iff,
  option_eq, option_beq_iff, ◌==◌, ok, ap, sym, subst, arith,
}
use rent_a_4_wheel.Schema.Enums.{intent_status_eq, payment_status_eq}
use rent_a_4_wheel.Schema.Money.{SecurityDeposit, FinancialOperation}
use rent_a_4_wheel.Schema.Database.{Db, Env, find_deposit}
use rent_a_4_wheel.Finance.Runs.{find_operation}
use rent_a_4_wheel.Finance.Deposits.{
  Intent, is_outdated, is_accepted, released_by, observed_row, owns_intent, operation_of,
  latest_operation, observe, sync_deposit_intent,
}
use rent_a_4_wheel.Finance.Deposits.Rows.{IsKept, maybe_plan-IsKept, sync-Synced}

module _ (reservation_id intent_id : ℕ) where
  -- The deposit row is of the intent and released, and its operation is the one that made the intent.
  pub record IsReleased (db : Db) : Type 0 where
    pub row : SecurityDeposit
    pub found : find_deposit reservation_id db.security_deposits ≡ some row
    pub of_intent : row.stripe_payment_intent_id ≡ some intent_id
    pub time : ℕ
    pub released : row.released_at ≡ some time
    pub owner : ℕ
    pub owned : row.operation_id ≡ some owner
    pub operation : FinancialOperation
    pub operation_found : find_operation owner db.financial_operations ≡ some operation
    pub made : operation.provider_id ≡ some intent_id

  -- An observation that counts for such a row leaves it released.
  row_stays :
      (now : ℕ) (i : Intent) (d : SecurityDeposit) (op : FinancialOperation) (t : ℕ)
      → d.stripe_payment_intent_id ≡ some intent_id
      → d.released_at ≡ some t
      → op.provider_id ≡ some intent_id
      → is_accepted now i d (some op) ≡ true
      → (i.id ≡ intent_id) × ((observed_row now i d).released_at ≡ some t)
  unfolding is_accepted owns_intent is_outdated observed_row released_by
  row_stays now i d op t p r m a = ground (
    arith,
    option_beq_iff nat_eq op.provider_id (some i.id),
    option_beq_iff nat_eq d.stripe_payment_intent_id (some i.id),
  )

  -- The row written by an observation of this deposit.
  written-IsReleased :
      (now : ℕ) (i : Intent) (db : Db) (s : IsReleased db)
      → is_accepted now i s.row (some s.operation) ≡ true
      → IsReleased (record db {
        security_deposits =
            update_where
              (λ e. e.reservation_id == s.row.reservation_id)
              (λ e. observed_row now i s.row)
              db.security_deposits;
      })
  unfolding find_deposit observed_row
  written-IsReleased now i db s a =
      let (same, kept) = row_stays now i s.row s.operation s.time s.of_intent s.released s.made a in
      record {
        row = observed_row now i s.row;
        found =
            find-update_where_only (λ e. e.reservation_id == reservation_id)
              (λ e. e.reservation_id == s.row.reservation_id) (λ e. observed_row now i s.row)
              db.security_deposits s.row
              (λ e h. ap (λ n. n == reservation_id) (sym ((nat_beq_iff _ _).0 h))) s.found
              ((nat_beq_iff _ _).1 refl);
        of_intent = ap some same;
        time = s.time;
        released = kept;
        owner = s.owner;
        owned = s.owned;
        operation = s.operation;
        operation_found = s.operation_found;
        made = s.made;
      }

  -- The row is not touched by an observation of another deposit.
  other-IsReleased :
      (now : ℕ) (i : Intent) (d : SecurityDeposit) (db : Db) (s : IsReleased db)
      → (s.row.reservation_id == d.reservation_id) ≡ false
      → IsReleased (record db {
        security_deposits =
            update_where
              (λ e. e.reservation_id == d.reservation_id)
              (λ e. observed_row now i d)
              db.security_deposits;
      })
  unfolding find_deposit observed_row
  other-IsReleased now i d db s n = record {
    row = s.row;
    found =
        find-update_where_past (λ e. e.reservation_id == reservation_id)
          (λ e. e.reservation_id == d.reservation_id) (λ e. observed_row now i d)
          db.security_deposits s.row
          (λ e h. ap (λ n. n == reservation_id) (sym ((nat_beq_iff _ _).0 h))) s.found n;
    of_intent = s.of_intent;
    time = s.time;
    released = s.released;
    owner = s.owner;
    owned = s.owned;
    operation = s.operation;
    operation_found = s.operation_found;
    made = s.made;
  }

  -- The operation that the row names, in tables that keep it.
  latest_is : (db : Db) (s : IsReleased db) → latest_operation s.row db ≡ some s.operation
  unfolding latest_operation operation_of
  latest_is db s = rw s.owned s.operation_found

  own-IsReleased :
      (now : ℕ) (i : Intent) (db : Db) (s : IsReleased db) → IsReleased (observe now i s.row db).1
  unfolding observe
  own-IsReleased now i db s =
      if-cases {A = Bool × Db} (λ t. IsReleased t.1)
        (is_accepted now i s.row (latest_operation s.row db)) _ _
        (λ h.
          written-IsReleased now i db s (ap (is_accepted now i s.row) (sym (latest_is db s)) ∙ h))
        (λ h. s)

  same_row :
      (d : SecurityDeposit) (db : Db) (s : IsReleased db)
      → find_deposit d.reservation_id db.security_deposits ≡ some d
      → (s.row.reservation_id == d.reservation_id) ≡ true
      → s.row ≡ d
  unfolding find_deposit
  same_row d db s f b =
      let key : s.row.reservation_id ≡ reservation_id =
        (nat_beq_iff _ _).0 (
          find-holds (λ e. e.reservation_id == reservation_id) db.security_deposits s.row
            s.found) in
      let same = sym key ∙ (nat_beq_iff _ _).0 b in
      some-injective
        (sym s.found ∙ ap (λ n. find (λ e. e.reservation_id == n) db.security_deposits) same ∙ f)

  observed-IsReleased :
      (now : ℕ) (i : Intent) (d : SecurityDeposit) (db : Db)
      → find_deposit d.reservation_id db.security_deposits ≡ some d
      → IsReleased db
      → IsReleased (observe now i d db).1
  unfolding observe
  observed-IsReleased now i d db f s =
      elim (Bool-cases (s.row.reservation_id == d.reservation_id)) [
        | inl b ↦
            subst (λ e. IsReleased (observe now i e db).1) (same_row d db s f b)
              (own-IsReleased now i db s)
        | inr b ↦
            if-cases {A = Bool × Db} (λ t. IsReleased t.1)
              (is_accepted now i d (latest_operation d db)) _ _
              (λ h. other-IsReleased now i d db s b) (λ h. s)
      ]

  -- Tables in which the deposits are the same and the operations kept.
  kept-IsReleased :
      (db db' : Db) (s : IsReleased db)
      → db'.security_deposits ≡ db.security_deposits
      → IsKept s.owner s.operation db'.financial_operations
      → IsReleased db'
  kept-IsReleased db db' s e (op, f, k) = record {
    row = s.row;
    found = rw e s.found;
    of_intent = s.of_intent;
    time = s.time;
    released = s.released;
    owner = s.owner;
    owned = s.owned;
    operation = op;
    operation_found = f;
    made = ap (λ t. t.1.1) k ∙ s.made;
  }

  pub sync-IsReleased :
      (env : Env) (r : ℕ) (i : Intent) (v : Bool) (db db' : Db)
      → sync_deposit_intent env r i db ≡ ok (v, db')
      → IsReleased db
      → IsReleased db'
  sync-IsReleased env r i v db db' h s =
      let y = sync-Synced env r i v db db' h in
      let k = kept-IsReleased db y.planned s y.same_deposits (
        maybe_plan-IsKept s.owner s.operation env r i.id _ db y.planned y.plan s.operation_found) in
      subst IsReleased (ap (λ t. t.1) y.observed) (
        observed-IsReleased env.now i y.row y.planned
          (ap (find_deposit y.row.reservation_id) y.same_deposits
            ∙ ap (λ n. find_deposit n db.security_deposits) y.row_key
            ∙ y.row_found)
          k)
