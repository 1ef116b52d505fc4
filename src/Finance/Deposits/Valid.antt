-- ===== src/Finance/Deposits/Valid.antt =====
-- An authorization that src/lib/deposit-authorization.ts takes for valid is one for the projection of
-- src/lib/financial-projection.ts, which gates the start of a trip.
use rent_a_4_wheel.Prelude.{
  ℕ, ◌<◌, ◌≡◌, ◌≢◌, refl, ◌∙◌, Bool, true, false, not, ◌&&◌, ◌||◌, Option, some, List, find,
  find-holds, find-update_where_only, some-injective, update_where, if◌then◌else◌, is_some, [], ◌∷◌,
  ltb, leb, nat_eq, nat_beq_iff, option_eq, ◌==◌, ok, ap, sym, subst, arith,
}
use rent_a_4_wheel.Schema.Enums.{
  OperationKind, operation_kind_eq, OperationState, operation_state_eq, IntentStatus,
  intent_status_eq, intent_status_beq_iff, PaymentStatus, payment_status_eq,
}
use rent_a_4_wheel.Schema.Booking.{Reservation}
use rent_a_4_wheel.Schema.Money.{SecurityDeposit, FinancialOperation}
use rent_a_4_wheel.Schema.Database.{Db, Env, find_deposit}
use rent_a_4_wheel.Finance.Projection.{
  snapshot, deposit_valid, deposit_authorized, authorization_valid, after,
}
use rent_a_4_wheel.Finance.Runs.{find_operation}
use rent_a_4_wheel.Finance.Deposits.{
  Intent, expires_at, is_authorized, is_outdated, is_accepted, released_by, observed_row,
  owns_intent, operation_of, latest_operation, observe, sync_deposit_intent,
}
use rent_a_4_wheel.Finance.Deposits.Rows.{maybe_plan-IsKept, Synced, sync-Synced}

-- The deposit row of a reservation covers its deposit, at a generation after the first, and its operation
-- is a deposit operation that nobody has to review.
pub record IsRunning (r : Reservation) (db : Db) : Type 0 where
  pub row : SecurityDeposit
  pub found : find_deposit r.id db.security_deposits ≡ some row
  pub covers : row.amount_cents ≡ r.deposit_cents
  pub generation : 0 < row.generation
  pub owner : ℕ
  pub owned : row.operation_id ≡ some owner
  pub operation : FinancialOperation
  pub operation_found : find_operation owner db.financial_operations ≡ some operation
  pub is_deposit : operation.kind ≡ OperationKind.deposit
  pub not_reviewed : operation.state ≢ OperationState.review
  pub not_dead : operation.state ≢ OperationState.dead_letter

both : {a b : Bool} → a ≡ true → b ≡ true → (a && b) ≡ true
both p q = ground arith

leb_refl : (n : ℕ) → leb n n ≡ true
leb_refl n = ground arith

module _ (now : ℕ) (i : Intent) (d : SecurityDeposit) (op : FinancialOperation) where
  accepted_parts :
      is_accepted now i d (some op) ≡ true
      → ((op.provider_id == some i.id) ≡ true)
        × ((op.generation == some d.generation) ≡ true)
        × (not d.legacy_uncertain ≡ true)
        × (is_outdated i d ≡ false)
  unfolding is_accepted owns_intent
  accepted_parts a = ground arith

  authorized_parts :
      is_authorized now i d ≡ true
      → (i.status ≡ IntentStatus.requires_capture)
        × (leb d.amount_cents i.amount_capturable ≡ true)
        × (after now (expires_at i) ≡ true)
  unfolding is_authorized after
  authorized_parts v = ground (arith, intent_status_beq_iff i.status IntentStatus.requires_capture)

  not_released :
      i.status ≡ IntentStatus.requires_capture
      → is_outdated i d ≡ false
      → is_some (released_by now i d) ≡ false
  unfolding is_outdated released_by
  not_released e o = ground arith

  -- The row that a valid observation writes is an authorization of the operation.
  row_authorized :
      is_accepted now i d (some op) ≡ true
      → is_authorized now i d ≡ true
      → (d.operation_id == some op.id) ≡ true
      → ltb 0 d.generation ≡ true
      → (op.kind == OperationKind.deposit) ≡ true
      → (op.state == OperationState.review || op.state == OperationState.dead_letter) ≡ false
      → authorization_valid now d.amount_cents (observed_row now i d) op ≡ true
  unfolding authorization_valid observed_row
  row_authorized a v o g k s =
      let (p, n, l, u) = accepted_parts a in
      let (e, c, t) = authorized_parts v in
      let r = not_released e u in
      let status : ((observed_row now i d).status == PaymentStatus.succeeded) ≡ true =
        ap
          (λ b.
            (if b
              then PaymentStatus.succeeded
              else if i.status == IntentStatus.canceled
              then PaymentStatus.cancelled
              else PaymentStatus.failed)
            == PaymentStatus.succeeded)
          v in
      both
        (both
          (both
            (both
              (both (both (both (both (both (both (both (both l o) k) n) g) p) (ap not s)) c)
                status)
              (ap (λ x. x == IntentStatus.requires_capture) e))
            (leb_refl d.amount_cents))
          t)
        (ap not r)

-- What the projection reads of a deposit row and its operation.
deposit_valid_by :
    (now : ℕ) (r : Reservation) (db : Db) (d : SecurityDeposit) (op : FinancialOperation)
    → find_deposit r.id db.security_deposits ≡ some d
    → find (λ o. d.operation_id == some o.id) db.financial_operations ≡ some op
    → authorization_valid now r.deposit_cents d op ≡ true
    → deposit_valid now (snapshot db r) ≡ true
unfolding deposit_valid deposit_authorized snapshot
deposit_valid_by now r db d op f g v = rw (f, g) (ground arith)

same_number : (m n : ℕ) → (m == n) ≡ (n == m)
same_number m n = ground arith

find-same {ℓ} :
    {A : Type ℓ} (q p : A → Bool) (xs : List A) → ((x : A) → q x ≡ p x) → find q xs ≡ find p xs
find-same q p [] k = refl
find-same q p (x ∷ xs) k = ground (arith, k x, find-same q p xs k)

-- The operation of the deposit, found by the column of the row.
owner_found :
    (o : Option ℕ) (id : ℕ) (ops : List FinancialOperation) (op : FinancialOperation)
    → o ≡ some id
    → find_operation id ops ≡ some op
    → (find (λ x. o == some x.id) ops ≡ some op) × ((o == some op.id) ≡ true)
unfolding find_operation
owner_found o id ops op e f = rw e (
  find-same (λ x. some id == some x.id) (λ x. x.id == id) ops (λ x. same_number id x.id) ∙ f,
  same_number id op.id ∙ find-holds (λ x. x.id == id) ops op f,
)

if-true :
    (b v : Bool) (x y t : Db)
    → ◌≡◌ {A = Bool × Db} (if b then (v, x) else (false, y)) (true, t)
    → (b ≡ true) × (v ≡ true) × (x ≡ t)
if-true true v x y t h = (refl, ap (λ p. p.0) h, ap (λ p. p.1) h)
if-true false v x y t h = cc

observe-true :
    (now : ℕ) (i : Intent) (d : SecurityDeposit) (db db' : Db)
    → observe now i d db ≡ (true, db')
    → (is_accepted now i d (latest_operation d db) ≡ true)
      × (is_authorized now i d ≡ true)
      × (update_where
            (λ e. e.reservation_id == d.reservation_id)
            (λ e. observed_row now i d)
            db.security_deposits
          ≡ db'.security_deposits)
      × (db.financial_operations ≡ db'.financial_operations)
unfolding observe
observe-true now i d db db' h =
    let (a, v, e) = if-true _ _ _ _ _ h in
    (a, v, ap (λ t. t.security_deposits) e, ap (λ t. t.financial_operations) e)

row_written :
    (now : ℕ) (i : Intent) (id : ℕ) (d : SecurityDeposit) (ds : List SecurityDeposit)
    → find_deposit id ds ≡ some d
    → find_deposit id
        (update_where (λ e. e.reservation_id == d.reservation_id) (λ e. observed_row now i d) ds)
      ≡ some (observed_row now i d)
unfolding find_deposit observed_row
row_written now i id d ds f =
    find-update_where_only (λ e. e.reservation_id == id) (λ e. e.reservation_id == d.reservation_id)
      (λ e. observed_row now i d) ds d (λ e h. ap (λ n. n == id) (sym ((nat_beq_iff _ _).0 h))) f
      ((nat_beq_iff _ _).1 refl)

lt-ltb : (m n : ℕ) → m < n → ltb m n ≡ true
lt-ltb m n h = ground arith

unreviewed :
    (x : OperationState)
    → x ≢ OperationState.review
    → x ≢ OperationState.dead_letter
    → (x == OperationState.review || x == OperationState.dead_letter) ≡ false
unreviewed OperationState.review h k = absurd (h refl)
unreviewed OperationState.dead_letter h k = absurd (k refl)
unreviewed OperationState.ready h k = refl
unreviewed OperationState.running h k = refl
unreviewed OperationState.retry h k = refl
unreviewed OperationState.poll h k = refl
unreviewed OperationState.observed h k = refl

valid_after :
    (env : Env) (i : Intent) (r : Reservation) (db db' : Db)
    → IsRunning r db
    → Synced env r.id i true db db'
    → deposit_valid env.now (snapshot db' r) ≡ true
unfolding latest_operation operation_of observed_row
valid_after env i r db db' s y =
    let same : y.row ≡ s.row = some-injective (sym y.row_found ∙ s.found) in
    let (op, f, k) =
      maybe_plan-IsKept s.owner s.operation env r.id i.id _ db y.planned y.plan s.operation_found in
    let (a, v, e, o) =
      observe-true env.now i s.row y.planned db'
        (ap (λ d. observe env.now i d y.planned) (sym same) ∙ y.observed) in
    let (g, own) =
      owner_found s.row.operation_id s.owner y.planned.financial_operations op s.owned f in
    let found = ap (find_deposit r.id) y.same_deposits ∙ s.found in
    let latest : latest_operation s.row y.planned ≡ some op = rw s.owned f in
    deposit_valid_by env.now r db' (observed_row env.now i s.row) op
      (subst (λ ds. find_deposit r.id ds ≡ some (observed_row env.now i s.row)) e
        (row_written env.now i r.id s.row y.planned.security_deposits found))
      (subst (λ ops. find (λ x. s.row.operation_id == some x.id) ops ≡ some op) o g)
      (subst (λ n. authorization_valid env.now n (observed_row env.now i s.row) op ≡ true) s.covers
        (row_authorized env.now i s.row op (ap (is_accepted env.now i s.row) (sym latest) ∙ a) v own
          (lt-ltb _ _ s.generation)
          (ap (λ x. x == OperationKind.deposit) (ap (λ t. t.0) k ∙ s.is_deposit))
          (ap (λ x. x == OperationState.review || x == OperationState.dead_letter)
              (ap (λ t. t.1.0) k)
            ∙ unreviewed s.operation.state s.not_reviewed s.not_dead)))

-- Where the observation of a deposit's intent finds a valid authorization, the deposit counts as valid in
-- the projection that gates the trip, if the row covers the deposit of the booking and its operation is a
-- deposit operation that is not under review.
pub authorization_counts :
    (env : Env) (i : Intent) (r : Reservation) (db db' : Db)
    → IsRunning r db
    → sync_deposit_intent env r.id i db ≡ ok (true, db')
    → deposit_valid env.now (snapshot db' r) ≡ true
authorization_counts env i r db db' s h =
    valid_after env i r db db' s (sync-Synced env r.id i true db db' h)
