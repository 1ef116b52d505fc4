-- ===== src/Finance/Runs/Dispatch.antt =====
-- When `runOperation` of src/lib/financial-operations.ts creates at the provider.
use mathlib.Core.List.{Memᴰ}
use rent_a_4_wheel.Prelude.{
  ℕ, ◌+◌, ◌≤◌, ◌≡◌, ◌≢◌, refl, Bool, true, false, not, ◌&&◌, ◌||◌, inl, inr, Bool-cases, Option,
  none, some, List, [], ◌∷◌, includes, count_by, if◌then◌else◌, if-cases, is_some, ltb, nat_eq,
  nat_beq_iff, option_eq, ◌==◌, Result, ok, err, ap, subst, arith,
}
use rent_a_4_wheel.Schema.Enums.{
  OperationKind, operation_kind_eq, OperationState, operation_state_eq, FinancialDisposition,
  disposition_eq, disposition_beq_iff,
}
use rent_a_4_wheel.Schema.Booking.{Reservation}
use rent_a_4_wheel.Schema.Money.{FinancialOperation}
use rent_a_4_wheel.Schema.Database.{Db, Env, Error, find_reservation}
use rent_a_4_wheel.Finance.Runs.{
  RunError, needs_operator, is_finance, FinancialDispatch, was_dispatched, ProviderView, Plan,
  discovery, is_past_replay, plan_deposit, plan_unread, plan_after, plan_run, claim_run,
}
use rent_a_4_wheel.Finance.Runs.Dates.{IsDated, Claims, claim-IsDated, Claims-IsDated}

-- What a creation at the provider needs, if the first attempt of the operation was at `first`.
pub record IsSafeToCreate (now first : ℕ) (db : Db) (calls : List FinancialDispatch)
    (o : FinancialOperation) : Type 0 where
  pub never_created : o.provider_id ≡ none
  pub replayable : is_finance o.kind ≡ false → now ≤ first + 82800000
  pub unsent :
      is_finance o.kind ≡ true
      → (d : FinancialDispatch) → Memᴰ d calls
      → d.operation_id ≡ o.id
      → d.is_dispatched ≡ false
  pub deposit_wanted :
      (id : ℕ) (r : Reservation)
      → o.kind ≡ OperationKind.deposit
      → o.reservation_id ≡ some id
      → find_reservation id db.reservations ≡ some r
      → r.financial_disposition ≡ FinancialDisposition.opened

-- What the planning shows.
past_of :
    (p finance sent : Bool) → finance ≡ false → (p && (not finance || sent)) ≡ false → p ≡ false
past_of p finance sent f h = ground arith

within_window :
    (now first : ℕ) (o : Option ℕ) (finance sent : Bool)
    → o ≡ some first
    → (is_past_replay now o && (not finance || sent)) ≡ false
    → finance ≡ false
    → now ≤ first + 82800000
unfolding is_past_replay
within_window now first o finance sent e h f =
    let k : ltb (first + 82800000) now ≡ false = past_of _ _ _ f (rw e at h) in ground (arith, k)

none_sent :
    (calls : List FinancialDispatch) (id : ℕ) (d : FinancialDispatch)
    → count_by (λ x. x.operation_id == id && x.is_dispatched) calls ≡ 0
    → Memᴰ d calls
    → d.operation_id ≡ id
    → d.is_dispatched ≡ false
none_sent [] id d n m e = elim m [ ]
none_sent (x ∷ calls) id d n (Memᴰ.head h) e =
    ground (
      arith,
      ap (λ y. y.operation_id) h,
      ap (λ y. y.is_dispatched) h,
      nat_beq_iff x.operation_id id,
    )
none_sent (x ∷ calls) id d n (Memᴰ.tail m) e = none_sent calls id d (ground arith) m e

not_sent :
    (calls : List FinancialDispatch) (o : FinancialOperation)
    → (is_finance o.kind && was_dispatched calls o) ≡ false
    → is_finance o.kind ≡ true
    → count_by (λ d. d.operation_id == o.id && d.is_dispatched) calls ≡ 0
unfolding was_dispatched
not_sent calls o h f = ground (arith, h, f)

discovery_is_no_dispatch : (d : Option ℕ) → ¬ (discovery d ≡ ok Plan.dispatch)
discovery_is_no_dispatch none h = cc
discovery_is_no_dispatch (some id) h = cc

disposition_opened :
    (db : Db) (v : ProviderView) (k : Option ℕ) (id : ℕ) (r : Reservation)
    → plan_deposit db k v ≡ ok Plan.dispatch
    → k ≡ some id
    → find_reservation id db.reservations ≡ some r
    → r.financial_disposition ≡ FinancialDisposition.opened
unfolding plan_deposit
disposition_opened db v k id r h e f =
    elim (Bool-cases (r.financial_disposition == FinancialDisposition.opened)) [
      | inl b ↦ (disposition_beq_iff _ _).0 b
      | inr b ↦ absurd (discovery_is_no_dispatch v.discovered (rw (e, f, b) at h))
    ]

not_deposit : (k : OperationKind) → (k == OperationKind.deposit) ≡ false → k ≢ OperationKind.deposit
not_deposit k b e = ground (arith, b, e)

module _ (now first : ℕ) (db : Db) (calls : List FinancialDispatch) (o : FinancialOperation)
    (v : ProviderView) where
  abbrev Creates : Result RunError Plan → Type 0
  Creates p = p ≡ ok Plan.dispatch → IsSafeToCreate now first db calls o

  safe :
      o.first_attempt_at ≡ some first
      → is_some o.provider_id ≡ false
      → (is_past_replay now o.first_attempt_at
          && (not (is_finance o.kind) || was_dispatched calls o))
        ≡ false
      → (is_finance o.kind && was_dispatched calls o) ≡ false
      → ((k : o.kind ≡ OperationKind.deposit)
          → plan_deposit db o.reservation_id v ≡ ok Plan.dispatch)
      → IsSafeToCreate now first db calls o
  safe e c r f d = record {
    never_created = ground (arith, c);
    replayable = within_window now first o.first_attempt_at (is_finance o.kind) _ e r;
    unsent = λ n x. none_sent calls o.id x (not_sent calls o f n);
    deposit_wanted = λ id row k. disposition_opened db v o.reservation_id id row (d k);
  }

  unread : o.first_attempt_at ≡ some first → Creates (plan_unread now db calls o v)
  unfolding plan_unread
  unread e =
      if-cases Creates (is_some o.provider_id) (ok Plan.observe_retrieved) _ (λ b h. cc)
        (λ c.
          if-cases Creates
            (is_past_replay now o.first_attempt_at
              && (not (is_finance o.kind) || was_dispatched calls o))
            (discovery v.discovered) _ (λ b h. absurd (discovery_is_no_dispatch v.discovered h))
            (λ r.
              if-cases Creates (is_finance o.kind && was_dispatched calls o)
                (discovery v.discovered) _ (λ b h. absurd (discovery_is_no_dispatch v.discovered h))
                (λ f.
                  if-cases Creates (o.kind == OperationKind.deposit)
                    (plan_deposit db o.reservation_id v) (ok Plan.dispatch)
                    (λ b h. safe e c r f (λ k. h))
                    (λ b h. safe e c r f (λ k. absurd (not_deposit o.kind b k))))))

  planned :
      (waits : Bool)
      → o.first_attempt_at ≡ some first
      → (if waits then err needs_operator else plan_unread now db calls o v) ≡ ok Plan.dispatch
      → IsSafeToCreate now first db calls o
  planned true e h = cc
  planned false e h = unread e h

module _ (lock_finance : Env → Db → FinancialOperation → Result Error (Unit {0}))
    (apply : Db → Result RunError Db) where
  -- However often operations were claimed since the first attempt of one of them was dated: the run that
  -- claims it and does not read first decides to create it at the provider only where it has no provider
  -- id; within 23 hours of that first attempt, unless it is of a finance kind; for a finance kind only if
  -- no call for it was ever sent; and for the deposit of a reservation only if its disposition is OPEN
  -- in the tables that the run then reads.
  pub creation_is_safe :
      (env : Env) (token first now : ℕ) (op c : FinancialOperation) (db db1 db2 seen : Db)
      (calls : List FinancialDispatch) (v : ProviderView)
      → IsDated op.id first db.financial_operations
      → Claims lock_finance apply db db1
      → claim_run lock_finance apply env token op db1 ≡ ok (c, db2)
      → v.read_before_dispatch ≡ none
      → plan_run now seen calls c v ≡ ok Plan.dispatch
      → IsSafeToCreate now first seen calls c
  unfolding plan_run plan_after
  creation_is_safe env token first now op c db db1 db2 seen calls v d cs h e p =
      let dated = Claims-IsDated lock_finance apply op.id first db db1 cs d in
      planned now first seen calls c v
        (includes (OperationState.review ∷ OperationState.dead_letter ∷ []) c.state)
        ((claim-IsDated lock_finance apply op.id first token env op c db1 db2 h dated).1 refl)
        (subst
          (λ b.
            (if includes (OperationState.review ∷ OperationState.dead_letter ∷ []) c.state
              then err needs_operator
              else plan_after now seen calls c v b)
            ≡ ok Plan.dispatch)
          e p)
