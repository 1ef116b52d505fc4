-- ===== src/Events/Lease.antt =====
-- A lease of src/lib/stripe-event-ledger.ts holds against every other worker until it is stale.
use rent_a_4_wheel.Prelude.{
  ℕ, ◌≤◌, ◌≡◌, ◌≢◌, refl, false, Option, none, some, List, [], ◌∷◌, ◌++◌, find-update_where_skip,
  find-update_where_self, nat_beq_iff, nat_eq, option_eq, ◌==◌, arith,
}
use rent_a_4_wheel.Events.{
  EventStatus, event_status_eq, StripeEvent, EventTable, EventParams, find_event, receive, intake,
  is_claimable, claimed, claim_update, mark_stripe_event_processed, fail_update,
}

-- The row of the record is in processing since `started` under the token.
pub record Holds (id token started : ℕ) (table : EventTable) : Type 0 where
  pub row : StripeEvent
  pub found : find_event id table.events ≡ some row
  pub in_processing : row.status ≡ EventStatus.processing
  pub since : row.processing_started_at ≡ some started
  pub under : row.lease_token ≡ some token

-- A transaction of another worker: a delivery that records an event, a claim whose threshold the lease
-- has not reached, and a completion or a failure under another token.
pub data Rival (token started : ℕ) (table : EventTable) : EventTable → Type 0 where
  receives :
      (now stale : ℕ) (p : EventParams) → Rival token started table (receive now stale p table).1
  claims :
      (id token' stale now : ℕ)
      → stale ≤ started
      → Rival token started table (claim_update id token' stale now table)
  processes :
      (id token' now : ℕ)
      → token' ≢ token
      → Rival token started table (mark_stripe_event_processed id token' now table)
  fails :
      (id token' attempts message now : ℕ)
      → token' ≢ token
      → Rival token started table (fail_update id token' attempts message now table)

pub data Rivals (token started : ℕ) (table : EventTable) : EventTable → Type 0 where
  done : Rivals token started table table
  more :
      {t1 t2 : EventTable}
      → Rivals token started table t1
      → Rival token started t1 t2
      → Rivals token started table t2

find-append :
    (id : ℕ) (xs ys : List StripeEvent) (r : StripeEvent)
    → find_event id xs ≡ some r
    → find_event id (xs ++ ys) ≡ some r
unfolding find_event
find-append id [] ys r h = cc
find-append id (x ∷ xs) ys r h = ground (arith, find-append id xs ys r)

intake-keeps :
    (id now stale : ℕ) (p : EventParams) (o : Option StripeEvent) (table : EventTable)
    (r : StripeEvent)
    → find_event id table.events ≡ some r
    → find_event id (intake now stale p o table).1.events ≡ some r
unfolding intake
intake-keeps id now stale p none table r h = find-append id table.events _ r h
intake-keeps id now stale p (some e) table r h = h

pub not_claimable :
    (r : StripeEvent) (started stale : ℕ)
    → r.status ≡ EventStatus.processing
    → r.processing_started_at ≡ some started
    → stale ≤ started
    → is_claimable stale r ≡ false
unfolding is_claimable
not_claimable r started stale e s h = rw e (rw s (ground arith))

pub other_token :
    (r : StripeEvent) (token token' : ℕ)
    → r.lease_token ≡ some token
    → token' ≢ token
    → (r.lease_token == some token') ≡ false
other_token r token token' e n = rw e (ground (arith, nat_beq_iff token token'))

Rival-find_event :
    (id token started : ℕ) (table table' : EventTable) (h : Holds id token started table)
    → Rival token started table table'
    → find_event id table'.events ≡ some h.row
unfolding find_event receive claim_update claimed mark_stripe_event_processed fail_update
Rival-find_event id token started table _ h (receives now stale p) =
    intake-keeps id now stale p _ table h.row h.found
Rival-find_event id token started table _ h (claims id' token' stale now l) =
    find-update_where_skip (λ e. e.id == id) _ _ table.events h.row (λ x. refl) h.found
      (ground (arith, not_claimable h.row started stale h.in_processing h.since l))
Rival-find_event id token started table _ h (processes id' token' now n) =
    find-update_where_skip (λ e. e.id == id) _ _ table.events h.row (λ x. refl) h.found
      (ground (arith, other_token h.row token token' h.under n))
Rival-find_event id token started table _ h (fails id' token' attempts message now n) =
    find-update_where_skip (λ e. e.id == id) _ _ table.events h.row (λ x. refl) h.found
      (ground (arith, other_token h.row token token' h.under n))

completes :
    (id token now : ℕ) (table : EventTable) (r : StripeEvent)
    → find_event id table.events ≡ some r
    → r.lease_token ≡ some token
    → find_event id (mark_stripe_event_processed id token now table).events
      ≡ some (record r { status = EventStatus.processed; processed_at = some now })
unfolding find_event mark_stripe_event_processed
completes id token now table r f u =
    find-update_where_self (λ e. e.id == id) _ _ table.events r (λ x. refl) f
      (rw u (ground (arith, nat_beq_iff token token)))

Rivals-find_event :
    (id token started : ℕ) (table table' : EventTable) (h : Holds id token started table)
    → Rivals token started table table'
    → find_event id table'.events ≡ some h.row
Rivals-find_event id token started table _ h done = h.found
Rivals-find_event id token started table table' h (more rs r) =
    let k : Holds id token started _ = record {
      row = h.row;
      found = Rivals-find_event id token started table _ h rs;
      in_processing = h.in_processing;
      since = h.since;
      under = h.under;
    } in
    Rival-find_event id token started _ table' k r

-- While a lease is not stale for the others, no sequence of their deliveries, claims, completions and
-- failures takes or changes its row; when the holder completes after them, its row is processed.
pub lease_survives :
    (id token started now : ℕ) (table table' : EventTable) (h : Holds id token started table)
    → Rivals token started table table'
    → (find_event id table'.events ≡ some h.row)
      × (find_event id (mark_stripe_event_processed id token now table').events
          ≡ some (record h.row { status = EventStatus.processed; processed_at = some now }))
lease_survives id token started now table table' h rs =
    let f = Rivals-find_event id token started table table' h rs in
    (f, completes id token now table' h.row f h.under)
