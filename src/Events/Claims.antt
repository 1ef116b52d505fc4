-- ===== src/Events/Claims.antt =====
-- A claim of src/lib/stripe-event-ledger.ts is won by one worker, and a processed event by none.
use rent_a_4_wheel.Prelude.{
  ℕ, ◌≤◌, ◌≡◌, refl, ap, true, false, ◌&&◌, some, find, count_by, find-update_where_skip,
  find-append, Option, none, if-cases, ◌≢◌, find-update_where_self, find-count_by, count_by-and-le,
  count_by-found, count_by-update_where, nat_eq, option_eq, ◌==◌, arith, ok,
}
use rent_a_4_wheel.Events.{
  EventStatus, event_status_eq, StripeEvent, EventTable, EventParams, ClaimResult,
  already_processed, in_progress_elsewhere, Intake, find_event, receive, intake, intake_existing,
  is_claimable, claimed, claim_update, refusal, claim_existing_record, claim_taken,
  claim_stripe_event_for_processing, stale_threshold, mark_stripe_event_processed,
  mark_stripe_event_failed, fail_update, fail_read,
}
use rent_a_4_wheel.Events.Lease.{Holds, not_claimable, other_token}

-- The ids are unique.
abbrev pub IsKeyed : EventTable → Type 0
IsKeyed table = (i : ℕ) → count_by (λ e. e.id == i) table.events ≤ 1

claim_update-IsKeyed :
    (id token stale now : ℕ) (table : EventTable)
    → IsKeyed table
    → IsKeyed (claim_update id token stale now table)
unfolding claim_update claimed
claim_update-IsKeyed id token stale now table u = λ i. omega (
  arith,
  u i,
  count_by-update_where (λ e. e.id == i) (λ e. e.id == id && is_claimable stale e)
      (claimed now token) table.events (λ x. refl),
)

not_one :
    (id stale : ℕ) (table : EventTable) (r : StripeEvent)
    → IsKeyed table
    → find_event id table.events ≡ some r
    → is_claimable stale r ≡ false
    → (count_by (λ e. e.id == id && is_claimable stale e) table.events == 1) ≡ false
unfolding find_event
not_one id stale table r u f c =
    ground
      (arith, u id, find-count_by (λ e. e.id == id) (is_claimable stale) table.events r (u id) f)

-- A row that is not claimable is not claimed.
refuses :
    (id token stale now : ℕ) (table : EventTable) (r : StripeEvent)
    → IsKeyed table
    → find_event id table.events ≡ some r
    → is_claimable stale r ≡ false
    → (claim_existing_record id token stale now table
        ≡ ok (ClaimResult.refused (refusal r), claim_update id token stale now table))
      × (find_event id (claim_update id token stale now table).events ≡ some r)
unfolding claim_existing_record find_event claim_update claimed
refuses id token stale now table r u f c =
    let kept =
      find-update_where_skip (λ e. e.id == id) (λ e. e.id == id && is_claimable stale e)
        (claimed now token) table.events r (λ x. refl) f (ground (arith, c)) in
    (rw (not_one id stale table r u f c) (rw kept refl), kept)

wins :
    (id token stale now : ℕ) (table : EventTable) (r : StripeEvent)
    → find_event id table.events ≡ some r
    → is_claimable stale r ≡ true
    → Holds id token now (claim_update id token stale now table)
unfolding find_event claim_update claimed
wins id token stale now table r f c = record {
  row = claimed now token r;
  found =
      find-update_where_self (λ e. e.id == id) (is_claimable stale) (claimed now token) table.events
        r (λ x. refl) f c;
  in_processing = refl;
  since = refl;
  under = refl;
}

one :
    (id stale : ℕ) (table : EventTable) (r : StripeEvent)
    → IsKeyed table
    → find_event id table.events ≡ some r
    → is_claimable stale r ≡ true
    → (count_by (λ e. e.id == id && is_claimable stale e) table.events == 1) ≡ true
unfolding find_event
one id stale table r u f c = ground (
  arith,
  u id,
  count_by-and-le (λ e. e.id == id) (is_claimable stale) table.events,
  count_by-found (λ e. e.id == id) (is_claimable stale) table.events r f c,
)

accepts :
    (id token stale now : ℕ) (table : EventTable) (r : StripeEvent)
    → IsKeyed table
    → find_event id table.events ≡ some r
    → is_claimable stale r ≡ true
    → claim_existing_record id token stale now table
      ≡ ok (ClaimResult.should_process id token, claim_update id token stale now table)
unfolding claim_existing_record claim_update
accepts id token stale now table r u f c = rw (one id stale table r u f c) refl

-- A claim of a record that is received, failed or stale succeeds and leaves the record in processing
-- under its token, and then every other claim whose threshold is not past that moment is told that the
-- record is in progress.
claim_wins_once :
    (id token stale now : ℕ) (table : EventTable) (r : StripeEvent)
    → IsKeyed table
    → find_event id table.events ≡ some r
    → is_claimable stale r ≡ true
    → (claim_existing_record id token stale now table
        ≡ ok (ClaimResult.should_process id token, claim_update id token stale now table))
      × Holds id token now (claim_update id token stale now table)
      × ((token2 stale2 now2 : ℕ)
          → stale2 ≤ now
          → claim_existing_record id token2 stale2 now2 (claim_update id token stale now table)
            ≡ ok (
              ClaimResult.refused in_progress_elsewhere,
              claim_update id token2 stale2 now2 (claim_update id token stale now table),
            ))
unfolding refusal
claim_wins_once id token stale now table r u f c =
    let h = wins id token stale now table r f c in
    (
      accepts id token stale now table r u f c,
      h,
      λ token2 stale2 now2 l.
          let (e, _) =
            refuses id token2 stale2 now2 (claim_update id token stale now table) h.row
              (claim_update-IsKeyed id token stale now table u) h.found
              (not_claimable h.row now stale2 h.in_processing h.since l) in
          rw h.in_processing at e,
    )

-- What any workers do to the tables once an event is processed under the token: deliveries, claims,
-- and completions and failures under other tokens.
pub data Afterwards (token : ℕ) : EventTable → EventTable → Type 0 where
  done : {t : EventTable} → Afterwards token t t
  receives :
      {t t' : EventTable} (now stale : ℕ) (p : EventParams)
      → Afterwards token t t'
      → Afterwards token t (receive now stale p t').1
  claims :
      {t t' : EventTable} (id token' stale now : ℕ)
      → Afterwards token t t'
      → Afterwards token t (claim_update id token' stale now t')
  completes :
      {t t' : EventTable} (id token' now : ℕ)
      → token' ≢ token
      → Afterwards token t t'
      → Afterwards token t (mark_stripe_event_processed id token' now t')
  fails :
      {t t' : EventTable} (id token' message now : ℕ)
      → token' ≢ token
      → Afterwards token t t'
      → Afterwards token t (mark_stripe_event_failed id token' message now t')

-- The row of the event id of the provider.
find_delivered : ℕ → EventTable → Option StripeEvent
find_delivered stripe_id table = find (λ e. e.stripe_event_id == stripe_id) table.events

intake-delivered :
    (now stale stripe_id : ℕ) (p : EventParams) (o : Option StripeEvent) (table : EventTable)
    (r : StripeEvent)
    → find_delivered stripe_id table ≡ some r
    → find_delivered stripe_id (intake now stale p o table).1 ≡ some r
unfolding intake find_delivered
intake-delivered now stale stripe_id p none table r h =
    find-append (λ e. e.stripe_event_id == stripe_id) table.events _ r h
intake-delivered now stale stripe_id p (some e) table r h = h

not_claimed :
    (r : StripeEvent) (stale : ℕ) → r.status ≡ EventStatus.processed → is_claimable stale r ≡ false
unfolding is_claimable
not_claimed r stale s = rw s refl

fail_update-delivered :
    (id token token' attempts message now stripe_id : ℕ) (table : EventTable) (r : StripeEvent)
    → r.lease_token ≡ some token
    → token' ≢ token
    → find_delivered stripe_id table ≡ some r
    → find_delivered stripe_id (fail_update id token' attempts message now table) ≡ some r
unfolding fail_update find_delivered
fail_update-delivered id token token' attempts message now stripe_id table r u n f =
    find-update_where_skip (λ e. e.stripe_event_id == stripe_id)
      (λ e. e.id == id && (e.lease_token == some token')) _ table.events r (λ x. refl) f
      (ground (arith, other_token r token token' u n))

failed-delivered :
    (id token token' message now stripe_id : ℕ) (read : Option StripeEvent) (table : EventTable)
    (r : StripeEvent)
    → r.lease_token ≡ some token
    → token' ≢ token
    → find_delivered stripe_id table ≡ some r
    → find_delivered stripe_id (fail_read id token' message now read table) ≡ some r
unfolding fail_read
failed-delivered id token token' message now stripe_id none table r u n f = f
failed-delivered id token token' message now stripe_id (some x) table r u n f =
    if-cases (λ t. find_delivered stripe_id t ≡ some r) (x.lease_token == some token')
      (fail_update id token' x.attempt_count message now table) table
      (λ b.
        fail_update-delivered id token token' x.attempt_count message now stripe_id table r u n f)
      (λ b. f)

stays_delivered :
    (token stripe_id : ℕ) (table table' : EventTable) (r : StripeEvent)
    → r.status ≡ EventStatus.processed
    → r.lease_token ≡ some token
    → find_delivered stripe_id table ≡ some r
    → Afterwards token table table'
    → find_delivered stripe_id table' ≡ some r
unfolding find_delivered receive claim_update claimed mark_stripe_event_processed
    mark_stripe_event_failed
stays_delivered token stripe_id table _ r s u f done = f
stays_delivered token stripe_id table _ r s u f (receives now stale p a) =
    intake-delivered now stale stripe_id p _ _ r (stays_delivered token stripe_id table _ r s u f a)
stays_delivered token stripe_id table _ r s u f (claims {t' = t'} id token' stale now a) =
    find-update_where_skip (λ e. e.stripe_event_id == stripe_id)
      (λ e. e.id == id && is_claimable stale e) _ t'.events r (λ x. refl)
      (stays_delivered token stripe_id table t' r s u f a) (ground (arith, not_claimed r stale s))
stays_delivered token stripe_id table _ r s u f (completes {t' = t'} id token' now n a) =
    find-update_where_skip (λ e. e.stripe_event_id == stripe_id)
      (λ e. e.id == id && (e.lease_token == some token')) _ t'.events r (λ x. refl)
      (stays_delivered token stripe_id table t' r s u f a)
      (ground (arith, other_token r token token' u n))
stays_delivered token stripe_id table _ r s u f (fails {t' = t'} id token' message now n a) =
    failed-delivered id token token' message now stripe_id _ t' r u n
      (stays_delivered token stripe_id table t' r s u f a)

intake_processed :
    (now stale : ℕ) (p : EventParams) (table : EventTable) (r : StripeEvent)
    → find (λ e. e.stripe_event_id == p.stripe_event_id) table.events ≡ some r
    → r.status ≡ EventStatus.processed
    → receive now stale p table ≡ (Intake.turned_away already_processed, table)
unfolding receive intake intake_existing
intake_processed now stale p table r f s = rw (receive, f, s) refl

-- Once an event is processed under a token, no sequence of deliveries, claims (however stale their
-- thresholds), and completions and failures under other tokens changes its row, and every delivery of it
-- after them is refused as already processed and changes nothing.
pub processed_is_final :
    (now claim_now token token' : ℕ) (p : EventParams) (table table' : EventTable) (r : StripeEvent)
    → find (λ e. e.stripe_event_id == p.stripe_event_id) table.events ≡ some r
    → r.status ≡ EventStatus.processed
    → r.lease_token ≡ some token
    → Afterwards token table table'
    → (find (λ e. e.stripe_event_id == p.stripe_event_id) table'.events ≡ some r)
      × (claim_stripe_event_for_processing now claim_now token' p table'
          ≡ ok (ClaimResult.refused already_processed, table'))
unfolding claim_stripe_event_for_processing claim_taken find_delivered
processed_is_final now claim_now token token' p table table' r f s u a =
    let f' = stays_delivered token p.stripe_event_id table table' r s u f a in
    (
      f',
      ap (claim_taken token' (stale_threshold now) claim_now)
          (intake_processed now (stale_threshold now) p table' r f' s),
    )
