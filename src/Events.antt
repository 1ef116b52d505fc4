-- ===== src/Events.antt =====
-- src/lib/stripe-event-ledger.ts: every webhook event is claimed under a lease before it is handled.
pub mod Lease
pub mod Claims
use rent_a_4_wheel.Prelude.{
  ℕ, zero, suc, ◌+◌, ◌-◌, ◌*◌, ◌≡◌, min, Bool, true, false, not, ◌&&◌, ◌||◌, Option, none, some,
  List, [], ◌∷◌, ◌++◌, find, count_by, update_where, includes, if◌then◌else◌, ltb, nat_beq, nat_eq,
  option_eq, Eq, ◌==◌, ◌↔◌, Result, ok, err, or_throw, ◌>>=◌, arith,
}

-- Enum StripeEventStatus of prisma/schema.prisma.
pub data EventStatus : Type 0 where
  received processing processed failed : EventStatus

abbrev pub event_rank : EventStatus → ℕ
event_rank EventStatus.received = 0
event_rank EventStatus.processing = 1
event_rank EventStatus.processed = 2
event_rank EventStatus.failed = 3

abbrev pub event_beq : EventStatus → EventStatus → Bool
event_beq a b = nat_beq (event_rank a) (event_rank b)

pub event_beq_iff : (a b : EventStatus) → (event_beq a b ≡ true) ↔ (a ≡ b)
event_beq_iff a b = ground arith

instance abbrev pub event_status_eq : Eq EventStatus
event_status_eq = record { beq = event_beq; beq_iff = event_beq_iff }

-- Model StripeEvent. Dates are milliseconds; a payload and an error stand for their texts.
pub record StripeEvent : Type 0 where
  pub id : ℕ
  pub stripe_event_id : ℕ
  pub type : ℕ
  pub payload : ℕ
  pub status : EventStatus
  pub attempt_count : ℕ
  pub last_error : Option ℕ
  pub received_at : ℕ
  pub processing_started_at : Option ℕ
  pub processed_at : Option ℕ
  pub next_retry_at : Option ℕ
  pub lease_token : Option ℕ

pub record EventTable : Type 0 where
  pub events : List StripeEvent
  pub next_id : ℕ

pub data RefusalReason : Type 0 where
  already_processed in_progress_elsewhere : RefusalReason

pub data ClaimResult : Type 0 where
  should_process : (event_record_id lease_token : ℕ) → ClaimResult
  refused : RefusalReason → ClaimResult

pub data EventError : Type 0 where
  record_not_found : EventError

-- STALE_PROCESSING_MS.
abbrev pub stale_processing_ms : ℕ
stale_processing_ms = 2 * 60 * 1000

abbrev pub stale_threshold : ℕ → ℕ
stale_threshold now = now - stale_processing_ms

-- BACKOFF_SCHEDULE_MS at `Math.min(attemptCount, length - 1)`.
unfoldable pub next_retry_delay_ms : ℕ → ℕ
next_retry_delay_ms zero = 30000
next_retry_delay_ms (suc zero) = 2 * 60000
next_retry_delay_ms (suc (suc zero)) = 10 * 60000
next_retry_delay_ms (suc (suc (suc zero))) = 30 * 60000
next_retry_delay_ms _ = 60 * 60000

-- `processingStartedAt > t` and `< t`: false of a null.
abbrev pub is_after : Option ℕ → ℕ → Bool
is_after none t = false
is_after (some s) t = ltb t s

abbrev pub is_before : Option ℕ → ℕ → Bool
is_before none t = false
is_before (some s) t = ltb s t

unfoldable pub find_event : ℕ → List StripeEvent → Option StripeEvent
find_event id es = find (λ e. e.id == id) es

pub record EventParams : Type 0 where
  pub stripe_event_id : ℕ
  pub type : ℕ
  pub payload : ℕ

pub data Intake : Type 0 where
  recorded : ℕ → Intake
  turned_away : RefusalReason → Intake

-- The row of a duplicate delivery.
unfoldable pub intake_existing : (stale : ℕ) → StripeEvent → Intake
intake_existing stale e =
    if e.status == EventStatus.processed
    then Intake.turned_away already_processed
    else if e.status == EventStatus.processing && is_after e.processing_started_at stale
    then Intake.turned_away in_progress_elsewhere
    else Intake.recorded e.id

-- The row that `create` inserts.
unfoldable pub new_event : ℕ → ℕ → EventParams → StripeEvent
new_event id now p = record {
  id = id;
  stripe_event_id = p.stripe_event_id;
  type = p.type;
  payload = p.payload;
  status = EventStatus.received;
  attempt_count = 0;
  last_error = none;
  received_at = now;
  processing_started_at = none;
  processed_at = none;
  next_retry_at = none;
  lease_token = none;
}

-- `create`, and where the event id exists already the row of it.
intake : (now stale : ℕ) → EventParams → Option StripeEvent → EventTable → Intake × EventTable
unfolding new_event intake_existing
intake now stale p (some e) table = (intake_existing stale e, table)
intake now stale p none table = (
  Intake.recorded table.next_id,
  record {
    events = table.events ++ new_event table.next_id now p ∷ [];
    next_id = table.next_id + 1;
  },
)

unfoldable pub receive : (now stale : ℕ) → EventParams → EventTable → Intake × EventTable
unfolding intake
receive now stale p table =
    intake now stale p (find (λ e. e.stripe_event_id == p.stripe_event_id) table.events) table

-- The condition of the compare-and-swap.
unfoldable pub is_claimable : (stale : ℕ) → StripeEvent → Bool
is_claimable stale e =
    includes (EventStatus.received ∷ EventStatus.failed ∷ []) e.status
    || (e.status == EventStatus.processing && is_before e.processing_started_at stale)

unfoldable pub claimed : (now lease_token : ℕ) → StripeEvent → StripeEvent
claimed now lease_token e = record e {
  status = EventStatus.processing;
  processing_started_at = some now;
  attempt_count = e.attempt_count + 1;
  lease_token = some lease_token;
}

unfoldable pub claim_update : (id lease_token stale now : ℕ) → EventTable → EventTable
unfolding is_claimable claimed
claim_update id lease_token stale now table = record table {
  events =
      update_where (λ e. e.id == id && is_claimable stale e) (claimed now lease_token) table.events;
}

-- The answer where the update changed no row.
unfoldable pub refusal : StripeEvent → RefusalReason
refusal e = if e.status == EventStatus.processed then already_processed else in_progress_elsewhere

unfoldable pub claim_existing_record :
    (id lease_token stale now : ℕ) → EventTable → Result EventError (ClaimResult × EventTable)
unfolding is_claimable claim_update refusal
claim_existing_record id lease_token stale now table =
    let count = count_by (λ e. e.id == id && is_claimable stale e) table.events in
    let table' = claim_update id lease_token stale now table in
    if count == 1 then ok (ClaimResult.should_process id lease_token, table') else do
      reloaded ← or_throw (find_event id table'.events) record_not_found
      ok (ClaimResult.refused (refusal reloaded), table')

unfoldable pub mark_stripe_event_processed : (id lease_token now : ℕ) → EventTable → EventTable
mark_stripe_event_processed id lease_token now table = record table {
  events =
      update_where (λ e. e.id == id && (e.lease_token == some lease_token))
        (λ e. record e { status = EventStatus.processed; processed_at = some now }) table.events;
}

-- The conditional update of a failure, with the attempts that were read before it.
unfoldable pub fail_update : (id lease_token attempts message now : ℕ) → EventTable → EventTable
fail_update id lease_token attempts message now table = record table {
  events =
      update_where (λ e. e.id == id && (e.lease_token == some lease_token))
        (λ e. record e {
          status = EventStatus.failed;
          last_error = some message;
          next_retry_at = some (now + next_retry_delay_ms attempts);
        })
        table.events;
}

-- Fenced out by a newer claim.
unfoldable pub fail_read :
    (id lease_token message now : ℕ) → Option StripeEvent → EventTable → EventTable
fail_read id lease_token message now none table = table
fail_read id lease_token message now (some r) table =
    if r.lease_token == some lease_token
    then fail_update id lease_token r.attempt_count message now table
    else table

unfoldable pub mark_stripe_event_failed : (id lease_token message now : ℕ) → EventTable → EventTable
unfolding fail_read
mark_stripe_event_failed id lease_token message now table =
    fail_read id lease_token message now (find_event id table.events) table

-- What a delivery does after its intake.
pub claim_taken :
    (lease_token stale now : ℕ) → Intake × EventTable → Result EventError (ClaimResult × EventTable)
unfolding claim_existing_record
claim_taken lease_token stale now (Intake.turned_away reason, table) =
    ok (ClaimResult.refused reason, table)
claim_taken lease_token stale now (Intake.recorded id, table) =
    claim_existing_record id lease_token stale now table

-- The whole of a delivery: `stale` from the clock at its start, the claim at `claim_now`.
unfoldable pub claim_stripe_event_for_processing :
    (now claim_now lease_token : ℕ)
    → EventParams
    → EventTable
    → Result EventError (ClaimResult × EventTable)
unfolding claim_taken
claim_stripe_event_for_processing now claim_now lease_token p table =
    claim_taken lease_token (stale_threshold now) claim_now
      (receive now (stale_threshold now) p table)
