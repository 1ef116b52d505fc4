-- ===== src/Outbox/Delivery.antt =====
-- A message of src/lib/outbox.ts that a worker delivers under its lease is delivered once.
use rent_a_4_wheel.Prelude.{
  ℕ, ◌≤◌, ◌<◌, ◌≡◌, ◌≢◌, refl, Bool, true, false, ◌&&◌, some, none, ap, sym, subst, count_by,
  count_by-and-le, count_by-update_where, find, find-count_by, find-update_where_skip,
  find-update_where_pass, update_where, leb, nat_eq, nat_beq_iff, option_eq, option_beq_iff, ◌==◌,
  arith,
}
use rent_a_4_wheel.Outbox.{
  MessageStatus, message_eq, OutboxMessage, Outbox, find_message, is_due, is_live, is_claimable,
  claimed, claim_message, is_leased, save_sent, save_failed,
}

-- One transaction of any worker on any message, at any time.
pub data Step (ms : Outbox) : Outbox → Type 0 where
  claims : (now token : ℕ) (seen : OutboxMessage) → Step ms (claim_message now token seen ms).1
  sends : (now id token : ℕ) → Step ms (save_sent now id token ms)
  fails : (now id token attempts error : ℕ) → Step ms (save_failed now id token attempts error ms)

pub data Steps (ms : Outbox) : Outbox → Type 0 where
  here : Steps ms ms
  next : {ms' ms'' : Outbox} → Steps ms ms' → Step ms' ms'' → Steps ms ms''

-- The transactions of other workers while a lease runs.
pub data Rival (token until : ℕ) (ms : Outbox) : Outbox → Type 0 where
  claims :
      (now other : ℕ) (seen : OutboxMessage)
      → now < until
      → Rival token until ms (claim_message now other seen ms).1
  sends : (now id other : ℕ) → other ≢ token → Rival token until ms (save_sent now id other ms)
  fails :
      (now id other attempts error : ℕ)
      → other ≢ token
      → Rival token until ms (save_failed now id other attempts error ms)

pub data Rivals (token until : ℕ) (ms : Outbox) : Outbox → Type 0 where
  here : Rivals token until ms ms
  next :
      {ms' ms'' : Outbox}
      → Rivals token until ms ms'
      → Rival token until ms' ms''
      → Rivals token until ms ms''

-- A row of a unique id that does not pass is not counted.
none_counted :
    (q p : OutboxMessage → Bool) (ms : Outbox) (row : OutboxMessage)
    → count_by q ms ≤ 1
    → find q ms ≡ some row
    → p row ≡ false
    → leb 1 (count_by (λ m. q m && p m) ms) ≡ false
none_counted q p ms row u f n = ground (arith, count_by-and-le q p ms, find-count_by q p ms row u f)

module _ (id : ℕ) where
  abbrev pub IsKeyed : Outbox → Type 0
  IsKeyed ms = count_by (λ m. m.id == id) ms ≤ 1

  -- The one row of the message.
  pub record IsRow (row : OutboxMessage) (ms : Outbox) : Type 0 where
    pub unique : IsKeyed ms
    pub found : find_message id ms ≡ some row

  -- A transaction that keeps the ids and does not pass on the row leaves it.
  passed_over :
      (p : OutboxMessage → Bool) (f : OutboxMessage → OutboxMessage) (row : OutboxMessage)
      (ms : Outbox)
      → ((m : OutboxMessage) → (f m).id ≡ m.id)
      → p row ≡ false
      → IsRow row ms
      → IsRow row (update_where p f ms)
  unfolding find_message
  passed_over p f row ms k n s =
      let same = λ (m : OutboxMessage). ap (λ n. n == id) (k m) in
      record {
        unique =
            subst (λ n. n ≤ 1) (sym (count_by-update_where (λ m. m.id == id) p f ms same)) s.unique;
        found = find-update_where_skip (λ m. m.id == id) p f ms row same s.found n;
      }

  -- The lease of the row runs until then.
  pub record IsLeased (token until : ℕ) (row : OutboxMessage) (ms : Outbox) : Type 0 where
    pub is_row : IsRow row ms
    pub under : row.lease_token ≡ some token
    pub expires : row.lease_expires_at ≡ some until

  -- The row is sent, and nobody holds it.
  pub record IsSent (row : OutboxMessage) (ms : Outbox) : Type 0 where
    pub is_row : IsRow row ms
    pub sent : row.status ≡ MessageStatus.sent
    pub unheld : row.lease_token ≡ none

  not_claimable :
      (now until : ℕ) (seen row : OutboxMessage)
      → row.lease_expires_at ≡ some until
      → now < until
      → is_claimable now seen row ≡ false
  unfolding is_claimable is_due
  not_claimable now until seen row e l = ground arith

  not_mine :
      (now n other token : ℕ) (row : OutboxMessage)
      → row.lease_token ≡ some token
      → other ≢ token
      → is_leased now n other row ≡ false
  unfolding is_leased
  not_mine now n other token row e d =
      ground (arith, option_beq_iff nat_eq row.lease_token (some other))

  Rival-IsRow :
      (token until : ℕ) (row : OutboxMessage) (ms ms' : Outbox)
      → Rival token until ms ms'
      → IsLeased token until row ms
      → IsRow row ms'
  unfolding claim_message claimed save_sent save_failed
  Rival-IsRow token until row ms ms' (claims now other seen l) s =
      passed_over (is_claimable now seen) (claimed now other seen) row ms (λ m. refl)
        (not_claimable now until seen row s.expires l) s.is_row
  Rival-IsRow token until row ms ms' (sends now n other d) s =
      passed_over (is_leased now n other) _ row ms (λ m. refl)
        (not_mine now n other token row s.under d) s.is_row
  Rival-IsRow token until row ms ms' (fails now n other attempts error d) s =
      passed_over (is_leased now n other) _ row ms (λ m. refl)
        (not_mine now n other token row s.under d) s.is_row

  Rivals-IsRow :
      {token until : ℕ} {row : OutboxMessage} {ms ms' : Outbox}
      → Rivals token until ms ms'
      → IsLeased token until row ms
      → IsRow row ms'
  Rivals-IsRow here s = s.is_row
  Rivals-IsRow {token} {until} {row} (next {ms'} {ms''} r step) s =
      Rival-IsRow token until row ms' ms'' step
        (record { is_row = Rivals-IsRow r s; under = s.under; expires = s.expires })

  not_pending :
      (now : ℕ) (seen row : OutboxMessage)
      → row.status ≡ MessageStatus.sent
      → is_claimable now seen row ≡ false
  unfolding is_claimable
  not_pending now seen row e = ground arith

  not_held :
      (now n token : ℕ) (row : OutboxMessage)
      → row.lease_token ≡ none
      → is_leased now n token row ≡ false
  unfolding is_leased
  not_held now n token row e = ground arith

  Step-IsRow : (row : OutboxMessage) (ms ms' : Outbox) → Step ms ms' → IsSent row ms → IsRow row ms'
  unfolding claim_message claimed save_sent save_failed
  Step-IsRow row ms ms' (claims now token seen) s =
      passed_over (is_claimable now seen) (claimed now token seen) row ms (λ m. refl)
        (not_pending now seen row s.sent) s.is_row
  Step-IsRow row ms ms' (sends now n token) s =
      passed_over (is_leased now n token) _ row ms (λ m. refl) (not_held now n token row s.unheld)
        s.is_row
  Step-IsRow row ms ms' (fails now n token attempts error) s =
      passed_over (is_leased now n token) _ row ms (λ m. refl) (not_held now n token row s.unheld)
        s.is_row

  Steps-IsSent :
      {row : OutboxMessage} {ms ms' : Outbox} → Steps ms ms' → IsSent row ms → IsSent row ms'
  Steps-IsSent here s = s
  Steps-IsSent {row} (next {ms'} {ms''} r step) s =
      let t = Steps-IsSent r s in
      record { is_row = Step-IsRow row ms' ms'' step t; sent = t.sent; unheld = t.unheld }

  saved : (now : ℕ) → OutboxMessage → OutboxMessage
  saved now m = record m {
    status = MessageStatus.sent;
    processed_at = some now;
    lease_token = none;
    lease_expires_at = none;
  }

  is_mine :
      (now token until : ℕ) (row : OutboxMessage)
      → row.id ≡ id
      → now < until
      → row.lease_token ≡ some token
      → row.lease_expires_at ≡ some until
      → is_leased now id token row ≡ true
  unfolding is_leased is_live
  is_mine now token until row k l u e =
      ground (arith, nat_beq_iff row.id id, option_beq_iff nat_eq row.lease_token (some token))

  save-IsSent :
      (now token until : ℕ) (row : OutboxMessage) (ms : Outbox)
      → row.id ≡ id
      → now < until
      → row.lease_token ≡ some token
      → row.lease_expires_at ≡ some until
      → IsRow row ms
      → IsSent (saved now row) (save_sent now id token ms)
  unfolding save_sent saved find_message
  save-IsSent now token until row ms k l u e s = record {
    is_row = record {
      unique =
          subst (λ n. n ≤ 1)
            (sym (
              count_by-update_where (λ m. m.id == id) (is_leased now id token) (saved now) ms
                (λ m. refl)))
            s.unique;
      found =
          find-update_where_pass (λ m. m.id == id) (is_leased now id token) (saved now) ms row
            (λ m. refl) s.found (is_mine now token until row k l u e);
    };
    sent = refl;
    unheld = refl;
  }

  not_open :
      (now : ℕ) (seen row : OutboxMessage)
      → row.status ≡ MessageStatus.sent
      → (row.status == MessageStatus.pending
          && row.attempts == seen.attempts
          && is_due now row.lease_expires_at)
        ≡ false
  not_open now seen row e = rw e refl

  not_counted :
      (now : ℕ) (seen row : OutboxMessage) (ms : Outbox)
      → IsSent row ms
      → seen.id ≡ id
      → leb 1 (count_by (is_claimable now seen) ms) ≡ false
  unfolding is_claimable find_message
  not_counted now seen row ms s k =
      none_counted (λ m. m.id == seen.id)
        (λ m.
          m.status == MessageStatus.pending
          && m.attempts == seen.attempts
          && is_due now m.lease_expires_at)
        ms row (subst (λ n. count_by (λ m. m.id == n) ms ≤ 1) (sym k) s.is_row.unique)
        (subst (λ n. find (λ m. m.id == n) ms ≡ some row) (sym k) s.is_row.found)
        (not_open now seen row s.sent)

-- A message that was claimed under a lease and saved as sent before the lease ran out, whatever other
-- workers did in between, stays sent, and no worker claims it again, whatever anybody does after it.
pub delivered_once :
    (token until now time other : ℕ) (row seen : OutboxMessage) (ms ms' later : Outbox)
    → IsLeased row.id token until row ms
    → Rivals token until ms ms'
    → now < until
    → Steps (save_sent now row.id token ms') later
    → seen.id ≡ row.id
    → ((claim_message time other seen later).0 ≡ false)
      × (find_message row.id later
          ≡ some (record row {
            status = MessageStatus.sent;
            processed_at = some now;
            lease_token = none;
            lease_expires_at = none;
          }))
unfolding claim_message saved
delivered_once token until now time other row seen ms ms' later s r l steps k =
    let t = Steps-IsSent row.id steps (
      save-IsSent row.id now token until row ms' refl l s.under s.expires
        (Rivals-IsRow row.id r s)) in
    (not_counted row.id time seen (saved row.id now row) later t k, t.is_row.found)
