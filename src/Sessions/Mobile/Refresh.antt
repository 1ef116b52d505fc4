-- ===== src/Sessions/Mobile/Refresh.antt =====
-- `refreshMobileCredential` of src/lib/mobile/auth.ts.
use rent_a_4_wheel.Prelude.{
  ℕ, ◌+◌, Bool, true, false, not, ◌||◌, Option, none, some, List, update_where, if◌then◌else◌,
  is_some, leb, nat_eq, list_eq, option_eq, ◌==◌, Result, ok, err,
}
use rent_a_4_wheel.Sessions.{role_eq, User, find_user}
use rent_a_4_wheel.Sessions.Mobile.{
  MobileError, unauthorized, RevocationReason, MobileSession, MobileCredential, AuditAction,
  MobileDb, IssuedCredentials, TokenKind, valid_token, find_session, find_refresh, audit, revoked,
  is_eligible,
}
use rent_a_4_wheel.Sessions.Mobile.Issue.{issue}

-- The denial of a refresh: the whole family is revoked.
unfoldable pub deny_refresh :
    (now : ℕ) → RevocationReason → Bool → AuditAction → MobileSession → MobileDb → MobileDb
unfolding audit revoked
deny_refresh now reason was_reused action x db = audit x.user_id x.id action (record db {
  sessions =
      update_where (λ y. y.id == x.id)
        (λ y. record (revoked now reason y) {
          reuse_detected_at = if was_reused then some now else y.reuse_detected_at;
        })
        db.sessions;
})

-- The credential is consumed and the session moves to the next generation.
unfoldable pub rotate : (now : ℕ) → MobileCredential → MobileSession → MobileDb → MobileDb
unfolding audit
rotate now c x db = audit x.user_id x.id AuditAction.refreshed (record db {
  credentials =
      update_where (λ d. d.id == c.id) (λ d. record d { consumed_at = some now }) db.credentials;
  sessions =
      update_where (λ y. y.id == x.id)
        (λ y. record y { generation = y.generation + 1; last_used_at = now }) db.sessions;
})

-- The credential is used, or of an old generation.
unfoldable pub is_reused : MobileCredential → MobileSession → Bool
is_reused c x = is_some c.consumed_at || not (c.generation == x.generation)

abbrev pub some_issued {ℓ} : {A : Type ℓ} → IssuedCredentials × A → Option IssuedCredentials × A
some_issued (i, db) = (some i, db)

-- `if (!result) throw`: the tables are committed all the same.
abbrev pub or_unauthorized {ℓ} :
    {A : Type ℓ} → Option IssuedCredentials × A → Result MobileError IssuedCredentials × A
or_unauthorized (none, db) = (err unauthorized, db)
or_unauthorized (some i, db) = (ok i, db)

module _ (hash : List ℕ → ℕ) where
  -- The transaction, after the rows are read: `none` denies, and keeps what was written.
  unfoldable pub refresh_row :
      (now : ℕ)
      → (access_body refresh_body : List ℕ) → Option User
      → MobileCredential
      → MobileSession
      → MobileDb
      → Option IssuedCredentials × MobileDb
  refresh_row now access_body refresh_body user c x db =
      if is_some x.revoked_at
      then (none, db)
      else if is_reused c x
      then (none, deny_refresh now RevocationReason.refresh_reuse true AuditAction.reused x db)
      else if not (is_eligible user) || leb x.expires_at now || leb c.refresh_expires_at now
      then (
        none,
        deny_refresh now RevocationReason.ineligible_or_expired false AuditAction.refresh_denied x
            db,
      )
      else some_issued (
          issue hash now x.id (x.generation + 1) x.expires_at access_body refresh_body
            (rotate now c x db))

  -- Every credential has its session, by the foreign key.
  unfoldable pub refresh_session :
      (now : ℕ)
      → (access_body refresh_body : List ℕ) → MobileCredential
      → Option MobileSession
      → MobileDb
      → Option IssuedCredentials × MobileDb
  refresh_session now access_body refresh_body c none db = (none, db)
  refresh_session now access_body refresh_body c (some x) db =
      refresh_row now access_body refresh_body (find_user x.user_id db.users) c x db

  unfoldable pub refresh_credential :
      (now : ℕ)
      → (access_body refresh_body : List ℕ) → Option MobileCredential
      → MobileDb
      → Option IssuedCredentials × MobileDb
  refresh_credential now access_body refresh_body none db = (none, db)
  refresh_credential now access_body refresh_body (some c) db =
      refresh_session now access_body refresh_body c (find_session c.session_id db.sessions) db

  unfoldable pub refresh_mobile_credential :
      (now : ℕ)
      → (token access_body refresh_body : List ℕ) → MobileDb
      → Result MobileError IssuedCredentials × MobileDb
  refresh_mobile_credential now token access_body refresh_body db =
      if valid_token token TokenKind.refresh
      then or_unauthorized (
          refresh_credential now access_body refresh_body (find_refresh (hash token) db.credentials)
            db)
      else (err unauthorized, db)
