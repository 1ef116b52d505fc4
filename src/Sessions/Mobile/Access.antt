-- ===== src/Sessions/Mobile/Access.antt =====
-- `authenticateMobile` and `revokeMobileSessions` of src/lib/mobile/auth.ts.
use rent_a_4_wheel.Prelude.{
  ℕ, Bool, true, not, ◌&&◌, ◌||◌, Option, none, some, List, [], ◌∷◌, update_where, count_by, any,
  if◌then◌else◌, is_some, from_option, ltb, nat_eq, list_eq, option_eq, ◌==◌, Result, ok, guard,
  or_throw, ◌>>=◌, ◌>>◌,
}
use rent_a_4_wheel.Sessions.{Role, role_eq, User, find_user}
use rent_a_4_wheel.Sessions.Mobile.{
  MobileError, unauthorized, session_not_found, RevocationReason, MobileSession, MobileCredential,
  AuditAction, MobileDb, Actor, TokenKind, valid_token, strip, find_session, find_access, audit,
  revoked, is_eligible,
}

-- The token of the header `Bearer …`, or the empty text.
unfoldable pub bearer : List ℕ → List ℕ
bearer authorization =
    from_option (strip (b'B' ∷ b'e' ∷ b'a' ∷ b'r' ∷ b'e' ∷ b'r' ∷ b' ' ∷ []) authorization) []

-- The session that is read admits the credential.
unfoldable pub admits : (now : ℕ) → MobileCredential → Option User → MobileSession → Bool
unfolding is_eligible
admits now c user x =
    not (is_some x.revoked_at)
    && ltb now x.expires_at
    && c.generation == x.generation
    && is_eligible user

-- The condition of the update, on the rows as they are then.
unfoldable pub still_admits : (now : ℕ) → MobileCredential → MobileDb → MobileSession → Bool
unfolding is_eligible
still_admits now c db x =
    x.id == c.session_id
    && (x.generation == c.generation
        && not (is_some x.revoked_at)
        && ltb now x.expires_at
        && is_eligible (find_user x.user_id db.users)
        && any
            (λ d.
              d.session_id == x.id
              && d.id == c.id
              && not (is_some d.consumed_at)
              && ltb now d.access_expires_at)
            db.credentials)

abbrev pub role_of : Option User → Role
role_of none = Role.customer
role_of (some u) = u.role

module _ (hash : List ℕ → ℕ) where
  -- `lastUsedAt` is written if the row still admits the credential.
  unfoldable pub touch_session :
      (now : ℕ) → MobileCredential → MobileDb → Result MobileError MobileDb
  unfolding still_admits
  touch_session now c db = do
    guard (count_by (still_admits now c db) db.sessions == 1) unauthorized
    ok (record db {
      sessions =
          update_where (still_admits now c db) (λ x. record x { last_used_at = now }) db.sessions;
    })

  -- `seen` are the tables at the read, `db` those at the update.
  unfoldable pub authenticate_mobile :
      (now : ℕ)
      → (authorization : List ℕ) → (touch : Bool) → (seen db : MobileDb)
      → Result MobileError (Actor × MobileDb)
  authenticate_mobile now authorization touch seen db = do
    let token = bearer authorization
    guard (valid_token token TokenKind.access) unauthorized
    c ← or_throw (find_access (hash token) seen.credentials) unauthorized
    guard (not (is_some c.consumed_at) && ltb now c.access_expires_at) unauthorized
    x ← or_throw (find_session c.session_id seen.sessions) unauthorized
    let user = find_user x.user_id seen.users
    guard (admits now c user x) unauthorized
    touched ← (if touch then touch_session now c db else ok db)
    ok ((record { user_id = x.user_id; session_id = x.id; role = role_of user }), touched)

-- The sessions that a logout means.
unfoldable pub is_logged_out : (user_id : ℕ) → Option ℕ → MobileSession → Bool
is_logged_out user_id session_id x =
    x.user_id == user_id
    && (not (is_some session_id) || session_id == some x.id)
    && not (is_some x.revoked_at)

-- A session that is named has to be the user's.
owns_session : (user_id : ℕ) → Option ℕ → List MobileSession → Bool
owns_session user_id none ss = true
owns_session user_id (some id) ss = any (λ x. x.id == id && x.user_id == user_id) ss

unfoldable pub revoke_mobile_sessions :
    (now user_id : ℕ) → (session_id : Option ℕ) → MobileDb → Result MobileError MobileDb
unfolding owns_session is_logged_out audit revoked
revoke_mobile_sessions now user_id session_id db = do
  guard (owns_session user_id session_id db.sessions) session_not_found
  ok (
      audit user_id (from_option session_id user_id)
        (if is_some session_id then AuditAction.logged_out else AuditAction.logged_out_all)
        (record db {
          sessions =
              update_where (is_logged_out user_id session_id) (revoked now RevocationReason.logout)
                db.sessions;
        }))
