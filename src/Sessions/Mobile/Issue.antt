-- ===== src/Sessions/Mobile/Issue.antt =====
-- `issue` and `issueMobileSession` of src/lib/mobile/auth.ts: a sign-in makes room among the sessions of
-- the user and issues the first credentials of a family.
use rent_a_4_wheel.Prelude.{
  ℕ, zero, suc, ◌+◌, Bool, not, ◌&&◌, ◌||◌, none, List, [], ◌∷◌, ◌++◌, select, update_where,
  if◌then◌else◌, is_some, ltb, leb, min, nat_eq, list_eq, option_eq, ◌==◌, Result, ok, guard,
  or_throw, ◌>>=◌, ◌>>◌,
}
use rent_a_4_wheel.Sessions.{role_eq, find_user}
use rent_a_4_wheel.Sessions.Mobile.{
  MobileError, unauthorized, RevocationReason, MobileSession, MobileCredential, AuditAction,
  MobileDb, IssuedCredentials, TokenKind, new_token, native_role, audit, revoked, access_ms,
  refresh_ms, family_ms,
}

-- `revokedAt: null` and `expiresAt: { gt: now }` of a user.
unfoldable pub is_live : (user_id now : ℕ) → MobileSession → Bool
is_live user_id now x = x.user_id == user_id && not (is_some x.revoked_at) && ltb now x.expires_at

-- `orderBy: [{ lastUsedAt: "desc" }, { id: "desc" }]`.
unfoldable pub is_before : MobileSession → MobileSession → Bool
is_before x y =
    ltb y.last_used_at x.last_used_at || (x.last_used_at == y.last_used_at && leb y.id x.id)

unfoldable pub insert_session : MobileSession → List MobileSession → List MobileSession
unfolding is_before
insert_session x [] = x ∷ []
insert_session x (y ∷ ys) = if is_before x y then x ∷ y ∷ ys else y ∷ insert_session x ys

unfoldable pub sort_sessions : List MobileSession → List MobileSession
unfolding insert_session
sort_sessions [] = []
sort_sessions (x ∷ xs) = insert_session x (sort_sessions xs)

-- `skip`.
abbrev pub drop {ℓ} : {A : Type ℓ} → ℕ → List A → List A
drop zero xs = xs
drop (suc n) [] = []
drop (suc n) (x ∷ xs) = drop n xs

-- The sessions beyond the nineteen that were used last.
unfoldable pub excess : (user_id now : ℕ) → List MobileSession → List MobileSession
unfolding sort_sessions is_live
excess user_id now ss = drop 19 (sort_sessions (select (is_live user_id now) ss))

unfoldable pub revoke_each :
    (now : ℕ) → List MobileSession → List MobileSession → List MobileSession
unfolding revoked
revoke_each now [] ss = ss
revoke_each now (old ∷ olds) ss =
    revoke_each now olds
      (update_where (λ x. x.id == old.id) (revoked now RevocationReason.device_limit) ss)

-- One audit row for each.
unfoldable pub audit_each : (user_id : ℕ) → List MobileSession → MobileDb → MobileDb
unfolding audit
audit_each user_id [] db = db
audit_each user_id (old ∷ olds) db =
    audit_each user_id olds (audit user_id old.id AuditAction.device_limit_revoked db)

-- What a sign-in brings.
pub record MobileDevice : Type 0 where
  pub device_id : ℕ
  pub access_body : List ℕ
  pub refresh_body : List ℕ

unfoldable pub new_session : (id user_id device_id now : ℕ) → MobileSession
new_session id user_id device_id now = record {
  id = id;
  user_id = user_id;
  device_id = device_id;
  generation = 0;
  created_at = now;
  last_used_at = now;
  expires_at = now + family_ms;
  revoked_at = none;
  revocation_reason = none;
  reuse_detected_at = none;
}

-- A session of the user on the device that is not revoked.
is_on_device : (user_id device_id : ℕ) → MobileSession → Bool
is_on_device user_id device_id x =
    x.user_id == user_id && x.device_id == device_id && not (is_some x.revoked_at)

-- `hash` is SHA-256.
module _ (hash : List ℕ → ℕ) where
  unfoldable pub new_credential :
      (id session_id generation now family_expires : ℕ)
      → (access_token refresh_token : List ℕ) → MobileCredential
  new_credential id session_id generation now family_expires access_token refresh_token = record {
    id = id;
    session_id = session_id;
    generation = generation;
    access_hash = hash access_token;
    refresh_hash = hash refresh_token;
    access_expires_at = min (now + access_ms) family_expires;
    refresh_expires_at = min (now + refresh_ms) family_expires;
    consumed_at = none;
  }

  unfoldable pub issue :
      (now session_id generation family_expires : ℕ)
      → (access_body refresh_body : List ℕ) → MobileDb
      → IssuedCredentials × MobileDb
  unfolding new_credential new_token
  issue now session_id generation family_expires access_body refresh_body db =
      let access_token = new_token TokenKind.access access_body in
      let refresh_token = new_token TokenKind.refresh refresh_body in
      let row =
        new_credential db.next_id session_id generation now family_expires access_token
          refresh_token in
      (
        record {
          access_token = access_token;
          refresh_token = refresh_token;
          access_expires_at = row.access_expires_at;
          refresh_expires_at = row.refresh_expires_at;
          session_id = session_id;
        },
        record db { credentials = db.credentials ++ row ∷ []; next_id = db.next_id + 1 },
      )

-- The device is signed out.
unfoldable pub sign_out_device :
    (now user_id device_id : ℕ) → List MobileSession → List MobileSession
unfolding is_on_device revoked
sign_out_device now user_id device_id ss =
    update_where (is_on_device user_id device_id) (revoked now RevocationReason.reauthenticated) ss

-- The sessions that remain: the device signs in anew, and at most nineteen others stay.
unfoldable pub make_room : (now user_id device_id : ℕ) → MobileDb → MobileDb
make_room now user_id device_id db =
    let kept = sign_out_device now user_id device_id db.sessions in
    let olds = excess user_id now kept in
    audit_each user_id olds (record db { sessions = revoke_each now olds kept })

unfoldable pub insert_new_session : (now user_id device_id : ℕ) → MobileDb → MobileDb
unfolding audit
insert_new_session now user_id device_id db =
    audit user_id db.next_id AuditAction.signed_in (record db {
      sessions = db.sessions ++ new_session db.next_id user_id device_id now ∷ [];
      next_id = db.next_id + 1;
    })

module _ (hash : List ℕ → ℕ) where
  unfoldable pub issue_mobile_session :
      (now user_id : ℕ)
      → MobileDevice
      → MobileDb
      → Result MobileError (IssuedCredentials × MobileDb)
  unfolding native_role find_user
  issue_mobile_session now user_id device db = do
    current ← or_throw (find_user user_id db.users) unauthorized
    guard (current.is_active && native_role current.role) unauthorized
    let roomy = make_room now user_id device.device_id db
    ok (
        issue hash now roomy.next_id 0 (now + family_ms) device.access_body device.refresh_body
          (insert_new_session now user_id device.device_id roomy))
