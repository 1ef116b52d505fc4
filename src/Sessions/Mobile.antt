-- ===== src/Sessions/Mobile.antt =====
-- src/lib/mobile/auth.ts: sign-in of a mobile device, rotation of its credentials, authentication and
-- logout. A token is the list of its characters; its hash is SHA-256, and its random part is given.
pub mod Issue
pub mod Refresh
pub mod Access
pub mod Rows
pub mod Admission
pub mod Rotation
pub mod DeviceLimit
pub mod Room
pub mod RoundTrip
use rent_a_4_wheel.Prelude.{
  ℕ, zero, suc, ◌+◌, ◌*◌, ◌≡◌, Bool, true, false, not, ◌&&◌, ◌||◌, Option, none, some, List, [],
  ◌∷◌, ◌++◌, find, select, update_where, count_by, length, any, includes, if◌then◌else◌, is_some,
  ltb, leb, min, nat_eq, list_eq, option_eq, Eq, ◌==◌, Result, ok, err, guard, or_throw, ◌>>=◌,
  ◌>>◌,
}
use rent_a_4_wheel.Sessions.{Role, role_eq, User, find_user}

pub data MobileError : Type 0 where
  unauthorized session_not_found : MobileError

-- The values of MobileSession.revocationReason.
pub data RevocationReason : Type 0 where
  reauthenticated device_limit refresh_reuse ineligible_or_expired logout : RevocationReason

pub record MobileSession : Type 0 where
  pub id : ℕ
  pub user_id : ℕ
  pub device_id : ℕ
  pub generation : ℕ
  pub created_at : ℕ
  pub last_used_at : ℕ
  pub expires_at : ℕ
  pub revoked_at : Option ℕ
  pub revocation_reason : Option RevocationReason
  pub reuse_detected_at : Option ℕ

pub record MobileCredential : Type 0 where
  pub id : ℕ
  pub session_id : ℕ
  pub generation : ℕ
  pub access_hash : ℕ
  pub refresh_hash : ℕ
  pub access_expires_at : ℕ
  pub refresh_expires_at : ℕ
  pub consumed_at : Option ℕ

-- The actions of the audit rows.
pub data AuditAction : Type 0 where
  device_limit_revoked signed_in reused refresh_denied refreshed logged_out logged_out_all :
      AuditAction

pub record AuditRow : Type 0 where
  pub actor_id : ℕ
  pub entity_id : ℕ
  pub action : AuditAction

pub record MobileDb : Type 0 where
  pub users : List User
  pub sessions : List MobileSession
  pub credentials : List MobileCredential
  pub audit_log : List AuditRow
  pub next_id : ℕ

-- What a client keeps.
pub record IssuedCredentials : Type 0 where
  pub access_token : List ℕ
  pub refresh_token : List ℕ
  pub access_expires_at : ℕ
  pub refresh_expires_at : ℕ
  pub session_id : ℕ

pub record Actor : Type 0 where
  pub user_id : ℕ
  pub session_id : ℕ
  pub role : Role

-- The kinds of token: `ma` and `mr`.
pub data TokenKind : Type 0 where
  access refresh : TokenKind

unfoldable pub prefix : TokenKind → List ℕ
prefix TokenKind.access = b'm' ∷ b'a' ∷ b'_' ∷ []
prefix TokenKind.refresh = b'm' ∷ b'r' ∷ b'_' ∷ []

-- `[A-Za-z0-9_-]`.
unfoldable pub is_token_char : ℕ → Bool
is_token_char c =
    (leb b'A' c && leb c b'Z')
    || (leb b'a' c && leb c b'z')
    || (leb b'0' c && leb c b'9')
    || c == b'_'
    || c == b'-'

-- 43 characters of base64url.
unfoldable pub is_body : List ℕ → Bool
unfolding is_token_char
is_body cs = length cs == 43 && not (any (λ c. not (is_token_char c)) cs)

-- The text after a prefix.
unfoldable pub strip : List ℕ → List ℕ → Option (List ℕ)
strip [] cs = some cs
strip (p ∷ ps) [] = none
strip (p ∷ ps) (c ∷ cs) = let rest = strip ps cs in if p == c then rest else none

pub has_body : Option (List ℕ) → Bool
unfolding is_body
has_body none = false
has_body (some cs) = is_body cs

unfoldable pub valid_token : List ℕ → TokenKind → Bool
unfolding has_body
valid_token token kind = has_body (strip (prefix kind) token)

-- `newToken`, of the random text.
unfoldable pub new_token : TokenKind → List ℕ → List ℕ
new_token kind body = prefix kind ++ body

unfoldable pub native_role : Role → Bool
native_role r = includes (Role.customer ∷ Role.host ∷ Role.host_employee ∷ []) r

unfoldable pub find_session : ℕ → List MobileSession → Option MobileSession
find_session id ss = find (λ x. x.id == id) ss

unfoldable pub find_refresh : ℕ → List MobileCredential → Option MobileCredential
find_refresh h cs = find (λ c. c.refresh_hash == h) cs

unfoldable pub find_access : ℕ → List MobileCredential → Option MobileCredential
find_access h cs = find (λ c. c.access_hash == h) cs

unfoldable pub audit : (actor entity : ℕ) → AuditAction → MobileDb → MobileDb
audit actor entity action db = record db {
  audit_log =
      db.audit_log ++ (record { actor_id = actor; entity_id = entity; action = action }) ∷ [];
}

-- A revoked row.
unfoldable pub revoked : (now : ℕ) → RevocationReason → MobileSession → MobileSession
revoked now reason x = record x { revoked_at = some now; revocation_reason = some reason }

-- Times in milliseconds.
abbrev pub access_ms : ℕ
access_ms = 5 * 60000

abbrev pub refresh_ms : ℕ
refresh_ms = 7 * 86400000

abbrev pub family_ms : ℕ
family_ms = 30 * 86400000

-- `user?.isActive && nativeRole(user.role)`.
unfoldable pub is_eligible : Option User → Bool
unfolding native_role
is_eligible none = false
is_eligible (some u) = u.is_active && native_role u.role
