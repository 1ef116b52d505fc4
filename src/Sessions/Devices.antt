-- ===== src/Sessions/Devices.antt =====
-- src/lib/device-sessions.ts: the sessions of browsers, each named by its id and its rotation. The row lock
-- on the user makes every function one step.
pub mod Endings
use rent_a_4_wheel.Prelude.{
  ℕ, suc, ◌+◌, ◌-◌, ◌*◌, ◌≡◌, Bool, true, false, not, ◌&&◌, ◌||◌, Option, none, some, List, [], ◌∷◌,
  ◌++◌, any, select, length, count_by, update_where, if◌then◌else◌, is_some, ltb, leb, nat_eq,
  option_eq, Eq, ◌==◌, Result, ok, err, guard, or_throw, ◌>>=◌, ◌>>◌,
}
use rent_a_4_wheel.Sessions.{User, find_user}

pub data DeviceError : Type 0 where
  session_unavailable reauthentication_required : DeviceError

-- Model Session; the random token is not read. `device` is one of two texts.
pub record DeviceSession : Type 0 where
  pub id : ℕ
  pub user_id : ℕ
  pub expires : ℕ
  pub created_at : ℕ
  pub last_seen_at : ℕ
  pub revoked_at : Option ℕ
  pub rotation : ℕ
  pub is_mobile : Bool

pub data DeviceAction : Type 0 where
  created revoked_one rotated : DeviceAction
  revoked_all : (count : ℕ) → DeviceAction

pub record DeviceAudit : Type 0 where
  pub actor_id : ℕ
  pub entity_id : ℕ
  pub action : DeviceAction

pub record DeviceDb : Type 0 where
  pub users : List User
  pub sessions : List DeviceSession
  pub audit_log : List DeviceAudit
  pub next_id : ℕ

abbrev pub absolute_ms : ℕ
absolute_ms = 7 * 86400000

abbrev pub idle_ms : ℕ
idle_ms = 30 * 60000

-- `expires: { gt: now }, lastSeenAt: { gt: now - IDLE_MS }` of a row that is not revoked.
unfoldable pub is_current : (now : ℕ) → DeviceSession → Bool
is_current now x =
    not (is_some x.revoked_at) && ltb now x.expires && ltb now (x.last_seen_at + idle_ms)

-- Newest first.
pub insert_newest : DeviceSession → List DeviceSession → List DeviceSession
insert_newest x [] = x ∷ []
insert_newest x (y ∷ ys) =
    if leb y.created_at x.created_at then x ∷ y ∷ ys else y ∷ insert_newest x ys

pub newest_first : List DeviceSession → List DeviceSession
unfolding insert_newest
newest_first [] = []
newest_first (x ∷ xs) = insert_newest x (newest_first xs)

pub list_device_sessions : (user_id now : ℕ) → DeviceDb → List DeviceSession
unfolding newest_first is_current
list_device_sessions user_id now db =
    newest_first (select (λ x. x.user_id == user_id && is_current now x) db.sessions)

-- `user.count({ where: { id, isActive: true } })`.
unfoldable pub has_active_user : (user_id : ℕ) → List User → Bool
has_active_user user_id us = any (λ u. u.id == user_id && u.is_active) us

has_user : (user_id : ℕ) → List User → Bool
has_user user_id us = any (λ u. u.id == user_id) us

audit : (actor entity : ℕ) → DeviceAction → DeviceDb → DeviceDb
audit actor entity action db = record db {
  audit_log =
      db.audit_log ++ (record { actor_id = actor; entity_id = entity; action = action }) ∷ [];
}

unfoldable pub create_device_session :
    (now user_id : ℕ) (is_mobile : Bool) → DeviceDb → Result DeviceError ((ℕ × ℕ) × DeviceDb)
unfolding has_active_user audit
create_device_session now user_id is_mobile db = do
  guard (has_active_user user_id db.users) session_unavailable
  let row : DeviceSession = record {
    id = db.next_id;
    user_id = user_id;
    expires = now + absolute_ms;
    created_at = now;
    last_seen_at = now;
    revoked_at = none;
    rotation = 0;
    is_mobile = is_mobile;
  }
  ok (
    (row.id, row.rotation),
    audit user_id row.id DeviceAction.created
        (record db { sessions = db.sessions ++ row ∷ []; next_id = db.next_id + 1 }),
  )

-- The row that a credential names, if it serves now.
unfoldable pub serves : (now user_id sid rotation : ℕ) → DeviceSession → Bool
unfolding is_current
serves now user_id sid rotation x =
    x.id == sid && x.user_id == user_id && x.rotation == rotation && is_current now x

pub seen : (now : ℕ) → DeviceSession → DeviceSession
seen now x = record x { last_seen_at = now }

pub validate_user : (now user_id sid rotation : ℕ) → Option User → DeviceDb → Option User × DeviceDb
unfolding serves seen
validate_user now user_id sid rotation none db = (none, db)
validate_user now user_id sid rotation (some u) db =
    if u.is_active
    then (
      if count_by (serves now user_id sid rotation) db.sessions == 1 then some u else none,
      record db {
        sessions = update_where (serves now user_id sid rotation) (seen now) db.sessions;
      },
    )
    else (none, db)

unfoldable pub validate_device_session :
    (now user_id sid rotation : ℕ) → DeviceDb → Option User × DeviceDb
unfolding validate_user
validate_device_session now user_id sid rotation db =
    validate_user now user_id sid rotation (find_user user_id db.users) db

-- The sessions that a revocation means: one, or all of the user.
unfoldable pub is_ended : (user_id : ℕ) → Option ℕ → DeviceSession → Bool
is_ended user_id sid x =
    x.user_id == user_id && (not (is_some sid) || sid == some x.id) && not (is_some x.revoked_at)

pub end_session : (now : ℕ) → DeviceSession → DeviceSession
end_session now x = record x { revoked_at = some now }

unfoldable pub revoke_device_sessions :
    (now user_id : ℕ) (sid : Option ℕ) → DeviceDb → Result DeviceError (ℕ × DeviceDb)
unfolding has_user is_ended end_session audit
revoke_device_sessions now user_id sid db = do
  guard (has_user user_id db.users) session_unavailable
  let count = count_by (is_ended user_id sid) db.sessions
  ok (
    count,
    audit user_id user_id
        (if is_some sid then DeviceAction.revoked_one else DeviceAction.revoked_all count)
        (record db {
          sessions = update_where (is_ended user_id sid) (end_session now) db.sessions;
        }),
  )

-- `/^\d{6}$/`.
unfoldable pub is_code : List ℕ → Bool
is_code cs = length cs == 6 && not (any (λ c. not (leb b'0' c && leb c b'9')) cs)

pub turned : (now : ℕ) → DeviceSession → DeviceSession
turned now x = record x { rotation = x.rotation + 1; last_seen_at = now }

-- `verified` is the answer of `verifyAuthCode` for the purpose SECURITY_STEP_UP.
unfoldable pub rotate_device_session :
    (now user_id sid rotation : ℕ) (code : List ℕ) (verified : Bool)
    → DeviceDb
    → Result DeviceError (ℕ × DeviceDb)
unfolding has_active_user is_code serves turned audit
rotate_device_session now user_id sid rotation code verified db = do
  guard (has_active_user user_id db.users && is_code code && verified) reauthentication_required
  guard (leb 1 (count_by (serves now user_id sid rotation) db.sessions)) session_unavailable
  ok (
    rotation + 1,
    audit user_id sid DeviceAction.rotated (record db {
      sessions = update_where (serves now user_id sid rotation) (turned now) db.sessions;
    }),
  )
