-- ===== src/Sessions/Mobile/Room.antt =====
-- The tables after src/lib/mobile/auth.ts has made room for one more session.
use rent_a_4_wheel.Prelude.{ℕ, ◌≡◌, refl, none, List, [], ◌∷◌, find-update_where-none, nat_eq, ◌==◌}
use rent_a_4_wheel.Sessions.Mobile.{
  MobileSession, MobileDb, RevocationReason, AuditAction, revoked, audit, find_session,
}
use rent_a_4_wheel.Sessions.Mobile.Issue.{
  sign_out_device, revoke_each, audit_each, excess, make_room,
}

-- Room is made by updates that keep the ids, and only the audit log grows.
revoke_each-none :
    (id now : ℕ) (olds ss : List MobileSession)
    → find_session id ss ≡ none
    → find_session id (revoke_each now olds ss) ≡ none
unfolding revoke_each find_session revoked
revoke_each-none id now [] ss e = e
revoke_each-none id now (old ∷ olds) ss e = revoke_each-none id now olds _ (
    find-update_where-none (λ x. x.id == id) (λ x. x.id == old.id)
      (revoked now RevocationReason.device_limit) ss (λ x. refl) e)

-- What audit rows leave alone.
pub record SameTables (db db' : MobileDb) : Type 0 where
  pub users : db'.users ≡ db.users
  pub sessions : db'.sessions ≡ db.sessions
  pub credentials : db'.credentials ≡ db.credentials
  pub next_id : db'.next_id ≡ db.next_id

audit_each-SameTables :
    (user_id : ℕ) (olds : List MobileSession) (db : MobileDb)
    → SameTables db (audit_each user_id olds db)
unfolding audit_each audit
audit_each-SameTables user_id [] db = record {
  users = refl;
  sessions = refl;
  credentials = refl;
  next_id = refl;
}
audit_each-SameTables user_id (old ∷ olds) db =
    let s =
      audit_each-SameTables user_id olds
        (audit user_id old.id AuditAction.device_limit_revoked db) in
    record {
      users = s.users;
      sessions = s.sessions;
      credentials = s.credentials;
      next_id = s.next_id;
    }

sign_out_device-none :
    (id now user_id device_id : ℕ) (ss : List MobileSession)
    → find_session id ss ≡ none
    → find_session id (sign_out_device now user_id device_id ss) ≡ none
unfolding sign_out_device find_session
sign_out_device-none id now user_id device_id ss e =
    find-update_where-none (λ x. x.id == id) _ (revoked now RevocationReason.reauthenticated) ss
      (λ x. refl) e

module _ (now user_id device_id : ℕ) (db : MobileDb) where
  kept : List MobileSession
  kept = sign_out_device now user_id device_id db.sessions

  olds : List MobileSession
  unfolding kept
  olds = excess user_id now kept

  unfoldable pub roomy : MobileDb
  unfolding kept olds
  roomy = record db { sessions = revoke_each now olds kept }

  pub make_room-SameTables : SameTables roomy (make_room now user_id device_id db)
  unfolding make_room roomy
  make_room-SameTables = audit_each-SameTables user_id olds roomy

  pub make_room-none :
      (id : ℕ)
      → find_session id db.sessions ≡ none
      → find_session id (make_room now user_id device_id db).sessions ≡ none
  unfolding roomy
  make_room-none id e = rw make_room-SameTables.sessions (
      revoke_each-none id now olds kept
        (sign_out_device-none id now user_id device_id db.sessions e))
