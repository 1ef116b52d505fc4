-- ===== src/Sessions/Mobile/Admission.antt =====
-- What a successful authentication of src/lib/mobile/auth.ts says of the tables that it read.
use rent_a_4_wheel.Prelude.{
  ℕ, ◌≡◌, ◌≢◌, refl, Bool, true, false, not, ◌&&◌, some, List, is_some, ltb, Result, ok, err, none,
  guard, ok_inj, or_throw, >>=-eq-ok, guard-eq-ok, if◌then◌else◌, ap, sym, ◌∙◌, nat_eq, arith,
  Option,
}
use rent_a_4_wheel.Sessions.{User, find_user}
use rent_a_4_wheel.Sessions.Mobile.{
  MobileError, unauthorized, MobileSession, MobileCredential, MobileDb, Actor, TokenKind,
  valid_token, find_session, find_access,
}
use rent_a_4_wheel.Sessions.Mobile.Rows.{find_session-key}
use rent_a_4_wheel.Sessions.Mobile.Access.{bearer, admits, touch_session, authenticate_mobile}

-- The session of the actor, if there is one.
abbrev pub session_of : Result MobileError (Actor × MobileDb) → Option ℕ
session_of (ok (a, db)) = some a.session_id
session_of (err e) = none

-- The session of an id is revoked.
pub record IsRevoked (id : ℕ) (db : MobileDb) : Type 0 where
  pub row : MobileSession
  pub found : find_session id db.sessions ≡ some row
  pub ended : is_some row.revoked_at ≡ true

module _ (hash : List ℕ → ℕ) (now : ℕ) (authorization : List ℕ) (seen : MobileDb)
    (actor : Actor) where
  -- The rows that admit an actor.
  pub record Admitted : Type 0 where
    pub credential : MobileCredential
    pub session : MobileSession
    pub presented : find_access (hash (bearer authorization)) seen.credentials ≡ some credential
    pub unconsumed :
        (not (is_some credential.consumed_at) && ltb now credential.access_expires_at) ≡ true
    pub owned : find_session credential.session_id seen.sessions ≡ some session
    pub admitted : admits now credential (find_user session.user_id seen.users) session ≡ true
    pub names : actor.session_id ≡ session.id

  or_throw-some {ℓ} :
      {A : Type ℓ} (o : Option A) (e : MobileError) (a : A) → or_throw o e ≡ ok a → o ≡ some a
  or_throw-some o e a h = ground arith

  pub authenticate-Admitted :
      (touch : Bool) (db db' : MobileDb)
      → authenticate_mobile hash now authorization touch seen db ≡ ok (actor, db')
      → Admitted
  unfolding authenticate_mobile
  authenticate-Admitted touch db db' h =
      let (_, v, h1) =
        >>=-eq-ok (guard (valid_token (bearer authorization) TokenKind.access) unauthorized) _ h in
      let (c, f, h2) =
        >>=-eq-ok
          (or_throw (find_access (hash (bearer authorization)) seen.credentials) unauthorized) _
          h1 in
      let (_, g, h3) =
        >>=-eq-ok (guard (not (is_some c.consumed_at) && ltb now c.access_expires_at) unauthorized)
          _ h2 in
      let (x, o, h4) =
        >>=-eq-ok (or_throw (find_session c.session_id seen.sessions) unauthorized) _ h3 in
      let (_, a, h5) =
        >>=-eq-ok (guard (admits now c (find_user x.user_id seen.users) x) unauthorized) _ h4 in
      let (d, t, h6) = >>=-eq-ok (if touch then touch_session hash now c db else ok db) _ h5 in
      record {
        credential = c;
        session = x;
        presented = or_throw-some _ _ c f;
        unconsumed = guard-eq-ok _ _ g;
        owned = or_throw-some _ _ x o;
        admitted = guard-eq-ok _ _ a;
        names = ap (λ t. t.0.session_id) (sym (ok_inj _ _ _ refl h6));
      }

some_session :
    (o : Result MobileError (Actor × MobileDb)) (id : ℕ)
    → session_of o ≡ some id
    → (a : Actor) × (db : MobileDb) × (o ≡ ok (a, db)) × (a.session_id ≡ id)
some_session (ok (a, db)) id h = (a, db, refl, ground arith)
some_session (err e) id h = cc

module _ (hash : List ℕ → ℕ) (now : ℕ) (authorization : List ℕ) (seen : MobileDb) where
  admits-unrevoked :
      (c : MobileCredential) (u : Option User) (x : MobileSession)
      → admits now c u x ≡ true
      → is_some x.revoked_at ≡ false
  unfolding admits
  admits-unrevoked c u x h = ground arith

  -- Nobody is admitted on a session that is revoked.
  pub revoked_not_admitted :
      (id : ℕ) (touch : Bool) (db : MobileDb)
      → IsRevoked id seen
      → session_of (authenticate_mobile hash now authorization touch seen db) ≢ some id
  revoked_not_admitted id touch db r h =
      let (a, d, o, n) = some_session _ id h in
      let s = authenticate-Admitted hash now authorization seen a touch db d o in
      let same : s.credential.session_id ≡ id =
        sym (find_session-key _ seen.sessions s.session s.owned) ∙ sym s.names ∙ n in
      let row : some s.session ≡ some r.row =
        sym s.owned ∙ ap (λ k. find_session k seen.sessions) same ∙ r.found in
      let live = admits-unrevoked s.credential _ s.session s.admitted in cc (r.ended)
