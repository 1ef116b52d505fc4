-- ===== src/Sessions/Mobile/Rotation.antt =====
-- A refresh token of src/lib/mobile/auth.ts serves once: using it again ends the whole family.
use rent_a_4_wheel.Prelude.{
  ℕ, ◌+◌, ◌≡◌, ◌≢◌, refl, Bool, true, false, Option, none, some, List, is_some, nat_eq, ok, err,
  Bool-cases, inl, inr, ◌∙◌, sym, ap, arith,
}
use rent_a_4_wheel.Sessions.{User, find_user}
use rent_a_4_wheel.Sessions.Mobile.{
  unauthorized, RevocationReason, MobileSession, MobileCredential, AuditAction, MobileDb,
  IssuedCredentials, TokenKind, valid_token, find_session, find_refresh, revoked,
}
use rent_a_4_wheel.Sessions.Mobile.Issue.{issue}
use rent_a_4_wheel.Sessions.Mobile.Refresh.{
  deny_refresh, rotate, is_reused, some_issued, or_unauthorized, refresh_row, refresh_session,
  refresh_credential, refresh_mobile_credential,
}
use rent_a_4_wheel.Sessions.Mobile.Admission.{IsRevoked, session_of, revoked_not_admitted}
use rent_a_4_wheel.Sessions.Mobile.Rows.{find_session-key, find_session-update, find_refresh-update}
use rent_a_4_wheel.Sessions.Mobile.Access.{authenticate_mobile}

module _ (hash : List ℕ → ℕ) (now : ℕ) (token access refresh : List ℕ) (db : MobileDb) where
  -- The rows of a refresh that went through.
  pub record Refreshed (i : IssuedCredentials) (db' : MobileDb) : Type 0 where
    pub credential : MobileCredential
    pub session : MobileSession
    pub valid : valid_token token TokenKind.refresh ≡ true
    pub found : find_refresh (hash token) db.credentials ≡ some credential
    pub owned : find_session credential.session_id db.sessions ≡ some session
    pub unrevoked : is_some session.revoked_at ≡ false
    pub issued :
        issue hash now session.id
          (session.generation + 1)
          session.expires_at
          access
          refresh
          (rotate now credential session db)
        ≡ (i, db')

  some_issued_eq :
      (o : IssuedCredentials × MobileDb) (i : IssuedCredentials) (db' : MobileDb)
      → some_issued o ≡ (some i, db')
      → o ≡ (i, db')
  some_issued_eq (j, d) i db' h = ground arith

  row_issued :
      (user : Option User) (c : MobileCredential) (x : MobileSession) (i : IssuedCredentials)
      (db' : MobileDb)
      → refresh_row hash now access refresh user c x db ≡ (some i, db')
      → (is_some x.revoked_at ≡ false)
        × (issue hash now x.id (x.generation + 1) x.expires_at access refresh (rotate now c x db)
            ≡ (i, db'))
  unfolding refresh_row
  row_issued user c x i db' h = ground (
    arith,
    some_issued_eq
        (issue hash now x.id (x.generation + 1) x.expires_at access refresh (rotate now c x db)) i
        db',
  )

  session_issued :
      (c : MobileCredential) (o : Option MobileSession) (i : IssuedCredentials) (db' : MobileDb)
      → refresh_session hash now access refresh c o db ≡ (some i, db')
      → (x : MobileSession) × (o ≡ some x)
        × (refresh_row hash now access refresh (find_user x.user_id db.users) c x db
            ≡ (some i, db'))
  unfolding refresh_session
  session_issued c none i db' h = cc
  session_issued c (some x) i db' h = (x, refl, h)

  credential_issued :
      (o : Option MobileCredential) (i : IssuedCredentials) (db' : MobileDb)
      → refresh_credential hash now access refresh o db ≡ (some i, db')
      → (c : MobileCredential) × (o ≡ some c)
        × (refresh_session hash now access refresh c (find_session c.session_id db.sessions) db
            ≡ (some i, db'))
  unfolding refresh_credential
  credential_issued none i db' h = cc
  credential_issued (some c) i db' h = (c, refl, h)

  or_unauthorized_ok :
      (o : Option IssuedCredentials × MobileDb) (i : IssuedCredentials) (db' : MobileDb)
      → or_unauthorized o ≡ (ok i, db')
      → o ≡ (some i, db')
  or_unauthorized_ok (none, d) i db' h = cc
  or_unauthorized_ok (some j, d) i db' h = ground arith

  pub refreshed :
      (i : IssuedCredentials) (db' : MobileDb)
      → refresh_mobile_credential hash now token access refresh db ≡ (ok i, db')
      → Refreshed i db'
  unfolding refresh_mobile_credential
  refreshed i db' h = elim (Bool-cases (valid_token token TokenKind.refresh)) [
    | inl v ↦
        let (c, f, h1) = credential_issued _ i db' (or_unauthorized_ok _ i db' (rw v at h)) in
        let (x, o, h2) = session_issued c _ i db' h1 in
        let (u, e) = row_issued _ c x i db' h2 in
        record {
          credential = c;
          session = x;
          valid = v;
          found = f;
          owned = o;
          unrevoked = u;
          issued = e;
        }
    | inr v ↦ let b : err unauthorized ≡ ok i = ap (λ t. t.0) (rw v at h) in cc
  ]

  consumed_row : (c : MobileCredential) → MobileCredential
  consumed_row c = record c { consumed_at = some now }

  next_session : (x : MobileSession) → MobileSession
  next_session x = record x { generation = x.generation + 1; last_used_at = now }

  module _ (i : IssuedCredentials) (db' : MobileDb) (s : Refreshed i db') where
    after_sessions : db'.sessions ≡ (rotate now s.credential s.session db).sessions
    unfolding issue rotate
    after_sessions = sym (ap (λ t. t.1.sessions) s.issued)

    after_session :
        find_session s.credential.session_id db'.sessions ≡ some (next_session s.session)
    unfolding rotate next_session
    after_session = rw after_sessions (
        find_session-update s.credential.session_id db.sessions s.session next_session (λ y. refl)
          s.owned)

    after_credential : find_refresh (hash token) db'.credentials ≡ some (consumed_row s.credential)
    unfolding rotate consumed_row issue
    after_credential = rw (sym (ap (λ t. t.1.credentials) s.issued)) (
        find_refresh-update (hash token) db.credentials _ s.credential consumed_row (λ d. refl)
          s.found)

  -- The same token again, later.
  module _ (later : ℕ) (access' refresh' : List ℕ) (i : IssuedCredentials) (db' : MobileDb)
      (s : Refreshed i db') where
    denied : MobileDb
    denied =
        deny_refresh later RevocationReason.refresh_reuse true AuditAction.reused
          (next_session s.session) db'

    replay_row :
        (user : Option User)
        → refresh_row hash later access' refresh' user
            (consumed_row s.credential)
            (next_session s.session)
            db'
          ≡ (none, denied)
    unfolding refresh_row is_reused consumed_row next_session denied
    replay_row user = rw s.unrevoked

    replayed :
        refresh_mobile_credential hash later token access' refresh' db' ≡ (err unauthorized, denied)
    unfolding refresh_mobile_credential refresh_credential refresh_session consumed_row next_session
    replayed =
        rw (s.valid, after_credential i db' s, after_session i db' s)
          (ap or_unauthorized (replay_row (find_user s.session.user_id db'.users)))

    ended : MobileSession
    ended = record (revoked later RevocationReason.refresh_reuse (next_session s.session)) {
      reuse_detected_at = some later;
    }

    denied-IsRevoked : IsRevoked s.credential.session_id denied
    unfolding denied deny_refresh revoked ended next_session
    denied-IsRevoked = record {
      row = ended;
      found =
          find_session-update s.credential.session_id db'.sessions (next_session s.session)
            (λ y. record (revoked later RevocationReason.refresh_reuse y) {
              reuse_detected_at = some later;
            })
            (λ y. refl) (after_session i db' s);
      ended = refl;
    }

module _ (hash : List ℕ → ℕ) where
  issued_session :
      (now : ℕ) (token access refresh : List ℕ) (db db' : MobileDb) (i : IssuedCredentials)
      (s : Refreshed hash now token access refresh db i db')
      → i.session_id ≡ s.credential.session_id
  unfolding issue
  issued_session now token access refresh db db' i s =
      sym (ap (λ t. t.0.session_id) s.issued) ∙ find_session-key _ db.sessions s.session s.owned

  -- A refresh token that was exchanged is refused when it is used again, and that ends the session of
  -- the new credentials too: in the tables that the reuse leaves, no access token admits anybody on it.
  pub refresh_once :
      (now later time : ℕ) (token access refresh access' refresh' authorization : List ℕ)
      (touch : Bool) (db db' other : MobileDb) (i : IssuedCredentials)
      → refresh_mobile_credential hash now token access refresh db ≡ (ok i, db')
      → ((refresh_mobile_credential hash later token access' refresh' db').0 ≡ err unauthorized)
        × (session_of (
              authenticate_mobile hash time authorization touch
                (refresh_mobile_credential hash later token access' refresh' db').1
                other)
            ≢ some i.session_id)
  refresh_once now later time token access refresh access' refresh' authorization touch db db' other
        i h =
      let s = refreshed hash now token access refresh db i db' h in
      let e = replayed hash now token access refresh db later access' refresh' i db' s in
      rw (e, issued_session now token access refresh db db' i s)
        (
          refl,
          revoked_not_admitted hash time authorization _ s.credential.session_id touch other
              (denied-IsRevoked hash now token access refresh db later access' refresh' i db' s),
        )
