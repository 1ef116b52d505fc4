-- ===== src/Sessions/Mobile/RoundTrip.antt =====
-- The access token that a sign-in of src/lib/mobile/auth.ts issues is the one that authenticates.
use rent_a_4_wheel.Prelude.{
  ℕ, Bool, if◌then◌else◌, update_where, count_by, count_by-append, find-none-count_by,
  any-append_last, any, find, count_by-and-le, count_by-found, find-update_where_self, ◌+◌, ◌<◌,
  ◌≡◌, refl, true, false, not, ◌&&◌, none, some, List, [], ◌∷◌, ◌++◌, is_some, ltb, find-append_new,
  nat_eq, nat_beq_iff, ◌==◌, ok, ok_inj, guard, or_throw, >>=-eq-ok, guard-eq-ok, ap, sym, ◌∙◌,
  arith,
}
use rent_a_4_wheel.Sessions.{User, find_user}
use rent_a_4_wheel.Sessions.Mobile.{
  unauthorized, MobileSession, MobileCredential, MobileDb, IssuedCredentials, TokenKind,
  native_role, is_eligible, audit, family_ms, prefix, strip, is_body, valid_token, new_token,
  find_session, find_access,
}
use rent_a_4_wheel.Sessions.Mobile.Issue.{
  MobileDevice, make_room, new_session, insert_new_session, new_credential, issue,
  issue_mobile_session,
}
use rent_a_4_wheel.Sessions.Mobile.Access.{
  bearer, admits, still_admits, touch_session, role_of, authenticate_mobile,
}
use rent_a_4_wheel.Sessions.Mobile.Room.{SameTables, roomy, make_room-SameTables, make_room-none}

abbrev pub bearer_scheme : List ℕ
bearer_scheme = b'B' ∷ b'e' ∷ b'a' ∷ b'r' ∷ b'e' ∷ b'r' ∷ b' ' ∷ []

strip-prefix : (ps cs : List ℕ) → strip ps (ps ++ cs) ≡ some cs
unfolding strip
strip-prefix [] cs = refl
strip-prefix (p ∷ ps) cs = ground (arith, nat_beq_iff p p, strip-prefix ps cs)

bearer_token : (token : List ℕ) → bearer (bearer_scheme ++ token) ≡ token
unfolding bearer
bearer_token token = rw (strip-prefix bearer_scheme token)

new_token-valid :
    (kind : TokenKind) (body : List ℕ)
    → is_body body ≡ true
    → valid_token (new_token kind body) kind ≡ true
unfolding valid_token new_token
new_token-valid kind body h = rw (strip-prefix (prefix kind) body) h

-- The rows that an authentication finds decide it.
authenticate_by :
    (hash : List ℕ → ℕ) (now : ℕ) (authorization : List ℕ) (touch : Bool) (db db' : MobileDb)
    (c : MobileCredential) (x : MobileSession)
    → valid_token (bearer authorization) TokenKind.access ≡ true
    → find_access (hash (bearer authorization)) db.credentials ≡ some c
    → (not (is_some c.consumed_at) && ltb now c.access_expires_at) ≡ true
    → find_session c.session_id db.sessions ≡ some x
    → admits now c (find_user x.user_id db.users) x ≡ true
    → (if touch then touch_session hash now c db else ok db) ≡ ok db'
    → authenticate_mobile hash now authorization touch db db
      ≡ ok (
        record {
          user_id = x.user_id;
          session_id = x.id;
          role = role_of (find_user x.user_id db.users);
        },
        db',
      )
unfolding authenticate_mobile
authenticate_by hash now authorization touch db db' c x v f l o a t = rw (v, f, l, o, a) (rw t refl)

one_touched :
    (q p : MobileSession → Bool) (xs : List MobileSession) (x : MobileSession)
    → find q xs ≡ some x
    → count_by q xs ≡ 1
    → p x ≡ true
    → (count_by (λ y. q y && p y) xs == 1) ≡ true
one_touched q p xs x f n h = ground (arith, n, count_by-and-le q p xs, count_by-found q p xs x f h)

passes_of : (a b : Bool) → (a && b) ≡ true → b ≡ true
passes_of a b h = ground arith

module _ (hash : List ℕ → ℕ) (now user_id : ℕ) (device : MobileDevice) (db db' : MobileDb)
    (i : IssuedCredentials) where
  -- What a sign-in leaves.
  record SignedIn : Type 0 where
    pub user : User
    pub found : find_user user_id db.users ≡ some user
    pub eligible : is_eligible (some user) ≡ true
    pub result :
        issue hash now
          (make_room now user_id device.device_id db).next_id
          0
          (now + family_ms)
          device.access_body
          device.refresh_body
          (insert_new_session now user_id device.device_id
            (make_room now user_id device.device_id db))
        ≡ (i, db')

  signed_in : issue_mobile_session hash now user_id device db ≡ ok (i, db') → SignedIn
  unfolding issue_mobile_session is_eligible
  signed_in h =
      let (u, f, h1) = >>=-eq-ok (or_throw (find_user user_id db.users) unauthorized) _ h in
      let (_, g, h2) = >>=-eq-ok (guard (u.is_active && native_role u.role) unauthorized) _ h1 in
      record {
        user = u;
        found = ground (arith, f);
        eligible = guard-eq-ok _ _ g;
        result = ok_inj _ _ _ refl h2;
      }

  module _ (s : SignedIn) (fresh_id : find_session db.next_id db.sessions ≡ none)
      (fresh_hash : find_access (hash i.access_token) db.credentials ≡ none) where
    room :
        SameTables
          (roomy now user_id device.device_id db)
          (make_room now user_id device.device_id db)
    room = make_room-SameTables now user_id device.device_id db

    session : MobileSession
    session = new_session db.next_id user_id device.device_id now

    credential : MobileCredential
    credential =
        new_credential hash (db.next_id + 1) db.next_id 0 now (now + family_ms)
          (new_token TokenKind.access device.access_body)
          (new_token TokenKind.refresh device.refresh_body)

    token_issued : i.access_token ≡ new_token TokenKind.access device.access_body
    unfolding issue
    token_issued = sym (ap (λ t. t.0.access_token) s.result)

    session_issued : i.session_id ≡ db.next_id
    unfolding issue roomy
    session_issued = sym (ap (λ t. t.0.session_id) s.result) ∙ room.next_id

    users_same : db'.users ≡ db.users
    unfolding issue insert_new_session audit roomy
    users_same = sym (ap (λ t. t.1.users) s.result) ∙ room.users

    room_db : MobileDb
    room_db = make_room now user_id device.device_id db

    sessions_are : db'.sessions ≡ room_db.sessions ++ session ∷ []
    unfolding issue insert_new_session audit roomy session room_db
    sessions_are =
        sym (ap (λ t. t.1.sessions) s.result)
        ∙ ap (λ n. room_db.sessions ++ new_session n user_id device.device_id now ∷ []) room.next_id

    session_found : find_session db.next_id db'.sessions ≡ some session
    unfolding session find_session new_session room_db
    session_found = rw sessions_are (
        find-append_new (λ x. x.id == db.next_id) room_db.sessions session
          (make_room-none now user_id device.device_id db db.next_id fresh_id)
          ((nat_beq_iff _ _).1 refl))

    credentials_are : db'.credentials ≡ db.credentials ++ credential ∷ []
    unfolding issue insert_new_session audit roomy credential room_db
    credentials_are =
        sym (ap (λ t. t.1.credentials) s.result)
        ∙ ap
            (λ n.
              room_db.credentials
              ++ new_credential hash (n + 1) n 0 now (now + family_ms)
                  (new_token TokenKind.access device.access_body)
                  (new_token TokenKind.refresh device.refresh_body)
                ∷ [])
            room.next_id
        ∙ ap (λ cs. cs ++ credential ∷ []) room.credentials

    credential_found : find_access (hash i.access_token) db'.credentials ≡ some credential
    unfolding credential find_access new_credential
    credential_found = rw credentials_are (
        find-append_new (λ c. c.access_hash == hash i.access_token) db.credentials credential
          fresh_hash ((nat_beq_iff _ _).1 (ap hash (sym token_issued))))

    expires : i.access_expires_at ≡ credential.access_expires_at
    unfolding issue credential new_credential
    expires = sym (ap (λ t. t.0.access_expires_at) s.result)

    admits_session :
        (later : ℕ)
        → later < i.access_expires_at
        → (admits later credential (find_user user_id db'.users) session ≡ true)
          × ((not (is_some credential.consumed_at) && ltb later credential.access_expires_at)
              ≡ true)
    unfolding admits credential session new_session new_credential
    admits_session later h = rw (users_same, s.found, s.eligible) (ground (arith, expires))

    -- The row that the update of `lastUsedAt` means is the new session and no other.
    meant :
        (later : ℕ)
        → admits later credential (find_user user_id db'.users) session ≡ true
        → (not (is_some credential.consumed_at) && ltb later credential.access_expires_at) ≡ true
        → still_admits later credential db' session ≡ true
    unfolding still_admits admits credential session new_session new_credential
    meant later a l =
        let held =
          any-append_last
            (λ d.
              d.session_id == session.id
              && d.id == credential.id
              && not (is_some d.consumed_at)
              && ltb later d.access_expires_at)
            db.credentials credential
            (ground (
              arith,
              l,
              nat_beq_iff db.next_id db.next_id,
              nat_beq_iff (db.next_id + 1) (db.next_id + 1),
            )) in
        rw credentials_are (ground (arith, a, held, nat_beq_iff db.next_id db.next_id))

    session_count : count_by (λ x. x.id == db.next_id) db'.sessions ≡ 1
    unfolding session new_session room_db find_session
    session_count = rw sessions_are (
        ground (
          arith,
          count_by-append (λ x. x.id == db.next_id) room_db.sessions (session ∷ []),
          find-none-count_by (λ x. x.id == db.next_id) room_db.sessions
              (make_room-none now user_id device.device_id db db.next_id fresh_id),
        ))

    -- The condition of that update beyond the id.
    meets : ℕ → MobileSession → Bool
    meets later x =
        x.generation == credential.generation
        && not (is_some x.revoked_at)
        && ltb later x.expires_at
        && is_eligible (find_user x.user_id db'.users)
        && any
            (λ d.
              d.session_id == x.id
              && d.id == credential.id
              && not (is_some d.consumed_at)
              && ltb later d.access_expires_at)
            db'.credentials

    passes :
        (later : ℕ) → still_admits later credential db' session ≡ true → meets later session ≡ true
    unfolding meets still_admits
    passes later m = passes_of (session.id == credential.session_id) (meets later session) m

    touches :
        (later : ℕ)
        → still_admits later credential db' session ≡ true
        → touch_session hash later credential db'
          ≡ ok (record db' {
            sessions =
                update_where
                  (still_admits later credential db')
                  (λ x. record x { last_used_at = later })
                  db'.sessions;
          })
    unfolding touch_session still_admits credential new_credential find_session meets
    touches later m =
        rw
          (one_touched (λ x. x.id == db.next_id) (meets later) db'.sessions session session_found
            session_count (passes later m))
          refl

    touched : (touch : Bool) (later : ℕ) → MobileDb
    touched true later = record db' {
      sessions =
          update_where (still_admits later credential db') (λ x. record x { last_used_at = later })
            db'.sessions;
    }
    touched false later = db'

    touches_if :
        (touch : Bool) (later : ℕ)
        → still_admits later credential db' session ≡ true
        → (if touch then touch_session hash later credential db' else ok db')
          ≡ ok (touched touch later)
    unfolding touched
    touches_if true later m = touches later m
    touches_if false later m = refl

    stamped :
        (later : ℕ)
        → still_admits later credential db' session ≡ true
        → find_session db.next_id (touched true later).sessions
          ≡ some (record session { last_used_at = later })
    unfolding touched find_session still_admits credential new_credential meets
    stamped later m =
        find-update_where_self (λ x. x.id == db.next_id) (meets later)
          (λ x. record x { last_used_at = later }) db'.sessions session (λ x. refl) session_found
          (passes later m)

  -- The access token that a sign-in issued authenticates the user on the new session, at any time
  -- before it expires, where its random part is well formed and its hash and the row's id are new. With
  -- `touch` the session's `lastUsedAt` becomes that time; without it nothing is written.
  pub signed_in_authenticates :
      (later : ℕ) (touch : Bool)
      → issue_mobile_session hash now user_id device db ≡ ok (i, db')
      → is_body device.access_body ≡ true
      → find_session db.next_id db.sessions ≡ none
      → find_access (hash i.access_token) db.credentials ≡ none
      → later < i.access_expires_at
      → (touched_db : MobileDb) × (authenticate_mobile hash later
            (bearer_scheme ++ i.access_token)
            touch
            db'
            db'
          ≡ ok (
            record {
              user_id = user_id;
              session_id = i.session_id;
              role = role_of (find_user user_id db.users);
            },
            touched_db,
          ))
        × (touch ≡ false → touched_db ≡ db')
        × (touch ≡ true
            → (x : MobileSession) × (find_session i.session_id db'.sessions ≡ some x)
              × (find_session i.session_id touched_db.sessions
                  ≡ some (record x { last_used_at = later })))
  unfolding credential session new_session new_credential touched
  signed_in_authenticates later touch h body fresh_id fresh_hash before =
      let s = signed_in h in
      let header = bearer_scheme ++ i.access_token in
      let token = bearer_token i.access_token in
      let (admitted, live) = admits_session s fresh_id fresh_hash later before in
      let used = meant s fresh_id fresh_hash later admitted live in
      let after = touched s fresh_id fresh_hash touch later in
      let named = session_issued s fresh_id fresh_hash in
      (
        after,
        authenticate_by hash later header touch db' after (credential s fresh_id fresh_hash)
              (session s fresh_id fresh_hash)
              (ap (λ t. valid_token t TokenKind.access) (token ∙ token_issued s fresh_id fresh_hash)
                ∙ new_token-valid TokenKind.access device.access_body body)
              (ap (λ t. find_access (hash t) db'.credentials) token
                ∙ credential_found s fresh_id fresh_hash)
              live (session_found s fresh_id fresh_hash) admitted
              (touches_if s fresh_id fresh_hash touch later used)
            ∙ rw (users_same s fresh_id fresh_hash, named),
        λ e. ap (λ b. touched s fresh_id fresh_hash b later) e,
        λ e. (
          session s fresh_id fresh_hash,
          rw named (session_found s fresh_id fresh_hash),
          rw (e, named) (stamped s fresh_id fresh_hash later used),
        ),
      )
