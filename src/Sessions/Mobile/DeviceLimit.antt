-- ===== src/Sessions/Mobile/DeviceLimit.antt =====
-- A sign-in of src/lib/mobile/auth.ts leaves a user at most twenty live sessions.
use rent_a_4_wheel.Prelude.{
  ℕ, zero, suc, ◌+◌, ◌≤◌, ◌≡◌, refl, Bool, not, ◌&&◌, List, [], ◌∷◌, any, select, count_by,
  count_by-append, update_where, nat_eq, ◌==◌, ok, guard, ok_inj, or_throw, >>=-eq-ok, ap, sym, ◌∙◌,
  arith,
}
use rent_a_4_wheel.Sessions.{find_user}
use rent_a_4_wheel.Sessions.Mobile.{
  unauthorized, MobileSession, MobileDb, IssuedCredentials, RevocationReason, native_role,
  AuditAction, revoked, audit,
}
use rent_a_4_wheel.Sessions.Mobile.Issue.{
  MobileDevice, is_live, insert_session, sort_sessions, drop, excess, sign_out_device, revoke_each,
  audit_each, make_room, new_session, insert_new_session, issue, issue_mobile_session,
}

count_by-insert_session :
    (p : MobileSession → Bool) (x : MobileSession) (ys : List MobileSession)
    → count_by p (insert_session x ys) ≡ count_by p (x ∷ ys)
unfolding insert_session
count_by-insert_session p x [] = refl
count_by-insert_session p x (y ∷ ys) = ground (arith, count_by-insert_session p x ys)

count_by-sort_sessions :
    (p : MobileSession → Bool) (xs : List MobileSession)
    → count_by p (sort_sessions xs) ≡ count_by p xs
unfolding sort_sessions
count_by-sort_sessions p [] = refl
count_by-sort_sessions p (x ∷ xs) =
    count_by-insert_session p x (sort_sessions xs) ∙ ground (arith, count_by-sort_sessions p xs)

count_by-select :
    (p q : MobileSession → Bool) (xs : List MobileSession)
    → count_by q (select p xs) ≡ count_by (λ x. p x && q x) xs
count_by-select p q [] = refl
count_by-select p q (x ∷ xs) = ground (arith, count_by-select p q xs)

-- Beyond the first `n` nothing counts but what is dropped.
count_by-drop :
    (q : MobileSession → Bool) (n : ℕ) (xs : List MobileSession)
    → count_by q xs ≤ n + count_by q (drop n xs)
count_by-drop q zero xs = omega arith
count_by-drop q (suc n) [] = omega arith
count_by-drop q (suc n) (x ∷ xs) = ground (arith, count_by-drop q n xs)

-- The id is none of theirs.
abbrev is_kept : List MobileSession → MobileSession → Bool
is_kept olds x = not (any (λ o. x.id == o.id) olds)

fewer_kept :
    (z : MobileSession) (olds xs : List MobileSession)
    → count_by (is_kept (z ∷ olds)) xs ≤ count_by (is_kept olds) xs
fewer_kept z olds [] = omega arith
fewer_kept z olds (x ∷ xs) = ground (arith, fewer_kept z olds xs)

none_kept : (olds : List MobileSession) → count_by (is_kept olds) olds ≡ 0
none_kept [] = refl
none_kept (z ∷ olds) = ground (arith, fewer_kept z olds olds, none_kept olds)

revoke_step :
    (user_id now : ℕ) (old : MobileSession) (olds ss : List MobileSession)
    → count_by
        (λ x. is_live user_id now x && is_kept olds x)
        (update_where (λ x. x.id == old.id) (revoked now RevocationReason.device_limit) ss)
      ≤ count_by (λ x. is_live user_id now x && is_kept (old ∷ olds) x) ss
unfolding is_live revoked
revoke_step user_id now old olds [] = omega arith
revoke_step user_id now old olds (x ∷ xs) = ground (arith, revoke_step user_id now old olds xs)

no_olds :
    (user_id now : ℕ) (ss : List MobileSession)
    → count_by (is_live user_id now) ss ≤ count_by (λ x. is_live user_id now x && is_kept [] x) ss
no_olds user_id now [] = omega arith
no_olds user_id now (x ∷ xs) = ground (arith, no_olds user_id now xs)

revoke_each-count :
    (user_id now : ℕ) (olds ss : List MobileSession)
    → count_by (is_live user_id now) (revoke_each now olds ss)
      ≤ count_by (λ x. is_live user_id now x && is_kept olds x) ss
unfolding revoke_each
revoke_each-count user_id now [] ss = no_olds user_id now ss
revoke_each-count user_id now (old ∷ olds) ss =
    omega (arith, revoke_each-count user_id now olds _, revoke_step user_id now old olds ss)

audit_each-sessions :
    (user_id : ℕ) (olds : List MobileSession) (db : MobileDb)
    → (audit_each user_id olds db).sessions ≡ db.sessions
unfolding audit_each audit
audit_each-sessions user_id [] db = refl
audit_each-sessions user_id (old ∷ olds) db =
    audit_each-sessions user_id olds (audit user_id old.id AuditAction.device_limit_revoked db)

excess-count :
    (user_id now : ℕ) (ss : List MobileSession)
    → count_by (λ x. is_live user_id now x && is_kept (excess user_id now ss) x) ss ≤ 19
unfolding excess
excess-count user_id now ss =
    let live = select (is_live user_id now) ss in
    let kept = is_kept (excess user_id now ss) in
    omega (
      arith,
      count_by-select (is_live user_id now) kept ss,
      count_by-sort_sessions kept live,
      count_by-drop kept 19 (sort_sessions live),
      none_kept (excess user_id now ss),
    )

make_room-live :
    (now user_id device_id : ℕ) (db : MobileDb)
    → count_by (is_live user_id now) (make_room now user_id device_id db).sessions ≤ 19
unfolding make_room
make_room-live now user_id device_id db =
    let kept = sign_out_device now user_id device_id db.sessions in
    let olds = excess user_id now kept in
    rw (audit_each-sessions user_id olds (record db { sessions = revoke_each now olds kept }))
      (omega (arith, revoke_each-count user_id now olds kept, excess-count user_id now kept))

one_more :
    (now user_id device_id : ℕ) (db : MobileDb)
    → count_by (is_live user_id now) (insert_new_session now user_id device_id db).sessions
      ≤ count_by (is_live user_id now) db.sessions + 1
unfolding insert_new_session
one_more now user_id device_id db =
    let row = new_session db.next_id user_id device_id now in
    ground (arith, count_by-append (is_live user_id now) db.sessions (row ∷ []))

-- After a sign-in the user has at most twenty live sessions, however many there were before.
pub at_most_twenty_devices :
    (hash : List ℕ → ℕ) (now user_id : ℕ) (device : MobileDevice) (db db' : MobileDb)
    (i : IssuedCredentials)
    → issue_mobile_session hash now user_id device db ≡ ok (i, db')
    → count_by (is_live user_id now) db'.sessions ≤ 20
unfolding issue_mobile_session issue
at_most_twenty_devices hash now user_id device db db' i h =
    let (u, f, h1) = >>=-eq-ok (or_throw (find_user user_id db.users) unauthorized) _ h in
    let (_, g, h2) = >>=-eq-ok (guard (u.is_active && native_role u.role) unauthorized) _ h1 in
    let room = make_room now user_id device.device_id db in
    let same : db'.sessions ≡ (insert_new_session now user_id device.device_id room).sessions =
      sym (ap (λ t. t.1.sessions) (ok_inj _ _ _ refl h2)) in
    rw same (
      omega (
        arith,
        one_more now user_id device.device_id room,
        make_room-live now user_id device.device_id db,
      ))
