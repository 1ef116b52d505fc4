-- ===== src/Sessions/Devices/Endings.antt =====
-- A browser credential of src/lib/device-sessions.ts that was rotated away or signed out never serves again.
use rent_a_4_wheel.Prelude.{
  ℕ, ◌+◌, ◌<◌, ◌≤◌, ◌≡◌, refl, Bool, true, false, not, ◌&&◌, ◌||◌, ◌⊎◌, inl, inr, Option, none,
  some, List, [], ◌∷◌, ◌++◌, All, All-append, if-cases, Bool-cases, count_by, update_where, is_some,
  ltb, leb→le, nat_eq, option_eq, ◌==◌, ok, guard, >>=-eq-ok, guarded_ok, ap, sym, subst, arith,
}
use rent_a_4_wheel.Sessions.{User, find_user}
use rent_a_4_wheel.Sessions.Devices.{
  reauthentication_required, DeviceSession, DeviceDb, is_current, serves, seen, turned, end_session,
  is_ended, is_code, has_active_user, validate_user, create_device_session, validate_device_session,
  revoke_device_sessions, rotate_device_session,
}

-- One operation of anybody, at any time; an operation that fails changes nothing.
pub data Step (db : DeviceDb) : DeviceDb → Type 0 where
  creates :
      (now user_id : ℕ) (is_mobile : Bool) {c : ℕ × ℕ} {db' : DeviceDb}
      → create_device_session now user_id is_mobile db ≡ ok (c, db')
      → Step db db'
  validates :
      (now user_id sid rotation : ℕ) {u : Option User} {db' : DeviceDb}
      → validate_device_session now user_id sid rotation db ≡ (u, db')
      → Step db db'
  revokes :
      (now user_id : ℕ) (sid : Option ℕ) {n : ℕ} {db' : DeviceDb}
      → revoke_device_sessions now user_id sid db ≡ ok (n, db')
      → Step db db'
  rotates :
      (now user_id sid rotation : ℕ) (code : List ℕ) (verified : Bool) {n : ℕ} {db' : DeviceDb}
      → rotate_device_session now user_id sid rotation code verified db ≡ ok (n, db')
      → Step db db'

pub data Steps (db : DeviceDb) : DeviceDb → Type 0 where
  here : Steps db db
  next : {db' db'' : DeviceDb} → Steps db db' → Step db' db'' → Steps db db''

-- The credential of a user is ended: it was rotated away, or signed out alone or with all others.
pub data Ends (user_id sid rotation : ℕ) (db db' : DeviceDb) : Type 0 where
  rotated_away :
      (now : ℕ) (code : List ℕ) (n : ℕ)
      → rotate_device_session now user_id sid rotation code true db ≡ ok (n, db')
      → Ends user_id sid rotation db db'
  signed_out :
      (now n : ℕ)
      → revoke_device_sessions now user_id (some sid) db ≡ ok (n, db')
      → Ends user_id sid rotation db db'
  signed_out_everywhere :
      (now n : ℕ)
      → revoke_device_sessions now user_id none db ≡ ok (n, db')
      → Ends user_id sid rotation db db'

-- The id is one of a row at most, and was given already.
pub record IsKeyed (sid : ℕ) (db : DeviceDb) : Type 0 where
  pub unique : count_by (λ x. x.id == sid) db.sessions ≤ 1
  pub given : sid < db.next_id

module _ (user_id sid rotation : ℕ) where
  -- The credential does not name the row, or not any more.
  is_past : DeviceSession → Bool
  is_past x =
      not (x.id == sid && x.user_id == user_id) || ltb rotation x.rotation || is_some x.revoked_at

  abbrev IsPast : DeviceSession → Type 0
  IsPast x = is_past x ≡ true

  record IsDead (db : DeviceDb) : Type 0 where
    pub given : sid < db.next_id
    pub past : All IsPast db.sessions

  update-IsPast :
      (p : DeviceSession → Bool) (f : DeviceSession → DeviceSession) (xs : List DeviceSession)
      → ((x : DeviceSession) → IsPast x → IsPast (f x))
      → All IsPast xs
      → All IsPast (update_where p f xs)
  update-IsPast p f [] k a = tt
  update-IsPast p f (x ∷ xs) k a =
      (if-cases IsPast (p x) (f x) x (λ _. k x a.0) (λ _. a.0), update-IsPast p f xs k a.1)

  seen-IsPast : (now : ℕ) (x : DeviceSession) → IsPast x → IsPast (seen now x)
  unfolding is_past seen
  seen-IsPast now x h = h

  turned-IsPast : (now : ℕ) (x : DeviceSession) → IsPast x → IsPast (turned now x)
  unfolding is_past turned
  turned-IsPast now x h = ground arith

  end_session-IsPast : (now : ℕ) (x : DeviceSession) → IsPast x → IsPast (end_session now x)
  unfolding is_past end_session
  end_session-IsPast now x h = ground arith

  -- A dead credential is refused.
  none_serves :
      (now : ℕ) (xs : List DeviceSession)
      → All IsPast xs
      → count_by (serves now user_id sid rotation) xs ≡ 0
  unfolding is_past serves is_current
  none_serves now [] a = refl
  none_serves now (x ∷ xs) a = ground (arith, a.0, none_serves now xs a.1)

  validate_user-IsDead :
      (now u s r : ℕ) (o : Option User) (db : DeviceDb)
      → IsDead db
      → IsDead (validate_user now u s r o db).1
  unfolding validate_user
  validate_user-IsDead now u s r none db d = d
  validate_user-IsDead now u s r (some v) db d =
      if-cases (λ (t : Option User × DeviceDb). IsDead t.1) v.is_active _ _
        (λ _. record {
          given = d.given;
          past = update-IsPast (serves now u s r) (seen now) db.sessions (seen-IsPast now) d.past;
        })
        (λ _. d)

  created-IsDead :
      (x : DeviceSession) (db db' : DeviceDb)
      → x.id ≡ db.next_id
      → db'.sessions ≡ db.sessions ++ x ∷ []
      → db'.next_id ≡ db.next_id + 1
      → IsDead db
      → IsDead db'
  unfolding is_past
  created-IsDead x db db' i s n d = record {
    given = omega (arith, n, d.given);
    past = rw s (All-append IsPast db.sessions (x ∷ []) d.past (ground (arith, i, d.given), tt));
  }

  updated-IsDead :
      (p : DeviceSession → Bool) (f : DeviceSession → DeviceSession) (db db' : DeviceDb)
      → ((x : DeviceSession) → IsPast x → IsPast (f x))
      → db'.sessions ≡ update_where p f db.sessions
      → db'.next_id ≡ db.next_id
      → IsDead db
      → IsDead db'
  updated-IsDead p f db db' k s n d = record {
    given = omega (arith, n, d.given);
    past = rw s (update-IsPast p f db.sessions k d.past);
  }

  Step-IsDead : {db db' : DeviceDb} → Step db db' → IsDead db → IsDead db'
  unfolding create_device_session validate_device_session revoke_device_sessions
      rotate_device_session
  Step-IsDead {db} {db'} (creates now u m h) d =
      let (_, e) = guarded_ok _ _ _ _ h in
      created-IsDead _ db db' refl (sym (ap (λ t. t.1.sessions) e)) (sym (ap (λ t. t.1.next_id) e))
        d
  Step-IsDead {db} (validates now u s r h) d =
      subst (λ t. IsDead t.1) h (validate_user-IsDead now u s r (find_user u db.users) db d)
  Step-IsDead {db} {db'} (revokes now u s h) d =
      let (_, e) = guarded_ok _ _ _ _ h in
      updated-IsDead (is_ended u s) (end_session now) db db' (end_session-IsPast now)
        (sym (ap (λ t. t.1.sessions) e)) (sym (ap (λ t. t.1.next_id) e)) d
  Step-IsDead {db} {db'} (rotates now u s r code verified h) d =
      let (_, _, h1) =
        >>=-eq-ok
          (guard (has_active_user u db.users && is_code code && verified) reauthentication_required)
          _ h in
      let (_, e) = guarded_ok _ _ _ _ h1 in
      updated-IsDead (serves now u s r) (turned now) db db' (turned-IsPast now)
        (sym (ap (λ t. t.1.sessions) e)) (sym (ap (λ t. t.1.next_id) e)) d

  Steps-IsDead : {db db' : DeviceDb} → Steps db db' → IsDead db → IsDead db'
  Steps-IsDead here d = d
  Steps-IsDead (next r s) d = Step-IsDead s (Steps-IsDead r d)

  unnamed-IsPast : (xs : List DeviceSession) → count_by (λ x. x.id == sid) xs ≡ 0 → All IsPast xs
  unfolding is_past
  unnamed-IsPast [] h = tt
  unnamed-IsPast (x ∷ xs) h = (ground arith, unnamed-IsPast xs (ground arith))

  serves-le-named :
      (now : ℕ) (xs : List DeviceSession)
      → count_by (serves now user_id sid rotation) xs ≤ count_by (λ x. x.id == sid) xs
  unfolding serves is_current
  serves-le-named now [] = omega arith
  serves-le-named now (x ∷ xs) = ground (arith, serves-le-named now xs)

  -- The row that is turned is the only one of its id.
  turned_row :
      (now : ℕ) (x : DeviceSession)
      → serves now user_id sid rotation x ≡ true
      → IsPast (turned now x) × (x.id ≡ sid)
  unfolding is_past serves turned is_current
  turned_row now x h = ground arith

  other_row : (x : DeviceSession) → (x.id == sid) ≡ false → IsPast x
  unfolding is_past
  other_row x h = ground arith

  rotated-IsPast :
      (now : ℕ) (xs : List DeviceSession)
      → count_by (λ x. x.id == sid) xs ≤ 1
      → 1 ≤ count_by (serves now user_id sid rotation) xs
      → All IsPast (update_where (serves now user_id sid rotation) (turned now) xs)
  rotated-IsPast now [] u c = tt
  rotated-IsPast now (x ∷ xs) u c = elim (Bool-cases (serves now user_id sid rotation x)) [
    | inl s ↦
        let (row, named) = turned_row now x s in
        rw s (
          row,
          update-IsPast _ (turned now) xs (turned-IsPast now)
              (unnamed-IsPast xs (ground (arith, named))),
        )
    | inr s ↦
        let other : (x.id == sid) ≡ false = ground (arith, serves-le-named now xs) in
        rw s (other_row x other, rotated-IsPast now xs (ground arith) (ground arith))
  ]

  -- A row of the credential that is not signed out now was signed out before.
  kept_row :
      (s : Option ℕ) (x : DeviceSession)
      → (s ≡ none) ⊎ (s ≡ some sid)
      → is_ended user_id s x ≡ false
      → IsPast x
  unfolding is_past is_ended
  kept_row s x (inl e) h = ground arith
  kept_row s x (inr e) h = ground arith

  closed_row : (now : ℕ) (x : DeviceSession) → IsPast (end_session now x)
  unfolding is_past end_session
  closed_row now x = ground arith

  ended-IsPast :
      (now : ℕ) (s : Option ℕ) (xs : List DeviceSession)
      → (s ≡ none) ⊎ (s ≡ some sid)
      → All IsPast (update_where (is_ended user_id s) (end_session now) xs)
  ended-IsPast now s [] h = tt
  ended-IsPast now s (x ∷ xs) h = (
    if-cases IsPast (is_ended user_id s x) (end_session now x) x (λ _. closed_row now x)
        (kept_row s x h),
    ended-IsPast now s xs h,
  )

  signed_out-IsDead :
      (now n : ℕ) (s : Option ℕ) (db db' : DeviceDb)
      → (s ≡ none) ⊎ (s ≡ some sid)
      → sid < db.next_id
      → revoke_device_sessions now user_id s db ≡ ok (n, db')
      → IsDead db'
  unfolding revoke_device_sessions
  signed_out-IsDead now n s db db' k g h =
      let (_, e) = guarded_ok _ _ _ _ h in
      record {
        given = omega (arith, g, ap (λ t. t.1.next_id) e);
        past = subst (All IsPast) (ap (λ t. t.1.sessions) e) (ended-IsPast now s db.sessions k);
      }

  Ends-IsDead : {db db' : DeviceDb} → Ends user_id sid rotation db db' → IsKeyed sid db → IsDead db'
  unfolding rotate_device_session
  Ends-IsDead {db} {db'} (rotated_away now code n h) k =
      let (_, _, h1) =
        >>=-eq-ok
          (guard (has_active_user user_id db.users && is_code code && true)
            reauthentication_required)
          _ h in
      let (c, e) = guarded_ok _ _ _ _ h1 in
      record {
        given = omega (arith, k.given, ap (λ t. t.1.next_id) e);
        past =
            subst (All IsPast) (ap (λ t. t.1.sessions) e)
              (rotated-IsPast now db.sessions k.unique (leb→le _ _ c));
      }
  Ends-IsDead {db} {db'} (signed_out now n h) k =
      signed_out-IsDead now n (some sid) db db' (inr refl) k.given h
  Ends-IsDead {db} {db'} (signed_out_everywhere now n h) k =
      signed_out-IsDead now n none db db' (inl refl) k.given h

  refused :
      (now : ℕ) (o : Option User) (db : DeviceDb)
      → IsDead db
      → (validate_user now user_id sid rotation o db).0 ≡ none
  unfolding validate_user
  refused now none db d = refl
  refused now (some u) db d = ground (arith, none_serves now db.sessions d.past)

-- A browser credential that was rotated away, or signed out alone or with all others, never serves
-- again, whatever sign-ins, checks, revocations and rotations of anybody follow at whatever time.
pub ended_never_serves :
    (user_id sid rotation now : ℕ) (db db' later : DeviceDb)
    → IsKeyed sid db
    → Ends user_id sid rotation db db'
    → Steps db' later
    → (validate_device_session now user_id sid rotation later).0 ≡ none
unfolding validate_device_session
ended_never_serves user_id sid rotation now db db' later k e s =
    refused user_id sid rotation now (find_user user_id later.users) later
      (Steps-IsDead user_id sid rotation s (Ends-IsDead user_id sid rotation e k))
