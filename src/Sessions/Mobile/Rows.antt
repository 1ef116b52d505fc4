-- ===== src/Sessions/Mobile/Rows.antt =====
-- Lookups of mobile sessions and credentials across the updates of src/lib/mobile/auth.ts.
use rent_a_4_wheel.Prelude.{
  ℕ, ◌≡◌, refl, some, List, ◌++◌, ap, find-append, find-holds, update_where, find-update_where_pass,
  nat_eq, nat_beq_iff, ◌==◌,
}
use rent_a_4_wheel.Sessions.Mobile.{MobileSession, MobileCredential, find_session, find_refresh}

-- A row is found under its own id.
pub find_session-key :
    (id : ℕ) (ss : List MobileSession) (x : MobileSession) → find_session id ss ≡ some x → x.id ≡ id
unfolding find_session
find_session-key id ss x e = (nat_beq_iff _ _).0 (find-holds (λ y. y.id == id) ss x e)

-- An update of the row of an id, by a change that keeps the id.
pub find_session-update :
    (id : ℕ) (ss : List MobileSession) (x : MobileSession) (f : MobileSession → MobileSession)
    → ((y : MobileSession) → (f y).id ≡ y.id)
    → find_session id ss ≡ some x
    → find_session id (update_where (λ y. y.id == x.id) f ss) ≡ some (f x)
unfolding find_session
find_session-update id ss x f k e =
    find-update_where_pass (λ y. y.id == id) (λ y. y.id == x.id) f ss x
      (λ y. ap (λ n. n == id) (k y)) e ((nat_beq_iff _ _).1 refl)

-- A credential that is updated and joined by others is found as it was changed.
pub find_refresh-update :
    (h : ℕ) (cs more : List MobileCredential) (c : MobileCredential)
    (f : MobileCredential → MobileCredential)
    → ((d : MobileCredential) → (f d).refresh_hash ≡ d.refresh_hash)
    → find_refresh h cs ≡ some c
    → find_refresh h (update_where (λ d. d.id == c.id) f cs ++ more) ≡ some (f c)
unfolding find_refresh
find_refresh-update h cs more c f k e =
    find-append (λ d. d.refresh_hash == h) (update_where (λ d. d.id == c.id) f cs) more (f c)
      (find-update_where_pass (λ d. d.refresh_hash == h) (λ d. d.id == c.id) f cs c
        (λ d. ap (λ n. n == h) (k d)) e ((nat_beq_iff _ _).1 refl))
