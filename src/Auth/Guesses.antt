-- ===== src/Auth/Guesses.antt =====
-- How often a code of src/lib/auth-code.ts can be guessed, and that it signs in once.
use rent_a_4_wheel.Prelude.{
  ℕ, ◌+◌, ◌≤◌, ◌<◌, ◌≡◌, refl, sym, ap, ◌∙◌, Bool, Bool-cases, true, false, inl, inr, not, Option,
  none, some, List, [], ◌∷◌, sum_by, update_where, if◌then◌else◌, is_some, if-cases, subst, leb,
  nat_beq_iff, nat_eq, ◌==◌, arith,
}
use rent_a_4_wheel.Auth.{
  Purpose, AuthCode, CodeTable, VerifyCodeResult, verified, no_code, expired, locked, mismatch,
  is_for, newer, latest, update_code, Guess, attempted, consumed, compare_code, verify_found,
  verify_auth_code,
}

-- A row under `update` with an id.
abbrev touched : ℕ → (AuthCode → AuthCode) → AuthCode → AuthCode
touched id f c = if c.id == id then f c else c

abbrev touched_row : ℕ → (AuthCode → AuthCode) → Option AuthCode → Option AuthCode
touched_row id f none = none
touched_row id f (some c) = some (touched id f c)

touched-created :
    (id : ℕ) (f : AuthCode → AuthCode) (c : AuthCode)
    → ((x : AuthCode) → (f x).created_at ≡ x.created_at)
    → (touched id f c).created_at ≡ c.created_at
touched-created id f c k = elim (Bool-cases (c.id == id)) [ inl b ↦ rw b (k c) | inr b ↦ rw b refl ]

touched-test :
    (p : AuthCode → Bool) (id : ℕ) (f : AuthCode → AuthCode) (c : AuthCode)
    → ((x : AuthCode) → p (f x) ≡ p x)
    → p (touched id f c) ≡ p c
touched-test p id f c k = elim (Bool-cases (c.id == id)) [ inl b ↦ rw b (k c) | inr b ↦ rw b refl ]

touched_row-if :
    (b : Bool) (id : ℕ) (f : AuthCode → AuthCode) (c r : AuthCode)
    → (if b then some (touched id f c) else some (touched id f r))
      ≡ touched_row id f (if b then some c else some r)
touched_row-if true id f c r = refl
touched_row-if false id f c r = refl

newer-touched :
    (b : Bool) (id : ℕ) (f : AuthCode → AuthCode) (c : AuthCode) (o : Option AuthCode)
    → ((x : AuthCode) → (f x).created_at ≡ x.created_at)
    → newer b (touched id f c) (touched_row id f o) ≡ touched_row id f (newer b c o)
unfolding newer
newer-touched false id f c o k = refl
newer-touched true id f c none k = refl
newer-touched true id f c (some r) k =
    rw (touched-created id f r k)
      (rw (touched-created id f c k) (touched_row-if (leb r.created_at c.created_at) id f c r))

latest-touched :
    (p : AuthCode → Bool) (id : ℕ) (f : AuthCode → AuthCode) (cs : List AuthCode)
    → ((x : AuthCode) → p (f x) ≡ p x)
    → ((x : AuthCode) → (f x).created_at ≡ x.created_at)
    → latest p (update_where (λ c. c.id == id) f cs) ≡ touched_row id f (latest p cs)
unfolding latest
latest-touched p id f [] k l = refl
latest-touched p id f (c ∷ cs) k l =
    rw (touched-test p id f c k)
      (rw (latest-touched p id f cs k l) (newer-touched (p c) id f c (latest p cs) l))

-- The row of the latest code after an update of it.
latest-update_code :
    (p : AuthCode → Bool) (f : AuthCode → AuthCode) (table : CodeTable) (c : AuthCode)
    → ((x : AuthCode) → p (f x) ≡ p x)
    → ((x : AuthCode) → (f x).created_at ≡ x.created_at)
    → latest p table.codes ≡ some c
    → latest p (update_code c.id f table).codes ≡ some (f c)
unfolding update_code
latest-update_code p f table c k l e =
    latest-touched p c.id f table.codes k l
    ∙ ap (touched_row c.id f) e
    ∙ ground (arith, nat_beq_iff c.id c.id)

abbrev pub wrong : VerifyCodeResult → ℕ
wrong mismatch = 1
wrong _ = 0

-- How many results are wrong guesses.
abbrev pub mismatches : List VerifyCodeResult → ℕ
mismatches = sum_by wrong

module _ (compare_hash : (code hash : ℕ) → Bool) (email : ℕ) (purpose : Purpose) where
  -- Guesses one after the other.
  pub verify_all : List Guess → CodeTable → List VerifyCodeResult
  unfolding verify_auth_code
  verify_all [] table = []
  verify_all (g ∷ gs) table =
      let (r, table') = verify_auth_code compare_hash email purpose g table in
      r ∷ verify_all gs table'

  -- What one guess leaves of the latest code.
  record Guessed (c : AuthCode) (r : VerifyCodeResult) (table : CodeTable) : Type 0 where
    pub next : AuthCode
    pub is_latest : latest (is_for email purpose) table.codes ≡ some next
    pub same_limit : next.max_attempts ≡ c.max_attempts
    pub counted : wrong r + c.attempts ≤ next.attempts
    pub within : next.attempts ≤ next.max_attempts

  abbrev Outcome : AuthCode → VerifyCodeResult × CodeTable → Type 0
  Outcome c o = Guessed c o.0 o.1

  unchanged :
      (r : VerifyCodeResult) (table : CodeTable) (c : AuthCode)
      → wrong r ≡ 0
      → latest (is_for email purpose) table.codes ≡ some c
      → c.attempts ≤ c.max_attempts
      → Guessed c r table
  unchanged r table c z e l = record {
    next = c;
    is_latest = e;
    same_limit = refl;
    counted = omega arith;
    within = l;
  }

  compared :
      (g : Guess) (table : CodeTable) (c : AuthCode)
      → latest (is_for email purpose) table.codes ≡ some (attempted c)
      → c.attempts < c.max_attempts
      → Outcome c (compare_code compare_hash g c table)
  unfolding compare_code is_for
  compared g table c e l =
      if-cases (Outcome c) (not (compare_hash g.code c.code_hash)) (mismatch, table) _
        (λ b. record {
          next = attempted c;
          is_latest = e;
          same_limit = refl;
          counted = omega arith;
          within = omega arith;
        })
        (λ b.
          if-cases (Outcome c) (leb c.expires_at g.later) (expired, table) _
            (λ b. record {
              next = attempted c;
              is_latest = e;
              same_limit = refl;
              counted = omega arith;
              within = omega arith;
            })
            (λ b. record {
              next = consumed g.later (attempted c);
              is_latest =
                  latest-update_code (is_for email purpose) (consumed g.later) table (attempted c)
                    (λ x. refl) (λ x. refl) e;
              same_limit = refl;
              counted = omega arith;
              within = omega arith;
            }))

  guessed :
      (g : Guess) (table : CodeTable) (c : AuthCode)
      → latest (is_for email purpose) table.codes ≡ some c
      → c.attempts ≤ c.max_attempts
      → Outcome c (verify_found compare_hash g (some c) table)
  unfolding verify_found is_for
  guessed g table c e l =
      if-cases (Outcome c) (is_some c.consumed_at) (no_code, table) _
        (λ b. unchanged no_code table c refl e l)
        (λ b.
          if-cases (Outcome c) (leb c.expires_at g.now) (expired, table) _
            (λ b. unchanged expired table c refl e l)
            (λ b.
              if-cases (Outcome c) (leb c.max_attempts c.attempts) (locked, table) _
                (λ b. unchanged locked table c refl e l)
                (λ b.
                  compared g (update_code c.id attempted table) c
                    (latest-update_code (is_for email purpose) attempted table c (λ x. refl)
                      (λ x. refl) e)
                    (ground arith))))

  guessed_once :
      (g : Guess) (table : CodeTable) (c : AuthCode)
      → latest (is_for email purpose) table.codes ≡ some c
      → c.attempts ≤ c.max_attempts
      → Outcome c (verify_auth_code compare_hash email purpose g table)
  unfolding verify_auth_code
  guessed_once g table c e l =
      subst (λ o. Outcome c (verify_found compare_hash g o table)) (sym e) (guessed g table c e l)

  -- However many guesses are made against a code, one after the other, the wrong ones are at most the
  -- attempts that it has left.
  pub guesses_limited :
      (gs : List Guess) (table : CodeTable) (c : AuthCode)
      → latest (is_for email purpose) table.codes ≡ some c
      → c.attempts ≤ c.max_attempts
      → mismatches (verify_all gs table) + c.attempts ≤ c.max_attempts
  unfolding verify_all
  guesses_limited [] table c e l = omega arith
  guesses_limited (g ∷ gs) table c e l =
      let s = guessed_once g table c e l in
      omega (
        arith,
        s.counted,
        s.same_limit,
        guesses_limited gs (verify_auth_code compare_hash email purpose g table).1 s.next
            s.is_latest s.within,
      )

  -- A result that signs in leaves a latest code that is consumed.
  abbrev Consumes : VerifyCodeResult × CodeTable → Type 0
  Consumes o =
      o.0 ≡ verified
      → (c : AuthCode) × (latest (is_for email purpose) o.1.codes ≡ some c)
        × (is_some c.consumed_at ≡ true)

  compare_code-Consumes :
      (g : Guess) (table : CodeTable) (c : AuthCode)
      → latest (is_for email purpose) table.codes ≡ some (attempted c)
      → Consumes (compare_code compare_hash g c table)
  unfolding compare_code is_for
  compare_code-Consumes g table c e =
      if-cases Consumes (not (compare_hash g.code c.code_hash)) (mismatch, table) _ (λ b h. cc)
        (λ b.
          if-cases Consumes (leb c.expires_at g.later) (expired, table) _ (λ b h. cc)
            (λ b h. (
              consumed g.later (attempted c),
              latest-update_code (is_for email purpose) (consumed g.later) table (attempted c)
                  (λ x. refl) (λ x. refl) e,
              refl,
            )))

  verify_found-Consumes :
      (g : Guess) (o : Option AuthCode) (table : CodeTable)
      → latest (is_for email purpose) table.codes ≡ o
      → Consumes (verify_found compare_hash g o table)
  unfolding verify_found is_for
  verify_found-Consumes g none table e = λ h. cc
  verify_found-Consumes g (some c) table e =
      if-cases Consumes (is_some c.consumed_at) (no_code, table) _ (λ b h. cc)
        (λ b.
          if-cases Consumes (leb c.expires_at g.now) (expired, table) _ (λ b h. cc)
            (λ b.
              if-cases Consumes (leb c.max_attempts c.attempts) (locked, table) _ (λ b h. cc)
                (λ b. compare_code-Consumes g (update_code c.id attempted table) c (
                  latest-update_code (is_for email purpose) attempted table c (λ x. refl)
                    (λ x. refl) e))))

  refused :
      (g : Guess) (table : CodeTable) (c : AuthCode)
      → latest (is_for email purpose) table.codes ≡ some c
      → is_some c.consumed_at ≡ true
      → verify_auth_code compare_hash email purpose g table ≡ (no_code, table)
  unfolding verify_auth_code verify_found
  refused g table c e s = rw e (rw s refl)

  -- A code signs in once: after a guess that was verified, every further guess, the same code included,
  -- finds no code and changes nothing.
  code_single_use :
      (g g' : Guess) (table table' : CodeTable)
      → verify_auth_code compare_hash email purpose g table ≡ (verified, table')
      → verify_auth_code compare_hash email purpose g' table' ≡ (no_code, table')
  unfolding verify_auth_code
  code_single_use g g' table table' h =
      let (c, e, s) =
        subst Consumes h
          (verify_found-Consumes g (latest (is_for email purpose) table.codes) table refl) refl in
      refused g' table' c e s
