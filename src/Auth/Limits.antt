-- ===== src/Auth/Limits.antt =====
-- The limits on the codes that src/lib/auth-code.ts issues.
use rent_a_4_wheel.Prelude.{
  ℕ, ◌+◌, ◌-◌, ◌≤◌, ◌≡◌, refl, Bool, not, ◌&&◌, ◌||◌, Option, none, some, List, [], ◌∷◌, count_by,
  count_by-append, update_where, if-cases, is_some, ltb, leb, nat_eq, option_eq, ◌==◌, arith, subst,
}
use rent_a_4_wheel.Auth.{
  purpose_beq, AuthCode, CodeTable, CodeRequest, RequestCodeResult, issued, cooldown, rate_limited,
  is_for, latest, in_cooldown, email_count, ip_count, new_code, consume_all, issue, request_limited,
  request_after, request_auth_code,
}

count-consumed :
    (p q : AuthCode → Bool) (f : AuthCode → AuthCode) (cs : List AuthCode)
    → ((x : AuthCode) → p (f x) ≡ p x)
    → count_by p (update_where q f cs) ≡ count_by p cs
count-consumed p q f [] k = refl
count-consumed p q f (c ∷ cs) k = ground (arith, k c, count-consumed p q f cs k)

count-single : (p : AuthCode → Bool) (c : AuthCode) → count_by p (c ∷ []) ≤ 1
count-single p c = ground arith

one_more :
    (p : AuthCode → Bool) (q : CodeRequest) (table : CodeTable)
    → ((n : ℕ) (x : AuthCode) → p (record x { consumed_at = some n }) ≡ p x)
    → count_by p (issue q table).codes ≤ count_by p table.codes + 1
unfolding issue consume_all
one_more p q table k = omega (
  arith,
  count_by-append p (consume_all q table.codes) (new_code table.next_id q ∷ []),
  count-consumed p (λ c. is_for q.email q.purpose c && not (is_some c.consumed_at))
      (λ c. record c { consumed_at = some q.now }) table.codes (k q.now),
  count-single p (new_code table.next_id q),
)

abbrev WithinLimits : CodeRequest → RequestCodeResult × CodeTable → Type 0
WithinLimits q o =
    o.0 ≡ issued
    → (email_count q.email q.purpose q.now o.1.codes ≤ 5)
      × (ip_count q.ip q.purpose q.now o.1.codes ≤ 20)

email-issue :
    (q : CodeRequest) (table : CodeTable)
    → email_count q.email q.purpose q.now (issue q table).codes
      ≤ email_count q.email q.purpose q.now table.codes + 1
unfolding email_count is_for
email-issue q table = one_more _ q table (λ n x. refl)

ip-issue :
    (ip : Option ℕ) (q : CodeRequest) (table : CodeTable)
    → ip_count ip q.purpose q.now (issue q table).codes
      ≤ ip_count ip q.purpose q.now table.codes + 1
unfolding ip_count
ip-issue none q table = omega arith
ip-issue (some ip) q table = one_more _ q table (λ n x. refl)

limited : (q : CodeRequest) (table : CodeTable) → WithinLimits q (request_limited q table)
unfolding request_limited
limited q table =
    if-cases (WithinLimits q)
      (leb 5 (email_count q.email q.purpose q.now table.codes)
        || leb 20 (ip_count q.ip q.purpose q.now table.codes))
      (rate_limited, table) (issued, issue q table) (λ b h. cc)
      (λ b h. (ground (arith, email-issue q table), ground (arith, ip-issue q.ip q table)))

-- The latest code is past its cooldown.
abbrev pub IsRested : ℕ → Option AuthCode → Type 0
IsRested now none = Unit
IsRested now (some c) = c.created_at + 60000 ≤ now

abbrev Granted : CodeRequest → Option AuthCode → RequestCodeResult × CodeTable → Type 0
Granted q last o =
    o.0 ≡ issued
    → IsRested q.now last
      × (email_count q.email q.purpose q.now o.1.codes ≤ 5)
      × (ip_count q.ip q.purpose q.now o.1.codes ≤ 20)

granted :
    (q : CodeRequest) (last : Option AuthCode) (o : RequestCodeResult × CodeTable)
    → IsRested q.now last
    → WithinLimits q o
    → Granted q last o
granted q last o r w = λ h. let (e, i) = w h in (r, e, i)

after-limits :
    (q : CodeRequest) (o : Option AuthCode) (table : CodeTable)
    → Granted q o (request_after q o table)
unfolding request_after in_cooldown
after-limits q none table = granted q none (request_limited q table) tt (limited q table)
after-limits q (some c) table =
    if-cases (Granted q (some c)) (in_cooldown q.now c) (cooldown _, table)
      (request_limited q table) (λ b h. cc)
      (λ b. granted q (some c) (request_limited q table) (ground arith) (limited q table))

-- A code is issued only within the limits of its purpose: the code before it for the email and purpose
-- is at least a minute old, and with the new one no more than 5 codes of this purpose for the email, and
-- no more than 20 of this purpose for the address where one is given, were created in the last hour.
-- Other purposes have limits of their own.
pub issued_within_limits :
    (q : CodeRequest) (table table' : CodeTable)
    → request_auth_code q table ≡ (issued, table')
    → IsRested q.now (latest (is_for q.email q.purpose) table.codes)
      × (count_by
            (λ c.
              c.email == q.email
              && purpose_beq c.purpose q.purpose
              && ltb (q.now - 3600000) c.created_at)
            table'.codes
          ≤ 5)
      × ((ip : ℕ)
          → q.ip ≡ some ip
          → count_by
              (λ c.
                c.request_ip == some ip
                && purpose_beq c.purpose q.purpose
                && ltb (q.now - 3600000) c.created_at)
              table'.codes
            ≤ 20)
unfolding request_auth_code email_count ip_count is_for
issued_within_limits q table table' h =
    let (rested, by_email, by_ip) =
      subst (Granted q (latest (is_for q.email q.purpose) table.codes)) h
        (after-limits q (latest (is_for q.email q.purpose) table.codes) table) refl in
    (rested, by_email, λ ip e. rw e at by_ip)
