-- ===== src/Auth.antt =====
-- src/lib/auth-code.ts: sign-in codes with a cooldown, rate limits and a limit on guesses. Each function
-- is the transaction under the advisory locks of the email and the address; sending the email and the
-- audit row come after it and are not modelled.
pub mod Limits
pub mod Guesses
use rent_a_4_wheel.Prelude.{
  ℕ, suc, ◌+◌, ◌-◌, ◌*◌, ◌/◌, ◌≡◌, Bool, true, false, not, ◌&&◌, ◌||◌, Option, none, some, List, [],
  ◌∷◌, ◌++◌, count_by, update_where, if◌then◌else◌, is_some, ltb, leb, nat_beq, nat_eq, option_eq,
  Eq, ◌==◌, ◌↔◌, arith,
}

-- The purposes of a code.
pub data Purpose : Type 0 where
  mobile_sign_in sign_in emergency_override_step_up finance_step_up security_step_up : Purpose

abbrev pub purpose_rank : Purpose → ℕ
purpose_rank mobile_sign_in = 0
purpose_rank sign_in = 1
purpose_rank emergency_override_step_up = 2
purpose_rank finance_step_up = 3
purpose_rank security_step_up = 4

abbrev pub purpose_beq : Purpose → Purpose → Bool
purpose_beq a b = nat_beq (purpose_rank a) (purpose_rank b)

-- Model AuthCode. An email is the normalized one; an address and a hash stand for their texts.
pub record AuthCode : Type 0 where
  pub id : ℕ
  pub email : ℕ
  pub purpose : Purpose
  pub code_hash : ℕ
  pub attempts : ℕ
  pub max_attempts : ℕ
  pub request_ip : Option ℕ
  pub created_at : ℕ
  pub expires_at : ℕ
  pub consumed_at : Option ℕ

pub record CodeTable : Type 0 where
  pub codes : List AuthCode
  pub next_id : ℕ

pub data RequestCodeResult : Type 0 where
  issued : RequestCodeResult
  cooldown : (retry_after_seconds : ℕ) → RequestCodeResult
  rate_limited : RequestCodeResult

pub data VerifyCodeResult : Type 0 where
  verified no_code expired locked mismatch : VerifyCodeResult

abbrev pub hour_ms : ℕ
hour_ms = 60 * 60 * 1000

abbrev pub resend_cooldown_ms : ℕ
resend_cooldown_ms = 60 * 1000

-- The codes of an email and a purpose.
unfoldable pub is_for : (email : ℕ) → Purpose → AuthCode → Bool
is_for email purpose c = c.email == email && purpose_beq c.purpose purpose

-- The later of a code, if it counts, and of the rest.
pub newer : Bool → AuthCode → Option AuthCode → Option AuthCode
newer false c rest = rest
newer true c none = some c
newer true c (some r) = if leb r.created_at c.created_at then some c else some r

-- `findFirst` with `orderBy: { createdAt: "desc" }`.
unfoldable pub latest : (AuthCode → Bool) → List AuthCode → Option AuthCode
unfolding newer
latest p [] = none
latest p (c ∷ cs) = newer (p c) c (latest p cs)

-- `now - createdAt < RESEND_COOLDOWN_SECONDS * 1000`, also where the row is from a later clock.
unfoldable pub in_cooldown : (now : ℕ) → AuthCode → Bool
in_cooldown now c = ltb now (c.created_at + resend_cooldown_ms)

-- `Math.ceil(… / 1000)` of what is left of the cooldown.
retry_after_seconds : (now : ℕ) → AuthCode → ℕ
retry_after_seconds now c = (c.created_at + resend_cooldown_ms - now + 999) / 1000

unfoldable pub email_count : (email : ℕ) → Purpose → (now : ℕ) → List AuthCode → ℕ
email_count email purpose now cs =
    count_by (λ c. is_for email purpose c && ltb (now - hour_ms) c.created_at) cs

-- The codes of the address; 0 where there is none.
unfoldable pub ip_count : (ip : Option ℕ) → Purpose → (now : ℕ) → List AuthCode → ℕ
ip_count none purpose now cs = 0
ip_count (some ip) purpose now cs =
    count_by
      (λ c.
        c.request_ip == some ip
        && purpose_beq c.purpose purpose
        && ltb (now - hour_ms) c.created_at)
      cs

-- What a request brings: the clock, the default `createdAt` of the row and the hash of a new code.
pub record CodeRequest : Type 0 where
  pub email : ℕ
  pub purpose : Purpose
  pub ip : Option ℕ
  pub now : ℕ
  pub created_at : ℕ
  pub code_hash : ℕ

-- The row that `create` inserts.
unfoldable pub new_code : ℕ → CodeRequest → AuthCode
new_code id q = record {
  id = id;
  email = q.email;
  purpose = q.purpose;
  code_hash = q.code_hash;
  attempts = 0;
  max_attempts = 5;
  request_ip = q.ip;
  created_at = q.created_at;
  expires_at = q.now + 10 * 60000;
  consumed_at = none;
}

-- The codes before it are consumed.
unfoldable pub consume_all : CodeRequest → List AuthCode → List AuthCode
consume_all q cs =
    update_where (λ c. is_for q.email q.purpose c && not (is_some c.consumed_at))
      (λ c. record c { consumed_at = some q.now }) cs

-- The two writes of a code that is issued.
unfoldable pub issue : CodeRequest → CodeTable → CodeTable
unfolding consume_all new_code
issue q table = record {
  codes = consume_all q table.codes ++ new_code table.next_id q ∷ [];
  next_id = table.next_id + 1;
}

-- The limits, once the cooldown is over.
pub request_limited : CodeRequest → CodeTable → RequestCodeResult × CodeTable
unfolding issue
request_limited q table =
    if leb 5 (email_count q.email q.purpose q.now table.codes)
      || leb 20 (ip_count q.ip q.purpose q.now table.codes)
    then (rate_limited, table)
    else (issued, issue q table)

pub request_after : CodeRequest → Option AuthCode → CodeTable → RequestCodeResult × CodeTable
unfolding request_limited retry_after_seconds
request_after q none table = request_limited q table
request_after q (some last) table =
    if in_cooldown q.now last
    then (cooldown (retry_after_seconds q.now last), table)
    else request_limited q table

unfoldable pub request_auth_code : CodeRequest → CodeTable → RequestCodeResult × CodeTable
unfolding request_after
request_auth_code q table = request_after q (latest (is_for q.email q.purpose) table.codes) table

-- `update` of the row with this id.
unfoldable pub update_code : ℕ → (AuthCode → AuthCode) → CodeTable → CodeTable
update_code id f table = record table { codes = update_where (λ c. c.id == id) f table.codes }

-- A guess: the submitted code and the clock before and after the comparison.
pub record Guess : Type 0 where
  pub code : ℕ
  pub now : ℕ
  pub later : ℕ

abbrev pub attempted : AuthCode → AuthCode
attempted c = record c { attempts = c.attempts + 1 }

abbrev pub consumed : ℕ → AuthCode → AuthCode
consumed now c = record c { consumed_at = some now }

-- `compare` is bcrypt's.
module _ (compare_hash : (code hash : ℕ) → Bool) where
  -- The tests after the attempt is reserved.
  pub compare_code : Guess → AuthCode → CodeTable → VerifyCodeResult × CodeTable
  compare_code g c table =
      if not (compare_hash g.code c.code_hash)
      then (mismatch, table)
      else if leb c.expires_at g.later
      then (expired, table)
      else (verified, update_code c.id (consumed g.later) table)

  pub verify_found : Guess → Option AuthCode → CodeTable → VerifyCodeResult × CodeTable
  unfolding compare_code
  verify_found g none table = (no_code, table)
  verify_found g (some c) table =
      if is_some c.consumed_at
      then (no_code, table)
      else if leb c.expires_at g.now
      then (expired, table)
      else if leb c.max_attempts c.attempts
      then (locked, table)
      else compare_code g c (update_code c.id attempted table)

  unfoldable pub verify_auth_code :
      (email : ℕ) → Purpose → Guess → CodeTable → VerifyCodeResult × CodeTable
  unfolding verify_found
  verify_auth_code email purpose g table =
      verify_found g (latest (is_for email purpose) table.codes) table
