-- ===== src/Marketplace/Refund/Shares.antt =====
-- The shares of a refund add up to the budget.
use rent_a_4_wheel.Prelude.{
  ℕ, zero, suc, ◌+◌, ◌-◌, ◌*◌, ◌/◌, ◌≤◌, ◌<◌, min, ◌≡◌, refl, ap, Bool, List, [], ◌∷◌, sum_by,
  length, if◌then◌else◌, arith,
}
use rent_a_4_wheel.Marketplace.Refund.{
  Share, take_each, quotas, beats, choose, bump, assign_one, assign, apportion, cents_of,
}

abbrev pub total : List ℕ → ℕ
total = sum_by λ n. n

abbrev pub given : List Share → ℕ
given = sum_by cents_of

-- The taken parts and the rest are the whole.
pub total-take_each : (n : ℕ) (vs : List ℕ) → total (take_each n vs) ≡ n
unfolding take_each
total-take_each n [] = omega arith
total-take_each n (v ∷ vs) = omega (arith, total-take_each (n - min n v) vs)

pub quota-mul-le : (b w t : ℕ) → b * w / t * t ≤ b * w
quota-mul-le b w t = grind arith

quotas-mul-le : (b t : ℕ) (ws : List ℕ) → given (quotas b t ws) * t ≤ b * total ws
unfolding quotas cents_of
quotas-mul-le b t [] = grind arith
quotas-mul-le b t (w ∷ ws) = omega (arith, quota-mul-le b w t, quotas-mul-le b t ws)

pub cancel_le : (a b t : ℕ) → 0 < t → a * t ≤ b * t → a ≤ b
cancel_le a b t p h = grind arith

-- The quotas never exceed the budget.
pub quotas-le : (b : ℕ) (ws : List ℕ) → 0 < total ws → given (quotas b (total ws) ws) ≤ b
quotas-le b ws p =
    cancel_le (given (quotas b (total ws) ws)) b (total ws) p (quotas-mul-le b (total ws) ws)

given-bump : (i : ℕ) (ss : List Share) → i < length ss → given (bump i ss) ≡ given ss + 1
unfolding bump cents_of
given-bump i [] h = elim h [ ]
given-bump zero (s ∷ ss) h = omega arith
given-bump (suc i) (s ∷ ss) h = omega (arith, given-bump i ss)

later_lt : (b : Bool) (i k : ℕ) → k < i → (if b then i else k) < suc i
later_lt b i k h = ground arith

choose-lt : (c : Share) (k i : ℕ) (ss : List Share) → k < i → choose c k i ss < i + length ss
unfolding choose
choose-lt c k i [] h = omega arith
choose-lt c k i (s ∷ ss) h = omega (
  arith,
  choose-lt (if beats s c then s else c) (if beats s c then i else k) (suc i) ss
      (later_lt (beats s c) i k h),
)

pub given-assign_one : (ss : List Share) → 0 < length ss → given (assign_one ss) ≡ given ss + 1
unfolding assign_one
given-assign_one [] h = elim h [ ]
given-assign_one (s ∷ ss) h =
    given-bump (choose s 0 1 ss) (s ∷ ss) (omega (arith, choose-lt s 0 1 ss (omega arith)))

length-bump : (i : ℕ) (ss : List Share) → length (bump i ss) ≡ length ss
unfolding bump
length-bump i [] = refl
length-bump zero (s ∷ ss) = refl
length-bump (suc i) (s ∷ ss) = ap suc (length-bump i ss)

pub length-assign_one : (ss : List Share) → length (assign_one ss) ≡ length ss
unfolding assign_one
length-assign_one [] = refl
length-assign_one (s ∷ ss) = length-bump (choose s 0 1 ss) (s ∷ ss)

-- The rounds hand out what is left.
given-assign : (n : ℕ) (ss : List Share) → 0 < length ss → given (assign n ss) ≡ given ss + n
unfolding assign
given-assign zero ss h = omega arith
given-assign (suc n) ss h = omega (
  arith,
  given-assign n (assign_one ss) (omega (arith, length-assign_one ss)),
  given-assign_one ss h,
)

pub length-quotas : (b t : ℕ) (ws : List ℕ) → length (quotas b t ws) ≡ length ws
unfolding quotas
length-quotas b t [] = refl
length-quotas b t (w ∷ ws) = ap suc (length-quotas b t ws)

pub positive_length : (ws : List ℕ) → 0 < total ws → 0 < length ws
positive_length [] h = h
positive_length (w ∷ ws) h = omega arith

-- The apportionment hands out exactly the budget.
pub given-apportion : (b : ℕ) (ws : List ℕ) → 0 < total ws → given (apportion b (total ws) ws) ≡ b
unfolding apportion
given-apportion b ws p = omega (
  arith,
  given-assign (b - given (quotas b (total ws) ws)) (quotas b (total ws) ws)
      (omega (arith, length-quotas b (total ws) ws, positive_length ws p)),
  quotas-le b ws p,
)
