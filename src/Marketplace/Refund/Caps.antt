-- ===== src/Marketplace/Refund/Caps.antt =====
-- No share of a refund exceeds its weight.
use native.Mathlib.Nat.{mul-le-mul_right}
use native.Mathlib.Decide.{dec_lt}
use rent_a_4_wheel.Prelude.{
  ℕ, zero, suc, ◌+◌, ◌-◌, ◌*◌, ◌/◌, ◌≤◌, ◌<◌, ◌≡◌, refl, ◌∙◌, ap, some, List, [], ◌∷◌, All, map,
  length, sum_by, arith,
}
use rent_a_4_wheel.Marketplace.Refund.{
  Share, quotas, choose, bump, assign_one, assign, apportion, cents_of, weight_of,
}
use rent_a_4_wheel.Marketplace.Refund.Shares.{
  total, given, quotas-le, given-assign_one, length-assign_one, positive_length, length-quotas,
  quota-mul-le, cancel_le,
}
use rent_a_4_wheel.Marketplace.Refund.Choice.{
  chosen, Dominates, chosen-Dominates, get_elem?, choose_first,
}

abbrev pub IsCapped : Share → Type 0
IsCapped s = s.cents ≤ s.weight

abbrev pub weighed : List Share → ℕ
weighed = sum_by weight_of

cancel_lt : (v w x : ℕ) → v * w < w * (x + 1) → v ≤ x
cancel_lt v w x h = grind arith

full_mul : (w c v x : ℕ) → suc w ≤ c → v * (c + 1) ≤ suc w * (x + 1) → v ≤ x
full_mul w c zero x f d = omega arith
full_mul w c (suc v) x f d = cancel_lt (suc v) (suc w) x (grind arith)

full_nat : (w c v x : ℕ) → w ≤ c → v * (c + 1) ≤ w * (x + 1) → v ≤ x
full_nat zero c zero x f d = omega arith
full_nat zero c (suc v) x f d = absurd (grind arith)
full_nat (suc w) c v x f d = full_mul w c v x f d

-- If the key that dominates is full, so is every key, and the whole is handed out.
full_all :
    (b : Share) (ss : List Share)
    → b.weight ≤ b.cents
    → All (Dominates b) ss
    → weighed ss ≤ given ss
unfolding cents_of weight_of
full_all b [] f d = omega arith
full_all b (s ∷ ss) f d =
    omega (arith, full_nat b.weight b.cents s.weight s.cents f d.0, full_all b ss f d.1)

bump-IsCapped :
    (j : ℕ) (b : Share) (ss : List Share)
    → get_elem? ss j ≡ some b
    → b.cents < b.weight
    → All IsCapped ss
    → All IsCapped (bump j ss)
unfolding bump
bump-IsCapped j b [] e h a = tt
bump-IsCapped zero b (s ∷ ss) e h a = (ground arith, a.1)
bump-IsCapped (suc j) b (s ∷ ss) e h a = (a.0, bump-IsCapped j b ss e h a.1)

not_full :
    (b : Share) (ss : List Share)
    → given ss < weighed ss
    → All (Dominates b) ss
    → b.cents < b.weight
not_full b ss h d = elim (dec_lt b.cents b.weight) [
  | yes p ↦ p
  | no n ↦ absurd (omega (arith, full_all b ss (omega arith) d))
]

assign_one-IsCapped :
    (ss : List Share) → given ss < weighed ss → All IsCapped ss → All IsCapped (assign_one ss)
unfolding assign_one
assign_one-IsCapped [] h a = tt
assign_one-IsCapped (s ∷ ss) h a =
    let b : Share = chosen s ss in
    bump-IsCapped (choose s 0 1 ss) b (s ∷ ss) (choose_first s ss)
      (not_full b (s ∷ ss) h (chosen-Dominates s ss)) a

weights-bump : (j : ℕ) (ss : List Share) → map weight_of (bump j ss) ≡ map weight_of ss
unfolding bump weight_of
weights-bump j [] = refl
weights-bump zero (s ∷ ss) = refl
weights-bump (suc j) (s ∷ ss) = ap (s.weight ∷◌) (weights-bump j ss)

weights-assign : (n : ℕ) (ss : List Share) → map weight_of (assign n ss) ≡ map weight_of ss
unfolding assign assign_one
weights-assign zero ss = refl
weights-assign (suc n) [] = weights-assign n []
weights-assign (suc n) (s ∷ ss) =
    weights-assign n (assign_one (s ∷ ss)) ∙ weights-bump (choose s 0 1 ss) (s ∷ ss)

weights-quotas : (b t : ℕ) (ws : List ℕ) → map weight_of (quotas b t ws) ≡ ws
unfolding quotas weight_of
weights-quotas b t [] = refl
weights-quotas b t (w ∷ ws) = ap (w ∷◌) (weights-quotas b t ws)

pub weights-apportion : (b t : ℕ) (ws : List ℕ) → map weight_of (apportion b t ws) ≡ ws
unfolding apportion
weights-apportion b t ws =
    weights-assign (b - given (quotas b t ws)) (quotas b t ws) ∙ weights-quotas b t ws

weighed-bump : (j : ℕ) (ss : List Share) → weighed (bump j ss) ≡ weighed ss
unfolding bump weight_of
weighed-bump j [] = refl
weighed-bump zero (s ∷ ss) = refl
weighed-bump (suc j) (s ∷ ss) = ap (◌+◌ s.weight) (weighed-bump j ss)

weighed-assign_one : (ss : List Share) → weighed (assign_one ss) ≡ weighed ss
unfolding assign_one
weighed-assign_one [] = refl
weighed-assign_one (s ∷ ss) = weighed-bump (choose s 0 1 ss) (s ∷ ss)

assign-IsCapped :
    (n : ℕ) (ss : List Share)
    → 0 < length ss
    → given ss + n ≤ weighed ss
    → All IsCapped ss
    → All IsCapped (assign n ss)
unfolding assign
assign-IsCapped zero ss l h a = a
assign-IsCapped (suc n) ss l h a =
    assign-IsCapped n (assign_one ss) (omega (arith, length-assign_one ss))
      (omega (arith, given-assign_one ss l, weighed-assign_one ss))
      (assign_one-IsCapped ss (omega arith) a)

pub quota-le : (b w t : ℕ) → b ≤ t → b * w / t ≤ w
quota-le zero w zero h = grind arith
quota-le (suc b) w zero h = elim h [ ]
quota-le b w (suc t) h =
    cancel_le (b * w / suc t) w (suc t) (omega arith)
      (omega (arith, quota-mul-le b w (suc t), mul-le-mul_right w h))

quotas-IsCapped : (b t : ℕ) (ws : List ℕ) → b ≤ t → All IsCapped (quotas b t ws)
unfolding quotas
quotas-IsCapped b t [] h = tt
quotas-IsCapped b t (w ∷ ws) h = (quota-le b w t h, quotas-IsCapped b t ws h)

weighed-quotas : (b t : ℕ) (ws : List ℕ) → weighed (quotas b t ws) ≡ total ws
unfolding quotas weight_of
weighed-quotas b t [] = refl
weighed-quotas b t (w ∷ ws) = ap (◌+◌ w) (weighed-quotas b t ws)

-- With a budget within the whole, no share exceeds its weight.
pub apportion-IsCapped :
    (b : ℕ) (ws : List ℕ) → 0 < total ws → b ≤ total ws → All IsCapped (apportion b (total ws) ws)
unfolding apportion
apportion-IsCapped b ws p h =
    let start : List Share = quotas b (total ws) ws in
    assign-IsCapped (b - given start) start
      (omega (arith, length-quotas b (total ws) ws, positive_length ws p))
      (omega (arith, quotas-le b ws p, weighed-quotas b (total ws) ws))
      (quotas-IsCapped b (total ws) ws h)

pub capped_le : (ss : List Share) → All IsCapped ss → given ss ≤ weighed ss
unfolding cents_of weight_of
capped_le [] a = omega arith
capped_le (s ∷ ss) a = omega (arith, capped_le ss a.1)

-- Capped shares that add up to the weights are the weights.
pub capped_full :
    (ss : List Share) → All IsCapped ss → weighed ss ≤ given ss → All (λ s. s.cents ≡ s.weight) ss
unfolding cents_of weight_of
capped_full [] a h = tt
capped_full (s ∷ ss) a h = (omega (arith, capped_le ss a.1), capped_full ss a.1 (omega arith))
