-- ===== src/Marketplace/Refund/Choice.antt =====
-- The key that a round chooses has the highest average.
use native.Mathlib.Nat.{mul-le-mul_right, le_of_mul-le-mul_right}
use native.Mathlib.Numerals.{add-one}
use rent_a_4_wheel.Prelude.{
  ℕ, zero, suc, ◌+◌, ◌*◌, ◌≤◌, ◌<◌, ◌≡◌, refl, ◌∙◌, ap, Bool, true, false, Option, none, some, List,
  [], ◌∷◌, All, if◌then◌else◌, arith,
}
use rent_a_4_wheel.Marketplace.Refund.{Share, beats, choose}

-- The key that `choose` ends with.
pub chosen : Share → List Share → Share
chosen c [] = c
chosen c (s ∷ ss) = chosen (if beats s c then s else c) ss

-- `s.weight / (s.cents + 1)` is at most that of `b`.
abbrev pub Dominates : Share → Share → Type 0
Dominates b s = s.weight * (b.cents + 1) ≤ b.weight * (s.cents + 1)

cross_mul : (a b c x y z : ℕ) → 0 < y → a * y ≤ b * x → b * z ≤ c * y → a * z ≤ c * x
cross_mul a b c x y z p h k =
    le_of_mul-le-mul_right {m = a * z} {n = c * x} {k = y}
      (omega (arith, mul-le-mul_right z h, mul-le-mul_right x k)) p

Dominates-trans : (s c k : Share) → Dominates c s → Dominates k c → Dominates k s
Dominates-trans s c k h g =
    cross_mul s.weight c.weight k.weight (s.cents + 1) (c.cents + 1) (k.cents + 1) (omega arith) h g

beats-Dominates :
    (s c : Share) → let w = if beats s c then s else c in Dominates w s × Dominates w c
unfolding beats
beats-Dominates s c = ground arith

-- It dominates where it began and every key after.
pub chosen-Dominates :
    (c : Share) (ss : List Share) → Dominates (chosen c ss) c × All (Dominates (chosen c ss)) ss
unfolding chosen
chosen-Dominates c [] = (omega arith, tt)
chosen-Dominates c (s ∷ ss) =
    let w : Share = if beats s c then s else c in
    let (d, rest) = chosen-Dominates w ss in
    let (ws, wc) = beats-Dominates s c in
    (Dominates-trans c w (chosen w ss) wc d, (Dominates-trans s w (chosen w ss) ws d, rest))

abbrev pub get_elem? {ℓ} : {A : Type ℓ} → List A → ℕ → Option A
get_elem? [] i = none
get_elem? (x ∷ xs) zero = some x
get_elem? (x ∷ xs) (suc i) = get_elem? xs i

picked :
    (whole : List Share) (b : Bool) (s c : Share) (i k : ℕ)
    → get_elem? whole i ≡ some s
    → get_elem? whole k ≡ some c
    → get_elem? whole (if b then i else k) ≡ some (if b then s else c)
picked whole true s c i k h g = h
picked whole false s c i k h g = g

-- The place that `choose` returns holds that key, where `ss` is the list from `i` on.
choose-chosen :
    (whole : List Share) (c : Share) (k i : ℕ) (ss : List Share)
    → get_elem? whole k ≡ some c
    → ((j : ℕ) → get_elem? whole (j + i) ≡ get_elem? ss j)
    → get_elem? whole (choose c k i ss) ≡ some (chosen c ss)
unfolding choose chosen
choose-chosen whole c k i [] h t = h
choose-chosen whole c k i (s ∷ ss) h t =
    choose-chosen whole (if beats s c then s else c) (if beats s c then i else k) (suc i) ss
      (picked whole (beats s c) s c i k (ap (get_elem? whole) (omega arith) ∙ t 0) h)
      (λ j. ap (get_elem? whole) (omega arith) ∙ t (suc j))

pub choose_first :
    (s : Share) (ss : List Share) → get_elem? (s ∷ ss) (choose s 0 1 ss) ≡ some (chosen s ss)
choose_first s ss = choose-chosen (s ∷ ss) s 0 1 ss refl (λ j. ap (get_elem? (s ∷ ss)) (add-one j))
