-- ===== src/Prelude/Lists.antt =====
-- Lists over the native numbers: membership tests, searches, counts and sums.
use Prim.Native.Nat.{ℕ, suc, ◌+◌, ◌≤◌}
use mathlib.Core.Path.{◌≡◌, refl, subst}
use mathlib.Core.Logic.{inl, inr}
use mathlib.Core.Bool.{Bool, true, false, ◌&&◌, ◌||◌}
use mathlib.Core.Option.{Option, none, some}
use mathlib.Core.List.{List, [], ◌∷◌, ◌++◌}
use native.Mathlib.Omega.{arith}
use rent_a_4_wheel.Prelude.Tests.{if◌then◌else◌, Bool-cases}

module _ {ℓ} {A : Type ℓ} where
  abbrev pub length : List A → ℕ
  length [] = 0
  length (x ∷ xs) = suc (length xs)

  -- `xs.some(p)`.
  abbrev pub any : (A → Bool) → List A → Bool
  any p [] = false
  any p (x ∷ xs) = p x || any p xs

  -- `xs.find(p)`.
  abbrev pub find : (A → Bool) → List A → Option A
  find p [] = none
  find p (x ∷ xs) = if p x then some x else find p xs

  -- `xs.filter(p)`.
  abbrev pub select : (A → Bool) → List A → List A
  select p [] = []
  select p (x ∷ xs) = let rest = select p xs in if p x then x ∷ rest else rest

  -- `xs.reduce((n, x) => n + f(x), 0)`.
  abbrev pub sum_by : (A → ℕ) → List A → ℕ
  sum_by f [] = 0
  sum_by f (x ∷ xs) = f x + sum_by f xs

  -- How many elements pass.
  abbrev pub count_by : (A → Bool) → List A → ℕ
  count_by p [] = 0
  count_by p (x ∷ xs) = let rest = count_by p xs in if p x then suc rest else rest

  -- Every element has the property.
  abbrev pub All {κ} : (A → Type κ) → List A → Type κ
  All P [] = Unit
  All P (x ∷ xs) = P x × All P xs

  pub length-append : (xs ys : List A) → length (xs ++ ys) ≡ length xs + length ys
  length-append [] ys = omega arith
  length-append (x ∷ xs) ys = omega (arith, length-append xs ys)

  pub sum_by-append : (f : A → ℕ) (xs ys : List A) → sum_by f (xs ++ ys) ≡ sum_by f xs + sum_by f ys
  sum_by-append f [] ys = omega arith
  sum_by-append f (x ∷ xs) ys = omega (arith, sum_by-append f xs ys)

module _ {ℓ} {A : Type ℓ} where
  -- `updateMany`: the rows that pass are changed.
  abbrev pub update_where : (A → Bool) → (A → A) → List A → List A
  update_where p f [] = []
  update_where p f (x ∷ xs) = (if p x then f x else x) ∷ update_where p f xs

  pub count_by-and-le :
      (q p : A → Bool) (xs : List A) → count_by (λ x. q x && p x) xs ≤ count_by q xs
  count_by-and-le q p [] = omega arith
  count_by-and-le q p (x ∷ xs) = ground (arith, count_by-and-le q p xs)

  -- Where a key is unique and one row was updated, the row of that key passed the condition.
  pub find-count_by :
      (q p : A → Bool) (xs : List A) (r : A)
      → count_by q xs ≤ 1
      → find q xs ≡ some r
      → count_by (λ x. q x && p x) xs ≡ 1
      → p r ≡ true
  find-count_by q p [] r u f c = cc
  find-count_by q p (x ∷ xs) r u f c =
      ground (arith, count_by-and-le q p xs, find-count_by q p xs r)

  -- A row that is found and passes is counted.
  pub count_by-found :
      (q p : A → Bool) (xs : List A) (r : A)
      → find q xs ≡ some r
      → p r ≡ true
      → 1 ≤ count_by (λ x. q x && p x) xs
  count_by-found q p [] r f h = cc
  count_by-found q p (x ∷ xs) r f h = ground (arith, count_by-found q p xs r)

  -- The updated row is found under its key.
  pub find-update_where_self :
      (q p : A → Bool) (f : A → A) (xs : List A) (r : A)
      → ((x : A) → q (f x) ≡ q x)
      → find q xs ≡ some r
      → p r ≡ true
      → find q (update_where (λ x. q x && p x) f xs) ≡ some (f r)
  find-update_where_self q p f [] r k e h = cc
  find-update_where_self q p f (x ∷ xs) r k e h =
      ground (arith, k x, find-update_where_self q p f xs r k)

  -- A row that is found and does not pass is found as it was.
  pub find-update_where_skip :
      (q p : A → Bool) (f : A → A) (xs : List A) (r : A)
      → ((x : A) → q (f x) ≡ q x)
      → find q xs ≡ some r
      → p r ≡ false
      → find q (update_where p f xs) ≡ some r
  find-update_where_skip q p f [] r k e h = cc
  find-update_where_skip q p f (x ∷ xs) r k e h =
      ground (arith, k x, find-update_where_skip q p f xs r k)

  -- Rows under other keys are found as before.
  pub find-update_where_other :
      (q p q' : A → Bool) (f : A → A) (xs : List A)
      → ((x : A) → q x ≡ true → (q' x ≡ false) × (q' (f x) ≡ false))
      → find q' (update_where (λ x. q x && p x) f xs) ≡ find q' xs
  find-update_where_other q p q' f [] k = refl
  find-update_where_other q p q' f (x ∷ xs) k =
      ground (arith, k x, find-update_where_other q p q' f xs k)

  pub any-append_last :
      (p : A → Bool) (xs : List A) (x : A) → p x ≡ true → any p (xs ++ x ∷ []) ≡ true
  any-append_last p [] x h = ground arith
  any-append_last p (y ∷ xs) x h = ground (arith, any-append_last p xs x h)

  pub find-update_where_away :
      (p q : A → Bool) (f : A → A) (xs : List A)
      → ((x : A) → p x ≡ true → (q x ≡ false) × (q (f x) ≡ false))
      → find q (update_where p f xs) ≡ find q xs
  find-update_where_away p q f [] k = refl
  find-update_where_away p q f (x ∷ xs) k = ground (arith, k x, find-update_where_away p q f xs k)

  -- A key stays unique.
  pub count_by-update_where :
      (q p : A → Bool) (f : A → A) (xs : List A)
      → ((x : A) → q (f x) ≡ q x)
      → count_by q (update_where p f xs) ≡ count_by q xs
  count_by-update_where q p f [] k = refl
  count_by-update_where q p f (x ∷ xs) k = ground (arith, k x, count_by-update_where q p f xs k)

  pub count_by-append :
      (p : A → Bool) (xs ys : List A) → count_by p (xs ++ ys) ≡ count_by p xs + count_by p ys
  count_by-append p [] ys = omega arith
  count_by-append p (x ∷ xs) ys = ground (arith, count_by-append p xs ys)

  pub All-append {κ} : (P : A → Type κ) (xs ys : List A) → All P xs → All P ys → All P (xs ++ ys)
  All-append P [] ys a b = b
  All-append P (x ∷ xs) ys a b = (a.0, All-append P xs ys a.1 b)

  pub All-map {κ μ} :
      (P : A → Type κ) (Q : A → Type μ) (xs : List A) → ((x : A) → P x → Q x) → All P xs → All Q xs
  All-map P Q [] f a = tt
  All-map P Q (x ∷ xs) f a = (f x a.0, All-map P Q xs f a.1)

  pub find-none-count_by : (p : A → Bool) (xs : List A) → find p xs ≡ none → count_by p xs ≡ 0
  find-none-count_by p [] h = refl
  find-none-count_by p (x ∷ xs) h = ground (arith, find-none-count_by p xs)

  pub some-injective : {x y : A} → some x ≡ some y → x ≡ y
  some-injective h = cc

  -- What every element has, the one that is found has.
  pub All-find {κ} :
      (P : A → Type κ) (p : A → Bool) (xs : List A) (r : A) → All P xs → find p xs ≡ some r → P r
  All-find P p [] r a h = cc
  All-find P p (x ∷ xs) r a h = elim (Bool-cases (p x)) [
    | inl b ↦ subst P (some-injective (rw b at h)) a.0
    | inr b ↦ All-find P p xs r a.1 (rw b at h)
  ]

  -- A found row that passes is found as it was changed.
  pub find-update_where_pass :
      (q p : A → Bool) (f : A → A) (xs : List A) (r : A)
      → ((x : A) → q (f x) ≡ q x)
      → find q xs ≡ some r
      → p r ≡ true
      → find q (update_where p f xs) ≡ some (f r)
  find-update_where_pass q p f [] r k e h = cc
  find-update_where_pass q p f (x ∷ xs) r k e h =
      ground (arith, k x, find-update_where_pass q p f xs r k)

  pub find-append :
      (q : A → Bool) (xs ys : List A) (r : A) → find q xs ≡ some r → find q (xs ++ ys) ≡ some r
  find-append q [] ys r e = cc
  find-append q (x ∷ xs) ys r e = ground (arith, find-append q xs ys r)

  -- What is found passes the test.
  pub find-holds : (q : A → Bool) (xs : List A) (r : A) → find q xs ≡ some r → q r ≡ true
  find-holds q [] r e = cc
  find-holds q (x ∷ xs) r e = ground (arith, find-holds q xs r)

  -- What is not found before is found in a row that is added.
  pub find-append_new :
      (q : A → Bool) (xs : List A) (y : A)
      → find q xs ≡ none
      → q y ≡ true
      → find q (xs ++ y ∷ []) ≡ some y
  find-append_new q [] y e h = ground arith
  find-append_new q (x ∷ xs) y e h = ground (arith, find-append_new q xs y)

  -- An update of other columns finds nothing new.
  pub find-update_where-none :
      (q p : A → Bool) (f : A → A) (xs : List A)
      → ((x : A) → q (f x) ≡ q x)
      → find q xs ≡ none
      → find q (update_where p f xs) ≡ none
  find-update_where-none q p f [] k e = refl
  find-update_where-none q p f (x ∷ xs) k e = ground (arith, k x, find-update_where-none q p f xs k)

  -- The same, where the change keeps the test on the rows that it changes.
  pub find-update_where_only :
      (q p : A → Bool) (f : A → A) (xs : List A) (r : A)
      → ((x : A) → p x ≡ true → q (f x) ≡ q x)
      → find q xs ≡ some r
      → p r ≡ true
      → find q (update_where p f xs) ≡ some (f r)
  find-update_where_only q p f [] r k e h = cc
  find-update_where_only q p f (x ∷ xs) r k e h =
      ground (arith, k x, find-update_where_only q p f xs r k)

  -- A row that is found and does not pass stays, where the change keeps the test on the changed rows.
  pub find-update_where_past :
      (q p : A → Bool) (f : A → A) (xs : List A) (r : A)
      → ((x : A) → p x ≡ true → q (f x) ≡ q x)
      → find q xs ≡ some r
      → p r ≡ false
      → find q (update_where p f xs) ≡ some r
  find-update_where_past q p f [] r k e h = cc
  find-update_where_past q p f (x ∷ xs) r k e h =
      ground (arith, k x, find-update_where_past q p f xs r k)

  -- A change that keeps the test and an observation of the rows keeps the observation of the found row.
  pub find-update_where_keeps {κ} :
      {B : Type κ} (q p : A → Bool) (f : A → A) (g : A → B) (xs : List A) (r : A)
      → ((x : A) → q (f x) ≡ q x)
      → ((x : A) → g (f x) ≡ g x)
      → find q xs ≡ some r
      → (s : A) × (find q (update_where p f xs) ≡ some s) × (g s ≡ g r)
  find-update_where_keeps q p f g xs r k kg e = elim (Bool-cases (p r)) [
    | inl b ↦ (f r, find-update_where_pass q p f xs r k e b, kg r)
    | inr b ↦ (r, find-update_where_skip q p f xs r k e b, refl)
  ]
