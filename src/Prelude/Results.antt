-- ===== src/Prelude/Results.antt =====
-- Fallible code: `throw` is `err`, and `do` blocks chain the calls.
use mathlib.Core.Path.{◌≡◌, refl}
use mathlib.Core.Bool.{Bool, true, false}
use mathlib.Core.Option.{Option, none, some}

pub data Result {ℓ κ} (E : Type ℓ) (A : Type κ) : Type (ℓ ⊔ κ) where
  ok : A → Result E A
  err : E → Result E A

module _ {ℓ} {E : Type ℓ} where
  -- `if (!test) throw e`.
  abbrev pub guard : Bool → E → Result E (Unit {0})
  guard true e = ok tt
  guard false e = err e

  -- `findUniqueOrThrow` and the like.
  abbrev pub or_throw {κ} : {A : Type κ} → Option A → E → Result E A
  or_throw none e = err e
  or_throw (some a) e = ok a

  infixl 5 ◌>>=◌ ◌>>◌
  abbrev pub ◌>>=◌ {κ μ} : {A : Type κ} {B : Type μ} → Result E A → (A → Result E B) → Result E B
  ok a >>= f = f a
  err e >>= f = err e

  abbrev pub ◌>>◌ {κ} : {B : Type κ} → Result E (Unit {0}) → Result E B → Result E B
  m >> k = m >>= λ _. k

  -- Inversion of a successful chain.
  pub >>=-eq-ok {κ μ} :
      {A : Type κ} {B : Type μ} (call : Result E A) (next : A → Result E B) {out : B}
      → (call >>= next) ≡ ok out
      → (a : A) × (call ≡ ok a) × (next a ≡ ok out)
  >>=-eq-ok (ok a) next returned = (a, refl, returned)
  >>=-eq-ok (err e) next returned = cc

  pub guard-eq-ok : (b : Bool) (e : E) {u : Unit {0}} → guard b e ≡ ok u → b ≡ true
  guard-eq-ok true e h = refl
  guard-eq-ok false e h = cc

  -- A result has one value.
  pub ok_inj {κ} : {A : Type κ} (m : Result E A) (a b : A) → m ≡ ok a → m ≡ ok b → a ≡ b
  ok_inj m a b h k = cc

  -- A value behind one test.
  pub guarded_ok {κ} :
      {A : Type κ} (b : Bool) (e : E) (x y : A) → (guard b e >> ok x) ≡ ok y → (b ≡ true) × (x ≡ y)
  guarded_ok true e x y h = (refl, ok_inj _ x y refl h)
  guarded_ok false e x y h = cc
