-- ===== src/Steps.antt =====
-- Stateful code that can fail or panic: a step takes the state to a result and the state as it then
-- stands, which an error or a panic keeps.
use dev.Error.{Result, ok, err, panic, DevError, Fault}

abbrev pub Steps {ℓ κ} : Type ℓ → Type κ → Type (ℓ ⊔ κ)
Steps S A = S → Result A × S

module _ {ℓ} {S : Type ℓ} where
  abbrev pub after {κ μ} : {A : Type κ} {B : Type μ} → Result A × S → (A → Steps S B) → Result B × S
  after (ok a, s) f = f a s
  after (err e, s) f = (err e, s)
  after (panic p, s) f = (panic p, s)

  infixl 5 ◌>>=◌ ◌>>◌
  abbrev pub ◌>>=◌ {κ μ} : {A : Type κ} {B : Type μ} → Steps S A → (A → Steps S B) → Steps S B
  m >>= f = λ s. after (m s) f

  abbrev pub ◌>>◌ {κ} : {B : Type κ} → Steps S (Unit {0}) → Steps S B → Steps S B
  m >> k = m >>= λ _. k

  abbrev pub pure {κ} : {A : Type κ} → A → Steps S A
  pure a s = (ok a, s)

  abbrev pub fail {κ} : {A : Type κ} → DevError → Steps S A
  fail e s = (err e, s)

  abbrev pub fault {κ} : {A : Type κ} → Fault → Steps S A
  fault p s = (panic p, s)

  -- A pure computation that may fail.
  abbrev pub lift {κ} : {A : Type κ} → Result A → Steps S A
  lift r s = (r, s)
