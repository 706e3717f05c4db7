-- ===== src/Error.antt =====
-- src/error.rs, with the faults (panics) of the standard library that the code can meet.
use dev.Prelude.{ℕ, Text, ◌≡◌, refl}

-- DevError
pub data DevError : Type 0 where
  config : Text → DevError
  io : Text → DevError
  process : (service msg : Text) → DevError
  cycle : Text → DevError
  unknown_service : Text → DevError
  port_conflict : (a b : Text) (port : ℕ) → DevError

-- A panic, with what raises it. `out_of_fuel` marks a model's loop that was given too few rounds.
pub data Fault : Type 0 where
  unwrap_none unwrap_err underflow out_of_bounds out_of_fuel : Fault

pub data Result {ℓ} (A : Type ℓ) : Type ℓ where
  ok : A → Result A
  err : DevError → Result A
  panic : Fault → Result A

infixl 5 ◌>>=◌
abbrev pub ◌>>=◌ {ℓ κ} : {T : Type ℓ} {U : Type κ} → Result T → (T → Result U) → Result U
panic fault >>= next = panic fault
err error >>= next = err error
ok value >>= next = next value

infixl 5 ◌>>◌
abbrev pub ◌>>◌ {κ} : {U : Type κ} → Result (Unit {0}) → Result U → Result U
first >> second = first >>= λ _. second

-- Where a chain came to a result, its first step did.
pub first_step {ℓ κ} :
    {T : Type ℓ} {U : Type κ} (r : Result T) (next : T → Result U) {u : U}
    → (r >>= next) ≡ ok u
    → (t : T) × (r ≡ ok t) × (next t ≡ ok u)
first_step (panic fault) next e = cc
first_step (err error) next e = cc
first_step (ok t) next e = (t, refl, e)
