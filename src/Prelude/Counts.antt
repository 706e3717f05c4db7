-- ===== src/Prelude/Counts.antt =====
-- How often a text stands in a list, and what counts say of lengths and membership.
use dev.Prelude.Texts.{Text, same}
use Prim.Native.Nat.{ℕ, suc, ◌+◌, ◌-◌, ◌≤◌, ◌<◌}
use mathlib.Core.Path.{◌≡◌, refl}
use mathlib.Core.Logic.{ite, ◌↔◌}
use mathlib.Core.Bool.{Bool, true, false, ◌||◌}
use mathlib.Core.List.{List, [], ◌∷◌, ◌++◌}
use native.Mathlib.Omega.{arith}

module _ {ℓ} {A : Type ℓ} where
  abbrev pub length : List A → ℕ
  length [] = 0
  length (x ∷ xs) = suc (length xs)

  pub length-append : (xs ys : List A) → length (xs ++ ys) ≡ length xs + length ys
  length-append [] ys = omega arith
  length-append (x ∷ xs) ys = omega (arith, length-append xs ys)

unfoldable pub count : Text → List Text → ℕ
count x [] = 0
count x (y ∷ l) = ite (same y x) (suc (count x l)) (count x l)

-- `l.contains(x)`
unfoldable pub contains : List Text → Text → Bool
contains [] x = false
contains (y ∷ l) x = ite (same y x) true (contains l x)

pub contains-count : (l : List Text) (x : Text) → (contains l x ≡ true) ↔ (0 < count x l)
unfolding contains count
contains-count [] x = ground arith
contains-count (y ∷ l) x = ground (arith, contains-count l x)

pub count-append : (x : Text) (l m : List Text) → count x (l ++ m) ≡ count x l + count x m
unfolding count
count-append x [] m = omega arith
count-append x (y ∷ l) m = ground (arith, count-append x l m)

-- Without the first `x`.
unfoldable pub erase : Text → List Text → List Text
erase x [] = []
erase x (y ∷ l) = ite (same y x) l (y ∷ erase x l)

count-erase :
    (x v : Text) (l : List Text) → count v (erase x l) ≡ ite (same x v) (count v l - 1) (count v l)
unfolding count erase
count-erase x v [] = ground arith
count-erase x v (y ∷ l) = ground (arith, count-erase x v l)

length-erase : (x : Text) (l : List Text) → 0 < count x l → length (erase x l) + 1 ≡ length l
unfolding count erase
length-erase x [] h = absurd (omega arith)
length-erase x (y ∷ l) h = ground (arith, length-erase x l)

-- A list that holds each text at most as often as another is no longer, and if it is no shorter
-- it holds each text as often.
pub length-le_of_counts :
    (l m : List Text) → ((v : Text) → count v l ≤ count v m) → length l ≤ length m
unfolding count
length-le_of_counts [] m h = omega arith
length-le_of_counts (x ∷ l) m h =
    let here : 0 < count x m = ground (arith, h x) in
    let rest = length-le_of_counts l (erase x m) (λ v. ground (arith, h v, count-erase x v m)) in
    omega (arith, length-erase x m here, rest)

pub counts_of_length :
    (l m : List Text)
    → ((v : Text) → count v l ≤ count v m)
    → length m ≤ length l
    → (v : Text) → count v l ≡ count v m
unfolding count
counts_of_length [] [] h n v = refl
counts_of_length [] (y ∷ m) h n v = absurd (omega arith)
counts_of_length (x ∷ l) m h n v =
    let here : 0 < count x m = ground (arith, h x) in
    let rest =
      counts_of_length l (erase x m) (λ u. ground (arith, h u, count-erase x u m))
        (omega (arith, length-erase x m here)) v in
    ground (arith, rest, count-erase x v m)

pub contains-append :
    (l m : List Text) (x : Text) → contains (l ++ m) x ≡ contains l x || contains m x
unfolding contains
contains-append [] m x = refl
contains-append (y ∷ l) m x = ground (arith, contains-append l m x)
