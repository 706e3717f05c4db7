-- ===== src/Strings/Laws.antt =====
-- Suffixes, and texts of digits, which trimming leaves alone.
use mathlib.Core.List
use mathlib.Core.List.{reverse, reverse-reverse}
use dev.Prelude.{
  Text, txt, ℕ, zero, suc, ◌+◌, ◌/◌, ◌%◌, ◌≡◌, ◌≢◌, refl, ◌∙◌, ap, none, some, [], ◌∷◌, ◌++◌, Bool,
  true, ◌&&◌, arith,
}
use dev.Prelude.Counts.{length, length-append}
use dev.Strings.{strip_suffix, trim, trim_matches, drop_while, is_whitespace}
use dev.Strings.Decimal.{digits, to_string, is_digit, digit_value}

longer : (c : ℕ) (s p : Text) → (c ∷ s) ++ p ≢ p
longer c s p e = omega (arith, length-append s p, ap length e)

pub strip_suffix-append : (p s : Text) → strip_suffix p (s ++ p) ≡ some s
unfolding strip_suffix
strip_suffix-append [] [] = ground arith
strip_suffix-append (c ∷ p) [] = ground arith
strip_suffix-append p (c ∷ s) = ground (arith, strip_suffix-append p s, longer c s p)

abbrev all_digits : Text → Bool
all_digits [] = true
all_digits (c ∷ s) = is_digit c && all_digits s

all_digits-digits :
    (fuel n : ℕ) (tail : Text) → all_digits tail ≡ true → all_digits (digits fuel n tail) ≡ true
unfolding digits
all_digits-digits zero n tail h = h
all_digits-digits (suc fuel) n tail h =
    ground (arith, digit_value n, all_digits-digits fuel (n / 10) ((b'0' + n % 10) ∷ tail))

all_digits-to_string : (n : ℕ) → all_digits (to_string n) ≡ true
unfolding to_string
all_digits-to_string n = all_digits-digits (suc n) n [] refl

pub strip_suffix-some : (p s r : Text) → strip_suffix p s ≡ some r → s ≡ r ++ p
unfolding strip_suffix
strip_suffix-some p [] r h = ground (arith, h)
strip_suffix-some p (c ∷ s) r h = grind (arith, strip_suffix-some p s)

strip_suffix-ms_digits :
    (s : Text) → all_digits s ≡ true → strip_suffix (txt "ms") (s ++ txt "s") ≡ none
unfolding strip_suffix
strip_suffix-ms_digits [] h = ground arith
strip_suffix-ms_digits (c ∷ s) h = ground (arith, strip_suffix-ms_digits s)

-- A number of seconds is not read as one of milliseconds.
pub strip_suffix-ms : (n : ℕ) → strip_suffix (txt "ms") (to_string n ++ txt "s") ≡ none
strip_suffix-ms n = strip_suffix-ms_digits (to_string n) (all_digits-to_string n)

drop_while-digits : (s : Text) → all_digits s ≡ true → drop_while is_whitespace s ≡ s
unfolding drop_while is_whitespace
drop_while-digits [] h = refl
drop_while-digits (c ∷ s) h = ground arith

all_digits-snoc : (s : Text) (c : ℕ) → all_digits (s ++ c ∷ []) ≡ all_digits s && is_digit c
all_digits-snoc [] c = ground arith
all_digits-snoc (d ∷ s) c = ground (arith, all_digits-snoc s c)

all_digits-reverse : (s : Text) → all_digits (reverse s) ≡ all_digits s
all_digits-reverse [] = refl
all_digits-reverse (c ∷ s) =
    rw List.reverse-cons (ground (arith, all_digits-snoc (reverse s) c, all_digits-reverse s))

pub trim-to_string : (n : ℕ) → trim (to_string n) ≡ to_string n
unfolding trim trim_matches
trim-to_string n =
    let h = all_digits-to_string n in
    rw (drop_while-digits (to_string n) h) (
      rw (drop_while-digits (reverse (to_string n)) (all_digits-reverse (to_string n) ∙ h))
        (reverse-reverse (to_string n)))
