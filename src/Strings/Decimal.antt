-- ===== src/Strings/Decimal.antt =====
-- `u64::to_string` and `str::parse::<u64>`: what is printed is read back.
use dev.Prelude.{
  Text, txt, ℕ, zero, suc, ◌+◌, ◌*◌, ◌-◌, ◌/◌, ◌%◌, ◌^◌, ◌<◌, ◌≡◌, refl, [], ◌∷◌, Bool, true, false,
  ltb, leb, ◌==◌, ◌&&◌, if◌then◌else◌, arith, inl, inr, ap, ◌∙◌, Bool-cases,
}

-- The digits of a number in base ten, the lowest last; `fuel` bounds their number.
unfoldable pub digits : ℕ → ℕ → Text → Text
digits zero n tail = tail
digits (suc fuel) n tail =
    let d = (b'0' + n % 10) ∷ tail in
    let rest = digits fuel (n / 10) d in if ltb n 10 then d else rest

-- `n.to_string()`
unfoldable pub to_string : ℕ → Text
unfolding digits
to_string n = digits (suc n) n []

pub data ParseError : Type 0 where
  empty invalid_digit overflow : ParseError

pub data Parsed : Type 0 where
  parsed : ℕ → Parsed
  failed : ParseError → Parsed

abbrev pub is_digit : ℕ → Bool
is_digit c = leb b'0' c && leb c b'9'

abbrev pub u64_mod : ℕ
u64_mod = 2 ^ 64

-- The loop over the digits, with the test for overflow.
unfoldable pub parse_digits : ℕ → Text → Parsed
parse_digits n [] = parsed n
parse_digits n (c ∷ s) =
    let next = n * 10 + (c - b'0') in
    let rest = parse_digits next s in
    if is_digit c
    then (if ltb next u64_mod then rest else failed overflow)
    else failed invalid_digit

-- `s.parse::<u64>()`: a sign `+` may stand in front.
unfoldable pub parse_u64 : Text → Parsed
unfolding parse_digits
parse_u64 [] = failed empty
parse_u64 (c ∷ []) = if is_digit c then parse_digits 0 (c ∷ []) else failed invalid_digit
parse_u64 (c ∷ d ∷ s) = if c == b'+' then parse_digits 0 (d ∷ s) else parse_digits 0 (c ∷ d ∷ s)

abbrev starts_digit : Text → Bool
starts_digit [] = false
starts_digit (c ∷ s) = is_digit c

pub digit_value : (n : ℕ) → is_digit (b'0' + n % 10) ≡ true
digit_value n = ground arith

starts_digit-digits :
    (fuel n d : ℕ) (tail : Text)
    → is_digit d ≡ true
    → starts_digit (digits fuel n (d ∷ tail)) ≡ true
unfolding digits
starts_digit-digits zero n d tail h = h
starts_digit-digits (suc fuel) n d tail h =
    ground (arith, digit_value n, starts_digit-digits fuel (n / 10) (b'0' + n % 10) (d ∷ tail))

starts_digit-to_string : (n : ℕ) → starts_digit (to_string n) ≡ true
unfolding to_string
starts_digit-to_string n =
    ground (arith, digit_value n, starts_digit-digits n (n / 10) (b'0' + n % 10) [])

parse_u64_digits : (s : Text) → starts_digit s ≡ true → parse_u64 s ≡ parse_digits 0 s
unfolding parse_u64
parse_u64_digits [] h = cc
parse_u64_digits (c ∷ []) h = ground arith
parse_u64_digits (c ∷ d ∷ s) h = ground arith

parse_digits-cons :
    (a n : ℕ) (s : Text)
    → a * 10 + n % 10 < u64_mod
    → parse_digits a ((b'0' + n % 10) ∷ s) ≡ parse_digits (a * 10 + n % 10) s
unfolding parse_digits
parse_digits-cons a n s h =
    let e : a * 10 + (b'0' + n % 10 - b'0') ≡ a * 10 + n % 10 = omega arith in
    rw e (ground (arith, digit_value n))

parse_digits-digits :
    (fuel n : ℕ) (tail : Text)
    → n < fuel
    → n < u64_mod
    → parse_digits 0 (digits fuel n tail) ≡ parse_digits n tail
unfolding digits
parse_digits-digits zero n tail h b = absurd (omega arith)
parse_digits-digits (suc fuel) n tail h b = elim (Bool-cases (ltb n 10)) [
  | inl small ↦
      let e : 0 * 10 + n % 10 ≡ n = ground arith in
      rw small (parse_digits-cons 0 n tail (omega arith) ∙ ap (λ k. parse_digits k tail) e)
  | inr large ↦
      let e : n / 10 * 10 + n % 10 ≡ n = omega arith in
      rw large (
        parse_digits-digits fuel (n / 10) ((b'0' + n % 10) ∷ tail) (ground arith) (omega arith)
        ∙ parse_digits-cons (n / 10) n tail (omega arith)
        ∙ ap (λ k. parse_digits k tail) e)
]

-- Every 64-bit number is read back from what is printed for it.
pub parse_u64-to_string : (n : ℕ) → n < u64_mod → parse_u64 (to_string n) ≡ parsed n
unfolding to_string
parse_u64-to_string n h =
    parse_u64_digits (to_string n) (starts_digit-to_string n)
    ∙ parse_digits-digits (suc n) n [] (omega arith) h
    ∙ (unfold parse_digits in refl)

parse_largest : parse_u64 (txt "18446744073709551615") ≡ parsed 18446744073709551615
unfolding parse_u64
parse_largest = refl

parse_overflow : parse_u64 (txt "18446744073709551616") ≡ failed overflow
unfolding parse_u64
parse_overflow = refl

to_string_runs : to_string 30805 ≡ txt "30805"
unfolding to_string
to_string_runs = refl
