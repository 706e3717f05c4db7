-- ===== src/Config/Durations.antt =====
-- `duration_serde::parse_duration` (src/config.rs): `500ms` and `2s`.
use dev.Prelude.{Text, txt, ℕ, ◌<◌, ◌≡◌, none, some, ◌++◌, arith}
use dev.Strings.{strip_suffix, trim}
use dev.Strings.Decimal.{
  to_string, Parsed, parsed, failed, ParseError, empty, invalid_digit, overflow, parse_u64, u64_mod,
  parse_u64-to_string,
}
use dev.Strings.Laws.{strip_suffix-append, strip_suffix-ms, trim-to_string}
use dev.Config.{Duration, from_secs}

pub data DurationResult : Type 0 where
  duration : Duration → DurationResult
  bad : Text → DurationResult

-- `e.to_string()` for a `ParseIntError`
abbrev pub message : ParseError → Text
message empty = txt "cannot parse integer from empty string"
message invalid_digit = txt "invalid digit found in string"
message overflow = txt "number too large to fit in target type"

-- `.map(unit).map_err(|e| e.to_string())`
abbrev pub scale : (ℕ → Duration) → Parsed → DurationResult
scale unit (parsed n) = duration (unit n)
scale unit (failed e) = bad (message e)

abbrev pub unknown_format : Text → Text
unknown_format s = txt "unknown duration format: '" ++ (s ++ txt "' (use '2s' or '500ms')")

unfoldable pub parse_duration : Text → DurationResult
parse_duration s = elim (strip_suffix (txt "ms") s) [
  | some v ↦ scale (λ n. n) (parse_u64 (trim v))
  | none ↦ elim (strip_suffix (txt "s") s) [
    | some v ↦ scale from_secs (parse_u64 (trim v))
    | none ↦ bad (unknown_format s)
  ]
]

-- A 64-bit number printed with the unit `ms` or `s` is read as that many milliseconds or seconds.
pub parse_duration-print :
    (n : ℕ)
    → n < u64_mod
    → (parse_duration (to_string n ++ txt "ms") ≡ duration n)
      × (parse_duration (to_string n ++ txt "s") ≡ duration (from_secs n))
unfolding parse_duration
parse_duration-print n h = (
  ground (
    arith,
    strip_suffix-append (txt "ms") (to_string n),
    trim-to_string n,
    parse_u64-to_string n h,
  ),
  ground (
    arith,
    strip_suffix-ms n,
    strip_suffix-append (txt "s") (to_string n),
    trim-to_string n,
    parse_u64-to_string n h,
  ),
)
