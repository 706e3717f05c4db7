-- ===== src/Cli/Texts/Clock.antt =====
-- The time of day that `logs` prints, as two digits for each part.
use dev.Prelude.{Text, txt, ℕ, zero, suc, ◌+◌, ◌*◌, ◌/◌, ◌%◌, ◌<◌, ◌≡◌, refl, [], ◌∷◌, ◌++◌, arith}
use dev.Strings.{concat}
use dev.Strings.Decimal.{digits, to_string}
use dev.Cli.Texts.{pad2, chrono_now}

-- The digits of a number below a hundred
abbrev pub two : ℕ → Text
two n = (b'0' + n / 10) ∷ (b'0' + n % 10) ∷ []

pad2-two : (n : ℕ) → n < 100 → pad2 n ≡ two n
unfolding pad2 to_string digits
pad2-two zero h = refl
pad2-two (suc m) h = grind arith

-- Whatever the time, `chrono_now` prints the hours, minutes and seconds of the day with two digits
-- each, and they add up to it.
pub chrono_now-two :
    (secs : ℕ)
    → (h m s : ℕ) × (chrono_now secs ≡ two h ++ (txt ":" ++ (two m ++ (txt ":" ++ two s))))
      × (h < 24)
      × (m < 60)
      × (s < 60)
      × (secs % 86400 ≡ h * 3600 + m * 60 + s)
unfolding chrono_now concat
chrono_now-two secs =
    let s = secs % 86400 in
    (
      s / 3600,
      s % 3600 / 60,
      s % 60,
      rw
          (
            pad2-two (s / 3600) (omega arith),
            pad2-two (s % 3600 / 60) (omega arith),
            pad2-two (s % 60) (omega arith),
          )
          refl,
      omega arith,
      omega arith,
      omega arith,
      omega arith,
    )
