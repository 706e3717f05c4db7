-- ===== src/Cli/Texts.antt =====
-- The texts that src/main.rs prints: durations, the time of day, and the colors of the services.
pub mod Clock
use dev.Prelude.{
  Text, txt, ℕ, ◌+◌, ◌*◌, ◌/◌, ◌%◌, ◌^◌, List, [], ◌∷◌, ◌++◌, foldl, Bool, ltb, ◌==◌, if◌then◌else◌,
}
use dev.Strings.{concat}
use dev.Strings.Decimal.{to_string}
use dev.Ipc.{bytes}

unfoldable pub format_uptime : ℕ → Text
unfolding concat
format_uptime secs =
    if ltb secs 60
    then concat (to_string secs ∷ txt "s" ∷ [])
    else if ltb secs 3600
    then concat (to_string (secs / 60) ∷ txt "m" ∷ to_string (secs % 60) ∷ txt "s" ∷ [])
    else concat (to_string (secs / 3600) ∷ txt "h" ∷ to_string (secs % 3600 / 60) ∷ txt "m" ∷ [])

-- `{:02}`
unfoldable pub pad2 : ℕ → Text
pad2 n = if ltb n 10 then b'0' ∷ to_string n else to_string n

-- `secs` counts from the epoch.
unfoldable pub chrono_now : ℕ → Text
unfolding pad2 concat
chrono_now secs =
    let s = secs % 86400 in
    concat (pad2 (s / 3600) ∷ txt ":" ∷ pad2 (s % 3600 / 60) ∷ txt ":" ∷ pad2 (s % 60) ∷ [])

-- `acc.wrapping_mul(31).wrapping_add(b)` on 64 bits
abbrev pub color_step : ℕ → ℕ → ℕ
color_step acc b = (acc * 31 % 2 ^ 64 + b) % 2 ^ 64

unfoldable pub service_color : Text → ℕ
service_color name = foldl color_step 0 (bytes name)

pub data Color : Type 0 where
  cyan green yellow magenta blue bright_cyan bright_green bright_yellow : Color

abbrev pub colors : ℕ
colors = 8

unfoldable pub prefix_color : ℕ → Color
prefix_color color_idx =
    let n = color_idx % colors in
    if n == 0
    then cyan
    else if n == 1
    then green
    else if n == 2
    then yellow
    else if n == 3
    then magenta
    else if n == 4
    then blue
    else if n == 5
    then bright_cyan
    else if n == 6
    then bright_green
    else bright_yellow
