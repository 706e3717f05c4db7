-- ===== src/Log.antt =====
-- src/log.rs: the history of log lines, and what is read from it. The channel that the lines are sent
-- on is not part of it.
pub mod History
pub mod Files
use mathlib.Core.List.{reverse}
use dev.Prelude.{
  Text, ℕ, zero, suc, List, [], ◌∷◌, ◌++◌, Bool, true, false, leb, foldl, if◌then◌else◌, ◌||◌,
}
use dev.Prelude.Counts.{length, contains}

pub record LogLine : Type 0 where
  pub service : Text
  pub line : Text
  pub color_idx : ℕ

abbrev pub history_cap : ℕ
history_cap = 1000

-- `history.pop_front()`
abbrev pub pop_front : List LogLine → List LogLine
pop_front [] = []
pop_front (l ∷ history) = history

-- What `push` and the history recorder do with a line.
unfoldable pub push_history : List LogLine → LogLine → List LogLine
push_history history entry =
    (if leb history_cap (length history) then pop_front history else history) ++ entry ∷ []

abbrev pub is_empty : List Text → Bool
is_empty [] = true
is_empty (s ∷ services) = false

-- `services.is_empty() || services.contains(&l.service)`
unfoldable pub wanted_lines : List Text → List LogLine → List LogLine
unfolding contains
wanted_lines services [] = []
wanted_lines services (l ∷ history) =
    let rest = wanted_lines services history in
    if is_empty services || contains services l.service then l ∷ rest else rest

-- `take(n)`
unfoldable pub take : ℕ → List LogLine → List LogLine
take zero l = []
take (suc n) [] = []
take (suc n) (x ∷ l) = x ∷ take n l

unfoldable pub recent : List LogLine → List Text → ℕ → List LogLine
unfolding wanted_lines take
recent history services n = reverse (take n (reverse (wanted_lines services history)))
