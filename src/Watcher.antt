-- ===== src/Watcher.antt =====
-- src/watcher.rs: the loop of a watcher thread. The library that reports changes is a parameter: what
-- each turn of the loop receives. Instants count milliseconds.
pub mod Debounce
use dev.Prelude.{
  Text, ℕ, ◌+◌, ◌-◌, List, [], ◌∷◌, ◌++◌, Bool, true, false, not, ◌||◌, leb, test, same,
  if◌then◌else◌, Option, none, some,
}
use dev.Strings.{strip_prefix}
use dev.Map.{is_some}

abbrev pub debounce_ms : ℕ
debounce_ms = 500

-- What one turn meets: a stop signal, or what `recv_timeout` gives, a change with its time.
pub data Turn : Type 0 where
  stop_sent disconnected timeout watch_error : Turn
  change : (paths : List Text) (now : ℕ) → Turn

-- `s.contains(pattern)`
unfoldable pub contains_text : Text → Text → Bool
unfolding strip_prefix
contains_text pattern [] = is_some (strip_prefix pattern [])
contains_text pattern (c ∷ s) = is_some (strip_prefix pattern (c ∷ s)) || contains_text pattern s

unfoldable pub is_ignored : List Text → Text → Bool
unfolding contains_text
is_ignored [] s = false
is_ignored (ig ∷ ignore) s = contains_text ig s || is_ignored ignore s

unfoldable pub relevant : List Text → List Text → Bool
unfolding is_ignored
relevant ignore [] = false
relevant ignore (p ∷ paths) = not (is_ignored ignore p) || relevant ignore paths

-- `Instant::now().checked_sub(501 ms).unwrap_or(Instant::now())`
abbrev pub first_trigger : ℕ → ℕ
first_trigger now = if leb (debounce_ms + 1) now then now - (debounce_ms + 1) else now

-- The instants at which the service is sent, from the last such instant on.
unfoldable pub watch_loop : List Text → ℕ → List Turn → List ℕ
unfolding relevant
watch_loop ignore last_trigger [] = []
watch_loop ignore last_trigger (stop_sent ∷ turns) = []
watch_loop ignore last_trigger (disconnected ∷ turns) = []
watch_loop ignore last_trigger (timeout ∷ turns) = watch_loop ignore last_trigger turns
watch_loop ignore last_trigger (watch_error ∷ turns) = watch_loop ignore last_trigger turns
watch_loop ignore last_trigger (change paths now ∷ turns) =
    let sent = watch_loop ignore now turns in
    let rest = watch_loop ignore last_trigger turns in
    if not (relevant ignore paths)
    then rest
    else if leb debounce_ms (now - last_trigger)
    then now ∷ sent
    else rest

unfoldable pub run_watcher : List Text → ℕ → List Turn → List ℕ
unfolding watch_loop
run_watcher ignore start turns = watch_loop ignore (first_trigger start) turns
