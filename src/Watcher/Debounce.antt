-- ===== src/Watcher/Debounce.antt =====
-- What the debounce promises of the instants at which a change is sent.
use dev.Prelude.{
  Text, ℕ, ◌+◌, ◌-◌, ◌≤◌, ◌<◌, ◌≡◌, inl, inr, List, [], ◌∷◌, true, leb, arith, Bool-cases,
}
use dev.Watcher.{
  Turn, stop_sent, disconnected, timeout, watch_error, change, first_trigger, relevant, watch_loop,
  run_watcher, debounce_ms,
}

-- From `last` on, each instant is at least the debounce behind the one before.
unfoldable pub Spaced : ℕ → List ℕ → Type 0
Spaced last [] = Unit
Spaced last (t ∷ ts) = (last + debounce_ms ≤ t) × Spaced t ts

pub data Among (t : ℕ) : List ℕ → Type 0 where
  here : {ts : List ℕ} → Among t (t ∷ ts)
  there : {u : ℕ} {ts : List ℕ} → Among t ts → Among t (u ∷ ts)

-- A change that the loop meets before a turn ends it.
pub data Met (paths : List Text) (now : ℕ) : List Turn → Type 0 where
  first : {turns : List Turn} → Met paths now (change paths now ∷ turns)
  after_timeout : {turns : List Turn} → Met paths now turns → Met paths now (timeout ∷ turns)
  after_error : {turns : List Turn} → Met paths now turns → Met paths now (watch_error ∷ turns)
  after_change :
      {ps : List Text} {n : ℕ} {turns : List Turn}
      → Met paths now turns
      → Met paths now (change ps n ∷ turns)

watch_loop-Spaced :
    (ignore : List Text) (last : ℕ) (turns : List Turn) → Spaced last (watch_loop ignore last turns)
unfolding watch_loop Spaced
watch_loop-Spaced ignore last [] = tt
watch_loop-Spaced ignore last (stop_sent ∷ turns) = tt
watch_loop-Spaced ignore last (disconnected ∷ turns) = tt
watch_loop-Spaced ignore last (timeout ∷ turns) = watch_loop-Spaced ignore last turns
watch_loop-Spaced ignore last (watch_error ∷ turns) = watch_loop-Spaced ignore last turns
watch_loop-Spaced ignore last (change paths now ∷ turns) =
    elim (Bool-cases (relevant ignore paths)) [
      | inl r ↦ elim (Bool-cases (leb debounce_ms (now - last))) [
        | inl e ↦ rw (r, e) (ground (arith, e), watch_loop-Spaced ignore now turns)
        | inr e ↦ rw (r, e) (watch_loop-Spaced ignore last turns)
      ]
      | inr r ↦ rw r (watch_loop-Spaced ignore last turns)
    ]

watch_loop-covers :
    (ignore : List Text) {paths : List Text} {now : ℕ} (last : ℕ) (turns : List Turn)
    → Met paths now turns
    → relevant ignore paths ≡ true
    → (t : ℕ) × Among t (last ∷ watch_loop ignore last turns) × (now < t + debounce_ms)
unfolding watch_loop
watch_loop-covers ignore {paths} {now} last turns first r =
    elim (Bool-cases (leb debounce_ms (now - last))) [
      | inl e ↦ rw (r, e) (now, there here, omega arith)
      | inr e ↦ rw (r, e) (last, here, ground (arith, e))
    ]
watch_loop-covers ignore last turns (after_timeout m) r = watch_loop-covers ignore last _ m r
watch_loop-covers ignore last turns (after_error m) r = watch_loop-covers ignore last _ m r
watch_loop-covers ignore {paths} {now} last turns (after_change {ps} {n} {turns = more} m) r =
    elim (Bool-cases (relevant ignore ps)) [
      | inl q ↦ elim (Bool-cases (leb debounce_ms (n - last))) [
        | inl e ↦ let (t, a, h) = watch_loop-covers ignore n more m r in rw (q, e) (t, there a, h)
        | inr e ↦ rw (q, e) (watch_loop-covers ignore last more m r)
      ]
      | inr q ↦ rw q (watch_loop-covers ignore last more m r)
    ]

-- From a start later than the debounce after the clock's zero, the instants at which a watcher sends
-- its service are at least the debounce apart; and each relevant change that comes at or behind the
-- start, and that the loop meets before it ends, comes before the end of the debounce of one of them.
pub run_watcher-debounced :
    (ignore : List Text) (start : ℕ) (turns : List Turn)
    → debounce_ms < start
    → Spaced (first_trigger start) (run_watcher ignore start turns)
      × ((paths : List Text) (now : ℕ)
          → Met paths now turns
          → relevant ignore paths ≡ true
          → start ≤ now
          → (t : ℕ) × Among t (run_watcher ignore start turns) × (now < t + debounce_ms))
unfolding run_watcher
run_watcher-debounced ignore start turns late = (
  watch_loop-Spaced ignore (first_trigger start) turns,
  λ paths now m r h. go now h (watch_loop-covers ignore (first_trigger start) turns m r),
)
  where
    go :
        (now : ℕ)
        → start ≤ now
        → (t : ℕ) × Among t (first_trigger start ∷ watch_loop ignore (first_trigger start) turns)
          × (now < t + debounce_ms)
        → (t : ℕ) × Among t (watch_loop ignore (first_trigger start) turns)
          × (now < t + debounce_ms)
    go now h (t, here, k) = absurd (ground (arith, late))
    go now h (t, there a, k) = (t, a, k)
