-- ===== src/Supervisor/Monitor/Threshold.antt =====
-- When the health monitor gives a service up.
use dev.Prelude.{
  Text, ℕ, suc, ◌<◌, ◌≡◌, inl, inr, ap, ◌∙◌, sym, subst, refl, arith, some, List, [], ◌∷◌, ◌++◌,
  Bool, true, false, Bool-cases, Option-cases, ltb, leb, if◌then◌else◌,
}
use dev.Error.{ok}
use dev.Map.{get}
use dev.Config.{HealthConfig}
use dev.State.{state_pid}
use dev.Supervisor.{Supervisor, ServiceHandle, Os, slept, probed}
use dev.Supervisor.Recovery.{is_live}
use dev.Supervisor.Monitor.{
  Monitor, monitoring, ended, is_unhealthy, probe_passed, probe_failed, monitor_round,
  health_failure_threshold,
}

-- How many of the newest answers, which stand first, are failures in a row.
unfoldable pub streak : List Bool → ℕ
streak [] = 0
streak (true ∷ answers) = 0
streak (false ∷ answers) = suc (streak answers)

-- The answer that the round's probe gets.
abbrev pub answer : Os → Text → HealthConfig → Supervisor → ServiceHandle → Bool
answer os name health w h =
    os.probe ((w.trace ++ slept health.interval ∷ []) ++ probed name h.port ∷ [])

-- The answers that the monitor got, the newest first, and where it stands. At each round it meets
-- whatever world the other tasks left, with the service live.
pub data Rounds (os : Os) (name : Text) (health : HealthConfig) : List Bool → Monitor → Type 0 where
  armed : Rounds os name health [] (monitoring 0)
  answered :
      {answers : List Bool} {failures : ℕ} {q : Monitor} (w w' : Supervisor) (h : ServiceHandle)
      → Rounds os name health answers (monitoring failures)
      → get name w.handles ≡ some h
      → is_live h.state ≡ true
      → monitor_round os name health failures w ≡ (ok q, w')
      → Rounds os name health (answer os name health w h ∷ answers) q

-- The monitor's count is the streak, and it has ended at the third failure in a row.
abbrev pub IsCounted : List Bool → Monitor → Type 0
IsCounted answers (monitoring failures) = (failures ≡ streak answers) × (failures < 3)
IsCounted answers ended = streak answers ≡ 3

passed :
    (os : Os) (name : Text) (failures : ℕ) (w : Supervisor)
    → (probe_passed os name failures w).0 ≡ ok (monitoring 0)
unfolding probe_passed
passed os name failures w = elim (Bool-cases (ltb 0 failures)) [
  | inr e ↦ rw e refl
  | inl e ↦ elim (Option-cases (get name w.handles)) [
    | inl f ↦ rw (e, f) refl
    | inr (h, f) ↦ elim (Bool-cases (is_unhealthy h.state)) [
      | inl g ↦ rw (e, f, g) refl
      | inr g ↦ rw (e, f, g) refl
    ]
  ]
]

-- What the round leads to, by the answer.
unfoldable after_answer : ℕ → Bool → Monitor
after_answer failures true = monitoring 0
after_answer failures false =
    if leb health_failure_threshold (suc failures) then ended else monitoring (suc failures)

failed_round :
    (name : Text) (failures : ℕ) (w : Supervisor) (h : ServiceHandle)
    → get name w.handles ≡ some h
    → (probe_failed name (suc failures) w).0 ≡ ok (after_answer failures false)
unfolding probe_failed after_answer
failed_round name failures w h f = elim (Bool-cases (leb health_failure_threshold (suc failures))) [
  | inr e ↦ rw e refl
  | inl e ↦ elim (Option-cases (state_pid h.state)) [
    | inl g ↦ rw (e, f, g) refl
    | inr (pid, g) ↦ rw (e, f, g) refl
  ]
]

round_outcome :
    (os : Os) (name : Text) (health : HealthConfig) (failures : ℕ) (w : Supervisor)
    (h : ServiceHandle)
    → get name w.handles ≡ some h
    → is_live h.state ≡ true
    → (monitor_round os name health failures w).0
      ≡ ok (after_answer failures (answer os name health w h))
unfolding monitor_round
round_outcome os name health failures w h f l = elim (Bool-cases (answer os name health w h)) [
  | inl e ↦ rw (f, l, e) (passed os name failures _ ∙ (unfold after_answer in refl))
  | inr e ↦ rw (f, l, e) (failed_round name failures _ h f)
]

counted :
    (answers : List Bool) (failures : ℕ) (b : Bool)
    → IsCounted answers (monitoring failures)
    → IsCounted (b ∷ answers) (after_answer failures b)
unfolding streak after_answer
counted answers failures true (e, l) = (refl, ground arith)
counted answers failures false (e, l) = elim (Bool-cases (leb 3 (suc failures))) [
  | inl g ↦ rw g (ground arith)
  | inr g ↦ rw g (ground arith, ground arith)
]

-- While the service stays live, the monitor's count is the number of probes that have failed in a
-- row, at most 2, and the monitor ends exactly when the third one in a row fails.
pub monitor-IsCounted :
    (os : Os) (name : Text) (health : HealthConfig) (answers : List Bool) (p : Monitor)
    → Rounds os name health answers p
    → IsCounted answers p
unfolding streak
monitor-IsCounted os name health answers p armed = (refl, ground arith)
monitor-IsCounted os name health answers q
      (answered {answers = before} {failures = failures} w w' h r f l e) =
    let ih = monitor-IsCounted os name health before (monitoring failures) r in
    let b = answer os name health w h in
    let same_end : ok (after_answer failures b) ≡ ok q =
      sym (round_outcome os name health failures w h f l) ∙ ap (λ x. x.0) e in
    subst (IsCounted (b ∷ before)) (ground arith) (counted before failures b ih)
