-- ===== src/Cli/Waits/Settled.antt =====
-- `wait_for_healthy` ends, and what its success says.
use dev.Prelude.{
  txt, ℕ, zero, suc, ◌+◌, ◌*◌, ◌<◌, ◌≤◌, ◌≡◌, ◌≢◌, ◌⊎◌, refl, Bool, true, false, leb, Bool-cases,
  inl, inr, arith, List, if◌then◌else◌,
}
use dev.Error.{Result, ok, err, panic, config, Fault, ◌>>=◌, first_step}
use dev.Supervisor.Status.{StatusRow}
use dev.Ipc.{IpcResponse, status_answer, done, error, log_line, reloaded, stopped_answer}
use dev.Cli.Waits.{
  Daemon, any_failed, all_settled, wait_socket, judge, wait_settled, wait_for_healthy,
}

-- The daemon does not panic in the client, and each turn takes a time.
pub record Advances (d : Daemon) : Type 0 where
  pub later : (k : ℕ) → d.now k < d.now (suc k)
  pub no_panic : (k : ℕ) (p : Fault) → d.ask k ≢ panic p

abbrev pub Ends {ℓ} : {A : Type ℓ} → Result A → Type ℓ
Ends r = (p : Fault) → r ≢ panic p

-- A successful end has found, before the deadline, that no service failed and all are settled.
abbrev pub Found : Daemon → ℕ → Type 0
Found d deadline =
    (k : ℕ) × (rows : List StatusRow) × (d.now k < deadline)
    × (d.ask k ≡ ok (status_answer rows))
    × (any_failed rows ≡ false)
    × (all_settled rows ≡ true)

wait_socket-Ends :
    (d : Daemon) (deadline fuel k : ℕ)
    → Advances d
    → 0 < fuel
    → deadline < d.now k + fuel
    → Ends (wait_socket d deadline fuel k)
unfolding wait_socket
wait_socket-Ends d deadline zero k a n h p = absurd (omega arith)
wait_socket-Ends d deadline (suc fuel) k a n h p = elim (Bool-cases (d.exists k)) [
  | inl e ↦ rw e (λ q. cc)
  | inr e ↦ elim (Bool-cases (leb deadline (d.now k))) [
    | inl f ↦ rw (e, f) (λ q. cc)
    | inr f ↦
        rw (e, f)
          (wait_socket-Ends d deadline fuel (suc k) a (ground (arith, f))
            (ground (arith, f, a.later k)) p)
  ]
]

judge-Ends :
    (r : Result IpcResponse) (rest : Result (Unit {0}))
    → ((p : Fault) → r ≢ panic p)
    → Ends rest
    → Ends (judge r rest)
judge-Ends (ok (status_answer rows)) rest n e p = elim (Bool-cases (any_failed rows)) [
  | inl f ↦ rw f (λ q. cc)
  | inr f ↦ elim (Bool-cases (all_settled rows)) [
    | inl g ↦ rw (f, g) (λ q. cc)
    | inr g ↦ rw (f, g) (e p)
  ]
]
judge-Ends (ok done) rest n e p = e p
judge-Ends (ok (error msg)) rest n e p = e p
judge-Ends (ok (log_line service line color_idx)) rest n e p = e p
judge-Ends (ok (reloaded started stopped restarted)) rest n e p = e p
judge-Ends (ok (stopped_answer services)) rest n e p = e p
judge-Ends (err x) rest n e p = e p
judge-Ends (panic q) rest n e p = absurd (n q refl)

wait_settled-Ends :
    (d : Daemon) (deadline fuel k : ℕ)
    → Advances d
    → 0 < fuel
    → deadline < d.now k + fuel
    → Ends (wait_settled d deadline fuel k)
unfolding wait_settled
wait_settled-Ends d deadline zero k a n h p = absurd (omega arith)
wait_settled-Ends d deadline (suc fuel) k a n h p = elim (Bool-cases (leb deadline (d.now k))) [
  | inl f ↦ rw f (λ q. cc)
  | inr f ↦ rw f (
      judge-Ends (d.ask k) _ (a.no_panic k)
        (wait_settled-Ends d deadline fuel (suc k) a (ground (arith, f))
          (ground (arith, f, a.later k)))
        p)
]

settle-ok :
    (rows : List StatusRow) (rest : Result (Unit {0})) (failed settled : Bool)
    → any_failed rows ≡ failed
    → all_settled rows ≡ settled
    → (if failed
        then err (config (txt "one or more services failed to start"))
        else if settled
        then ok tt
        else rest)
      ≡ ok tt
    → (any_failed rows ≡ false) × (all_settled rows ≡ true) ⊎ (rest ≡ ok tt)
settle-ok rows rest true settled f g h = cc
settle-ok rows rest false true f g h = inl (f, g)
settle-ok rows rest false false f g h = inr h

judge-ok :
    (r : Result IpcResponse) (rest : Result (Unit {0}))
    → judge r rest ≡ ok tt
    → ((rows : List StatusRow) × (r ≡ ok (status_answer rows))
        × (any_failed rows ≡ false)
        × (all_settled rows ≡ true))
      ⊎ (rest ≡ ok tt)
judge-ok (ok (status_answer rows)) rest h =
    elim (settle-ok rows rest (any_failed rows) (all_settled rows) refl refl h) [
      | inl (f, g) ↦ inl (rows, refl, f, g)
      | inr e ↦ inr e
    ]
judge-ok (ok done) rest h = inr h
judge-ok (ok (error msg)) rest h = inr h
judge-ok (ok (log_line service line color_idx)) rest h = inr h
judge-ok (ok (reloaded started stopped restarted)) rest h = inr h
judge-ok (ok (stopped_answer services)) rest h = inr h
judge-ok (err x) rest h = inr h
judge-ok (panic q) rest h = cc

wait_settled-Found :
    (d : Daemon) (deadline fuel k : ℕ) → wait_settled d deadline fuel k ≡ ok tt → Found d deadline
unfolding wait_settled
wait_settled-Found d deadline zero k h = cc
wait_settled-Found d deadline (suc fuel) k h =
    go (leb deadline (d.now k)) refl h (wait_settled-Found d deadline fuel (suc k))
  where
    go :
        (late : Bool)
        → leb deadline (d.now k) ≡ late
        → (if late
            then err (config (txt "timeout: services did not become healthy in time"))
            else judge (d.ask k) (wait_settled d deadline fuel (suc k)))
          ≡ ok tt
        → (wait_settled d deadline fuel (suc k) ≡ ok tt → Found d deadline)
        → Found d deadline
    go true l e more = cc
    go false l e more = elim (judge-ok (d.ask k) _ e) [
      | inl (rows, a, f, g) ↦ (k, rows, ground (arith, l), a, f, g)
      | inr r ↦ more r
    ]

now-le : (d : Daemon) (k : ℕ) → Advances d → d.now 0 ≤ d.now k
now-le d zero a = omega arith
now-le d (suc k) a = omega (arith, now-le d k a, a.later k)

-- Where each turn takes a time and the client does not panic, `wait_for_healthy` comes to an end
-- with more turns than the timeout has milliseconds. It succeeds only if, before the timeout, the
-- daemon answered with rows none of which is failed and each of which is running or stopped.
pub wait_for_healthy-Ends :
    (d : Daemon) (fuel timeout_secs : ℕ)
    → Advances d
    → timeout_secs * 1000 < fuel
    → Ends (wait_for_healthy d fuel timeout_secs)
      × (wait_for_healthy d fuel timeout_secs ≡ ok tt → Found d (d.now 0 + timeout_secs * 1000))
unfolding wait_for_healthy
wait_for_healthy-Ends d fuel timeout_secs a n = (
  go (wait_socket d (d.now 0 + timeout_secs * 1000) fuel 0) (
      wait_socket-Ends d (d.now 0 + timeout_secs * 1000) fuel 0 a (omega (arith, n))
        (omega (arith, n))),
  λ h.
      let (k, e, f) = first_step (wait_socket d (d.now 0 + timeout_secs * 1000) fuel 0) _ h in
      wait_settled-Found d _ fuel k f,
)
  where
    go : (r : Result ℕ) → Ends r → Ends (r >>= wait_settled d (d.now 0 + timeout_secs * 1000) fuel)
    go (ok k) e p =
        wait_settled-Ends d (d.now 0 + timeout_secs * 1000) fuel k a (omega (arith, n))
          (omega (arith, n, now-le d k a)) p
    go (err x) e p = λ q. cc
    go (panic x) e p = absurd (e x refl)
