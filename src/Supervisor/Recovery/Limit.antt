-- ===== src/Supervisor/Recovery/Limit.antt =====
-- The restart counter of the crash-recovery task, and its first backoff.
use native.Mathlib.Nat.{pow-suc, pow-zero}
use dev.Prelude.{
  Text, ℕ, ap, ◌∙◌, ◌≡◌, ◌≤◌, ◌<◌, ◌/◌, ◌-◌, ◌^◌, ◌*◌, ◌⊎◌, inl, inr, subst, refl, arith, Option,
  none, some, false, Bool-cases, Option-cases, ltb, if◌then◌else◌,
}
use dev.Error.{Result, ok, err, panic}
use dev.Map.{get}
use dev.Config.{ServiceDef, RestartConfig, OnFailure, restart, stop, HealthConfig}
use dev.Supervisor.{Supervisor, ServiceHandle, Os, Child}
use dev.Supervisor.Fleet.{is_stopped}
use dev.Supervisor.Recovery.{
  Recovery, looping, awaiting, backing_off, finished, is_live, take_from, take_child, crashed,
  exit_of, child_exited, policy_of, min, max, revive, spawn_result, respawn_as, respawn, recover,
}

-- The counter is 0, or 1 during the backoff.
abbrev pub IsFresh : Recovery → Type 0
IsFresh (looping count) = count ≡ 0
IsFresh (awaiting count child) = count ≡ 0
IsFresh (backing_off count delay) = count ≡ 1
IsFresh finished = Unit

-- What a step leads to.
abbrev FreshOutcome : Result Recovery × Supervisor → Type 0
FreshOutcome (ok p, w) = IsFresh p
FreshOutcome (err e, w) = Unit
FreshOutcome (panic p, w) = Unit

take_from-fresh :
    (os : Os) (name : Text) (o : Option ServiceHandle) (w : Supervisor)
    → FreshOutcome (take_from os name 0 o w)
take_from-fresh os name none w = tt
take_from-fresh os name (some h) w = elim (Bool-cases (is_live h.state)) [
  | inl e ↦ elim (Bool-cases (os.spare w.trace)) [ inl f ↦ rw (e, f) refl | inr f ↦ rw (e, f) tt ]
  | inr e ↦ rw e tt
]

crashed-fresh :
    (name : Text) (policy : RestartConfig) (o : OnFailure) (w : Supervisor)
    → FreshOutcome (crashed name 0 policy o w)
unfolding crashed
crashed-fresh name policy stop w = tt
crashed-fresh name policy restart w = elim (Bool-cases (ltb policy.max_restarts 1)) [
  | inl e ↦ rw e tt
  | inr e ↦ rw e refl
]

exit_of-fresh :
    (name : Text) (policy : RestartConfig) (o : Option ServiceHandle) (w : Supervisor)
    → FreshOutcome (exit_of name 0 policy o w)
exit_of-fresh name policy none w = tt
exit_of-fresh name policy (some h) w = elim (Bool-cases (is_stopped h.state)) [
  | inl e ↦ rw e tt
  | inr e ↦ rw e (crashed-fresh name policy policy.on_failure w)
]

revive-fresh :
    (os : Os) (name : Text) (color_idx port pid : ℕ) (health : Option HealthConfig)
    (svc : ServiceDef) (w : Supervisor)
    → FreshOutcome (revive os name color_idx health svc port pid w)
unfolding revive
revive-fresh os name color_idx port pid health svc w = elim (Option-cases svc.subdomain) [
  | inl e ↦ elim (Option-cases health) [ inl f ↦ rw (e, f) refl | inr (c, f) ↦ rw (e, f) refl ]
  | inr (s, e) ↦ elim (Option-cases health) [ inl f ↦ rw (e, f) refl | inr (c, f) ↦ rw (e, f) refl ]
]

respawn_as-fresh :
    (os : Os) (name : Text) (color_idx assigned_port : ℕ) (health : Option HealthConfig)
    (o : Option ServiceDef) (w : Supervisor)
    → FreshOutcome (respawn_as os name color_idx assigned_port health o w)
respawn_as-fresh os name color_idx assigned_port health none w = tt
respawn_as-fresh os name color_idx assigned_port health (some svc) w = go _
  where
    go :
        (r : Result ℕ × Supervisor)
        → FreshOutcome (
            spawn_result
              (revive os name color_idx health svc
                (if ltb 0 assigned_port then assigned_port else svc.port))
              r)
    go (ok pid, v) = revive-fresh os name color_idx _ pid health svc v
    go (err e, v) = tt
    go (panic p, v) = tt

recover-fresh :
    (os : Os) (name : Text) (color_idx assigned_port : ℕ) (health : Option HealthConfig)
    (p : Recovery) (w : Supervisor)
    → IsFresh p
    → FreshOutcome (recover os name color_idx assigned_port health p w)
unfolding recover take_child child_exited respawn
recover-fresh os name color_idx assigned_port health (looping count) w h =
    rw h (take_from-fresh os name (get name w.handles) w)
recover-fresh os name color_idx assigned_port health (awaiting count child) w h =
    rw h (exit_of-fresh name (policy_of (get name w.config.service)) (get name w.handles) w)
recover-fresh os name color_idx assigned_port health (backing_off count delay) w h =
    respawn_as-fresh os name color_idx assigned_port health (get name w.config.service) w
recover-fresh os name color_idx assigned_port health finished w h = tt

-- The task's course from its start: at each step it meets whatever world the other tasks left.
pub data Reaches (os : Os) (name : Text) (color_idx assigned_port : ℕ)
    (health : Option HealthConfig) : Recovery → Type 0 where
  begins : Reaches os name color_idx assigned_port health (looping 0)
  steps :
      {p q : Recovery} (w w' : Supervisor)
      → Reaches os name color_idx assigned_port health p
      → recover os name color_idx assigned_port health p w ≡ (ok q, w')
      → Reaches os name color_idx assigned_port health q

reached :
    (q : Recovery) (w' : Supervisor) (r : Result Recovery × Supervisor)
    → r ≡ (ok q, w')
    → FreshOutcome r
    → IsFresh q
reached q w' (ok p, v) e h = subst FreshOutcome e h
reached q w' (err x, v) e h = absurd (ground arith)
reached q w' (panic x, v) e h = absurd (ground arith)

-- Wherever the crash-recovery task gets, whatever the other tasks do in between, its restart counter
-- is 0, or 1 during a backoff: restarts do not add up.
pub recovery_count-IsFresh :
    (os : Os) (name : Text) (color_idx assigned_port : ℕ) (health : Option HealthConfig)
    (p : Recovery)
    → Reaches os name color_idx assigned_port health p
    → IsFresh p
recovery_count-IsFresh os name color_idx assigned_port health p begins = refl
recovery_count-IsFresh os name color_idx assigned_port health q (steps {p = p} w w' r e) =
    reached q w' (recover os name color_idx assigned_port health p w) e (
      recover-fresh os name color_idx assigned_port health p w
        (recovery_count-IsFresh os name color_idx assigned_port health p r))

-- The seconds of the first backoff: the base in whole seconds, but at least one, and then no more than
-- `max_backoff`.
pub record IsFirstBackoff (policy : RestartConfig) (secs : ℕ) : Type 0 where
  pub capped : secs ≤ policy.max_backoff / 1000
  pub base : (1 ≤ policy.backoff / 1000) → secs ≤ policy.backoff / 1000
  pub short_base : policy.backoff / 1000 ≡ 0 → secs ≤ 1
  pub reached :
      (secs ≡ policy.max_backoff / 1000)
      ⊎ (((1 ≤ policy.backoff / 1000) × (secs ≡ policy.backoff / 1000))
          ⊎ ((policy.backoff / 1000 ≡ 0) × (secs ≡ 1)))

first_backoff : RestartConfig → ℕ
first_backoff policy =
    min (min (max (policy.backoff / 1000) 1 ^ 1) (2 ^ 64 - 1)) (policy.max_backoff / 1000)

pow_one : (n : ℕ) → n ^ 1 ≡ n
pow_one n = pow-suc n 0 ∙ ap (λ t. t * n) (pow-zero n) ∙ omega arith

min-least : (b m : ℕ) → m < 2 ^ 64 → min (min (max b 1 ^ 1) (2 ^ 64 - 1)) m ≡ min (max b 1) m
min-least b m h = rw (pow_one (max b 1)) (ground (arith, h))

first_backoff-IsFirstBackoff :
    (policy : RestartConfig)
    → policy.max_backoff / 1000 < 2 ^ 64
    → IsFirstBackoff policy (first_backoff policy)
unfolding first_backoff
first_backoff-IsFirstBackoff policy h =
    let e = min-least (policy.backoff / 1000) (policy.max_backoff / 1000) h in
    rw e (record {
      capped = ground arith;
      base = λ k. ground (arith, k);
      short_base = λ k. ground (arith, k);
      reached = ground arith;
    })

-- After a crash, wherever the task got before, a service with the policy `restart` and any limit of
-- restarts but 0, whose `max_backoff` fits 64 bits, goes into a backoff with the counter 1, whose
-- length is the base of the policy in whole seconds, but at least one, capped by `max_backoff`.
pub crash-restarts :
    (os : Os) (name : Text) (color_idx assigned_port : ℕ) (health : Option HealthConfig) (count : ℕ)
    (child : Child) (svc : ServiceDef) (h : ServiceHandle) (w : Supervisor)
    → Reaches os name color_idx assigned_port health (awaiting count child)
    → get name w.config.service ≡ some svc
    → svc.restart.on_failure ≡ restart
    → 0 < svc.restart.max_restarts
    → svc.restart.max_backoff / 1000 < 2 ^ 64
    → get name w.handles ≡ some h
    → is_stopped h.state ≡ false
    → (secs : ℕ) × IsFirstBackoff svc.restart secs
      × ((recover os name color_idx assigned_port health (awaiting count child) w).0
          ≡ ok (backing_off 1 (secs * 1000)))
unfolding recover child_exited crashed first_backoff
crash-restarts os name color_idx assigned_port health count child svc h w r e f m u g k =
    let fresh =
      recovery_count-IsFresh os name color_idx assigned_port health (awaiting count child) r in
    (
      first_backoff svc.restart,
      first_backoff-IsFirstBackoff svc.restart u,
      rw (fresh, e, g, k, f, limit) refl,
    )
  where
    limit : ltb svc.restart.max_restarts 1 ≡ false
    limit = ground arith
