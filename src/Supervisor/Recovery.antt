-- ===== src/Supervisor/Recovery.antt =====
-- `spawn_crash_recovery` (src/supervisor/mod.rs): the task that restarts a service. Between two of
-- its steps the task waits, and the other tasks may change the world; a step is what it does at once.
pub mod Limit
use mathlib.Core.Option
use dev.Prelude.{
  Text, txt, ℕ, zero, suc, ◌/◌, ◌-◌, ◌^◌, Option, none, some, List, [], ◌∷◌, ◌++◌, Bool, true,
  false, ◌==◌, ltb, leb, if◌then◌else◌,
}
use dev.Error.{Result, ok, err, panic}
use dev.Map.{Map, get, insert, modify, map_values}
use dev.Config.{
  ServiceDef, DevConfig, Duration, from_secs, RestartConfig, OnFailure, restart, stop,
  default_restart, HealthConfig,
}
use dev.Config.Placeholders.{resolve_service_ports}
use dev.State.{ServiceState, running, unhealthy, stopped}
use dev.Supervisor.{
  Supervisor, ServiceHandle, Child, process, dummy, Os, Run, after, ◌>>=◌, ◌>>◌, pure, world, note,
  ask, emit, set_handles, stand_in, state_changed, slept, armed_monitor,
}
use dev.Supervisor.Spawn.{spawn_process}
use dev.Supervisor.Start.{set_route, runtime_ports}
use dev.Supervisor.Fleet.{is_stopped}

-- Where the task stands, with its `restart_count`: at the top of its loop, at the wait for the
-- child, in the backoff, or behind its loop.
pub data Recovery : Type 0 where
  looping : (restart_count : ℕ) → Recovery
  awaiting : (restart_count : ℕ) → Child → Recovery
  backing_off : (restart_count : ℕ) → Duration → Recovery
  finished : Recovery

-- `matches!(h.state, Running | Unhealthy)`
abbrev pub is_live : ServiceState → Bool
is_live (running pid since) = true
is_live (unhealthy pid failures) = true
is_live _ = false

abbrev pub take_out : ServiceHandle → ServiceHandle
take_out h = record h { child = dummy }

-- The child is taken out of a live handle.
abbrev pub take_from : Os → Text → ℕ → Option ServiceHandle → Run Recovery
take_from os name count none = pure finished
take_from os name count (some h) =
    if is_live h.state
    then (do
      stand_in os
      w ← world
      set_handles (modify name take_out w.handles)
      pure (awaiting count h.child))
    else pure finished

unfoldable pub take_child : Os → Text → ℕ → Run Recovery
take_child os name count = do w ← world; take_from os name count (get name w.handles)

abbrev pub min : ℕ → ℕ → ℕ
min a b = if leb a b then a else b

abbrev pub max : ℕ → ℕ → ℕ
max a b = if leb a b then b else a

-- `base.saturating_pow(restart_count).min(max_backoff)`, in whole seconds of a `u64`
abbrev pub backoff_of : RestartConfig → ℕ → Duration
backoff_of policy count =
    from_secs
      (min (min (max (policy.backoff / 1000) 1 ^ count) (2 ^ 64 - 1)) (policy.max_backoff / 1000))

abbrev pub policy_of : Option ServiceDef → RestartConfig
policy_of none = default_restart
policy_of (some svc) = svc.restart

-- The exit of a process that nobody stopped.
unfoldable pub crashed : Text → ℕ → RestartConfig → OnFailure → Run Recovery
crashed name count policy stop = do emit (state_changed name (txt "failed")); pure finished
crashed name count policy restart =
    if ltb policy.max_restarts (suc count)
    then (do emit (state_changed name (txt "failed")); pure finished)
    else (do
      emit (state_changed name (txt "restarting"))
      pure (backing_off (suc count) (backoff_of policy (suc count))))

abbrev pub exit_of : Text → ℕ → RestartConfig → Option ServiceHandle → Run Recovery
exit_of name count policy none = pure finished
exit_of name count policy (some h) =
    if is_stopped h.state then pure finished else crashed name count policy policy.on_failure

-- The child has exited.
unfoldable pub child_exited : Text → ℕ → Run Recovery
unfolding crashed
child_exited name count = do
  w ← world
  exit_of name count (policy_of (get name w.config.service)) (get name w.handles)

-- `map.get(&svc_name).map(|h| h.restart_count).unwrap_or(0)`
abbrev pub restarts_of : Option ServiceHandle → ℕ
restarts_of none = 0
restarts_of (some h) = h.restart_count

abbrev pub revived : ℕ → ℕ → ℕ → ℕ → ℕ → ServiceHandle
revived pid since color_idx port count = record {
  child = process pid;
  state = running pid since;
  color_idx = color_idx;
  port = port;
  watcher_stop = none;
  restart_count = count;
}

-- `if let Some(..) = health_info { run_health_monitor(..) }`
abbrev pub rearm : Text → Option HealthConfig → Run (Unit {0})
rearm name none = pure tt
rearm name (some health) = note (armed_monitor name)

-- The process runs again; `restart_count = 0`.
unfoldable pub revive : Os → Text → ℕ → Option HealthConfig → ServiceDef → ℕ → ℕ → Run Recovery
revive os name color_idx health svc port pid = do
  set_route svc.subdomain port
  since ← ask os.now
  w ← world
  set_handles (
      insert name (revived pid since color_idx port (suc (restarts_of (get name w.handles))))
        w.handles)
  emit (state_changed name (txt "running"))
  rearm name health
  pure (looping 0)

-- An error of the spawn ends the loop; a panic ends the task.
abbrev pub spawn_result : (ℕ → Run Recovery) → Result ℕ × Supervisor → Result Recovery × Supervisor
spawn_result next (ok pid, w) = next pid w
spawn_result next (err e, w) = (ok finished, w)
spawn_result next (panic p, w) = (panic p, w)

abbrev pub respawn_as : Os → Text → ℕ → ℕ → Option HealthConfig → Option ServiceDef → Run Recovery
respawn_as os name color_idx assigned_port health none = pure finished
respawn_as os name color_idx assigned_port health (some svc) =
    let port = if ltb 0 assigned_port then assigned_port else svc.port in
    λ w.
      spawn_result (revive os name color_idx health svc port)
        (spawn_process os name (resolve_service_ports svc (runtime_ports w)) port color_idx w)

-- The backoff is over.
unfoldable pub respawn : Os → Text → ℕ → ℕ → Option HealthConfig → Run Recovery
unfolding revive
respawn os name color_idx assigned_port health = do
  w ← world
  respawn_as os name color_idx assigned_port health (get name w.config.service)

-- The step of the task from where it stands.
unfoldable pub recover : Os → Text → ℕ → ℕ → Option HealthConfig → Recovery → Run Recovery
recover os name color_idx assigned_port health (looping count) = take_child os name count
recover os name color_idx assigned_port health (awaiting count child) = child_exited name count
recover os name color_idx assigned_port health (backing_off count delay) =
    respawn os name color_idx assigned_port health
recover os name color_idx assigned_port health finished = pure finished
