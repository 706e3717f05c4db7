-- ===== src/Supervisor/Start.antt =====
-- `Supervisor::start_service` (src/supervisor/mod.rs).
pub mod Laws
use mathlib.Core.Option
use dev.Prelude.{
  Text, txt, ℕ, zero, suc, Option, none, some, List, [], ◌∷◌, ◌++◌, Bool, true, false, ◌==◌,
  if◌then◌else◌,
}
use dev.Error.{ok, config, unknown_service}
use dev.Map.{Map, get, insert, modify, map_values}
use dev.Config.{ServiceDef, DevConfig, WatchConfig, HealthConfig}
use dev.Config.Placeholders.{resolve_service_ports}
use dev.State.{ServiceState, running}
use dev.Supervisor.{
  Supervisor, ServiceHandle, Child, process, Os, Run, after, ◌>>=◌, ◌>>◌, pure, fail, world, note,
  ask, emit, set_handles, SupervisorEvent, state_changed, health_change, asked_port, slept, probed,
  armed_recovery, armed_monitor, armed_watcher,
}
use dev.Supervisor.Spawn.{spawn_process}

-- `free_port().ok_or_else(..)?`
abbrev pub assigned : Text → Option ℕ → Run ℕ
assigned name none = fail (config (txt "[" ++ (name ++ txt "] no free port available")))
assigned name (some port) = pure port

-- Port 0 is replaced by a free one.
unfoldable pub choose_port : Os → Text → ServiceDef → Run ℕ
choose_port os name svc =
    if svc.port == 0
    then (do note asked_port; port ← ask os.free_port; assigned name port)
    else pure svc.port

-- `self.proxy.update(sub, port)`
abbrev pub set_route : Option Text → ℕ → Run (Unit {0})
set_route none port w = (ok tt, w)
set_route (some subdomain) port w = (ok tt, record w { routes = insert subdomain port w.routes })

-- The ports of the services that have a handle.
abbrev pub runtime_ports : Supervisor → Map ℕ
runtime_ports w = map_values (λ h. h.port) w.handles

abbrev pub fresh_handle : ℕ → ℕ → ℕ → ℕ → ServiceHandle
fresh_handle pid since color_idx port = record {
  child = process pid;
  state = running pid since;
  color_idx = color_idx;
  port = port;
  watcher_stop = none;
  restart_count = 0;
}

-- From the resolved definition to the inserted handle.
unfoldable pub launch : Os → Text → ServiceDef → ℕ → ℕ → Run (Unit {0})
launch os name svc port color_idx = do
  pid ← spawn_process os name svc port color_idx
  since ← ask os.now
  w ← world
  set_handles (insert name (fresh_handle pid since color_idx port) w.handles)
  emit (state_changed name (txt "running"))

-- `HealthChecker::wait_healthy`
unfoldable pub wait_healthy : Os → Text → ℕ → HealthConfig → ℕ → Run Bool
wait_healthy os name port health zero = pure false
wait_healthy os name port health (suc retries) =
    let again = wait_healthy os name port health retries in
    (do
      note (slept health.interval)
      note (probed name port)
      healthy ← ask os.probe
      if healthy then pure true else again)

-- The wait for the first healthy answer, and the monitor that is started whatever it is.
unfoldable pub watch_health : Os → Text → ℕ → Option HealthConfig → Run (Unit {0})
watch_health os name port none = pure tt
watch_health os name port (some health) = do
  healthy ← wait_healthy os name port health health.retries
  emit (health_change name healthy)
  note (armed_monitor name)

abbrev pub set_watcher : ℕ → ServiceHandle → ServiceHandle
set_watcher id h = record h { watcher_stop = some id }

unfoldable pub watch_files : Os → Text → Option WatchConfig → Run (Unit {0})
watch_files os name none = pure tt
watch_files os name (some watch) =
    if watch.restart
    then (do
      id ← ask os.new_watcher
      note (armed_watcher name watch.paths watch.ignore)
      w ← world
      set_handles (modify name (set_watcher id) w.handles))
    else pure tt

-- `start_service` for a declared service.
unfoldable pub start_known : Os → Text → ℕ → ServiceDef → Run (Unit {0})
unfolding choose_port
start_known os name color_idx svc = do
  emit (state_changed name (txt "starting"))
  port ← choose_port os name svc
  set_route svc.subdomain port
  w ← world
  launch os name (resolve_service_ports svc (insert name port (runtime_ports w))) port color_idx
  note (armed_recovery name)
  watch_health os name port svc.health
  watch_files os name svc.watch

abbrev pub start_found : Os → Text → ℕ → Option ServiceDef → Run (Unit {0})
start_found os name color_idx none = fail (unknown_service name)
start_found os name color_idx (some svc) = start_known os name color_idx svc

unfoldable pub start_service : Os → Text → ℕ → Run (Unit {0})
start_service os name color_idx = do
  w ← world
  start_found os name color_idx (get name w.config.service)
