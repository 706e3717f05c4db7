-- ===== src/Supervisor/Stop.antt =====
-- `Supervisor::stop_service` (src/supervisor/mod.rs).
pub mod Laws
use mathlib.Core.Option
use dev.Prelude.{Text, txt, ℕ, Option, none, some, List, [], ◌∷◌, ◌++◌}
use dev.Error.{Result, ok, err, panic}
use dev.Map.{Map, get, modify}
use dev.Config.{ServiceDef, DevConfig, Duration, from_secs}
use dev.State.{ServiceState, stopped, state_pid}
use dev.Supervisor.{
  Supervisor, ServiceHandle, Child, dummy, Os, Run, after, ◌>>=◌, ◌>>◌, pure, world, note, emit,
  set_handles, stand_in, state_changed, sigterm, sigkill, signalled, waited, killed,
  stopped_watcher,
}
use dev.Supervisor.Spawn.{optional_hook}

-- What the write lock leaves: the real child is taken out, the state is `Stopped`.
abbrev pub halt : ServiceHandle → ServiceHandle
halt h = record h { child = dummy; state = stopped }

-- `let _ = stop_tx.send(())`
abbrev pub stop_watcher : Option ℕ → Run (Unit {0})
stop_watcher none = pure tt
stop_watcher (some id) = note (stopped_watcher id)

-- `SIGTERM`, the wait with its timeout, and `SIGKILL`, all to the process group
abbrev pub terminate : Option ℕ → Child → Duration → Run (Unit {0})
terminate none child stop_timeout = pure tt
terminate (some pid) child stop_timeout = do
  note (signalled pid sigterm)
  note (waited child stop_timeout)
  note (signalled pid sigkill)

-- An error is only reported; a panic goes on.
abbrev pub warned : Result (Unit {0}) × Supervisor → Result (Unit {0}) × Supervisor
warned (err e, w) = (ok tt, w)
warned (ok u, w) = (ok u, w)
warned (panic p, w) = (panic p, w)

abbrev pub post_stop : Os → Text → Option ServiceDef → Run (Unit {0})
post_stop os name none = pure tt
post_stop os name (some svc) = λ w. warned (optional_hook os svc.post_stop svc name w)

-- `svc_def.map(|s| s.stop_timeout).unwrap_or(5s)`
abbrev pub stop_timeout_of : Option ServiceDef → Duration
stop_timeout_of none = from_secs 5
stop_timeout_of (some svc) = svc.stop_timeout

unfoldable pub stop_known : Os → Text → Option ServiceDef → ServiceHandle → Run (Unit {0})
stop_known os name svc_def h = do
  stop_watcher h.watcher_stop
  stand_in os
  w ← world
  set_handles (modify name halt w.handles)
  emit (state_changed name (txt "stopped"))
  terminate (state_pid h.state) h.child (stop_timeout_of svc_def)
  note (killed h.child)
  post_stop os name svc_def

abbrev pub stop_found : Os → Text → Option ServiceDef → Option ServiceHandle → Run (Unit {0})
stop_found os name svc_def none = emit (state_changed name (txt "stopped"))
stop_found os name svc_def (some h) = stop_known os name svc_def h

unfoldable pub stop_service : Os → Text → Run (Unit {0})
stop_service os name = do
  w ← world
  stop_found os name (get name w.config.service) (get name w.handles)
