-- ===== src/Supervisor/Watch.antt =====
-- `spawn_file_watcher` (src/supervisor/mod.rs): what a file change does to its service.
use dev.Prelude.{Text, txt, ℕ, Option, none, some}
use dev.Error.{Result, ok, err, panic}
use dev.Map.{get, insert, modify}
use dev.Config.{ServiceDef}
use dev.State.{running, stopped}
use dev.Supervisor.{
  Supervisor, ServiceHandle, process, Os, Run, ◌>>=◌, ◌>>◌, pure, world, note, ask, emit,
  set_handles, state_changed, killed,
}
use dev.Supervisor.Spawn.{spawn_process}

abbrev pub mark_stopped : ServiceHandle → ServiceHandle
mark_stopped h = record h { state = stopped }

abbrev pub watched_handle : ℕ → ℕ → ℕ → ℕ → ℕ → ServiceHandle
watched_handle pid since color_idx port stop_tx = record {
  child = process pid;
  state = running pid since;
  color_idx = color_idx;
  port = port;
  watcher_stop = some stop_tx;
  restart_count = 0;
}

-- The result of the spawn; an error is only reported.
abbrev pub watched_spawn :
    Os → Text → ℕ → ℕ → ℕ → Result ℕ × Supervisor → Result (Unit {0}) × Supervisor
watched_spawn os name color_idx port stop_tx (ok pid, w) =
    (do
      since ← ask os.now
      v ← world
      set_handles (insert name (watched_handle pid since color_idx port stop_tx) v.handles)
      emit (state_changed name (txt "running")))
      w
watched_spawn os name color_idx port stop_tx (err e, w) = (ok tt, w)
watched_spawn os name color_idx port stop_tx (panic p, w) = (panic p, w)

abbrev pub respawn_watched : Os → Text → ℕ → ℕ → ℕ → Option ServiceDef → Run (Unit {0})
respawn_watched os name color_idx port stop_tx none = pure tt
respawn_watched os name color_idx port stop_tx (some svc) =
    λ w. watched_spawn os name color_idx port stop_tx (spawn_process os name svc port color_idx w)

abbrev pub changed_handle : Os → Text → ℕ → Option ServiceHandle → Run (Unit {0})
changed_handle os name stop_tx none = pure tt
changed_handle os name stop_tx (some h) = do
  note (killed h.child)
  w ← world
  set_handles (modify name mark_stopped w.handles)
  emit (state_changed name (txt "restarting"))
  respawn_watched os name h.color_idx h.port stop_tx (get name w.config.service)

-- The body of `while let Some(changed_svc) = rx.recv().await`.
unfoldable pub file_changed : Os → Text → ℕ → Run (Unit {0})
file_changed os name stop_tx = do w ← world; changed_handle os name stop_tx (get name w.handles)
