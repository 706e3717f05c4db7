-- ===== src/Ipc/Server.antt =====
-- src/supervisor/ipc.rs: the daemon's side of a connection. The lines of a client are parsed by a
-- library, and the answers are written as long as the client reads them.
use dev.Prelude.{
  Text, txt, ℕ, Option, List, [], ◌∷◌, ◌++◌, map, Bool, true, false, ◌≡◌, ◌⊎◌, inl, inr,
  if◌then◌else◌, ◌||◌,
}
use dev.Prelude.Counts.{contains}
use dev.Error.{
  Result, ok, err, panic, DevError, config, io, process, cycle, unknown_service, port_conflict,
}
use dev.Strings.Decimal.{to_string}
use dev.Config.{ServiceDef}
use dev.Config.Load.{Disk, from_file_with_env}
use dev.Log.{LogLine, recent, is_empty}
use dev.Supervisor.{Supervisor, Os, Run, ◌>>=◌, pure, world}
use dev.Supervisor.Fleet.{stop_all, stop_named, restart_service, lift}
use dev.Supervisor.Reload.{ReloadSummary, reload}
use dev.Supervisor.Status.{status_rows}
use dev.Ipc.{
  IpcRequest, status, stop, restart, logs, history, IpcResponse, status_answer, done, error,
  log_line, reloaded, stopped_answer,
}
use dev.Ipc as Ipc

-- `e.to_string()`
unfoldable pub display : DevError → Text
display (config msg) = txt "config error: " ++ msg
display (io msg) = txt "io error: " ++ msg
display (process service msg) = txt "process error for '" ++ (service ++ (txt "': " ++ msg))
display (cycle names) = txt "dependency cycle detected involving: " ++ names
display (unknown_service name) = txt "unknown service: '" ++ (name ++ txt "'")
display (port_conflict a b port) =
    txt "port conflict: services '"
    ++ (a ++ (txt "' and '" ++ (b ++ (txt "' both use port " ++ to_string port))))

-- What a subscriber of the log gets: a line, the news that it lost some, or the end.
pub data Received : Type 0 where
  entry : LogLine → Received
  lagged closed : Received

-- What the daemon knows besides the supervisor: the system, the configuration's place, and the log.
pub record Daemon : Type 0 where
  pub os : Os
  pub disk : Disk
  pub same_service : (a b : ServiceDef) → Dec (a ≡ b)
  pub config_path : Text
  pub base_dir : Text
  pub env_name : Option Text
  pub now : Supervisor → ℕ
  pub log_history : List LogLine
  pub received : List Received

unfoldable pub reload_from_disk : Daemon → Run ReloadSummary
reload_from_disk d = do
  new_cfg ← lift (from_file_with_env d.disk d.config_path d.base_dir d.env_name)
  reload d.same_service d.os new_cfg

abbrev pub line_answer : LogLine → IpcResponse
line_answer l = log_line l.service l.line l.color_idx

-- The loop of `Logs`: without `follow` it ends after one turn.
unfoldable pub stream : List Text → Bool → List Received → List IpcResponse
unfolding contains
stream services follow [] = []
stream services follow (closed ∷ rs) = []
stream services follow (lagged ∷ rs) =
    let rest = stream services follow rs in if follow then rest else []
stream services follow (entry l ∷ rs) =
    let rest = stream services follow rs in
    let next = if follow then rest else [] in
    if is_empty services || contains services l.service then line_answer l ∷ next else next

-- `match f().await { Ok(a) => .., Err(e) => IpcResponse::Error { msg: e.to_string() } }`
abbrev pub answered {ℓ} :
    {A : Type ℓ} → (A → IpcResponse) → Result A × Supervisor → Result IpcResponse × Supervisor
answered answer (ok a, w) = (ok (answer a), w)
answered answer (err e, w) = (ok (error (display e)), w)
answered answer (panic p, w) = (panic p, w)

abbrev pub summary_answer : ReloadSummary → IpcResponse
summary_answer s = reloaded s.started s.stopped s.restarted

abbrev pub stop_services : Daemon → List Text → Run (List Text)
stop_services d services = if is_empty services then stop_all d.os else stop_named d.os services

-- The answers to a request, and whether the connection stays open.
unfoldable pub answer : Daemon → IpcRequest → Run (List IpcResponse × Bool)
unfolding display stream recent
answer d status = do w ← world; pure (status_answer (status_rows (d.now w) w) ∷ [], true)
answer d (stop services) = do
  names ← stop_services d services
  pure (stopped_answer names ∷ [], true)
answer d (restart service) = do
  a ← λ w. answered (λ _. done) (restart_service d.os service w)
  pure (a ∷ [], true)
answer d (logs services follow) = pure (stream services follow d.received, true)
answer d Ipc.reload = do
  a ← λ w. answered summary_answer (reload_from_disk d w)
  pure (a ∷ [], true)
answer d (history services lines) =
    pure (map line_answer (recent d.log_history services lines), false)

-- One connection: the lines of the client, each a request or the parser's error.
unfoldable pub session : Daemon → List (IpcRequest ⊎ Text) → Run (List IpcResponse)
unfolding answer
session d [] = pure []
session d (inr e ∷ lines) = do
  answers ← session d lines
  pure (error (txt "bad request: " ++ e) ∷ answers)
session d (inl request ∷ lines) = do
  reply ← answer d request
  answers ← if reply.1 then session d lines else pure []
  pure (reply.0 ++ answers)
