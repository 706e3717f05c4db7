-- ===== src/Supervisor/Status.antt =====
-- `status_rows` (src/supervisor/mod.rs) and `StatusRow` (src/ipc.rs).
use dev.Prelude.{Text, txt, ℕ, ◌-◌, ◌/◌, Option, none, some, List, [], ◌∷◌, Bool, true, not}
use dev.Map.{Map, get}
use dev.Config.{ServiceDef}
use dev.State.{ServiceState, running, state_pid, label}
use dev.Supervisor.{Supervisor, ServiceHandle}
use dev.Supervisor.Monitor.{is_unhealthy}
use dev.Supervisor.Recovery.{restarts_of}

pub record StatusRow : Type 0 where
  pub name : Text
  pub state : Text
  pub pid : Option ℕ
  pub port : ℕ
  pub subdomain : Option Text
  pub uptime_secs : Option ℕ
  pub proxy_port : ℕ
  pub restart_count : ℕ
  pub healthy : Option Bool

abbrev pub state_label : Option ServiceHandle → Text
state_label none = txt "pending"
state_label (some h) = label h.state

abbrev pub handle_pid : Option ServiceHandle → Option ℕ
handle_pid none = none
handle_pid (some h) = state_pid h.state

-- `since.elapsed().as_secs()` of a running service; instants count milliseconds, and an elapsed time
-- saturates at 0.
abbrev pub uptime : ℕ → ServiceState → Option ℕ
uptime now (running pid since) = some ((now - since) / 1000)
uptime now _ = none

abbrev pub handle_uptime : ℕ → Option ServiceHandle → Option ℕ
handle_uptime now none = none
handle_uptime now (some h) = uptime now h.state

abbrev pub handle_port : ℕ → Option ServiceHandle → ℕ
handle_port port none = port
handle_port port (some h) = h.port

abbrev pub not_unhealthy : Option ServiceHandle → Bool
not_unhealthy none = true
not_unhealthy (some h) = not (is_unhealthy h.state)

unfoldable pub status_row : ℕ → ℕ → Text → ServiceDef → Option ServiceHandle → StatusRow
status_row now proxy_port name svc handle = record {
  name = name;
  state = state_label handle;
  pid = handle_pid handle;
  port = handle_port svc.port handle;
  subdomain = svc.subdomain;
  uptime_secs = handle_uptime now handle;
  proxy_port = proxy_port;
  restart_count = restarts_of handle;
  healthy = elim svc.health [ none ↦ none | some _ ↦ some (not_unhealthy handle) ];
}

unfoldable pub rows_of : ℕ → Supervisor → Map ServiceDef → List StatusRow
unfolding get status_row
rows_of now w [] = []
rows_of now w ((name, svc) ∷ services) =
    status_row now w.config.dev.proxy_port name svc (get name w.handles) ∷ rows_of now w services

unfoldable pub status_rows : ℕ → Supervisor → List StatusRow
unfolding rows_of
status_rows now w = rows_of now w w.config.service
