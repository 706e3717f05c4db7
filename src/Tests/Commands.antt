-- ===== src/Tests/Commands.antt =====
-- The theorems of src/main.rs at work.
use mathlib.Core.Option
use dev.Prelude.{ℕ_discrete, Text, txt, ◌+◌, ◌*◌, none, some, [], ◌∷◌, true, ◌≡◌, inr, arith, leb}
use dev.Prelude.Counts.{count}
use dev.Error.{ok}
use dev.Map.{get, or_else}
use dev.Config.Load.{unreadable, Disk}
use dev.Config.{ServiceDef, HealthKind, OnFailure}
use dev.Supervisor.Status.{StatusRow}
use dev.Ipc.{status_answer}
use dev.Ipc.Server as Server
use dev.Cli.Waits.{wait_for_healthy}
use dev.Cli.Waits as Waits
use dev.Cli.Waits.Settled.{Advances, Ends, Found, wait_for_healthy-Ends}
use dev.Cli.Strict.{Host}
use dev.Cli.Process.{Program, run_command}
use dev.Cli.Process.Env.{EnvsUnique, last_env, port_value, run_command-env}
use dev.Tests.{web, shop, shop_services, calm}

abbrev row : StatusRow
row = record {
  name = web;
  state = txt "running";
  pid = some 7;
  port = 3000;
  subdomain = none;
  uptime_secs = some 1;
  proxy_port = 7080;
  restart_count = 0;
  healthy = none;
}

no_env : EnvsUnique shop_services
unfolding count
no_env = (λ k. omega arith, (λ k. omega arith, tt))

run_command-env_example :
    (p : Program) × (run_command (λ s. s) shop (some (row ∷ [])) none (txt "env" ∷ []) ≡ ok p)
    × ((k : Text)
        → get k p.env ≡ or_else (last_env k shop_services) (port_value (λ s. s) k (row ∷ [])))
run_command-env_example = run_command-env (λ s. s) shop (row ∷ []) (txt "env") [] no_env

abbrev ready : Waits.Daemon
ready = record {
  now = λ k. k * 500;
  exists = λ k. leb 1 k;
  ask = λ k. ok (status_answer (row ∷ []));
}

ready-Advances : Advances ready
ready-Advances = record { later = λ k. omega arith; no_panic = λ k p e. cc }

wait_for_healthy-Ends_example :
    Ends (wait_for_healthy ready 30001 30)
    × (wait_for_healthy ready 30001 30 ≡ ok tt → Found ready (ready.now 0 + 30 * 1000))
wait_for_healthy-Ends_example = wait_for_healthy-Ends ready 30001 30 ready-Advances (omega arith)

abbrev host : Host
host = record {
  exists = λ _. true;
  which_binary = λ _. true;
  port_available = λ port. leb 4000 port;
}

health_kinds : Discrete HealthKind
health_kinds = hlevel

on_failures : Discrete OnFailure
on_failures = hlevel

pub service_discrete : Discrete ServiceDef
service_discrete = hlevel (ℕ_discrete, health_kinds, on_failures)

abbrev no_disk : Disk
no_disk = record { read = λ _. unreadable (txt "none"); os_env = λ _. none; parse = λ s. inr s }

abbrev pub daemon : Server.Daemon
daemon = record {
  os = calm;
  disk = no_disk;
  same_service = service_discrete;
  config_path = txt "A3sfile.hcl";
  base_dir = txt ".";
  env_name = none;
  now = λ _. 100;
  log_history = [];
  received = [];
}
