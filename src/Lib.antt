-- ===== src/Lib.antt =====
-- The local development orchestrator: services that a file `A3sfile.hcl` describes are started in
-- the order of their dependencies, watched, restarted and stopped.
--
-- The parts and their files (paths from the repository's root):
-- - src/error.rs and src/state.rs: Error and State. A panic of the program is a result of its own.
-- - src/config.rs: Config holds the records. Config/Validate is `validate`, Config/Durations is
--   `parse_duration`, Config/EnvFunc is `expand_env_func`, and Config/Placeholders has
--   `interpolate_env_vars`, `interpolate_service_ports`, `resolve_service_ports` and
--   `apply_interpolation`. Config/Load is `parse_env_file`, the environment files, `apply_env_override`
--   and `from_file_with_env`. Strings has what they use of the standard library, on lists of characters.
-- - src/log.rs: Log has the history of lines and `recent`.
-- - src/graph.rs: Graph is `DependencyGraph` with `from_config` and the plans for named services; its
--   children hold the proofs: the tables (Edges, Sums), the loops (Release, Waves), the result
--   (Correct, Accept) and the plans (Worklist, Plans).
-- - src/supervisor/spawn.rs: Supervisor/Spawn.
-- - src/supervisor/mod.rs: Supervisor holds the state and the effects; Start and Stop are
--   `start_service` and `stop_service`; Fleet has `start_all`, `start_named`, `stop_all`, `stop_named`
--   and `restart_service`; Recovery, Monitor and Watch are the background tasks; Reload and Status
--   are `reload` and `status_rows`. `wait_healthy` of src/health.rs stands in Start, and `StatusRow`
--   of src/ipc.rs in Status.
-- The supervisor asks the graph for its orders, resolves the placeholders of a service with Config,
-- and spawns it with Spawn.
--
-- How the code is modelled: a map (`HashMap`, `IndexMap`) is a list of pairs in the order of
-- insertion; that the keys of a configuration are unique, which `IndexMap` guarantees, is a
-- hypothesis `UniqueKeys` where it is needed. An operation of the supervisor is a function from its
-- state to a result and a state; what it does outside, such as signals, processes and events, is
-- added to a list of effects. The operating system is a parameter `Os`, whose answers may depend on
-- all effects so far; theorems on stops assume of it that `true`, which takes the place of a child
-- in its handle, can always be spawned, since the program panics where it cannot. A task of the
-- background is a state machine, and between two of its steps the state may become any other one.
-- The tasks of one wave run one after the other; how they interleave within a wave is not modelled.
--
-- Fuel: `run_waves` takes one round per declared service and `transitive_closure` one per name asked
-- for and per edge; that this is enough is part of the theorems on them. `expand_env_func` and the
-- interpolations take one round per character.
--
-- The file system and the HCL parser are the parameter `Disk` of the loading.
--
-- - src/ipc.rs and src/supervisor/ipc.rs: Ipc has the socket's path, the requests and the answers,
--   Ipc/Server a connection of the daemon, which calls the supervisor.
-- - src/proxy.rs: Proxy has the table of routes and the handling of a request. src/watcher.rs: Watcher
--   is the loop of a watcher's thread.
-- - src/k8s/: K8s/Client is the client of kubectl, docker and helm, K8s/Manifest the generated YAML,
--   and K8s/Runtime deploys and stops a service with them. The state is the list of the commands that
--   were run and the manifests that are kept; what a command does is a parameter `Shell`, which sees
--   all commands so far. K8s/Runs and K8s/References hold lemmas on them.
-- - src/main.rs: Cli/Targets has the services that a command is about, Cli/Kube the Kubernetes mode,
--   Cli/Waits the wait of `up --detach --wait`, Cli/Strict `validate`, Cli/Process the commands that
--   run another program, and Cli/Texts what is printed of times and colors.
-- - src/box_mgr.rs: Box. src/ui.rs: Ui/Routes routes a request, and Ui calls the supervisor and Box;
--   Ui/Decode has its encoded names. The log files of src/log.rs are Log/Files, where a flush can fail.
-- - src/cert.rs: Cert has the files of the certificate, whose making is a parameter.
-- Steps is the state monad of the supervisor and of the cluster.
--
-- More fuel: `wait_for_healthy` takes one round per turn of its loops; each turn takes time, so more
-- rounds than the timeout has milliseconds are enough, which its theorem shows.
--
-- Not modelled: the defaults that the HCL deserializer fills in, the channel of src/log.rs, the
-- listeners of the proxy, the daemon and the page, JSON and HTTP, which libraries do, the output, `top`,
-- `list`, `update` and the streaming of logs in src/main.rs, the page itself (src/ui.html), and the
-- making of a certificate in src/cert.rs, which are output, glue or calls of other programs.
pub mod Prelude
pub mod Error
pub mod Map
pub mod Strings
pub mod State
pub mod Steps
pub mod Log
pub mod Config
pub mod Graph
pub mod Supervisor
pub mod Ipc
pub mod Proxy
pub mod Watcher
pub mod K8s
pub mod Cli
pub mod Box
pub mod Ui
pub mod Cert
pub mod Tests
