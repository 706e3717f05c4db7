-- ===== src/Cli/Process.antt =====
-- The commands of src/main.rs that run another program: `run`, `exec`, `port-forward`, the a3s tools,
-- and the daemon that `up --detach` starts. The result of the first two is the program to run, with
-- its arguments, environment and directory; running it ends the process, or is an error.
pub mod Env
use mathlib.Core.Option
use dev.Prelude.{
  Text, txt, ℕ, Option, none, some, List, [], ◌∷◌, ◌++◌, map, Bool, true, false, ◌||◌, not, ◌==◌,
  ltb, if◌then◌else◌, test, same,
}
use dev.Error.{Result, ok, err, panic, config, process, out_of_bounds, ◌>>=◌}
use dev.Map.{Map, get, or_insert, extend, contains_key}
use dev.Strings.{split_at, has_char}
use dev.Strings.Decimal.{to_string, parse_u64, Parsed, parsed, failed}
use dev.Config.{ServiceDef, DevConfig}
use dev.Supervisor.Status.{StatusRow}
use dev.K8s.{Command}
use dev.K8s.Client.{command_of, context_args}

pub record Program : Type 0 where
  pub program : Text
  pub args : List Text
  pub env : Map Text
  pub dir : Option Text

-- `&cmd[0]` and `&cmd[1..]`
abbrev pub program_of : List Text → Map Text → Option Text → Result Program
program_of [] env dir = panic out_of_bounds
program_of (program ∷ args) env dir =
    ok (record { program = program; args = args; env = env; dir = dir })

abbrev pub lookup_service : Text → Option ServiceDef → Result ServiceDef
lookup_service name none = err (config (txt "unknown service '" ++ (name ++ txt "'")))
lookup_service name (some svc) = ok svc

-- The environments of the services that are not disabled; a later one wins.
unfoldable pub merged_env : Map Text → Map ServiceDef → Map Text
unfolding extend
merged_env env [] = env
merged_env env ((name, svc) ∷ services) =
    let with = merged_env (extend env svc.env) services in
    let without = merged_env env services in if svc.disabled then without else with

-- `name.to_uppercase().replace(['-', '.'], "_")`; the upper case is Unicode's, a parameter.
abbrev pub underscored : ℕ → ℕ
underscored c = if c == b'-' || c == b'.' then b'_' else c

abbrev pub port_key : (Text → Text) → Text → Text
port_key to_uppercase name = txt "PORT_" ++ map underscored (to_uppercase name)

unfoldable pub inject_ports : (Text → Text) → List StatusRow → Map Text → Map Text
unfolding or_insert
inject_ports to_uppercase [] env = env
inject_ports to_uppercase (row ∷ rows) env = inject_ports to_uppercase rows (
    if not (row.port == 0)
    then or_insert (port_key to_uppercase row.name) (to_string row.port) env
    else env)

-- The rows of the daemon's answer, if there is one
abbrev pub with_ports : (Text → Text) → Option (List StatusRow) → Map Text → Map Text
with_ports to_uppercase none env = env
with_ports to_uppercase (some rows) env = inject_ports to_uppercase rows env

abbrev pub run_env : DevConfig → Option Text → Result (Map Text)
run_env cfg none = ok (merged_env [] cfg.service)
run_env cfg (some name) = do svc ← lookup_service name (get name cfg.service); ok svc.env

unfoldable pub run_command :
    (Text → Text) → DevConfig → Option (List StatusRow) → Option Text → List Text → Result Program
unfolding merged_env inject_ports get
run_command to_uppercase cfg rows service cmd = do
  env ← run_env cfg service
  program_of cmd (with_ports to_uppercase rows env) none

unfoldable pub exec_command :
    (Text → Text) → DevConfig → Option (List StatusRow) → Text → List Text → Result Program
unfolding inject_ports get
exec_command to_uppercase cfg rows service cmd = do
  svc ← lookup_service service (get service cfg.service)
  program_of cmd (with_ports to_uppercase rows svc.env) svc.dir

-- `s.parse::<u16>()`, whatever the error
abbrev pub u16_of : Parsed → Option ℕ
u16_of (parsed n) = if ltb n 65536 then some n else none
u16_of (failed e) = none

abbrev pub port_or_error : Text → Text → Result ℕ
port_or_error what s = elim (u16_of (parse_u64 s)) [
  | none ↦ err (config (what ++ s))
  | some n ↦ ok n
]

-- `ports.split(':')` with exactly two parts
abbrev pub two_parts : Text → Result (Text × Text)
two_parts ports =
    let (a, b) = split_at b':' ports in
    if not (has_char b':' ports) || has_char b':' b
    then err (
        config (
          txt "invalid port mapping '"
          ++ (ports ++ txt "', expected format: <local-port>:<remote-port>")))
    else ok (a, b)

abbrev pub forward_args : DevConfig → Text → ℕ → ℕ → Command
forward_args cfg service local_port remote_port = command_of (txt "kubectl") (
    txt "port-forward"
    ∷ (txt "deployment/" ++ service)
    ∷ (to_string local_port ++ (txt ":" ++ to_string remote_port))
    ∷ txt "-n"
    ∷ cfg.dev.k8s_namespace
    ∷ context_args cfg.dev.k8s_context)

abbrev pub declared_or : DevConfig → Text → Command → Result Command
declared_or cfg service c =
    if contains_key service cfg.service
    then ok c
    else err (config (txt "service '" ++ (service ++ txt "' not found in A3sfile.hcl")))

-- `port-forward`, up to the command that it runs
unfoldable pub port_forward : DevConfig → Text → Text → Result Command
port_forward cfg service ports =
    if not (test (same cfg.dev.runtime (txt "k8s")))
    then err (
        config
          (txt "port-forward is only available in k8s mode (set runtime = \"k8s\" in A3sfile.hcl)"))
    else (do
      parts ← two_parts ports
      local_port ← port_or_error (txt "invalid local port: ") parts.0
      remote_port ← port_or_error (txt "invalid remote port: ") parts.1
      declared_or cfg service (forward_args cfg service local_port remote_port))

abbrev pub is_alias : Text → Text → Bool
is_alias a b = test (same a b)

unfoldable pub ecosystem_tool : Text → Option (Text × Text × Text)
ecosystem_tool alias =
    if is_alias alias (txt "box")
    then some (txt "a3s-box", txt "A3S-Lab", txt "Box")
    else if is_alias alias (txt "gateway")
    then some (txt "a3s-gateway", txt "A3S-Lab", txt "Gateway")
    else if is_alias alias (txt "power")
    then some (txt "a3s-power", txt "A3S-Lab", txt "Power")
    else none

abbrev pub installed : Text → Option Text → Result (Unit {0})
installed binary none = ok tt
installed binary (some e) = err (config (txt "failed to install " ++ (binary ++ (txt ": " ++ e))))

-- `which` finds a binary; `update` installs it, with the error's text; both are of the system.
abbrev pub run_tool :
    (Text → Bool)
    → (Text × Text × Text → Option Text)
    → Text
    → List Text
    → Option (Text × Text × Text)
    → Result Program
run_tool which update alias args none =
    err
      (config (txt "unknown tool '" ++ (alias ++ txt "' — run `a3s list` to see available tools")))
run_tool which update alias args (some (binary, owner, repo)) = do
  done ← if which binary then ok tt else installed binary (update (binary, owner, repo))
  program_of (binary ∷ args) [] none

unfoldable pub proxy_tool :
    (Text → Bool) → (Text × Text × Text → Option Text) → Text → List Text → Result Program
unfolding ecosystem_tool
proxy_tool which update alias args = run_tool which update alias args (ecosystem_tool alias)

abbrev pub default_ui_port : ℕ
default_ui_port = 10350

abbrev pub label_args : List Text → List Text
label_args [] = []
label_args (l ∷ label) = txt "--label" ∷ l ∷ label_args label

abbrev pub env_args : Option Text → List Text
env_args none = []
env_args (some e) = txt "--env" ∷ e ∷ []

-- The arguments of the daemon that `up --detach` starts
unfoldable pub detach_args : Text → Bool → ℕ → Option Text → List Text → List Text → List Text
detach_args file no_ui ui_port env label services =
    txt "--file"
    ∷ file
    ∷ txt "up"
    ∷ ((if no_ui then txt "--no-ui" ∷ [] else [])
        ++ ((if not (ui_port == default_ui_port)
              then txt "--ui-port" ∷ to_string ui_port ∷ []
              else [])
            ++ (env_args env ++ (label_args label ++ services))))
