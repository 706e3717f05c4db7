-- ===== src/Supervisor/Spawn.antt =====
-- src/supervisor/spawn.rs: the command line of a service, and its process.
use mathlib.Core.Option
use dev.Prelude.{
  Text, txt, same, test, ℕ, ◌*◌, ◌%◌, ◌^◌, Option, none, some, List, [], ◌∷◌, ◌++◌, Bool, true,
  false, not, ◌&&◌, ◌||◌, ◌==◌, if◌then◌else◌,
}
use dev.Prelude.Counts.{contains}
use dev.Error.{process, out_of_bounds}
use dev.Map.{Map, insert}
use dev.Strings.{join_path}
use dev.Strings.Decimal.{to_string}
use dev.Config.{ServiceDef}
use dev.Supervisor.{
  Os, Run, ◌>>=◌, ◌>>◌, pure, fail, fault, world, note, ask, HookStatus, hook_failed, hook_exited,
  hook_success, SpawnStatus, spawn_failed, spawn_success, ran_hook, spawned, attached, teed,
}

-- `if !current.is_empty() { args.push(current) }`, before the arguments that follow
abbrev pub flush : Text → List Text → List Text
flush [] args = args
flush (c ∷ current) args = (c ∷ current) ∷ args

-- What the loop of `split_cmd` keeps, `args` apart.
pub record Splitter : Type 0 where
  pub current : Text
  pub in_single : Bool
  pub in_double : Bool

-- How the loop takes a character.
pub data Taken : Type 0 where
  escape quote_single quote_double blank literal : Taken

unfoldable pub take_char : ℕ → Bool → Bool → Taken
take_char ch in_single in_double =
    if ch == 92 && not in_single
    then escape
    else if ch == 39 && not in_double
    then quote_single
    else if ch == b'"' && not in_single
    then quote_double
    else if (ch == b' ' || ch == 9) && (not in_single && not in_double)
    then blank
    else literal

-- The loop of `split_cmd` from a state: the arguments that are still to come. `escaped_next` is the
-- inner `chars.next()` behind a backslash.
unfoldable pub split_loop : (escaped_next : Bool) → Splitter → Text → List Text
unfolding take_char
split_loop escaped_next st [] = flush st.current []
split_loop true st (ch ∷ s) = split_loop false (record st { current = st.current ++ ch ∷ [] }) s
split_loop false st (ch ∷ s) = elim (take_char ch st.in_single st.in_double) [
  | escape ↦ split_loop true st s
  | quote_single ↦ split_loop false (record st { in_single = not st.in_single }) s
  | quote_double ↦ split_loop false (record st { in_double = not st.in_double }) s
  | blank ↦ flush st.current (split_loop false (record st { current = [] }) s)
  | literal ↦ split_loop false (record st { current = st.current ++ ch ∷ [] }) s
]

unfoldable pub split_cmd : Text → List Text
unfolding split_loop
split_cmd cmd = split_loop false (record { current = []; in_single = false; in_double = false }) cmd

abbrev pub direct : List Text
direct =
    txt "vite"
    ∷ txt "next"
    ∷ txt "astro"
    ∷ txt "nuxt"
    ∷ txt "remix"
    ∷ txt "svelte-kit"
    ∷ txt "wrangler"
    ∷ []

abbrev pub runners : List Text
runners = txt "npx" ∷ txt "pnpm" ∷ txt "yarn" ∷ txt "bunx" ∷ []

-- `parts.get(n).map(|s| s.as_str()).unwrap_or("")` for the first three
abbrev pub part : List Text → Text
part [] = []
part (p ∷ parts) = p

abbrev pub behind : List Text → List Text
behind [] = []
behind (p ∷ parts) = parts

abbrev pub is : Text → Text → Bool
is a b = test (same a b)

unfoldable pub framework : List Text → Text
unfolding contains
framework parts =
    let program = part parts in
    let second = part (behind parts) in
    if contains direct program
    then program
    else if contains runners program
    then (if is second (txt "exec") || (is second (txt "run") || is second (txt "dlx"))
        then part (behind (behind parts))
        else second)
    else []

unfoldable pub framework_port_args : List Text → ℕ → List Text
unfolding framework
framework_port_args parts port =
    if contains direct (framework parts) then txt "--port" ∷ to_string port ∷ [] else []

abbrev pub hook_outcome : Text → HookStatus → Run (Unit {0})
hook_outcome name (hook_failed e) = fail (process name (name ++ (txt " hook: " ++ e)))
hook_outcome name (hook_exited status) =
    fail (process name (name ++ (txt " hook exited with " ++ status)))
hook_outcome name hook_success = pure tt

-- `run_hook`: an empty command makes `parts[1..]` panic.
unfoldable pub run_hook : Os → Text → ServiceDef → Text → Run (Unit {0})
run_hook os hook svc name = elim (split_cmd hook) [
  | [] ↦ fault out_of_bounds
  | program ∷ args ↦ (do
    note (ran_hook name program args svc.env svc.dir)
    status ← ask os.hook
    hook_outcome name status)
]

-- A hook that may be absent.
abbrev pub optional_hook : Os → Option Text → ServiceDef → Text → Run (Unit {0})
optional_hook os none svc name = pure tt
optional_hook os (some hook) svc name = run_hook os hook svc name

-- `log.register_log_file`; the byte count is a `u64`.
abbrev pub tee : Option Text → ServiceDef → Text → Run (Unit {0})
tee none svc name = pure tt
tee (some path) svc name = do
  w ← world
  note (teed name (join_path w.config_dir path) (svc.log_rotate_mb * 1024 * 1024 % 2 ^ 64))

abbrev pub spawn_outcome : Text → ℕ → ServiceDef → SpawnStatus → Run ℕ
spawn_outcome name color_idx svc (spawn_failed msg) = fail (process name msg)
spawn_outcome name color_idx svc (spawn_success id) = do
  note (attached name color_idx)
  tee svc.log_file svc name
  pure (Option.get_or id 0)

-- The environment of the process: `.envs(env).env("PORT", ..).env("HOST", ..)`.
abbrev pub process_env : Map Text → ℕ → Map Text
process_env env port =
    insert (txt "HOST") (txt "127.0.0.1") (insert (txt "PORT") (to_string port) env)

-- `spawn_process`: the pid of the new process.
unfoldable pub spawn_process : Os → Text → ServiceDef → ℕ → ℕ → Run ℕ
spawn_process os name svc port color_idx = do
  optional_hook os svc.pre_start svc name
  elim (split_cmd svc.cmd) [
    | [] ↦ fault out_of_bounds
    | program ∷ args ↦ (do
      note (
          spawned name program (args ++ framework_port_args (program ∷ args) port)
            (process_env svc.env port) svc.dir)
      status ← ask os.spawn
      spawn_outcome name color_idx svc status)
  ]
