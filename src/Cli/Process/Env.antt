-- ===== src/Cli/Process/Env.antt =====
-- The environments that `run` and `exec` give a program.

use dev.Prelude.{
  Text, Option, none, some, List, [], ◌∷◌, not, ◌==◌, ◌≡◌, ◌∙◌, ap, refl, ite, same, arith,
  if◌then◌else◌,
}
use dev.Error.{ok}
use dev.Map.{Map, get, or_else, or_insert, extend}
use dev.Map.Laws.{or_else-none, get-or_insert, get-extend, UniqueKeys}
use dev.Strings.Decimal.{to_string}
use dev.Config.{ServiceDef, DevConfig}
use dev.Supervisor.Status.{StatusRow}
use dev.Cli.Process.{Program, port_key, inject_ports, merged_env, run_command}

module _ (to_uppercase : Text → Text) where
  -- The port of the first row with a port whose variable is `k`.
  unfoldable pub port_value : Text → List StatusRow → Option Text
  port_value k [] = none
  port_value k (row ∷ rows) =
      or_else
        (if not (row.port == 0)
          then ite (same (port_key to_uppercase row.name) k) (some (to_string row.port)) none
          else none)
        (port_value k rows)

  pub inject_ports-get :
      (rows : List StatusRow) (env : Map Text) (k : Text)
      → get k (inject_ports to_uppercase rows env) ≡ or_else (get k env) (port_value k rows)
  unfolding inject_ports port_value
  inject_ports-get [] env k = ground arith
  inject_ports-get (row ∷ rows) env k = ground (
    arith,
    inject_ports-get rows
        (if not (row.port == 0)
          then or_insert (port_key to_uppercase row.name) (to_string row.port) env
          else env)
        k,
    get-or_insert (port_key to_uppercase row.name) k (to_string row.port) env,
  )

-- The value of `k` in the last enabled service that has one.
unfoldable pub last_env : Text → Map ServiceDef → Option Text
last_env k [] = none
last_env k ((name, svc) ∷ services) =
    or_else (last_env k services) (if svc.disabled then none else get k svc.env)

abbrev pub EnvsUnique : Map ServiceDef → Type 0
EnvsUnique [] = Unit
EnvsUnique ((name, svc) ∷ services) = UniqueKeys svc.env × EnvsUnique services

pub merged_env-get :
    (services : Map ServiceDef) (env : Map Text) (k : Text)
    → EnvsUnique services
    → get k (merged_env env services) ≡ or_else (last_env k services) (get k env)
unfolding merged_env last_env
merged_env-get [] env k u = refl
merged_env-get ((name, svc) ∷ services) env k u = ground (
  arith,
  merged_env-get services (extend env svc.env) k u.1,
  merged_env-get services env k u.1,
  get-extend k env svc.env u.0,
)

-- Without a service `run` gives the program the environments of the enabled services, of which the
-- last wins; and what these leave open, the port variables of the daemon's rows, of which the first
-- wins.
pub run_command-env :
    (to_uppercase : Text → Text) (cfg : DevConfig) (rows : List StatusRow) (program : Text)
    (args : List Text)
    → EnvsUnique cfg.service
    → (p : Program) × (run_command to_uppercase cfg (some rows) none (program ∷ args) ≡ ok p)
      × ((k : Text)
          → get k p.env ≡ or_else (last_env k cfg.service) (port_value to_uppercase k rows))
unfolding run_command
run_command-env to_uppercase cfg rows program args u = (
  _,
  refl,
  λ k.
      inject_ports-get to_uppercase rows (merged_env [] cfg.service) k
      ∙ ap (λ v. or_else v (port_value to_uppercase k rows))
          (merged_env-get cfg.service [] k u ∙ or_else-none (last_env k cfg.service)),
)
