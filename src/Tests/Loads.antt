-- ===== src/Tests/Loads.antt =====
-- The loading of src/config.rs at a small configuration.
use mathlib.Core.Option
use dev.Prelude.{txt, same, none, some, [], ◌∷◌, ◌≡◌, refl, arith, inl}
use dev.Prelude.Counts.{count}
use dev.Error.{ok}
use dev.Map.{or_else, get, map_values, insert, fill}
use dev.Map.Laws.{UniqueKeys}
use dev.Strings.{join_path, lines, trim, strip_suffix, split_once}
use dev.Config.{ServiceDef, ServiceEnvOverride, EnvOverride, DevConfig, plain_service, config_of}
use dev.Config.Placeholders.{interpolate_env_vars, interpolate_service, apply_interpolation}
use dev.Config.Validate.{validate}
use dev.Config.Load.{
  contents, Disk, dotenv_of, apply_global_dotenv, parse_env_file, complete, resolve_env_files,
  resolve_services, apply_env_override,
}
use dev.Config.Load.Precedence.{file_env, complete-env, apply_env_override-env}
use dev.Tests.{web}

-- A service with an `env`, an `env_file` and a port of its own.
abbrev api : ServiceDef
api = record (plain_service (txt "api") 4000 []) {
  env = (txt "A", txt "1") ∷ [];
  env_file = some (txt "/x");
}

abbrev api_config : DevConfig
api_config = config_of ((web, api) ∷ [])

-- Every file says `A=2` and `B=3`.
abbrev disk : Disk
disk = record {
  read = λ _. contents (txt "A=2\nB = '3'");
  os_env = λ _. none;
  parse = λ _. inl api_config;
}

abbrev loaded_api : DevConfig
loaded_api = apply_interpolation disk.os_env (
    apply_global_dotenv disk (txt ".") (record api_config {
      service = (web, record api { env = fill api.env (parse_env_file (txt "A=2\nB = '3'")) }) ∷ [];
    }))

reads_pairs :
    parse_env_file (txt "# c\nA=2\r\nB = '3'\n") ≡ (txt "A", txt "2") ∷ (txt "B", txt "3") ∷ []
unfolding parse_env_file lines trim strip_suffix same split_once insert
reads_pairs = refl

found_api : get web api_config.service ≡ some api
unfolding get same
found_api = refl

loads : complete disk (txt ".") none api_config ≡ ok loaded_api
unfolding complete resolve_env_files resolve_services validate apply_interpolation map_values
    apply_global_dotenv interpolate_service
loads = refl

complete-env_example :
    (svc' : ServiceDef) × (get web loaded_api.service ≡ some svc')
    × (get (txt "B") svc'.env
        ≡ Option.map (interpolate_env_vars disk.os_env) (
            or_else (get (txt "B") api.env) (
              or_else
                (get (txt "B") (file_env disk (txt ".") api.env_file))
                (get (txt "B") (dotenv_of (disk.read (join_path (txt ".") (txt ".env"))))))))
complete-env_example =
    complete-env disk (txt ".") web (txt "B") api api_config loaded_api found_api loads

abbrev staging : ServiceEnvOverride
staging = record { env = (txt "A", txt "9") ∷ [] }

abbrev overrides : EnvOverride
overrides = record { service = (web, staging) ∷ [] }

abbrev staged : DevConfig
staged = record api_config { env_override = (txt "staging", overrides) ∷ [] }

found_override : get (txt "staging") staged.env_override ≡ some overrides
unfolding get same
found_override = refl

found_env : get web overrides.service ≡ some staging
unfolding get same
found_env = refl

one_override : UniqueKeys overrides.service
unfolding count
one_override k = ground arith

one_variable : UniqueKeys staging.env
unfolding count
one_variable k = ground arith

apply_env_override-env_example :
    (cfg' : DevConfig) × (svc' : ServiceDef) × (apply_env_override (txt "staging") staged ≡ ok cfg')
    × (get web cfg'.service ≡ some svc')
    × (get (txt "A") svc'.env ≡ or_else (get (txt "A") staging.env) (get (txt "A") api.env))
apply_env_override-env_example =
    apply_env_override-env (txt "staging") web (txt "A") staged overrides api staging found_override
      found_api found_env one_override one_variable
