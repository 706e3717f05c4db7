-- ===== src/Config/Load.antt =====
-- The loading of `A3sfile.hcl` (src/config.rs): `parse_env_file`, the environment files, the
-- override block and `from_file_with_env`. The file system, the environment of the process and the
-- HCL parser are parameters.
pub mod Precedence
use mathlib.Core.Option
use dev.Prelude.{
  Text, txt, ℕ, Option, none, some, List, [], ◌∷◌, ◌++◌, Bool, true, false, ◌==◌, if◌then◌else◌,
  foldl, ◌⊎◌, inl, inr,
}
use dev.Error.{Result, ok, err, config, ◌>>=◌, ◌>>◌}
use dev.Map.{Map, keys, get, insert, modify, extend, fill, map_values}
use dev.Strings.{lines, trim, trim_matches, split_once, join_path}
use dev.Graph.{join}
use dev.Config.{ServiceDef, ServiceEnvOverride, EnvOverride, DevConfig}
use dev.Config.EnvFunc.{expand_env_func}
use dev.Config.Placeholders.{apply_interpolation}
use dev.Config.Validate.{validate}

-- `trim_matches(c)`
abbrev pub unquote : ℕ → Text → Text
unquote c s = trim_matches (λ d. d == c) s

abbrev pub is_comment : Text → Bool
is_comment [] = true
is_comment (c ∷ line) = c == b'#'

abbrev pub add_pair : Option (Text × Text) → Map Text → Map Text
add_pair none m = m
add_pair (some (k, v)) m = insert (trim k) (unquote 39 (unquote b'"' (trim v))) m

unfoldable pub parse_line : Map Text → Text → Map Text
parse_line m line = if is_comment (trim line) then m else add_pair (split_once b'=' (trim line)) m

unfoldable pub parse_env_file : Text → Map Text
unfolding parse_line
parse_env_file contents = foldl parse_line [] (lines contents)

-- `std::fs::read_to_string`
pub data FileRead : Type 0 where
  contents : Text → FileRead
  unreadable : Text → FileRead

-- What the loading meets outside of the program.
pub record Disk : Type 0 where
  pub read : Text → FileRead
  pub os_env : Text → Option Text
  -- `hcl::from_str`, with its error's text
  pub parse : Text → DevConfig ⊎ Text

-- `svc.env.entry(k).or_insert(v)` for all of them
abbrev pub add_defaults : Map Text → ServiceDef → ServiceDef
add_defaults defaults svc = record svc { env = fill svc.env defaults }

abbrev pub merge_file : Text → Text → ServiceDef → FileRead → Result ServiceDef
merge_file name path svc (contents text) = ok (add_defaults (parse_env_file text) svc)
merge_file name path svc (unreadable e) = err (
    config
      (txt "service '" ++ (name ++ (txt "': cannot read env_file " ++ (path ++ (txt ": " ++ e))))))

abbrev pub resolve_env_file : Disk → Text → Text → ServiceDef → Option Text → Result ServiceDef
resolve_env_file disk base_dir name svc none = ok svc
resolve_env_file disk base_dir name svc (some env_file) =
    merge_file name (join_path base_dir env_file) svc (disk.read (join_path base_dir env_file))

-- The loop of `resolve_env_files`.
unfoldable pub resolve_services : Disk → Text → Map ServiceDef → Result (Map ServiceDef)
resolve_services disk base_dir [] = ok []
resolve_services disk base_dir ((name, svc) ∷ services) = do
  svc' ← resolve_env_file disk base_dir name svc svc.env_file
  services' ← resolve_services disk base_dir services
  ok ((name, svc') ∷ services')

unfoldable pub resolve_env_files : Disk → Text → DevConfig → Result DevConfig
resolve_env_files disk base_dir cfg = do
  services ← resolve_services disk base_dir cfg.service
  ok (record cfg { service = services })

abbrev pub dotenv_of : FileRead → Map Text
dotenv_of (contents text) = parse_env_file text
dotenv_of (unreadable e) = []

-- Without a readable `.env` nothing is added.
unfoldable pub apply_global_dotenv : Disk → Text → DevConfig → DevConfig
apply_global_dotenv disk base_dir cfg = record cfg {
  service =
      map_values (add_defaults (dotenv_of (disk.read (join_path base_dir (txt ".env")))))
        cfg.service;
}

abbrev pub override_env : ServiceEnvOverride → ServiceDef → ServiceDef
override_env over svc = record svc { env = extend svc.env over.env }

-- `for (svc_name, svc_override) in &overrides.service`
unfoldable pub override_services : Map ServiceDef → Map ServiceEnvOverride → Map ServiceDef
override_services services [] = services
override_services services ((name, over) ∷ overrides) =
    override_services (modify name (override_env over) services) overrides

abbrev pub override_with : DevConfig → Text → Option EnvOverride → Result DevConfig
override_with cfg name none = err (
    config (
      txt "env_override '"
      ++ (name
          ++ (txt "' not found in A3sfile.hcl — available: "
              ++ join (txt ", ") (keys cfg.env_override)))))
override_with cfg name (some overrides) =
    ok (record cfg { service = override_services cfg.service overrides.service })

unfoldable pub apply_env_override : Text → DevConfig → Result DevConfig
apply_env_override name cfg = override_with cfg name (get name cfg.env_override)

abbrev pub optional_override : Option Text → DevConfig → Result DevConfig
optional_override none cfg = ok cfg
optional_override (some name) cfg = apply_env_override name cfg

abbrev pub raw_text : Text → FileRead → Result Text
raw_text path (contents text) = ok text
raw_text path (unreadable e) = err (config (txt "cannot read " ++ (path ++ (txt ": " ++ e))))

abbrev pub parsed_config : Text → DevConfig ⊎ Text → Result DevConfig
parsed_config path (inl cfg) = ok cfg
parsed_config path (inr e) = err (config (txt "parse error in " ++ (path ++ (txt ": " ++ e))))

-- From the parsed configuration to the loaded one.
unfoldable pub complete : Disk → Text → Option Text → DevConfig → Result DevConfig
complete disk base_dir env_name cfg = do
  resolved ← resolve_env_files disk base_dir cfg
  loaded ←
      optional_override env_name
        (apply_interpolation disk.os_env (apply_global_dotenv disk base_dir resolved))
  validate loaded
  ok loaded

unfoldable pub from_file_with_env : Disk → Text → Text → Option Text → Result DevConfig
from_file_with_env disk path base_dir env_name = do
  raw ← raw_text path (disk.read path)
  src ← expand_env_func disk.os_env raw
  cfg ← parsed_config path (disk.parse src)
  complete disk base_dir env_name cfg
