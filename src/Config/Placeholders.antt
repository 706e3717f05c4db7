-- ===== src/Config/Placeholders.antt =====
-- `interpolate_env_vars`, `interpolate_service_ports` and `resolve_service_ports` (src/config.rs).
-- The two interpolations are one loop over the characters with two ways to look a name up. The OS
-- environment is a parameter: what `std::env::var` finds. The loop takes a round per character.
pub mod Segments
pub mod Laws
use mathlib.Core.Option
use dev.Prelude.{Text, txt, ℕ, zero, suc, Option, none, some, List, [], ◌∷◌, ◌++◌}
use dev.Prelude.Counts.{length}
use dev.Map.{Map, get, map_values}
use dev.Strings.{strip_prefix, strip_suffix, split_at}
use dev.Strings.Decimal.{to_string}
use dev.Config.{ServiceDef, DevConfig}

-- `format!("${{{name}}}")`
abbrev pub literal : Text → Text
literal name = txt "${" ++ (name ++ txt "}")

abbrev pub found_or : Option Text → Text → Text
found_or none name = literal name
found_or (some value) name = value

-- `while let Some(ch) = chars.next()`
unfoldable pub expand : (Text → Option Text) → ℕ → Text → Text
expand find zero s = []
expand find (suc fuel) [] = []
expand find (suc fuel) (c ∷ s) = elim (strip_prefix (txt "${") (c ∷ s)) [
  | none ↦ c ∷ expand find fuel s
  | some r ↦
      let (name, rest) = split_at b'}' r in found_or (find name) name ++ expand find fuel rest
]

unfoldable pub interpolate : (Text → Option Text) → Text → Text
interpolate find s = expand find (length s) s

-- `interpolate_env_vars`, with the environment that `std::env::var` reads
unfoldable pub interpolate_env_vars : (Text → Option Text) → Text → Text
interpolate_env_vars os_env s = interpolate os_env s

-- `expr.strip_suffix(".port")`, then `ports.get(svc_name)`
unfoldable pub find_port : Map ℕ → Text → Option Text
find_port ports expr = elim (strip_suffix (txt ".port") expr) [
  | none ↦ none
  | some svc_name ↦ Option.map to_string (get svc_name ports)
]

unfoldable pub interpolate_service_ports : Map ℕ → Text → Text
interpolate_service_ports ports s = interpolate (find_port ports) s

unfoldable pub resolve_service_ports : ServiceDef → Map ℕ → ServiceDef
resolve_service_ports svc ports = record svc {
  cmd = interpolate_service_ports ports svc.cmd;
  env = map_values (interpolate_service_ports ports) svc.env;
  pre_start = Option.map (interpolate_service_ports ports) svc.pre_start;
  post_stop = Option.map (interpolate_service_ports ports) svc.post_stop;
}

-- The body of the loop of `apply_interpolation`.
unfoldable pub interpolate_service : (Text → Option Text) → ServiceDef → ServiceDef
interpolate_service os_env svc = record svc {
  cmd = interpolate_env_vars os_env svc.cmd;
  env = map_values (interpolate_env_vars os_env) svc.env;
  pre_start = Option.map (interpolate_env_vars os_env) svc.pre_start;
  post_stop = Option.map (interpolate_env_vars os_env) svc.post_stop;
}

unfoldable pub apply_interpolation : (Text → Option Text) → DevConfig → DevConfig
apply_interpolation os_env cfg = record cfg {
  service = map_values (interpolate_service os_env) cfg.service;
}
