-- ===== src/Config/Validate.antt =====
-- `DevConfig::validate` (src/config.rs): port conflicts first, then dependencies that are not there.
pub mod Laws
use dev.Prelude.{
  Text, txt, same, ℕ, Option, none, some, List, [], ◌∷◌, ◌++◌, Bool, true, false, ◌||◌, ◌==◌,
  if◌then◌else◌,
}
use dev.Error.{Result, ok, err, DevError, config, port_conflict, ◌>>◌}
use dev.Map.{Map, get}
use dev.Config.{ServiceDef, DevConfig}

-- `seen`, a `HashMap<u16, &str>`: who listens on a port.
unfoldable pub lookup_port : ℕ → List (ℕ × Text) → Option Text
lookup_port p [] = none
lookup_port p ((q, n) ∷ seen) = if q == p then some n else lookup_port p seen

-- `svc.disabled || svc.port == 0`
abbrev pub no_port : ServiceDef → Bool
no_port svc = svc.disabled || svc.port == 0

unfoldable pub check_ports : List (ℕ × Text) → Map ServiceDef → Result (Unit {0})
unfolding lookup_port
check_ports seen [] = ok tt
check_ports seen ((name, svc) ∷ services) = elim (no_port svc) [
  | true ↦ check_ports seen services
  | false ↦ elim (lookup_port svc.port seen) [
    | some other ↦ err (port_conflict other name svc.port)
    | none ↦ check_ports ((svc.port, name) ∷ seen) services
  ]
]

-- `dep_svc.is_none() || dep_svc.is_some_and(|d| d.disabled)`
abbrev pub unavailable : Option ServiceDef → Bool
unavailable none = true
unavailable (some svc) = svc.disabled

abbrev pub bad_dependency : Text → Text → DevError
bad_dependency name dep = config (
    txt "service '"
    ++ (name ++ (txt "' depends_on unknown or disabled service '" ++ (dep ++ txt "'"))))

unfoldable pub check_deps : Map ServiceDef → Text → List Text → Result (Unit {0})
unfolding get
check_deps services name [] = ok tt
check_deps services name (dep ∷ deps) =
    if unavailable (get dep services)
    then err (bad_dependency name dep)
    else check_deps services name deps

unfoldable pub check_services : Map ServiceDef → Map ServiceDef → Result (Unit {0})
unfolding check_deps
check_services all [] = ok tt
check_services all ((name, svc) ∷ services) =
    if svc.disabled
    then check_services all services
    else check_deps all name svc.depends_on >> check_services all services

unfoldable pub validate : DevConfig → Result (Unit {0})
unfolding check_ports check_services
validate cfg = check_ports [] cfg.service >> check_services cfg.service cfg.service
