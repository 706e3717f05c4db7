-- ===== src/Cli/Strict.antt =====
-- `validate` of src/main.rs for a loaded configuration: the graph, and the strict checks. What the
-- system has (files, binaries, free ports) is a parameter.
pub mod Passed
use dev.Prelude.{
  Text, txt, ℕ, Option, none, some, List, [], ◌∷◌, ◌++◌, Bool, true, false, ◌||◌, ◌&&◌, not, ◌==◌,
  if◌then◌else◌, test, same,
}
use dev.Error.{Result, ok, err, panic, config}
use dev.Map.{Map}
use dev.Strings.{join_path, split_whitespace, is_absolute}
use dev.Config.{ServiceDef, DevConfig, K8sConfig}
use dev.Graph.{from_config}
use dev.Steps.{Steps, after, ◌>>=◌, ◌>>◌, pure, fail, lift}
use dev.K8s.{Outcome, Shell, Cluster, Deploy, execute}
use dev.K8s.Client.{check_available, check_helm_available, command_of, context_args, is_success}

pub record Host : Type 0 where
  pub exists : Text → Bool
  pub which_binary : Text → Bool
  pub port_available : ℕ → Bool

abbrev pub first_word : List Text → Text
first_word [] = []
first_word (w ∷ ws) = w

-- `svc.port == 0` or the port is free
abbrev pub port_checked : Host → ℕ → Bool
port_checked host port = if not (port == 0) then host.port_available port else true

abbrev pub service_checked : Host → ServiceDef → Bool
service_checked host svc =
    host.which_binary (first_word (split_whitespace svc.cmd)) && port_checked host svc.port

unfoldable pub check_local : Host → Map ServiceDef → Bool
check_local host [] = true
check_local host ((name, svc) ∷ services) =
    let rest = check_local host services in
    if svc.disabled then rest else service_checked host svc && rest

-- `if let Some(ref p) = path { .. }`: the path stands in the configuration's directory.
abbrev pub path_checked : (Text → Bool) → Text → Option Text → Bool
path_checked has dir none = true
path_checked has dir (some p) = has (join_path dir p)

abbrev pub holds : Host → Text → Text → Bool
holds host file path = host.exists path && host.exists (join_path path file)

abbrev pub succeeds : Result (Unit {0}) × Cluster → Result Bool × Cluster
succeeds (ok u, s) = (ok true, s)
succeeds (err e, s) = (ok false, s)
succeeds (panic p, s) = (panic p, s)

abbrev pub check_helm : Shell → Option Text → Deploy Bool
check_helm shell none = pure true
check_helm shell (some chart) = λ s. succeeds (check_helm_available shell s)

abbrev pub check_k8s : Host → Shell → Text → Option K8sConfig → Deploy Bool
check_k8s host shell dir none = pure false
check_k8s host shell dir (some k) = do
  helm ← check_helm shell k.helm_chart
  pure (
      path_checked host.exists dir k.dockerfile
      && path_checked (holds host (txt "Chart.yaml")) dir k.helm_chart
      && helm
      && path_checked (holds host (txt "kustomization.yaml")) dir k.kustomize_dir
      && path_checked host.exists dir k.helm_values)

unfoldable pub check_services_k8s : Host → Shell → Text → Map ServiceDef → Deploy Bool
check_services_k8s host shell dir [] = pure true
check_services_k8s host shell dir ((name, svc) ∷ services) =
    let rest = check_services_k8s host shell dir services in
    if svc.disabled
    then rest
    else (do here ← check_k8s host shell dir svc.k8s; others ← rest; pure (here && others))

abbrev pub cluster_reachable : Shell → DevConfig → Deploy Bool
cluster_reachable shell cfg = do
  o ←
      execute shell
        (command_of (txt "kubectl") (txt "cluster-info" ∷ context_args cfg.dev.k8s_context))
  pure (is_success o)

unfoldable pub strict_k8s : Host → Shell → Text → DevConfig → Deploy Bool
strict_k8s host shell dir cfg = do
  kubectl ← check_available shell
  services ← check_services_k8s host shell dir cfg.service
  cluster ← cluster_reachable shell cfg
  pure (kubectl && services && cluster)

abbrev pub passed : Bool → Deploy (Unit {0})
passed all_ok = if all_ok then pure tt else fail (config (txt "strict validation failed"))

-- The mode is `k8s` or local.
abbrev pub strict_checks : Host → Shell → Text → DevConfig → Deploy Bool
strict_checks host shell dir cfg =
    if test (same cfg.dev.runtime (txt "k8s"))
    then strict_k8s host shell dir cfg
    else pure (check_local host cfg.service)

unfoldable pub validate_command : Host → Shell → Text → DevConfig → Bool → Deploy (Unit {0})
validate_command host shell dir cfg strict = do
  graph ← lift (from_config cfg)
  if strict then (do all_ok ← strict_checks host shell dir cfg; passed all_ok) else pure tt
