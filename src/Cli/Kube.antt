-- ===== src/Cli/Kube.antt =====
-- The commands of src/main.rs in the Kubernetes mode. What they print is left out.
pub mod Plan
pub mod Deploys
use mathlib.Core.Option
use dev.Prelude.{
  Text, txt, ℕ, Option, none, some, List, [], ◌∷◌, ◌++◌, Bool, true, false, ◌==◌, if◌then◌else◌,
}
use dev.Prelude.Counts.{length}
use dev.Error.{Result, ok, err, config}
use dev.Map.{Map, get, is_some}
use dev.Strings.{join_path}
use dev.Strings.Decimal.{to_string}
use dev.Config.{ServiceDef, DevConfig, WatchConfig}
use dev.Graph.{DependencyGraph, from_config, transitive_start_order}
use dev.Log.{is_empty}
use dev.Steps.{Steps, after, ◌>>=◌, ◌>>◌, pure, fail, lift}
use dev.K8s.{Command, Outcome, exited, Exit, Shell, Cluster, Deploy, execute}
use dev.K8s.Client.{
  K8sClient, check_available, command_of, output, succeeded_or, rollout_restart, context_args,
}
use dev.K8s.Runtime.{K8sRuntime, start_service, stop_service, rebuild_and_restart, deploy_ingress}
use dev.Cli.Targets.{k8s_up_targets, k8s_down_targets, retain}

-- The order of the deployment: the whole start order, or the part that the targets need.
abbrev pub deploy_order : DevConfig → DependencyGraph → List Text → List Text
deploy_order cfg graph targets =
    if length targets == length cfg.service
    then graph.order
    else transitive_start_order graph targets

abbrev pub found : Text → Option ServiceDef → Deploy ServiceDef
found name none = fail (config (txt "service " ++ (name ++ txt " not found")))
found name (some svc) = pure svc

unfoldable pub deploy_each : K8sRuntime → Shell → DevConfig → Text → List Text → Deploy (Unit {0})
unfolding get
deploy_each runtime shell cfg config_dir [] = pure tt
deploy_each runtime shell cfg config_dir (name ∷ order) = do
  svc ← found name (get name cfg.service)
  start_service runtime shell name svc config_dir
  deploy_each runtime shell cfg config_dir order

abbrev pub has_watch : Option ServiceDef → Bool
has_watch none = false
has_watch (some svc) = is_some svc.watch

-- `cfg.service.get(name).and_then(|s| s.watch.as_ref()).is_some()`
abbrev pub watched_names : DevConfig → List Text → List Text
watched_names cfg order = retain (λ name. has_watch (get name cfg.service)) order

-- Up to its watchers: the result is the names that are watched then.
unfoldable pub run_k8s_mode :
    K8sRuntime → Shell → DevConfig → Text → List Text → List Text → Deploy (List Text)
run_k8s_mode runtime shell cfg config_dir services label =
    if is_empty (k8s_up_targets cfg services label)
    then fail (config (txt "no services to deploy"))
    else (do
      graph ← lift (from_config cfg)
      deploy_each runtime shell cfg config_dir
          (deploy_order cfg graph (k8s_up_targets cfg services label))
      deploy_ingress runtime shell cfg.service
      pure (watched_names cfg (deploy_order cfg graph (k8s_up_targets cfg services label))))

-- The paths that the watcher of a service gets
abbrev pub watch_paths : Text → List Text → List Text
watch_paths config_dir [] = []
watch_paths config_dir (p ∷ paths) = join_path config_dir p ∷ watch_paths config_dir paths

abbrev pub reported : Result (Unit {0}) × Cluster → Result (Unit {0}) × Cluster
reported (err e, s) = (ok tt, s)
reported r = r

abbrev pub rebuild : K8sRuntime → Shell → Text → Text → Option ServiceDef → Deploy (Unit {0})
rebuild runtime shell config_dir name none = pure tt
rebuild runtime shell config_dir name (some svc) =
    λ s. reported (rebuild_and_restart runtime shell name svc config_dir s)

-- One change that a watcher reports; an error is only reported.
unfoldable pub on_change : K8sRuntime → Shell → DevConfig → Text → Text → Deploy (Unit {0})
on_change runtime shell cfg config_dir name =
    rebuild runtime shell config_dir name (get name cfg.service)

abbrev pub client_of : DevConfig → K8sClient
client_of cfg = record { context = cfg.dev.k8s_context; namespace = cfg.dev.k8s_namespace }

-- `up` in the Kubernetes mode
unfoldable pub up_k8s : Shell → DevConfig → Text → List Text → List Text → Deploy (List Text)
unfolding check_available run_k8s_mode
up_k8s shell cfg config_dir services label = do
  available ← check_available shell
  if available
      then run_k8s_mode (record { client = client_of cfg; registry = cfg.dev.registry }) shell cfg
          config_dir services label
      else fail (config (txt "kubectl not found. Please install kubectl to use k8s runtime mode."))

unfoldable pub stop_targets : Shell → K8sClient → List Text → Deploy (Unit {0})
stop_targets shell client [] = pure tt
stop_targets shell client (name ∷ targets) = do
  stop_service (record { client = client; registry = none }) shell name
  stop_targets shell client targets

-- Each service is stopped by a runtime of its own, whose manifests are not looked at.
unfoldable pub k8s_down : Shell → DevConfig → List Text → List Text → Deploy (Unit {0})
unfolding stop_targets
k8s_down shell cfg services label =
    stop_targets shell (client_of cfg) (k8s_down_targets cfg services label)

abbrev pub in_namespace : DevConfig → List Text → List Text
in_namespace cfg args =
    txt "-n" ∷ cfg.dev.k8s_namespace ∷ (args ++ context_args cfg.dev.k8s_context)

unfoldable pub k8s_status : Shell → DevConfig → Bool → Deploy (Unit {0})
k8s_status shell cfg json = do
  x ←
      output shell
        (command_of (txt "kubectl") (
          txt "get"
          ∷ txt "pods"
          ∷ txt "-l"
          ∷ txt "managed-by=a3s"
          ∷ (in_namespace cfg [] ++ txt "-o" ∷ (if json then txt "json" else txt "wide") ∷ [])))
        (txt "kubectl get pods failed")
  succeeded_or (txt "kubectl get pods failed") x

-- `restart` in the Kubernetes mode
abbrev pub restart_k8s : Shell → DevConfig → Text → Deploy (Unit {0})
restart_k8s shell cfg service = rollout_restart (client_of cfg) shell service

abbrev pub follow_args : Bool → List Text
follow_args follow = if follow then txt "-f" ∷ [] else []

-- The command that streams the log of one service
abbrev pub logs_command : DevConfig → Bool → ℕ → Text → Command
logs_command cfg follow tail name = command_of (txt "kubectl") (
    txt "logs"
    ∷ txt "-l"
    ∷ (txt "app=" ++ name)
    ∷ (in_namespace cfg ((txt "--tail=" ++ to_string tail) ∷ []) ++ follow_args follow))
