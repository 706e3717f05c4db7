-- ===== src/K8s/Runtime.antt =====
-- src/k8s/runtime.rs: `K8sRuntime`. Its client and its registry are a record, the manifests that it
-- keeps are part of the cluster's state. The name that the build gets only labels its log lines.
pub mod Secrets
pub mod Applies
pub mod Starts
pub mod Stops
use mathlib.Core.Option
use dev.Prelude.{
  Text, txt, Option, none, some, List, [], ◌∷◌, ◌++◌, ℕ, Bool, true, false, if◌then◌else◌, ◌||◌,
  ite, same,
}
use dev.Error.{Result, ok, err, config}
use dev.Map.{Map, insert}
use dev.Strings.{join_path, parent, trim, lines, split_once}
use dev.Config.{ServiceDef, K8sConfig}
use dev.Config.Load.{FileRead, contents, unreadable, is_comment}
use dev.K8s.{Shell, Cluster, Deploy, read_file}
use dev.K8s.Client.{
  K8sClient, PodStatus, apply_manifest, delete_resource, get_pod_status, wait_for_ready, get_logs,
  rollout_restart, build_image, push_image, helm_template, kustomize_build,
}
use dev.K8s.Manifest.{
  generate_deployment, generate_service, generate_configmap, generate_secret, generate_ingress,
}
use dev.Steps.{Steps, after, ◌>>=◌, ◌>>◌, pure, fail, lift}

pub record K8sRuntime : Type 0 where
  pub client : K8sClient
  pub registry : Option Text

abbrev pub push_to : Shell → Option Text → Text → Deploy (Option Text)
push_to shell none image = pure (some image)
push_to shell (some registry) image = do
  tagged ← push_image shell image registry
  pure (some tagged)

abbrev pub build_from : K8sRuntime → Shell → Text → K8sConfig → Option Text → Deploy (Option Text)
build_from runtime shell config_dir k8s none = pure none
build_from runtime shell config_dir k8s (some dockerfile) = do
  build_image shell k8s.image (join_path config_dir dockerfile)
      (Option.get_or (parent (join_path config_dir dockerfile)) config_dir) k8s.build_args
  push_to shell runtime.registry k8s.image

abbrev pub build_for : K8sRuntime → Shell → Text → Option K8sConfig → Deploy (Option Text)
build_for runtime shell config_dir none = pure none
build_for runtime shell config_dir (some k8s) =
    build_from runtime shell config_dir k8s k8s.dockerfile

unfoldable pub build_and_push : K8sRuntime → Shell → ServiceDef → Text → Deploy (Option Text)
build_and_push runtime shell svc config_dir = build_for runtime shell config_dir svc.k8s

abbrev pub insert_secret : Option (Text × Text) → Map Text → Map Text
insert_secret none secrets = secrets
insert_secret (some (key, value)) secrets = insert (trim key) (trim value) secrets

-- One line of the secret file, its outer spaces taken off.
unfoldable pub add_secret : Text → Map Text → Map Text
unfolding split_once
add_secret line secrets =
    if is_comment line then secrets else insert_secret (split_once b'=' line) secrets

unfoldable pub add_secrets : List Text → Map Text → Map Text
unfolding add_secret
add_secrets [] secrets = secrets
add_secrets (line ∷ ls) secrets = add_secrets ls (add_secret (trim line) secrets)

abbrev pub secrets_read : Text → Map Text → FileRead → Result (Map Text)
secrets_read path secrets (contents text) = ok (add_secrets (lines text) secrets)
secrets_read path secrets (unreadable e) =
    err (config (txt "failed to read secret_file " ++ (path ++ (txt ": " ++ e))))

abbrev pub secrets_from : Shell → Text → Map Text → Option Text → Deploy (Map Text)
secrets_from shell config_dir secrets none = pure secrets
secrets_from shell config_dir secrets (some secret_file) = do
  content ← read_file shell (join_path config_dir secret_file)
  lift (secrets_read (join_path config_dir secret_file) secrets content)

abbrev pub secrets_of : Shell → Text → Option K8sConfig → Deploy (Map Text)
secrets_of shell config_dir none = pure []
secrets_of shell config_dir (some k8s) = secrets_from shell config_dir k8s.secrets k8s.secret_file

unfoldable pub load_secrets : Shell → ServiceDef → Text → Deploy (Map Text)
load_secrets shell svc config_dir = secrets_of shell config_dir svc.k8s

abbrev pub app_label : Text → Text
app_label name = txt "app=" ++ name

abbrev pub keep_manifests : Text → List Text → Deploy (Unit {0})
keep_manifests name manifests s =
    (ok tt, record s { manifests = insert name manifests s.manifests })

-- The rest of a start from Helm or Kustomize, when the manifest is there.
abbrev pub deploy_rendered : K8sRuntime → Shell → Text → Text → Deploy (Unit {0})
deploy_rendered runtime shell name manifest_yaml = do
  apply_manifest runtime.client shell manifest_yaml
  keep_manifests name (manifest_yaml ∷ [])
  wait_for_ready runtime.client shell (app_label name) 60

-- `if let Some(m) = .. { apply(m); manifests.push(m) }`, with what is pushed
abbrev pub apply_optional : K8sRuntime → Shell → Option Text → Deploy (List Text)
apply_optional runtime shell none = pure []
apply_optional runtime shell (some manifest) = do
  apply_manifest runtime.client shell manifest
  pure (manifest ∷ [])

unfoldable pub deploy_generated : K8sRuntime → Shell → Text → ServiceDef → Text → Deploy (Unit {0})
deploy_generated runtime shell name svc config_dir = do
  secrets ← load_secrets shell svc config_dir
  secret ←
      apply_optional runtime shell
        (generate_secret shell.encode name secrets runtime.client.namespace)
  configmap ← apply_optional runtime shell (generate_configmap name svc runtime.client.namespace)
  apply_manifest runtime.client shell
      (generate_deployment name svc runtime.client.namespace config_dir)
  apply_manifest runtime.client shell (generate_service name svc runtime.client.namespace)
  keep_manifests name (
      secret
      ++ (configmap
          ++ generate_deployment name svc runtime.client.namespace config_dir
            ∷ generate_service name svc runtime.client.namespace
            ∷ []))
  wait_for_ready runtime.client shell (app_label name) 60

abbrev pub deploy_kustomized :
    K8sRuntime → Shell → Text → ServiceDef → Text → Option Text → Deploy (Unit {0})
deploy_kustomized runtime shell name svc config_dir none =
    deploy_generated runtime shell name svc config_dir
deploy_kustomized runtime shell name svc config_dir (some kustomize_dir) = do
  manifest_yaml ← kustomize_build shell (join_path config_dir kustomize_dir)
  deploy_rendered runtime shell name manifest_yaml

abbrev pub deploy_charted :
    K8sRuntime → Shell → Text → ServiceDef → Text → K8sConfig → Option Text → Deploy (Unit {0})
deploy_charted runtime shell name svc config_dir k8s none =
    deploy_kustomized runtime shell name svc config_dir k8s.kustomize_dir
deploy_charted runtime shell name svc config_dir k8s (some helm_chart) = do
  manifest_yaml ←
      helm_template runtime.client shell name (join_path config_dir helm_chart)
        (Option.map (join_path config_dir) k8s.helm_values)
  deploy_rendered runtime shell name manifest_yaml

abbrev pub deploy :
    K8sRuntime → Shell → Text → ServiceDef → Text → Option K8sConfig → Deploy (Unit {0})
deploy runtime shell name svc config_dir none = deploy_generated runtime shell name svc config_dir
deploy runtime shell name svc config_dir (some k8s) =
    deploy_charted runtime shell name svc config_dir k8s k8s.helm_chart

unfoldable pub start_service : K8sRuntime → Shell → Text → ServiceDef → Text → Deploy (Unit {0})
start_service runtime shell name svc config_dir = do
  image ← build_and_push runtime shell svc config_dir
  deploy runtime shell name svc config_dir svc.k8s

unfoldable pub rebuild_and_restart :
    K8sRuntime → Shell → Text → ServiceDef → Text → Deploy (Unit {0})
rebuild_and_restart runtime shell name svc config_dir = do
  image ← build_and_push runtime shell svc config_dir
  rollout_restart runtime.client shell name

-- `manifests.shift_remove(name)`
unfoldable pub shift_remove {ℓ} : {V : Type ℓ} → Text → Map V → Map V
shift_remove k [] = []
shift_remove k ((j, v) ∷ m) = ite (same j k) m ((j, v) ∷ shift_remove k m)

abbrev pub forget_manifests : Text → Deploy (Unit {0})
forget_manifests name s = (ok tt, record s { manifests = shift_remove name s.manifests })

unfoldable pub stop_service : K8sRuntime → Shell → Text → Deploy (Unit {0})
stop_service runtime shell name = do
  delete_resource runtime.client shell (txt "service") name
  delete_resource runtime.client shell (txt "deployment") name
  delete_resource runtime.client shell (txt "configmap") (name ++ txt "-config")
  delete_resource runtime.client shell (txt "secret") (name ++ txt "-secret")
  forget_manifests name

unfoldable pub get_status : K8sRuntime → Shell → Text → Deploy PodStatus
get_status runtime shell name = get_pod_status runtime.client shell (app_label name)

unfoldable pub service_logs : K8sRuntime → Shell → Text → ℕ → Deploy Text
service_logs runtime shell name tail = get_logs runtime.client shell (app_label name) tail

abbrev pub apply_ingress : K8sRuntime → Shell → Option Text → Deploy (Unit {0})
apply_ingress runtime shell none = pure tt
apply_ingress runtime shell (some ingress) = apply_manifest runtime.client shell ingress

unfoldable pub deploy_ingress : K8sRuntime → Shell → Map ServiceDef → Deploy (Unit {0})
deploy_ingress runtime shell services =
    apply_ingress runtime shell (generate_ingress services runtime.client.namespace)
