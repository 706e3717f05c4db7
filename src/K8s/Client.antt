-- ===== src/K8s/Client.antt =====
-- src/k8s/client.rs: `K8sClient`, which wraps kubectl, docker and helm. The tasks that copy a build's
-- output to the log are not part of it.

use dev.Prelude.{
  Text, txt, same, test, ℕ, suc, Option, none, some, List, [], ◌∷◌, ◌++◌, Bool, false, ◌==◌,
  if◌then◌else◌,
}
use mathlib.Core.List.{reverse}
use dev.Error.{Result, ok, err, config}
use dev.Map.{Map}
use dev.State.{ℤ, pos, negsuc}
use dev.Strings.{trim, drop_while}
use dev.Strings.Decimal.{to_string}
use dev.Steps.{◌>>=◌, ◌>>◌, pure, fail, lift}
use dev.K8s.{
  Command, Exit, Outcome, not_spawned, not_written, not_waited, exited, Shell, Deploy, execute,
}

pub record K8sClient : Type 0 where
  pub context : Option Text
  pub namespace : Text

pub data PodStatus : Type 0 where
  running pending succeeded failed unknown not_found : PodStatus

abbrev pub context_args : Option Text → List Text
context_args none = []
context_args (some ctx) = txt "--context" ∷ ctx ∷ []

abbrev pub client_args : K8sClient → List Text
client_args client = context_args client.context ++ (txt "--namespace" ∷ client.namespace ∷ [])

abbrev pub command_of : Text → List Text → Command
command_of program args = record { program = program; args = args; dir = none; input = none }

abbrev pub kubectl : K8sClient → List Text → Command
kubectl client args = command_of (txt "kubectl") (args ++ client_args client)

abbrev pub failed_with : Text → Text → Text
failed_with what e = what ++ (txt ": " ++ e)

-- `cmd.output().await.map_err(..)?`, or `status()`
abbrev pub exit_of : Text → Outcome → Result Exit
exit_of what (not_spawned e) = err (config (failed_with what e))
exit_of what (not_written e) = err (config (failed_with what e))
exit_of what (not_waited e) = err (config (failed_with what e))
exit_of what (exited x) = ok x

abbrev pub output : Shell → Command → Text → Deploy Exit
output shell c what = do o ← execute shell c; lift (exit_of what o)

-- `if !output.status.success() { return Err(..) }`
abbrev pub succeeded_or : Text → Exit → Deploy (Unit {0})
succeeded_or message x = if x.success then pure tt else fail (config message)

abbrev pub is_success : Outcome → Bool
is_success (exited x) = x.success
is_success _ = false

unfoldable pub check_available : Shell → Deploy Bool
check_available shell = do
  o ←
      execute shell
        (command_of (txt "kubectl") (txt "version" ∷ txt "--client" ∷ txt "--output=json" ∷ []))
  pure (is_success o)

abbrev pub apply_command : K8sClient → Text → Command
apply_command client yaml = record (kubectl client (txt "apply" ∷ txt "-f" ∷ txt "-" ∷ [])) {
  input = some yaml;
}

abbrev pub apply_outcome : Outcome → Deploy (Unit {0})
apply_outcome (not_spawned e) = fail (config (failed_with (txt "failed to spawn kubectl") e))
apply_outcome (not_written e) = fail (config (failed_with (txt "failed to write manifest") e))
apply_outcome (not_waited e) = fail (config (failed_with (txt "kubectl apply failed") e))
apply_outcome (exited x) = succeeded_or (failed_with (txt "kubectl apply failed") x.stderr) x

unfoldable pub apply_manifest : K8sClient → Shell → Text → Deploy (Unit {0})
apply_manifest client shell yaml = do o ← execute shell (apply_command client yaml); apply_outcome o

-- An unsuccessful exit is only reported.
unfoldable pub delete_resource : K8sClient → Shell → Text → Text → Deploy (Unit {0})
delete_resource client shell kind name = do
  x ←
      output shell
        (command_of (txt "kubectl")
          (txt "delete" ∷ kind ∷ name ∷ (client_args client ++ txt "--ignore-not-found=true" ∷ [])))
        (txt "kubectl delete failed")
  pure tt

abbrev pub is_phase : Text → Text → Bool
is_phase a b = test (same a b)

unfoldable pub phase_status : Text → PodStatus
phase_status phase =
    if is_phase phase (txt "Running")
    then running
    else if is_phase phase (txt "Pending")
    then pending
    else if is_phase phase (txt "Succeeded")
    then succeeded
    else if is_phase phase (txt "Failed")
    then failed
    else unknown

unfoldable pub get_pod_status : K8sClient → Shell → Text → Deploy PodStatus
unfolding phase_status trim
get_pod_status client shell label = do
  x ←
      output shell
        (kubectl client (
          txt "get"
          ∷ txt "pods"
          ∷ txt "-l"
          ∷ label
          ∷ txt "--output=jsonpath={.items[0].status.phase}"
          ∷ []))
        (txt "kubectl get pods failed")
  pure (if x.success then phase_status (trim x.stdout) else not_found)

abbrev pub wait_command : K8sClient → Text → ℕ → Command
wait_command client label timeout_secs = kubectl client (
    txt "wait"
    ∷ txt "pods"
    ∷ txt "-l"
    ∷ label
    ∷ txt "--for=condition=Ready"
    ∷ (txt "--timeout=" ++ (to_string timeout_secs ++ txt "s"))
    ∷ [])

unfoldable pub wait_for_ready : K8sClient → Shell → Text → ℕ → Deploy (Unit {0})
wait_for_ready client shell label timeout_secs = do
  x ← output shell (wait_command client label timeout_secs) (txt "kubectl wait failed")
  succeeded_or (failed_with (txt "pod not ready") x.stderr) x

unfoldable pub get_logs : K8sClient → Shell → Text → ℕ → Deploy Text
get_logs client shell label tail = do
  x ←
      output shell
        (kubectl client (txt "logs" ∷ txt "-l" ∷ label ∷ (txt "--tail=" ++ to_string tail) ∷ []))
        (txt "kubectl logs failed")
  pure x.stdout

unfoldable pub rollout_restart : K8sClient → Shell → Text → Deploy (Unit {0})
rollout_restart client shell deployment = do
  x ←
      output shell
        (kubectl client (txt "rollout" ∷ txt "restart" ∷ txt "deployment" ∷ deployment ∷ []))
        (txt "kubectl rollout restart failed")
  succeeded_or (failed_with (txt "rollout restart failed") x.stderr) x

-- `--build-arg key=value` for each entry, in the order of the map
unfoldable pub build_arg_list : Map Text → List Text
build_arg_list [] = []
build_arg_list ((key, value) ∷ build_args) =
    txt "--build-arg" ∷ (key ++ (txt "=" ++ value)) ∷ build_arg_list build_args

-- `{:?}` of the exit code
abbrev pub show_code : Option ℤ → Text
show_code none = txt "None"
show_code (some (pos n)) = txt "Some(" ++ (to_string n ++ txt ")")
show_code (some (negsuc n)) = txt "Some(-" ++ (to_string (suc n) ++ txt ")")

abbrev pub build_outcome : Outcome → Deploy (Unit {0})
build_outcome (not_spawned e) = fail (config (failed_with (txt "failed to spawn docker build") e))
build_outcome (not_written e) = fail (config (failed_with (txt "docker build failed") e))
build_outcome (not_waited e) = fail (config (failed_with (txt "docker build failed") e))
build_outcome (exited x) =
    succeeded_or (txt "docker build failed with exit code: " ++ show_code x.code) x

unfoldable pub build_image : Shell → Text → Text → Text → Map Text → Deploy (Unit {0})
unfolding build_arg_list
build_image shell image dockerfile context build_args = do
  o ←
      execute shell
        (record (command_of (txt "docker") (
          txt "build"
          ∷ txt "-t"
          ∷ image
          ∷ txt "-f"
          ∷ dockerfile
          ∷ (build_arg_list build_args ++ txt "." ∷ []))) { dir = some context })
  build_outcome o

-- `registry.trim_end_matches('/')`
unfoldable pub trim_end_slashes : Text → Text
unfolding drop_while
trim_end_slashes s = reverse (drop_while (λ c. c == b'/') (reverse s))

abbrev pub tagged_image : Text → Text → Text
tagged_image registry image = trim_end_slashes registry ++ (txt "/" ++ image)

-- The image is tagged and pushed; the result is its name in the registry.
unfoldable pub push_image : Shell → Text → Text → Deploy Text
push_image shell image registry = do
  x ←
      output shell
        (command_of (txt "docker") (txt "tag" ∷ image ∷ tagged_image registry image ∷ []))
        (txt "docker tag failed")
  succeeded_or
      (txt "docker tag " ++ (image ++ (txt " " ++ (tagged_image registry image ++ txt " failed"))))
      x
  y ←
      output shell (command_of (txt "docker") (txt "push" ∷ tagged_image registry image ∷ []))
        (txt "docker push failed")
  succeeded_or (txt "docker push " ++ (tagged_image registry image ++ txt " failed")) y
  pure (tagged_image registry image)

abbrev pub values_args : Option Text → List Text
values_args none = []
values_args (some values) = txt "--values" ∷ values ∷ []

unfoldable pub helm_template : K8sClient → Shell → Text → Text → Option Text → Deploy Text
helm_template client shell release_name chart_path values_file = do
  x ←
      output shell
        (command_of (txt "helm") (
          txt "template"
          ∷ release_name
          ∷ chart_path
          ∷ txt "--namespace"
          ∷ client.namespace
          ∷ values_args values_file))
        (txt "helm template failed")
  succeeded_or (failed_with (txt "helm template failed") x.stderr) x
  pure x.stdout

unfoldable pub kustomize_build : Shell → Text → Deploy Text
kustomize_build shell kustomize_dir = do
  x ←
      output shell (command_of (txt "kubectl") (txt "kustomize" ∷ kustomize_dir ∷ []))
        (txt "kubectl kustomize failed")
  succeeded_or (failed_with (txt "kubectl kustomize failed") x.stderr) x
  pure x.stdout

abbrev pub helm_outcome : Outcome → Deploy (Unit {0})
helm_outcome (exited x) = succeeded_or (txt "helm version check failed") x
helm_outcome _ = fail (config (txt "helm not found in PATH"))

unfoldable pub check_helm_available : Shell → Deploy (Unit {0})
check_helm_available shell = do
  o ← execute shell (command_of (txt "helm") (txt "version" ∷ []))
  helm_outcome o
