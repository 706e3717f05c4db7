-- ===== src/Tests/Clusters.antt =====
-- The theorems of src/k8s/ and of the Kubernetes mode at work on a shell whose commands succeed.

use dev.Prelude.{Text, txt, none, some, [], ◌∷◌, ◌++◌, true, ◌≡◌, refl}
use dev.Error.{ok}
use dev.Map.{Map, get, or_else}
use dev.Strings.{lines}
use dev.Config.{ServiceDef, K8sConfig, plain_service}
use dev.Config.Load.{contents}
use dev.K8s.{Shell, Cluster, Exit, exited}
use dev.K8s.Runtime.{K8sRuntime, load_secrets, start_service, stop_service, shift_remove}
use dev.K8s.Runtime.Secrets.{last_value, load_secrets-precedence}
use dev.K8s.Runtime.Starts.{Deployed, documents, start_service-Deployed}
use dev.K8s.Runtime.Stops.{deletions, AllManifests, stop_service-deletes}
use dev.Tests.{web}

abbrev pub success : Exit
success = record { success = true; code = none; stdout = []; stderr = [] }

-- Each command succeeds, and each file holds two secrets.
abbrev pub smooth : Shell
smooth = record {
  outcome = λ _. exited success;
  read = λ _ path. contents (txt "KEY=file\nTOKEN=t\n");
  encode = λ s. s;
}

abbrev pub empty : Cluster
empty = record { commands = []; manifests = [] }

abbrev runtime : K8sRuntime
runtime = record { client = record { context = none; namespace = txt "default" }; registry = none }

abbrev k8s : K8sConfig
k8s = record {
  image = txt "web:1";
  dockerfile = none;
  build_args = [];
  replicas = 1;
  resources = none;
  helm_chart = none;
  helm_values = none;
  kustomize_dir = none;
  secret_file = some (txt "secrets.env");
  secrets = (txt "KEY", txt "inline") ∷ [];
  volumes = [];
}

abbrev api : ServiceDef
api = record (plain_service (txt "node api.js") 3000 []) { k8s = some k8s }

load_secrets-precedence_example :
    (secrets : Map Text) × (load_secrets smooth api (txt "/p") empty ≡ (ok secrets, empty))
    × ((k : Text)
        → get k secrets
          ≡ or_else (last_value k (lines (txt "KEY=file\nTOKEN=t\n"))) (get k k8s.secrets))
load_secrets-precedence_example =
    load_secrets-precedence smooth api k8s (txt "/p") (txt "secrets.env")
      (txt "KEY=file\nTOKEN=t\n") empty refl refl refl

abbrev plain : ServiceDef
plain = plain_service (txt "node web.js") 3000 []

no_secrets : load_secrets smooth plain (txt "/p") empty ≡ (ok [], empty)
unfolding load_secrets
no_secrets = refl

start_service-Deployed_example :
    Deployed smooth runtime.client web
      (documents smooth runtime web plain (txt "/p") [])
      empty
      (start_service runtime smooth web plain (txt "/p") empty)
start_service-Deployed_example =
    start_service-Deployed runtime smooth web plain (txt "/p") [] empty tt no_secrets

stop_service-deletes_example :
    (stop_service runtime smooth web empty ≡ (
      ok tt,
      record empty {
        commands = empty.commands ++ deletions runtime.client web;
        manifests = shift_remove web empty.manifests;
      },
    ))
    × ((svc : ServiceDef) (config_dir : Text) (secrets : Map Text)
        → AllManifests runtime.client.namespace web
            (documents smooth runtime web svc config_dir secrets))
stop_service-deletes_example = stop_service-deletes runtime smooth web empty (λ cs. (success, refl))

abbrev inline : ServiceDef
inline = record api { k8s = some (record k8s { secret_file = none }) }
