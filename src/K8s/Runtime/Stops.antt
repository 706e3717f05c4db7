-- ===== src/K8s/Runtime/Stops.antt =====
-- A stop deletes whatever a deployment from generated manifests applied.
use mathlib.Core.List.{append_assoc, append-nil}
use dev.Prelude.{Text, txt, List, [], ◌∷◌, ◌++◌, map, ◌≡◌, refl}
use dev.Error.{ok}
use dev.Map.{Map}
use dev.Strings.{concat}
use dev.Config.{ServiceDef}
use dev.Graph.{join}
use dev.K8s.{Command, Exit, exited, Shell, Cluster, execute}
use dev.K8s.Client.{K8sClient, client_args, command_of, delete_resource}
use dev.K8s.Manifest.{
  secret_line, configmap_line, configmap_of, generate_deployment, generate_service,
  generate_configmap, generate_secret,
}
use dev.K8s.Runs.{ran}
use dev.K8s.Runtime.{K8sRuntime, stop_service, shift_remove}
use dev.K8s.Runtime.Applies.{to_list}
use dev.K8s.Runtime.Starts.{documents}

pub data Kind : Type 0 where
  service deployment configmap secret : Kind

-- The word for a kind in `kubectl delete`, and the one in a manifest.
abbrev pub lower : Kind → Text
lower service = txt "service"
lower deployment = txt "deployment"
lower configmap = txt "configmap"
lower secret = txt "secret"

abbrev pub title : Kind → Text
title service = txt "Service"
title deployment = txt "Deployment"
title configmap = txt "ConfigMap"
title secret = txt "Secret"

abbrev pub resource : Kind → Text → Text
resource service name = name
resource deployment name = name
resource configmap name = name ++ txt "-config"
resource secret name = name ++ txt "-secret"

abbrev pub deletion : K8sClient → Text → Kind → Command
deletion client name kind = command_of (txt "kubectl") (
    txt "delete"
    ∷ lower kind
    ∷ resource kind name
    ∷ (client_args client ++ txt "--ignore-not-found=true" ∷ []))

abbrev pub deletions : K8sClient → Text → List Command
deletions client name =
    deletion client name service
    ∷ deletion client name deployment
    ∷ deletion client name configmap
    ∷ deletion client name secret
    ∷ []

-- The text is the manifest of the resource of that kind for the service `name`.
abbrev pub IsManifest : Text → Text → Text → Kind → Type 0
IsManifest namespace name doc kind =
    (version rest : Text) × (doc
      ≡ txt "apiVersion: "
        ++ (version
            ++ (txt "\nkind: "
                ++ (title kind
                    ++ (txt "\nmetadata:\n  name: "
                        ++ (resource kind name
                            ++ (txt "\n  namespace: " ++ (namespace ++ rest))))))))

-- Each text is the manifest of a resource for the service `name`.
unfoldable pub AllManifests : Text → Text → List Text → Type 0
AllManifests namespace name [] = Unit
AllManifests namespace name (doc ∷ ds) =
    ((kind : Kind) × IsManifest namespace name doc kind) × AllManifests namespace name ds

-- What stands behind the namespace in a manifest with metadata.
abbrev labelled : Text → Text → Text
labelled name rest = txt "\n  labels:\n    app: " ++ (name ++ rest)

generate_secret-IsManifest :
    (encode : Text → Text) (name namespace : Text) (secrets : Map Text) (ds : List Text)
    → AllManifests namespace name ds
    → AllManifests namespace name (to_list (generate_secret encode name secrets namespace) ++ ds)
unfolding generate_secret AllManifests concat
generate_secret-IsManifest encode name namespace [] ds a = a
generate_secret-IsManifest encode name namespace (e ∷ secrets) ds a = (
  (
    secret,
    (
      txt "v1",
      labelled name (
          txt "\n    managed-by: a3s\ntype: Opaque\ndata:\n"
          ++ (join (txt "\n") (map (secret_line encode) (e ∷ secrets)) ++ txt "\n")),
      simp (append_assoc, append-nil),
    ),
  ),
  a,
)

generate_configmap-IsManifest :
    (name namespace : Text) (env : Map Text) (ds : List Text)
    → AllManifests namespace name ds
    → AllManifests namespace name (to_list (configmap_of name namespace env) ++ ds)
unfolding generate_configmap AllManifests concat
generate_configmap-IsManifest name namespace [] ds a = a
generate_configmap-IsManifest name namespace (e ∷ env) ds a = (
  (
    configmap,
    (
      txt "v1",
      labelled name (
          txt "\n    managed-by: a3s\ndata:\n"
          ++ (join (txt "\n") (map configmap_line (e ∷ env)) ++ txt "\n")),
      simp (append_assoc, append-nil),
    ),
  ),
  a,
)

generate_service-IsManifest :
    (name namespace : Text) (svc : ServiceDef)
    → IsManifest namespace name (generate_service name svc namespace) service
unfolding generate_service concat
generate_service-IsManifest name namespace svc = (txt "v1", _, refl)

generate_deployment-IsManifest :
    (name namespace config_dir : Text) (svc : ServiceDef)
    → IsManifest namespace name (generate_deployment name svc namespace config_dir) deployment
unfolding generate_deployment concat
generate_deployment-IsManifest name namespace config_dir svc = (txt "apps/v1", _, refl)

delete_resource-ran :
    (client : K8sClient) (shell : Shell) (kind : Kind) (name : Text) (s : Cluster)
    → ((cs : List Command) → (x : Exit) × (shell.outcome cs ≡ exited x))
    → delete_resource client shell (lower kind) (resource kind name) s
      ≡ (ok tt, ran (deletion client name kind ∷ []) s)
unfolding delete_resource execute
delete_resource-ran client shell kind name s exits =
    rw (exits (s.commands ++ deletion client name kind ∷ [])).1 refl

-- When each command runs, with whatever exit, `stop_service` succeeds, deletes a resource of each
-- kind, and forgets the manifests; and each manifest that a start from generated manifests applies
-- for the service, whatever its secrets, is that of one of these resources.
pub stop_service-deletes :
    (runtime : K8sRuntime) (shell : Shell) (name : Text) (s : Cluster)
    → ((cs : List Command) → (x : Exit) × (shell.outcome cs ≡ exited x))
    → (stop_service runtime shell name s ≡ (
      ok tt,
      record s {
        commands = s.commands ++ deletions runtime.client name;
        manifests = shift_remove name s.manifests;
      },
    ))
      × ((svc : ServiceDef) (config_dir : Text) (secrets : Map Text)
          → AllManifests runtime.client.namespace name
              (documents shell runtime name svc config_dir secrets))
unfolding stop_service AllManifests generate_configmap
stop_service-deletes runtime shell name s exits = (
  rw
      (
        delete_resource-ran runtime.client shell service name s exits,
        delete_resource-ran runtime.client shell deployment name _ exits,
        delete_resource-ran runtime.client shell configmap name _ exits,
        delete_resource-ran runtime.client shell secret name _ exits,
      )
      (simp append_assoc),
  λ svc config_dir secrets.
      generate_secret-IsManifest shell.encode name runtime.client.namespace secrets
        (to_list (generate_configmap name svc runtime.client.namespace)
          ++ generate_deployment name svc runtime.client.namespace config_dir
            ∷ generate_service name svc runtime.client.namespace
            ∷ [])
        (generate_configmap-IsManifest name runtime.client.namespace svc.env
          (generate_deployment name svc runtime.client.namespace config_dir
            ∷ generate_service name svc runtime.client.namespace
            ∷ [])
          (
            (deployment, generate_deployment-IsManifest name _ config_dir svc),
            ((service, generate_service-IsManifest name _ svc), tt),
          )),
)
