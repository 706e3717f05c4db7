-- ===== src/K8s/Manifest.antt =====
-- src/k8s/manifest.rs: the YAML of a service. The Base64 encoder is a parameter.
pub mod Parts
use mathlib.Core.Option
use dev.Prelude.{
  Text, txt, same, test, ℕ, ◌/◌, Option, none, some, List, [], ◌∷◌, ◌++◌, map, Bool, true, false,
  ◌||◌, ◌&&◌, not, ◌==◌, ltb, if◌then◌else◌,
}
use dev.Map.{Map, is_some}
use dev.Strings.{concat, split_whitespace, join_path}
use dev.Strings.Decimal.{to_string}
use dev.Graph.{join}
use dev.Config.{ServiceDef, HealthConfig, http, tcp, K8sConfig, K8sVolume, K8sResources, HealthKind}
unfoldable pub use dev.K8s.Manifest.Parts.{
  is_nil, port_or_default, quoted, args_line, command_lines, parse_command, has_secret,
  configmap_ref, secret_ref, generate_env_vars, http_probes, tcp_probes, kind_probes,
  generate_probes, push_line, section, resource_lines, generate_resources, init_container,
  generate_init_containers, volume_mount, host_path_of, is_type, volume_source, volume,
  volume_texts, generate_volumes,
}

abbrev pub deployment_text :
    Text → Text → Text → Text → Text → Text → Text → Text → Text → Text → Text → Text → Text → Text
deployment_text name namespace replicas init_containers image command args port env_vars
      volume_mounts probes resources volumes =
    concat (
      txt "apiVersion: apps/v1\nkind: Deployment\nmetadata:\n  name: "
      ∷ name
      ∷ txt "\n  namespace: "
      ∷ namespace
      ∷ txt "\n  labels:\n    app: "
      ∷ name
      ∷ txt "\n    managed-by: a3s\nspec:\n  replicas: "
      ∷ replicas
      ∷ txt "\n  selector:\n    matchLabels:\n      app: "
      ∷ name
      ∷ txt "\n  template:\n    metadata:\n      labels:\n        app: "
      ∷ name
      ∷ txt "\n    spec:"
      ∷ init_containers
      ∷ txt "\n      containers:\n      - name: "
      ∷ name
      ∷ txt "\n        image: "
      ∷ image
      ∷ txt "\n        "
      ∷ command
      ∷ txt "\n        "
      ∷ args
      ∷ txt "\n        ports:\n        - containerPort: "
      ∷ port
      ∷ txt "\n          protocol: TCP\n        "
      ∷ env_vars
      ∷ txt "\n        "
      ∷ volume_mounts
      ∷ txt "\n        "
      ∷ probes
      ∷ txt "\n        "
      ∷ resources
      ∷ txt "\n"
      ∷ volumes
      ∷ txt "\n"
      ∷ [])

abbrev pub image_of : Option K8sConfig → Text
image_of none = txt "alpine:latest"
image_of (some k8s) = k8s.image

abbrev pub replicas_of : Option K8sConfig → ℕ
replicas_of none = 1
replicas_of (some k8s) = k8s.replicas

abbrev pub resources_of : Option K8sConfig → Option K8sResources
resources_of none = none
resources_of (some k8s) = k8s.resources

unfoldable pub generate_deployment : Text → ServiceDef → Text → Text → Text
unfolding parse_command generate_env_vars generate_probes generate_resources
    generate_init_containers generate_volumes
generate_deployment name svc namespace config_dir =
    let (command, args) = parse_command svc.cmd in
    let (volumes, volume_mounts) = generate_volumes svc.k8s config_dir in
    deployment_text name namespace (to_string (replicas_of svc.k8s))
      (generate_init_containers svc.depends_on) (image_of svc.k8s) command args
      (to_string (port_or_default svc.port)) (generate_env_vars name svc) volume_mounts
      (generate_probes svc.health svc.port) (generate_resources (resources_of svc.k8s)) volumes

abbrev pub service_text : Text → Text → Text → Text
service_text name namespace port = concat (
    txt "apiVersion: v1\nkind: Service\nmetadata:\n  name: "
    ∷ name
    ∷ txt "\n  namespace: "
    ∷ namespace
    ∷ txt "\n  labels:\n    app: "
    ∷ name
    ∷ txt "\n    managed-by: a3s\nspec:\n  selector:\n    app: "
    ∷ name
    ∷ txt "\n  ports:\n  - port: "
    ∷ port
    ∷ txt "\n    targetPort: "
    ∷ port
    ∷ txt "\n    protocol: TCP\n    name: http\n  type: ClusterIP\n"
    ∷ [])

unfoldable pub generate_service : Text → ServiceDef → Text → Text
unfolding concat
generate_service name svc namespace =
    service_text name namespace (to_string (port_or_default svc.port))

-- `v.replace("\"", "\\\"")`
unfoldable pub escape_quotes : Text → Text
escape_quotes [] = []
escape_quotes (c ∷ s) = if c == b'"' then 92 ∷ b'"' ∷ escape_quotes s else c ∷ escape_quotes s

abbrev pub configmap_line : Text × Text → Text
configmap_line (k, v) = concat (txt "  " ∷ k ∷ txt ": \"" ∷ escape_quotes v ∷ txt "\"" ∷ [])

abbrev pub configmap_text : Text → Text → Text → Text
configmap_text name namespace entries = concat (
    txt "apiVersion: v1\nkind: ConfigMap\nmetadata:\n  name: "
    ∷ name
    ∷ txt "-config\n  namespace: "
    ∷ namespace
    ∷ txt "\n  labels:\n    app: "
    ∷ name
    ∷ txt "\n    managed-by: a3s\ndata:\n"
    ∷ entries
    ∷ txt "\n"
    ∷ [])

abbrev pub configmap_of : Text → Text → Map Text → Option Text
configmap_of name namespace [] = none
configmap_of name namespace (e ∷ env) =
    some (configmap_text name namespace (join (txt "\n") (map configmap_line (e ∷ env))))

unfoldable pub generate_configmap : Text → ServiceDef → Text → Option Text
unfolding concat join escape_quotes
generate_configmap name svc namespace = configmap_of name namespace svc.env

abbrev pub secret_line : (Text → Text) → Text × Text → Text
secret_line encode (k, v) = concat (txt "  " ∷ k ∷ txt ": " ∷ encode v ∷ [])

abbrev pub secret_text : Text → Text → Text → Text
secret_text name namespace entries = concat (
    txt "apiVersion: v1\nkind: Secret\nmetadata:\n  name: "
    ∷ name
    ∷ txt "-secret\n  namespace: "
    ∷ namespace
    ∷ txt "\n  labels:\n    app: "
    ∷ name
    ∷ txt "\n    managed-by: a3s\ntype: Opaque\ndata:\n"
    ∷ entries
    ∷ txt "\n"
    ∷ [])

unfoldable pub generate_secret : (Text → Text) → Text → Map Text → Text → Option Text
unfolding concat join
generate_secret encode name [] namespace = none
generate_secret encode name (e ∷ secrets) namespace =
    some (secret_text name namespace (join (txt "\n") (map (secret_line encode) (e ∷ secrets))))

abbrev pub ingress_rule : Text → Text → Text → Text
ingress_rule subdomain name port = concat (
    txt "  - host: "
    ∷ subdomain
    ∷ txt ".localhost\n    http:\n      paths:\n      - path: /\n        pathType: Prefix\n"
    ∷ txt "        backend:\n          service:\n            name: "
    ∷ name
    ∷ txt "\n            port:\n              number: "
    ∷ port
    ∷ [])

abbrev pub push_rule : Text → ServiceDef → Option Text → List Text → List Text
push_rule name svc none rules = rules
push_rule name svc (some subdomain) rules =
    ingress_rule subdomain name (to_string (port_or_default svc.port)) ∷ rules

-- One rule for each service with a subdomain.
unfoldable pub ingress_rules : Map ServiceDef → List Text
unfolding concat
ingress_rules [] = []
ingress_rules ((name, svc) ∷ services) = push_rule name svc svc.subdomain (ingress_rules services)

abbrev pub ingress_text : Text → Text → Text
ingress_text namespace rules = concat (
    txt "apiVersion: networking.k8s.io/v1\nkind: Ingress\nmetadata:\n"
    ∷ txt "  name: a3s-ingress\n  namespace: "
    ∷ namespace
    ∷ txt "\n  labels:\n    managed-by: a3s\nspec:\n  rules:\n"
    ∷ rules
    ∷ txt "\n"
    ∷ [])

abbrev pub ingress_of : Text → List Text → Option Text
ingress_of namespace [] = none
ingress_of namespace (r ∷ rules) = some (ingress_text namespace (join (txt "\n") (r ∷ rules)))

unfoldable pub generate_ingress : Map ServiceDef → Text → Option Text
unfolding ingress_rules join
generate_ingress services namespace = ingress_of namespace (ingress_rules services)
