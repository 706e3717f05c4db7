-- ===== src/K8s/Manifest/Parts.antt =====
-- The parts of a deployment's YAML (src/k8s/manifest.rs): command, environment, probes, resources and
-- volumes.
use mathlib.Core.Option
use dev.Prelude.{
  Text, txt, same, test, ℕ, ◌/◌, Option, none, some, List, [], ◌∷◌, ◌++◌, map, Bool, true, false,
  ◌||◌, ◌&&◌, not, ltb, if◌then◌else◌,
}
use dev.Map.{is_some}
use dev.Strings.{concat, split_whitespace, join_path}
use dev.Strings.Decimal.{to_string}
use dev.Graph.{join}
use dev.Config.{ServiceDef, HealthConfig, http, tcp, K8sConfig, K8sVolume, K8sResources, HealthKind}

abbrev pub is_nil {ℓ} : {A : Type ℓ} → List A → Bool
is_nil [] = true
is_nil (x ∷ xs) = false

-- `if port > 0 { port } else { 8080 }`
abbrev pub port_or_default : ℕ → ℕ
port_or_default port = if ltb 0 port then port else 8080

abbrev pub quoted : Text → Text
quoted a = txt "\"" ++ (a ++ txt "\"")

abbrev pub args_line : List Text → Text
args_line [] = []
args_line (a ∷ args) =
    concat (txt "args: [" ∷ join (txt ", ") (map quoted (a ∷ args)) ∷ txt "]\n        " ∷ [])

abbrev pub command_lines : List Text → Text × Text
command_lines [] = ([], [])
command_lines (program ∷ args) =
    (concat (txt "command: [\"" ∷ program ∷ txt "\"]\n        " ∷ []), args_line args)

unfoldable pub parse_command : Text → Text × Text
unfolding split_whitespace join concat
parse_command cmd = command_lines (split_whitespace cmd)

-- `k.secret_file.is_some() || !k.secrets.is_empty()`
abbrev pub has_secret : Option K8sConfig → Bool
has_secret none = false
has_secret (some k8s) = is_some k8s.secret_file || not (is_nil k8s.secrets)

abbrev pub configmap_ref : Text → Text
configmap_ref name =
    concat (txt "        - configMapRef:\n            name: " ∷ name ∷ txt "-config\n" ∷ [])

abbrev pub secret_ref : Text → Text
secret_ref name =
    concat (txt "        - secretRef:\n            name: " ∷ name ∷ txt "-secret\n" ∷ [])

unfoldable pub generate_env_vars : Text → ServiceDef → Text
unfolding concat
generate_env_vars name svc =
    let configmap = not (is_nil svc.env) in
    let secret = has_secret svc.k8s in
    if not configmap && not secret
    then []
    else concat (
        txt "envFrom:\n"
        ∷ (if configmap then configmap_ref name else [])
        ∷ (if secret then secret_ref name else [])
        ∷ txt "        "
        ∷ [])

abbrev pub http_probes : Text → Text → Text → Text → Text → Text
http_probes path port interval timeout retries = concat (
    txt "livenessProbe:\n          httpGet:\n            path: "
    ∷ path
    ∷ txt "\n            port: "
    ∷ port
    ∷ txt "\n          initialDelaySeconds: 10\n          periodSeconds: "
    ∷ interval
    ∷ txt "\n          timeoutSeconds: "
    ∷ timeout
    ∷ txt "\n          failureThreshold: "
    ∷ retries
    ∷ txt "\n        readinessProbe:\n          httpGet:\n            path: "
    ∷ path
    ∷ txt "\n            port: "
    ∷ port
    ∷ txt "\n          initialDelaySeconds: 5\n          periodSeconds: "
    ∷ interval
    ∷ txt "\n          timeoutSeconds: "
    ∷ timeout
    ∷ txt "\n          failureThreshold: "
    ∷ retries
    ∷ txt "\n        "
    ∷ [])

abbrev pub tcp_probes : Text → Text → Text → Text → Text
tcp_probes port interval timeout retries = concat (
    txt "livenessProbe:\n          tcpSocket:\n            port: "
    ∷ port
    ∷ txt "\n          initialDelaySeconds: 10\n          periodSeconds: "
    ∷ interval
    ∷ txt "\n          timeoutSeconds: "
    ∷ timeout
    ∷ txt "\n          failureThreshold: "
    ∷ retries
    ∷ txt "\n        readinessProbe:\n          tcpSocket:\n            port: "
    ∷ port
    ∷ txt "\n          initialDelaySeconds: 5\n          periodSeconds: "
    ∷ interval
    ∷ txt "\n        "
    ∷ [])

abbrev pub kind_probes : HealthKind → HealthConfig → ℕ → Text
kind_probes http health port =
    http_probes (Option.get_or health.path (txt "/health")) (to_string port)
      (to_string (health.interval / 1000)) (to_string (health.timeout / 1000))
      (to_string health.retries)
kind_probes tcp health port =
    tcp_probes (to_string port) (to_string (health.interval / 1000))
      (to_string (health.timeout / 1000)) (to_string health.retries)

unfoldable pub generate_probes : Option HealthConfig → ℕ → Text
unfolding concat
generate_probes none port = []
generate_probes (some health) port = kind_probes health.kind health (port_or_default port)

-- `if let Some(ref v) = value { lines.push(format!("..{v}")) }`, in front of what is pushed next
abbrev pub push_line : Text → Option Text → List Text → List Text
push_line label none ls = ls
push_line label (some value) ls = (label ++ value) ∷ ls

abbrev pub section : Text → List Text → Text
section title [] = []
section title (l ∷ ls) = concat (title ∷ join (txt "\n") (l ∷ ls) ∷ txt "\n" ∷ [])

abbrev pub resource_lines : List Text → List Text → Text
resource_lines requests limits =
    if is_nil requests && is_nil limits
    then []
    else concat (
        txt "resources:\n"
        ∷ section (txt "        requests:\n") requests
        ∷ section (txt "        limits:\n") limits
        ∷ txt "        "
        ∷ [])

unfoldable pub generate_resources : Option K8sResources → Text
unfolding concat join
generate_resources none = []
generate_resources (some res) =
    resource_lines
      (push_line (txt "          cpu: ") res.cpu_request
        (push_line (txt "          memory: ") res.memory_request []))
      (push_line (txt "          cpu: ") res.cpu_limit
        (push_line (txt "          memory: ") res.memory_limit []))

abbrev pub init_container : Text → Text
init_container dep = concat (
    txt "      - name: wait-for-"
    ∷ dep
    ∷ txt "\n        image: busybox:1.36\n        command: ['sh', '-c', 'until nslookup "
    ∷ dep
    ∷ txt "; do echo waiting for "
    ∷ dep
    ∷ txt "; sleep 2; done']"
    ∷ [])

unfoldable pub generate_init_containers : List Text → Text
unfolding concat join
generate_init_containers [] = []
generate_init_containers (dep ∷ depends_on) = concat (
    txt "\n      initContainers:\n"
    ∷ join (txt "\n") (map init_container (dep ∷ depends_on))
    ∷ txt "\n"
    ∷ [])

abbrev pub volume_mount : K8sVolume → Text
volume_mount v = concat (
    txt "        - name: "
    ∷ v.name
    ∷ txt "\n          mountPath: "
    ∷ v.mount_path
    ∷ (if v.read_only then txt "\n          readOnly: true" else [])
    ∷ [])

abbrev pub host_path_of : Text → Option Text → Text
host_path_of config_dir none = txt "/tmp"
host_path_of config_dir (some p) = join_path config_dir p

abbrev pub is_type : Text → Text → Bool
is_type a b = test (same a b)

-- The volume behind its name, by its type.
unfoldable pub volume_source : Text → K8sVolume → Text
volume_source config_dir v =
    if is_type v.volume_type (txt "hostPath")
    then concat (
        txt "\n        hostPath:\n          path: "
        ∷ host_path_of config_dir v.host_path
        ∷ txt "\n          type: DirectoryOrCreate"
        ∷ [])
    else if is_type v.volume_type (txt "emptyDir")
    then txt "\n        emptyDir: {}"
    else if is_type v.volume_type (txt "configMap")
    then txt "\n        configMap:\n          name: "
      ++ Option.get_or v.config_map (txt "missing-configmap")
    else if is_type v.volume_type (txt "secret")
    then txt "\n        secret:\n          secretName: "
      ++ Option.get_or v.secret (txt "missing-secret")
    else txt "\n        emptyDir: {}  # unsupported type: " ++ v.volume_type

abbrev pub volume : Text → K8sVolume → Text
volume config_dir v = concat (txt "      - name: " ∷ v.name ∷ volume_source config_dir v ∷ [])

abbrev pub volume_texts : Text → List K8sVolume → Text × Text
volume_texts config_dir [] = ([], [])
volume_texts config_dir (v ∷ vs) = (
  concat
      (txt "      volumes:\n" ∷ join (txt "\n") (map (volume config_dir) (v ∷ vs)) ∷ txt "\n" ∷ []),
  concat
      (txt "volumeMounts:\n" ∷ join (txt "\n") (map volume_mount (v ∷ vs)) ∷ txt "\n        " ∷ []),
)

-- The volumes of the pod, and their mounts in the container.
unfoldable pub generate_volumes : Option K8sConfig → Text → Text × Text
unfolding concat join volume_source
generate_volumes none config_dir = ([], [])
generate_volumes (some k8s) config_dir = volume_texts config_dir k8s.volumes
