-- ===== src/K8s/References.antt =====
-- The references of a deployment to the config map and the secret of its service.

use dev.Prelude.{Text, txt, Option, none, some, [], ◌∷◌, Bool, ◌&&◌, not, ◌≡◌, if◌then◌else◌}
use dev.Map.{Map}
use dev.Strings.{concat}
use dev.Config.{K8sConfig}

-- The references, in the words of what there is to refer to
abbrev pub references : Text → Bool → Bool → Text
references name configmap secret =
    if not configmap && not secret
    then []
    else concat (
        txt "envFrom:\n"
        ∷ (if configmap
            then concat
                (txt "        - configMapRef:\n            name: " ∷ name ∷ txt "-config\n" ∷ [])
            else [])
        ∷ (if secret
            then concat
                (txt "        - secretRef:\n            name: " ∷ name ∷ txt "-secret\n" ∷ [])
            else [])
        ∷ txt "        "
        ∷ [])

abbrev pub NoSecretFile : Option K8sConfig → Type 0
NoSecretFile none = Unit
NoSecretFile (some k8s) = k8s.secret_file ≡ none

abbrev inline_secrets : Option K8sConfig → Map Text
inline_secrets none = []
inline_secrets (some k8s) = k8s.secrets
