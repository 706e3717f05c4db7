-- ===== src/K8s/Runtime/Secrets.antt =====
-- The precedence of `K8sRuntime::load_secrets`: the secret file over the configuration.
use dev.Prelude.{
  Text, Option, none, some, List, [], ◌∷◌, ◌≡◌, ◌∙◌, refl, ap, inl, inr, if◌then◌else◌, Bool-cases,
  same, ite, arith,
}
use dev.Error.{ok}
use dev.Map.{Map, get, or_else}
use dev.Map.Laws.{or_else_assoc, get-insert}
use dev.Strings.{trim, lines, split_once, join_path}
use dev.Config.{ServiceDef, K8sConfig}
use dev.Config.Load.{contents, is_comment}
use dev.K8s.{Shell, Cluster}
use dev.K8s.Runtime.{insert_secret, add_secret, add_secrets, load_secrets}

-- What the pair of a line says of the name.
abbrev pub pair_value : Text → Option (Text × Text) → Option Text
pair_value k none = none
pair_value k (some (key, value)) = ite (same (trim key) k) (some (trim value)) none

abbrev pub line_value : Text → Text → Option Text
line_value k line = if is_comment line then none else pair_value k (split_once b'=' line)

-- The value that the last of the lines that name `k` gives it.
unfoldable pub last_value : Text → List Text → Option Text
last_value k [] = none
last_value k (line ∷ ls) = or_else (last_value k ls) (line_value k (trim line))

insert_secret-get :
    (k : Text) (p : Option (Text × Text)) (m : Map Text)
    → get k (insert_secret p m) ≡ or_else (pair_value k p) (get k m)
insert_secret-get k none m = refl
insert_secret-get k (some (key, value)) m = ground (arith, get-insert (trim key) k (trim value) m)

add_secret-get :
    (k line : Text) (m : Map Text)
    → get k (add_secret line m) ≡ or_else (line_value k line) (get k m)
unfolding add_secret
add_secret-get k line m = elim (Bool-cases (is_comment line)) [
  | inl e ↦ rw (e, add_secret) refl
  | inr e ↦ rw (e, add_secret) (insert_secret-get k (split_once b'=' line) m)
]

pub add_secrets-get :
    (k : Text) (ls : List Text) (m : Map Text)
    → get k (add_secrets ls m) ≡ or_else (last_value k ls) (get k m)
unfolding add_secrets last_value
add_secrets-get k [] m = refl
add_secrets-get k (line ∷ ls) m =
    add_secrets-get k ls (add_secret (trim line) m)
    ∙ (ap (or_else (last_value k ls)) (add_secret-get k (trim line) m)
        ∙ or_else_assoc (last_value k ls) (line_value k (trim line)) (get k m))

-- With a readable secret file `load_secrets` runs no command and gives each name the value of the
-- last line of the file that sets it, or else the one of the configuration.
pub load_secrets-precedence :
    (shell : Shell) (svc : ServiceDef) (k8s : K8sConfig) (config_dir secret_file text : Text)
    (s : Cluster)
    → svc.k8s ≡ some k8s
    → k8s.secret_file ≡ some secret_file
    → shell.read s.commands (join_path config_dir secret_file) ≡ contents text
    → (secrets : Map Text) × (load_secrets shell svc config_dir s ≡ (ok secrets, s))
      × ((k : Text) → get k secrets ≡ or_else (last_value k (lines text)) (get k k8s.secrets))
unfolding load_secrets
load_secrets-precedence shell svc k8s config_dir secret_file text s e f r = (
  add_secrets (lines text) k8s.secrets,
  rw (e, f, r) refl,
  λ k. add_secrets-get k (lines text) k8s.secrets,
)
