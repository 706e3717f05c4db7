-- ===== src/Cert.antt =====
-- src/cert.rs: the certificate of a project. The state is what the files hold; making a certificate,
-- which a library does, and the errors of the file system are parameters.
pub mod Reuse
use dev.Prelude.{
  Text, txt, Option, none, some, List, [], ◌∷◌, ◌++◌, Bool, true, false, ◌&&◌, if◌then◌else◌,
}
use dev.Error.{Result, ok, err, config}
use dev.Map.{Map, get, contains_key, insert}
use dev.Strings.{join_path}
use dev.Steps.{Steps, after, ◌>>=◌, ◌>>◌, pure, fail, lift}

-- The errors of the calls, if they fail, by path
pub record Faults : Type 0 where
  pub on_read : Text → Option Text
  pub on_create_dir : Text → Option Text
  pub on_write : Text → Option Text

abbrev pub Files {ℓ} : Type ℓ → Type ℓ
Files A = Steps (Map Text) A

abbrev pub failed_to : Text → Text → Text
failed_to what e = txt "failed to " ++ (what ++ (txt ": " ++ e))

abbrev pub unless {ℓ} : {A : Type ℓ} → Text → Option Text → Files A → Files A
unless what none go = go
unless what (some e) go = fail (config (failed_to what e))

-- A file that is not there cannot be read.
abbrev pub content : Text → Option Text → Files Text
content what none = fail (config (failed_to what (txt "No such file or directory (os error 2)")))
content what (some s) = pure s

abbrev pub read : Faults → Text → Text → Files Text
read faults what path = unless what (faults.on_read path) (λ s. content what (get path s) s)

abbrev pub write : Faults → Text → Text → Text → Files (Unit {0})
write faults what path text = unless what (faults.on_write path) (λ s. (ok tt, insert path text s))

abbrev pub create_dir_all : Faults → Text → Files (Unit {0})
create_dir_all faults dir =
    unless (txt "create .a3s directory") (faults.on_create_dir dir) (pure tt)

abbrev pub cert_dir : Text → Text
cert_dir project_dir = join_path project_dir (txt ".a3s")

abbrev pub cert_path : Text → Text
cert_path project_dir = join_path (cert_dir project_dir) (txt "cert.pem")

abbrev pub key_path : Text → Text
key_path project_dir = join_path (cert_dir project_dir) (txt "key.pem")

abbrev pub load_cert : Faults → Text → Files (Text × Text)
load_cert faults project_dir = do
  cert ← read faults (txt "read certificate") (cert_path project_dir)
  key ← read faults (txt "read private key") (key_path project_dir)
  pure (cert, key)

abbrev pub create_cert : Faults → Result (Text × Text) → Text → Files (Text × Text)
create_cert faults generated project_dir = do
  pair ← lift generated
  create_dir_all faults (cert_dir project_dir)
  write faults (txt "write certificate") (cert_path project_dir) pair.0
  write faults (txt "write private key") (key_path project_dir) pair.1
  pure pair

abbrev pub has_cert : Text → Map Text → Bool
has_cert project_dir s =
    contains_key (cert_path project_dir) s && contains_key (key_path project_dir) s

unfoldable pub get_or_create_cert : Faults → Result (Text × Text) → Text → Files (Text × Text)
unfolding join_path get contains_key
get_or_create_cert faults generated project_dir s =
    if has_cert project_dir s
    then load_cert faults project_dir s
    else create_cert faults generated project_dir s
