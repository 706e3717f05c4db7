-- ===== src/Tests/Certs.antt =====
-- The theorem of src/cert.rs at work: a certificate is made, then found.
use dev.Prelude.{Text, txt, none, [], ◌≡◌, refl}
use dev.Error.{ok, err, io}
use dev.Map.{Map}
use dev.Cert.{Faults, get_or_create_cert}
use dev.Cert.Reuse.{get_or_create_cert-again}

abbrev no_faults : Faults
no_faults = record { on_read = λ _. none; on_create_dir = λ _. none; on_write = λ _. none }

abbrev pair : Text × Text
pair = (txt "CERT", txt "KEY")

abbrev no_files : Map Text
no_files = []

abbrev made : Map Text
made = (get_or_create_cert no_faults (ok pair) (txt "/p") no_files).1

first_call : get_or_create_cert no_faults (ok pair) (txt "/p") no_files ≡ (ok pair, made)
unfolding get_or_create_cert
first_call = refl

get_or_create_cert-again_example :
    get_or_create_cert no_faults (err (io (txt "no entropy"))) (txt "/p") made ≡ (ok pair, made)
get_or_create_cert-again_example =
    get_or_create_cert-again no_faults no_faults (ok pair) (err (io (txt "no entropy"))) (txt "/p")
      no_files made pair first_call (λ _. refl)
