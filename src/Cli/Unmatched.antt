-- ===== src/Cli/Unmatched.antt =====
-- Labels that no service has, in the local mode.
use dev.Prelude.{Text, List, [], ◌∷◌, false, ◌≡◌}
use mathlib.Core.Option
use dev.Map.{Map}
use dev.Config.{ServiceDef}
use dev.Supervisor.{Supervisor}
use dev.Cli.Targets.{has_label}

-- No service has one of the labels.
abbrev pub NoneLabelled : List Text → Map ServiceDef → Type 0
NoneLabelled labels [] = Unit
NoneLabelled labels ((name, svc) ∷ services) =
    (has_label svc labels ≡ false) × NoneLabelled labels services
