-- ===== src/Supervisor/Reload.antt =====
-- `reload` (src/supervisor/mod.rs). The derived `==` of `ServiceDef` is a parameter.
use dev.Prelude.{
  Text, ℕ, suc, Option, none, some, List, [], ◌∷◌, ◌++◌, Bool, not, ◌||◌, test, ◌≡◌, if◌then◌else◌,
}
use dev.Error.{ok}
use dev.Map.{Map, get, contains_key}
use dev.Config.{ServiceDef, DevConfig}
use dev.Graph.{from_config}
use dev.Supervisor.{Os, Run, ◌>>=◌, ◌>>◌, pure, world}
use dev.Supervisor.Start.{start_service}
use dev.Supervisor.Stop.{stop_service}
use dev.Supervisor.Fleet.{is_disabled, lift}

pub record ReloadSummary : Type 0 where
  pub started : List Text
  pub stopped : List Text
  pub restarted : List Text

abbrev pub no_changes : ReloadSummary
no_changes = record { started = []; stopped = []; restarted = [] }

-- `gone || disabled`
abbrev pub is_gone : Map ServiceDef → Text → Bool
is_gone services name = not (contains_key name services) || is_disabled (get name services)

-- Step 1: the names that were stopped.
unfoldable pub stop_gone : Os → Map ServiceDef → Map ServiceDef → Run (List Text)
stop_gone os new_services [] = pure []
stop_gone os new_services ((name, svc) ∷ old_services) =
    let rest = stop_gone os new_services old_services in
    if is_gone new_services name
    then (do stop_service os name; stopped ← rest; pure (name ∷ stopped))
    else rest

abbrev pub set_config : DevConfig → Run (Unit {0})
set_config cfg w = (ok tt, record w { config = cfg })

-- What step 3 does with a service that is enabled.
pub data Change : Type 0 where
  unchanged changed added : Change

module _ (same_service : (a b : ServiceDef) → Dec (a ≡ b)) where
  abbrev pub compare_service : Option ServiceDef → ServiceDef → Change
  compare_service none new_svc = added
  compare_service (some old_svc) new_svc =
      if test (same_service old_svc new_svc) then unchanged else changed

  abbrev pub change_of : Map ServiceDef → Map ServiceDef → Text → Change
  change_of old_services new_services name = elim (get name new_services) [
    | none ↦ unchanged
    | some new_svc ↦
        if new_svc.disabled then unchanged else compare_service (get name old_services) new_svc
  ]

  abbrev pub apply_change : Os → Text → ℕ → Change → ReloadSummary → Run ReloadSummary
  apply_change os name idx unchanged summary = pure summary
  apply_change os name idx changed summary = do
    stop_service os name
    start_service os name idx
    pure (record summary { restarted = summary.restarted ++ name ∷ [] })
  apply_change os name idx added summary = do
    start_service os name idx
    pure (record summary { started = summary.started ++ name ∷ [] })

  -- Step 3, from the place `idx` of the order.
  unfoldable pub apply_changes :
      Os → Map ServiceDef → Map ServiceDef → ℕ → List Text → ReloadSummary → Run ReloadSummary
  apply_changes os old_services new_services idx [] summary = pure summary
  apply_changes os old_services new_services idx (name ∷ order) summary = do
    summary' ← apply_change os name idx (change_of old_services new_services name) summary
    apply_changes os old_services new_services (suc idx) order summary'

  unfoldable pub reload : Os → DevConfig → Run ReloadSummary
  reload os new_config = do
    w ← world
    stopped ← stop_gone os new_config.service w.config.service
    set_config new_config
    graph ← lift (from_config new_config)
    apply_changes os w.config.service new_config.service 0 graph.order
        (record no_changes { stopped = stopped })
