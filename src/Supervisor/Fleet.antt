-- ===== src/Supervisor/Fleet.antt =====
-- The operations on several services (src/supervisor/mod.rs): `start_all`, `start_named`,
-- `stop_all`, `stop_named` and `restart_service`. The tasks of one wave run one after the
-- other, in the wave's order; a task is one step.
pub mod Starts
pub mod Names
pub mod Halts
use mathlib.Core.List.{reverse}
use mathlib.Core.Option
use dev.Prelude.{
  Text, txt, same, test, ℕ, zero, suc, Option, none, some, List, [], ◌∷◌, ◌++◌, map, Bool, true,
  false, not, ◌||◌, if◌then◌else◌,
}
use dev.Error.{Result, ok, err, panic, config}
use dev.Map.{Map, keys, get, contains_key}
use dev.Config.{ServiceDef, DevConfig}
use dev.State.{ServiceState, stopped}
use dev.Graph.{
  DependencyGraph, from_config, stop_order, transitive_start_order,
  transitive_dependents_stop_order,
}
use dev.Supervisor.{Supervisor, ServiceHandle, Os, Run, after, ◌>>=◌, ◌>>◌, pure, fault, world}
use dev.Supervisor.Start.{start_service}
use dev.Supervisor.Stop.{stop_service}

-- `cfg.service.get(name).is_some_and(|s| s.disabled)`
abbrev pub is_disabled : Option ServiceDef → Bool
is_disabled none = false
is_disabled (some svc) = svc.disabled

-- `color.get(&name).copied().unwrap_or(0)`: the place in the topological order
unfoldable pub color_of : Text → List Text → ℕ
color_of name [] = 0
color_of name (n ∷ order) =
    let rest = color_of name order in if test (same n name) then 0 else suc rest

-- A graph that may be refused.
abbrev pub lift {ℓ} : {A : Type ℓ} → Result A → Run A
lift r w = (r, w)

-- The loop of `start_named`.
unfoldable pub start_each : Os → DevConfig → List Text → List Text → Run (Unit {0})
unfolding get
start_each os cfg order [] = pure tt
start_each os cfg order (name ∷ names) =
    let rest = start_each os cfg order names in
    if is_disabled (get name cfg.service)
    then rest
    else start_service os name (color_of name order) >> rest

-- `res.map_err(|e| DevError::Config(e.to_string()))??`: a task that panicked is an error.
abbrev pub joined : Os → Result (Unit {0}) × Supervisor → Result (Unit {0}) × Supervisor
joined os (panic p, w) = (err (config (os.join_error p)), w)
joined os (ok u, w) = (ok u, w)
joined os (err e, w) = (err e, w)

abbrev pub start_task : Os → Text → ℕ → Run (Unit {0})
start_task os name color_idx w = joined os (start_service os name color_idx w)

-- The tasks of a wave.
unfoldable pub start_wave : Os → DevConfig → List Text → List Text → Run (Unit {0})
unfolding get
start_wave os cfg order [] = pure tt
start_wave os cfg order (name ∷ wave) =
    let rest = start_wave os cfg order wave in
    if is_disabled (get name cfg.service)
    then rest
    else start_task os name (color_of name order) >> rest

unfoldable pub start_waves : Os → DevConfig → List Text → List (List Text) → Run (Unit {0})
start_waves os cfg order [] = pure tt
start_waves os cfg order (wave ∷ waves) =
    start_wave os cfg order wave >> start_waves os cfg order waves

unfoldable pub start_all : Os → Run (Unit {0})
start_all os = do
  w ← world
  graph ← lift (from_config w.config)
  start_waves os w.config graph.order graph.waves

unfoldable pub start_named : Os → List Text → Run (Unit {0})
start_named os names = do
  w ← world
  graph ← lift (from_config w.config)
  start_each os w.config graph.order (transitive_start_order graph names)

unfoldable pub stop_each : Os → List Text → Run (Unit {0})
stop_each os [] = pure tt
stop_each os (name ∷ names) = stop_service os name >> stop_each os names

-- `set.join_next().await.is_some()`: whatever the task came to.
abbrev pub ignored : Result (Unit {0}) × Supervisor → Result (Unit {0}) × Supervisor
ignored (r, w) = (ok tt, w)

abbrev pub stop_task : Os → Text → Run (Unit {0})
stop_task os name w = ignored (stop_service os name w)

unfoldable pub stop_wave : Os → List Text → Run (Unit {0})
stop_wave os [] = pure tt
stop_wave os (name ∷ wave) = stop_task os name >> stop_wave os wave

unfoldable pub stop_waves : Os → List (List Text) → Run (Unit {0})
stop_waves os [] = pure tt
stop_waves os (wave ∷ waves) = stop_wave os wave >> stop_waves os waves

-- `matches!(h.state, ServiceState::Stopped)`
abbrev pub is_stopped : ServiceState → Bool
is_stopped stopped = true
is_stopped _ = false

-- The names of the handles that are not stopped.
unfoldable pub running_names : Map ServiceHandle → List Text
running_names [] = []
running_names ((n, h) ∷ handles) =
    let rest = running_names handles in if is_stopped h.state then rest else n ∷ rest

abbrev pub stop_graph : Os → Result DependencyGraph → Run (List Text)
stop_graph os (ok graph) = do
  w ← world
  stop_waves os (reverse graph.waves)
  pure (running_names w.handles)
stop_graph os (err e) = pure []
stop_graph os (panic p) = fault p

unfoldable pub stop_all : Os → Run (List Text)
stop_all os = do w ← world; stop_graph os (from_config w.config)

abbrev pub named_order : List Text → Result DependencyGraph → List Text
named_order names (ok graph) = transitive_dependents_stop_order graph names
named_order names _ = names

unfoldable pub stop_named : Os → List Text → Run (List Text)
stop_named os names = do
  w ← world
  stop_each os (named_order names (from_config w.config))
  pure (named_order names (from_config w.config))

-- `map.get(n).map(|h| h.color_idx).unwrap_or(0)`
abbrev pub handle_color : Option ServiceHandle → ℕ
handle_color none = 0
handle_color (some h) = h.color_idx

-- The starts of `restart_service`; whether a service is disabled is not looked at.
unfoldable pub start_again : Os → Map ServiceHandle → List Text → Run (Unit {0})
unfolding get
start_again os before [] = pure tt
start_again os before (name ∷ names) =
    start_service os name (handle_color (get name before)) >> start_again os before names

unfoldable pub restart_service : Os → Text → Run (Unit {0})
restart_service os name = do
  w ← world
  graph ← lift (from_config w.config)
  stop_each os (transitive_dependents_stop_order graph (name ∷ []))
  start_again os w.handles (reverse (transitive_dependents_stop_order graph (name ∷ [])))
