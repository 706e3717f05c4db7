-- ===== src/Supervisor/Fleet/Starts.antt =====
-- `start_all` and `start_named`: which services run when another one starts, and in the end.
use dev.Prelude.{Text, ℕ, ◌<◌, some, List, [], ◌∷◌, ◌≡◌, true, false}
use dev.Prelude.Counts.{count}
use dev.Error.{Result, ok, err, panic}
use dev.Map.{Map, get}
use dev.Config.{ServiceDef}
use dev.State.{running}
use dev.Graph.Edges.{needs}
use dev.Supervisor.{Supervisor, ServiceHandle}
use dev.Supervisor.Start.Laws.{IsStarted}
use dev.Supervisor.Fleet.{is_disabled}

-- The service has a handle in the state `Running`.
pub record IsRunning (name : Text) (w : Supervisor) : Type 0 where
  pub handle : ServiceHandle
  pub pid : ℕ
  pub since : ℕ
  pub found : get name w.handles ≡ some handle
  pub is_running : handle.state ≡ running pid since

-- A run over the names from one state to another: disabled services are skipped, and each other one
-- is started.
pub data Starts (services : Map ServiceDef) : List Text → Supervisor → Supervisor → Type 0 where
  done : {w : Supervisor} → Starts services [] w w
  skip :
      {n : Text} {names : List Text} {w w' : Supervisor}
      → is_disabled (get n services) ≡ true
      → Starts services names w w'
      → Starts services (n ∷ names) w w'
  start :
      {n : Text} {names : List Text} {w v w' : Supervisor}
      → IsStarted n w v
      → Starts services names v w'
      → Starts services (n ∷ names) w w'

-- Such a run in which, whenever a service starts, each enabled service that it needs is running.
pub data SafeStarts (services : Map ServiceDef) : List Text → Supervisor → Supervisor → Type 0 where
  safe_done : {w : Supervisor} → SafeStarts services [] w w
  safe_skip :
      {n : Text} {names : List Text} {w w' : Supervisor}
      → is_disabled (get n services) ≡ true
      → SafeStarts services names w w'
      → SafeStarts services (n ∷ names) w w'
  safe_start :
      {n : Text} {names : List Text} {w v w' : Supervisor}
      → ((d : Text) → 0 < needs services n d → is_disabled (get d services) ≡ false → IsRunning d w)
      → IsStarted n w v
      → SafeStarts services names v w'
      → SafeStarts services (n ∷ names) w w'

abbrev StartsOutcome :
    Map ServiceDef → List Text → Supervisor → Result (Unit {0}) × Supervisor → Type 0
StartsOutcome services names w (ok u, w') = Starts services names w w'
StartsOutcome services names w (err e, w') = Unit
StartsOutcome services names w (panic p, w') = Unit

-- The enabled services of the whole that are no longer in the list are running.
abbrev UpTo : Map ServiceDef → List Text → List Text → Supervisor → Type 0
UpTo services whole names w =
    (d : Text)
    → 0 < count d whole
    → is_disabled (get d services) ≡ false
    → count d names ≡ 0
    → IsRunning d w
