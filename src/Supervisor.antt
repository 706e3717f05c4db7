-- ===== src/Supervisor.antt =====
-- src/supervisor/mod.rs: what the supervisor holds, and how its operations are composed. The tasks
-- share the handles under one lock; an operation of the model is a function of the world, and keeps
-- the world as it stands where the operation fails. What the operating system answers is a
-- parameter that sees all that was done before.
pub mod Spawn
pub mod Keeps
pub mod Start
pub mod Stop
pub mod Fleet
pub mod Recovery
pub mod Monitor
pub mod Watch
pub mod Status
pub mod Reload
use dev.Prelude.{Text, txt, ℕ, Bool, true, false, Option, List, [], ◌∷◌, ◌++◌}
unfoldable pub use dev.Steps.{after, ◌>>=◌, ◌>>◌, pure, fail, fault}
use dev.Steps.{Steps}
use dev.Error.{Result, ok, err, panic, DevError, Fault, unwrap_err}
use dev.Map.{Map}
use dev.Config.{DevConfig, Duration}
use dev.State.{ServiceState}

-- A child process, or the `true` that stands in for one that was taken out of its handle.
pub data Child : Type 0 where
  process : (pid : ℕ) → Child
  dummy : Child

-- SupervisorEvent
pub data SupervisorEvent : Type 0 where
  state_changed : (service state : Text) → SupervisorEvent
  health_change : (service : Text) (healthy : Bool) → SupervisorEvent

pub data Signal : Type 0 where
  sigterm sigkill : Signal

-- What the supervisor does to the world outside, in order.
pub data Effect : Type 0 where
  emitted : SupervisorEvent → Effect
  asked_port : Effect
  ran_hook :
      (service program : Text) (args : List Text) (env : Map Text) (dir : Option Text) → Effect
  spawned :
      (service program : Text) (args : List Text) (env : Map Text) (dir : Option Text) → Effect
  attached : (service : Text) (color_idx : ℕ) → Effect
  teed : (service path : Text) (rotate_bytes : ℕ) → Effect
  -- to the process group of the pid
  signalled : (pid : ℕ) → Signal → Effect
  waited : Child → Duration → Effect
  killed : Child → Effect
  slept : Duration → Effect
  probed : (service : Text) (port : ℕ) → Effect
  armed_recovery armed_monitor : (service : Text) → Effect
  armed_watcher : (service : Text) (paths ignore : List Text) → Effect
  stopped_watcher : (id : ℕ) → Effect

pub data HookStatus : Type 0 where
  hook_failed hook_exited : Text → HookStatus
  hook_success : HookStatus

pub data SpawnStatus : Type 0 where
  spawn_failed : Text → SpawnStatus
  -- `Child::id`
  spawn_success : Option ℕ → SpawnStatus

-- What the operating system answers after the given effects.
pub record Os : Type 0 where
  pub free_port : List Effect → Option ℕ
  pub hook : List Effect → HookStatus
  pub spawn : List Effect → SpawnStatus
  -- whether `true` can be spawned, in the place of a child that is taken out
  pub spare : List Effect → Bool
  pub probe : List Effect → Bool
  pub now : List Effect → ℕ
  -- the identity of a new watcher's stop channel
  pub new_watcher : List Effect → ℕ
  -- the text of a `JoinError`
  pub join_error : Fault → Text

pub record ServiceHandle : Type 0 where
  pub child : Child
  pub state : ServiceState
  pub color_idx : ℕ
  pub port : ℕ
  pub watcher_stop : Option ℕ
  pub restart_count : ℕ

-- Supervisor, with the routes of its proxy and the effects so far, the newest last.
pub record Supervisor : Type 0 where
  pub config : DevConfig
  pub config_dir : Text
  pub handles : Map ServiceHandle
  pub routes : Map ℕ
  pub trace : List Effect

abbrev pub Run {ℓ} : Type ℓ → Type ℓ
Run A = Steps Supervisor A

abbrev pub world : Run Supervisor
world w = (ok w, w)

-- An effect is done.
abbrev pub note : Effect → Run (Unit {0})
note e w = (ok tt, record w { trace = w.trace ++ e ∷ [] })

-- The operating system is asked.
abbrev pub ask {ℓ} : {A : Type ℓ} → (List Effect → A) → Run A
ask question w = (ok (question w.trace), w)

-- `Command::new("true").spawn().unwrap()`
abbrev pub unwrapped : Bool → Run (Unit {0})
unwrapped true = pure tt
unwrapped false = fault unwrap_err

abbrev pub stand_in : Os → Run (Unit {0})
stand_in os w = unwrapped (os.spare w.trace) w

abbrev pub emit : SupervisorEvent → Run (Unit {0})
emit event = note (emitted event)

abbrev pub set_handles : Map ServiceHandle → Run (Unit {0})
set_handles handles w = (ok tt, record w { handles = handles })
