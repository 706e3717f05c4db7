-- ===== src/State.antt =====
-- src/state.rs: the states of a service. An `Instant` is a number, and an exit code keeps its sign.
use dev.Prelude.{Text, txt, ℕ, Option, none, some}

pub data ℤ : Type 0 where
  pos negsuc : ℕ → ℤ

pub data ServiceState : Type 0 where
  pending starting stopped : ServiceState
  running : (pid since : ℕ) → ServiceState
  unhealthy : (pid failures : ℕ) → ServiceState
  failed : (exit_code : Option ℤ) → ServiceState

-- `ServiceState::pid`
abbrev pub state_pid : ServiceState → Option ℕ
state_pid (running pid since) = some pid
state_pid (unhealthy pid failures) = some pid
state_pid _ = none

-- `ServiceState::label`
abbrev pub label : ServiceState → Text
label pending = txt "pending"
label starting = txt "starting"
label (running pid since) = txt "running"
label (unhealthy pid failures) = txt "unhealthy"
label stopped = txt "stopped"
label (failed exit_code) = txt "failed"
