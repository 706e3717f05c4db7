-- ===== src/Supervisor/Monitor.antt =====
-- `run_health_monitor` (src/supervisor/mod.rs). One round of the loop is one step: the wait, the look
-- at the handle, the probe and what follows from its answer.
pub mod Threshold
use dev.Prelude.{
  Text, txt, ℕ, zero, suc, Option, none, some, List, [], ◌∷◌, ◌++◌, Bool, true, false, ltb, leb,
  if◌then◌else◌,
}
use dev.Error.{ok}
use dev.Map.{get, modify}
use dev.Config.{HealthConfig}
use dev.State.{ServiceState, running, unhealthy, state_pid}
use dev.Supervisor.{
  Supervisor, ServiceHandle, Os, Run, after, ◌>>=◌, ◌>>◌, pure, world, note, ask, emit, set_handles,
  state_changed, slept, probed, signalled, sigterm,
}
use dev.Supervisor.Recovery.{is_live}

abbrev pub health_failure_threshold : ℕ
health_failure_threshold = 3

-- The loop goes on with `consecutive_failures`, or has ended.
pub data Monitor : Type 0 where
  monitoring : (consecutive_failures : ℕ) → Monitor
  ended : Monitor

abbrev pub as_running : ℕ → ServiceState → ServiceState
as_running since (unhealthy pid failures) = running pid since
as_running since state = state

abbrev pub recover_handle : ℕ → ServiceHandle → ServiceHandle
recover_handle since h = record h { state = as_running since h.state }

abbrev pub is_unhealthy : ServiceState → Bool
is_unhealthy (unhealthy pid failures) = true
is_unhealthy _ = false

abbrev pub announce_recovery : Os → Text → Option ServiceHandle → Run (Unit {0})
announce_recovery os name none = pure tt
announce_recovery os name (some h) =
    if is_unhealthy h.state
    then (do
      since ← ask os.now
      w ← world
      set_handles (modify name (recover_handle since) w.handles)
      emit (state_changed name (txt "running")))
    else pure tt

-- `if checker.check_once(port, &svc).await`
unfoldable pub probe_passed : Os → Text → ℕ → Run Monitor
probe_passed os name failures = do
  w ← world
  (if ltb 0 failures then announce_recovery os name (get name w.handles) else pure tt)
  pure (monitoring 0)

abbrev pub as_unhealthy : ℕ → Option ℕ → ServiceState → ServiceState
as_unhealthy failures none state = state
as_unhealthy failures (some pid) state = unhealthy pid failures

abbrev pub fail_handle : ℕ → ServiceHandle → ServiceHandle
fail_handle failures h = record h { state = as_unhealthy failures (state_pid h.state) h.state }

abbrev pub terminate_group : Option ℕ → Run (Unit {0})
terminate_group none = pure tt
terminate_group (some pid) = note (signalled pid sigterm)

-- The service is marked and its process group gets `SIGTERM`; crash recovery does the rest.
abbrev pub give_up : Text → ℕ → Option ServiceHandle → Run Monitor
give_up name failures none = pure ended
give_up name failures (some h) = do
  w ← world
  set_handles (modify name (fail_handle failures) w.handles)
  emit (state_changed name (txt "unhealthy"))
  terminate_group (state_pid h.state)
  pure ended

-- The other branch; `consecutive_failures` has been counted up.
unfoldable pub probe_failed : Text → ℕ → Run Monitor
probe_failed name failures =
    if leb health_failure_threshold failures
    then (do w ← world; give_up name failures (get name w.handles))
    else pure (monitoring failures)

abbrev pub monitor_found : Os → Text → ℕ → Option ServiceHandle → Run Monitor
monitor_found os name failures none = pure ended
monitor_found os name failures (some h) =
    if is_live h.state
    then (do
      note (probed name h.port)
      healthy ← ask os.probe
      if healthy then probe_passed os name failures else probe_failed name (suc failures))
    else pure ended

unfoldable pub monitor_round : Os → Text → HealthConfig → ℕ → Run Monitor
unfolding probe_passed probe_failed
monitor_round os name health failures = do
  note (slept health.interval)
  w ← world
  monitor_found os name failures (get name w.handles)
