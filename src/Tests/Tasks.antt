-- ===== src/Tests/Tasks.antt =====
-- The background tasks of src/supervisor/mod.rs at work on a small configuration.
use dev.Prelude.{ℕ, ◌*◌, same, none, [], ◌∷◌, ◌≡◌, refl, arith, false}
use dev.Error.{ok}
use dev.Map.{get}
use dev.Config.{HealthConfig, from_secs, tcp}
use dev.Supervisor.{Supervisor, process}
use dev.Supervisor.Start.{fresh_handle}
use dev.Supervisor.Monitor.{monitoring, monitor_round}
use dev.Supervisor.Monitor.Threshold.{armed, answered, IsCounted, monitor-IsCounted}
use dev.Supervisor.Recovery.{looping, awaiting, backing_off, recover, take_child}
use dev.Supervisor.Recovery.Limit.{
  Reaches, begins, steps, IsFresh, IsFirstBackoff, recovery_count-IsFresh, crash-restarts,
}
use dev.Tests.{web, busy, calm, web_service, found_service, found_handle}

abbrev every_second : HealthConfig
every_second = record {
  kind = tcp;
  path = none;
  interval = from_secs 1;
  timeout = from_secs 1;
  retries = 3;
}

abbrev probed_once : Supervisor
probed_once = (monitor_round calm web every_second 0 busy).1

one_failure : monitor_round calm web every_second 0 busy ≡ (ok (monitoring 1), probed_once)
unfolding monitor_round get same
one_failure = refl

monitor-IsCounted_example : IsCounted (false ∷ []) (monitoring 1)
monitor-IsCounted_example =
    monitor-IsCounted calm web every_second (false ∷ []) (monitoring 1)
      (answered busy probed_once (fresh_handle 7 100 1 3000) armed found_handle refl one_failure)

abbrev taken : Supervisor
taken = (recover calm web 1 3000 none (looping 0) busy).1

takes_child : recover calm web 1 3000 none (looping 0) busy ≡ (ok (awaiting 0 (process 7)), taken)
unfolding recover take_child get same
takes_child = refl

waits : Reaches calm web 1 3000 none (awaiting 0 (process 7))
waits = steps busy taken begins takes_child

recovery_count-IsFresh_example : IsFresh (awaiting 0 (process 7))
recovery_count-IsFresh_example =
    recovery_count-IsFresh calm web 1 3000 none (awaiting 0 (process 7)) waits

crash-restarts_example :
    (secs : ℕ) × IsFirstBackoff web_service.restart secs
    × ((recover calm web 1 3000 none (awaiting 0 (process 7)) busy).0
        ≡ ok (backing_off 1 (secs * 1000)))
crash-restarts_example =
    crash-restarts calm web 1 3000 none 0 (process 7) web_service (fresh_handle 7 100 1 3000) busy
      waits found_service refl (ground arith) (ground arith) found_handle refl
