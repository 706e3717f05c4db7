-- ===== src/Tests/Supervisors.antt =====
-- The theorems of src/supervisor/ at work on a small configuration.
use mathlib.Core.Option
use dev.Prelude.{Text, List, same, [], ◌∷◌, ◌≡◌, refl, if◌then◌else◌}
use dev.Prelude.Counts.{contains}
use dev.Error.{ok}
use dev.Map.{keys, get, modify}
use dev.State.{stopped}
use dev.Graph.{transitive_dependents_stop_order, from_config}
use dev.Supervisor.{Supervisor, ServiceHandle, dummy}
use dev.Supervisor.Start.{start_service}
use dev.Supervisor.Start.Laws.{StartOutcome, start_service-outcome}
use dev.Supervisor.Stop.{stop_known, stop_service}
use dev.Supervisor.Fleet.{stop_each, start_all, start_named, stop_all, stop_named}
use dev.Supervisor.Fleet.Names.{IsRunningNames}
use dev.Supervisor.Fleet.Halts.{stop_all-Halted}
use dev.Tests.{db, web, shop_services, shop_graph, shop-UniqueKeys, shop_starts, calm, idle, busy}

start_service-outcome_example : StartOutcome web idle (start_service calm web 1 idle)
start_service-outcome_example = start_service-outcome calm web 1 idle

abbrev started : Supervisor
started = (start_all calm idle).1

abbrev started_web : Supervisor
started_web = (start_named calm (web ∷ []) idle).1

stop_all-Halted_example :
    (l : List Text) × IsRunningNames busy.handles l
    × ((stop_all calm busy).0 ≡ ok l)
    × ((stop_all calm busy).1.config ≡ busy.config)
    × ((j : Text)
        → get j (stop_all calm busy).1.handles ≡ (
            if contains (keys shop_services) j
            then Option.map
                (λ (h : ServiceHandle). record h { child = dummy; state = stopped })
                (get j busy.handles)
            else get j busy.handles))
stop_all-Halted_example =
    stop_all-Halted calm busy shop_graph (λ _. refl) shop-UniqueKeys shop_starts

-- A stop of `db` stops `web` first, and gives both names.
both_stop : (stop_named calm (db ∷ []) busy).0 ≡ ok (web ∷ db ∷ [])
unfolding stop_named same stop_each from_config transitive_dependents_stop_order stop_service
    stop_known modify
both_stop = refl
