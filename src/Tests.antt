-- ===== src/Tests.antt =====
-- The programs' two small configurations, and the theorems at work on them.
mod Graphs
mod Configs
mod Loads
mod Logs
mod Supervisors
mod Tasks
mod Clusters
mod Gateways
mod Commands
mod Pages
mod Certs
use dev.Prelude.{some, true, false, Text, same, txt, ℕ, List, [], ◌∷◌, ◌≡◌, ◌≢◌, refl, arith, ◌≤◌}
use dev.Prelude.Counts.{count}
use dev.Error.{ok}
use dev.Supervisor.{Supervisor, Os, hook_success, spawn_success}
use dev.Supervisor.Stop.Laws.{HooksRun}
use dev.Supervisor.Start.{fresh_handle}
use dev.Map.{Map, get}
use dev.Map.Laws.{UniqueKeys}
use dev.Config.{ServiceDef, DevConfig, plain_service, config_of}
use dev.Graph.{DependencyGraph, from_config, assemble}

abbrev pub db : Text
db = txt "db"

abbrev pub web : Text
web = txt "web"

-- `web` needs `db`, and stands first.
abbrev pub shop_services : Map ServiceDef
shop_services =
    (web, plain_service (txt "node web.js") 3000 (db ∷ []))
    ∷ (db, plain_service (txt "postgres") 5432 [])
    ∷ []

abbrev pub shop : DevConfig
shop = config_of shop_services

abbrev pub shop_graph : DependencyGraph
shop_graph = assemble shop_services ((db ∷ []) ∷ (web ∷ []) ∷ [])

web-ne_db : web ≢ db
web-ne_db e = cc

pub shop-UniqueKeys : UniqueKeys shop_services
unfolding count
shop-UniqueKeys k = ground (arith, web-ne_db)

pub shop-HooksRun : HooksRun shop_services
unfolding get
shop-HooksRun n svc hook e f = ground (arith, e, f)

pub shop_starts : from_config shop ≡ ok shop_graph
unfolding from_config same
shop_starts = refl

-- Two services that need each other.
abbrev pub loop_services : Map ServiceDef
loop_services =
    (web, plain_service (txt "node web.js") 3000 (db ∷ []))
    ∷ (db, plain_service (txt "postgres") 5432 (web ∷ []))
    ∷ []

abbrev pub loop : DevConfig
loop = config_of loop_services

pub loop-UniqueKeys : UniqueKeys loop_services
unfolding count
loop-UniqueKeys k = ground (arith, web-ne_db)

-- An operating system on which every process starts, with the pid 7, and no probe succeeds.
abbrev pub calm : Os
calm = record {
  free_port = λ _. some 4000;
  hook = λ _. hook_success;
  spawn = λ _. spawn_success (some 7);
  probe = λ _. false;
  now = λ _. 100;
  spare = λ _. true;
  new_watcher = λ _. 1;
  join_error = λ _. txt "task panicked";
}

-- Nothing runs yet.
abbrev pub idle : Supervisor
idle = record { config = shop; config_dir = txt "."; handles = []; routes = []; trace = [] }

abbrev pub web_service : ServiceDef
web_service = plain_service (txt "node web.js") 3000 (db ∷ [])

-- `web` runs.
abbrev pub busy : Supervisor
busy = record idle { handles = (web, fresh_handle 7 100 1 3000) ∷ [] }

pub found_service : get web shop_services ≡ some web_service
unfolding get same
found_service = refl

pub found_handle : get web busy.handles ≡ some (fresh_handle 7 100 1 3000)
unfolding get same
found_handle = refl
