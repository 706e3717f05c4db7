-- ===== src/Tests/Gateways.antt =====
-- The theorems of src/proxy.rs and src/watcher.rs at work.
use dev.Prelude.{
  Text, txt, ℕ, ◌+◌, ◌≤◌, ◌<◌, none, some, List, [], ◌∷◌, true, false, ◌≡◌, refl, arith,
}
use dev.Strings.{has_char}
use dev.Proxy.{Request, Upstream, Reached, answered, handle}
use dev.Proxy.Routing.{IsAnswer, latest, after_updates, bare, handle-latest}
use dev.Watcher.{Turn, timeout, change, relevant, run_watcher, first_trigger, debounce_ms}
use dev.Watcher.Debounce.{Spaced, Among, Met, run_watcher-debounced}
use dev.Tests.{web, db}

abbrev send : Upstream → Reached
send req = answered 200 [] (some req.uri)

abbrev updates : List (Text × ℕ)
updates = (web, 3000) ∷ (db, 5432) ∷ (web, 3001) ∷ []

abbrev request : Request
request = record {
  host = some (txt "web.localhost");
  method = txt "GET";
  path_and_query = none;
  headers = [];
  body = some [];
}

no_colon : has_char b':' web ≡ false
unfolding has_char
no_colon = refl

handle-latest_example :
    IsAnswer send request web (latest web updates) (handle send (after_updates updates []) request)
handle-latest_example =
    handle-latest send updates request web (txt "web.localhost") refl no_colon (bare refl)

abbrev turns : List Turn
turns =
    change (txt "src/a.rs" ∷ []) 1000
    ∷ timeout
    ∷ change (txt "target/b" ∷ []) 1700
    ∷ change (txt "src/a.rs" ∷ []) 1800
    ∷ []

run_watcher-debounced_example :
    Spaced (first_trigger 900) (run_watcher (txt "target" ∷ []) 900 turns)
    × ((paths : List Text) (now : ℕ)
        → Met paths now turns
        → relevant (txt "target" ∷ []) paths ≡ true
        → 900 ≤ now
        → (t : ℕ) × Among t (run_watcher (txt "target" ∷ []) 900 turns) × (now < t + debounce_ms))
run_watcher-debounced_example = run_watcher-debounced (txt "target" ∷ []) 900 turns (omega arith)
