-- ===== src/Tests/Logs.antt =====
-- The history of src/log.rs at two lines.
use dev.Prelude.{txt, same, [], ◌∷◌, ◌≡◌, foldl, refl}
use dev.Log.{LogLine, push_history, recent}
use dev.Log.History.{latest, push_history-latest}

abbrev first : LogLine
first = record { service = txt "web"; line = txt "up"; color_idx = 0 }

abbrev second : LogLine
second = record { service = txt "db"; line = txt "ready"; color_idx = 1 }

push_history-latest_example :
    foldl push_history [] (first ∷ second ∷ []) ≡ latest 1000 (first ∷ second ∷ [])
push_history-latest_example = push_history-latest (first ∷ second ∷ [])

reads_web : recent (first ∷ second ∷ []) (txt "web" ∷ []) 5 ≡ first ∷ []
unfolding recent same
reads_web = refl
