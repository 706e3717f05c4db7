-- ===== src/Cli/Targets.antt =====
-- Which services `up`, `down` and `logs` are about, by names and by labels.
pub mod Order
use dev.Prelude.{
  Text, txt, Option, none, some, List, [], ◌∷◌, ◌++◌, Bool, true, false, ◌||◌, ◌&&◌, not, ltb, ◌==◌,
  if◌then◌else◌, test, same,
}
use dev.Prelude.Counts.{contains}
use dev.Error.{ok, err, config}
use dev.Map.{Map, keys, get, contains_key}
use dev.Config.{ServiceDef, DevConfig}
use dev.Graph.{join}
use dev.Log.{is_empty}
use dev.Supervisor.{Os, Run, pure, fail, ◌>>=◌}
use dev.Supervisor.Fleet.{start_all, start_named}
use dev.Ipc.{IpcRequest, stop}

-- `labels.iter().any(|label| svc.labels.contains(label))`
unfoldable pub has_label : ServiceDef → List Text → Bool
unfolding contains
has_label svc [] = false
has_label svc (label ∷ labels) = contains svc.labels label || has_label svc labels

unfoldable pub labelled_names : List Text → Map ServiceDef → List Text
unfolding has_label
labelled_names labels [] = []
labelled_names labels ((name, svc) ∷ services) =
    let rest = labelled_names labels services in if has_label svc labels then name ∷ rest else rest

unfoldable pub filter_by_labels : DevConfig → List Text → List Text
filter_by_labels cfg labels =
    if is_empty labels then keys cfg.service else labelled_names labels cfg.service

abbrev pub no_labelled : List Text → Text
no_labelled label = txt "no services found with labels: " ++ join (txt ", ") label

-- The names and the labelled services; the test for a label that no service has stands where there
-- are labelled services.
abbrev pub extended : List Text → List Text → List Text → Run (List Text)
extended services label labeled =
    if not (is_empty labeled)
    then (if not (is_empty label) && is_empty labeled
        then fail (config (no_labelled label))
        else pure (services ++ labeled))
    else pure services

unfoldable pub up_targets : DevConfig → List Text → List Text → Run (List Text)
up_targets cfg services label =
    if not (is_empty label)
    then extended services label (filter_by_labels cfg label)
    else pure services

abbrev pub start_targets : Os → List Text → Run (Unit {0})
start_targets os targets = if is_empty targets then start_all os else start_named os targets

-- `up` in the local mode, from its targets on
unfoldable pub up_local : Os → DevConfig → List Text → List Text → Run (Unit {0})
unfolding up_targets
up_local os cfg services label = do
  targets ← up_targets cfg services label
  start_targets os targets

-- `down` in the local mode: what is asked of the daemon
unfoldable pub down_request : DevConfig → List Text → List Text → IpcRequest
down_request cfg services label =
    if not (is_empty label)
    then (let labeled = filter_by_labels cfg label in
        if not (is_empty labeled) then stop (services ++ labeled) else stop services)
    else stop services

-- `a <= b` for strings; UTF-8 keeps the order of the code points.
unfoldable pub text_le : Text → Text → Bool
text_le [] b = true
text_le (c ∷ a) [] = false
text_le (c ∷ a) (d ∷ b) = ltb c d || c == d && text_le a b

unfoldable pub insert_sorted : Text → List Text → List Text
unfolding text_le
insert_sorted x [] = x ∷ []
insert_sorted x (y ∷ l) =
    let rest = insert_sorted x l in if text_le x y then x ∷ y ∷ l else y ∷ rest

-- `v.sort()`
unfoldable pub sort : List Text → List Text
unfolding insert_sorted
sort [] = []
sort (x ∷ l) = insert_sorted x (sort l)

-- `v.dedup()`: of equal neighbours the first stays.
abbrev pub push_new : Text → List Text → List Text
push_new x [] = x ∷ []
push_new x (y ∷ l) = if test (same x y) then y ∷ l else x ∷ y ∷ l

unfoldable pub dedup : List Text → List Text
dedup [] = []
dedup (x ∷ l) = push_new x (dedup l)

unfoldable pub retain : (Text → Bool) → List Text → List Text
retain f [] = []
retain f (x ∷ l) = let rest = retain f l in if f x then x ∷ rest else rest

-- The names and labels of the Kubernetes commands, or all services without any.
abbrev pub k8s_named : DevConfig → List Text → List Text → List Text
k8s_named cfg services label =
    let named = if is_empty services && is_empty label then keys cfg.service else services in
    if not (is_empty label) then named ++ filter_by_labels cfg label else named

abbrev pub k8s_candidates : DevConfig → List Text → List Text → List Text
k8s_candidates cfg services label = dedup (sort (k8s_named cfg services label))

abbrev pub is_enabled : Option ServiceDef → Bool
is_enabled none = false
is_enabled (some svc) = not svc.disabled

-- The targets of `up` in the Kubernetes mode, and those of `down`
unfoldable pub k8s_up_targets : DevConfig → List Text → List Text → List Text
unfolding retain get sort dedup
k8s_up_targets cfg services label =
    retain (λ name. is_enabled (get name cfg.service)) (k8s_candidates cfg services label)

unfoldable pub k8s_down_targets : DevConfig → List Text → List Text → List Text
unfolding retain contains_key sort dedup
k8s_down_targets cfg services label =
    retain (λ name. contains_key name cfg.service) (k8s_candidates cfg services label)
