-- ===== src/Graph.antt =====
-- src/graph.rs: the start and stop orders that `depends_on` allows (Kahn's algorithm by waves).
-- `usize` counters are ℕ; the `unwrap`s, the decrement and the indexing are faults where the code
-- would panic. The `while` loops take fuel: one round per service, and one per queued name.
pub mod Edges
pub mod Sums
pub mod Release
pub mod Waves
pub mod Correct
pub mod Accept
pub mod Worklist
pub mod Plans
use mathlib.Core.List.{reverse}
use dev.Prelude.{
  Text, txt, same, ℕ, zero, suc, ◌+◌, ◌≡◌, refl, Option, none, some, List, [], ◌∷◌, ◌++◌, map,
  foldl, ite, Bool, true, false, if◌then◌else◌, ltb, not,
}
use dev.Prelude.Counts.{length, contains}
use dev.Error.{Result, ok, err, panic, cycle, unwrap_none, underflow, out_of_fuel, ◌>>=◌}
use dev.Map.{Map, keys, get, insert, update}
use dev.Config.{ServiceDef, DevConfig}

pub record DependencyGraph : Type 0 where
  pub order : List Text
  pub waves : List (List Text)
  pub deps : Map (List Text)
  pub reverse_deps : Map (List Text)

-- The tables that `from_config` fills from the edges.
pub record Tables : Type 0 where
  pub in_degree : Map ℕ
  pub dependents : Map (List Text)
  pub reverse_deps : Map (List Text)

-- `names.iter().map(|n| (n, v)).collect()`
unfoldable pub each : {V : Type 0} → V → List Text → Map V
unfolding insert
each v [] = []
each v (n ∷ names) = (n, v) ∷ each v names

-- The body of `for dep in &svc.depends_on`.
unfoldable pub note_dep : Text → Tables → Text → Tables
unfolding update
note_dep name t dep = record {
  in_degree = update name 0 (λ n. suc n) t.in_degree;
  dependents = update dep [] (λ l. l ++ name ∷ []) t.dependents;
  reverse_deps = update dep [] (λ l. l ++ name ∷ []) t.reverse_deps;
}

unfoldable pub note_service : Tables → Text × ServiceDef → Tables
unfolding note_dep
note_service t (name, svc) = foldl (note_dep name) t svc.depends_on

unfoldable pub tables : Map ServiceDef → Tables
unfolding note_service each
tables services =
    foldl note_service
      (record {
        in_degree = each 0 (keys services);
        dependents = each [] (keys services);
        reverse_deps = each [] (keys services);
      })
      services

-- `get_mut(dep).unwrap()`, `*deg -= 1`
unfoldable pub decrement : Option ℕ → Result ℕ
decrement none = panic unwrap_none
decrement (some zero) = panic underflow
decrement (some (suc n)) = ok n

-- The body of `for &dep in &dependents[node]`: the new table, and `next` with what became free.
unfoldable pub release : List Text → Map ℕ → List Text → Result (Map ℕ × List Text)
unfolding decrement get insert
release [] in_degree next = ok (in_degree, next)
release (dep ∷ rest) in_degree next = do
  deg ← decrement (get dep in_degree)
  release rest (insert dep deg in_degree) (if ltb 0 deg then next else next ++ dep ∷ [])

-- `dependents[node]`
unfoldable pub index : Option (List Text) → Result (List Text)
index none = panic unwrap_none
index (some l) = ok l

-- `for &node in &wave`
unfoldable pub expand_wave :
    Map (List Text) → List Text → Map ℕ → List Text → Result (Map ℕ × List Text)
unfolding release index
expand_wave dependents [] in_degree next = ok (in_degree, next)
expand_wave dependents (node ∷ wave) in_degree next = do
  freed ← index (get node dependents)
  (in_degree', next') ← release freed in_degree next
  expand_wave dependents wave in_degree' next'

-- `while !queue.is_empty()`; each wave is the queue as it stands, and `order` is the waves in a row.
unfoldable pub run_waves : ℕ → Map (List Text) → Map ℕ → List Text → Result (List (List Text))
unfolding expand_wave
run_waves fuel dependents in_degree [] = ok []
run_waves zero dependents in_degree (n ∷ queue) = panic out_of_fuel
run_waves (suc fuel) dependents in_degree (n ∷ queue) = do
  (in_degree', next) ← expand_wave dependents (n ∷ queue) in_degree []
  waves ← run_waves fuel dependents in_degree' next
  ok ((n ∷ queue) ∷ waves)

unfoldable pub flatten : List (List Text) → List Text
flatten [] = []
flatten (w ∷ ws) = w ++ flatten ws

abbrev pub is_zero : Option ℕ → Bool
is_zero (some zero) = true
is_zero _ = false

-- `names.iter().filter(|n| in_degree[*n] == 0)`
unfoldable pub ready : Map ℕ → List Text → List Text
unfolding get
ready in_degree [] = []
ready in_degree (n ∷ names) =
    let rest = ready in_degree names in if is_zero (get n in_degree) then n ∷ rest else rest

-- `names.iter().filter(|n| !l.contains(n))`
unfoldable pub missing : List Text → List Text → List Text
unfolding contains
missing l [] = []
missing l (n ∷ names) = let rest = missing l names in if contains l n then rest else n ∷ rest

-- `names.join(", ")`
unfoldable pub join : Text → List Text → Text
join sep [] = []
join sep (x ∷ []) = x
join sep (x ∷ y ∷ l) = x ++ (sep ++ join sep (y ∷ l))

unfoldable pub depends : Map ServiceDef → Map (List Text)
depends [] = []
depends ((n, svc) ∷ services) = (n, svc.depends_on) ∷ depends services

-- The graph that an accepted configuration is stored as.
abbrev pub assemble : Map ServiceDef → List (List Text) → DependencyGraph
assemble services waves = record {
  order = flatten waves;
  waves = waves;
  deps = depends services;
  reverse_deps = (tables services).reverse_deps;
}

-- What `from_config` returns once the waves have run.
unfoldable pub finish : Map ServiceDef → List (List Text) → Result DependencyGraph
unfolding missing join flatten
finish services waves =
    if ltb (length (flatten waves)) (length (keys services))
    then err (cycle (join (txt ", ") (missing (flatten waves) (keys services))))
    else ok (assemble services waves)

unfoldable pub from_config : DevConfig → Result DependencyGraph
unfolding tables ready run_waves finish depends
from_config cfg = do
  waves ←
      run_waves (length (keys cfg.service)) (tables cfg.service).dependents
        (tables cfg.service).in_degree (ready (tables cfg.service).in_degree (keys cfg.service))
  finish cfg.service waves

-- `stop_order`
unfoldable pub stop_order : DependencyGraph → List Text
stop_order g = reverse g.order

-- `self.deps.get(&node).into_iter().flatten()`
abbrev pub neighbours : Map (List Text) → Text → List Text
neighbours edges node = elim (get node edges) [ none ↦ [] | some l ↦ l ]

-- The sets of the worklists: `needed` with the names in it, and the queue.
pub record Closure : Type 0 where
  pub needed : List Text
  pub queue : List Text

-- `if needed.insert(d) { queue.push_back(d) }`
unfoldable pub need : Closure → Text → Closure
unfolding contains
need c d =
    if contains c.needed d then c else record { needed = d ∷ c.needed; queue = c.queue ++ d ∷ [] }

-- `while let Some(node) = queue.pop_front()`; `none` if the fuel runs out.
unfoldable pub close : ℕ → Map (List Text) → List Text → List Text → Option (List Text)
unfolding need get
close fuel edges needed [] = some needed
close zero edges needed (node ∷ queue) = none
close (suc fuel) edges needed (node ∷ queue) =
    let c = foldl need (record { needed = needed; queue = queue }) (neighbours edges node) in
    close fuel edges c.needed c.queue

-- `l.filter(|n| needed.contains(n))`
unfoldable pub keep : List Text → List Text → List Text
unfolding contains
keep needed [] = []
keep needed (n ∷ l) = let rest = keep needed l in if contains needed n then n ∷ rest else rest

-- Rounds enough for `close`: one for each name asked for and each edge.
abbrev pub edge_names : Map (List Text) → List Text
edge_names [] = []
edge_names ((_, l) ∷ edges) = l ++ edge_names edges

unfoldable pub transitive_closure : Map (List Text) → List Text → Option (List Text)
unfolding close
transitive_closure edges names = close (length names + length (edge_names edges)) edges names names

abbrev pub closed_names : Option (List Text) → List Text
closed_names none = []
closed_names (some l) = l

unfoldable pub transitive_dependents_stop_order : DependencyGraph → List Text → List Text
unfolding transitive_closure keep stop_order
transitive_dependents_stop_order g names =
    keep (closed_names (transitive_closure g.reverse_deps names)) (stop_order g)

unfoldable pub transitive_start_order : DependencyGraph → List Text → List Text
unfolding transitive_closure keep
transitive_start_order g names = keep (closed_names (transitive_closure g.deps names)) g.order
