-- ===== src/Graph/Correct.antt =====
-- The result of `from_config`: its order, its waves, and that it returns.
use dev.Prelude.{
  Text, txt, ℕ, zero, suc, ◌≤◌, ◌<◌, ◌≡◌, ◌⊎◌, inl, inr, refl, subst, ◌∙◌, List, [], ◌∷◌, arith,
  if◌then◌else◌,
}
use dev.Prelude.Counts.{length, count, contains, length-le_of_counts, counts_of_length}
use dev.Error.{ok, err, cycle}
use dev.Map.{Map, get, keys}
use dev.Map.Laws.{UniqueKeys}
use dev.Config.{ServiceDef, DevConfig}
use dev.Graph.{
  DependencyGraph, tables, ready, is_zero, flatten, assemble, finish, missing, join, from_config,
}
use dev.Graph.Edges.{needs, tables-IsFilled}
use dev.Graph.Sums.{met, total-le-met}
use dev.Graph.Waves.{WavesOrdered, Inv, Ran, run-Inv, Inv-bound}

pub count-missing :
    (l names : List Text) (v : Text)
    → count v (missing l names) ≡ (if contains l v then 0 else count v names)
unfolding missing count
count-missing l [] v = ground arith
count-missing l (n ∷ names) v = ground (arith, count-missing l names v)

module _ (services : Map ServiceDef) (unique : UniqueKeys services) where
  count-ready :
      (m : Map ℕ) (names : List Text) (v : Text)
      → count v (ready m names) ≡ (if is_zero (get v m) then count v names else 0)
  unfolding ready count
  count-ready m [] v = ground arith
  count-ready m (n ∷ names) v = ground (arith, count-ready m names v)

  start-Inv :
      Inv services []
        (tables services).in_degree
        (ready (tables services).in_degree (keys services))
  unfolding met count
  start-Inv =
      let filled = tables-IsFilled services in
      let m = (tables services).in_degree in
      record {
        degrees = λ v. omega (arith, filled.degrees v);
        free = λ v z. ground (arith, count-ready m (keys services) v, filled.has_degree v);
        busy = λ v b. ground (arith, count-ready m (keys services) v);
        has = filled.has_degree;
      }

  abbrev pub Loop : Type 0
  Loop =
      Ran services unique (tables services).dependents (tables-IsFilled services).dependents
        (tables-IsFilled services).has_list [] (tables services).in_degree
        (ready (tables services).in_degree (keys services)) (length (keys services))

  pub ran : Loop
  ran =
      let filled = tables-IsFilled services in
      run-Inv services unique (tables services).dependents filled.dependents filled.has_list
        (length (keys services)) [] (tables services).in_degree
        (ready (tables services).in_degree (keys services)) (omega arith) start-Inv

  pub count-order-le : (r : Loop) (v : Text) → count v (flatten r.waves) ≤ count v (keys services)
  unfolding count
  count-order-le r v =
      let filled = tables-IsFilled services in
      omega (
        arith,
        Inv-bound services unique (tables services).dependents filled.dependents filled.has_list v
            r.inv,
      )

  -- A service whose dependencies are all in the order is in the order too.
  pub count-order_of_met :
      (r : Loop) (v : Text)
      → ((d : Text) → 0 < needs services v d → 0 < count d (flatten r.waves))
      → count v (flatten r.waves) ≡ count v (keys services)
  unfolding count
  count-order_of_met r v h =
      ground (arith, r.inv.degrees v, total-le-met (flatten r.waves) services v h, r.inv.free v)

-- What an accepted configuration gives.
pub record IsSorted (services : Map ServiceDef) (g : DependencyGraph) : Type 0 where
  pub in_waves : g.order ≡ flatten g.waves
  pub complete : (v : Text) → count v g.order ≡ count v (keys services)
  pub ordered : WavesOrdered services [] g.waves

module _ (cfg : DevConfig) (unique : UniqueKeys cfg.service) where
  -- The outcome by the number of names that the waves hold.
  pub outcome : (r : Loop cfg.service unique) → from_config cfg ≡ finish cfg.service r.waves
  unfolding from_config
  outcome r = simp r.runs

  pub finish_cases :
      (waves : List (List Text))
      → (length (flatten waves) < length (keys cfg.service))
          × (finish cfg.service waves
              ≡ err (cycle (join (txt ", ") (missing (flatten waves) (keys cfg.service)))))
        ⊎ (length (keys cfg.service) ≤ length (flatten waves))
          × (finish cfg.service waves ≡ ok (assemble cfg.service waves))
  unfolding finish
  finish_cases waves = ground arith

  assemble-IsSorted :
      (r : Loop cfg.service unique)
      → length (keys cfg.service) ≤ length (flatten r.waves)
      → IsSorted cfg.service (assemble cfg.service r.waves)
  assemble-IsSorted r h = record {
    in_waves = refl;
    complete =
        counts_of_length (flatten r.waves) (keys cfg.service) (count-order-le cfg.service unique r)
          h;
    ordered = r.ordered;
  }

-- `from_config` returns, and without a panic: it accepts the configuration or reports a cycle.
pub from_config_returns :
    (cfg : DevConfig)
    → UniqueKeys cfg.service
    → ((g : DependencyGraph) × (from_config cfg ≡ ok g))
      ⊎ ((names : Text) × (from_config cfg ≡ err (cycle names)))
from_config_returns cfg unique =
    let r = ran cfg.service unique in
    elim (finish_cases cfg unique r.waves) [
      | inl (h, e) ↦ inr (_, outcome cfg unique r ∙ e)
      | inr (h, e) ↦ inl (_, outcome cfg unique r ∙ e)
    ]

-- The graph of an accepted configuration.
pub from_config-eq-assemble :
    (cfg : DevConfig) (g : DependencyGraph) (unique : UniqueKeys cfg.service)
    → from_config cfg ≡ ok g
    → (length (keys cfg.service) ≤ length (flatten (ran cfg.service unique).waves))
      × (assemble cfg.service (ran cfg.service unique).waves ≡ g)
from_config-eq-assemble cfg g unique e =
    let r = ran cfg.service unique in
    elim (finish_cases cfg unique r.waves) [
      | inl (h, f) ↦ absurd (cc (outcome cfg unique r))
      | inr (h, f) ↦ (h, ground (arith, outcome cfg unique r))
    ]

-- In an accepted configuration every declared service, and nothing else, stands exactly once in
-- the order; the waves in a row are the order; and each service of a wave needs only services of
-- earlier waves.
pub from_config-IsSorted :
    (cfg : DevConfig) (g : DependencyGraph)
    → UniqueKeys cfg.service
    → from_config cfg ≡ ok g
    → IsSorted cfg.service g
from_config-IsSorted cfg g unique e =
    let (h, same_graph) = from_config-eq-assemble cfg g unique e in
    subst (IsSorted cfg.service) same_graph
      (assemble-IsSorted cfg unique (ran cfg.service unique) h)

-- A rank that falls along every dependency: there is no cycle, and no dependency is undeclared.
pub record IsAcyclic (services : Map ServiceDef) : Type 0 where
  pub rank : Text → ℕ
  pub declared : (v d : Text) → 0 < needs services v d → 0 < count d (keys services)
  pub falls : (v d : Text) → 0 < needs services v d → rank d < rank v

module _ (cfg : DevConfig) (unique : UniqueKeys cfg.service) (a : IsAcyclic cfg.service) where
  -- By induction on a bound for the rank, every service finds its place.
  all_placed :
      (r : Loop cfg.service unique) (n : ℕ) (v : Text)
      → a.rank v < n
      → count v (flatten r.waves) ≡ count v (keys cfg.service)
  all_placed r zero v h = absurd (omega arith)
  all_placed r (suc n) v h =
      count-order_of_met cfg.service unique r v
        λ d x. omega (arith, a.declared v d x, all_placed r n d (omega (arith, a.falls v d x)))

  pub accepts : (g : DependencyGraph) × (from_config cfg ≡ ok g)
  accepts =
      let r = ran cfg.service unique in
      let all : (v : Text) → count v (keys cfg.service) ≤ count v (flatten r.waves) =
        λ v. omega (arith, all_placed r (suc (a.rank v)) v (omega arith)) in
      elim (finish_cases cfg unique r.waves) [
        | inl (h, e) ↦
            absurd (omega (arith, length-le_of_counts (keys cfg.service) (flatten r.waves) all))
        | inr (h, e) ↦ (_, outcome cfg unique r ∙ e)
      ]
