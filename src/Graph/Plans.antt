-- ===== src/Graph/Plans.antt =====
-- The orders in which named services are started and stopped.
use mathlib.Core.List.{append_assoc, reverse}
use mathlib.Core.List
use dev.Prelude.{
  Text, ℕ, ◌≤◌, ◌<◌, ◌≡◌, inl, inr, ◌↔◌, refl, ◌∙◌, subst, List, [], ◌∷◌, ◌++◌, arith,
  if◌then◌else◌, Bool-cases,
}
use dev.Prelude.Counts.{count, count-append, contains}
use dev.Error.{ok}
use dev.Map.{Map, keys}
use dev.Map.Laws.{UniqueKeys}
use dev.Config.{ServiceDef, DevConfig}
use dev.Graph.{
  DependencyGraph, neighbours, flatten, keep, from_config, transitive_start_order,
  transitive_dependents_stop_order,
}
use dev.Graph.Edges.{needs, neighbours-depends, tables-IsFilled}
use dev.Graph.Sums.{Distinct}
use dev.Graph.Waves.{WavesOrdered}
use dev.Graph.Correct.{IsSorted, from_config-IsSorted, from_config-eq-assemble}
use dev.Graph.Worklist.{Reaches, Closed, transitive_closure_returns}

-- No service needs itself or one that starts after it.
abbrev pub StartSafe : Map ServiceDef → List Text → Type 0
StartSafe services [] = Unit
StartSafe services (v ∷ l) =
    ((d : Text) → 0 < needs services v d → count d (v ∷ l) ≡ 0) × StartSafe services l

-- No service is needed by itself or by one that stops after it.
abbrev pub StopSafe : Map ServiceDef → List Text → Type 0
StopSafe services [] = Unit
StopSafe services (v ∷ l) =
    ((u : Text) → 0 < needs services u v → count u (v ∷ l) ≡ 0) × StopSafe services l

count-keep :
    (needed l : List Text) (v : Text)
    → count v (keep needed l) ≡ (if contains needed v then count v l else 0)
unfolding keep count
count-keep needed [] v = ground arith
count-keep needed (n ∷ l) v = ground (arith, count-keep needed l v)

count-keep-le : (needed l : List Text) (v : Text) → count v (keep needed l) ≤ count v l
count-keep-le needed l v = ground (arith, count-keep needed l v)

keep-StartSafe :
    (services : Map ServiceDef) (needed l : List Text)
    → StartSafe services l
    → StartSafe services (keep needed l)
unfolding keep count
keep-StartSafe services needed [] h = tt
keep-StartSafe services needed (v ∷ l) h = elim (Bool-cases (contains needed v)) [
  | inl e ↦ rw e (
    λ d n. ground (arith, h.0 d n, count-keep-le needed l d),
    keep-StartSafe services needed l h.1,
  )
  | inr e ↦ rw e (keep-StartSafe services needed l h.1)
]

keep-StopSafe :
    (services : Map ServiceDef) (needed l : List Text)
    → StopSafe services l
    → StopSafe services (keep needed l)
unfolding keep count
keep-StopSafe services needed [] h = tt
keep-StopSafe services needed (v ∷ l) h = elim (Bool-cases (contains needed v)) [
  | inl e ↦ rw e (
    λ d n. ground (arith, h.0 d n, count-keep-le needed l d),
    keep-StopSafe services needed l h.1,
  )
  | inr e ↦ rw e (keep-StopSafe services needed l h.1)
]

-- Services that need only what was seen, in front of others that were not seen.
append-StartSafe :
    (services : Map ServiceDef) (seen l rest : List Text)
    → ((d : Text) → 0 < count d seen → count d (l ++ rest) ≡ 0)
    → ((v d : Text) → 0 < count v l → 0 < needs services v d → 0 < count d seen)
    → StartSafe services rest
    → StartSafe services (l ++ rest)
unfolding count
append-StartSafe services seen [] rest fresh met h = h
append-StartSafe services seen (v ∷ l) rest fresh met h = (
  λ d n. fresh d (met v d (ground arith) n),
  append-StartSafe services seen l rest (λ d m. ground (arith, fresh d))
      (λ u d m n. met u d (ground arith) n) h,
)

waves-StartSafe :
    (services : Map ServiceDef) (seen : List Text) (ws : List (List Text))
    → Distinct (seen ++ flatten ws)
    → WavesOrdered services seen ws
    → StartSafe services (flatten ws)
unfolding flatten
waves-StartSafe services seen [] one h = tt
waves-StartSafe services seen (w ∷ ws) one h =
    append-StartSafe services seen w (flatten ws)
      (λ d m. omega (arith, one d, count-append d seen (w ++ flatten ws))) h.0
      (waves-StartSafe services (seen ++ w) ws (rw append_assoc one) h.1)

-- One more service at the end is safe if nothing before it is needed by it.
snoc-StopSafe :
    (services : Map ServiceDef) (l : List Text) (v : Text)
    → StopSafe services l
    → ((d : Text) → 0 < needs services v d → count d (l ++ v ∷ []) ≡ 0)
    → StopSafe services (l ++ v ∷ [])
unfolding count
snoc-StopSafe services [] v h n = (λ u m. ground (arith, n v), tt)
snoc-StopSafe services (x ∷ l) v h n = (
  λ u m. ground (arith, n x, h.0 u m, count-append u l (v ∷ [])),
  snoc-StopSafe services l v h.1 (λ d m. ground (arith, n d)),
)

count-reverse : (v : Text) (l : List Text) → count v (reverse l) ≡ count v l
unfolding count
count-reverse v [] = refl
count-reverse v (x ∷ l) =
    rw List.reverse-cons (ground (arith, count-append v (reverse l) (x ∷ []), count-reverse v l))

reverse-StopSafe :
    (services : Map ServiceDef) (l : List Text)
    → StartSafe services l
    → StopSafe services (reverse l)
reverse-StopSafe services [] h = tt
reverse-StopSafe services (v ∷ l) h = rw List.reverse-cons (
    snoc-StopSafe services (reverse l) v (reverse-StopSafe services l h.1)
      (λ d n. rw (← List.reverse-cons) (rw count-reverse (h.0 d n))))

-- The plan for `names`: the declared services that are reached from them along `edge`, once each.
pub record IsPlan (services : Map ServiceDef) (edge : Text → Text → ℕ) (names l : List Text)
    : Type 0 where
  pub wanted : (v : Text) → (0 < count v l) ↔ ((0 < count v (keys services)) × Reaches edge names v)
  pub once : Distinct l

IsPlan-of_closure :
    (services : Map ServiceDef) (edge : Text → Text → ℕ) (edges : Map (List Text))
    (names l order : List Text)
    → (table : (u v : Text) → count v (neighbours edges u) ≡ edge u v) → Distinct (keys services)
    → ((v : Text) → count v order ≡ count v (keys services))
    → Closed edges edge names table l
    → IsPlan services edge names (keep l order)
IsPlan-of_closure services edge edges names l order table unique complete c = record {
  wanted = λ v. (
    λ m. (
      ground (arith, count-keep l order v, complete v),
      c.sound v (ground (arith, count-keep l order v)),
    ),
    λ (d, r). ground (arith, count-keep l order v, complete v, c.complete v r),
  );
  once = λ v. omega (arith, count-keep-le l order v, complete v, unique v);
}

module _ (cfg : DevConfig) (g : DependencyGraph) (names : List Text)
    (unique : UniqueKeys cfg.service) (e : from_config cfg ≡ ok g) where
  abbrev services : Map ServiceDef
  services = cfg.service

  sorted : IsSorted services g
  sorted = from_config-IsSorted cfg g unique e

  pub order-StartSafe : StartSafe services g.order
  order-StartSafe = rw sorted.in_waves (
      waves-StartSafe services [] g.waves
        (λ v. rw (← sorted.in_waves) (rw sorted.complete (unique v))) sorted.ordered)

  deps_table : (u v : Text) → count v (neighbours g.deps u) ≡ needs services u v
  deps_table u v =
      subst (λ (h : DependencyGraph). count v (neighbours h.deps u) ≡ needs services u v)
        (from_config-eq-assemble cfg g unique e).1 (neighbours-depends services u v unique)

  reverse_table : (u v : Text) → count v (neighbours g.reverse_deps u) ≡ needs services v u
  reverse_table u v =
      subst (λ (h : DependencyGraph). count v (neighbours h.reverse_deps u) ≡ needs services v u)
        (from_config-eq-assemble cfg g unique e).1 ((tables-IsFilled services).reverses u v)

  -- `transitive_start_order` lists the declared services that the named ones reach along their
  -- dependencies, themselves included, once each, and no service before one that it needs.
  pub transitive_start_order-IsPlan :
      IsPlan services (needs services) names (transitive_start_order g names)
      × StartSafe services (transitive_start_order g names)
  unfolding transitive_start_order
  transitive_start_order-IsPlan =
      let (l, runs, c) = transitive_closure_returns g.deps (needs services) names deps_table in
      rw runs (
        IsPlan-of_closure services (needs services) g.deps names l g.order deps_table unique
            sorted.complete c,
        keep-StartSafe services l g.order order-StartSafe,
      )

  -- `transitive_dependents_stop_order` lists the declared services that reach the named ones along
  -- their dependencies, the named ones included, once each, and no service before one that needs it.
  pub transitive_dependents_stop_order-IsPlan :
      IsPlan services (λ u v. needs services v u) names (transitive_dependents_stop_order g names)
      × StopSafe services (transitive_dependents_stop_order g names)
  unfolding transitive_dependents_stop_order
  transitive_dependents_stop_order-IsPlan =
      let edge = λ (u v : Text). needs services v u in
      let (l, runs, c) = transitive_closure_returns g.reverse_deps edge names reverse_table in
      rw runs (
        IsPlan-of_closure services edge g.reverse_deps names l (reverse g.order) reverse_table
            unique (λ v. count-reverse v g.order ∙ sorted.complete v) c,
        keep-StopSafe services l (reverse g.order)
            (reverse-StopSafe services g.order order-StartSafe),
      )
