-- ===== src/Graph/Accept.antt =====
-- Acceptance as an equivalence: `from_config` succeeds if and only if the dependencies fall along
-- some rank. The names of a `Cycle` error are a certificate of the refusal.
use mathlib.Core.List.{append_assoc}
use dev.Prelude.{
  Text, same, txt, ℕ, suc, ◌≤◌, ◌<◌, ◌≡◌, inl, inr, ◌↔◌, List, [], ◌∷◌, ◌++◌, ite, arith, dec_lt,
  List-cases,
}
use dev.Prelude.Counts.{length, count, count-append, contains-count, length-le_of_counts}
use dev.Error.{ok, err, cycle, DevError}
use dev.Map.{Map, keys}
use dev.Map.Laws.{UniqueKeys}
use dev.Config.{ServiceDef, DevConfig}
use dev.Graph.{DependencyGraph, flatten, missing, join, from_config}
use dev.Graph.Edges.{needs, needs-undeclared}
use dev.Graph.Sums.{Distinct}
use dev.Graph.Waves.{WavesOrdered}
use dev.Graph.Correct.{
  IsSorted, IsAcyclic, from_config-IsSorted, accepts, ran, finish_cases, outcome, count-missing,
  count-order_of_met,
}

-- Where a name first stands in a list.
unfoldable pub index_of : Text → List Text → ℕ
index_of d [] = 0
index_of d (x ∷ l) = ite (same x d) 0 (suc (index_of d l))

index_of-lt : (d : Text) (a b : List Text) → 0 < count d a → index_of d (a ++ b) < length a
unfolding index_of count
index_of-lt d [] b h = absurd (omega arith)
index_of-lt d (x ∷ a) b h = ground (arith, index_of-lt d a b)

le-index_of : (v : Text) (a b : List Text) → count v a ≡ 0 → length a ≤ index_of v (a ++ b)
unfolding index_of count
le-index_of v [] b h = omega arith
le-index_of v (x ∷ a) b h = ground (arith, le-index_of v a b)

waves_fall :
    (services : Map ServiceDef) (seen : List Text) (ws : List (List Text)) (v d : Text)
    → Distinct (seen ++ flatten ws)
    → WavesOrdered services seen ws
    → 0 < count v (flatten ws)
    → 0 < needs services v d
    → (0 < count d (seen ++ flatten ws))
      × (index_of d (seen ++ flatten ws) < index_of v (seen ++ flatten ws))
unfolding flatten count
waves_fall services seen [] v d one h q n = absurd (omega arith)
waves_fall services seen (w ∷ ws) v d one h q n = elim (dec_lt 0 (count v w)) [
  | yes now ↦
      let before = h.0 v d now n in
      let rest = w ++ flatten ws in
      (
        omega (arith, count-append d seen rest),
        omega (
          arith,
          index_of-lt d seen rest before,
          le-index_of v seen rest
              (omega (arith, one v, count-append v seen rest, count-append v w (flatten ws))),
        ),
      )
  | no later ↦ rw (← append_assoc) (
      waves_fall services (seen ++ w) ws v d (rw append_assoc one) h.1
        (omega (arith, count-append v w (flatten ws))) n)
]

module _ (services : Map ServiceDef) (g : DependencyGraph) (unique : UniqueKeys services)
    (s : IsSorted services g) where
  count-waves : (v : Text) → count v (flatten g.waves) ≡ count v (keys services)
  count-waves v = rw (← s.in_waves) (s.complete v)

  needer_placed : (v d : Text) → 0 < needs services v d → 0 < count v (flatten g.waves)
  needer_placed v d n = ground (arith, count-waves v, needs-undeclared services v d)

  falls_in_waves :
      (v d : Text)
      → 0 < needs services v d
      → (0 < count d (flatten g.waves))
        × (index_of d (flatten g.waves) < index_of v (flatten g.waves))
  falls_in_waves v d n =
      waves_fall services [] g.waves v d (λ x. omega (arith, count-waves x, unique x)) s.ordered
        (needer_placed v d n) n

  -- The position in the order is a rank.
  sorted-IsAcyclic : IsAcyclic services
  sorted-IsAcyclic = record {
    rank = λ v. index_of v (flatten g.waves);
    declared = λ v d n. omega (arith, (falls_in_waves v d n).0, count-waves d);
    falls = λ v d n. (falls_in_waves v d n).1;
  }

-- `from_config` accepts a configuration if and only if its dependencies are declared and fall
-- along some rank, so that there is no cycle.
pub from_config_accepts :
    (cfg : DevConfig)
    → UniqueKeys cfg.service
    → ((g : DependencyGraph) × (from_config cfg ≡ ok g)) ↔ IsAcyclic cfg.service
from_config_accepts cfg unique = (
  λ (g, e). sorted-IsAcyclic cfg.service g unique (from_config-IsSorted cfg g unique e),
  accepts cfg unique,
)

-- The names of a refusal: some declared services, none of which has all its dependencies declared
-- and outside of the list. So each lies on a cycle, leads to one, or to an undeclared name.
pub record IsRefusal (services : Map ServiceDef) (e : DevError) : Type 0 where
  pub stuck : List Text
  pub message : e ≡ cycle (join (txt ", ") stuck)
  pub some_stuck : 0 < length stuck
  pub are_declared : (v : Text) → count v stuck ≤ count v (keys services)
  pub unmet :
      (v : Text)
      → 0 < count v stuck
      → ¬ (
          (d : Text) → 0 < needs services v d → (0 < count d (keys services)) × (count d stuck ≡ 0))

module _ (services : Map ServiceDef) (placed : List Text) where
  stuck_or_placed :
      (v : Text)
      → 0 < count v (keys services)
      → count v (missing placed (keys services)) ≡ 0
      → 0 < count v placed
  stuck_or_placed v d h =
      ground (arith, count-missing placed (keys services) v, contains-count placed v)

  -- Fewer names placed than declared leaves a name out.
  some_missing :
      Distinct (keys services)
      → length placed < length (keys services)
      → 0 < length (missing placed (keys services))
  unfolding count
  some_missing unique n = elim (List-cases (missing placed (keys services))) [
    | inr (x, rest, e) ↦ rw e (omega arith)
    | inl e ↦
        let covered : (v : Text) → count v (keys services) ≤ count v placed = λ v.
          ground
            (arith, count-missing placed (keys services) v, contains-count placed v, unique v) in
        absurd (omega (arith, length-le_of_counts (keys services) placed covered))
  ]

-- Every error of `from_config` is such a refusal.
pub from_config-IsRefusal :
    (cfg : DevConfig) (e : DevError)
    → UniqueKeys cfg.service
    → from_config cfg ≡ err e
    → IsRefusal cfg.service e
from_config-IsRefusal cfg e unique h =
    let services = cfg.service in
    let r = ran services unique in
    let placed = flatten r.waves in
    elim (finish_cases cfg unique r.waves) [
      | inr (n, f) ↦ absurd (cc (outcome cfg unique r))
      | inl (n, f) ↦ record {
        stuck = missing placed (keys services);
        message = ground (arith, outcome cfg unique r);
        some_stuck = some_missing services placed unique n;
        are_declared = λ v. ground (arith, count-missing placed (keys services) v);
        unmet = λ v m all. ground (
          arith,
          count-missing placed (keys services) v,
          contains-count placed v,
          count-order_of_met services unique r v
              λ d x. stuck_or_placed services placed d (all d x).0 (all d x).1,
        );
      }
    ]
