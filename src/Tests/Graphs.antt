-- ===== src/Tests/Graphs.antt =====
-- The theorems of src/graph.rs at small configurations.
use dev.Prelude.{Text, same, txt, [], ◌∷◌, ◌≡◌, ◌⊎◌, ◌↔◌, refl}
use dev.Error.{ok, err, cycle}
use dev.Graph.{
  DependencyGraph, flatten, depends, tables, from_config, transitive_start_order,
  transitive_dependents_stop_order,
}
use dev.Graph.Edges.{needs}
use dev.Graph.Correct.{IsSorted, IsAcyclic, from_config_returns, from_config-IsSorted}
use dev.Graph.Accept.{IsRefusal, from_config_accepts, from_config-IsRefusal}
use dev.Graph.Plans.{
  IsPlan, StartSafe, StopSafe, transitive_start_order-IsPlan,
  transitive_dependents_stop_order-IsPlan,
}
use dev.Tests.{
  db, web, shop, shop_services, shop_graph, shop-UniqueKeys, shop_starts, loop, loop_services,
  loop-UniqueKeys,
}

from_config_returns_example :
    ((g : DependencyGraph) × (from_config loop ≡ ok g))
    ⊎ ((names : Text) × (from_config loop ≡ err (cycle names)))
from_config_returns_example = from_config_returns loop loop-UniqueKeys

from_config-IsSorted_example : IsSorted shop_services shop_graph
from_config-IsSorted_example = from_config-IsSorted shop shop_graph shop-UniqueKeys shop_starts

from_config_accepts_example :
    ((g : DependencyGraph) × (from_config shop ≡ ok g)) ↔ IsAcyclic shop_services
from_config_accepts_example = from_config_accepts shop shop-UniqueKeys

loop_fails : from_config loop ≡ err (cycle (txt "web, db"))
unfolding from_config same
loop_fails = refl

from_config-IsRefusal_example : IsRefusal loop_services (cycle (txt "web, db"))
from_config-IsRefusal_example =
    from_config-IsRefusal loop (cycle (txt "web, db")) loop-UniqueKeys loop_fails

transitive_start_order-IsPlan_example :
    IsPlan shop_services
      (needs shop_services)
      (web ∷ [])
      (transitive_start_order shop_graph (web ∷ []))
    × StartSafe shop_services (transitive_start_order shop_graph (web ∷ []))
transitive_start_order-IsPlan_example =
    transitive_start_order-IsPlan shop shop_graph (web ∷ []) shop-UniqueKeys shop_starts

transitive_dependents_stop_order-IsPlan_example :
    IsPlan shop_services
      (λ u v. needs shop_services v u)
      (db ∷ [])
      (transitive_dependents_stop_order shop_graph (db ∷ []))
    × StopSafe shop_services (transitive_dependents_stop_order shop_graph (db ∷ []))
transitive_dependents_stop_order-IsPlan_example =
    transitive_dependents_stop_order-IsPlan shop shop_graph (db ∷ []) shop-UniqueKeys shop_starts

starts_both : transitive_start_order shop_graph (web ∷ []) ≡ db ∷ web ∷ []
unfolding transitive_start_order flatten depends same
starts_both = refl

stops_both : transitive_dependents_stop_order shop_graph (db ∷ []) ≡ web ∷ db ∷ []
unfolding transitive_dependents_stop_order flatten tables same
stops_both = refl
