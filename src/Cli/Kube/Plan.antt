-- ===== src/Cli/Kube/Plan.antt =====
-- What `up` deploys in the Kubernetes mode, and in which order.
use dev.Prelude.{
  Text, ◌<◌, ◌≤◌, ◌≡◌, ◌↔◌, ◌⊎◌, refl, Option, none, some, List, [], ◌∷◌, Bool, true, false, ◌==◌,
  arith, Bool-cases, Option-cases, inl, inr,
}
use dev.Prelude.Counts.{length, count, count-append, counts_of_length}
use dev.Error.{ok}
use dev.Map.{Map, keys, get}
use dev.Map.Laws.{UniqueKeys}
use dev.Config.{ServiceDef, DevConfig}
use dev.Log.{is_empty}
use dev.Graph.{DependencyGraph, from_config}
use dev.Graph.Edges.{needs}
use dev.Graph.Sums.{Distinct}
use dev.Graph.Worklist.{asked}
use dev.Graph.Correct.{from_config-IsSorted}
use dev.Graph.Plans.{IsPlan, StartSafe, order-StartSafe, transitive_start_order-IsPlan}
use dev.Cli.Targets.{
  k8s_up_targets, k8s_named, labelled_names, has_label, filter_by_labels, is_enabled,
}
use dev.Cli.Targets.Order.{targets-Distinct, targets-count}
use dev.Cli.Kube.{deploy_order}

length-keys {ℓ} : {V : Type ℓ} (m : Map V) → length (keys m) ≡ length m
length-keys [] = refl
length-keys (e ∷ m) = omega (arith, length-keys m)

pub k8s_up_targets-Distinct :
    (cfg : DevConfig) (services label : List Text) → Distinct (k8s_up_targets cfg services label)
unfolding k8s_up_targets
k8s_up_targets-Distinct cfg services label =
    targets-Distinct (λ v. is_enabled (get v cfg.service)) (k8s_named cfg services label)

enabled-declared :
    (services : Map ServiceDef) (v : Text)
    → is_enabled (get v services) ≡ true
    → 0 < count v (keys services)
unfolding get count
enabled-declared [] v h = cc
enabled-declared ((k, svc) ∷ services) v h = ground (arith, enabled-declared services v)

k8s_up_targets-count :
    (cfg : DevConfig) (services label : List Text) (v : Text)
    → (0 < count v (k8s_up_targets cfg services label))
      ↔ ((is_enabled (get v cfg.service) ≡ true) × (0 < count v (k8s_named cfg services label)))
unfolding k8s_up_targets
k8s_up_targets-count cfg services label v =
    targets-count (λ v. is_enabled (get v cfg.service)) (k8s_named cfg services label) v

declared-target :
    (cfg : DevConfig) (services label : List Text) (v : Text)
    → UniqueKeys cfg.service
    → length (k8s_up_targets cfg services label) ≡ length cfg.service
    → count v (k8s_up_targets cfg services label) ≡ count v (keys cfg.service)
declared-target cfg services label v unique n =
    counts_of_length (k8s_up_targets cfg services label) (keys cfg.service)
      (λ u. ground (
        arith,
        k8s_up_targets-Distinct cfg services label u,
        k8s_up_targets-count cfg services label u,
        enabled-declared cfg.service u,
      ))
      (omega (arith, n, length-keys cfg.service)) v

-- The order of the deployment is the plan of its targets, dependencies first.
pub deploy_order-IsPlan :
    (cfg : DevConfig) (g : DependencyGraph) (services label : List Text)
    → UniqueKeys cfg.service
    → from_config cfg ≡ ok g
    → IsPlan cfg.service
        (needs cfg.service)
        (k8s_up_targets cfg services label)
        (deploy_order cfg g (k8s_up_targets cfg services label))
      × StartSafe cfg.service (deploy_order cfg g (k8s_up_targets cfg services label))
deploy_order-IsPlan cfg g services label unique e =
    let targets = k8s_up_targets cfg services label in
    let sorted = from_config-IsSorted cfg g unique e in
    elim (Bool-cases (length targets == length cfg.service)) [
      | inl b ↦ rw b (
        record {
          wanted = λ v. (
            λ m. (
              omega (arith, m, sorted.complete v),
              asked (
                  omega (
                    arith,
                    m,
                    sorted.complete v,
                    declared-target cfg services label v unique (ground (arith, b)),
                  )),
            ),
            λ (d, r). omega (arith, d, sorted.complete v),
          );
          once = λ v. omega (arith, sorted.complete v, unique v);
        },
        order-StartSafe cfg g targets unique e,
      )
      | inr b ↦ rw b (transitive_start_order-IsPlan cfg g targets unique e)
    ]

abbrev pub tagged : List Text → Option ServiceDef → Bool
tagged label none = false
tagged label (some svc) = has_label svc label

-- The arguments of the command ask for the service: by its name, by a label that it has, or by
-- neither name nor label.
abbrev pub Wanted : DevConfig → List Text → List Text → Text → Type 0
Wanted cfg services label v =
    (0 < count v services)
    ⊎ (is_empty label ≡ false) × (tagged label (get v cfg.service) ≡ true)
    ⊎ (is_empty services ≡ true) × (is_empty label ≡ true)

labelled_names-keys :
    (m : Map ServiceDef) (label : List Text) (v : Text)
    → count v (labelled_names label m) ≤ count v (keys m)
unfolding labelled_names count
labelled_names-keys [] label v = omega arith
labelled_names-keys ((k, svc) ∷ m) label v = ground (arith, labelled_names-keys m label v)

get-absent : (m : Map ServiceDef) (v : Text) → count v (keys m) ≡ 0 → get v m ≡ none
unfolding get count
get-absent [] v h = refl
get-absent ((k, svc) ∷ m) v h = ground (arith, get-absent m v)

labelled_names-count :
    (m : Map ServiceDef) (label : List Text) (v : Text)
    → count v (keys m) ≤ 1
    → (0 < count v (labelled_names label m)) ↔ (tagged label (get v m) ≡ true)
unfolding labelled_names get count
labelled_names-count [] label v u = ground arith
labelled_names-count ((k, svc) ∷ m) label v u =
    ground (arith, labelled_names-count m label v, labelled_names-keys m label v)

k8s_named-count :
    (cfg : DevConfig) (services label : List Text) (v : Text)
    → UniqueKeys cfg.service
    → 0 < count v (keys cfg.service)
    → (0 < count v (k8s_named cfg services label)) ↔ Wanted cfg services label v
unfolding filter_by_labels count
k8s_named-count cfg [] [] v unique d = (λ h. inr (inr (refl, refl)), λ h. d)
k8s_named-count cfg (s ∷ services) [] v unique d = ground arith
k8s_named-count cfg [] (l ∷ label) v unique d =
    ground (arith, labelled_names-count cfg.service (l ∷ label) v (unique v))
k8s_named-count cfg (s ∷ services) (l ∷ label) v unique d = ground (
  arith,
  labelled_names-count cfg.service (l ∷ label) v (unique v),
  count-append v (s ∷ services) (labelled_names (l ∷ label) cfg.service),
)

-- The targets of `up`: the enabled services that its arguments ask for.
pub k8s_up_targets-Wanted :
    (cfg : DevConfig) (services label : List Text) (v : Text)
    → UniqueKeys cfg.service
    → (0 < count v (k8s_up_targets cfg services label))
      ↔ ((is_enabled (get v cfg.service) ≡ true) × Wanted cfg services label v)
k8s_up_targets-Wanted cfg services label v unique = (
  λ h.
      let (on, n) = (k8s_up_targets-count cfg services label v).0 h in
      (on, (k8s_named-count cfg services label v unique (enabled-declared cfg.service v on)).0 n),
  λ (on, w).
      (k8s_up_targets-count cfg services label v).1
        (on, (k8s_named-count cfg services label v unique (enabled-declared cfg.service v on)).1 w),
)

get-none : (m : Map ServiceDef) (v : Text) → get v m ≡ none → count v (keys m) ≡ 0
unfolding get count
get-none [] v h = refl
get-none ((k, svc) ∷ m) v h = ground (arith, get-none m v)

pub declared-get :
    (m : Map ServiceDef) (v : Text)
    → 0 < count v (keys m)
    → (svc : ServiceDef) × (get v m ≡ some svc)
declared-get m v h = elim (Option-cases (get v m)) [
  | inl e ↦ absurd (omega (arith, h, get-none m v e))
  | inr e ↦ e
]
