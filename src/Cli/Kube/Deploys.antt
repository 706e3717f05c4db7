-- ===== src/Cli/Kube/Deploys.antt =====
-- How `up` ends in the Kubernetes mode: what was deployed, in which order, and where it stopped.
use dev.Prelude.{Text, ◌≡◌, some, List, [], ◌∷◌, ◌++◌, Bool, true, false}
use dev.Prelude.Counts.{count}
use dev.Error.{Result, ok, err, DevError}
use dev.Map.{get}
use dev.Config.{ServiceDef, DevConfig}
use dev.Graph.{from_config}
use dev.Graph.Edges.{needs}
use dev.Graph.Plans.{IsPlan, StartSafe}
use dev.Steps.{after, ◌>>=◌, pure}
use dev.K8s.{Shell, Cluster}
use dev.K8s.Runtime.{K8sRuntime, start_service, deploy_ingress}
use dev.Cli.Targets.{k8s_up_targets}
use dev.Cli.Kube.{watched_names}

abbrev pub is_ok {ℓ} : {A : Type ℓ} → Result A → Bool
is_ok (ok a) = true
is_ok r = false

module _ (runtime : K8sRuntime) (shell : Shell) (cfg : DevConfig) (config_dir : Text) where
  -- The services are deployed one after the other, each with success.
  pub data Deploys : List Text → Cluster → Cluster → Type 0 where
    start : {s : Cluster} → Deploys [] s s
    next :
        {name : Text} {order : List Text} {s t u : Cluster} (svc : ServiceDef)
        → get name cfg.service ≡ some svc
        → start_service runtime shell name svc config_dir s ≡ (ok tt, t)
        → Deploys order t u
        → Deploys (name ∷ order) s u

  -- All of the order is deployed, or a first service is not, whose result then is the result.
  pub data Rollout (order : List Text) (s : Cluster) (r : Result (Unit {0}) × Cluster)
      : Type 0 where
    deployed : (t : Cluster) → Deploys order s t → r ≡ (ok tt, t) → Rollout order s r
    broken :
        (done rest : List Text) (name : Text) (svc : ServiceDef) (t : Cluster)
        → order ≡ done ++ name ∷ rest
        → Deploys done s t
        → get name cfg.service ≡ some svc
        → start_service runtime shell name svc config_dir t ≡ r
        → is_ok r.0 ≡ false
        → Rollout order s r

  -- How `run_k8s_mode` ends.
  pub data Mode (services label : List Text) (s : Cluster) (r : Result (List Text) × Cluster)
      : Type 0 where
    no_targets :
        ((v : Text) → count v (k8s_up_targets cfg services label) ≡ 0)
        → (e : DevError) → r ≡ (err e, s)
        → Mode services label s r
    cyclic : (e : DevError) → from_config cfg ≡ err e → r ≡ (err e, s) → Mode services label s r
    planned :
        (order : List Text)
        → IsPlan cfg.service (needs cfg.service) (k8s_up_targets cfg services label) order
        → StartSafe cfg.service order
        → (q : Result (Unit {0}) × Cluster) → Rollout order s q
        → r
          ≡ after q (λ _.
            deploy_ingress runtime shell cfg.service >>= λ _. pure (watched_names cfg order))
        → Mode services label s r
