-- ===== src/K8s/Runtime/Starts.antt =====
-- Deployments from generated manifests: what is applied and in which order, and what a failure leaves.
use mathlib.Core.List.{append_assoc}
use dev.Prelude.{
  Text, Option, none, some, List, [], ◌∷◌, ◌++◌, map, true, false, ◌≡◌, ◌∙◌, inl, inr, refl, sym,
  ap,
}
use dev.Error.{Result, ok, err, DevError}
use dev.Map.{Map, insert}
use dev.Config.{ServiceDef, K8sConfig}
use dev.Steps.{after, ◌>>=◌, ◌>>◌}
use dev.K8s.{Command, Shell, Cluster, Deploy}
use dev.K8s.Client.{
  K8sClient, apply_manifest, apply_command, is_success, wait_for_ready, wait_command,
}
use dev.K8s.Manifest.{generate_deployment, generate_service, generate_configmap, generate_secret}
use dev.K8s.Runs.{AllSucceed, ran, Ran, wait_for_ready-Ran}
use dev.K8s.Runtime.Applies.{
  to_list, apply_all, Applied, applied, refused, apply_all-Applied, apply_all-cons,
  apply_optional-then,
}
use dev.K8s.Runtime.{
  K8sRuntime, load_secrets, deploy_generated, apply_optional, app_label, start_service, build_for,
  build_and_push, deploy, keep_manifests,
}

-- The manifests of a service, in the order in which they are applied.
abbrev pub documents : Shell → K8sRuntime → Text → ServiceDef → Text → Map Text → List Text
documents shell runtime name svc config_dir secrets =
    to_list (generate_secret shell.encode name secrets runtime.client.namespace)
    ++ (to_list (generate_configmap name svc runtime.client.namespace)
        ++ generate_deployment name svc runtime.client.namespace config_dir
          ∷ generate_service name svc runtime.client.namespace
          ∷ [])

-- How the deployment of the manifests `ds` ends: the pod is ready, or not, or a manifest was not
-- applied, and then nothing is kept of them.
pub data Deployed (shell : Shell) (client : K8sClient) (name : Text) (ds : List Text) (s : Cluster)
    (r : Result (Unit {0}) × Cluster) : Type 0 where
  ready :
      AllSucceed shell s.commands
        (map (apply_command client) ds ++ wait_command client (app_label name) 60 ∷ [])
      → r ≡ (
        ok tt,
        record s {
          commands =
              s.commands
              ++ (map (apply_command client) ds ++ wait_command client (app_label name) 60 ∷ []);
          manifests = insert name ds s.manifests;
        },
      )
      → Deployed shell client name ds s r
  unready :
      (e : DevError)
      → AllSucceed shell s.commands (map (apply_command client) ds)
      → is_success (
          shell.outcome (
            s.commands
            ++ (map (apply_command client) ds ++ wait_command client (app_label name) 60 ∷ [])))
        ≡ false
      → r ≡ (
        err e,
        record s {
          commands =
              s.commands
              ++ (map (apply_command client) ds ++ wait_command client (app_label name) 60 ∷ []);
          manifests = insert name ds s.manifests;
        },
      )
      → Deployed shell client name ds s r
  unapplied :
      (pre post : List Text) (d : Text) (e : DevError)
      → ds ≡ pre ++ d ∷ post
      → AllSucceed shell s.commands (map (apply_command client) pre)
      → is_success (
          shell.outcome
            (s.commands ++ (map (apply_command client) pre ++ apply_command client d ∷ [])))
        ≡ false
      → r ≡ (err e, ran (map (apply_command client) pre ++ apply_command client d ∷ []) s)
      → Deployed shell client name ds s r

AllSucceed-append :
    (shell : Shell) (before cs : List Command) (c : Command)
    → AllSucceed shell before cs
    → is_success (shell.outcome (before ++ (cs ++ c ∷ []))) ≡ true
    → AllSucceed shell before (cs ++ c ∷ [])
unfolding AllSucceed
AllSucceed-append shell before [] c a h = (h, tt)
AllSucceed-append shell before (d ∷ cs) c a h = (
  a.0,
  AllSucceed-append shell (before ++ d ∷ []) cs c a.1
      (ap (λ ds. is_success (shell.outcome ds)) (append_assoc before _ _) ∙ h),
)

-- The end of a deployment, when its manifests `ds` are known.
abbrev pub finish : K8sClient → Shell → Text → List Text → Deploy (Unit {0})
finish client shell name ds =
    keep_manifests name ds >> wait_for_ready client shell (app_label name) 60

finish-Deployed :
    (client : K8sClient) (shell : Shell) (name : Text) (ds : List Text) (s : Cluster)
    → Deployed shell client name ds s ((apply_all client shell ds >> finish client shell name ds) s)
finish-Deployed client shell name ds s = go (apply_all-Applied client shell ds s)
  where
    wait :
        AllSucceed shell s.commands (map (apply_command client) ds)
        → Ran shell
            (wait_command client (app_label name) 60)
            (wait_for_ready client shell
              (app_label name)
              60
              (record (ran (map (apply_command client) ds) s) {
                manifests = insert name ds s.manifests;
              }))
            (record (ran (map (apply_command client) ds) s) {
              manifests = insert name ds s.manifests;
            })
        → Deployed shell client name ds s (
            wait_for_ready client shell
              (app_label name)
              60
              (record (ran (map (apply_command client) ds) s) {
                manifests = insert name ds s.manifests;
              }))
    wait a (inl (h, e)) =
        ready
          (AllSucceed-append shell s.commands _ _ a
            (ap (λ cs. is_success (shell.outcome cs)) (sym (append_assoc s.commands _ _)) ∙ h))
          (e ∙ simp append_assoc)
    wait a (inr (x, h, e)) =
        unready x a
          (ap (λ cs. is_success (shell.outcome cs)) (sym (append_assoc s.commands _ _)) ∙ h)
          (e ∙ simp append_assoc)

    go :
        {r : Result (Unit {0}) × Cluster}
        → Applied shell client ds s r
        → Deployed shell client name ds s (after r (λ _. finish client shell name ds))
    go (applied a e) = rw e (wait a (wait_for_ready-Ran client shell (app_label name) 60 _))
    go (refused pre post d x e a h f) = unapplied pre post d x e a h (rw f refl)

pub deploy_generated-Deployed :
    (runtime : K8sRuntime) (shell : Shell) (name : Text) (svc : ServiceDef) (config_dir : Text)
    (secrets : Map Text) (s : Cluster)
    → load_secrets shell svc config_dir s ≡ (ok secrets, s)
    → Deployed shell runtime.client name
        (documents shell runtime name svc config_dir secrets)
        s
        (deploy_generated runtime shell name svc config_dir s)
unfolding deploy_generated
deploy_generated-Deployed runtime shell name svc config_dir secrets s h =
    rw (h, applies) (finish-Deployed runtime.client shell name _ s)
  where
    end : Deploy (Unit {0})
    end = finish runtime.client shell name (documents shell runtime name svc config_dir secrets)

    applies :
        (apply_optional runtime shell
              (generate_secret shell.encode name secrets runtime.client.namespace)
            >>= λ secret.
                apply_optional runtime shell (generate_configmap name svc runtime.client.namespace)
                >>= λ configmap.
                    apply_manifest runtime.client shell
                      (generate_deployment name svc runtime.client.namespace config_dir)
                    >> (apply_manifest runtime.client shell
                          (generate_service name svc runtime.client.namespace)
                        >> finish runtime.client shell name (
                            secret
                            ++ (configmap
                                ++ generate_deployment name svc runtime.client.namespace config_dir
                                  ∷ generate_service name svc runtime.client.namespace
                                  ∷ []))))
          s
        ≡ (apply_all runtime.client shell (documents shell runtime name svc config_dir secrets)
              >> finish runtime.client shell name
                  (documents shell runtime name svc config_dir secrets))
            s
    applies =
        apply_optional-then runtime shell
          (generate_secret shell.encode name secrets runtime.client.namespace) end
          (to_list (generate_configmap name svc runtime.client.namespace)
            ++ generate_deployment name svc runtime.client.namespace config_dir
              ∷ generate_service name svc runtime.client.namespace
              ∷ [])
          s _
          (λ t.
            apply_optional-then runtime shell (generate_configmap name svc runtime.client.namespace)
              end
              (generate_deployment name svc runtime.client.namespace config_dir
                ∷ generate_service name svc runtime.client.namespace
                ∷ [])
              t _
              (λ u.
                apply_all-cons runtime.client shell end
                  (generate_deployment name svc runtime.client.namespace config_dir)
                  (generate_service name svc runtime.client.namespace ∷ []) u
                  (λ v.
                    apply_all-cons runtime.client shell end
                      (generate_service name svc runtime.client.namespace) [] v {m = end}
                      (λ w. refl))))

-- A service that is neither built nor rendered by Helm or Kustomize.
abbrev pub IsGenerated : Option K8sConfig → Type 0
IsGenerated none = Unit
IsGenerated (some k8s) =
    (k8s.dockerfile ≡ none) × (k8s.helm_chart ≡ none) × (k8s.kustomize_dir ≡ none)

start_service-generated :
    (runtime : K8sRuntime) (shell : Shell) (name : Text) (svc : ServiceDef) (config_dir : Text)
    (s : Cluster)
    → IsGenerated svc.k8s
    → start_service runtime shell name svc config_dir s
      ≡ deploy_generated runtime shell name svc config_dir s
unfolding start_service build_and_push
start_service-generated runtime shell name svc config_dir s g = go svc.k8s g
  where
    go :
        (k : Option K8sConfig)
        → IsGenerated k
        → after
            (build_for runtime shell config_dir k s)
            (λ image. deploy runtime shell name svc config_dir k)
          ≡ deploy_generated runtime shell name svc config_dir s
    go none h = refl
    go (some k8s) h = rw (h.0, h.1, h.2) refl

-- `start_service` of a service that is neither built nor rendered, with its secrets loaded: when
-- every command succeeds, exactly its manifests were applied (the secret, the config map, the
-- deployment and the service, the first two if there are any), then the pods were waited for, and
-- the manifests are kept. When the wait fails, that is the error, and they are kept. When a
-- manifest is not applied, nothing runs behind it, the result is an error, and nothing is kept.
pub start_service-Deployed :
    (runtime : K8sRuntime) (shell : Shell) (name : Text) (svc : ServiceDef) (config_dir : Text)
    (secrets : Map Text) (s : Cluster)
    → IsGenerated svc.k8s
    → load_secrets shell svc config_dir s ≡ (ok secrets, s)
    → Deployed shell runtime.client name
        (documents shell runtime name svc config_dir secrets)
        s
        (start_service runtime shell name svc config_dir s)
start_service-Deployed runtime shell name svc config_dir secrets s g h =
    rw (start_service-generated runtime shell name svc config_dir s g)
      (deploy_generated-Deployed runtime shell name svc config_dir secrets s h)
