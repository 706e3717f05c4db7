-- ===== src/Config/Load/Precedence.antt =====
-- Where a variable of a service's environment comes from.
use mathlib.Core.Option
use dev.Prelude.{
  Text, txt, same, ite, Option, none, some, [], ◌∷◌, ◌≡◌, ◌∙◌, ap, sym, subst, refl, arith,
}
use dev.Error.{Result, first_step, ok}
use dev.Prelude.Counts.{count}
use dev.Map.{Map, or_else, get, modify, fill, map_values}
use dev.Map.Laws.{
  UniqueKeys, get-eq-none_of_count, get-fill, get-extend, get-map_values, get-modify,
}
use dev.Strings.{join_path}
use dev.Config.{ServiceDef, ServiceEnvOverride, EnvOverride, DevConfig}
use dev.Config.Placeholders.{interpolate_env_vars, interpolate_service, apply_interpolation}
use dev.Config.Validate.{validate}
use dev.Config.Load.{
  FileRead, contents, unreadable, Disk, dotenv_of, add_defaults, merge_file, resolve_env_file,
  resolve_services, resolve_env_files, apply_global_dotenv, override_env, override_services,
  apply_env_override, complete,
}

-- The variables that the service's `env_file` gives, if it has one.
abbrev pub file_env : Disk → Text → Option Text → Map Text
file_env disk base_dir none = []
file_env disk base_dir (some env_file) = dotenv_of (disk.read (join_path base_dir env_file))

merged_service :
    (name path : Text) (svc svc' : ServiceDef) (r : FileRead)
    → merge_file name path svc r ≡ ok svc'
    → add_defaults (dotenv_of r) svc ≡ svc'
merged_service name path svc svc' (contents text) e = ground arith
merged_service name path svc svc' (unreadable x) e = absurd (ground arith)

resolved_service :
    (disk : Disk) (base_dir name : Text) (svc svc' : ServiceDef) (o : Option Text)
    → resolve_env_file disk base_dir name svc o ≡ ok svc'
    → add_defaults (file_env disk base_dir o) svc ≡ svc'
unfolding fill
resolved_service disk base_dir name svc svc' none e = ground arith
resolved_service disk base_dir name svc svc' (some f) e =
    merged_service name (join_path base_dir f) svc svc' (disk.read (join_path base_dir f)) e

get-resolve_services :
    (disk : Disk) (base_dir n : Text) (services services' : Map ServiceDef) (svc : ServiceDef)
    → get n services ≡ some svc
    → resolve_services disk base_dir services ≡ ok services'
    → get n services' ≡ some (add_defaults (file_env disk base_dir svc.env_file) svc)
unfolding get resolve_services
get-resolve_services disk base_dir n [] services' svc h e = absurd (ground arith)
get-resolve_services disk base_dir n ((m, s) ∷ services) services' svc h e =
    let (s', f, g) = first_step (resolve_env_file disk base_dir m s s.env_file) _ e in
    let (rest, k, l) = first_step (resolve_services disk base_dir services) _ g in
    subst (λ t. get n t ≡ some (add_defaults (file_env disk base_dir svc.env_file) svc)) (go l)
      (elim (same m n)
          as (λ d.
            ite d (some s) (get n services) ≡ some svc
            → ite d (some s') (get n rest)
              ≡ some (add_defaults (file_env disk base_dir svc.env_file) svc)) [
                | yes p ↦ λ c.
                    subst (λ x. some s' ≡ some (add_defaults (file_env disk base_dir x.env_file) x))
                      (some_eq c)
                      (ap some (sym (resolved_service disk base_dir m s s' s.env_file f)))
                | no q ↦ λ c. get-resolve_services disk base_dir n services rest svc c k
              ]
        h)
  where
    go : {a b : Map ServiceDef} → Path (Result (Map ServiceDef)) (ok a) (ok b) → a ≡ b
    go e = ground arith

    some_eq : {a b : ServiceDef} → some a ≡ some b → a ≡ b
    some_eq e = ground arith

loaded_service :
    (disk : Disk) (base_dir n : Text) (cfg cfg' resolved : DevConfig) (services : Map ServiceDef)
    (svc : ServiceDef)
    → Path (Result DevConfig) (ok (record cfg { service = services })) (ok resolved)
    → Path
        (Result DevConfig)
        (ok (apply_interpolation disk.os_env (apply_global_dotenv disk base_dir resolved)))
        (ok cfg')
    → get n services ≡ some svc
    → get n cfg'.service
      ≡ some (
          interpolate_service disk.os_env
            (add_defaults (dotenv_of (disk.read (join_path base_dir (txt ".env")))) svc))
unfolding apply_interpolation apply_global_dotenv
loaded_service disk base_dir n cfg cfg' resolved services svc b d h =
    let dot = add_defaults (dotenv_of (disk.read (join_path base_dir (txt ".env")))) in
    let render = interpolate_service disk.os_env in
    ap (λ (x : DevConfig). get n x.service) (sym (same_config d))
    ∙ get-map_values render n (map_values dot resolved.service)
    ∙ ap (Option.map render) (
        get-map_values dot n resolved.service
        ∙ ap (Option.map dot) (ap (λ (x : DevConfig). get n x.service) (sym (same_config b)) ∙ h))
  where
    same_config : {x y : DevConfig} → Path (Result DevConfig) (ok x) (ok y) → x ≡ y
    same_config e = ground arith

filled_env :
    (disk : Disk) (k : Text) (env file dotenv : Map Text)
    → get k (map_values (interpolate_env_vars disk.os_env) (fill (fill env file) dotenv))
      ≡ Option.map
          (interpolate_env_vars disk.os_env)
          (or_else (get k env) (or_else (get k file) (get k dotenv)))
filled_env disk k env file dotenv =
    get-map_values (interpolate_env_vars disk.os_env) k (fill (fill env file) dotenv)
    ∙ ap (Option.map (interpolate_env_vars disk.os_env)) (
        get-fill k (fill env file) dotenv
        ∙ ap (λ o. or_else o (get k dotenv)) (get-fill k env file)
        ∙ or_else_assoc (get k env) (get k file) (get k dotenv))
  where
    or_else_assoc : (a b c : Option Text) → or_else (or_else a b) c ≡ or_else a (or_else b c)
    or_else_assoc none b c = refl
    or_else_assoc (some v) b c = refl

-- Without an override, each variable of a service in the loaded configuration is what its `env` says,
-- or else its `env_file`, or else the project's `.env`, with the placeholders in it replaced.
pub complete-env :
    (disk : Disk) (base_dir n k : Text) (svc : ServiceDef) (cfg cfg' : DevConfig)
    → get n cfg.service ≡ some svc
    → complete disk base_dir none cfg ≡ ok cfg'
    → (svc' : ServiceDef) × (get n cfg'.service ≡ some svc')
      × (get k svc'.env
          ≡ Option.map (interpolate_env_vars disk.os_env) (
              or_else (get k svc.env) (
                or_else
                  (get k (file_env disk base_dir svc.env_file))
                  (get k (dotenv_of (disk.read (join_path base_dir (txt ".env"))))))))
unfolding complete resolve_env_files apply_interpolation apply_global_dotenv interpolate_service
complete-env disk base_dir n k svc cfg cfg' h e =
    let dotenv = dotenv_of (disk.read (join_path base_dir (txt ".env"))) in
    let file = file_env disk base_dir svc.env_file in
    let (resolved, f, g) = first_step (resolve_env_files disk base_dir cfg) _ e in
    let (services, a, b) = first_step (resolve_services disk base_dir cfg.service) _ f in
    let (u, c, d) =
      first_step
        (validate (apply_interpolation disk.os_env (apply_global_dotenv disk base_dir resolved))) _
        g in
    let found = get-resolve_services disk base_dir n cfg.service services svc h a in
    let dotted = add_defaults dotenv (add_defaults file svc) in
    (
      interpolate_service disk.os_env dotted,
      loaded_service disk base_dir n cfg cfg' resolved services (add_defaults file svc) b d found,
      filled_env disk k svc.env file dotenv,
    )

abbrev overridden : Option ServiceEnvOverride → ServiceDef → ServiceDef
overridden none svc = svc
overridden (some over) svc = override_env over svc

get-override_services :
    (n : Text) (services : Map ServiceDef) (overrides : Map ServiceEnvOverride)
    → UniqueKeys overrides
    → get n (override_services services overrides)
      ≡ Option.map (overridden (get n overrides)) (get n services)
unfolding get override_services count
get-override_services n services [] u = map_same (get n services)
  where
    map_same : (o : Option ServiceDef) → o ≡ Option.map (λ svc. svc) o
    map_same none = refl
    map_same (some svc) = refl
get-override_services n services ((m, over) ∷ overrides) u =
    let ih =
      get-override_services n (modify m (override_env over) services) overrides
        (λ i. ground (arith, u i)) in
    let step = get-modify m n (override_env over) services in
    let gone = get-eq-none_of_count n overrides in
    let once = u n in
    ground (arith, ih, step, gone, once, map_same (get n (modify m (override_env over) services)))
  where
    map_same : (o : Option ServiceDef) → Option.map (λ svc. svc) o ≡ o
    map_same none = refl
    map_same (some svc) = refl

-- Under a named override, each variable of a service is what the override says, or else what the
-- configuration said before.
pub apply_env_override-env :
    (name n k : Text) (cfg : DevConfig) (overrides : EnvOverride) (svc : ServiceDef)
    (over : ServiceEnvOverride)
    → get name cfg.env_override ≡ some overrides
    → get n cfg.service ≡ some svc
    → get n overrides.service ≡ some over
    → UniqueKeys overrides.service
    → UniqueKeys over.env
    → (cfg' : DevConfig) × (svc' : ServiceDef) × (apply_env_override name cfg ≡ ok cfg')
      × (get n cfg'.service ≡ some svc')
      × (get k svc'.env ≡ or_else (get k over.env) (get k svc.env))
unfolding apply_env_override
apply_env_override-env name n k cfg overrides svc over a b c unique distinct = (
  record cfg { service = override_services cfg.service overrides.service },
  override_env over svc,
  rw a refl,
  get-override_services n cfg.service overrides.service unique ∙ (rw (b, c) refl),
  get-extend k svc.env over.env distinct,
)
