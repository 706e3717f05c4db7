-- ===== src/Config/Validate/Laws.antt =====
-- `validate` (src/config.rs) against a description of the configurations that it accepts.
use dev.Prelude.{
  Text, ℕ, Option, none, some, List, [], ◌∷◌, true, false, ◌≡◌, ◌≢◌, inl, inr, ◌↔◌, refl, arith,
  Option-cases, Bool-cases,
}
use dev.Prelude.Counts.{contains}
use dev.Error.{Result, ok, err, port_conflict, panic, ◌>>◌}
use dev.Map.{Map, get}
use dev.Config.{ServiceDef, DevConfig}
use dev.Config.Validate.{
  lookup_port, no_port, check_ports, unavailable, check_deps, check_services, validate,
}

-- A property of each entry of a map.
abbrev pub Each {ℓ} : (Text → ServiceDef → Type ℓ) → Map ServiceDef → Type ℓ
Each P [] = Unit
Each P ((n, svc) ∷ m) = P n svc × Each P m

-- `p` is no port of a service that is enabled and has a fixed port.
abbrev pub PortFree : ℕ → Map ServiceDef → Type 0
PortFree p = Each (λ n svc. no_port svc ≡ false → svc.port ≢ p)

-- No two enabled services have one fixed port.
abbrev pub PortsDistinct : Map ServiceDef → Type 0
PortsDistinct [] = Unit
PortsDistinct ((n, svc) ∷ m) = (no_port svc ≡ false → PortFree svc.port m) × PortsDistinct m

-- Each dependency of an enabled service is a declared service that is enabled.
abbrev pub DepsAvailable : Map ServiceDef → Map ServiceDef → Type 0
DepsAvailable all = Each (λ n svc.
    svc.disabled ≡ false
    → (d : Text) → contains svc.depends_on d ≡ true
    → (t : ServiceDef) × (get d all ≡ some t) × (t.disabled ≡ false))

abbrev Unseen : List (ℕ × Text) → Map ServiceDef → Type 0
Unseen seen = Each (λ n svc. no_port svc ≡ false → lookup_port svc.port seen ≡ none)

Unseen-cons :
    (p : ℕ) (n : Text) (seen : List (ℕ × Text)) (m : Map ServiceDef)
    → Unseen ((p, n) ∷ seen) m ↔ (PortFree p m × Unseen seen m)
unfolding lookup_port
Unseen-cons p n seen [] = (λ _. (tt, tt), λ _. tt)
Unseen-cons p n seen ((k, svc) ∷ m) =
    let ih = Unseen-cons p n seen m in
    (
      λ (h, r). ((λ a e. ground (arith, h a), (ih.0 r).0), (λ a. ground (arith, h a), (ih.0 r).1)),
      λ ((f, fr), (u, ur)). (λ a. ground (arith, f a, u a), ih.1 (fr, ur)),
    )

module _ (seen : List (ℕ × Text)) (n : Text) (svc : ServiceDef) (m : Map ServiceDef) where
  check_ports_off : no_port svc ≡ true → check_ports seen ((n, svc) ∷ m) ≡ check_ports seen m
  unfolding check_ports
  check_ports_off h = ground arith

  check_ports_taken :
      (other : Text)
      → no_port svc ≡ false
      → lookup_port svc.port seen ≡ some other
      → check_ports seen ((n, svc) ∷ m) ≡ err (port_conflict other n svc.port)
  unfolding check_ports
  check_ports_taken other h e = ground arith

  check_ports_free :
      no_port svc ≡ false
      → lookup_port svc.port seen ≡ none
      → check_ports seen ((n, svc) ∷ m) ≡ check_ports ((svc.port, n) ∷ seen) m
  unfolding check_ports
  check_ports_free h e = ground arith

Unseen-none : (m : Map ServiceDef) → Unseen [] m
unfolding lookup_port
Unseen-none [] = tt
Unseen-none ((n, svc) ∷ m) = (λ a. refl, Unseen-none m)

check_ports-ok :
    (m : Map ServiceDef) (seen : List (ℕ × Text))
    → (check_ports seen m ≡ ok tt) ↔ (Unseen seen m × PortsDistinct m)
check_ports-ok [] seen = (λ _. (tt, tt), λ _. unfold check_ports in refl)
check_ports-ok ((n, svc) ∷ m) seen = elim (Bool-cases (no_port svc)) [
  | inl off ↦
      let (there, back) = check_ports-ok m seen in
      rw (check_ports_off seen n svc m off)
        (λ h. ((λ a. cc, (there h).0), (λ a. cc, (there h).1)), λ ((_, u), (_, d)). back (u, d))
  | inr on ↦ elim (Option-cases (lookup_port svc.port seen)) [
    | inr (other, e) ↦
        rw (check_ports_taken seen n svc m other on e) (λ h. cc, λ ((u, _), _). cc (u on))
    | inl e ↦
        let (there, back) = check_ports-ok m ((svc.port, n) ∷ seen) in
        let (split, join) = Unseen-cons svc.port n seen m in
        rw (check_ports_free seen n svc m on e) (
          λ h. let (free, rest) = split (there h).0 in ((λ a. e, rest), (λ a. free, (there h).1)),
          λ ((_, u), (f, d)). back (join (f on, u), d),
        )
  ]
]

available_iff :
    (o : Option ServiceDef)
    → (unavailable o ≡ false) ↔ ((t : ServiceDef) × (o ≡ some t) × (t.disabled ≡ false))
available_iff none = (λ h. cc, λ (t, e, _). cc)
available_iff (some svc) = (λ h. (svc, refl, h), λ (t, e, h). ground arith)

module _ (all : Map ServiceDef) (n : Text) where
  available_cons :
      (x : Text) (deps : List Text)
      → unavailable (get x all) ≡ false
      → ((d : Text) → contains deps d ≡ true → unavailable (get d all) ≡ false)
      → (d : Text) → contains (x ∷ deps) d ≡ true
      → unavailable (get d all) ≡ false
  unfolding contains
  available_cons x deps e h d m = ground (arith, h d)

  check_deps_iff :
      (deps : List Text)
      → (check_deps all n deps ≡ ok tt)
        ↔ ((d : Text) → contains deps d ≡ true → unavailable (get d all) ≡ false)
  unfolding check_deps contains
  check_deps_iff [] = (λ h d m. cc, λ h. refl)
  check_deps_iff (x ∷ deps) = elim (Bool-cases (unavailable (get x all))) [
    | inl bad ↦ rw bad (λ h. cc, λ h. cc (h x (ground arith)))
    | inr good ↦
        let (there, back) = check_deps_iff deps in
        rw good (λ h. available_cons x deps good (there h), λ h. back (λ d m. h d (ground arith)))
  ]

  check_deps-ok :
      (deps : List Text)
      → (check_deps all n deps ≡ ok tt) ↔ (
          (d : Text)
          → contains deps d ≡ true
          → (t : ServiceDef) × (get d all ≡ some t) × (t.disabled ≡ false))
  check_deps-ok deps =
      let (there, back) = check_deps_iff deps in
      (
        λ h d m. (available_iff (get d all)).0 (there h d m),
        λ h. back (λ d m. (available_iff (get d all)).1 (h d m)),
      )

>>-ok : (r k : Result (Unit {0})) → (r >> k ≡ ok tt) ↔ ((r ≡ ok tt) × (k ≡ ok tt))
>>-ok (ok tt) k = (λ h. (refl, h), λ (_, h). h)
>>-ok (err e) k = (λ h. cc, λ (h, _). cc)
>>-ok (panic f) k = (λ h. cc, λ (h, _). cc)

check_services-ok : (all m : Map ServiceDef) → (check_services all m ≡ ok tt) ↔ DepsAvailable all m
unfolding check_services
check_services-ok all [] = (λ h. tt, λ h. refl)
check_services-ok all ((n, svc) ∷ m) =
    let (there, back) = check_services-ok all m in
    elim (Bool-cases svc.disabled) [
      | inl off ↦ rw off (λ h. (λ a. cc, there h), λ (_, d). back d)
      | inr on ↦
          let (split, join) = >>-ok (check_deps all n svc.depends_on) (check_services all m) in
          let (down, up) = check_deps-ok all n svc.depends_on in
          rw on
            (λ h. (λ a. down (split h).0, there (split h).1), λ (d, r). join (up (d refl), back r))
    ]

-- `validate` accepts a configuration if and only if no two enabled services share a fixed port and
-- every dependency of an enabled service is a declared service that is enabled.
pub validate-ok :
    (cfg : DevConfig)
    → (validate cfg ≡ ok tt) ↔ (PortsDistinct cfg.service × DepsAvailable cfg.service cfg.service)
unfolding validate
validate-ok cfg =
    let (split, join) =
      >>-ok (check_ports [] cfg.service) (check_services cfg.service cfg.service) in
    let (ports, ports') = check_ports-ok cfg.service [] in
    let (deps, deps') = check_services-ok cfg.service cfg.service in
    (
      λ h. ((ports (split h).0).1, deps (split h).1),
      λ (p, d). join (ports' (Unseen-none cfg.service, p), deps' d),
    )
