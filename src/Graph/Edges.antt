-- ===== src/Graph/Edges.antt =====
-- What the tables of `from_config` hold: how often one service needs another, and in total.
use mathlib.Core.Option
use dev.Prelude.{
  Text, same, ℕ, suc, ◌+◌, ◌<◌, ◌≡◌, refl, List, [], ◌∷◌, ◌++◌, foldl, ite, true, arith,
}
use dev.Prelude.Counts.{length, count, count-append}
use dev.Map.{Map, keys, get, update, is_some}
use dev.Map.Laws.{get-update, UniqueKeys}
use dev.Config.{ServiceDef}
use dev.Graph.{Tables, each, note_dep, note_service, tables, neighbours, depends}

-- How often `u` stands among the dependencies of `v`.
unfoldable pub needs : Map ServiceDef → Text → Text → ℕ
unfolding count
needs [] v u = 0
needs ((k, svc) ∷ services) v u =
    ite (same k v) (count u svc.depends_on + needs services v u) (needs services v u)

-- How many dependencies `v` lists.
unfoldable pub total : Map ServiceDef → Text → ℕ
total [] v = 0
total ((k, svc) ∷ services) v =
    ite (same k v) (length svc.depends_on + total services v) (total services v)

abbrev pub degree : Map ℕ → Text → ℕ
degree m v = Option.get_or (get v m) 0

module _ {ℓ} {V : Type ℓ} where
  pub has-update :
      (k j : Text) (d : V) (f : V → V) (m : Map V)
      → is_some (get j m) ≡ true
      → is_some (get j (update k d f m)) ≡ true
  has-update k j d f m h = ground (arith, get-update k j d f m)

degree-update :
    (name v : Text) (m : Map ℕ)
    → degree (update name 0 (λ n. suc n) m) v ≡ degree m v + ite (same name v) 1 0
degree-update name v m = ground (arith, get-update name v 0 (λ n. suc n) m)

neighbours-update :
    (dep name u v : Text) (m : Map (List Text))
    → count v (neighbours (update dep [] (λ l. l ++ name ∷ []) m) u)
      ≡ count v (neighbours m u) + ite (same dep u) (ite (same name v) 1 0) 0
unfolding count
neighbours-update dep name u v m = ground (
  arith,
  get-update dep u [] (λ l. l ++ name ∷ []) m,
  count-append v (neighbours m u) (name ∷ []),
)

-- What one pass over the dependencies `ds` of `name` adds to the tables.
record Adds (name : Text) (ds : List Text) (t t' : Tables) : Type 0 where
  degrees :
      (v : Text) → degree t'.in_degree v ≡ degree t.in_degree v + ite (same name v) (length ds) 0
  dependents :
      (u v : Text)
      → count v (neighbours t'.dependents u)
        ≡ count v (neighbours t.dependents u) + ite (same name v) (count u ds) 0
  reverses :
      (u v : Text)
      → count v (neighbours t'.reverse_deps u)
        ≡ count v (neighbours t.reverse_deps u) + ite (same name v) (count u ds) 0
  has_degree : (v : Text) → is_some (get v t.in_degree) ≡ true → is_some (get v t'.in_degree) ≡ true
  has_list : (v : Text) → is_some (get v t.dependents) ≡ true → is_some (get v t'.dependents) ≡ true

note_deps-Adds :
    (name : Text) (ds : List Text) (t : Tables) → Adds name ds t (foldl (note_dep name) t ds)
unfolding note_dep count
note_deps-Adds name [] t = record {
  degrees = λ v. ground arith;
  dependents = λ u v. ground arith;
  reverses = λ u v. ground arith;
  has_degree = λ v h. h;
  has_list = λ v h. h;
}
note_deps-Adds name (d ∷ ds) t =
    let t' = note_dep name t d in
    let ih = note_deps-Adds name ds t' in
    record {
      degrees = λ v. ground (arith, ih.degrees v, degree-update name v t.in_degree);
      dependents =
          λ u v. ground (arith, ih.dependents u v, neighbours-update d name u v t.dependents);
      reverses =
          λ u v. ground (arith, ih.reverses u v, neighbours-update d name u v t.reverse_deps);
      has_degree = λ v h. ih.has_degree v (has-update name v 0 (λ n. suc n) t.in_degree h);
      has_list = λ v h. ih.has_list v (has-update d v [] (λ l. l ++ name ∷ []) t.dependents h);
    }

-- What the passes over all services add.
record Holds (services : Map ServiceDef) (t t' : Tables) : Type 0 where
  degrees : (v : Text) → degree t'.in_degree v ≡ degree t.in_degree v + total services v
  dependents :
      (u v : Text)
      → count v (neighbours t'.dependents u)
        ≡ count v (neighbours t.dependents u) + needs services v u
  reverses :
      (u v : Text)
      → count v (neighbours t'.reverse_deps u)
        ≡ count v (neighbours t.reverse_deps u) + needs services v u
  has_degree : (v : Text) → is_some (get v t.in_degree) ≡ true → is_some (get v t'.in_degree) ≡ true
  has_list : (v : Text) → is_some (get v t.dependents) ≡ true → is_some (get v t'.dependents) ≡ true

note_services-Holds :
    (services : Map ServiceDef) (t : Tables) → Holds services t (foldl note_service t services)
unfolding note_service needs total
note_services-Holds [] t = record {
  degrees = λ v. ground arith;
  dependents = λ u v. ground arith;
  reverses = λ u v. ground arith;
  has_degree = λ v h. h;
  has_list = λ v h. h;
}
note_services-Holds ((name, svc) ∷ services) t =
    let now = note_deps-Adds name svc.depends_on t in
    let ih = note_services-Holds services (note_service t (name, svc)) in
    record {
      degrees = λ v. ground (arith, ih.degrees v, now.degrees v);
      dependents = λ u v. ground (arith, ih.dependents u v, now.dependents u v);
      reverses = λ u v. ground (arith, ih.reverses u v, now.reverses u v);
      has_degree = λ v h. ih.has_degree v (now.has_degree v h);
      has_list = λ v h. ih.has_list v (now.has_list v h);
    }

degree-each : (names : List Text) (v : Text) → degree (each 0 names) v ≡ 0
unfolding each get
degree-each [] v = refl
degree-each (n ∷ names) v = ground (arith, degree-each names v)

neighbours-each : (names : List Text) (u v : Text) → count v (neighbours (each [] names) u) ≡ 0
unfolding each get count
neighbours-each [] u v = refl
neighbours-each (n ∷ names) u v = ground (arith, neighbours-each names u v)

has-each :
    {V : Type 0} (d : V) (names : List Text) (v : Text)
    → 0 < count v names
    → is_some (get v (each d names)) ≡ true
unfolding each get count
has-each d [] v h = absurd (omega arith)
has-each d (n ∷ names) v h = ground (arith, has-each d names v)

-- The tables that the waves start from.
pub record IsFilled (services : Map ServiceDef) (t : Tables) : Type 0 where
  pub degrees : (v : Text) → degree t.in_degree v ≡ total services v
  pub dependents : (u v : Text) → count v (neighbours t.dependents u) ≡ needs services v u
  pub reverses : (u v : Text) → count v (neighbours t.reverse_deps u) ≡ needs services v u
  pub has_degree : (v : Text) → 0 < count v (keys services) → is_some (get v t.in_degree) ≡ true
  pub has_list : (v : Text) → 0 < count v (keys services) → is_some (get v t.dependents) ≡ true

pub tables-IsFilled : (services : Map ServiceDef) → IsFilled services (tables services)
unfolding tables
tables-IsFilled services =
    let names = keys services in
    let start : Tables = record {
      in_degree = each 0 names;
      dependents = each [] names;
      reverse_deps = each [] names;
    } in
    let h = note_services-Holds services start in
    record {
      degrees = λ v. omega (arith, h.degrees v, degree-each names v);
      dependents = λ u v. omega (arith, h.dependents u v, neighbours-each names u v);
      reverses = λ u v. omega (arith, h.reverses u v, neighbours-each names u v);
      has_degree = λ v d. h.has_degree v (has-each 0 names v d);
      has_list = λ v d. h.has_list v (has-each [] names v d);
    }

-- Only declared services have dependencies.
pub total-undeclared :
    (services : Map ServiceDef) (v : Text) → count v (keys services) ≡ 0 → total services v ≡ 0
unfolding total count
total-undeclared [] v h = refl
total-undeclared ((k, svc) ∷ services) v h = ground (arith, total-undeclared services v)

pub needs-undeclared :
    (services : Map ServiceDef) (v u : Text) → count v (keys services) ≡ 0 → needs services v u ≡ 0
unfolding needs count
needs-undeclared [] v u h = refl
needs-undeclared ((k, svc) ∷ services) v u h = ground (arith, needs-undeclared services v u)

-- The table `deps` lists what each service needs.
pub neighbours-depends :
    (services : Map ServiceDef) (v u : Text)
    → UniqueKeys services
    → count u (neighbours (depends services) v) ≡ needs services v u
unfolding depends needs get count
neighbours-depends [] v u unique = refl
neighbours-depends ((k, svc) ∷ services) v u unique = ground (
  arith,
  neighbours-depends services v u (λ j. ground (arith, unique j)),
  needs-undeclared services v u,
  unique v,
)
