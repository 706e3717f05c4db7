-- ===== src/Graph/Sums.antt =====
-- How many of a service's dependencies lie in a list of distinct names.
use dev.Prelude.{Text, same, ℕ, ◌+◌, ◌≤◌, ◌<◌, ◌≡◌, refl, List, [], ◌∷◌, ite, arith}
use dev.Prelude.Counts.{length, count}
use dev.Map.{Map}
use dev.Config.{ServiceDef}
use dev.Graph.Edges.{needs, total}

-- How many entries of `l` lie in `p`.
hits : List Text → List Text → ℕ
unfolding count
hits [] l = 0
hits (u ∷ p) l = count u l + hits p l

-- How many dependencies of `v` lie in `p`.
unfoldable pub met : Map ServiceDef → List Text → Text → ℕ
unfolding needs
met services [] v = 0
met services (u ∷ p) v = needs services v u + met services p v

abbrev pub Distinct : List Text → Type 0
Distinct p = (x : Text) → count x p ≤ 1

hits-nil : (p : List Text) → hits p [] ≡ 0
unfolding hits
hits-nil [] = refl
hits-nil (u ∷ p) = omega (arith, hits-nil p)

hits-cons : (p : List Text) (y : Text) (l : List Text) → hits p (y ∷ l) ≡ hits p l + count y p
unfolding hits
hits-cons [] y l = omega arith
hits-cons (u ∷ p) y l = ground (arith, hits-cons p y l)

module _ (p : List Text) where
  hits-le : Distinct p → (l : List Text) → hits p l ≤ length l
  hits-le one [] = omega (arith, hits-nil p)
  hits-le one (y ∷ l) = omega (arith, hits-cons p y l, one y, hits-le one l)

  hits_full :
      Distinct p → (l : List Text) (d : Text) → hits p l ≡ length l → 0 < count d l → 0 < count d p
  unfolding count
  hits_full one [] d h m = absurd (omega arith)
  hits_full one (y ∷ l) d h m =
      ground (arith, hits-cons p y l, one y, hits-le one l, hits_full one l d)

  le-hits : (l : List Text) → ((d : Text) → 0 < count d l → 0 < count d p) → length l ≤ hits p l
  unfolding count
  le-hits [] h = omega arith
  le-hits (y ∷ l) h = ground (arith, hits-cons p y l, h y, le-hits l (λ d m. h d (ground arith)))

met-cons :
    (k v : Text) (svc : ServiceDef) (services : Map ServiceDef) (p : List Text)
    → met ((k, svc) ∷ services) p v
      ≡ ite (same k v) (hits p svc.depends_on + met services p v) (met services p v)
unfolding met hits
met-cons k v svc services [] = ground arith
met-cons k v svc services (u ∷ p) = ground (arith, met-cons k v svc services p)

met-nil : (p : List Text) (v : Text) → met [] p v ≡ 0
unfolding met
met-nil [] v = refl
met-nil (u ∷ p) v = omega (arith, met-nil p v)

module _ (p : List Text) where
  -- No more dependencies are met than there are.
  pub met-le-total :
      Distinct p → (services : Map ServiceDef) (v : Text) → met services p v ≤ total services v
  unfolding total
  met-le-total one [] v = omega (arith, met-nil p v)
  met-le-total one ((k, svc) ∷ services) v = ground (
    arith,
    met-cons k v svc services p,
    hits-le p one svc.depends_on,
    met-le-total one services v,
  )

  -- If as many are met as there are, each is.
  pub met_full :
      Distinct p
      → (services : Map ServiceDef) (v d : Text) → met services p v ≡ total services v
      → 0 < needs services v d
      → 0 < count d p
  unfolding total needs
  met_full one [] v d h m = absurd (omega arith)
  met_full one ((k, svc) ∷ services) v d h m = ground (
    arith,
    met-cons k v svc services p,
    hits-le p one svc.depends_on,
    met-le-total one services v,
    hits_full p one svc.depends_on d,
    met_full one services v d,
  )

  -- If each is met, as many are met as there are.
  pub total-le-met :
      (services : Map ServiceDef) (v : Text)
      → ((d : Text) → 0 < needs services v d → 0 < count d p)
      → total services v ≤ met services p v
  unfolding total needs
  total-le-met [] v h = omega arith
  total-le-met ((k, svc) ∷ services) v h = elim (same k v) [
    | yes e ↦ ground (
      arith,
      met-cons k v svc services p,
      le-hits p svc.depends_on (λ d m. ground (arith, h d)),
      total-le-met services v (λ d m. ground (arith, h d)),
    )
    | no n ↦
        ground
          (arith, met-cons k v svc services p, total-le-met services v (λ d m. ground (arith, h d)))
  ]
