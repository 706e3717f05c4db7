-- ===== src/Map/Laws.antt =====
-- What a lookup finds after each write, and what a write does to the keys.
use mathlib.Core.Option
use dev.Prelude.{Text, same, Option, none, some, [], ◌∷◌, ite, ◌≡◌, refl, arith, ◌≤◌, ◌<◌}
use dev.Prelude.Counts.{count}
use dev.Map.{Map, keys, or_else, get, insert, or_insert, update, modify, extend, fill, map_values}

module _ {ℓ} {V : Type ℓ} where
  pub or_else-none : (a : Option V) → or_else a none ≡ a
  or_else-none none = refl
  or_else-none (some v) = refl

  pub or_else_assoc : (a b c : Option V) → or_else a (or_else b c) ≡ or_else (or_else a b) c
  or_else_assoc none b c = refl
  or_else_assoc (some v) b c = refl

  pub get-insert :
      (k j : Text) (v : V) (m : Map V) → get j (insert k v m) ≡ ite (same k j) (some v) (get j m)
  unfolding get insert
  get-insert k j v [] = refl
  get-insert k j v ((i, w) ∷ m) = ground (arith, get-insert k j v m)

  pub get-or_insert :
      (k j : Text) (v : V) (m : Map V)
      → get j (or_insert k v m) ≡ ite (same k j) (or_else (get k m) (some v)) (get j m)
  unfolding get or_insert
  get-or_insert k j v [] = ground arith
  get-or_insert k j v ((i, w) ∷ m) = ground (arith, get-or_insert k j v m)

  pub get-update :
      (k j : Text) (d : V) (f : V → V) (m : Map V)
      → get j (update k d f m) ≡ ite (same k j) (some (f (Option.get_or (get k m) d))) (get j m)
  unfolding get update
  get-update k j d f [] = ground arith
  get-update k j d f ((i, w) ∷ m) = ground (arith, get-update k j d f m)

  pub get-modify :
      (k j : Text) (f : V → V) (m : Map V)
      → get j (modify k f m) ≡ ite (same k j) (Option.map f (get k m)) (get j m)
  unfolding get modify
  get-modify k j f [] = ground arith
  get-modify k j f ((i, w) ∷ m) = ground (arith, get-modify k j f m)

  -- Defaults lose against what is there.
  pub get-fill :
      (j : Text) (m under : Map V) → get j (fill m under) ≡ or_else (get j m) (get j under)
  unfolding get fill
  get-fill j m [] = ground arith
  get-fill j m ((k, v) ∷ under) =
      ground (arith, get-fill j (or_insert k v m) under, get-or_insert k j v m)

  pub get-eq-none_of_count : (k : Text) (m : Map V) → count k (keys m) ≡ 0 → get k m ≡ none
  unfolding get count
  get-eq-none_of_count k [] h = refl
  get-eq-none_of_count k ((j, v) ∷ m) h = ground (arith, get-eq-none_of_count k m)

  pub get-eq-some_of_count :
      (k : Text) (m : Map V) → 0 < count k (keys m) → (v : V) × (get k m ≡ some v)
  unfolding get count
  get-eq-some_of_count k [] h = absurd (omega arith)
  get-eq-some_of_count k ((j, v) ∷ m) h = elim (same j k) [
    | yes p ↦ (v, ground arith)
    | no p ↦ let (w, e) = get-eq-some_of_count k m (ground arith) in (w, ground arith)
  ]

  -- No key stands twice: what `IndexMap` and `HashMap` promise of themselves.
  abbrev pub UniqueKeys : Map V → Type 0
  UniqueKeys m = (k : Text) → count k (keys m) ≤ 1

  -- Overrides win over what is there.
  pub get-extend :
      (j : Text) (m over : Map V)
      → UniqueKeys over
      → get j (extend m over) ≡ or_else (get j over) (get j m)
  unfolding get extend count
  get-extend j m [] u = refl
  get-extend j m ((k, v) ∷ over) u = ground (
    arith,
    get-extend j (insert k v m) over (λ i. ground (arith, u i)),
    get-insert k j v m,
    u k,
    get-eq-none_of_count k over,
  )

  pub keys-modify : (k : Text) (f : V → V) (m : Map V) → keys (modify k f m) ≡ keys m
  unfolding modify
  keys-modify k f [] = refl
  keys-modify k f ((j, v) ∷ m) = ground (arith, keys-modify k f m)

pub get-map_values {ℓ κ} :
    {V : Type ℓ} {W : Type κ} (f : V → W) (k : Text) (m : Map V)
    → get k (map_values f m) ≡ Option.map f (get k m)
unfolding get map_values
get-map_values f k [] = ground arith
get-map_values f k ((j, v) ∷ m) = ground (arith, get-map_values f k m)

pub keys-map_values {ℓ κ} :
    {V : Type ℓ} {W : Type κ} (f : V → W) (m : Map V) → keys (map_values f m) ≡ keys m
unfolding map_values
keys-map_values f [] = refl
keys-map_values f ((j, v) ∷ m) = ground (arith, keys-map_values f m)
