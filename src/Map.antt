-- ===== src/Map.antt =====
-- `HashMap<String, V>` and `IndexMap<String, V>` as association lists in the order of insertion.
-- A write to a key that is there keeps its place, as `IndexMap` does; the iteration order of a
-- `HashMap` is not specified, and no theorem depends on it.
pub mod Laws
use mathlib.Core.Option
use dev.Prelude.{
  Text, same, Option, none, some, List, [], ◌∷◌, map, foldl, Bool, true, false, ite, ℕ,
}

abbrev pub Map {ℓ} : Type ℓ → Type ℓ
Map V = List (Text × V)

module _ {ℓ} {V : Type ℓ} where
  abbrev pub keys : Map V → List Text
  keys = map (λ e. e.0)

  abbrev pub or_else : Option V → Option V → Option V
  or_else none o = o
  or_else (some v) o = some v

  abbrev pub is_some : Option V → Bool
  is_some none = false
  is_some (some v) = true

  -- `m.get(k)`
  unfoldable pub get : Text → Map V → Option V
  get k [] = none
  get k ((j, v) ∷ m) = ite (same j k) (some v) (get k m)

  -- `m.contains_key(k)`
  unfoldable pub contains_key : Text → Map V → Bool
  unfolding get
  contains_key k m = is_some (get k m)

  -- `m.insert(k, v)`
  unfoldable pub insert : Text → V → Map V → Map V
  insert k v [] = (k, v) ∷ []
  insert k v ((j, w) ∷ m) = ite (same j k) ((j, v) ∷ m) ((j, w) ∷ insert k v m)

  -- `m.entry(k).or_insert(v)`
  unfoldable pub or_insert : Text → V → Map V → Map V
  or_insert k v [] = (k, v) ∷ []
  or_insert k v ((j, w) ∷ m) = ite (same j k) ((j, w) ∷ m) ((j, w) ∷ or_insert k v m)

  -- `*m.entry(k).or_insert(d) = f(..)`: a missing key starts at `d`
  unfoldable pub update : Text → V → (V → V) → Map V → Map V
  update k d f [] = (k, f d) ∷ []
  update k d f ((j, w) ∷ m) = ite (same j k) ((j, f w) ∷ m) ((j, w) ∷ update k d f m)

  -- `if let Some(v) = m.get_mut(k) { *v = f(*v) }`: a missing key changes nothing
  unfoldable pub modify : Text → (V → V) → Map V → Map V
  modify k f [] = []
  modify k f ((j, w) ∷ m) = ite (same j k) ((j, f w) ∷ m) ((j, w) ∷ modify k f m)

  -- `for (k, v) in over { m.insert(k, v) }`
  unfoldable pub extend : Map V → Map V → Map V
  unfolding insert
  extend m [] = m
  extend m ((k, v) ∷ over) = extend (insert k v m) over

  -- `for (k, v) in under { m.entry(k).or_insert(v) }`
  unfoldable pub fill : Map V → Map V → Map V
  unfolding or_insert
  fill m [] = m
  fill m ((k, v) ∷ under) = fill (or_insert k v m) under

-- `for v in m.values_mut() { *v = f(v) }`
unfoldable pub map_values {ℓ κ} : {V : Type ℓ} {W : Type κ} → (V → W) → Map V → Map W
map_values f [] = []
map_values f ((k, v) ∷ m) = (k, f v) ∷ map_values f m
