-- ===== src/Graph/Worklist.antt =====
-- The worklists of `transitive_start_order` and `transitive_dependents_stop_order`: they end, and
-- the set that they build is what can be reached from the names asked for.
use dev.Prelude.{
  Text, ℕ, zero, suc, ◌+◌, ◌≤◌, ◌<◌, ◌≡◌, inl, inr, refl, some, List, [], ◌∷◌, foldl, true, false,
  not, ◌&&◌, ◌||◌, arith, if◌then◌else◌, Bool-cases,
}
use dev.Prelude.Counts.{length, length-append, count, contains, contains-count, contains-append}
use dev.Map.{Map, get}
use dev.Graph.{neighbours, Closure, need, close, edge_names, transitive_closure}

-- What can be reached from `names` along `edge`.
pub data Reaches (edge : Text → Text → ℕ) (names : List Text) : Text → Type 0 where
  asked : {v : Text} → 0 < count v names → Reaches edge names v
  along : {u v : Text} → Reaches edge names u → 0 < edge u v → Reaches edge names v

-- How many entries of `l` are not in `seen`.
unseen : List Text → List Text → ℕ
unseen seen [] = 0
unseen seen (x ∷ l) = if contains seen x then unseen seen l else suc (unseen seen l)

unseen-le : (seen l : List Text) → unseen seen l ≤ length l
unfolding unseen
unseen-le seen [] = omega arith
unseen-le seen (x ∷ l) = ground (arith, unseen-le seen l)

unseen-cons-le : (d : Text) (seen l : List Text) → unseen (d ∷ seen) l ≤ unseen seen l
unfolding unseen contains
unseen-cons-le d seen [] = omega arith
unseen-cons-le d seen (x ∷ l) = ground (arith, unseen-cons-le d seen l)

unseen-cons-lt :
    (d : Text) (seen l : List Text)
    → contains seen d ≡ false
    → contains l d ≡ true
    → unseen (d ∷ seen) l < unseen seen l
unfolding unseen contains
unseen-cons-lt d seen [] h m = cc
unseen-cons-lt d seen (x ∷ l) h m = ground (arith, unseen-cons-le d seen l, unseen-cons-lt d seen l)

-- The loop over the neighbours of one name.
record Visited (universe ds : List Text) (c c' : Closure) : Type 0 where
  members : (v : Text) → contains c'.needed v ≡ contains c.needed v || contains ds v
  queued :
      (v : Text)
      → contains c'.queue v ≡ contains c.queue v || (contains ds v && not (contains c.needed v))
  work : length c'.queue + unseen c'.needed universe ≤ length c.queue + unseen c.needed universe

visit :
    (universe ds : List Text) (c : Closure)
    → ((d : Text) → contains ds d ≡ true → contains universe d ≡ true)
    → Visited universe ds c (foldl need c ds)
unfolding need contains
visit universe [] c sub = record {
  members = λ v. ground arith;
  queued = λ v. ground arith;
  work = omega arith;
}
visit universe (d ∷ ds) c sub =
    let ih = visit universe ds (need c d) (λ x m. sub x (ground arith)) in
    record {
      members = λ v. ground (arith, ih.members v);
      queued = λ v. ground (arith, ih.queued v, contains-append c.queue (d ∷ []) v);
      work = ground (
        arith,
        ih.work,
        sub d,
        length-append c.queue (d ∷ []),
        unseen-cons-lt d c.needed universe,
      );
    }

neighbours-sub :
    (edges : Map (List Text)) (u d : Text)
    → contains (neighbours edges u) d ≡ true
    → contains (edge_names edges) d ≡ true
unfolding get contains
neighbours-sub [] u d h = cc
neighbours-sub ((k, l) ∷ edges) u d h =
    ground (arith, neighbours-sub edges u d, contains-append l (edge_names edges) d)

module _ (edges : Map (List Text)) (edge : Text → Text → ℕ) (names : List Text)
    (table : (u v : Text) → count v (neighbours edges u) ≡ edge u v) where
  record Inv (needed queue : List Text) : Type 0 where
    sound : (v : Text) → contains needed v ≡ true → Reaches edge names v
    starts : (v : Text) → contains names v ≡ true → contains needed v ≡ true
    known : (v : Text) → contains queue v ≡ true → contains needed v ≡ true
    closed :
        (u v : Text)
        → contains needed u ≡ true
        → contains queue u ≡ false
        → contains (neighbours edges u) v ≡ true
        → contains needed v ≡ true

  pub record Closed (l : List Text) : Type 0 where
    pub sound : (v : Text) → contains l v ≡ true → Reaches edge names v
    pub complete : (v : Text) → Reaches edge names v → contains l v ≡ true

  finished : (needed : List Text) → Inv needed [] → Closed needed
  unfolding contains
  finished needed i = record { sound = i.sound; complete = go }
    where
      go : (v : Text) → Reaches edge names v → contains needed v ≡ true
      go v (asked m) = i.starts v ((contains-count names v).1 m)
      go v (along {u} r e) =
          i.closed u v (go u r) refl ((contains-count (neighbours edges u) v).1 (rw table e))

  module _ (needed : List Text) (u : Text) (queue : List Text) (i : Inv needed (u ∷ queue)) where
    abbrev next : Closure
    next = foldl need (record { needed = needed; queue = queue }) (neighbours edges u)

    visited :
        Visited
          (edge_names edges)
          (neighbours edges u)
          (record { needed = needed; queue = queue })
          next
    visited = visit (edge_names edges) (neighbours edges u) _ (neighbours-sub edges u)

    next_sound : (v : Text) → contains next.needed v ≡ true → Reaches edge names v
    unfolding contains
    next_sound v h = elim (Bool-cases (contains needed v)) [
      | inl old ↦ i.sound v old
      | inr new ↦
          let listed : contains (neighbours edges u) v ≡ true = ground (arith, visited.members v) in
          along (i.sound u (i.known u (ground arith)))
            (rw (← table) ((contains-count (neighbours edges u) v).0 listed))
    ]

    next-Inv : Inv next.needed next.queue
    unfolding contains
    next-Inv = record {
      sound = next_sound;
      starts = λ v m. ground (arith, visited.members v, i.starts v);
      known = λ v q. ground (arith, visited.members v, visited.queued v, i.known v);
      closed = λ x v n q m.
          ground (
            arith,
            visited.members x,
            visited.members v,
            visited.queued x,
            i.closed x v,
            i.known x,
          );
    }

  close_returns :
      (fuel : ℕ) (needed queue : List Text)
      → length queue + unseen needed (edge_names edges) ≤ fuel
      → Inv needed queue
      → (l : List Text) × (close fuel edges needed queue ≡ some l) × Closed l
  unfolding close
  close_returns fuel needed [] n i = (needed, refl, finished needed i)
  close_returns zero needed (u ∷ queue) n i = absurd (omega arith)
  close_returns (suc fuel) needed (u ∷ queue) n i =
      let c = next needed u queue i in
      close_returns fuel c.needed c.queue (omega (arith, (visited needed u queue i).work))
        (next-Inv needed u queue i)

  start-Inv : Inv names names
  start-Inv = record {
    sound = λ v h. asked ((contains-count names v).0 h);
    starts = λ v h. h;
    known = λ v h. h;
    closed = λ u v n q m. absurd (ground arith);
  }

  -- The fuel suffices, and the set is what can be reached.
  pub transitive_closure_returns :
      (l : List Text) × (transitive_closure edges names ≡ some l) × Closed l
  unfolding transitive_closure
  transitive_closure_returns =
      close_returns (length names + length (edge_names edges)) names names
        (omega (arith, unseen-le names (edge_names edges))) start-Inv
