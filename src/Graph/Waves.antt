-- ===== src/Graph/Waves.antt =====
-- The invariant of the outer loop of `from_config`, and what its waves hold when it ends.
use mathlib.Core.List.{append_assoc, append-nil}
use dev.Prelude.{
  Text, ℕ, zero, suc, ◌+◌, ◌≤◌, ◌<◌, ◌≡◌, refl, some, List, [], ◌∷◌, ◌++◌, true, arith,
  Option-cases, inl, inr,
}
use dev.Prelude.Counts.{length, length-append, count, count-append, length-le_of_counts}
use dev.Error.{ok}
use dev.Map.{Map, get, keys, is_some}
use dev.Map.Laws.{UniqueKeys}
use dev.Config.{ServiceDef}
use dev.Graph.{neighbours, index, expand_wave, run_waves, flatten}
use dev.Graph.Edges.{needs, total, degree, needs-undeclared}
use dev.Graph.Sums.{met, Distinct, met-le-total, met_full}
use dev.Graph.Release.{Released, release-Released}

met-append :
    (services : Map ServiceDef) (p : List Text) (u v : Text)
    → met services (p ++ u ∷ []) v ≡ met services p v + needs services v u
unfolding met
met-append services [] u v = omega arith
met-append services (x ∷ p) u v = omega (arith, met-append services p u v)

-- Each service of a wave needs only services of the waves before it.
abbrev pub WavesOrdered : Map ServiceDef → List Text → List (List Text) → Type 0
WavesOrdered services seen [] = Unit
WavesOrdered services seen (w ∷ ws) =
    ((v d : Text) → 0 < count v w → 0 < needs services v d → 0 < count d seen)
    × WavesOrdered services (seen ++ w) ws

-- With `placed` expanded, `pending` queued, and `m` the counters.
pub record Inv (services : Map ServiceDef) (placed : List Text) (m : Map ℕ) (pending : List Text)
    : Type 0 where
  pub degrees : (v : Text) → degree m v + met services placed v ≡ total services v
  pub free :
      (v : Text) → degree m v ≡ 0 → count v placed + count v pending ≡ count v (keys services)
  pub busy : (v : Text) → 0 < degree m v → count v placed + count v pending ≡ 0
  pub has : (v : Text) → 0 < count v (keys services) → is_some (get v m) ≡ true

module _ (services : Map ServiceDef) (unique : UniqueKeys services) (dependents : Map (List Text))
    (lists : (u v : Text) → count v (neighbours dependents u) ≡ needs services v u)
    (has_list : (v : Text) → 0 < count v (keys services) → is_some (get v dependents) ≡ true) where
  -- A name is placed or queued at most once, and only if it is declared.
  pub Inv-bound :
      {placed : List Text} {m : Map ℕ} {pending : List Text} (v : Text)
      → Inv services placed m pending
      → count v placed + count v pending ≤ count v (keys services)
  Inv-bound {placed} {m} {pending} v i = ground (arith, i.free v, i.busy v)

  pub Inv-Distinct :
      {placed : List Text} {m : Map ℕ} {pending : List Text}
      → Inv services placed m pending
      → Distinct placed
  Inv-Distinct i v = omega (arith, Inv-bound v i, unique v)

  -- What the queue holds has no unmet dependency left.
  Inv-queued :
      {placed : List Text} {m : Map ℕ} {pending : List Text} (v d : Text)
      → Inv services placed m pending
      → 0 < count v pending
      → 0 < needs services v d
      → 0 < count d placed
  Inv-queued {placed} {m} v d i q n =
      let zero_degree : degree m v ≡ 0 = ground (arith, i.busy v) in
      met_full placed (Inv-Distinct i) services v d (omega (arith, i.degrees v)) n

  record Expanded (placed : List Text) (m : Map ℕ) (wave next : List Text) : Type 0 where
    table : Map ℕ
    queue : List Text
    runs : expand_wave dependents wave m next ≡ ok (table, queue)
    inv : Inv services (placed ++ wave) table queue

  -- One node: its dependents lose one counter each, and it moves to `placed`.
  record Stepped (placed : List Text) (m : Map ℕ) (u : Text) (wave next : List Text) : Type 0 where
    freed : List Text
    listed : get u dependents ≡ some freed
    after : Released freed m next
    inv : Inv services (placed ++ u ∷ []) after.table (wave ++ after.freed)

  -- The entries of `dependents[u]` have counters to lose.
  needs-le-degree :
      (placed : List Text) (m : Map ℕ) (u : Text) (rest : List Text) (v : Text)
      → Inv services placed m (u ∷ rest)
      → needs services v u ≤ degree m v
  unfolding count
  needs-le-degree placed m u rest v i =
      let one : Distinct (placed ++ u ∷ []) =
        λ x. ground (arith, count-append x placed (u ∷ []), Inv-bound x i, unique x) in
      omega (
        arith,
        i.degrees v,
        met-append services placed u v,
        met-le-total (placed ++ u ∷ []) one services v,
      )

  after_release :
      (placed : List Text) (m : Map ℕ) (u : Text) (wave next freed : List Text)
      → ((v : Text) → count v freed ≡ needs services v u)
      → Inv services placed m (u ∷ (wave ++ next))
      → (r : Released freed m next) → Inv services (placed ++ u ∷ []) r.table (wave ++ r.freed)
  unfolding count
  after_release placed m u wave next freed needed i r = record {
    degrees =
        λ v. omega (arith, i.degrees v, met-append services placed u v, r.counted v, needed v);
    free = λ v z. ground (
      arith,
      i.free v,
      i.busy v,
      r.counted v,
      r.free v z,
      r.absent v,
      count-append v placed (u ∷ []),
      count-append v wave next,
      count-append v wave r.freed,
      needed v,
      needs-undeclared services v u,
      unique v,
    );
    busy = λ v b. ground (
      arith,
      i.busy v,
      r.counted v,
      r.busy v b,
      count-append v placed (u ∷ []),
      count-append v wave next,
      count-append v wave r.freed,
    );
    has = λ v d. r.has v (i.has v d);
  }

  step-Inv :
      (placed : List Text) (m : Map ℕ) (u : Text) (wave next : List Text)
      → Inv services placed m (u ∷ (wave ++ next))
      → Stepped placed m u wave next
  unfolding count
  step-Inv placed m u wave next i =
      let declared : 0 < count u (keys services) = ground (arith, Inv-bound u i) in
      elim (Option-cases (get u dependents)) [
        | inl e ↦ absurd (ground (arith, has_list u declared))
        | inr (freed, e) ↦
            let needed : (v : Text) → count v freed ≡ needs services v u =
              λ v. ground (arith, lists u v) in
            let r =
              release-Released freed m next
                (λ v. omega (arith, needed v, needs-le-degree placed m u (wave ++ next) v i)) in
            record {
              freed = freed;
              listed = e;
              after = r;
              inv = after_release placed m u wave next freed needed i r;
            }
      ]

  expand-Inv :
      (placed : List Text) (m : Map ℕ) (wave next : List Text)
      → Inv services placed m (wave ++ next)
      → Expanded placed m wave next
  unfolding expand_wave
  expand-Inv placed m [] next i = record {
    table = m;
    queue = next;
    runs = refl;
    inv = rw append-nil i;
  }
  expand-Inv placed m (u ∷ wave) next i =
      let s = step-Inv placed m u wave next i in
      let r = expand-Inv (placed ++ u ∷ []) s.after.table wave s.after.freed s.inv in
      record {
        table = r.table;
        queue = r.queue;
        runs = simp (s.listed, s.after.runs, r.runs, index);
        inv = rw append_assoc at r.inv;
      }

  -- The waves that the loop returns, from a state of it.
  pub record Ran (placed : List Text) (m : Map ℕ) (queue : List Text) (fuel : ℕ) : Type 0 where
    pub waves : List (List Text)
    pub runs : run_waves fuel dependents m queue ≡ ok waves
    pub table : Map ℕ
    pub inv : Inv services (placed ++ flatten waves) table []
    pub ordered : WavesOrdered services placed waves

  pub run-Inv :
      (fuel : ℕ) (placed : List Text) (m : Map ℕ) (queue : List Text)
      → length (keys services) ≤ fuel + length placed
      → Inv services placed m queue
      → Ran placed m queue fuel
  unfolding run_waves flatten
  run-Inv fuel placed m [] n i = record {
    waves = [];
    runs = refl;
    table = m;
    inv = rw append-nil i;
    ordered = tt;
  }
  run-Inv zero placed m (u ∷ queue) n i = absurd (
      omega (
        arith,
        length-append placed (u ∷ queue),
        length-le_of_counts (placed ++ u ∷ queue) (keys services)
            (λ v. omega (arith, Inv-bound v i, count-append v placed (u ∷ queue))),
      ))
  run-Inv (suc fuel) placed m (u ∷ queue) n i =
      let wave = u ∷ queue in
      let s = expand-Inv placed m wave [] (rw append-nil i) in
      let r =
        run-Inv fuel (placed ++ wave) s.table s.queue (omega (arith, length-append placed wave))
          s.inv in
      record {
        waves = wave ∷ r.waves;
        runs = simp (s.runs, r.runs);
        table = r.table;
        inv = rw append_assoc at r.inv;
        ordered = (λ v d q x. Inv-queued v d i q x, r.ordered);
      }
