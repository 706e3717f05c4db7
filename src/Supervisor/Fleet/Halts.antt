-- ===== src/Supervisor/Fleet/Halts.antt =====
-- `stop_all` and `stop_named`: what they leave of each handle.
use mathlib.Core.Option
use mathlib.Core.List.{reverse, append_assoc}
use mathlib.Core.List
use dev.Prelude.{
  Text, Option, none, some, List, [], ◌∷◌, ◌++◌, ◌≡◌, ◌∙◌, ap, sym, refl, arith, ◌||◌,
  if◌then◌else◌, true,
}
use dev.Prelude.Counts.{contains, contains-append, contains-count}
use dev.Error.{ok}
use dev.Map.{Map, keys, get, modify}
use dev.Map.Laws.{UniqueKeys, get-modify}
use dev.Config.{ServiceDef}
use dev.State.{stopped}
use dev.Graph.{DependencyGraph, from_config, flatten}
use dev.Graph.Correct.{IsSorted, from_config-IsSorted}
use dev.Supervisor.{Supervisor, ServiceHandle, Os, Effect, dummy}
use dev.Supervisor.Keeps.{held}
use dev.Supervisor.Stop.{halt}
use dev.Supervisor.Stop.Laws.{stop_service-held}
use dev.Supervisor.Fleet.Names.{IsRunningNames, running_names-IsRunningNames}
use dev.Supervisor.Fleet.{stop_task, stop_wave, stop_waves, running_names, stop_all}

-- `halt` at each of the names.
unfoldable halt_all : List Text → Map ServiceHandle → Map ServiceHandle
halt_all [] handles = handles
halt_all (n ∷ names) handles = halt_all names (modify n halt handles)

get-halt_all :
    (names : List Text) (j : Text) (handles : Map ServiceHandle)
    → get j (halt_all names handles)
      ≡ (if contains names j then Option.map halt (get j handles) else get j handles)
unfolding halt_all contains
get-halt_all [] j handles = refl
get-halt_all (n ∷ names) j handles = ground (
  arith,
  get-halt_all names j (modify n halt handles),
  get-modify n j halt handles,
  halt-twice (get j handles),
)
  where
    halt-twice :
        (o : Option ServiceHandle) → Option.map halt (Option.map halt o) ≡ Option.map halt o
    halt-twice none = refl
    halt-twice (some h) = refl

halt_all-append :
    (a b : List Text) (handles : Map ServiceHandle)
    → halt_all (a ++ b) handles ≡ halt_all b (halt_all a handles)
unfolding halt_all
halt_all-append [] b handles = refl
halt_all-append (n ∷ a) b handles = halt_all-append a b (modify n halt handles)

-- A step that halts the names and changes nothing else that is held.
abbrev Halted : List Text → Supervisor → Supervisor → Type 0
Halted names w w' = held w' ≡ record (held w) { handles = halt_all names w.handles }

Halted-trans :
    (a b : List Text) (u v w : Supervisor) → Halted a u v → Halted b v w → Halted (a ++ b) u w
Halted-trans a b u v w h k =
    k
    ∙ ap (λ (x : Supervisor). record x { handles = halt_all b x.handles }) h
    ∙ ap (λ m. record (held u) { handles = m }) (sym (halt_all-append a b u.handles))

module _ (os : Os) (spares : (trace : List Effect) → os.spare trace ≡ true) where
  stop_task-Halted : (n : Text) (w : Supervisor) → Halted (n ∷ []) w (stop_task os n w).1
  unfolding halt_all
  stop_task-Halted n w = stop_service-held os spares n w

  stop_wave-Halted :
      (names : List Text) (w : Supervisor)
      → ((stop_wave os names w).0 ≡ ok tt) × Halted names w (stop_wave os names w).1
  unfolding stop_wave
  stop_wave-Halted [] w = (refl, unfold halt_all in refl)
  stop_wave-Halted (n ∷ names) w =
      let v = (stop_task os n w).1 in
      let (e, h) = stop_wave-Halted names v in
      (e, Halted-trans (n ∷ []) names w v (stop_wave os names v).1 (stop_task-Halted n w) h)

  stop_waves-Halted :
      (waves : List (List Text)) (w : Supervisor)
      → ((stop_waves os waves w).0 ≡ ok tt) × Halted (flatten waves) w (stop_waves os waves w).1
  unfolding stop_waves flatten
  stop_waves-Halted [] w = (refl, unfold halt_all in refl)
  stop_waves-Halted (wave ∷ waves) w =
      let v = (stop_wave os wave w).1 in
      let (e, h) = stop_wave-Halted wave w in
      let (f, k) = stop_waves-Halted waves v in
      rw e (f, Halted-trans wave (flatten waves) w v (stop_waves os waves v).1 h k)

contains-flatten :
    (a b : List (List Text)) (j : Text)
    → contains (flatten (a ++ b)) j ≡ contains (flatten a) j || contains (flatten b) j
unfolding flatten contains
contains-flatten [] b j = refl
contains-flatten (w ∷ a) b j = ground (
  arith,
  contains-flatten a b j,
  contains-append w (flatten (a ++ b)) j,
  contains-append w (flatten a) j,
)

contains-one : (w : List Text) (j : Text) → contains (flatten (w ∷ [])) j ≡ contains w j
unfolding flatten contains
contains-one w j = ground (arith, contains-append w [] j)

contains-flatten_cons :
    (w : List Text) (ws : List (List Text)) (j : Text)
    → contains (flatten (w ∷ ws)) j ≡ contains w j || contains (flatten ws) j
unfolding flatten
contains-flatten_cons w ws j = contains-append w (flatten ws) j

contains-reverse :
    (waves : List (List Text)) (j : Text)
    → contains (flatten (reverse waves)) j ≡ contains (flatten waves) j
contains-reverse [] j = refl
contains-reverse (w ∷ waves) j = rw List.reverse-cons (
    ground (
      arith,
      contains-flatten (reverse waves) (w ∷ []) j,
      contains-one w j,
      contains-reverse waves j,
      contains-flatten_cons w waves j,
    ))

contains-order :
    (services : Map ServiceDef) (g : DependencyGraph)
    → IsSorted services g
    → (j : Text) → contains (flatten g.waves) j ≡ contains (keys services) j
contains-order services g sorted j =
    rw (← sorted.in_waves) (
      ground (arith, sorted.complete j, contains-count g.order j, contains-count (keys services) j))

-- `stop_all` on a configuration without a cycle, where a `true` can always be spawned in the place
-- of a child, returns the names of the handles that were not stopped; the process of every declared
-- service is taken out of its handle and its state is `Stopped`, and the handles of other names stay,
-- as does the configuration.
pub stop_all-Halted :
    (os : Os) (w : Supervisor) (g : DependencyGraph)
    → ((trace : List Effect) → os.spare trace ≡ true)
    → UniqueKeys w.config.service
    → from_config w.config ≡ ok g
    → (l : List Text) × IsRunningNames w.handles l
      × ((stop_all os w).0 ≡ ok l)
      × ((stop_all os w).1.config ≡ w.config)
      × ((j : Text)
          → get j (stop_all os w).1.handles ≡ (
              if contains (keys w.config.service) j
              then Option.map
                  (λ (h : ServiceHandle). record h { child = dummy; state = stopped })
                  (get j w.handles)
              else get j w.handles))
unfolding stop_all
stop_all-Halted os w g spares unique e =
    let (f, h) = stop_waves-Halted os spares (reverse g.waves) w in
    let sorted = from_config-IsSorted w.config g unique e in
    rw (e, f)
      (
        running_names w.handles,
        running_names-IsRunningNames w.handles,
        refl,
        ap (λ (x : Supervisor). x.config) h,
        λ j.
            ap (λ (x : Supervisor). get j x.handles) h
            ∙ get-halt_all (flatten (reverse g.waves)) j w.handles
            ∙ ap (λ b. if b then Option.map halt (get j w.handles) else get j w.handles)
                (contains-reverse g.waves j ∙ contains-order w.config.service g sorted j),
      )
