-- ===== src/Supervisor/Fleet/Names.antt =====
-- What `stop_all` returns: the names of the handles that are not stopped.
use dev.Prelude.{Text, List, [], ◌∷◌, ◌≡◌, ◌≢◌, ◌⊎◌, inl, inr, refl, true, false, arith}
use dev.Map.{Map}
use dev.State.{ServiceState, pending, starting, stopped, running, unhealthy, failed}
use dev.Supervisor.{ServiceHandle}
use dev.Supervisor.Fleet.{is_stopped, running_names}

-- The names of the handles that are not `Stopped`, in their order
pub data IsRunningNames : Map ServiceHandle → List Text → Type 0 where
  no_handles : IsRunningNames [] []
  passed_over :
      {n : Text} {h : ServiceHandle} {handles : Map ServiceHandle} {l : List Text}
      → h.state ≡ stopped
      → IsRunningNames handles l
      → IsRunningNames ((n, h) ∷ handles) l
  listed :
      {n : Text} {h : ServiceHandle} {handles : Map ServiceHandle} {l : List Text}
      → h.state ≢ stopped
      → IsRunningNames handles l
      → IsRunningNames ((n, h) ∷ handles) (n ∷ l)

is_stopped-cases :
    (s : ServiceState)
    → ((is_stopped s ≡ true) × (s ≡ stopped)) ⊎ ((is_stopped s ≡ false) × (s ≢ stopped))
is_stopped-cases stopped = inl (refl, refl)
is_stopped-cases pending = inr (refl, λ e. ground (arith, e))
is_stopped-cases starting = inr (refl, λ e. ground (arith, e))
is_stopped-cases (running pid since) = inr (refl, λ e. ground (arith, e))
is_stopped-cases (unhealthy pid failures) = inr (refl, λ e. ground (arith, e))
is_stopped-cases (failed code) = inr (refl, λ e. ground (arith, e))

pub running_names-IsRunningNames :
    (handles : Map ServiceHandle) → IsRunningNames handles (running_names handles)
unfolding running_names
running_names-IsRunningNames [] = no_handles
running_names-IsRunningNames ((n, h) ∷ handles) = elim (is_stopped-cases h.state) [
  | inl (e, f) ↦ rw e (passed_over f (running_names-IsRunningNames handles))
  | inr (e, f) ↦ rw e (listed f (running_names-IsRunningNames handles))
]
