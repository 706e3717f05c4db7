-- ===== src/K8s/Runs.antt =====
-- What becomes of a command that must succeed: the run goes on, or ends with an error.
use dev.Prelude.{
  Text, txt, ℕ, List, [], ◌∷◌, ◌++◌, true, false, ◌≡◌, ◌⊎◌, inl, inr, refl, Bool-cases,
}
use dev.Error.{Result, ok, err, DevError, config}
use dev.Steps.{after}
use dev.K8s.{
  Command, Outcome, Exit, exited, not_spawned, not_written, not_waited, Shell, Cluster, execute,
}
use dev.K8s.Client.{
  K8sClient, exit_of, failed_with, apply_manifest, apply_command, apply_outcome, is_success,
  succeeded_or, wait_for_ready, wait_command,
}

-- The commands succeed one after the other, behind those that were run before.
unfoldable pub AllSucceed : Shell → List Command → List Command → Type 0
AllSucceed shell before [] = Unit
AllSucceed shell before (c ∷ cs) =
    (is_success (shell.outcome (before ++ c ∷ [])) ≡ true) × AllSucceed shell (before ++ c ∷ []) cs

abbrev pub ran : List Command → Cluster → Cluster
ran cs s = record s { commands = s.commands ++ cs }

-- A command ran: it did what it was to do, or an error is raised.
abbrev pub Ran : Shell → Command → Result (Unit {0}) × Cluster → Cluster → Type 0
Ran shell c r s =
    (is_success (shell.outcome (s.commands ++ c ∷ [])) ≡ true) × (r ≡ (ok tt, ran (c ∷ []) s))
    ⊎ (e : DevError) × (is_success (shell.outcome (s.commands ++ c ∷ [])) ≡ false)
      × (r ≡ (err e, ran (c ∷ []) s))

abbrev pub Judged : Outcome → Result (Unit {0}) × Cluster → Cluster → Type 0
Judged o r s =
    (is_success o ≡ true) × (r ≡ (ok tt, s))
    ⊎ (e : DevError) × (is_success o ≡ false) × (r ≡ (err e, s))

succeeded_or-Judged :
    (message : Text) (x : Exit) (s : Cluster) → Judged (exited x) (succeeded_or message x s) s
succeeded_or-Judged message x s = elim (Bool-cases x.success) [
  | inl e ↦ inl (e, rw e refl)
  | inr e ↦ inr (config message, e, rw e refl)
]

apply_outcome-Judged : (o : Outcome) (s : Cluster) → Judged o (apply_outcome o s) s
apply_outcome-Judged (not_spawned e) s = inr (_, refl, refl)
apply_outcome-Judged (not_written e) s = inr (_, refl, refl)
apply_outcome-Judged (not_waited e) s = inr (_, refl, refl)
apply_outcome-Judged (exited x) s = succeeded_or-Judged _ x s

checked-Judged :
    (what : Text) (message : Exit → Text) (o : Outcome) (s : Cluster)
    → Judged o (after (exit_of what o, s) (λ x. succeeded_or (message x) x)) s
checked-Judged what message (not_spawned e) s = inr (_, refl, refl)
checked-Judged what message (not_written e) s = inr (_, refl, refl)
checked-Judged what message (not_waited e) s = inr (_, refl, refl)
checked-Judged what message (exited x) s = succeeded_or-Judged (message x) x s

pub apply_manifest-Ran :
    (client : K8sClient) (shell : Shell) (yaml : Text) (s : Cluster)
    → Ran shell (apply_command client yaml) (apply_manifest client shell yaml s) s
unfolding apply_manifest execute
apply_manifest-Ran client shell yaml s =
    apply_outcome-Judged (shell.outcome (s.commands ++ apply_command client yaml ∷ [])) _

pub wait_for_ready-Ran :
    (client : K8sClient) (shell : Shell) (label : Text) (timeout_secs : ℕ) (s : Cluster)
    → Ran shell
        (wait_command client label timeout_secs)
        (wait_for_ready client shell label timeout_secs s)
        s
unfolding wait_for_ready execute
wait_for_ready-Ran client shell label timeout_secs s =
    checked-Judged (txt "kubectl wait failed") (λ x. failed_with (txt "pod not ready") x.stderr)
      (shell.outcome (s.commands ++ wait_command client label timeout_secs ∷ [])) _
