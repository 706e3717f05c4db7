-- ===== src/Supervisor/Keeps.antt =====
-- Steps that only leave effects: hooks and processes change nothing that the supervisor holds.
use dev.Prelude.{Text, ℕ, Option, none, some, [], ◌≡◌, ◌∙◌, refl, List-cases, inl, inr}
use dev.Error.{Result, ok, err, panic}
use dev.Config.{ServiceDef}
use dev.Supervisor.{
  Supervisor, Os, Run, after, HookStatus, SpawnStatus, spawn_failed, spawn_success, hook_failed,
  hook_exited, hook_success,
}
use dev.Supervisor.Spawn.{
  split_cmd, hook_outcome, run_hook, optional_hook, tee, spawn_outcome, spawn_process,
}

-- What the supervisor holds, the effects apart.
abbrev pub held : Supervisor → Supervisor
held w = record w { trace = [] }

pub held-after {ℓ κ} :
    {A : Type ℓ} {B : Type κ} (r : Result A × Supervisor) (f : A → Run B) (w : Supervisor)
    → ((a : A) (v : Supervisor) → held (f a v).1 ≡ held v)
    → held r.1 ≡ held w
    → held (after r f).1 ≡ held w
held-after (ok a, v) f w k h = k a v ∙ h
held-after (err e, v) f w k h = h
held-after (panic p, v) f w k h = h

hook_outcome-held :
    (name : Text) (s : HookStatus) (w : Supervisor) → held (hook_outcome name s w).1 ≡ held w
hook_outcome-held name (hook_failed e) w = refl
hook_outcome-held name (hook_exited e) w = refl
hook_outcome-held name hook_success w = refl

pub run_hook-held :
    (os : Os) (hook : Text) (svc : ServiceDef) (name : Text) (w : Supervisor)
    → held (run_hook os hook svc name w).1 ≡ held w
unfolding run_hook
run_hook-held os hook svc name w = elim (List-cases (split_cmd hook)) [
  | inl e ↦ rw (e, run_hook) refl
  | inr (program, args, e) ↦ rw (e, run_hook) (hook_outcome-held name _ _)
]

pub optional_hook-held :
    (os : Os) (hook : Option Text) (svc : ServiceDef) (name : Text) (w : Supervisor)
    → held (optional_hook os hook svc name w).1 ≡ held w
optional_hook-held os none svc name w = refl
optional_hook-held os (some hook) svc name w = run_hook-held os hook svc name w

tee-held :
    (path : Option Text) (svc : ServiceDef) (name : Text) (w : Supervisor)
    → held (tee path svc name w).1 ≡ held w
tee-held none svc name w = refl
tee-held (some path) svc name w = refl

spawn_outcome-held :
    (name : Text) (color_idx : ℕ) (svc : ServiceDef) (s : SpawnStatus) (w : Supervisor)
    → held (spawn_outcome name color_idx svc s w).1 ≡ held w
spawn_outcome-held name color_idx svc (spawn_failed msg) w = refl
spawn_outcome-held name color_idx svc (spawn_success id) w =
    held-after (tee svc.log_file svc name _) _ w (λ _ v. refl) (tee-held svc.log_file svc name _)

pub spawn_process-held :
    (os : Os) (name : Text) (svc : ServiceDef) (port color_idx : ℕ) (w : Supervisor)
    → held (spawn_process os name svc port color_idx w).1 ≡ held w
unfolding spawn_process
spawn_process-held os name svc port color_idx w =
    held-after (optional_hook os svc.pre_start svc name w) _ w
      (λ _ v. elim (List-cases (split_cmd svc.cmd)) [
        | inl e ↦ rw e refl
        | inr (program, args, e) ↦ rw e (spawn_outcome-held name color_idx svc _ _)
      ])
      (optional_hook-held os svc.pre_start svc name w)
