-- ===== src/Supervisor/Stop/Laws.antt =====
-- What `stop_service` leaves: the handles, and whether it returns.
use dev.Prelude.{
  Text, ℕ, Option, none, some, [], ◌∷◌, ◌≡◌, ◌∙◌, refl, arith, Option-cases, inl, inr, ◌≢◌, true,
  List, List-cases,
}
use dev.Error.{Result, ok, err, panic}
use dev.Map.{Map, get, modify}
use dev.Config.{ServiceDef, Duration}
use dev.State.{state_pid}
use dev.Supervisor.{
  Supervisor, ServiceHandle, Os, Child, ◌>>◌, note, killed, Effect, HookStatus, hook_failed,
  hook_exited, hook_success,
}
use dev.Supervisor.Spawn.{optional_hook, split_cmd, hook_outcome, run_hook}
use dev.Supervisor.Keeps.{held, optional_hook-held}
use dev.Supervisor.Stop.{halt, terminate, warned, post_stop, stop_known, stop_service}

warned-held : (r : Result (Unit {0}) × Supervisor) → held (warned r).1 ≡ held r.1
warned-held (ok u, w) = refl
warned-held (err e, w) = refl
warned-held (panic p, w) = refl

post_stop-held :
    (os : Os) (name : Text) (svc_def : Option ServiceDef) (w : Supervisor)
    → held (post_stop os name svc_def w).1 ≡ held w
post_stop-held os name none w = refl
post_stop-held os name (some svc) w =
    warned-held (optional_hook os svc.post_stop svc name w)
    ∙ optional_hook-held os svc.post_stop svc name w

modify-none {ℓ} :
    {V : Type ℓ} (k : Text) (f : V → V) (m : Map V) → get k m ≡ none → modify k f m ≡ m
unfolding get modify
modify-none k f [] h = refl
modify-none k f ((j, v) ∷ m) h = ground (arith, modify-none k f m)

-- No hook panics: none is an empty command.
abbrev pub HooksRun : Map ServiceDef → Type 0
HooksRun services =
    (n : Text) (svc : ServiceDef) (hook : Text)
    → get n services ≡ some svc
    → svc.post_stop ≡ some hook
    → split_cmd hook ≢ []

warned-outcome :
    (name : Text) (s : HookStatus) (w : Supervisor) → (warned (hook_outcome name s w)).0 ≡ ok tt
warned-outcome name (hook_failed e) w = refl
warned-outcome name (hook_exited status) w = refl
warned-outcome name hook_success w = refl

optional_hook-ok :
    (os : Os) (o : Option Text) (svc : ServiceDef) (name : Text) (w : Supervisor)
    → ((hook : Text) → o ≡ some hook → split_cmd hook ≢ [])
    → (warned (optional_hook os o svc name w)).0 ≡ ok tt
unfolding run_hook
optional_hook-ok os none svc name w h = refl
optional_hook-ok os (some hook) svc name w h = elim (List-cases (split_cmd hook)) [
  | inl e ↦ absurd (h hook refl e)
  | inr (program, args, e) ↦ rw (e, run_hook) (warned-outcome name _ _)
]

post_stop-ok :
    (os : Os) (name : Text) (svc_def : Option ServiceDef) (w : Supervisor)
    → ((svc : ServiceDef) (hook : Text)
        → svc_def ≡ some svc
        → svc.post_stop ≡ some hook
        → split_cmd hook ≢ [])
    → (post_stop os name svc_def w).0 ≡ ok tt
post_stop-ok os name none w h = refl
post_stop-ok os name (some svc) w h =
    optional_hook-ok os svc.post_stop svc name w (λ hook. h svc hook refl)

terminate-ok :
    (os : Os) (name : Text) (svc_def : Option ServiceDef) (pid : Option ℕ) (child : Child)
    (t : Duration) (w : Supervisor)
    → ((v : Supervisor) → (post_stop os name svc_def v).0 ≡ ok tt)
    → ((terminate pid child t >> (note (killed child) >> post_stop os name svc_def)) w).0 ≡ ok tt
terminate-ok os name svc_def none child t w h = h _
terminate-ok os name svc_def (some pid) child t w h = h _

terminate-held :
    (os : Os) (name : Text) (svc_def : Option ServiceDef) (pid : Option ℕ) (child : Child)
    (t : Duration) (w : Supervisor)
    → held ((terminate pid child t >> (note (killed child) >> post_stop os name svc_def)) w).1
      ≡ held w
terminate-held os name svc_def none child t w = post_stop-held os name svc_def _
terminate-held os name svc_def (some pid) child t w = post_stop-held os name svc_def _

-- `true` can be spawned whatever was done before.
module _ (os : Os) (spares : (trace : List Effect) → os.spare trace ≡ true) where
  stop_known-held :
      (name : Text) (svc_def : Option ServiceDef) (h : ServiceHandle) (w : Supervisor)
      → held (stop_known os name svc_def h w).1
        ≡ record (held w) { handles = modify name halt w.handles }
  unfolding stop_known
  stop_known-held name svc_def h w = elim (Option-cases h.watcher_stop) [
    | inl e ↦ rw (e, spares) (terminate-held os name svc_def (state_pid h.state) h.child _ _)
    | inr (id, e) ↦ rw (e, spares) (terminate-held os name svc_def (state_pid h.state) h.child _ _)
  ]

  -- `stop_service` changes the state only in the handle of the service, if it has one.
  pub stop_service-held :
      (name : Text) (w : Supervisor)
      → held (stop_service os name w).1 ≡ record (held w) { handles = modify name halt w.handles }
  unfolding stop_service
  stop_service-held name w = elim (Option-cases (get name w.handles)) [
    | inl e ↦ rw (e, modify-none name halt w.handles e) refl
    | inr (h, e) ↦ rw e (stop_known-held name (get name w.config.service) h w)
  ]

  -- `stop_service` returns where no hook panics.
  pub stop_service-ok :
      (name : Text) (w : Supervisor)
      → HooksRun w.config.service
      → (stop_service os name w).0 ≡ ok tt
  unfolding stop_service stop_known
  stop_service-ok name w runs = elim (Option-cases (get name w.handles)) [
    | inl e ↦ rw e refl
    | inr (h, e) ↦
        let ends =
          λ (v : Supervisor). post_stop-ok os name (get name w.config.service) v (runs name) in
        elim (Option-cases h.watcher_stop) [
          | inl f ↦ rw (e, f, spares) (terminate-ok os name _ (state_pid h.state) h.child _ _ ends)
          | inr (id, f) ↦
              rw (e, f, spares) (terminate-ok os name _ (state_pid h.state) h.child _ _ ends)
        ]
  ]
