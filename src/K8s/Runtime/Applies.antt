-- ===== src/K8s/Runtime/Applies.antt =====
-- Manifests that are applied one after the other, up to the first that is not.
use mathlib.Core.List.{append_assoc, append-nil}
use dev.Prelude.{
  Text, Option, none, some, List, [], ◌∷◌, ◌++◌, map, true, false, ◌≡◌, ◌∙◌, inl, inr, refl, sym,
  ap,
}
use dev.Error.{Result, ok, err, panic, DevError}
use dev.Steps.{after, ◌>>=◌, ◌>>◌, pure}
use dev.K8s.{Shell, Cluster, Deploy}
use dev.K8s.Client.{K8sClient, apply_manifest, apply_command, is_success}
use dev.K8s.Runs.{AllSucceed, ran, apply_manifest-Ran}
use dev.K8s.Runtime.{K8sRuntime, apply_optional}

abbrev pub to_list : Option Text → List Text
to_list none = []
to_list (some a) = a ∷ []

abbrev pub apply_all : K8sClient → Shell → List Text → Deploy (Unit {0})
apply_all client shell [] = pure tt
apply_all client shell (d ∷ ds) = apply_manifest client shell d >> apply_all client shell ds

-- The manifests `ds` were applied, or a first one that was not has ended the run.
pub data Applied (shell : Shell) (client : K8sClient) (ds : List Text) (s : Cluster)
    (r : Result (Unit {0}) × Cluster) : Type 0 where
  applied :
      AllSucceed shell s.commands (map (apply_command client) ds)
      → r ≡ (ok tt, ran (map (apply_command client) ds) s)
      → Applied shell client ds s r
  refused :
      (pre post : List Text) (d : Text) (e : DevError)
      → ds ≡ pre ++ d ∷ post
      → AllSucceed shell s.commands (map (apply_command client) pre)
      → is_success (
          shell.outcome
            (s.commands ++ (map (apply_command client) pre ++ apply_command client d ∷ [])))
        ≡ false
      → r ≡ (err e, ran (map (apply_command client) pre ++ apply_command client d ∷ []) s)
      → Applied shell client ds s r

Applied-cons :
    (client : K8sClient) (shell : Shell) (d : Text) (ds : List Text) (s : Cluster)
    (r : Result (Unit {0}) × Cluster)
    → is_success (shell.outcome (s.commands ++ apply_command client d ∷ [])) ≡ true
    → Applied shell client ds (ran (apply_command client d ∷ []) s) r
    → Applied shell client (d ∷ ds) s r
unfolding AllSucceed
Applied-cons client shell d ds s r h (applied a e) = applied (h, a) (e ∙ simp append_assoc)
Applied-cons client shell d ds s r h (refused pre post c x e a f g) =
    refused (d ∷ pre) post c x (ap (λ cs. d ∷ cs) e) (h, a)
      (ap (λ cs. is_success (shell.outcome cs)) (sym (append_assoc s.commands _ _)) ∙ f)
      (g ∙ simp append_assoc)

pub apply_all-Applied :
    (client : K8sClient) (shell : Shell) (ds : List Text) (s : Cluster)
    → Applied shell client ds s (apply_all client shell ds s)
unfolding AllSucceed
apply_all-Applied client shell [] s = applied tt (simp append-nil)
apply_all-Applied client shell (d ∷ ds) s = elim (apply_manifest-Ran client shell d s) [
  | inl (h, e) ↦ Applied-cons client shell d ds s _ h (rw e (apply_all-Applied client shell ds _))
  | inr (e, h, f) ↦ refused [] ds d e refl tt h (rw f refl)
]

after_after :
    (r : Result (Unit {0}) × Cluster) (f g : Unit {0} → Deploy (Unit {0}))
    → after (after r f) g ≡ after r (λ u. f u >>= g)
after_after (ok u, t) f g = refl
after_after (err e, t) f g = refl
after_after (panic p, t) f g = refl

pub apply_all-cons :
    (client : K8sClient) (shell : Shell) (k : Deploy (Unit {0})) (d : Text) (ds : List Text)
    (s : Cluster) {m : Deploy (Unit {0})}
    → ((t : Cluster) → m t ≡ (apply_all client shell ds >> k) t)
    → (apply_manifest client shell d >> m) s ≡ (apply_all client shell (d ∷ ds) >> k) s
apply_all-cons client shell k d ds s h =
    ap (after (apply_manifest client shell d s)) (λ i u t. h t i)
    ∙ sym (after_after (apply_manifest client shell d s) _ _)

pub apply_optional-then :
    (runtime : K8sRuntime) (shell : Shell) (m : Option Text) (k : Deploy (Unit {0}))
    (ds : List Text) (s : Cluster) (f : List Text → Deploy (Unit {0}))
    → ((t : Cluster) → f (to_list m) t ≡ (apply_all runtime.client shell ds >> k) t)
    → (apply_optional runtime shell m >>= f) s
      ≡ (apply_all runtime.client shell (to_list m ++ ds) >> k) s
apply_optional-then runtime shell none k ds s f h = h s
apply_optional-then runtime shell (some d) k ds s f h =
    pushed (apply_manifest runtime.client shell d s)
    ∙ apply_all-cons runtime.client shell k d ds s h
  where
    pushed :
        (r : Result (Unit {0}) × Cluster)
        → after (after r (λ _. pure (d ∷ []))) f ≡ after r (λ _. f (d ∷ []))
    pushed (ok u, t) = refl
    pushed (err e, t) = refl
    pushed (panic p, t) = refl
