-- ===== src/Config/Placeholders/Laws.antt =====
-- The loop of the two interpolations, on texts whose placeholders are closed, but for the last one.

use mathlib.Core.List.{append_assoc, append-nil}
use dev.Prelude.{
  Text, txt, ℕ, zero, suc, ◌≤◌, ◌<◌, ◌≡◌, inl, inr, refl, sym, ◌∙◌, ap, Option, none, some, List,
  [], ◌∷◌, ◌++◌, false, arith, Option-cases, subst,
}
use dev.Prelude.Counts.{length}
use dev.Strings.{strip_prefix, split_at, has_char}
use dev.Map.{Map}
use dev.Config.Placeholders.Segments.{
  Segment, char, place, render, replace, IsReading, IsReplaced, NamesPort, find_port-NamesPort,
  replace-IsReplaced,
}
use dev.Config.Placeholders.{
  found_or, expand, interpolate, interpolate_env_vars, interpolate_service_ports, find_port,
}

split_at-le : (c : ℕ) (s : Text) → length (split_at c s).1 ≤ length s
unfolding split_at
split_at-le c [] = omega arith
split_at-le c (d ∷ s) = ground (arith, split_at-le c s)

split_at-append : (c : ℕ) (a b : Text) → has_char c a ≡ false → split_at c (a ++ c ∷ b) ≡ (a, b)
unfolding split_at has_char
split_at-append c [] b h = ground arith
split_at-append c (d ∷ a) b h = ground (arith, split_at-append c a b)

split_at-absent : (c : ℕ) (a : Text) → has_char c a ≡ false → split_at c a ≡ (a, [])
unfolding split_at has_char
split_at-absent c [] h = refl
split_at-absent c (d ∷ a) h = ground (arith, split_at-absent c a)

strip_prefix-lt :
    (c : ℕ) (s r : Text) → strip_prefix (txt "${") (c ∷ s) ≡ some r → length r < length s
unfolding strip_prefix
strip_prefix-lt c [] r h = ground arith
strip_prefix-lt c (d ∷ s) r h = ground arith

module _ (find : Text → Option Text) where
  expand_plain :
      (fuel c : ℕ) (s : Text)
      → strip_prefix (txt "${") (c ∷ s) ≡ none
      → expand find (suc fuel) (c ∷ s) ≡ c ∷ expand find fuel s
  unfolding expand
  expand_plain fuel c s h = ground arith

  expand_place :
      (fuel c : ℕ) (s r : Text)
      → strip_prefix (txt "${") (c ∷ s) ≡ some r
      → expand find (suc fuel) (c ∷ s)
        ≡ found_or (find (split_at b'}' r).0) (split_at b'}' r).0
          ++ expand find fuel (split_at b'}' r).1
  unfolding expand
  expand_place fuel c s r h = ground arith

  -- More fuel than characters changes nothing.
  expand-fuel :
      (f g : ℕ) (s : Text) → length s ≤ f → length s ≤ g → expand find f s ≡ expand find g s
  expand-fuel zero zero [] h k = refl
  expand-fuel zero (suc g) [] h k = unfold expand in refl
  expand-fuel (suc f) zero [] h k = unfold expand in refl
  expand-fuel (suc f) (suc g) [] h k = unfold expand in refl
  expand-fuel zero g (c ∷ s) h k = absurd (omega arith)
  expand-fuel (suc f) zero (c ∷ s) h k = absurd (omega arith)
  expand-fuel (suc f) (suc g) (c ∷ s) h k = elim (Option-cases (strip_prefix (txt "${") (c ∷ s))) [
    | inl e ↦
        expand_plain f c s e
        ∙ ap (◌∷◌ c) (expand-fuel f g s (omega arith) (omega arith))
        ∙ sym (expand_plain g c s e)
    | inr (r, e) ↦
        let rest = (split_at b'}' r).1 in
        let shorter : length rest < length s =
          omega (arith, strip_prefix-lt c s r e, split_at-le b'}' r) in
        expand_place f c s r e
        ∙ ap (λ t. found_or (find (split_at b'}' r).0) (split_at b'}' r).0 ++ t)
            (expand-fuel f g rest (omega arith) (omega arith))
        ∙ sym (expand_place g c s r e)
  ]

  interpolate_plain :
      (c : ℕ) (s : Text)
      → strip_prefix (txt "${") (c ∷ s) ≡ none
      → interpolate find (c ∷ s) ≡ c ∷ interpolate find s
  unfolding interpolate
  interpolate_plain c s h = expand_plain (length s) c s h

  interpolate_place :
      (c : ℕ) (s r : Text)
      → strip_prefix (txt "${") (c ∷ s) ≡ some r
      → interpolate find (c ∷ s)
        ≡ found_or (find (split_at b'}' r).0) (split_at b'}' r).0
          ++ interpolate find (split_at b'}' r).1
  unfolding interpolate
  interpolate_place c s r h =
      expand_place (length s) c s r h
      ∙ ap (λ t. found_or (find (split_at b'}' r).0) (split_at b'}' r).0 ++ t)
          (expand-fuel (length s) (length (split_at b'}' r).1) (split_at b'}' r).1
            (omega (arith, strip_prefix-lt c s r h, split_at-le b'}' r)) (omega arith))

  opened : (r : Text) → strip_prefix (txt "${") (txt "${" ++ r) ≡ some r
  unfolding strip_prefix
  opened r = refl

  interpolate_closed :
      (name rest : Text)
      → has_char b'}' name ≡ false
      → interpolate find (txt "${" ++ (name ++ b'}' ∷ rest))
        ≡ found_or (find name) name ++ interpolate find rest
  interpolate_closed name rest h =
      rw
        (← ap (λ t. found_or (find t.0) t.0 ++ interpolate find t.1)
          (split_at-append b'}' name rest h))
        (interpolate_place b'$' (b'{' ∷ (name ++ b'}' ∷ rest)) (name ++ b'}' ∷ rest) (opened _))

  -- Reading goes on behind what has been read.
  interpolate-append :
      (l : List Segment) (tail : Text)
      → IsReading l tail
      → interpolate find (render l ++ tail) ≡ replace find l ++ interpolate find tail
  unfolding render replace
  interpolate-append [] tail h = refl
  interpolate-append (char c ∷ l) tail h =
      interpolate_plain c (render l ++ tail) h.0 ∙ ap (◌∷◌ c) (interpolate-append l tail h.1)
  interpolate-append (place name ∷ l) tail h = rw (append_assoc name (b'}' ∷ render l) tail) (
      interpolate_closed name (render l ++ tail) h.0
      ∙ ap (λ t. found_or (find name) name ++ t) (interpolate-append l tail h.1)
      ∙ sym (append_assoc (found_or (find name) name) (replace find l) (interpolate find tail)))

  interpolate_unclosed :
      (name : Text)
      → has_char b'}' name ≡ false
      → interpolate find (txt "${" ++ name) ≡ found_or (find name) name
  interpolate_unclosed name h =
      interpolate_place b'$' (b'{' ∷ name) name (opened name)
      ∙ ap (λ (t : Text × Text). found_or (find t.0) t.0 ++ interpolate find t.1)
          (split_at-absent b'}' name h)
      ∙ (unfold interpolate expand in append-nil (found_or (find name) name))

-- Any interpolation, on a text that is read as `l` and an unclosed placeholder `${name` behind it:
-- each closed placeholder becomes its value, or stays if it has none, all other characters stay, and
-- the unclosed one is treated as if it were closed.
pub interpolate-reading :
    (find : Text → Option Text) (l : List Segment) (name : Text)
    → IsReading l (txt "${" ++ name)
    → has_char b'}' name ≡ false
    → interpolate find (render l ++ (txt "${" ++ name))
      ≡ replace find l ++ found_or (find name) name
interpolate-reading find l name h n =
    interpolate-append find l (txt "${" ++ name) h
    ∙ ap (λ t. replace find l ++ t) (interpolate_unclosed find name n)

interpolate-nil : (find : Text → Option Text) → interpolate find [] ≡ []
unfolding interpolate expand
interpolate-nil find = refl

interpolate-closed :
    (find : Text → Option Text) (l : List Segment)
    → IsReading l []
    → interpolate find (render l) ≡ replace find l
interpolate-closed find l h =
    ap (interpolate find) (sym (append-nil (render l)))
    ∙ interpolate-append find l [] h
    ∙ ap (λ t. replace find l ++ t) (interpolate-nil find)
    ∙ append-nil (replace find l)

-- In a text whose placeholders are all closed, `interpolate_env_vars` and
-- `interpolate_service_ports` replace each placeholder by the OS variable that it names, or by the
-- decimal port of the service `s` if it is `${s.port}`; placeholders that name nothing stay, and so
-- do all other characters.
pub interpolation-closed :
    (os_env : Text → Option Text) (ports : Map ℕ) (l : List Segment)
    → IsReading l []
    → IsReplaced (λ name o. os_env name ≡ o) l (interpolate_env_vars os_env (render l))
      × IsReplaced (NamesPort ports) l (interpolate_service_ports ports (render l))
unfolding interpolate_env_vars interpolate_service_ports
interpolation-closed os_env ports l h = (
  subst (IsReplaced (λ name o. os_env name ≡ o) l) (sym (interpolate-closed os_env l h))
      (replace-IsReplaced os_env _ l (λ name. refl)),
  subst (IsReplaced (NamesPort ports) l) (sym (interpolate-closed (find_port ports) l h))
      (replace-IsReplaced (find_port ports) (NamesPort ports) l (find_port-NamesPort ports)),
)

-- A text that ends in an unclosed placeholder comes out with a `}` that it did not have, if the
-- rest of the text behind `${` names nothing.
pub interpolation-unclosed :
    (os_env : Text → Option Text) (l : List Segment) (name : Text)
    → IsReading l (txt "${" ++ name)
    → has_char b'}' name ≡ false
    → os_env name ≡ none
    → interpolate_env_vars os_env (render l ++ (txt "${" ++ name))
      ≡ replace os_env l ++ (txt "${" ++ (name ++ txt "}"))
unfolding interpolate_env_vars
interpolation-unclosed os_env l name h n e =
    interpolate-reading os_env l name h n ∙ ap (λ o. replace os_env l ++ found_or o name) e
