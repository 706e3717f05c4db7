-- ===== src/Config/EnvFunc/Laws.antt =====
-- The loop of `expand_env_func`: its fuel, and one round of it.
use dev.Prelude.{
  Text, txt, ℕ, zero, suc, ◌≤◌, Option, none, some, [], ◌∷◌, ◌++◌, ◌≡◌, ◌⊎◌, inl, inr, refl, ap,
  sym, ◌∙◌, arith, Option-cases, Bool,
}
use dev.Prelude.Counts.{length}
use dev.Error.{first_step, Result, ok, err, panic, out_of_bounds, ◌>>=◌}
use dev.Strings.{strip_prefix, split_at, drop_while}
use dev.Config.EnvFunc.{
  is_space, skip_spaces, byte_at, skip, default_arg, default_val, read_call, read_env, expand_loop,
  expand_env_func,
}

pub drop_while-le : (f : ℕ → Bool) (s : Text) → length (drop_while f s) ≤ length s
unfolding drop_while
drop_while-le f [] = omega arith
drop_while-le f (c ∷ s) = ground (arith, drop_while-le f s)

split_at-le : (c : ℕ) (s : Text) → length (split_at c s).1 ≤ length s
unfolding split_at
split_at-le c [] = omega arith
split_at-le c (d ∷ s) = ground (arith, split_at-le c s)

skip-le : (c : ℕ) (s : Text) → length (skip c s) ≤ length s
skip-le c [] = omega arith
skip-le c (d ∷ s) = ground arith

-- A step that reads from `s` leaves no more than `n` characters.
abbrev Leaves : ℕ → Result (Text × Text) → Type 0
Leaves n r = (a b : Text) → r ≡ ok (a, b) → length b ≤ n

byte_at-lt : (s : Text) (c : ℕ) (rest : Text) → byte_at s ≡ ok (c, rest) → s ≡ c ∷ rest
byte_at-lt [] c rest h = cc
byte_at-lt (d ∷ s) c rest h = ground arith

byte_at-cases :
    (s : Text)
    → (byte_at s ≡ panic out_of_bounds)
      ⊎ ((c : ℕ) × (rest : Text) × (s ≡ c ∷ rest) × (byte_at s ≡ ok (c, rest)))
byte_at-cases [] = inl refl
byte_at-cases (c ∷ s) = inr (c, s, refl, refl)

default_arg-Leaves : (s : Text) → Leaves (length s) (default_arg s)
unfolding default_arg
default_arg-Leaves s a b h = elim (byte_at-cases (skip_spaces s)) [
  | inl e ↦ absurd (ground arith)
  | inr (dq, rest, e, f) ↦
      ground (arith, split_at-le dq rest, ap length e, drop_while-le is_space s)
]

default_val-Leaves : (s : Text) → Leaves (length s) (default_val s)
unfolding default_val
default_val-Leaves [] a b h = ground arith
default_val-Leaves (c ∷ s) a b h = ground (arith, default_arg-Leaves s a b)

module _ (os_env : Text → Option Text) where
  read_call-Leaves : (quote : ℕ) (s : Text) → Leaves (length s) (read_call os_env quote s)
  unfolding read_call
  read_call-Leaves quote s a b h =
      let rest = skip_spaces (split_at quote s).1 in
      let ((d, rest'), e, f) = first_step (default_val rest) _ h in
      let shorter : b ≡ skip b')' (skip_spaces rest') = ground arith in
      omega (
        arith,
        ap length shorter,
        skip-le b')' (skip_spaces rest'),
        drop_while-le is_space rest',
        default_val-Leaves rest d rest' e,
        drop_while-le is_space (split_at quote s).1,
        split_at-le quote s,
      )

  read_env-Leaves : (r : Text) → Leaves (length r) (read_env os_env r)
  unfolding read_env
  read_env-Leaves r a b h = elim (byte_at-cases (skip_spaces r)) [
    | inl e ↦ absurd (ground arith)
    | inr (quote, s, e, f) ↦
        ground (arith, read_call-Leaves quote s a b, ap length e, drop_while-le is_space r)
  ]

  strip_prefix-lt :
      (c : ℕ) (s r : Text) → strip_prefix (txt "env(") (c ∷ s) ≡ some r → length r ≤ length s
  unfolding strip_prefix
  strip_prefix-lt c [] r h = ground arith
  strip_prefix-lt c (a ∷ []) r h = ground arith
  strip_prefix-lt c (a ∷ b ∷ []) r h = ground arith
  strip_prefix-lt c (a ∷ b ∷ d ∷ s) r h = ground arith

  loop_plain :
      (fuel c : ℕ) (s : Text)
      → strip_prefix (txt "env(") (c ∷ s) ≡ none
      → expand_loop os_env (suc fuel) (c ∷ s) ≡ (expand_loop os_env fuel s >>= λ out. ok (c ∷ out))
  unfolding expand_loop
  loop_plain fuel c s h = rw (h, expand_loop)

  loop_env :
      (fuel c : ℕ) (s r : Text)
      → strip_prefix (txt "env(") (c ∷ s) ≡ some r
      → expand_loop os_env (suc fuel) (c ∷ s)
        ≡ (read_env os_env r >>= λ t. expand_loop os_env fuel t.1 >>= λ out. ok (t.0 ++ out))
  unfolding expand_loop
  loop_env fuel c s r h = rw (h, expand_loop)

  bind_congr :
      (m : Result (Text × Text)) (f g : Text × Text → Result Text)
      → ((a b : Text) → m ≡ ok (a, b) → f (a, b) ≡ g (a, b))
      → (m >>= f) ≡ (m >>= g)
  bind_congr (ok (a, b)) f g h = h a b refl
  bind_congr (err e) f g h = refl
  bind_congr (panic e) f g h = refl

  -- More fuel than characters changes nothing.
  loop-fuel :
      (f g : ℕ) (s : Text)
      → length s ≤ f
      → length s ≤ g
      → expand_loop os_env f s ≡ expand_loop os_env g s
  loop-fuel zero zero [] h k = refl
  loop-fuel zero (suc g) [] h k = unfold expand_loop in refl
  loop-fuel (suc f) zero [] h k = unfold expand_loop in refl
  loop-fuel (suc f) (suc g) [] h k = unfold expand_loop in refl
  loop-fuel zero g (c ∷ s) h k = absurd (omega arith)
  loop-fuel (suc f) zero (c ∷ s) h k = absurd (omega arith)
  loop-fuel (suc f) (suc g) (c ∷ s) h k = elim (Option-cases (strip_prefix (txt "env(") (c ∷ s))) [
    | inl e ↦
        loop_plain f c s e
        ∙ ap (λ m. m >>= λ out. ok (c ∷ out)) (loop-fuel f g s (omega arith) (omega arith))
        ∙ sym (loop_plain g c s e)
    | inr (r, e) ↦
        loop_env f c s r e
        ∙ bind_congr (read_env os_env r) _ _ (λ a b read.
          let shorter : length b ≤ length s =
            omega (arith, read_env-Leaves r a b read, strip_prefix-lt c s r e) in
          ap (λ m. m >>= λ out. ok (a ++ out)) (loop-fuel f g b (omega arith) (omega arith)))
        ∙ sym (loop_env g c s r e)
  ]

  pub expand_plain :
      (c : ℕ) (s : Text)
      → strip_prefix (txt "env(") (c ∷ s) ≡ none
      → expand_env_func os_env (c ∷ s) ≡ (expand_env_func os_env s >>= λ out. ok (c ∷ out))
  unfolding expand_env_func
  expand_plain c s h = loop_plain (length s) c s h

  pub expand_env :
      (c : ℕ) (s r : Text)
      → strip_prefix (txt "env(") (c ∷ s) ≡ some r
      → expand_env_func os_env (c ∷ s)
        ≡ (read_env os_env r >>= λ t. expand_env_func os_env t.1 >>= λ out. ok (t.0 ++ out))
  unfolding expand_env_func
  expand_env c s r h =
      loop_env (length s) c s r h
      ∙ bind_congr (read_env os_env r) _ _ (λ a b read.
        ap (λ m. m >>= λ out. ok (a ++ out))
          (loop-fuel (length s) (length b) b
            (omega (arith, read_env-Leaves r a b read, strip_prefix-lt c s r h)) (omega arith)))
