-- ===== src/Config/EnvFunc/Calls.antt =====
-- What `expand_env_func` makes of whole texts: of text with well-formed calls, of a call that is
-- cut off, and of an `env(` that no quote follows.
use mathlib.Core.Option
use mathlib.Core.List.{append_assoc}
use dev.Prelude.{
  Text, txt, ℕ, zero, suc, Option, some, List, [], ◌∷◌, ◌++◌, ◌≡◌, ◌≢◌, refl, ap, sym, ◌∙◌, arith,
  true, false,
}
use dev.Error.{Result, ok, err, panic, out_of_bounds, ◌>>=◌}
use dev.Strings.{strip_prefix, split_at, drop_while, has_char}
use dev.Config.EnvFunc.{
  is_quote, skip_spaces, default_arg, default_val, literal, read_call, read_env, expand_loop,
  expand_env_func,
}
use dev.Config.EnvFunc.Pieces.{
  IsPlain, spaces, Piece, plain, call, call_default, write, write_all, value, value_all, IsPiece,
  ArePieces, Expands, value_all-Expands,
}
use dev.Config.EnvFunc.Laws.{expand_plain, expand_env}

opened : (r : Text) → strip_prefix (txt "env(") (txt "env(" ++ r) ≡ some r
unfolding strip_prefix
opened r = refl

split_at-append : (c : ℕ) (a b : Text) → has_char c a ≡ false → split_at c (a ++ c ∷ b) ≡ (a, b)
unfolding split_at has_char
split_at-append c [] b h = ground arith
split_at-append c (d ∷ a) b h = ground (arith, split_at-append c a b)

skip_spaces-append : (n c : ℕ) (s : Text) → c ≢ b' ' → skip_spaces (spaces n ++ c ∷ s) ≡ c ∷ s
unfolding drop_while
skip_spaces-append zero c s h = ground arith
skip_spaces-append (suc n) c s h = skip_spaces-append n c s h

skip_spaces-spaces : (n : ℕ) → skip_spaces (spaces n) ≡ []
unfolding drop_while
skip_spaces-spaces zero = refl
skip_spaces-spaces (suc n) = skip_spaces-spaces n

quote-ne_space : (q : ℕ) → is_quote q ≡ true → q ≢ b' '
quote-ne_space q h e = ground arith

bind_assoc :
    (m : Result Text) (a b : Text)
    → (m >>= (λ out. ok (a ++ out)) >>= λ out. ok (b ++ out)) ≡ (m >>= λ out. ok ((b ++ a) ++ out))
bind_assoc (ok out) a b = rw append_assoc
bind_assoc (err e) a b = refl
bind_assoc (panic e) a b = refl

bind_nil : (m : Result Text) → (m >>= λ out. ok out) ≡ m
bind_nil (ok out) = refl
bind_nil (err e) = refl
bind_nil (panic e) = refl

module _ (os_env : Text → Option Text) where
  abbrev run : Text → Result Text
  run = expand_env_func os_env

  run-plain :
      (a tail : Text) → IsPlain a tail → run (a ++ tail) ≡ (run tail >>= λ out. ok (a ++ out))
  run-plain [] tail h = sym (bind_nil (run tail))
  run-plain (c ∷ a) tail h =
      expand_plain os_env c (a ++ tail) h.0
      ∙ ap (λ m. m >>= λ out. ok (c ∷ out)) (run-plain a tail h.1)
      ∙ bind_assoc (run tail) a (c ∷ [])

  read_env-spaces : (n : ℕ) → read_env os_env (spaces n) ≡ panic out_of_bounds
  unfolding read_env
  read_env-spaces n = rw skip_spaces-spaces refl

  read_env-no_quote :
      (n c : ℕ) (tail : Text)
      → c ≢ b' '
      → is_quote c ≡ false
      → read_env os_env (spaces n ++ c ∷ tail) ≡ ok (txt "env(", c ∷ tail)
  unfolding read_env
  read_env-no_quote n c tail h q = rw (skip_spaces-append n c tail h, q) refl

  run-env :
      (r : Text)
      → run (txt "env(" ++ r) ≡ (read_env os_env r >>= λ t. run t.1 >>= λ out. ok (t.0 ++ out))
  run-env r = expand_env os_env b'e' (txt "nv(" ++ r) r (opened r)

  -- A text that ends in `env(` and spaces makes the program panic on an index out of bounds,
  -- whatever plain text stands in front.
  pub expand_env_func_panics :
      (a : Text) (n : ℕ)
      → IsPlain a (txt "env(" ++ spaces n)
      → expand_env_func os_env (a ++ (txt "env(" ++ spaces n)) ≡ panic out_of_bounds
  expand_env_func_panics a n h =
      run-plain a (txt "env(" ++ spaces n) h
      ∙ ap (λ m. m >>= λ out. ok (a ++ out))
          (run-env (spaces n)
            ∙ ap (λ m. m >>= λ (t : Text × Text). run t.1 >>= λ out. ok (t.0 ++ out))
                (read_env-spaces n))

  -- Where no quote follows `env(`, the call stays, but the spaces behind its parenthesis are lost.
  pub expand_env_func-no_quote :
      (n c : ℕ) (tail : Text)
      → c ≢ b' '
      → is_quote c ≡ false
      → expand_env_func os_env (txt "env(" ++ (spaces n ++ c ∷ tail))
        ≡ (expand_env_func os_env (c ∷ tail) >>= λ out. ok (txt "env(" ++ out))
  expand_env_func-no_quote n c tail h q =
      run-env (spaces n ++ c ∷ tail)
      ∙ ap (λ m. m >>= λ (t : Text × Text). run t.1 >>= λ out. ok (t.0 ++ out))
          (read_env-no_quote n c tail h q)

  -- A call without a default, with spaces where they may stand, is the value's literal, and an unset
  -- variable gives the empty literal.
  read_env-call :
      (i j q : ℕ) (name tail : Text)
      → is_quote q ≡ true
      → has_char q name ≡ false
      → read_env os_env (spaces i ++ q ∷ (name ++ q ∷ (spaces j ++ b')' ∷ tail)))
        ≡ ok (literal (Option.get_or (os_env name) []), tail)
  unfolding read_env read_call default_val drop_while
  read_env-call i j q name tail h k =
      rw
        (
          skip_spaces-append i q (name ++ q ∷ (spaces j ++ b')' ∷ tail)) (quote-ne_space q h),
          h,
          split_at-append q name (spaces j ++ b')' ∷ tail) k,
          skip_spaces-append j b')' tail (ground arith),
        )
        refl

  read_env-call_default :
      (i j k l q p : ℕ) (name default tail : Text)
      → is_quote q ≡ true
      → has_char q name ≡ false
      → is_quote p ≡ true
      → has_char p default ≡ false
      → read_env os_env (
          spaces i
          ++ q
            ∷ (name
                ++ q
                  ∷ (spaces j
                      ++ b',' ∷ (spaces k ++ p ∷ (default ++ p ∷ (spaces l ++ b')' ∷ tail))))))
        ≡ ok (literal (Option.get_or (os_env name) default), tail)
  unfolding read_env read_call default_val default_arg drop_while
  read_env-call_default i j k l q p name default tail hq hn hp hd =
      rw
        (
          skip_spaces-append i q
              (name
                ++ q
                  ∷ (spaces j
                      ++ b',' ∷ (spaces k ++ p ∷ (default ++ p ∷ (spaces l ++ b')' ∷ tail)))))
              (quote-ne_space q hq),
          hq,
          split_at-append q name
              (spaces j ++ b',' ∷ (spaces k ++ p ∷ (default ++ p ∷ (spaces l ++ b')' ∷ tail)))) hn,
          skip_spaces-append j b',' (spaces k ++ p ∷ (default ++ p ∷ (spaces l ++ b')' ∷ tail)))
              (ground arith),
          skip_spaces-append k p (default ++ p ∷ (spaces l ++ b')' ∷ tail)) (quote-ne_space p hp),
          hp,
          split_at-append p default (spaces l ++ b')' ∷ tail) hd,
          skip_spaces-append l b')' tail (ground arith),
        )
        refl

module _ (os_env : Text → Option Text) where
  expand-piece :
      (p : Piece) (tail : Text)
      → IsPiece p tail
      → expand_env_func os_env (write p tail)
        ≡ (expand_env_func os_env tail >>= λ out. ok (value os_env p ++ out))
  expand-piece (plain a) tail h = run-plain os_env a tail h
  expand-piece (call i j q name) tail h =
      run-env os_env (spaces i ++ q ∷ (name ++ q ∷ (spaces j ++ b')' ∷ tail)))
      ∙ ap (λ m. m >>= λ (t : Text × Text). expand_env_func os_env t.1 >>= λ out. ok (t.0 ++ out))
          (read_env-call os_env i j q name tail h.0 h.1)
  expand-piece (call_default i j k l q p name default) tail h =
      run-env os_env (
        spaces i
        ++ q
          ∷ (name
              ++ q
                ∷ (spaces j
                    ++ b',' ∷ (spaces k ++ p ∷ (default ++ p ∷ (spaces l ++ b')' ∷ tail))))))
      ∙ ap (λ m. m >>= λ (t : Text × Text). expand_env_func os_env t.1 >>= λ out. ok (t.0 ++ out))
          (read_env-call_default os_env i j k l q p name default tail h.0 h.1 h.2 h.3)

expand-value_all :
    (os_env : Text → Option Text) (ps : List Piece)
    → ArePieces ps
    → expand_env_func os_env (write_all ps) ≡ ok (value_all os_env ps)
unfolding expand_env_func expand_loop
expand-value_all os_env [] h = refl
expand-value_all os_env (p ∷ ps) h =
    expand-piece os_env p (write_all ps) h.0
    ∙ ap (λ m. m >>= λ out. ok (value os_env p ++ out)) (expand-value_all os_env ps h.1)

-- A text made of plain text and well-formed calls expands, without a fault, to the plain text with
-- each call replaced by the value of its variable, or of its default where that is unset, in double
-- quotes and with a backslash before each backslash and double quote of it.
pub expand_env_func-pieces :
    (os_env : Text → Option Text) (ps : List Piece)
    → ArePieces ps
    → (out : Text) × (expand_env_func os_env (write_all ps) ≡ ok out) × Expands os_env ps out
expand_env_func-pieces os_env ps h =
    (value_all os_env ps, expand-value_all os_env ps h, value_all-Expands os_env ps)
