-- ===== src/Config/EnvFunc/Pieces.antt =====
-- A configuration text as plain text and calls of `env`, and what `expand_env_func` is to make of it.
use mathlib.Core.Option
use dev.Prelude.{
  Text, txt, ℕ, zero, suc, Option, none, some, List, [], ◌∷◌, ◌++◌, ◌≡◌, arith, true, false, ◌==◌,
  ℕ_discrete, Option-cases, inl, inr,
}
use dev.Strings.{strip_prefix, has_char}
use dev.Config.EnvFunc.{is_quote, escape, literal}

-- No `env(` starts within `a`, with `tail` behind it.
abbrev pub IsPlain : Text → Text → Type 0
IsPlain [] tail = Unit
IsPlain (c ∷ a) tail = (strip_prefix (txt "env(") (c ∷ (a ++ tail)) ≡ none) × IsPlain a tail

abbrev pub spaces : ℕ → Text
spaces zero = []
spaces (suc n) = b' ' ∷ spaces n

-- The text of a call: plain text of the file, `env("name")` or `env("name", "default")`, with any
-- number of spaces in front of each quote and closing parenthesis, and either kind of quote.
pub data Piece : Type 0 where
  plain : Text → Piece
  call : ℕ → ℕ → ℕ → Text → Piece
  call_default : ℕ → ℕ → ℕ → ℕ → ℕ → ℕ → Text → Text → Piece

abbrev pub write : Piece → Text → Text
write (plain a) tail = a ++ tail
write (call i j q name) tail =
    txt "env(" ++ (spaces i ++ q ∷ (name ++ q ∷ (spaces j ++ b')' ∷ tail)))
write (call_default i j k l q p name default) tail =
    txt "env("
    ++ (spaces i
        ++ q
          ∷ (name
              ++ q
                ∷ (spaces j
                    ++ b',' ∷ (spaces k ++ p ∷ (default ++ p ∷ (spaces l ++ b')' ∷ tail))))))

abbrev pub write_all : List Piece → Text
write_all [] = []
write_all (p ∷ ps) = write p (write_all ps)

-- What a piece means: a call is the quoted value of its variable, or its default.
abbrev pub value : (Text → Option Text) → Piece → Text
value os_env (plain a) = a
value os_env (call i j q name) = literal (Option.get_or (os_env name) [])
value os_env (call_default i j k l q p name default) = literal (Option.get_or (os_env name) default)

abbrev pub value_all : (Text → Option Text) → List Piece → Text
value_all os_env [] = []
value_all os_env (p ∷ ps) = value os_env p ++ value_all os_env ps

-- Plain text starts no call, and a quoted text does not hold its quote.
abbrev pub IsPiece : Piece → Text → Type 0
IsPiece (plain a) tail = IsPlain a tail
IsPiece (call i j q name) tail = (is_quote q ≡ true) × (has_char q name ≡ false)
IsPiece (call_default i j k l q p name default) tail =
    (is_quote q ≡ true)
    × (has_char q name ≡ false)
    × (is_quote p ≡ true)
    × (has_char p default ≡ false)

abbrev pub ArePieces : List Piece → Type 0
ArePieces [] = Unit
ArePieces (p ∷ ps) = IsPiece p (write_all ps) × ArePieces ps

-- The text in a literal, with a backslash before each backslash and each double quote
pub data Escapes : Text → Text → Type 0 where
  at_end : Escapes [] []
  backslash : {s t : Text} → Escapes s t → Escapes (92 ∷ s) (92 ∷ 92 ∷ t)
  double_quote : {s t : Text} → Escapes s t → Escapes (b'"' ∷ s) (92 ∷ b'"' ∷ t)
  other_char :
      {c : ℕ} {s t : Text}
      → (c == 92) ≡ false
      → (c == b'"') ≡ false
      → Escapes s t
      → Escapes (c ∷ s) (c ∷ t)

-- What pieces expand to: plain text to itself, a call to the literal of its variable, if that is set,
-- or else of its default, which is empty where the call has none.
pub data Expands (os_env : Text → Option Text) : List Piece → Text → Type 0 where
  no_more : Expands os_env [] []
  as_is :
      {a t : Text} {ps : List Piece} → Expands os_env ps t → Expands os_env (plain a ∷ ps) (a ++ t)
  set_call :
      {i j q : ℕ} {name v e t : Text} {ps : List Piece}
      → os_env name ≡ some v
      → Escapes v e
      → Expands os_env ps t
      → Expands os_env (call i j q name ∷ ps) ((b'"' ∷ (e ++ txt "\"")) ++ t)
  unset_call :
      {i j q : ℕ} {name t : Text} {ps : List Piece}
      → os_env name ≡ none
      → Expands os_env ps t
      → Expands os_env (call i j q name ∷ ps) (txt "\"\"" ++ t)
  set_default :
      {i j k l q p : ℕ} {name default v e t : Text} {ps : List Piece}
      → os_env name ≡ some v
      → Escapes v e
      → Expands os_env ps t
      → Expands os_env (call_default i j k l q p name default ∷ ps) ((b'"' ∷ (e ++ txt "\"")) ++ t)
  unset_default :
      {i j k l q p : ℕ} {name default e t : Text} {ps : List Piece}
      → os_env name ≡ none
      → Escapes default e
      → Expands os_env ps t
      → Expands os_env (call_default i j k l q p name default ∷ ps) ((b'"' ∷ (e ++ txt "\"")) ++ t)

escape-Escapes : (s : Text) → Escapes s (escape s)
unfolding escape
escape-Escapes [] = at_end
escape-Escapes (c ∷ s) = elim (ℕ_discrete c 92) [
  | yes e ↦ rw e (backslash (escape-Escapes s))
  | no e ↦ elim (ℕ_discrete c b'"') [
    | yes f ↦ rw f (double_quote (escape-Escapes s))
    | no f ↦
        let not_slash : (c == 92) ≡ false = ground (arith, e) in
        let not_quote : (c == b'"') ≡ false = ground (arith, f) in
        rw (not_slash, not_quote) (other_char not_slash not_quote (escape-Escapes s))
  ]
]

pub value_all-Expands :
    (os_env : Text → Option Text) (ps : List Piece) → Expands os_env ps (value_all os_env ps)
unfolding escape
value_all-Expands os_env [] = no_more
value_all-Expands os_env (plain a ∷ ps) = as_is (value_all-Expands os_env ps)
value_all-Expands os_env (call i j q name ∷ ps) = elim (Option-cases (os_env name)) [
  | inl e ↦ rw e (unset_call e (value_all-Expands os_env ps))
  | inr (v, e) ↦ rw e (set_call e (escape-Escapes v) (value_all-Expands os_env ps))
]
value_all-Expands os_env (call_default i j k l q p name default ∷ ps) =
    elim (Option-cases (os_env name)) [
      | inl e ↦ rw e (unset_default e (escape-Escapes default) (value_all-Expands os_env ps))
      | inr (v, e) ↦ rw e (set_default e (escape-Escapes v) (value_all-Expands os_env ps))
    ]
