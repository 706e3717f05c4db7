-- ===== src/Config/EnvFunc.antt =====
-- `expand_env_func` (src/config.rs): `env("VAR")` and `env("VAR", "default")` in the HCL text. The
-- code walks the bytes of the text; what it looks for is ASCII, so the model walks the characters.
-- A position behind the last byte is the empty rest, and an index there is a fault.
pub mod Laws
pub mod Pieces
pub mod Calls
use mathlib.Core.Option
use dev.Prelude.{
  Text, txt, ℕ, zero, suc, Option, none, some, List, [], ◌∷◌, ◌++◌, Bool, true, false, ◌||◌, ◌==◌,
  if◌then◌else◌,
}
use dev.Prelude.Counts.{length}
use dev.Error.{Result, ok, panic, out_of_bounds, out_of_fuel, ◌>>=◌}
use dev.Strings.{strip_prefix, split_at, drop_while}

abbrev pub is_space : ℕ → Bool
is_space c = c == b' '

abbrev pub is_quote : ℕ → Bool
is_quote c = c == b'"' || c == 39

-- `while i < bytes.len() && bytes[i] == b' ' { i += 1 }`
abbrev pub skip_spaces : Text → Text
skip_spaces = drop_while is_space

-- `bytes[i]`, with what stands behind it
abbrev pub byte_at : Text → Result (ℕ × Text)
byte_at [] = panic out_of_bounds
byte_at (c ∷ s) = ok (c, s)

-- `if i < bytes.len() && bytes[i] == c { i += 1 }`
abbrev pub skip : ℕ → Text → Text
skip c [] = []
skip c (d ∷ s) = if d == c then s else d ∷ s

-- What follows the comma: the default, and the rest.
unfoldable pub default_arg : Text → Result (Text × Text)
default_arg s = do
  (dq, rest) ← byte_at (skip_spaces s)
  if is_quote dq then ok (split_at dq rest) else ok ([], dq ∷ rest)

-- The optional second argument.
unfoldable pub default_val : Text → Result (Text × Text)
default_val [] = ok ([], [])
default_val (c ∷ s) = if c == b',' then default_arg s else ok ([], c ∷ s)

-- `value.replace('\\', "\\\\").replace('"', "\\\"")`
unfoldable pub escape : Text → Text
escape [] = []
escape (c ∷ s) =
    let rest = escape s in
    if c == 92 then 92 ∷ 92 ∷ rest else if c == b'"' then 92 ∷ b'"' ∷ rest else c ∷ rest

abbrev pub literal : Text → Text
literal value = b'"' ∷ (escape value ++ txt "\"")

-- A call behind its opening quote: the text that it becomes, and the rest.
unfoldable pub read_call : (Text → Option Text) → ℕ → Text → Result (Text × Text)
read_call os_env quote s = do
  let (var_name, rest) = split_at quote s
  (default, rest') ← default_val (skip_spaces rest)
  ok (literal (Option.get_or (os_env var_name) default), skip b')' (skip_spaces rest'))

-- What stands at `env(`: the text for it, and the rest. Without a quote behind `env(` the code goes
-- on at what follows the spaces.
unfoldable pub read_env : (Text → Option Text) → Text → Result (Text × Text)
read_env os_env r = do
  (quote, s) ← byte_at (skip_spaces r)
  if is_quote quote then read_call os_env quote s else ok (txt "env(", quote ∷ s)

-- `while i < bytes.len()`
unfoldable pub expand_loop : (Text → Option Text) → ℕ → Text → Result Text
expand_loop os_env fuel [] = ok []
expand_loop os_env zero (c ∷ s) = panic out_of_fuel
expand_loop os_env (suc fuel) (c ∷ s) = elim (strip_prefix (txt "env(") (c ∷ s)) [
  | none ↦ (do out ← expand_loop os_env fuel s; ok (c ∷ out))
  | some r ↦ (do
    (text, rest) ← read_env os_env r
    out ← expand_loop os_env fuel rest
    ok (text ++ out))
]

unfoldable pub expand_env_func : (Text → Option Text) → Text → Result Text
expand_env_func os_env src = expand_loop os_env (length src) src
