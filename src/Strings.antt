-- ===== src/Strings.antt =====
-- The functions of Rust's `str` and `String` that the program uses, over lists of code points.
pub mod Decimal
pub mod Laws
use dev.Prelude.{
  Text, txt, same, ℕ, zero, suc, ◌+◌, ◌*◌, ◌-◌, ◌/◌, ◌%◌, ◌^◌, Option, none, some, List, [], ◌∷◌,
  ◌++◌, Bool, true, false, not, ite, ltb, leb, ◌==◌, ◌&&◌, ◌||◌, if◌then◌else◌,
}
use mathlib.Core.List.{reverse}

-- `s.strip_prefix(p)`
unfoldable pub strip_prefix : Text → Text → Option Text
strip_prefix [] s = some s
strip_prefix (c ∷ p) [] = none
strip_prefix (c ∷ p) (d ∷ s) = if c == d then strip_prefix p s else none

abbrev pub push_front : ℕ → Option Text → Option Text
push_front c none = none
push_front c (some s) = some (c ∷ s)

-- `s.strip_suffix(p)`
unfoldable pub strip_suffix : Text → Text → Option Text
strip_suffix p [] = ite (same [] p) (some []) none
strip_suffix p (c ∷ s) =
    let rest = strip_suffix p s in ite (same (c ∷ s) p) (some []) (push_front c rest)

-- `char::is_whitespace`, the property White_Space of Unicode.
unfoldable pub is_whitespace : ℕ → Bool
is_whitespace c =
    leb 9 c && leb c 13
    || c == 32
    || c == 0x85
    || c == 0xa0
    || c == 0x1680
    || leb 0x2000 c && leb c 0x200a
    || c == 0x2028
    || c == 0x2029
    || c == 0x202f
    || c == 0x205f
    || c == 0x3000

-- `s.trim_start_matches(f)`
unfoldable pub drop_while : (ℕ → Bool) → Text → Text
drop_while f [] = []
drop_while f (c ∷ s) = let rest = drop_while f s in if f c then rest else c ∷ s

-- `s.trim_matches(f)`
unfoldable pub trim_matches : (ℕ → Bool) → Text → Text
unfolding drop_while
trim_matches f s = reverse (drop_while f (reverse (drop_while f s)))

-- `s.trim()`
unfoldable pub trim : Text → Text
unfolding trim_matches is_whitespace
trim = trim_matches is_whitespace

-- What stands before the first `c`, and what stands behind it; without a `c`, all and nothing.
unfoldable pub split_at : ℕ → Text → Text × Text
split_at c [] = ([], [])
split_at c (d ∷ s) = let (a, b) = split_at c s in if d == c then ([], s) else (d ∷ a, b)

-- `s.contains(c)` for a character
unfoldable pub has_char : ℕ → Text → Bool
has_char c [] = false
has_char c (d ∷ s) = d == c || has_char c s

-- `s.split_once(c)`
unfoldable pub split_once : ℕ → Text → Option (Text × Text)
unfolding split_at has_char
split_once c s = if has_char c s then some (split_at c s) else none

-- `base.join(path)`, where an absolute path stays
unfoldable pub join_path : Text → Text → Text
join_path base [] = base ++ txt "/"
join_path base (c ∷ path) = if c == b'/' then c ∷ path else base ++ (txt "/" ++ c ∷ path)

-- A reversed path without the separators and the `.` components at its end.
unfoldable pub skip_back : Text → Text
skip_back [] = []
skip_back (c ∷ []) = if c == b'/' then [] else c ∷ []
skip_back (c ∷ d ∷ s) =
    let rest = skip_back (d ∷ s) in if c == b'/' || c == b'.' && d == b'/' then rest else c ∷ d ∷ s

unfoldable pub is_absolute : Text → Bool
is_absolute [] = false
is_absolute (c ∷ path) = c == b'/'

abbrev pub parent_from : Text → Text → Option Text
parent_from path [] = none
parent_from path (c ∷ back) =
    let rest = skip_back (drop_while (λ d. not (d == b'/')) (c ∷ back)) in
    some (elim rest [ [] ↦ if is_absolute path then txt "/" else [] | d ∷ ds ↦ reverse (d ∷ ds) ])

-- `path.parent()`, for a path without `..` at its end
unfoldable pub parent : Text → Option Text
unfolding skip_back drop_while is_absolute
parent path = parent_from path (skip_back (reverse path))

-- A line without the carriage return at its end.
abbrev pub without_cr : Text → Text
without_cr line = elim (strip_suffix (13 ∷ []) line) [ none ↦ line | some l ↦ l ]

-- `s.lines()`, from within a line of which `line` has been read: after the last line feed there is
-- a line only if it holds something.
unfoldable pub lines_from : Text → Text → List Text
lines_from [] [] = []
lines_from (c ∷ line) [] = (c ∷ line) ∷ []
lines_from line (c ∷ s) =
    let next = lines_from [] s in
    let more = lines_from (line ++ c ∷ []) s in if c == 10 then without_cr line ∷ next else more

unfoldable pub lines : Text → List Text
unfolding lines_from
lines s = lines_from [] s

-- The pieces of a `format!` in a row
unfoldable pub concat : List Text → Text
concat [] = []
concat (piece ∷ pieces) = piece ++ concat pieces

-- `s.split_whitespace()`, from within a word of which `word` has been read
abbrev pub push_word : Text → List Text → List Text
push_word [] ws = ws
push_word (c ∷ word) ws = (c ∷ word) ∷ ws

unfoldable pub words_from : Text → Text → List Text
unfolding is_whitespace
words_from word [] = push_word word []
words_from word (c ∷ s) =
    let next = words_from [] s in
    let more = words_from (word ++ c ∷ []) s in
    if is_whitespace c then push_word word next else more

unfoldable pub split_whitespace : Text → List Text
unfolding words_from
split_whitespace s = words_from [] s
