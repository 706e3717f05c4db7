-- ===== src/Config/Placeholders/Segments.antt =====
-- A text as characters and closed placeholders, and what an interpolation is to make of it.
use mathlib.Core.Option
use dev.Prelude.{
  Text, txt, ℕ, ◌≡◌, ◌≢◌, ◌∙◌, inl, inr, sym, ap, Option, none, some, List, [], ◌∷◌, ◌++◌, false,
  Option-cases,
}
use dev.Strings.{strip_prefix, strip_suffix, has_char}
use dev.Strings.Laws.{strip_suffix-append, strip_suffix-some}
use dev.Strings.Decimal.{to_string}
use dev.Map.{Map, get}
use dev.Config.Placeholders.{found_or, find_port}

-- A text as the program reads it: single characters, and closed placeholders `${name}`.
pub data Segment : Type 0 where
  char : ℕ → Segment
  place : Text → Segment

unfoldable pub render : List Segment → Text
render [] = []
render (char c ∷ l) = c ∷ render l
render (place name ∷ l) = txt "${" ++ (name ++ b'}' ∷ render l)

unfoldable pub replace : (Text → Option Text) → List Segment → Text
replace find [] = []
replace find (char c ∷ l) = c ∷ replace find l
replace find (place name ∷ l) = found_or (find name) name ++ replace find l

-- No name holds a `}`, and no single character opens a placeholder with what follows it.
abbrev pub IsReading : List Segment → Text → Type 0
IsReading [] tail = Unit
IsReading (char c ∷ l) tail =
    (strip_prefix (txt "${") (c ∷ (render l ++ tail)) ≡ none) × IsReading l tail
IsReading (place name ∷ l) tail = (has_char b'}' name ≡ false) × IsReading l tail

-- The text that stands for segments, where `Names name o` says what a name stands for: a placeholder
-- becomes the value of its name, or stays as it is if its name has none, and all other characters
-- stay.
pub data IsReplaced (Names : Text → Option Text → Type 0) : List Segment → Text → Type 0 where
  at_end : IsReplaced Names [] []
  same_char :
      {c : ℕ} {l : List Segment} {t : Text}
      → IsReplaced Names l t
      → IsReplaced Names (char c ∷ l) (c ∷ t)
  filled :
      {name value : Text} {l : List Segment} {t : Text}
      → Names name (some value)
      → IsReplaced Names l t
      → IsReplaced Names (place name ∷ l) (value ++ t)
  left_alone :
      {name : Text} {l : List Segment} {t : Text}
      → Names name none
      → IsReplaced Names l t
      → IsReplaced Names (place name ∷ l) ((txt "${" ++ (name ++ txt "}")) ++ t)

-- `<service>.port` names the port of a service, and other texts name nothing.
pub data NamesPort (ports : Map ℕ) : Text → Option Text → Type 0 where
  of_service :
      (service : Text) (port : ℕ)
      → get service ports ≡ some port
      → NamesPort ports (service ++ txt ".port") (some (to_string port))
  no_service :
      (service : Text) → get service ports ≡ none → NamesPort ports (service ++ txt ".port") none
  no_port :
      (expr : Text) → ((service : Text) → expr ≢ service ++ txt ".port") → NamesPort ports expr none

pub find_port-NamesPort :
    (ports : Map ℕ) (expr : Text) → NamesPort ports expr (find_port ports expr)
unfolding find_port
find_port-NamesPort ports expr = elim (Option-cases (strip_suffix (txt ".port") expr)) [
  | inl e ↦
      rw (e, find_port)
        (no_port expr λ service f. some-ne_none (
          sym (strip_suffix-append (txt ".port") service)
          ∙ ap (strip_suffix (txt ".port")) (sym f)
          ∙ e))
  | inr (service, e) ↦
      rw (e, find_port) (of service (strip_suffix-some (txt ".port") expr service e))
]
  where
    some-ne_none : {x : Text} → some x ≢ none
    some-ne_none h = cc

    of :
        (service : Text)
        → expr ≡ service ++ txt ".port"
        → NamesPort ports expr (Option.map to_string (get service ports))
    of service f = elim (Option-cases (get service ports)) [
      | inl g ↦ rw (f, g) (no_service service g)
      | inr (port, g) ↦ rw (f, g) (of_service service port g)
    ]

pub replace-IsReplaced :
    (find : Text → Option Text) (Names : Text → Option Text → Type 0) (l : List Segment)
    → ((name : Text) → Names name (find name))
    → IsReplaced Names l (replace find l)
unfolding replace
replace-IsReplaced find Names [] h = at_end
replace-IsReplaced find Names (char c ∷ l) h = same_char (replace-IsReplaced find Names l h)
replace-IsReplaced find Names (place name ∷ l) h =
    by (find name) (h name) (replace-IsReplaced find Names l h)
  where
    by :
        (o : Option Text)
        → Names name o
        → IsReplaced Names l (replace find l)
        → IsReplaced Names (place name ∷ l) (found_or o name ++ replace find l)
    by none n rest = left_alone n rest
    by (some value) n rest = filled n rest
