-- ===== src/Log/Files/Rotation.antt =====
-- What the rotation keeps of the lines, where the flushes succeed.
use mathlib.Core.Option
use dev.Prelude.{Text, ◌≡◌, List, [], ◌∷◌, ◌++◌, true, if◌then◌else◌, test, same}
use dev.Log.Files.{Received, entry, LogFile, file_line}

-- The lines of the service, as the file gets them
unfoldable pub service_text : Text → List Received → Text
service_text service [] = []
service_text service (entry l io ∷ rs) =
    let rest = service_text service rs in
    if test (same l.service service) then file_line l ++ rest else rest
service_text service (r ∷ rs) = service_text service rs

-- What the file and the rotated one hold, the older one first
abbrev pub kept : LogFile → Text
kept f = Option.get_or f.rotated [] ++ f.live

-- The text holds what stands in the two files at its end.
abbrev pub EndsIn : Text → LogFile → Type 0
EndsIn all f = (before : Text) × (all ≡ before ++ kept f)

-- Every flush succeeds.
unfoldable pub Flushes : List Received → Type 0
Flushes [] = Unit
Flushes (entry l io ∷ rs) = (io.flushes ≡ true) × Flushes rs
Flushes (r ∷ rs) = Flushes rs

-- The lines that are written, in their order, stand at the end of the two files; while the task runs
-- none is left out.
pub record Kept (all : Text) (text : Text) (f : LogFile) : Type 0 where
  pub written : Text
  pub rest : Text
  pub splits : text ≡ written ++ rest
  pub ends : EndsIn (all ++ written) f
  pub complete : f.runs ≡ true → rest ≡ []
