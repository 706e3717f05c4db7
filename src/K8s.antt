-- ===== src/K8s.antt =====
-- src/k8s/: the deployment to Kubernetes. The state is the commands that were run and the manifests
-- that were kept; what a command does is a parameter that sees all commands so far, itself the last.
pub mod Client
pub mod Manifest
pub mod Runs
pub mod References
pub mod Runtime
use dev.Prelude.{Text, ℕ, Option, Bool, List, [], ◌∷◌, ◌++◌}
use dev.Error.{ok}
use dev.Map.{Map}
use dev.State.{ℤ}
use dev.Steps.{Steps}
use dev.Config.Load.{FileRead}

-- `Command` with its arguments, its directory, and what is written to its standard input.
pub record Command : Type 0 where
  pub program : Text
  pub args : List Text
  pub dir : Option Text
  pub input : Option Text

pub record Exit : Type 0 where
  pub success : Bool
  pub code : Option ℤ
  pub stdout : Text
  pub stderr : Text

-- How a command ends: it cannot be spawned, its input cannot be written, the wait for it fails, or
-- it exits.
pub data Outcome : Type 0 where
  not_spawned not_written not_waited : Text → Outcome
  exited : Exit → Outcome

pub record Shell : Type 0 where
  pub outcome : List Command → Outcome
  pub read : List Command → Text → FileRead
  -- Base64, of which the code has no source
  pub encode : Text → Text

-- The commands so far, the newest last, and `K8sRuntime::manifests`.
pub record Cluster : Type 0 where
  pub commands : List Command
  pub manifests : Map (List Text)

abbrev pub Deploy {ℓ} : Type ℓ → Type ℓ
Deploy A = Steps Cluster A

unfoldable pub execute : Shell → Command → Deploy Outcome
execute shell c s =
    let commands = s.commands ++ c ∷ [] in
    (ok (shell.outcome commands), record s { commands = commands })

-- A file is read.
abbrev pub read_file : Shell → Text → Deploy FileRead
read_file shell path s = (ok (shell.read s.commands path), s)
