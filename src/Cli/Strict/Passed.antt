-- ===== src/Cli/Strict/Passed.antt =====
-- When `validate --strict` passes in the local mode.
use dev.Prelude.{[], ◌∷◌, true, false, ◌≡◌, ◌⊎◌}
use dev.Map.{Map}
use dev.Strings.{split_whitespace}
use dev.Config.{ServiceDef}
use dev.Cli.Strict.{Host, first_word}

-- Each enabled service has its program, and its port, unless it is 0, is free.
abbrev pub Runnable : Host → Map ServiceDef → Type 0
Runnable host [] = Unit
Runnable host ((name, svc) ∷ services) =
    (svc.disabled ≡ false
      → (host.which_binary (first_word (split_whitespace svc.cmd)) ≡ true)
        × ((svc.port ≡ 0) ⊎ (host.port_available svc.port ≡ true)))
    × Runnable host services
