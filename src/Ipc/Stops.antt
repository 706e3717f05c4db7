-- ===== src/Ipc/Stops.antt =====
-- The answer to a request to stop services.
use dev.Prelude.{Text, List, [], ◌∷◌, Bool, true, ◌≡◌, arith}
use dev.Error.{Result, ok, err, panic}
use dev.Supervisor.{Supervisor, after, pure}
use dev.Ipc.{IpcResponse, stop, stopped_answer}
use dev.Ipc.Server.{Daemon, stop_services, answer}

pub answer-stop :
    (d : Daemon) (services names : List Text) (w : Supervisor)
    → (stop_services d services w).0 ≡ ok names
    → answer d (stop services) w
      ≡ (ok (stopped_answer names ∷ [], true), (stop_services d services w).1)
unfolding answer
answer-stop d services names w h = go (stop_services d services w) h
  where
    go :
        (q : Result (List Text) × Supervisor)
        → q.0 ≡ ok names
        → after {B = List IpcResponse × Bool} q (λ n. pure (stopped_answer n ∷ [], true))
          ≡ (ok (stopped_answer names ∷ [], true), q.1)
    go (ok n, w') e = grind (arith, e)
    go (err x, w') e = cc
    go (panic p, w') e = cc
