-- ===== src/Cli/Waits.antt =====
-- `wait_for_healthy` of src/main.rs: the two loops of `up --detach --wait`. What a turn finds is a
-- parameter: the time in milliseconds, whether the socket is there, and the daemon's answer.
pub mod Settled
use dev.Prelude.{
  Text, txt, ℕ, zero, suc, ◌+◌, ◌*◌, Bool, true, false, ◌||◌, ◌&&◌, leb, test, same, List, [], ◌∷◌,
  if◌then◌else◌,
}
use dev.Error.{Result, ok, err, panic, config, out_of_fuel, ◌>>=◌}
use dev.Supervisor.Status.{StatusRow}
use dev.Ipc.{IpcResponse, status_answer, done, error, log_line, reloaded, stopped_answer}

pub record Daemon : Type 0 where
  pub now : ℕ → ℕ
  pub exists : ℕ → Bool
  pub ask : ℕ → Result IpcResponse

abbrev pub is_state : StatusRow → Text → Bool
is_state row state = test (same row.state state)

-- `rows.iter().any(|r| r.state == "failed")`
unfoldable pub any_failed : List StatusRow → Bool
any_failed [] = false
any_failed (row ∷ rows) = is_state row (txt "failed") || any_failed rows

unfoldable pub all_settled : List StatusRow → Bool
all_settled [] = true
all_settled (row ∷ rows) =
    (is_state row (txt "running") || is_state row (txt "stopped") || is_state row (txt "failed"))
    && all_settled rows

-- The turns of the first loop from turn `k` on; the result is the turn at which the second begins.
unfoldable pub wait_socket : Daemon → ℕ → ℕ → ℕ → Result ℕ
wait_socket d deadline zero k = panic out_of_fuel
wait_socket d deadline (suc fuel) k =
    let rest = wait_socket d deadline fuel (suc k) in
    if d.exists k
    then ok k
    else if leb deadline (d.now k)
    then err (config (txt "timeout: daemon did not start in time"))
    else rest

-- What an answer settles: an end of the loop, or another turn.
abbrev pub settle : List StatusRow → Result (Unit {0}) → Result (Unit {0})
settle rows rest =
    if any_failed rows
    then err (config (txt "one or more services failed to start"))
    else if all_settled rows
    then ok tt
    else rest

abbrev pub judge : Result IpcResponse → Result (Unit {0}) → Result (Unit {0})
judge (ok (status_answer rows)) rest = settle rows rest
judge (ok done) rest = rest
judge (ok (error msg)) rest = rest
judge (ok (log_line service line color_idx)) rest = rest
judge (ok (reloaded started stopped restarted)) rest = rest
judge (ok (stopped_answer services)) rest = rest
judge (err e) rest = rest
judge (panic p) rest = panic p

unfoldable pub wait_settled : Daemon → ℕ → ℕ → ℕ → Result (Unit {0})
unfolding any_failed all_settled
wait_settled d deadline zero k = panic out_of_fuel
wait_settled d deadline (suc fuel) k =
    let rest = wait_settled d deadline fuel (suc k) in
    if leb deadline (d.now k)
    then err (config (txt "timeout: services did not become healthy in time"))
    else judge (d.ask k) rest

-- The fuel bounds the turns of each loop.
unfoldable pub wait_for_healthy : Daemon → ℕ → ℕ → Result (Unit {0})
unfolding wait_socket wait_settled
wait_for_healthy d fuel timeout_secs =
    let deadline = d.now 0 + timeout_secs * 1000 in
    wait_socket d deadline fuel 0 >>= wait_settled d deadline fuel
