-- ===== src/Ipc.antt =====
-- src/ipc.rs: the socket of a project, the requests of the clients and the answers of the daemon.
-- JSON is read and written by a library; requests and answers are values here.
pub mod Server
pub mod Stops
use mathlib.Core.Option
use dev.Prelude.{
  Text, txt, ℕ, zero, suc, ◌+◌, ◌-◌, ◌*◌, ◌/◌, ◌%◌, ◌^◌, Option, none, some, List, [], ◌∷◌, ◌++◌,
  Bool, foldl, ltb, if◌then◌else◌,
}
use dev.Prelude.Counts.{length}
use dev.Strings.{parent, join_path}
use dev.Supervisor.Status.{StatusRow}

pub data IpcRequest : Type 0 where
  status reload : IpcRequest
  stop : (services : List Text) → IpcRequest
  restart : (service : Text) → IpcRequest
  logs : (services : List Text) (follow : Bool) → IpcRequest
  history : (services : List Text) (lines : ℕ) → IpcRequest

pub data IpcResponse : Type 0 where
  status_answer : (rows : List StatusRow) → IpcResponse
  done : IpcResponse
  error : (msg : Text) → IpcResponse
  log_line : (service line : Text) (color_idx : ℕ) → IpcResponse
  reloaded : (started stopped restarted : List Text) → IpcResponse
  stopped_answer : (services : List Text) → IpcResponse

-- The bytes of a code point in UTF-8
unfoldable pub utf8 : ℕ → List ℕ
utf8 c =
    if ltb c 0x80
    then c ∷ []
    else if ltb c 0x800
    then (0xc0 + c / 64) ∷ (0x80 + c % 64) ∷ []
    else if ltb c 0x10000
    then (0xe0 + c / 4096) ∷ (0x80 + c / 64 % 64) ∷ (0x80 + c % 64) ∷ []
    else (0xf0 + c / 262144) ∷ (0x80 + c / 4096 % 64) ∷ (0x80 + c / 64 % 64) ∷ (0x80 + c % 64) ∷ []

-- `s.bytes()`
unfoldable pub bytes : Text → List ℕ
unfolding utf8
bytes [] = []
bytes (c ∷ s) = utf8 c ++ bytes s

-- `h.wrapping_mul(33).wrapping_add(b)` on 64 bits
abbrev pub djb2_step : ℕ → ℕ → ℕ
djb2_step h b = (h * 33 % 2 ^ 64 + b) % 2 ^ 64

unfoldable pub djb2 : List ℕ → ℕ
djb2 bs = foldl djb2_step 5381 bs

abbrev pub hex_digit : ℕ → ℕ
hex_digit d = if ltb d 10 then b'0' + d else b'a' + (d - 10)

-- The last digits of a number in base sixteen, as many as there is fuel
unfoldable pub hex_digits : ℕ → ℕ → Text → Text
hex_digits zero n tail = tail
hex_digits (suc fuel) n tail = hex_digits fuel (n / 16) (hex_digit (n % 16) ∷ tail)

-- `{:08x}` of 32 bits
abbrev pub hex8 : ℕ → Text
hex8 n = hex_digits 8 n []

-- `canonicalize` is `none` where it fails; `temp_dir` is `std::env::temp_dir()`.
unfoldable pub socket_path : (Text → Option Text) → Text → Text → Text
unfolding djb2 bytes hex_digits
socket_path canonicalize temp_dir config_path =
    let dir = Option.get_or (parent config_path) (txt ".") in
    let canonical = Option.get_or (canonicalize dir) dir in
    join_path temp_dir (txt "a3s-" ++ (hex8 (djb2 (bytes canonical) % 2 ^ 32) ++ txt ".sock"))
