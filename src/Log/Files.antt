-- ===== src/Log/Files.antt =====
-- `register_log_file` of src/log.rs: the file of one service and its rotation. What a write, the
-- flush, the renaming and the opening of the next file come to are parameters; a write that fails
-- ends the task and is taken to leave the file as it is. A flush that fails is ignored: it is taken to
-- write nothing, and what the writer holds is lost where the writer is dropped.
pub mod Rotation
use dev.Prelude.{
  Text, ℕ, ◌+◌, Option, none, some, List, [], ◌∷◌, ◌++◌, Bool, true, false, ◌&&◌, not, leb, ltb,
  if◌then◌else◌, test, same,
}
use dev.Prelude.Counts.{length}
use dev.Ipc.{bytes}
use dev.Log.{LogLine}
use dev.Strings.{strip_prefix}

-- What `rx.recv()` gives, with what becomes of the calls that it leads to
pub record Io : Type 0 where
  pub writes : Bool
  pub flushes : Bool
  pub renames : Bool
  pub reopens : Bool

pub data Received : Type 0 where
  entry : LogLine → Io → Received
  lagged closed : Received

-- The file at `path`, what the writer holds for it, the file that it was last renamed to,
-- `bytes_written`, and whether the task still runs.
pub record LogFile : Type 0 where
  pub live : Text
  pub buffered : Text
  pub rotated : Option Text
  pub bytes_written : ℕ
  pub runs : Bool

abbrev pub size : Text → ℕ
size s = length (bytes s)

-- `format!("{}\n", entry.line)`
abbrev pub file_line : LogLine → Text
file_line l = l.line ++ 10 ∷ []

abbrev pub renamed : Bool → LogFile → LogFile
renamed true f = record f { rotated = some f.live; live = [] }
renamed false f = f

abbrev pub reopened : Bool → LogFile → LogFile
reopened true f = record f { buffered = []; bytes_written = 0 }
reopened false f = record f { buffered = []; runs = false }

abbrev pub is_full : ℕ → LogFile → Bool
is_full rotate_bytes f = ltb 0 rotate_bytes && leb rotate_bytes f.bytes_written

abbrev pub rotate : ℕ → Io → LogFile → LogFile
rotate rotate_bytes io f =
    if is_full rotate_bytes f then reopened io.reopens (renamed io.renames f) else f

-- `write_all` and `let _ = writer.flush()`
abbrev pub append_line : LogLine → Bool → LogFile → LogFile
append_line l true f = record f {
  live = f.live ++ (f.buffered ++ file_line l);
  buffered = [];
  bytes_written = f.bytes_written + size (file_line l);
}
append_line l false f = record f {
  buffered = f.buffered ++ file_line l;
  bytes_written = f.bytes_written + size (file_line l);
}

abbrev pub write_line : ℕ → LogLine → Io → LogFile → LogFile
write_line rotate_bytes l io f =
    if io.writes
    then rotate rotate_bytes io (append_line l io.flushes f)
    else record f { runs = false }

-- The loop, from an open file on
unfoldable pub log_loop : Text → ℕ → List Received → LogFile → LogFile
log_loop service rotate_bytes [] f = f
log_loop service rotate_bytes (closed ∷ rs) f = record f { runs = false }
log_loop service rotate_bytes (lagged ∷ rs) f = log_loop service rotate_bytes rs f
log_loop service rotate_bytes (entry l io ∷ rs) f =
    let g = write_line rotate_bytes l io f in
    let next = log_loop service rotate_bytes rs g in
    let rest = log_loop service rotate_bytes rs f in
    if test (same l.service service) then (if g.runs then next else g) else rest

-- The task on a file that holds `old`, in append mode
unfoldable pub register_log_file : Text → ℕ → Text → List Received → LogFile
unfolding log_loop
register_log_file service rotate_bytes old rs =
    log_loop service rotate_bytes rs
      (record { live = old; buffered = []; rotated = none; bytes_written = 0; runs = true })
