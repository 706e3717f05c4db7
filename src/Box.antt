-- ===== src/Box.antt =====
-- src/box_mgr.rs: the calls of `a3s-box`, with the commands so far as state; what a command does is
-- the parameter `Shell`. A JSON object in a line is parsed by a library, a parameter.
use dev.Prelude.{
  Text, txt, ℕ, zero, suc, Option, none, some, List, [], ◌∷◌, ◌++◌, map, Bool, not, ◌&&◌, ◌==◌,
  if◌then◌else◌,
}
use dev.Error.{config}
use dev.Strings.{trim, lines, strip_prefix, split_whitespace, split_at, has_char}
use dev.Strings.Decimal.{to_string, parse_u64, Parsed, parsed, failed}
use dev.Prelude.{ltb, ◌^◌}
use dev.Steps.{◌>>=◌, pure, fail, lift}
use dev.K8s.{Shell, Deploy, execute}
use dev.K8s.Client.{command_of, exit_of}
use dev.K8s.Manifest.{is_nil}

pub record BoxNetwork : Type 0 where
  pub name : Text
  pub driver : Text
  pub subnet : Text
  pub gateway : Text
  pub isolation : Text
  pub endpoints : Text

pub record BoxVolume : Type 0 where
  pub driver : Text
  pub name : Text
  pub mount_point : Text
  pub in_use_by : Text

pub record BoxInfo : Type 0 where
  pub version : Text
  pub virtualization : Text
  pub home : Text
  pub boxes_total : ℕ
  pub boxes_running : ℕ
  pub images_cached : Text

unfoldable pub run : Shell → List Text → Deploy Text
unfolding trim
run shell args = do
  o ← execute shell (command_of (txt "a3s-box") args)
  x ← lift (exit_of (txt "failed to run a3s-box") o)
  if not x.success && is_nil (trim x.stdout)
      then fail (config (txt "a3s-box error: " ++ x.stderr))
      else pure x.stdout

-- `if let Ok(c) = from_str(line) { result.push(c) }` for the lines that are not empty
unfoldable pub parsed_lines {ℓ} : {A : Type ℓ} → (Text → Option A) → List Text → List A
unfolding trim
parsed_lines parse [] = []
parsed_lines parse (line ∷ ls) =
    let rest = parsed_lines parse ls in
    if is_nil (trim line)
    then rest
    else elim (parse (trim line)) [ none ↦ rest | some c ↦ c ∷ rest ]

abbrev pub json_lines {ℓ} : {A : Type ℓ} → (Text → Option A) → Text → List A
json_lines parse out = if is_nil (trim out) then [] else parsed_lines parse (lines out)

unfoldable pub list_containers {ℓ} :
    {A : Type ℓ} → Shell → (Text → Option A) → Bool → Deploy (List A)
unfolding run parsed_lines
list_containers shell parse all = do
  out ← run shell (txt "ps" ∷ txt "--format" ∷ txt "json" ∷ (if all then txt "-a" ∷ [] else []))
  pure (json_lines parse out)

unfoldable pub list_images {ℓ} : {A : Type ℓ} → Shell → (Text → Option A) → Deploy (List A)
unfolding run parsed_lines
list_images shell parse = do
  out ← run shell (txt "images" ∷ txt "--format" ∷ txt "json" ∷ [])
  pure (json_lines parse out)

-- `s.splitn(n, "  ")`, for `n` pieces at least one, from within a piece of which `piece` was read
unfoldable pub split_spaces : ℕ → Text → Text → List Text
split_spaces n piece [] = piece ∷ []
split_spaces zero piece (c ∷ s) = (piece ++ c ∷ s) ∷ []
split_spaces (suc n) piece (c ∷ []) = (piece ++ c ∷ []) ∷ []
split_spaces (suc n) piece (c ∷ d ∷ s) =
    let next = split_spaces n [] s in
    let more = split_spaces (suc n) (piece ++ c ∷ []) (d ∷ s) in
    if c == 32 && d == 32 then piece ∷ next else more

abbrev pub push_column : Text → List Text → List Text
push_column [] columns = columns
push_column (c ∷ column) columns = (c ∷ column) ∷ columns

unfoldable pub columns_of : List Text → List Text
unfolding trim
columns_of [] = []
columns_of (piece ∷ pieces) = push_column (trim piece) (columns_of pieces)

unfoldable pub rows_of : List Text → List (List Text)
unfolding trim split_spaces columns_of
rows_of [] = []
rows_of (line ∷ ls) =
    let rest = rows_of ls in
    if is_nil (trim line) then rest else columns_of (split_spaces 19 [] (trim line)) ∷ rest

-- The header is the first line.
abbrev pub table_rows : List Text → List (List Text)
table_rows [] = []
table_rows (header ∷ ls) = rows_of ls

abbrev pub parse_table : Text → List (List Text)
parse_table text = table_rows (lines text)

-- `cols.get(i).cloned().unwrap_or_default()`
unfoldable pub column : ℕ → List Text → Text
column i [] = []
column zero (c ∷ cols) = c
column (suc i) (c ∷ cols) = column i cols

abbrev pub network_of : List Text → BoxNetwork
network_of cols = record {
  name = column 0 cols;
  driver = column 1 cols;
  subnet = column 2 cols;
  gateway = column 3 cols;
  isolation = column 4 cols;
  endpoints = column 5 cols;
}

abbrev pub volume_of : List Text → BoxVolume
volume_of cols = record {
  driver = column 0 cols;
  name = column 1 cols;
  mount_point = column 2 cols;
  in_use_by = column 3 cols;
}

unfoldable pub list_networks : Shell → Deploy (List BoxNetwork)
unfolding run rows_of column
list_networks shell = do
  out ← run shell (txt "network" ∷ txt "ls" ∷ [])
  pure (map network_of (parse_table out))

unfoldable pub list_volumes : Shell → Deploy (List BoxVolume)
unfolding run rows_of column
list_volumes shell = do
  out ← run shell (txt "volume" ∷ txt "ls" ∷ [])
  pure (map volume_of (parse_table out))

-- `.split_whitespace().next().and_then(|n| n.parse::<u32>().ok()).unwrap_or(0)`
abbrev pub u32_or_zero : Parsed → ℕ
u32_or_zero (parsed n) = if ltb n (2 ^ 32) then n else 0
u32_or_zero (failed e) = 0

abbrev pub first_number : List Text → ℕ
first_number [] = 0
first_number (w ∷ ws) = u32_or_zero (parse_u64 w)

-- `1 total, 0 running`: the part behind the first comma ends at the next one.
abbrev pub with_boxes : Text → BoxInfo → BoxInfo
with_boxes v info = record info {
  boxes_total = first_number (split_whitespace (split_at b',' v).0);
  boxes_running =
      if has_char b',' v
      then first_number (split_whitespace (split_at b',' (split_at b',' v).1).0)
      else info.boxes_running;
}

-- The first of the prefixes that the line has, with what is made of the rest
unfoldable pub info_line : BoxInfo → Text → BoxInfo
unfolding strip_prefix trim
info_line info line = elim (strip_prefix (txt "a3s-box version ") line) [
  | some v ↦ record info { version = trim v }
  | none ↦ elim (strip_prefix (txt "Virtualization: ") line) [
    | some v ↦ record info { virtualization = trim v }
    | none ↦ elim (strip_prefix (txt "Home directory: ") line) [
      | some v ↦ record info { home = trim v }
      | none ↦ elim (strip_prefix (txt "Boxes: ") line) [
        | some v ↦ with_boxes v info
        | none ↦ elim (strip_prefix (txt "Images: ") line) [
          | some v ↦ record info { images_cached = trim v }
          | none ↦ info
        ]
      ]
    ]
  ]
]

unfoldable pub info_lines : BoxInfo → List Text → BoxInfo
unfolding info_line
info_lines info [] = info
info_lines info (line ∷ ls) = info_lines (info_line info (trim line)) ls

abbrev pub no_info : BoxInfo
no_info = record {
  version = [];
  virtualization = [];
  home = [];
  boxes_total = 0;
  boxes_running = 0;
  images_cached = [];
}

unfoldable pub get_info : Shell → Deploy BoxInfo
unfolding run info_lines
get_info shell = do out ← run shell (txt "info" ∷ []); pure (info_lines no_info (lines out))

abbrev pub container_logs : Shell → Text → ℕ → Deploy Text
container_logs shell id tail = run shell (txt "logs" ∷ id ∷ txt "--tail" ∷ to_string tail ∷ [])

abbrev pub run_only : Shell → List Text → Deploy (Unit {0})
run_only shell args = do out ← run shell args; pure tt

abbrev pub stop_container : Shell → Text → Deploy (Unit {0})
stop_container shell id = run_only shell (txt "stop" ∷ id ∷ [])

abbrev pub remove_container : Shell → Text → Deploy (Unit {0})
remove_container shell id = run_only shell (txt "rm" ∷ txt "-f" ∷ id ∷ [])

abbrev pub remove_image : Shell → Text → Deploy (Unit {0})
remove_image shell reference = run_only shell (txt "rmi" ∷ reference ∷ [])

abbrev pub remove_network : Shell → Text → Deploy (Unit {0})
remove_network shell name = run_only shell (txt "network" ∷ txt "rm" ∷ name ∷ [])

abbrev pub remove_volume : Shell → Text → Deploy (Unit {0})
remove_volume shell name = run_only shell (txt "volume" ∷ txt "rm" ∷ name ∷ [])

abbrev pub pull_image : Shell → Text → Deploy (Unit {0})
pull_image shell reference = run_only shell (txt "pull" ∷ reference ∷ [])
