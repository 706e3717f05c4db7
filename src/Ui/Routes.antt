-- ===== src/Ui/Routes.antt =====
-- Which operation a request asks for (the arms of `handle` in src/ui.rs), with the decoding of names.

use dev.Prelude.{
  Text, txt, ℕ, ◌+◌, ◌-◌, ◌*◌, Option, none, some, List, [], ◌∷◌, ◌++◌, Bool, ◌||◌, ◌&&◌, ◌==◌, leb,
  if◌then◌else◌, test, same,
}
use dev.Strings.{strip_prefix}
use dev.Strings.Decimal.{parse_u64, Parsed, parsed, failed}
use dev.Ipc.{bytes}
use dev.Watcher.{contains_text}

-- The value of a hexadecimal digit
abbrev pub hex_value : ℕ → Option ℕ
hex_value c =
    if leb b'0' c && leb c b'9'
    then some (c - b'0')
    else if leb b'a' c && leb c b'f'
    then some (c - b'a' + 10)
    else if leb b'A' c && leb c b'F'
    then some (c - b'A' + 10)
    else none

abbrev pub combine : Option ℕ → Option ℕ → Option ℕ
combine none o = none
combine (some a) none = none
combine (some a) (some b) = some (a * 16 + b)

-- `u8::from_str_radix(hex, 16)` of two bytes; a sign `+` may stand in front.
abbrev pub hex_pair : ℕ → ℕ → Option ℕ
hex_pair a b = if a == b'+' then hex_value b else combine (hex_value a) (hex_value b)

unfoldable pub urldecode_bytes : List ℕ → Text
urldecode_bytes [] = []
urldecode_bytes (c ∷ []) = c ∷ []
urldecode_bytes (c ∷ a ∷ []) = c ∷ a ∷ []
urldecode_bytes (c ∷ a ∷ b ∷ s) =
    let decoded = urldecode_bytes s in
    let rest = urldecode_bytes (a ∷ b ∷ s) in
    if c == b'%' then elim (hex_pair a b) [ none ↦ c ∷ rest | some v ↦ v ∷ decoded ] else c ∷ rest

unfoldable pub urldecode : Text → Text
unfolding urldecode_bytes bytes
urldecode s = urldecode_bytes (bytes s)

-- `query.split('&').find(|p| p.starts_with(name)).map(|p| p[name.len()..])`, from within a part of
-- which `part` has been read
unfoldable pub find_param : Text → Text → Text → Option Text
unfolding strip_prefix
find_param name part [] = strip_prefix name part
find_param name part (c ∷ query) =
    let next = find_param name [] query in
    let more = find_param name (part ++ c ∷ []) query in
    if c == b'&' then elim (strip_prefix name part) [ none ↦ next | some v ↦ some v ] else more

abbrev pub services_of : Option Text → List Text
services_of none = []
services_of (some s) = s ∷ []

pub data Method : Type 0 where
  get post delete : Method
  other : Text → Method

pub record Request : Type 0 where
  pub method : Method
  pub path : Text
  pub query : Text

-- What the handling of a request is; a part of the path is decoded.
pub data Route : Type 0 where
  page status missing : Route
  history stream : (service : Option Text) → Route
  restart stop : (name : Text) → Route
  box_containers : (all : Bool) → Route
  box_images box_networks box_volumes box_info : Route
  box_logs : (id : Text) (tail : ℕ) → Route
  box_stop box_remove box_remove_image box_remove_network box_remove_volume box_pull : Text → Route

abbrev pub is_path : Text → Text → Bool
is_path a b = test (same a b)

-- `.and_then(|p| p.parse::<usize>().ok()).unwrap_or(200)`
abbrev pub parsed_or : Parsed → ℕ → ℕ
parsed_or (parsed n) d = n
parsed_or (failed e) d = d

abbrev pub tail_of : Option Text → ℕ
tail_of none = 200
tail_of (some v) = parsed_or (parse_u64 v) 200

-- An arm `p if p.starts_with(prefix)`, in front of the arms that follow
abbrev pub prefixed : Text → Text → (Text → Route) → Route → Route
prefixed prefix path make next = elim (strip_prefix prefix path) [
  | none ↦ next
  | some rest ↦ make (urldecode rest)
]

unfoldable pub get_route : Text → Text → Route
unfolding strip_prefix urldecode find_param contains_text
get_route path query =
    if is_path path (txt "/") || is_path path (txt "/index.html")
    then page
    else if is_path path (txt "/api/status")
    then status
    else if is_path path (txt "/api/history")
    then history (find_param (txt "service=") [] query)
    else if is_path path (txt "/api/logs")
    then stream (find_param (txt "service=") [] query)
    else if is_path path (txt "/api/box/containers")
    then box_containers (contains_text (txt "all=true") query)
    else if is_path path (txt "/api/box/images")
    then box_images
    else if is_path path (txt "/api/box/networks")
    then box_networks
    else if is_path path (txt "/api/box/volumes")
    then box_volumes
    else if is_path path (txt "/api/box/info")
    then box_info
    else prefixed (txt "/api/box/logs/") path
        (λ id. box_logs id (tail_of (find_param (txt "tail=") [] query))) missing

unfoldable pub post_route : Text → Route
unfolding strip_prefix urldecode
post_route path = prefixed (txt "/api/restart/") path restart (
    prefixed (txt "/api/stop/") path stop (
      prefixed (txt "/api/box/stop/") path box_stop
        (prefixed (txt "/api/box/pull/") path box_pull missing)))

unfoldable pub delete_route : Text → Route
unfolding strip_prefix urldecode
delete_route path = prefixed (txt "/api/box/container/") path box_remove (
    prefixed (txt "/api/box/image/") path box_remove_image (
      prefixed (txt "/api/box/network/") path box_remove_network
        (prefixed (txt "/api/box/volume/") path box_remove_volume missing)))

abbrev pub method_route : Method → Text → Text → Route
method_route get path query = get_route path query
method_route post path query = post_route path
method_route delete path query = delete_route path
method_route (other m) path query = missing

abbrev pub route : Request → Route
route req = method_route req.method req.path req.query
