-- ===== src/Tests/Configs.antt =====
-- The theorems of src/config.rs at small inputs.
use dev.Prelude.{
  Text, same, ite, txt, ◌++◌, Option, none, some, List, [], ◌∷◌, ◌≡◌, ◌↔◌, refl, arith,
}
use dev.Error.{ok, panic, out_of_bounds, ◌>>=◌}
use dev.Strings.{has_char, strip_prefix}
use dev.Strings.Decimal.{to_string}
use dev.Config.{from_secs}
use dev.Config.Validate.{validate}
use dev.Config.Validate.Laws.{PortsDistinct, DepsAvailable, validate-ok}
use dev.Config.Durations.{duration, parse_duration, parse_duration-print}
use dev.Config.Placeholders.{interpolate_env_vars, interpolate_service_ports}
use dev.Config.Placeholders.Segments.{Segment, char, place, IsReplaced, NamesPort, render, replace}
use dev.Config.Placeholders.Laws.{interpolation-closed, interpolation-unclosed}
use dev.Config.EnvFunc.{expand_env_func}
use dev.Config.EnvFunc.Pieces.{Piece, Expands, plain, call, call_default, write_all, spaces}
use dev.Config.EnvFunc.Calls.{
  expand_env_func-pieces, expand_env_func_panics, expand_env_func-no_quote,
}
use dev.Tests.{shop, shop_services}

validate-ok_example :
    (validate shop ≡ ok tt)
    ↔ (PortsDistinct shop_services × DepsAvailable shop_services shop_services)
validate-ok_example = validate-ok shop

parse_duration-print_example :
    (parse_duration (to_string 250 ++ txt "ms") ≡ duration 250)
    × (parse_duration (to_string 250 ++ txt "s") ≡ duration (from_secs 250))
parse_duration-print_example = parse_duration-print 250 (ground arith)

abbrev only_home : Text → Option Text
only_home name = ite (same name (txt "home")) (some (txt "/root")) none

abbrev home_path : List Segment
home_path = place (txt "home") ∷ char 47 ∷ place (txt "db.port") ∷ []

interpolation-closed_example :
    IsReplaced
      (λ name o. only_home name ≡ o)
      home_path
      (interpolate_env_vars only_home (render home_path))
    × IsReplaced
        (NamesPort ((txt "db", 5432) ∷ []))
        home_path
        (interpolate_service_ports ((txt "db", 5432) ∷ []) (render home_path))
interpolation-closed_example =
    interpolation-closed only_home ((txt "db", 5432) ∷ []) home_path
      (unfold render has_char strip_prefix in (refl, (refl, (refl, tt))))

interpolation-unclosed_example :
    interpolate_env_vars only_home (render home_path ++ (txt "${" ++ txt "x"))
    ≡ replace only_home home_path ++ (txt "${" ++ (txt "x" ++ txt "}"))
interpolation-unclosed_example =
    interpolation-unclosed only_home home_path (txt "x")
      (unfold render has_char strip_prefix in (refl, (refl, (refl, tt)))) (unfold has_char in refl)
      (unfold same in refl)

abbrev pieces : List Piece
pieces =
    plain (txt "a ")
    ∷ call 1 0 39 (txt "home")
    ∷ call_default 0 2 1 0 b'"' 39 (txt "X") (txt "y")
    ∷ []

expand_env_func-pieces_example :
    (out : Text) × (expand_env_func only_home (write_all pieces) ≡ ok out)
    × Expands only_home pieces out
expand_env_func-pieces_example = expand_env_func-pieces only_home pieces (
    unfold strip_prefix has_char in
    ((refl, (refl, tt)), ((refl, refl), ((refl, refl, refl, refl), tt))))

expand_env_func_panics_example :
    expand_env_func only_home (txt "a" ++ (txt "env(" ++ spaces 2)) ≡ panic out_of_bounds
expand_env_func_panics_example =
    expand_env_func_panics only_home (txt "a") 2 (unfold strip_prefix in (refl, tt))

expand_env_func-no_quote_example :
    expand_env_func only_home (txt "env(" ++ (spaces 1 ++ 88 ∷ txt ")"))
    ≡ (expand_env_func only_home (88 ∷ txt ")") >>= λ out. ok (txt "env(" ++ out))
expand_env_func-no_quote_example =
    expand_env_func-no_quote only_home 1 88 (txt ")") (ground arith) refl
