-- ===== src/Proxy.antt =====
-- src/proxy.rs: the table of routes and the handling of one request. The HTTP library is not modelled:
-- what the request's body and the upstream give are parameters.
pub mod Routing
use mathlib.Core.Option
use dev.Prelude.{Text, txt, ℕ, Option, none, some, List, [], ◌∷◌, ◌++◌, foldl}
use dev.Map.{Map, get, insert}
use dev.Strings.{split_at, strip_suffix}
use dev.Strings.Decimal.{to_string}

-- `ProxyRouter::update`
unfoldable pub update : Map ℕ → Text → ℕ → Map ℕ
update routes subdomain port = insert subdomain port routes

-- The part of a request that the handling reads. `host` is `none` without a readable Host header,
-- `body` without a readable body.
pub record Request : Type 0 where
  pub host : Option Text
  pub method : Text
  pub path_and_query : Option Text
  pub headers : List (Text × Text)
  pub body : Option Text

pub record Upstream : Type 0 where
  pub method : Text
  pub uri : Text
  pub headers : List (Text × Text)
  pub body : Text

pub record Response : Type 0 where
  pub status : ℕ
  pub headers : List (Text × Text)
  pub body : Text

-- `upstream_req.body(..)` and `client.request(..)`: the request is malformed, the upstream is not
-- reached, or it answers; an unreadable body of the answer is empty.
pub data Reached : Type 0 where
  malformed unreached : Text → Reached
  answered : (status : ℕ) (headers : List (Text × Text)) (body : Option Text) → Reached

unfoldable pub host_subdomain : Option Text → Text
unfolding split_at strip_suffix
host_subdomain host =
    Option.get_or (strip_suffix (txt ".localhost") (split_at b':' (Option.get_or host [])).0) []

abbrev pub plain : ℕ → Text → Response
plain status body = record { status = status; headers = []; body = body }

abbrev pub no_route : Text → Response
no_route subdomain = plain 404 (txt "no route for '" ++ (subdomain ++ txt ".localhost'"))

abbrev pub upstream_uri : ℕ → Option Text → Text
upstream_uri port path_and_query =
    txt "http://127.0.0.1:" ++ (to_string port ++ Option.get_or path_and_query (txt "/"))

abbrev pub relay : Reached → Response
relay (malformed e) = plain 500 e
relay (unreached e) = plain 502 e
relay (answered status headers body) = record {
  status = status;
  headers = headers;
  body = Option.get_or body [];
}

abbrev pub forward_body : (Upstream → Reached) → Request → ℕ → Option Text → Response
forward_body send req port none = plain 502 (txt "failed to read request body")
forward_body send req port (some body) = relay (
    send (record {
      method = req.method;
      uri = upstream_uri port req.path_and_query;
      headers = req.headers;
      body = body;
    }))

abbrev pub forward : (Upstream → Reached) → Request → Text → Option ℕ → Response
forward send req subdomain none = no_route subdomain
forward send req subdomain (some port) = forward_body send req port req.body

unfoldable pub handle : (Upstream → Reached) → Map ℕ → Request → Response
unfolding host_subdomain get
handle send routes req =
    let subdomain = host_subdomain req.host in forward send req subdomain (get subdomain routes)
