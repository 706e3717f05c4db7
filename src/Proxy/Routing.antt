-- ===== src/Proxy/Routing.antt =====
-- The routing of requests as replay of the updates.
use mathlib.Core.Option
use dev.Prelude.{
  Text, txt, ℕ, ◌≡◌, ◌∙◌, refl, sym, subst, Option, none, some, List, [], ◌∷◌, ◌++◌, false, same,
  ite, arith, ◌||◌,
}
use dev.Map.{Map, get, or_else}
use dev.Map.Laws.{or_else-none, get-insert}
use dev.Strings.{split_at, has_char}
use dev.Strings.Laws.{strip_suffix-append}
use dev.Strings.Decimal.{to_string}
use dev.Proxy.{
  update, Request, Upstream, Response, Reached, malformed, unreached, answered, host_subdomain,
  relay, forward_body, forward, handle,
}

-- The abstract table: the port that the latest update of the subdomain names.
unfoldable pub latest : Text → List (Text × ℕ) → Option ℕ
latest subdomain [] = none
latest subdomain ((s, port) ∷ updates) =
    or_else (latest subdomain updates) (ite (same s subdomain) (some port) none)

abbrev pub after_updates : List (Text × ℕ) → Map ℕ → Map ℕ
after_updates [] routes = routes
after_updates ((s, port) ∷ updates) routes = after_updates updates (update routes s port)

get-after_updates :
    (updates : List (Text × ℕ)) (routes : Map ℕ) (s : Text)
    → get s (after_updates updates routes) ≡ or_else (latest s updates) (get s routes)
unfolding latest update
get-after_updates [] routes s = refl
get-after_updates ((k, port) ∷ updates) routes s =
    ground (arith, get-after_updates updates (update routes k port) s, get-insert k s port routes)

split_at-append : (c : ℕ) (a b : Text) → has_char c a ≡ false → (split_at c (a ++ c ∷ b)).0 ≡ a
unfolding split_at has_char
split_at-append c [] b h = ground arith
split_at-append c (d ∷ a) b h = grind (arith, split_at-append c a b)

split_at-none : (c : ℕ) (a : Text) → has_char c a ≡ false → (split_at c a).0 ≡ a
unfolding split_at has_char
split_at-none c [] h = refl
split_at-none c (d ∷ a) h = grind (arith, split_at-none c a)

has_char-append : (c : ℕ) (a b : Text) → has_char c (a ++ b) ≡ has_char c a || has_char c b
unfolding has_char
has_char-append c [] b = refl
has_char-append c (d ∷ a) b = ground (arith, has_char-append c a b)

-- The Host header for a subdomain, with a port or without
pub data NamesHost (subdomain : Text) (host : Text) : Type 0 where
  bare : host ≡ subdomain ++ txt ".localhost" → NamesHost subdomain host
  with_port :
      (port : Text)
      → host ≡ (subdomain ++ txt ".localhost") ++ b':' ∷ port
      → NamesHost subdomain host

local_name :
    (subdomain : Text)
    → has_char b':' subdomain ≡ false
    → has_char b':' (subdomain ++ txt ".localhost") ≡ false
unfolding has_char
local_name subdomain h = has_char-append b':' subdomain (txt ".localhost") ∙ rw h refl

host_subdomain-NamesHost :
    (subdomain host : Text)
    → has_char b':' subdomain ≡ false
    → NamesHost subdomain host
    → host_subdomain (some host) ≡ subdomain
unfolding host_subdomain
host_subdomain-NamesHost subdomain host h (bare e) =
    rw
      (
        e,
        split_at-none b':' (subdomain ++ txt ".localhost") (local_name subdomain h),
        strip_suffix-append (txt ".localhost") subdomain,
      )
      refl
host_subdomain-NamesHost subdomain host h (with_port port e) =
    rw
      (
        e,
        split_at-append b':' (subdomain ++ txt ".localhost") port (local_name subdomain h),
        strip_suffix-append (txt ".localhost") subdomain,
      )
      refl

-- What is sent to a port of the own machine for a request: its method, path, headers and body.
abbrev pub sent : Request → ℕ → Text → Upstream
sent req port body = record {
  method = req.method;
  uri = txt "http://127.0.0.1:" ++ (to_string port ++ Option.get_or req.path_and_query (txt "/"));
  headers = req.headers;
  body = body;
}

-- The answer to a request for a subdomain with or without a port: the one of the service at that
-- port, or the failure to get it.
pub data IsAnswer (send : Upstream → Reached) (req : Request) (subdomain : Text)
    : Option ℕ → Response → Type 0 where
  no_port : IsAnswer send req subdomain none (record {
    status = 404;
    headers = [];
    body = txt "no route for '" ++ (subdomain ++ txt ".localhost'");
  })
  unread :
      (port : ℕ)
      → req.body ≡ none
      → IsAnswer send req subdomain
          (some port)
          (record { status = 502; headers = []; body = txt "failed to read request body" })
  was_malformed :
      (port : ℕ) (body e : Text)
      → req.body ≡ some body
      → send (sent req port body) ≡ malformed e
      → IsAnswer send req subdomain (some port) (record { status = 500; headers = []; body = e })
  was_unreached :
      (port : ℕ) (body e : Text)
      → req.body ≡ some body
      → send (sent req port body) ≡ unreached e
      → IsAnswer send req subdomain (some port) (record { status = 502; headers = []; body = e })
  was_answered :
      (port : ℕ) (body : Text) (status : ℕ) (headers : List (Text × Text)) (reply : Option Text)
      → req.body ≡ some body
      → send (sent req port body) ≡ answered status headers reply
      → IsAnswer send req subdomain
          (some port)
          (record { status = status; headers = headers; body = Option.get_or reply [] })

forward-IsAnswer :
    (send : Upstream → Reached) (req : Request) (subdomain : Text) (o : Option ℕ)
    → IsAnswer send req subdomain o (forward send req subdomain o)
forward-IsAnswer send req subdomain none = no_port
forward-IsAnswer send req subdomain (some port) = with_body req.body refl
  where
    relayed :
        (body : Text)
        → req.body ≡ some body
        → (r : Reached) → send (sent req port body) ≡ r
        → IsAnswer send req subdomain (some port) (relay r)
    relayed body e (malformed x) f = was_malformed port body x e f
    relayed body e (unreached x) f = was_unreached port body x e f
    relayed body e (answered status headers reply) f =
        was_answered port body status headers reply e f

    with_body :
        (b : Option Text)
        → req.body ≡ b
        → IsAnswer send req subdomain (some port) (forward_body send req port b)
    with_body none e = unread port e
    with_body (some body) e = relayed body e (send (sent req port body)) refl

handle-forward :
    (send : Upstream → Reached) (updates : List (Text × ℕ)) (req : Request) (subdomain host : Text)
    → req.host ≡ some host
    → has_char b':' subdomain ≡ false
    → NamesHost subdomain host
    → handle send (after_updates updates []) req
      ≡ forward send req subdomain (latest subdomain updates)
unfolding handle
handle-forward send updates req subdomain host e h n =
    rw
      (
        e,
        host_subdomain-NamesHost subdomain host h n,
        get-after_updates updates [] subdomain,
        or_else-none (latest subdomain updates),
      )
      refl

-- After any updates of an empty table, a request whose Host header is `<subdomain>.localhost`, with
-- a port behind it or without, is sent to the port that the latest update of the subdomain named, on
-- the own machine with its method, path, headers and body, and is answered as the service there
-- answers, or with status 500 or 502 where that fails; where no update named the subdomain, the
-- answer is the missing route with status 404.
pub handle-latest :
    (send : Upstream → Reached) (updates : List (Text × ℕ)) (req : Request) (subdomain host : Text)
    → req.host ≡ some host
    → has_char b':' subdomain ≡ false
    → NamesHost subdomain host
    → IsAnswer send req subdomain
        (latest subdomain updates)
        (handle send (after_updates updates []) req)
handle-latest send updates req subdomain host e h n =
    subst (IsAnswer send req subdomain (latest subdomain updates))
      (sym (handle-forward send updates req subdomain host e h n))
      (forward-IsAnswer send req subdomain (latest subdomain updates))
