-- ===== src/Gateway/Proxy.antt =====
-- services/gateway/src/proxy.ts: the headers that cross the proxy, and how an upstream failure is told
-- to the client. Sockets and streams are not modelled.
use finlytic_ecosystem.Prelude.{
  ℕ, ◌≡◌, refl, Bool, ◌||◌, Option, none, some, List, [], ◌∷◌, if◌then◌else◌, or_else, any, arith,
}
use finlytic_ecosystem.Prelude.Text.{Text, codes, text_eq, text_eq_iff}

-- Header names with their values, `none` for undefined. A value of several is one list of texts.
abbrev pub Headers : Type 0
Headers = List (Text × List Text)

abbrev pub IncomingHeaders : Type 0
IncomingHeaders = List (Text × Option (List Text))

abbrev pub hop_by_hop : List Text
hop_by_hop =
    codes "connection"
    ∷ codes "keep-alive"
    ∷ codes "proxy-authenticate"
    ∷ codes "proxy-authorization"
    ∷ codes "te"
    ∷ codes "trailer"
    ∷ codes "transfer-encoding"
    ∷ codes "upgrade"
    ∷ []

unfoldable pub is_dropped : Text → Bool
is_dropped name = any (text_eq name) hop_by_hop || text_eq name (codes "host")

abbrev pub forward_one : Text → Option (List Text) → Headers → Headers
forward_one name none rest = rest
forward_one name (some value) rest = if is_dropped name then rest else (name, value) ∷ rest

-- The keys of an object are unique, so each assignment adds one.
unfoldable pub forwardable : IncomingHeaders → Headers
forwardable [] = []
forwardable ((name, value) ∷ headers) = forward_one name value (forwardable headers)

-- `headers[name] = value`
unfoldable pub set_header : Text → List Text → Headers → Headers
set_header k v [] = (k, v) ∷ []
set_header k v ((j, w) ∷ m) = if text_eq j k then (j, v) ∷ m else (j, w) ∷ set_header k v m

unfoldable pub get_header : Text → Headers → Option (List Text)
get_header k [] = none
get_header k ((j, v) ∷ m) = if text_eq j k then some v else get_header k m

unfoldable pub get_incoming : Text → IncomingHeaders → Option (List Text)
get_incoming k [] = none
get_incoming k ((j, none) ∷ m) = get_incoming k m
get_incoming k ((j, some v) ∷ m) = if text_eq j k then some v else get_incoming k m

unfoldable pub upstream_headers : IncomingHeaders → Option Text → Text → Headers
upstream_headers headers remote_address request_id =
    set_header (codes "x-request-id") (request_id ∷ []) (
      set_header (codes "x-forwarded-host")
        (or_else (get_incoming (codes "host") headers) ([] ∷ []))
        (set_header (codes "x-forwarded-proto") (codes "http" ∷ []) (
          set_header (codes "x-forwarded-for") (or_else remote_address [] ∷ [])
            (forwardable headers))))

-- The `error` listener of the upstream request.
pub data Failure : Type 0 where
  destroyed : Failure
  answered : ℕ → Failure

unfoldable pub on_error : (headers_sent timed_out : Bool) → Failure
on_error headers_sent timed_out =
    if headers_sent then destroyed else if timed_out then answered 504 else answered 502

get-set_header :
    (k j : Text) (v : List Text) (m : Headers)
    → get_header j (set_header k v m) ≡ (if text_eq k j then some v else get_header j m)
unfolding get_header set_header
get-set_header k j v [] = refl
get-set_header k j v ((i, w) ∷ m) =
    ground (arith, text_eq_iff i k, text_eq_iff i j, text_eq_iff k j, get-set_header k j v m)

get-forwardable :
    (k : Text) (headers : IncomingHeaders)
    → get_header k (forwardable headers) ≡ (if is_dropped k then none else get_incoming k headers)
unfolding get_header forwardable get_incoming
get-forwardable k [] = ground arith
get-forwardable k ((j, none) ∷ m) = get-forwardable k m
get-forwardable k ((j, some v) ∷ m) = ground (arith, get-forwardable k m, text_eq_iff j k)

-- What the upstream should be told under each header name.
abbrev pub header_spec : IncomingHeaders → Option Text → Text → Text → Option (List Text)
header_spec headers remote_address request_id k =
    if text_eq (codes "x-request-id") k
    then some (request_id ∷ [])
    else if text_eq (codes "x-forwarded-host") k
    then some (or_else (get_incoming (codes "host") headers) ([] ∷ []))
    else if text_eq (codes "x-forwarded-proto") k
    then some (codes "http" ∷ [])
    else if text_eq (codes "x-forwarded-for") k
    then some (or_else remote_address [] ∷ [])
    else if is_dropped k
    then none
    else get_incoming k headers

-- Whatever the client sent under those names, the upstream sees the request id, the address of the socket,
-- the protocol "http" and, as the forwarded host, the Host of the request; it sees no hop-by-hop header
-- and no Host, and every header of another name as it came.
pub get-upstream_headers :
    (headers : IncomingHeaders) (remote_address : Option Text) (request_id k : Text)
    → get_header k (upstream_headers headers remote_address request_id)
      ≡ header_spec headers remote_address request_id k
unfolding upstream_headers
get-upstream_headers headers remote_address request_id k = simp (get-set_header, get-forwardable)
