-- ===== src/Http2/Incoming.antt =====
-- What a server's HTTP/2 stream receives: src/http2/session.cpp, the callbacks on the header fields and
-- frames that nghttp2 has decoded, and the receiving side of src/http2/stream.{h,cpp}. `req` is `none`
-- for a null pointer, and a result is `none` where a null pointer is used or a header fails.
use doormat.Base.{
  ℕ, suc, Bool, true, Option, none, some, [], ◌∷◌, Bytes, codes, bytes_eq, ◌==◌, if◌then◌else◌,
  take, drop, is_empty,
}
use doormat.Headers.{header, set_hostname, ◌>>=◌}
use doormat.Messages.{Request, set_method}
use doormat.Objects.Remote.{Remote, ErrorCode, headers, body, trailer, finished, error, trigger}

pub record Incoming : Type 0 where
  pub request : Request
  pub headers_sent : Bool
  pub req : Option (Remote Request)

-- The bytes before the first `stop`: where the loops of `on_header_callback` halt.
unfoldable pub scan : ℕ → Bytes → ℕ
scan stop [] = 0
scan stop (c ∷ cs) = if c == stop then 0 else suc (scan stop cs)

-- A field that is set if there is something to set.
abbrev pub set_query : Bytes → Request → Request
set_query q r = if is_empty q then r else record r { query = q }

abbrev pub set_fragment : Bytes → Request → Request
set_fragment f r = if is_empty f then r else record r { fragment = f }

-- The branch for `:path`; the fragment starts at `k`, as the query does.
unfoldable pub on_path : Bytes → Request → Request
on_path value r =
    let k = scan 63 value in
    let j = scan 35 (drop k value) in
    set_fragment (drop k value)
      (set_query (take j (drop k value)) (record r { path = take k value }))

-- `uri_host`
unfoldable pub uri_host : Bytes → Request → Option Request
uri_host p r = set_hostname r.base p >>= λ d. some record r { base = d; urihost = p }

-- `moved` is what a move leaves of a request.
unfoldable pub on_request_header_complete : (Request → Request) → Incoming → Option Incoming
on_request_header_complete moved s = s.req >>= λ o. some record s {
  request = moved s.request;
  req = some (trigger (headers s.request) o);
  headers_sent = true;
}

unfoldable pub add_header : Bytes → Bytes → Incoming → Option Incoming
add_header key value s =
    if s.headers_sent
    then (s.req >>= λ o. some record s { req = some (trigger (trailer key value) o) })
    else (header s.request.base key value >>= λ d.
        some record s { request = record s.request { base = d } })

unfoldable pub on_request_body : Bytes → Incoming → Option Incoming
on_request_body d s = s.req >>= λ o. some record s { req = some (trigger (body d) o) }

-- The object is let go of once it has finished; it is the second result.
unfoldable pub on_request_finished : Incoming → Option (Incoming × Remote Request)
on_request_finished s = s.req >>= λ o. some (record s { req = none }, trigger finished o)

unfoldable pub notify_error : ErrorCode → Incoming → Incoming
notify_error ec s = elim s.req [
  | none ↦ s
  | some o ↦ record s { req = some (trigger (error ec) o) }
]

-- `on_header_callback`, on a field of a request of a stream that is known.
unfoldable pub on_header_callback : Bytes → Bytes → Incoming → Option Incoming
on_header_callback name value s =
    if bytes_eq name (codes ":path")
    then some (record s { request = on_path value s.request })
    else if bytes_eq name (codes ":scheme")
    then some (record s { request = record s.request { schema = value } })
    else if bytes_eq name (codes ":method")
    then some (record s { request = set_method s.request value })
    else if bytes_eq name (codes ":authority")
    then (uri_host value s.request >>= λ r. some record s { request = r })
    else add_header name value s
