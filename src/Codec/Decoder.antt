-- ===== src/Codec/Decoder.antt =====
-- src/http/http_codec_impl.h and the static callbacks of src/http/http_codec.cpp: what the decoder
-- does with the calls that http_parser makes of it. Each call is an event, with what the callback
-- reads of the parser; the URL parser is a parameter, which returns the parts that it leaves in the
-- structure it is given, and whether it succeeds. `none` is a failed assertion, the use of a
-- null pointer, a request taken for a response or the reverse, or an exception that leaves a
-- `noexcept` function. The user's error callback is taken to leave an error fatal.
use doormat.Base.{
  ℕ, ◌+◌, Bool, true, false, Option, none, some, List, [], ◌∷◌, ◌++◌, Bytes, codes, ltb, leb, ◌==◌,
  if◌then◌else◌, length, take, drop, is_empty,
}
use doormat.Utils.{get_first_part}
use doormat.Headers.{
  StructuredData, ProtoVersion, unset, http11, http10, header, get_header, set_protocol, keep,
  same_version, ◌>>=◌,
}
use doormat.Messages.{Request, Response, set_status_message}

-- What `_data` points to.
pub data Message : Type 0 where
  request : Request → Message
  response : Response → Message

-- `http_parser_url`: the offset and the length of each part.
pub record Url : Type 0 where
  pub schema : ℕ × ℕ
  pub host : ℕ × ℕ
  pub port : ℕ × ℕ
  pub path : ℕ × ℕ
  pub query : ℕ × ℕ
  pub fragment : ℕ × ℕ
  pub userinfo : ℕ × ℕ

abbrev pub no_url : Url
no_url = record {
  schema = (0, 0);
  host = (0, 0);
  port = (0, 0);
  path = (0, 0);
  query = (0, 0);
  fragment = (0, 0);
  userinfo = (0, 0);
}

pub record Decoder : Type 0 where
  pub message : Option Message
  pub version : ProtoVersion
  pub ignore : Bool
  pub connected : Bool
  pub got_header : Bool
  pub headers_completed : Bool
  pub urline : Bytes
  pub status : Bytes
  pub key : Bytes
  pub value : Bytes
  pub url : Url

-- `reset` leaves `_version` as it is.
unfoldable pub reset : Decoder → Decoder
reset d = record {
  message = none;
  version = d.version;
  ignore = false;
  connected = false;
  got_header = false;
  headers_completed = false;
  urline = [];
  status = [];
  key = [];
  value = [];
  url = no_url;
}

-- The calls of the user's callbacks.
pub data Callback : Type 0 where
  begin_cb header_cb completion_cb error_cb : Callback
  body_cb : Bytes → Callback
  trailer_cb : Bytes → Bytes → Callback

-- What `on_headers_complete` reads of the parser.
pub record Head : Type 0 where
  pub http_major : ℕ
  pub http_minor : ℕ
  pub method : ℕ
  pub should_keep_alive : Bool

pub data Event : Type 0 where
  message_begin : Message → Event
  url_part : Bytes → Event
  status_part : ℕ → Bytes → Event
  header_field : Bytes → Event
  header_value : Bytes → Event
  headers_complete : Head → Event
  body_part : Bytes → Event
  chunk_header : Bool → Event
  chunk_complete : Bool → Event
  message_complete : Event

-- An operation on the part that requests and responses share.
abbrev pub on_base : (StructuredData → Option StructuredData) → Message → Option Message
on_base f (request r) = f r.base >>= λ b. some (request (record r { base = b }))
on_base f (response r) = f r.base >>= λ b. some (response (record r { base = b }))

unfoldable pub process_current_header : Decoder → Option Decoder
process_current_header d =
    if d.got_header
    then (d.message >>= λ m. on_base (λ b. header b d.key d.value) m >>= λ m'.
        some (record d { message = some m'; got_header = false; key = []; value = [] }))
    else some d

-- `substr`, which throws for an offset past the end.
abbrev pub substr : Bytes → ℕ × ℕ → Option Bytes
substr s (off, len) = if leb off (length s) then some (take len (drop off s)) else none

unfoldable pub set_url : Bytes → Url → Request → Option Request
set_url s u r = substr s u.schema >>= λ schema. substr s u.host >>= λ host.
    substr s u.port >>= λ port. substr s u.path >>= λ path. substr s u.query >>= λ query.
    substr s u.fragment >>= λ fragment. substr s u.userinfo >>= λ userinfo. some (record r {
      schema = schema;
      urihost = host;
      port = port;
      path = path;
      query = query;
      fragment = fragment;
      userinfo = userinfo;
    })

abbrev max_uri_len : ℕ
max_uri_len = 8192

abbrev pub as_request : Option Message → Option Request
as_request (some (request r)) = some r
as_request _ = none

abbrev pub as_response : Option Message → Option Response
as_response (some (response r)) = some r
as_response _ = none

-- The part of `on_headers_complete` that sets the host of a request from its header.
abbrev pub set_host : Request → Request
set_host r =
    let host = get_header r.base (codes "host") in
    let before = get_first_part host 58 in
    if is_empty r.urihost
    then (if length before == length host
        then record r { urihost = host }
        else record r { urihost = before; port = drop (length before + 1) host })
    else r

abbrev pub set_target : ℕ → Message → Message
set_target method (request r) = request (set_host (record r { method = method }))
set_target method (response r) = response r

-- The protocol is that of the first message of the connection.
abbrev pub version_of : ProtoVersion → Head → ProtoVersion
version_of v h = if same_version v unset then (if h.http_minor == 1 then http11 else http10) else v

-- A URL that was parsed: its parts are set in the request.
unfoldable pub found_url : Decoder → Option (Decoder × ℕ)
found_url d = as_request d.message >>= λ r.
    set_url d.urline d.url r >>= λ r'. some (record d { message = some (request r') }, 0)

module _ (http_parser_parse_url : Bytes → Bool → Url → Url × Bool) where
  -- The result of the callback is the number it returns to the parser.
  unfoldable pub on_url : Decoder → Bytes → Option (Decoder × ℕ)
  on_url d at_ =
      if ltb max_uri_len (length (d.urline ++ at_))
      then some (record d { urline = d.urline ++ at_ }, 1)
      else if (http_parser_parse_url at_ d.connected d.url).1
      then found_url (record d {
        urline = d.urline ++ at_;
        url = (http_parser_parse_url at_ d.connected d.url).0;
        connected = true;
      })
      else some (
        record d {
          urline = d.urline ++ at_;
          url = (http_parser_parse_url at_ d.connected d.url).0;
          connected = true;
        },
        0,
      )

unfoldable pub on_status : Decoder → ℕ → Bytes → Option Decoder
on_status d code at_ = as_response d.message >>= λ r. some (record d {
  status = d.status ++ at_;
  message = some (response (set_status_message r code (d.status ++ at_)));
})

unfoldable pub on_header_field : Decoder → Bytes → Option Decoder
on_header_field d at_ = process_current_header d >>= λ e. some (record e { key = e.key ++ at_ })

unfoldable pub on_header_value : Decoder → Bytes → Decoder
on_header_value d at_ = record d { got_header = true; value = d.value ++ at_ }

unfoldable pub on_headers_complete : Decoder → Head → Option (Decoder × List Callback)
on_headers_complete d h =
    if h.http_major == 1
    then (d.message >>= λ m. on_base (λ b. set_protocol b (version_of d.version h)) m >>= λ m1.
        process_current_header (record d { version = version_of d.version h; message = some m1 })
        >>= λ e. e.message >>= λ m2.
            on_base (λ b. keep b h.should_keep_alive) (set_target h.method m2) >>= λ m3.
            some (record e { message = some m3; headers_completed = true }, header_cb ∷ []))
    else none

-- A trailer that is complete is handed on.
unfoldable pub flush_trailer : Decoder → Decoder × List Callback
flush_trailer d =
    if d.got_header
    then (record d { got_header = false; key = []; value = [] }, trailer_cb d.key d.value ∷ [])
    else (d, [])

unfoldable pub on_trailer_field : Decoder → Bytes → Decoder × List Callback
on_trailer_field d at_ =
    let (e, calls) = flush_trailer d in (record e { key = e.key ++ at_ }, calls)

unfoldable pub on_body : Decoder → Bytes → List Callback
on_body d at_ = if d.ignore then [] else body_cb at_ ∷ []

-- `on_chunk_header` and `on_chunk_complete`.
unfoldable pub on_chunk : Decoder → Bool → Decoder
on_chunk d final = if final then record d { ignore = true } else d

unfoldable pub on_message_complete : Decoder → Decoder × List Callback
on_message_complete d = let (e, calls) = flush_trailer d in (reset e, calls ++ (completion_cb ∷ []))

-- One call of the parser, as the static callbacks pass it on; `on_parser_error` for a callback that
-- does not return 0.
module _ (http_parser_parse_url : Bytes → Bool → Url → Url × Bool) where
  unfoldable pub handle : Decoder → Event → Option (Decoder × List Callback)
  handle d (message_begin m) = some (record d { message = some m }, begin_cb ∷ [])
  handle d (url_part s) = on_url http_parser_parse_url d s >>= λ p.
      (if p.1 == 0 then some (p.0, []) else some (reset p.0, error_cb ∷ []))
  handle d (status_part code s) = on_status d code s >>= λ e. some (e, [])
  handle d (header_field s) =
      if d.headers_completed
      then some (on_trailer_field d s)
      else (on_header_field d s >>= λ e. some (e, []))
  handle d (header_value s) = some (on_header_value d s, [])
  handle d (headers_complete h) = on_headers_complete d h
  handle d (body_part s) = some (d, on_body d s)
  handle d (chunk_header final) = some (on_chunk d final, [])
  handle d (chunk_complete final) = some (on_chunk d final, [])
  handle d message_complete = some (on_message_complete d)

  unfoldable pub run : Decoder → List Event → Option (Decoder × List Callback)
  run d [] = some (d, [])
  run d (e ∷ es) = handle d e >>= λ p. run p.0 es >>= λ q. some (q.0, p.1 ++ q.1)
