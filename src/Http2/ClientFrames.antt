-- ===== src/Http2/ClientFrames.antt =====
-- What a client's HTTP/2 stream receives: src/http2/session_client.cpp, the callbacks on the frames of
-- one stream, and the receiving side of src/http2/stream_client.{h,cpp}. `res` is `none` for a null
-- pointer, and so is a stream that nghttp2 has no user data for. A result is `none` where a null
-- pointer is used, a header fails, or an exception leaves a callback.
use doormat.Base.{
  ℕ, ◌^◌, Bool, true, false, Option, none, some, List, [], ◌∷◌, Bytes, codes, bytes_eq, ltb,
  if◌then◌else◌,
}
use doormat.Headers.Number.{stoull}
use doormat.Headers.{http11, http20, set_protocol, set_hostname, header, make, ◌>>=◌}
use doormat.Messages.{Response, set_status}
use doormat.Objects.Remote.{ErrorCode, headers, body, trailer, finished, error}
use doormat.Objects.ClientResponse.{ClientResponse, Callbacks, trigger}
use doormat.Objects.ClientResponse
use doormat.Http2.Frames.{
  FrameType, request_headers, other_headers, data_frame, other_frame, Frame, FrameCall,
  begin_headers, field, frame_recv, data_chunk_recv, on_stream,
}

-- `let_go` is the object once the stream has let go of it.
pub record ClientStream : Type 0 where
  pub status : ℕ
  pub response : Response
  pub headers_sent : Bool
  pub res : Option (ClientResponse Response)
  pub let_go : Option (ClientResponse Response)

-- The stream as `create_stream` makes it, for an origin, the callbacks that its user sets, and the
-- status code that the constructor of `http_response` leaves unset.
unfoldable pub new_stream : Bytes → Callbacks → ℕ → Option ClientStream
new_stream origin callbacks code = make >>= λ d. set_protocol d http11 >>= λ e. some record {
  status = 200;
  response = record {
    base = record e { channel = http20; origin = origin };
    status_code = code;
    status_message = [];
  };
  headers_sent = false;
  res = some (doormat.Objects.ClientResponse.make callbacks);
  let_go = none;
}

-- The object is told.
abbrev pub tell :
    (ClientResponse Response → ClientResponse Response) → ClientStream → Option ClientStream
tell f s = s.res >>= λ o. some record s { res = some (f o) }

-- `std::stoi` on the digits that nghttp2 lets through as a status, without a sign.
abbrev pub stoi : Bytes → Option ℕ
stoi s = stoull s >>= λ n. if ltb n (2 ^ 31) then some n else none

-- `status`
unfoldable pub status : ℕ → ClientStream → ClientStream
status n s = record s { status = n; response = set_status s.response n }

-- `uri_host`
unfoldable pub uri_host : Bytes → ClientStream → Option ClientStream
uri_host p s = set_hostname s.response.base p >>= λ d.
    some record s { response = record s.response { base = d } }

unfoldable pub add_header : Bytes → Bytes → ClientStream → Option ClientStream
add_header key value s =
    if s.headers_sent
    then tell (trigger (trailer key value)) s
    else (header s.response.base key value >>= λ d.
        some record s { response = record s.response { base = d } })

unfoldable pub on_response_body : Bytes → ClientStream → Option ClientStream
on_response_body b s = tell (trigger (body b)) s

unfoldable pub on_response_finished : ClientStream → Option ClientStream
on_response_finished s =
    s.res >>= λ o. some record s { res = none; let_go = some (trigger finished o) }

-- The half of `notify_error` for the response.
unfoldable pub notify_error : ErrorCode → ClientStream → ClientStream
notify_error ec s = elim s.res [
  | none ↦ s
  | some o ↦ record s { res = some (trigger (error ec) o) }
]

-- `on_header_callback`, on a field of a stream that is known.
unfoldable pub on_header : Bytes → Bytes → ClientStream → Option ClientStream
on_header name value s =
    if bytes_eq name (codes ":authority")
    then uri_host value s
    else if bytes_eq name (codes ":status")
    then (stoi value >>= λ n. some (status n s))
    else add_header name value s

-- The switch of `on_header_callback`.
unfoldable pub on_field :
    FrameType → Bytes → Bytes → Option ClientStream → Option (Option ClientStream)
on_field request_headers name value st = some st
on_field other_headers name value st = on_stream (on_header name value) st
on_field data_frame name value st = some st
on_field other_frame name value st = some st

abbrev pub finish_if : Bool → ClientStream → Option ClientStream
finish_if false s = some s
finish_if true s = on_response_finished s

unfoldable pub on_data_chunk_recv_callback :
    Bytes → Option ClientStream → Option (Option ClientStream)
on_data_chunk_recv_callback b st = on_stream (on_response_body b) st

-- `moved` is what a move leaves of a response.
module _ (moved : Response → Response) where
  unfoldable pub on_response_header_complete : ClientStream → Option ClientStream
  on_response_header_complete s = tell (trigger (headers s.response)) s >>= λ t.
      some record t { headers_sent = true; response = moved s.response }

  abbrev pub header_complete : FrameType → ClientStream → Option ClientStream
  header_complete request_headers s = some s
  header_complete other_headers s = on_response_header_complete s
  header_complete data_frame s = some s
  header_complete other_frame s = some s

  unfoldable pub on_frame_recv_callback : Frame → Option ClientStream → Option (Option ClientStream)
  on_frame_recv_callback f st =
      on_stream (λ s. header_complete f.frame_type s >>= finish_if f.end_stream) st

  -- A call of nghttp2. A stream that the client has not opened is made by `on_begin_headers_callback`;
  -- those are left out, since pushes are switched off.
  unfoldable pub on_call : FrameCall → Option ClientStream → Option (Option ClientStream)
  on_call (begin_headers f) st = some st
  on_call (field f name value) st = on_field f.frame_type name value st
  on_call (frame_recv f) st = on_frame_recv_callback f st
  on_call (data_chunk_recv b) st = on_data_chunk_recv_callback b st

  unfoldable pub on_calls : List FrameCall → Option ClientStream → Option (Option ClientStream)
  on_calls [] st = some st
  on_calls (c ∷ cs) st = on_call c st >>= on_calls cs
