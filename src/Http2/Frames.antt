-- ===== src/Http2/Frames.antt =====
-- The callbacks of src/http2/session.cpp on the frames of one stream of a server, with the receiving
-- side of the stream in Http2.Incoming. What nghttp2 keeps as the user data of the stream is the state
-- here, `none` for a null pointer. The writes that a callback asks of the connector are in
-- Http2.Session.
use doormat.Base.{Bool, true, false, Option, none, some, List, [], ◌∷◌, Bytes}
use doormat.Headers.{http11, http20, set_protocol, make, ◌>>=◌}
use doormat.Messages.{make_request}
use doormat.Objects.Remote.{Remote}
use doormat.Objects.Remote
use doormat.Messages.{Request}
use doormat.Http2.Incoming.{
  Incoming, on_header_callback, on_request_header_complete, on_request_body, on_request_finished,
}

-- Whether a frame is a HEADERS frame that opens a request, another HEADERS frame, or neither.
pub data FrameType : Type 0 where
  request_headers other_headers data_frame other_frame : FrameType

pub record Frame : Type 0 where
  pub frame_type : FrameType
  pub end_stream : Bool

-- A call of nghttp2.
pub data FrameCall : Type 0 where
  begin_headers : Frame → FrameCall
  field : Frame → Bytes → Bytes → FrameCall
  frame_recv : Frame → FrameCall
  data_chunk_recv : Bytes → FrameCall

-- A stream, and its object once the stream has let go of it.
pub record ServerStream : Type 0 where
  pub incoming : Incoming
  pub let_go : Option (Remote Request)

-- The stream that `create_stream` makes, on a connection with this origin.
unfoldable pub new_stream : Bytes → Option ServerStream
new_stream origin = make >>= λ d. set_protocol d http11 >>= λ e. some record {
  incoming = record {
    request = make_request (record e { channel = http20; origin = origin }) false 1;
    headers_sent = false;
    req = some doormat.Objects.Remote.make;
  };
  let_go = none;
}

-- A step of the stream, if there is one.
abbrev pub on_stream : {A : Type 0} → (A → Option A) → Option A → Option (Option A)
on_stream f none = some none
on_stream f (some s) = f s >>= λ t. some (some t)

abbrev pub on_incoming : (Incoming → Option Incoming) → ServerStream → Option ServerStream
on_incoming f s = f s.incoming >>= λ i. some record s { incoming = i }

unfoldable pub on_begin_headers_callback :
    Bytes → FrameType → Option ServerStream → Option (Option ServerStream)
on_begin_headers_callback origin request_headers st = new_stream origin >>= λ s. some (some s)
on_begin_headers_callback origin other_headers st = some st
on_begin_headers_callback origin data_frame st = some st
on_begin_headers_callback origin other_frame st = some st

-- The switch of `on_header_callback`.
unfoldable pub on_field :
    FrameType → Bytes → Bytes → Option ServerStream → Option (Option ServerStream)
on_field request_headers name value st = on_stream (on_incoming (on_header_callback name value)) st
on_field other_headers name value st = some st
on_field data_frame name value st = some st
on_field other_frame name value st = some st

abbrev pub finish_if : Bool → ServerStream → Option ServerStream
finish_if false s = some s
finish_if true s =
    on_request_finished s.incoming >>= λ p. some record { incoming = p.0; let_go = some p.1 }

-- The stream is used without a test.
unfoldable pub on_data_chunk_recv_callback :
    Bytes → Option ServerStream → Option (Option ServerStream)
on_data_chunk_recv_callback b none = none
on_data_chunk_recv_callback b (some s) = on_incoming (on_request_body b) s >>= λ t. some (some t)

-- `moved` is what a move leaves of a request.
module _ (moved : Request → Request) where
  abbrev pub header_complete : FrameType → ServerStream → Option ServerStream
  header_complete request_headers s = on_incoming (on_request_header_complete moved) s
  header_complete other_headers s = some s
  header_complete data_frame s = some s
  header_complete other_frame s = some s

  unfoldable pub on_frame_recv_callback : Frame → Option ServerStream → Option (Option ServerStream)
  on_frame_recv_callback f st =
      on_stream (λ s. header_complete f.frame_type s >>= finish_if f.end_stream) st

  unfoldable pub on_call : Bytes → FrameCall → Option ServerStream → Option (Option ServerStream)
  on_call origin (begin_headers f) st = on_begin_headers_callback origin f.frame_type st
  on_call origin (field f name value) st = on_field f.frame_type name value st
  on_call origin (frame_recv f) st = on_frame_recv_callback f st
  on_call origin (data_chunk_recv b) st = on_data_chunk_recv_callback b st

  unfoldable pub on_calls :
      Bytes → List FrameCall → Option ServerStream → Option (Option ServerStream)
  on_calls origin [] st = some st
  on_calls origin (c ∷ cs) st = on_call origin c st >>= on_calls origin cs
