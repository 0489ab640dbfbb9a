-- ===== src/Http2/Examples.antt =====
-- Messages received over HTTP/2, and the theorems about them at concrete frames.
use doormat.Base.{
  ◌≡◌, refl, true, false, Option, none, some, List, [], ◌∷◌, ◌++◌, Bytes, bytes_eq, codes,
}
use doormat.Headers.{
  blank, make, header, header_lower, set_length, set_protocol, default_connection,
}
use doormat.Headers.Number.{stoull}
use doormat.Messages.{Request, Response, set_status}
use doormat.Objects.Remote.{headers, finished, trigger_all}
use doormat.Objects.Remote
use doormat.Objects.ClientResponse.{Callbacks}
use doormat.Objects.ClientResponse
use doormat.Http2.Incoming.{Incoming, on_header_callback, add_header, on_path, scan}
use doormat.Http2.Frames.{ServerStream, new_stream, on_calls}
use doormat.Http2.Frames.{request_headers, other_headers}
use doormat.Http2.FrameCalls.{
  Fields, Rest, by_data, by_trailers, pieces, body_of, bodies, message_calls,
}
use doormat.Http2.RequestFields.{with_fields}
use doormat.Http2.RequestFrames.{on_calls-request}
use doormat.Http2.ClientFrames.{ClientStream, status, on_header}
use doormat.Http2.ClientFrames
use doormat.Http2.ResponseFrames
use doormat.Http2.Responses.{on_calls-response, on_calls-ended_by_trailers}

abbrev request_fields : Fields
request_fields = (codes ":path", codes "/a") ∷ (codes "accept", codes "b") ∷ []

abbrev trailer_fields : Fields
trailer_fields = (codes "t", codes "1") ∷ []

-- Two DATA frames, and trailers behind them or one more that ends the message.
abbrev frames : List (List Bytes)
frames = (codes "x" ∷ codes "yz" ∷ []) ∷ (codes "w" ∷ []) ∷ []

abbrev with_trailers : Rest
with_trailers = by_trailers frames trailer_fields

abbrev without_trailers : Rest
without_trailers = by_data frames (codes "v" ∷ [])

abbrev stream_of : Option ServerStream → ServerStream
stream_of (some s) = s
stream_of none = record {
  incoming = record {
    request = doormat.Messages.make_request blank false 1;
    headers_sent = false;
    req = none;
  };
  let_go = none;
}

abbrev incoming_of : Option Incoming → Incoming
incoming_of (some i) = i
incoming_of none = (stream_of none).incoming

abbrev stream : ServerStream
stream = stream_of (new_stream (codes "c"))

abbrev filled : Incoming
filled = incoming_of (with_fields request_fields stream.incoming)

-- What is left of a request is empty here.
abbrev emptied_request : Request → Request
emptied_request r = record r { base = blank }

on_calls-request_example :
    on_calls emptied_request
      (codes "c")
      (message_calls request_headers request_fields with_trailers)
      none
    ≡ some (
        some (record {
          incoming = record filled {
            request = emptied_request filled.request;
            req = none;
            headers_sent = true;
          };
          let_go = some (
              trigger_all
                (headers filled.request ∷ (bodies (body_of with_trailers) ++ (finished ∷ [])))
                doormat.Objects.Remote.make);
        }))
unfolding new_stream make set_length stoull set_protocol default_connection header header_lower
    bytes_eq on_header_callback add_header on_path scan
on_calls-request_example =
    on_calls-request emptied_request (codes "c") request_fields with_trailers none stream filled
      refl refl

abbrev callbacks : Callbacks
callbacks = record {
  on_headers = true;
  on_body = true;
  on_trailer = true;
  on_finished = true;
  on_response_continue = false;
  on_error = true;
}

abbrev answer : ClientStream
answer = record {
  status = 200;
  response = record { base = blank; status_code = 0; status_message = [] };
  headers_sent = false;
  res = some (doormat.Objects.ClientResponse.make callbacks);
  let_go = none;
}

abbrev answer_fields : Fields
answer_fields = (codes ":status", codes "404") ∷ (codes "server", codes "c") ∷ []

abbrev answer_of : Option ClientStream → ClientStream
answer_of (some s) = s
answer_of none = answer

abbrev answered : ClientStream
answered = answer_of (ResponseFrames.with_fields answer_fields answer)

-- What is left of a response is empty here.
abbrev emptied : Response → Response
emptied r = record r { status_message = []; base = blank }

on_calls-response_example :
    (t : ClientStream) × (ClientFrames.on_calls emptied
        (message_calls other_headers answer_fields without_trailers)
        (some answer)
      ≡ some (some t))
    × (t.res ≡ none)
    × (t.let_go
        ≡ some (
            ResponseFrames.tell_all
              (headers answered.response ∷ (bodies (body_of without_trailers) ++ (finished ∷ [])))
              (doormat.Objects.ClientResponse.make callbacks)))
unfolding on_header ClientFrames.add_header status stoull header header_lower bytes_eq set_status
on_calls-response_example =
    on_calls-response emptied answer_fields without_trailers answer answered
      (doormat.Objects.ClientResponse.make callbacks) refl refl refl refl

on_calls-ended_by_trailers_example :
    (t : ClientStream) × (ClientFrames.on_calls emptied
        (message_calls other_headers answer_fields with_trailers)
        (some answer)
      ≡ some (some t))
    × (t.res ≡ none)
    × (t.let_go
        ≡ some (
            ResponseFrames.tell_all
              (headers answered.response
                ∷ (bodies (pieces frames)
                    ++ (ResponseFrames.trailers trailer_fields
                        ++ (headers (emptied answered.response) ∷ (finished ∷ [])))))
              (doormat.Objects.ClientResponse.make callbacks)))
unfolding on_header ClientFrames.add_header status stoull header header_lower bytes_eq set_status
on_calls-ended_by_trailers_example =
    on_calls-ended_by_trailers emptied answer_fields trailer_fields frames answer answered
      (doormat.Objects.ClientResponse.make callbacks) refl refl refl (refl, refl, tt)
