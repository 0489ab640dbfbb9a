-- ===== src/Handler/Tests.antt =====
-- Runs of the HTTP/1 handler, and the theorems about it at concrete states.
use doormat.Base.{
  ℕ, ◌==◌, ◌≡◌, ◌↔◌, refl, ap, append-nil, true, false, none, some, if◌then◌else◌, [], ◌∷◌, ◌++◌,
  Bytes, codes,
}
use doormat.Headers.Number.{to_string}
use doormat.Headers.{
  StructuredData, http11, blank, crlf, serialize, serialize_rest, proto_to_string,
}
use doormat.Messages.{Request, Response, make_request, serialize_response}
use doormat.Codec.{at_zero, at_header, encode_header, encode_body, encode_trailer, encode_eom}
use doormat.Utils.Hex.{from, hex_digits}
use doormat.Connector.{Connector, make}
use doormat.Objects.Local.{Local}
use doormat.Objects.Local
use doormat.Objects.Remote.{Remote}
use doormat.Objects.Remote
use doormat.Handler.{Core, http1}
use doormat.Handler.Sides.{server}
use doormat.Handler.Pieces.{all_pieces}
use doormat.Handler.Output.{output}
use doormat.Handler.Sending.{poll_local, notify_local_content}
use doormat.Handler.Sent.{server-poll_local}
use doormat.Handler.Queue.{Entries, queue_pieces, notify_local_content-pipelined}
use doormat.Handler.Receiving.{decoding_failure, get_current}
use doormat.Handler.Failures.{decoding_failure_iff}

abbrev request : Request
request = make_request blank false 1

abbrev response : Local Response
response = record doormat.Objects.Local.make {
  content = codes "hi";
  trailers = (codes "a", codes "b") ∷ [];
  ended = true;
}

abbrev core : Core Request Response (Remote Request)
core = record {
  locals = 0 ∷ 1 ∷ [];
  remotes = 1 ∷ [];
  local_store = λ id. some response;
  remote_store = λ id. doormat.Objects.Remote.make;
  fresh = 2;
  encoder = record { chunked = true; encoder_state = at_header };
  current = request;
  serialization = [];
  user_close = false;
  decoding_error = false;
  managing_continue = false;
  persistent = false;
  connected = true;
  myself = true;
  pending_clear_callbacks = [];
  errors = [];
  clears = 0;
  requests = some 0 ∷ some 1 ∷ [];
  timeouts = 0;
}

-- A write is under way, so that what is polled waits.
abbrev state : Connector (Core Request Response (Remote Request)) ℕ
state = record (make http1 core) { writing = true; written = codes "0" ∷ []; in_flight = 7 ∷ [] }

abbrev sent : Bytes
sent =
    codes "2"
    ++ (crlf ++ (codes "hi" ++ (crlf ++ (codes "0" ++ (crlf ++ (codes "a: b" ++ (crlf ++ crlf)))))))

encoded :
    all_pieces server state.handler.encoder none response.content response.trailers true
    ≡ some (record { chunked = true; encoder_state = at_zero }, sent)
unfolding encode_body encode_trailer encode_eom from hex_digits
encoded = refl

server-poll_local_example :
    (u : Connector (Core Request Response (Remote Request)) ℕ) × (poll_local server 0 state
      ≡ some (u, true))
    × (u.handler.encoder ≡ record { chunked = true; encoder_state = at_zero })
    × (output u ≡ output state ++ sent)
server-poll_local_example =
    server-poll_local 0 state response (record { chunked = true; encoder_state = at_zero }) sent
      refl refl encoded

decoding_failure_iff_example : (decoding_failure server (record core { locals = [] }) ≡ none) ↔ (
    ((id : ℕ) × ((get_current server (record core { locals = [] })).1 ≡ some id))
    × ((record core { locals = [] }).locals ≡ []))
decoding_failure_iff_example = decoding_failure_iff server (record core { locals = [] })

abbrev a_header : StructuredData
a_header = record blank { protocol = http11; headers = (codes "a", codes "b") ∷ [] }

-- A second response, with its header.
abbrev reply : Local Response
reply = record doormat.Objects.Local.make {
  message = some (record { base = a_header; status_code = 200; status_message = codes "OK" });
  content = codes "yes";
  ended = true;
}

abbrev pipelined : Connector (Core Request Response (Remote Request)) ℕ
pipelined = record state {
  handler = record core { local_store = λ id. if id == 0 then some response else some reply };
}

abbrev entries : Entries
entries = (0, response) ∷ (1, reply) ∷ []

abbrev answered : Bytes
answered =
    (codes "HTTP/1.1 "
      ++ (to_string 200 ++ (codes " OK" ++ (crlf ++ (codes "a: b" ++ (crlf ++ crlf))))))
    ++ codes "yes"

queue_encoded :
    queue_pieces state.handler.encoder entries
    ≡ some (record { chunked = false; encoder_state = at_zero }, sent ++ answered)
unfolding encode_header encode_body encode_trailer encode_eom from hex_digits serialize_response
    serialize serialize_rest proto_to_string
queue_encoded =
    ap (λ x. some (record { chunked = false; encoder_state = at_zero }, sent ++ x))
      (append-nil answered)

notify_local_content-pipelined_example :
    (u : Connector (Core Request Response (Remote Request)) ℕ) × (notify_local_content server
        pipelined
      ≡ some u)
    × (u.handler.locals ≡ [])
    × (u.handler.encoder ≡ record { chunked = false; encoder_state = at_zero })
    × (output u ≡ output pipelined ++ (sent ++ answered))
notify_local_content-pipelined_example =
    notify_local_content-pipelined pipelined entries
      (record { chunked = false; encoder_state = at_zero }) (sent ++ answered) refl
      (refl, refl, refl, (refl, tt), (refl, refl, refl, tt, tt)) queue_encoded
