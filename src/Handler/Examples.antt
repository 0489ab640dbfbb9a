-- ===== src/Handler/Examples.antt =====
-- A request that arrives over two reads, and the theorems about `on_read` at it.
use doormat.Base.{
  ℕ, zero, suc, ◌≡◌, ◌&&◌, refl, true, false, Option, none, some, List, [], ◌∷◌, ◌++◌, arith, Bytes,
  bytes_eq, codes, length,
}
use doormat.Headers.{blank, unset, header, header_lower, keep, set_protocol, default_connection}
use doormat.Messages.{Request, Response, make_request}
use doormat.Codec.{at_zero}
use doormat.Codec.Decoder.{
  Decoder, Message, request, no_url, Event, Head, message_begin, header_field, header_value,
  headers_complete, status_part, on_status, body_part, message_complete, body_cb, Callback, handle,
  run, process_current_header, on_header_field, on_header_value, on_headers_complete, on_body,
  on_message_complete,
}
use doormat.Objects.Remote.{Remote, headers_event}
use doormat.Objects.Remote
use doormat.Handler.{Core}
use doormat.Handler.Sides.{server}
use doormat.Handler.Receiving.{asks_persistent}
use doormat.Handler.Decoding.{
  server_side, Execution, calls, finished, HttpParser, Receiver, on_read, receive, follow,
  decode_loop,
}
use doormat.Handler.Ending.{Consumes, Breaks, on_read-none}
use doormat.Handler.Current.{events_of}
use doormat.Handler.Delivery.{received}
use doormat.Handler.Reading.{Makes, on_reads}
use doormat.Handler.Requests.{on_reads-request}

abbrev unread : Core Request Response (Remote Request)
unread = record {
  locals = [];
  remotes = [];
  local_store = λ id. none;
  remote_store = λ id. doormat.Objects.Remote.make;
  fresh = 4;
  encoder = record { chunked = false; encoder_state = at_zero };
  current = make_request blank false 1;
  serialization = [];
  user_close = false;
  decoding_error = false;
  managing_continue = false;
  persistent = true;
  connected = true;
  myself = true;
  pending_clear_callbacks = [];
  errors = [];
  clears = 0;
  requests = [];
  timeouts = 0;
}

abbrev first : Decoder
first = record {
  message = none;
  version = unset;
  ignore = false;
  connected = false;
  got_header = false;
  headers_completed = false;
  urline = [];
  status = [];
  key = [];
  value = [];
  url = no_url;
}

abbrev receiver : Receiver Request Response (Remote Request)
receiver = record { decoder = first; core = unread }

abbrev head : Head
head = record { http_major = 1; http_minor = 1; method = 1; should_keep_alive = true }

abbrev fields : List Event
fields = header_field (codes "accept") ∷ header_value (codes "b") ∷ []

abbrev start : Message
start = request (make_request blank false 1)

abbrev unless : {A : Type 0} → ℕ → A → A → A
unless zero a b = a
unless (suc n) a b = b

-- A run that makes some calls and halts when one does not return 0.
abbrev script : {P : Type 0} → List Event → P → ℕ → Execution P
script [] q n = finished q n true
script (e ∷ es) q n = calls e (λ c. unless c (script es q n) (finished q 0 false))

-- A parser that reports the header on its first run, and the body and the end on the next.
abbrev two_runs : HttpParser ℕ
two_runs = record {
  initial = 0;
  execute = λ p data'. elim p [
    | zero ↦
        script (message_begin start ∷ (fields ++ (headers_complete head ∷ []))) 1 (length data')
    | suc n ↦ script (body_part (codes "hi") ∷ message_complete ∷ []) 0 (length data')
  ];
  parse_url = λ s c u. (u, true);
}

abbrev reads : List Bytes
reads = codes "head" ∷ codes "hi" ∷ []

abbrev after_fields : Decoder
after_fields = record first {
  message = some start;
  got_header = true;
  key = codes "accept";
  value = codes "b";
}

abbrev decoder_of : Option (Decoder × List Callback) → Decoder
decoder_of none = first
decoder_of (some p) = p.0

abbrev request_of : Option Message → Request
request_of (some (request m)) = m
request_of o = make_request blank false 1

abbrev after_head : Decoder
after_head =
    decoder_of (handle (HttpParser.parse_url two_runs) after_fields (headers_complete head))

on_reads-request_example :
    (t : Receiver Request Response (Remote Request)) × (n : Request) × (on_reads server_side
        two_runs 0 receiver reads
      ≡ some (0, t, true))
    × (t.decoder ≡ (on_message_complete after_head).0)
    × (t.core.remotes ≡ [])
    × (t.core.locals ≡ 4 ∷ [])
    × (t.core.remote_store 4
        ≡ received n
            (headers_event ∷ events_of (body_cb (codes "hi") ∷ (on_message_complete after_head).1)))
    × (keep
          (request_of after_head.message).base
          (true && asks_persistent server (request_of after_head.message).base)
        ≡ some n.base)
    × (n ≡ record (request_of after_head.message) { base = n.base })
unfolding Makes run handle on_header_field on_header_value process_current_header
    on_headers_complete on_body set_protocol default_connection header header_lower bytes_eq keep
on_reads-request_example =
    on_reads-request two_runs 0 0 reads receiver start fields (body_part (codes "hi") ∷ []) head
      after_fields after_head after_head (request_of after_head.message) (body_cb (codes "hi") ∷ [])
      (
        message_begin start ∷ (fields ++ (headers_complete head ∷ [])),
        body_part (codes "hi") ∷ message_complete ∷ [],
        1,
        refl,
        (refl, (refl, (refl, (refl, (refl, refl, refl))))),
        (
          body_part (codes "hi") ∷ message_complete ∷ [],
          [],
          0,
          refl,
          (refl, (refl, (refl, refl, refl))),
          (refl, refl),
        ),
      )
      refl refl (tt, (tt, tt)) (tt, tt) refl refl refl refl

-- A parser that reports the status of a response, which a request does not have.
abbrev of_a_response : HttpParser ℕ
of_a_response = record {
  initial = 0;
  execute = λ p data'. script (status_part 200 (codes "OK") ∷ []) 0 (length data');
  parse_url = λ s c u. (u, true);
}

abbrev in_request : Receiver Request Response (Remote Request)
in_request = record { decoder = record first { message = some start }; core = unread }

of_a_response-Consumes :
    (p b : ℕ) (bs : Bytes)
    → Consumes server_side of_a_response (HttpParser.execute of_a_response p (b ∷ bs))
of_a_response-Consumes p b bs code =
    elim code
      as (λ k.
        Consumes server_side of_a_response
          (unless k (finished 0 (length (b ∷ bs)) true) (finished 0 0 false))) [
            | zero ↦ λ good. omega arith
            | suc m ↦ λ bad. absurd (ground (arith, bad))
          ]

misread : on_read server_side of_a_response 0 in_request (codes "x") ≡ none
unfolding on_read decode_loop follow receive handle on_status
misread = refl

on_read-none_example : Breaks server_side of_a_response 0 in_request (codes "x")
on_read-none_example =
    on_read-none server_side of_a_response 0 in_request (codes "x") of_a_response-Consumes misread
