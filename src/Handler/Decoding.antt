-- ===== src/Handler/Decoding.antt =====
-- How the HTTP/1 handler reads: `on_read` and the callbacks that `start` registers in
-- src/protocol/handler_http1.h, with `decode` of src/http/http_codec.cpp, over the decoder of
-- Codec.Decoder. The decoder works on the handler's own `current_decoded_object`, to which
-- `decoding_start` hands it a pointer. http_parser is the record HttpParser.
use doormat.Base.{
  ℕ, zero, suc, Bool, true, false, Option, none, some, List, [], ◌∷◌, Bytes, length, drop,
}
use doormat.Headers.{◌>>=◌}
use doormat.Messages.{Request, Response}
use doormat.Codec.Decoder.{
  Message, request, response, Url, Decoder, reset, Callback, begin_cb, header_cb, completion_cb,
  error_cb, body_cb, trailer_cb, Event, message_begin, url_part, on_url, handle,
}
use doormat.Objects.Remote.{Remote}
use doormat.Objects.ClientResponse.{ClientResponse, Callbacks}
use doormat.Handler.{Traits, Core}
use doormat.Handler.Sides.{server, client}
use doormat.Handler.Receiving.{
  begin_message, server_decoding_start, decoded_headers, decoded_body, decoded_trailer,
  decoding_end, decoding_failure, client_decoded_headers, client_decoding_end,
}

-- A run of `http_parser_execute`: it makes its calls, each going on from the number returned to it, and
-- ends with a number of bytes and whether there was no error. The message of `message_begin` is not
-- the parser's to give, and is not used.
pub data Execution (P : Type 0) : Type 0 where
  finished : P → ℕ → Bool → Execution P
  calls : Event → (ℕ → Execution P) → Execution P

-- `initial` is what `http_parser_init` leaves; `execute` knows that `reset` calls it at the end of each
-- message.
pub record HttpParser (P : Type 0) : Type 0 where
  pub initial : P
  pub execute : P → Bytes → Execution P
  pub parse_url : Bytes → Bool → Url → Url × Bool

-- What the two sides of the handler do on their own.
pub record Side (M N R : Type 0) : Type 0 where
  pub traits : Traits M N R
  pub as_message : M → Message
  pub of_message : Message → Option M
  pub decoding_start : Core M N R → Core M N R
  pub headers_decoded : Core M N R → Option (Core M N R)
  pub decoding_ended : Core M N R → Core M N R

abbrev pub to_request : Message → Option Request
to_request (request r) = some r
to_request (response r) = none

abbrev pub to_response : Message → Option Response
to_response (request r) = none
to_response (response r) = some r

abbrev pub server_side : Side Request Response (Remote Request)
server_side = record {
  traits = server;
  as_message = request;
  of_message = to_request;
  decoding_start = server_decoding_start server;
  headers_decoded = decoded_headers server;
  decoding_ended = decoding_end server;
}

-- A client's `decoder_begin` does nothing.
abbrev pub client_side : Callbacks → ℕ → Side Response Request (ClientResponse Response)
client_side callbacks code = record {
  traits = client callbacks code;
  as_message = response;
  of_message = to_response;
  decoding_start = begin_message (client callbacks code);
  headers_decoded = client_decoded_headers (client callbacks code);
  decoding_ended = client_decoding_end (client callbacks code);
}

pub record Receiver (M N R : Type 0) : Type 0 where
  pub decoder : Decoder
  pub core : Core M N R

-- The parser goes on only if a call returns 0.
abbrev pub if_zero : {A : Type 0} {B : Type 0} → (A → Option B) → A × ℕ → Option B
if_zero f (a, zero) = f a
if_zero f (a, suc n) = none

module _ {M N R : Type 0} (side : Side M N R) where
  -- What the decoder's pointer shows.
  abbrev pub point_at : M → Option Message → Option Message
  point_at m none = none
  point_at m (some x) = some (Side.as_message side m)

  -- What the decoder has done to the message is done to the handler's.
  abbrev pub write_back : Option Message → Core M N R → Option (Core M N R)
  write_back none c = some c
  write_back (some x) c = Side.of_message side x >>= λ m. some record c { current = m }

  abbrev pub aim : M → Event → Event
  aim m (message_begin x) = message_begin (Side.as_message side m)
  aim m e = e

  -- The callbacks as `start` registers them.
  unfoldable pub dispatch : Callback → Core M N R → Option (Core M N R)
  dispatch begin_cb c = some (Side.decoding_start side c)
  dispatch header_cb c = Side.headers_decoded side c
  dispatch (body_cb b) c = some (decoded_body (Side.traits side) b c)
  dispatch (trailer_cb k v) c = some (decoded_trailer (Side.traits side) k v c)
  dispatch completion_cb c = some (Side.decoding_ended side c)
  dispatch error_cb c = decoding_failure (Side.traits side) c

  unfoldable pub dispatch_all : List Callback → Core M N R → Option (Core M N R)
  dispatch_all [] c = some c
  dispatch_all (x ∷ xs) c = dispatch x c >>= dispatch_all xs

  unfoldable pub settle : Core M N R → ℕ → Decoder × List Callback → Option (Receiver M N R × ℕ)
  settle c code (d, xs) = write_back d.message c >>= λ c'.
      dispatch_all xs c' >>= λ c''. some (record { decoder = d; core = c'' }, code)

  -- The decoder as it stands, with its message looked up.
  abbrev pub aimed : Receiver M N R → Decoder
  aimed r = record r.decoder { message = point_at r.core.current r.decoder.message }

  module _ (parse_url : Bytes → Bool → Url → Url × Bool) where
    -- A call of the parser, with the number returned to it. Only `on_url` returns one that is not 0.
    unfoldable pub receive : Receiver M N R → Event → Option (Receiver M N R × ℕ)
    receive r (url_part s) = on_url parse_url (aimed r) s >>= λ p. settle r.core p.1 (p.0, [])
    receive r e = handle parse_url (aimed r) (aim r.core.current e) >>= settle r.core 0

    -- Calls one after the other, as long as each returns 0.
    unfoldable pub receive_all : Receiver M N R → List Event → Option (Receiver M N R)
    receive_all r [] = some r
    receive_all r (e ∷ es) = receive r e >>= if_zero (λ t. receive_all t es)

    unfoldable pub follow :
        {P : Type 0} → Execution P → Receiver M N R → Option (Receiver M N R × P × ℕ × Bool)
    follow (finished p n good) r = some (r, p, n, good)
    follow (calls e k) r = receive r e >>= λ x. follow (k x.1) x.0

  -- The fatal branch of `on_parser_error`.
  unfoldable pub on_parser_error : Receiver M N R → Option (Receiver M N R)
  on_parser_error r =
      dispatch error_cb r.core >>= λ c. some record { decoder = reset r.decoder; core = c }

  module _ {P : Type 0} (parser : HttpParser P) where
    -- What follows a run of the parser over `data'`, with the rest of the loop as an argument.
    unfoldable pub decode_next :
        (P → Receiver M N R → Bytes → Option (P × Receiver M N R × Bool))
        → Bytes
        → Receiver M N R × P × ℕ × Bool
        → Option (P × Receiver M N R × Bool)
    decode_next rest data' (r, p, n, true) = rest p r (drop n data')
    decode_next rest data' (r, p, n, false) =
        on_parser_error r >>= λ r'. some (HttpParser.initial parser, r', false)

    -- `decode`, with fuel for the rounds of its loop.
    unfoldable pub decode_loop : ℕ → P → Receiver M N R → Bytes → Option (P × Receiver M N R × Bool)
    decode_loop zero p r data' = none
    decode_loop (suc fuel) p r [] = some (p, r, true)
    decode_loop (suc fuel) p r (b ∷ bs) =
        follow (HttpParser.parse_url parser) (HttpParser.execute parser p (b ∷ bs)) r
        >>= decode_next (decode_loop fuel) (b ∷ bs)

    unfoldable pub on_read : P → Receiver M N R → Bytes → Option (P × Receiver M N R × Bool)
    on_read p r data' = decode_loop (suc (length data')) p r data'
