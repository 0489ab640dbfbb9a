-- ===== src/Lib.antt =====
-- doormat, a reverse proxy for HTTP/1 and HTTP/2 written in C++.
--
-- The program reads bytes from a socket into a reusable buffer, decodes them into messages, hands the
-- messages to handlers, and encodes what the handlers answer for HTTP/1 or HTTP/2. The parts that
-- are modelled, by the file that models them:
--   Buffer       src/utils/reusable_buffer.h: the ring of bytes that connections read into.
--   Multiplexer  src/http/client/client_connection_multiplexer.{h,cpp}: several users of one client
--                connection, whose timeouts share one timer.
--   Utils        src/utils/utils.{h,cpp}: comparisons of strings and hexadecimal texts.
--   Headers      src/http/http_structured_data.{h,cpp} and the constants of src/http/http_commons.h:
--                header fields, and the flags and numbers derived from them.
--   Messages     src/http/http_request.{h,cpp} and src/http/http_response.{h,cpp}.
--   Codec        src/http/http_codec.{h,cpp}: the encoder for HTTP/1; Codec/Decoder, also
--                src/http/http_codec_impl.h: what the decoder does with the calls of http_parser.
--   Http2        src/http2: Http2/Stream is the sending side of a server's stream, stream.{h,cpp},
--                Http2/Client that of a client's, stream_client.{h,cpp}; Http2/Incoming is what a
--                server's stream receives, with on_header_callback of session.cpp, and Http2/Session
--                the rest of session.{h,cpp}; Http2/Frames are the callbacks on the frames of a request,
--                Http2/ClientFrames those of session_client.{h,cpp} on the frames of a response, with
--                what a client's stream receives; Http2/ClientSession has the rest of that session.
--   Connector    src/connector.h: reads and writes of a socket for the handler of a connection, as
--                functions and, in Connector, as the relations Step and Reach.
--   Objects      src/http/server and src/http/client, {request,response}.{h,cpp} of each: what users
--                send from and receive into.
--   Handler      src/protocol/handler_http1.h and http_handler.{h,cpp}: the HTTP/1 handler between
--                connector, codec and objects; Handler/Sending, Handler/Receiving and Handler/Closing
--                have its operations, Handler/Sides the server and the client; Handler/Decoding reads,
--                with the decoder and the loop of http_codec.
--   Alpn         the choice of a protocol in src/network/communicator/dns_communicator_factory.cpp
--                and src/protocol/handler_factory.cpp.
--   Communicator the rest of src/network/communicator/dns_communicator_factory.{h,cpp}: an attempt to get
--                a connector, as callbacks and as the relations Step and Reach.
--   Sni          src/utils/sni_solver.{h,cpp}: the choice of a certificate.
--   Base         what these share: Boolean tests, lists over the native numbers, byte strings.
-- Utils is used by Headers and Codec; Headers is the base of both messages in Messages; Http2 takes a
-- response of Messages and translates its fields. Connector reads into a Buffer and takes its handler by
-- the interface HttpHandler, which Handler and Http2/Session fill; Handler encodes and decodes with
-- Codec. A module `Tests` or `Examples` below a part applies its theorems to concrete data.
--
-- An object is a record of its fields, and a method a function that takes the object and returns it
-- changed, with its result. A function keeps the name it has in the source; where a name stands for
-- several overloads, the setters have names of their own: `chunk`, `keep` and `measure` are
-- `chunked(val)`, `keepalive(val)` and `content_len(val)`, `set_protocol` is `protocol(val)`. Failed
-- assertions and exceptions that leave a `noexcept` function are `none`. Calls of callbacks, of
-- nghttp2 and of the session are entries of an output. A `size_t` is a natural number with its
-- wrap-around written out where it can occur.
--
-- Bounds: a number of 64 bits is printed with at most 16 hexadecimal or 20 decimal digits, which is
-- the fuel of `hex_digits` and `dec_digits`; the round trips below show that it is enough. `GCD` is
-- a recursion on the accessibility of its second argument and needs no fuel. `poll_loop` has fuel for
-- the rounds of an object, a header, a body, each trailer and the last one, and `select_loop` for the
-- bytes of an offer; the theorems on `poll_local` and `select_proto` show that both are enough. So it
-- is with `decode_loop`, which has fuel for as many runs of the parser as there are bytes.
--
-- Not modelled: http_parser and its parser of URLs, which are parameters; nghttp2, which is a parameter; pushes and
-- on_read of the HTTP/2 sessions; OpenSSL, whose checks are parameters; the
-- resolution of names and the sockets themselves; start-up, logging, allocation and the
-- libraries that come with the repository (http_parser, date, json, base64), which are input and output or
-- code of others.
pub mod Base
pub mod Buffer
pub mod Multiplexer
pub mod Utils
pub mod Headers
pub mod Messages
pub mod Codec
pub mod Http2
pub mod Connector
pub mod Objects
pub mod Handler
pub mod Alpn
pub mod Sni
pub mod Communicator
