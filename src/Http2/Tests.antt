-- ===== src/Http2/Tests.antt =====
-- The theorems on a stream at a body of eight bytes that is read four bytes at a time.
use doormat.Base.{
  ℕ, Bytes, none, map, ◌≢◌, ◌≤◌, ◌≡◌, ◌↔◌, ◌⊎◌, refl, ◌&&◌, true, false, some, [], ◌∷◌, ◌++◌, arith,
  codes, bytes_eq, length, if◌then◌else◌,
}
use doormat.Headers.Store.{Multimap, equal_range, IsSorted, bytes_lt}
use doormat.Headers.{StructuredData, blank, has}
use doormat.Http2.Stream.{
  Stream, die, data_source_read_callback, body_empty, translate, on_header, submit_response,
  do_write,
}
use doormat.Http2.Reading.{
  pending, IsValid, bytes_of, eof_of, data_source_read_callback-pending,
  data_source_read_callback-eof,
}
use doormat.Messages.{Request, Response, make_request, target}
use doormat.Http2.Client.{pseudo_headers}
use doormat.Http2.Incoming.{on_path}
use doormat.Http2.Target.{target-on_path}
use doormat.Objects.Remote.{ErrorCode}
use doormat.Http2.Session.{
  Session, Reach, here, next, created, acted, place, new_stream, create_stream, subscribe, count,
  act, perform, on_connector_nulled,
}
use doormat.Http2.Listeners.{present, streams_told}
use doormat.Http2.Prepared.{at_most_one, on_header-prepared, status_under}
use doormat.Http2.Fields.{is_forbidden, transfer_encoding, translate_fields}

abbrev eight_bytes : Stream
eight_bytes = record {
  status = 200;
  headers_sent = true;
  body_sent = false;
  resume_needed = false;
  eof = true;
  errored = false;
  closed = false;
  body = codes "aaaabbbb" ∷ [];
  body_index = 0;
  trailers = [];
  prepared_headers = [];
}

eight_bytes-IsValid : IsValid eight_bytes
eight_bytes-IsValid = record { inside = omega arith; fits = omega arith }

data_source_read_callback-pending_example :
    let (t, r) = data_source_read_callback eight_bytes 4 in
    (pending eight_bytes ≡ bytes_of r ++ pending t) × (length (bytes_of r) ≤ 4) × IsValid t
data_source_read_callback-pending_example =
    data_source_read_callback-pending eight_bytes 4 eight_bytes-IsValid

data_source_read_callback-eof_example :
    let (t, r) = data_source_read_callback eight_bytes 4 in
    (eof_of r ≡ true) ↔ ((body_empty t ≡ true) ⊎ (length (pending t) ≡ 4))
data_source_read_callback-eof_example =
    data_source_read_callback-eof eight_bytes 4 eight_bytes-IsValid (omega arith) refl refl

-- Here the frame with the first four bytes is marked as the last one.
cut_short : eof_of (data_source_read_callback eight_bytes 4).1 ≡ true
unfolding data_source_read_callback
cut_short = refl

abbrev fields : Multimap
fields =
    (codes "connection", codes "close")
    ∷ (codes "transfer-encoding", codes "chunked")
    ∷ (codes "via", codes "a")
    ∷ (codes "via", codes "b")
    ∷ []

fields-IsSorted : IsSorted fields
unfolding bytes_lt
fields-IsSorted = ((refl, (refl, (refl, tt))), ((refl, (refl, tt)), ((refl, tt), (tt, tt))))

abbrev proxied : StructuredData
proxied = record blank { headers = fields }

translate_fields_example :
    (e : StructuredData) × (translate proxied ≡ some e)
    × (equal_range (codes "via") e.headers ≡ (
        if has proxied transfer_encoding && bytes_eq transfer_encoding (codes "via")
        then codes "trailers" ∷ []
        else if is_forbidden (codes "via")
        then []
        else equal_range (codes "via") fields))
translate_fields_example = translate_fields proxied fields-IsSorted (codes "via")

abbrev answered : Response
answered = record { base = proxied; status_code = 200; status_message = codes "OK" }

abbrev translated : StructuredData
translated = (translate_fields proxied fields-IsSorted (codes "via")).0

abbrev unsent : Stream
unsent = record eight_bytes { headers_sent = false; body = []; eof = false }

on_header-prepared_example :
    (t : Stream) × (m : Multimap) × (on_header unsent answered
      ≡ some (t, submit_response m ∷ do_write ∷ []))
    × ((j : Bytes)
        → equal_range j m ≡ at_most_one (status_under j 200 ++ equal_range j translated.headers))
on_header-prepared_example =
    on_header-prepared unsent answered translated refl refl refl refl refl
      (translate_fields proxied fields-IsSorted (codes "via")).1

abbrev search : Request
search = record (make_request blank false 1) { path = codes "/find"; query = codes "a=b" }

target-on_path_example :
    target (on_path (pseudo_headers search).path (make_request blank false 1))
    ≡ codes "/find" ++ (codes "??" ++ (codes "a=b" ++ (codes "#?" ++ codes "a=b")))
target-on_path_example =
    target-on_path search (make_request blank false 1) 47 97 (codes "find") (codes "=b") refl refl
      (
        (λ e. omega (arith, e)),
        (
          (λ e. omega (arith, e)),
          ((λ e. omega (arith, e)), ((λ e. omega (arith, e)), ((λ e. omega (arith, e)), tt))),
        ),
      )
      ((λ e. omega (arith, e)), ((λ e. omega (arith, e)), ((λ e. omega (arith, e)), tt)))

-- A session whose nghttp2 is the bytes that it has to send.
abbrev empty_session : Session Bytes
empty_session = record {
  session_data = [];
  listeners = [];
  pending = [];
  streams = λ id. none;
  stream_counter = 0;
  connected = true;
  user_close = false;
  gone = false;
  errors = [];
  told = [];
  failed = [];
  asked = [];
  timeouts = 0;
}

abbrev one_stream : Session Bytes
one_stream = record empty_session {
  listeners = 5 ∷ [];
  streams = place 5 (some new_stream) empty_session.streams;
  stream_counter = 1;
}

abbrev one_closed : Session Bytes
one_closed = record one_stream {
  streams = place 5 (some (record new_stream { closed = true })) one_stream.streams;
}

one_closed-Reach : Reach empty_session one_closed
unfolding create_stream subscribe count act perform die
one_closed-Reach = next (next here (created 5 refl refl)) (acted 5 die refl)

streams_told_example :
    ((create_stream 5 one_closed ≡ none) ↔ (one_closed.streams 5 ≢ none))
    × (count 5 (map (λ (p : ℕ × ErrorCode). p.0) (on_connector_nulled one_closed).told)
        ≡ present (one_closed.streams 5))
streams_told_example =
    streams_told empty_session one_closed refl (λ id. refl) one_closed-Reach refl 5
