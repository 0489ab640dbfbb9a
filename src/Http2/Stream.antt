-- ===== src/Http2/Stream.antt =====
-- src/http2/stream.{h,cpp}: what a server sends on one HTTP/2 stream. The calls that a stream makes
-- of nghttp2, of its session, of the user's response and of its destructor are entries of the output,
-- and those of nghttp2 are taken to succeed (the source asserts it). The arrays `nva` and
-- `trailers_nva` only copy the fields of `prepared_headers` and `trailers`.
use doormat.Base.{
  ℕ, ◌+◌, ◌-◌, ◌%◌, ◌^◌, min, ◌&&◌, ◌||◌, not, Bool, true, false, Option, none, some, List, [], ◌∷◌,
  ◌++◌, Bytes, codes, bytes_eq, ◌==◌, if◌then◌else◌, length, take, drop, is_empty,
}
use doormat.Utils.{icompare}
use doormat.Headers.Store.{Multimap, insert, find}
use doormat.Headers.Number.{to_string}
use doormat.Headers.{StructuredData, ◌>>=◌, filter, has, header, remove_header}
use doormat.Messages.{Response}

pub record Stream : Type 0 where
  pub status : ℕ
  pub headers_sent : Bool
  pub body_sent : Bool
  pub resume_needed : Bool
  pub eof : Bool
  pub errored : Bool
  pub closed : Bool
  pub body : List Bytes
  pub body_index : ℕ
  pub trailers : Multimap
  pub prepared_headers : Multimap

-- The calls that a stream makes.
pub data Call : Type 0 where
  resume_data do_write destroy cleared_callback : Call
  submit_response submit_trailer submit_headers : Multimap → Call

abbrev pub has_trailers : Stream → Bool
has_trailers s = not (is_empty s.trailers)

abbrev pub chunks_empty : List Bytes → ℕ → Bool
chunks_empty [] index = true
chunks_empty (c ∷ []) index = length c == index
chunks_empty (c ∷ d ∷ cs) index = false

abbrev pub body_empty : Stream → Bool
body_empty s = chunks_empty s.body s.body_index

abbrev pub defer : Stream → Bool
defer s = not s.eof && (not (has_trailers s) && body_empty s)

-- The sum of the sizes, for the chunks behind the first.
abbrev pub sizes : List Bytes → ℕ
sizes [] = 0
sizes (c ∷ cs) = length c + sizes cs

-- A `size_t`.
abbrev pub chunks_length : List Bytes → ℕ → ℕ
chunks_length [] index = 0
chunks_length (c ∷ cs) index = (2 ^ 64 + (length c + sizes cs) - index) % 2 ^ 64

abbrev pub body_length : Stream → ℕ
body_length s = chunks_length s.body s.body_index

abbrev pub is_last_frame : Stream → ℕ → Bool
is_last_frame s length = s.eof && (not (has_trailers s) && (body_length s == length))

abbrev pub body_eof : Stream → Bool
body_eof s = body_empty s && (s.eof || has_trailers s)

-- What `data_source_read_callback` tells nghttp2: to wait, or the bytes written into the buffer with
-- the flags EOF and NO_END_STREAM.
pub data Reading : Type 0 where
  deferred : Reading
  copied : Bytes → Bool → Bool → Reading

-- The chunks and the index after a copy from the first chunk into a buffer of `room` bytes, with the
-- bytes copied.
abbrev pub copy_chunks : List Bytes → ℕ → ℕ → List Bytes × ℕ × Bytes
copy_chunks [] index room = ([], index, [])
copy_chunks (c ∷ cs) index room =
    let r = min (length c - index) room in
    if index + r == length c
    then (cs, 0, take r (drop index c))
    else (c ∷ cs, index + r, take r (drop index c))

abbrev pub copy : Stream → ℕ → Stream × Bytes
copy s room =
    let (chunks, index, bytes) = copy_chunks s.body s.body_index room in
    (record s { body = chunks; body_index = index }, bytes)

unfoldable pub data_source_read_callback : Stream → ℕ → Stream × Reading
data_source_read_callback s room =
    if defer s
    then (record s { resume_needed = true }, deferred)
    else let (t, bytes) = if body_empty s then (s, []) else copy s room in
      if body_eof t || is_last_frame t room
      then (record t { body_sent = true }, copied bytes true (has_trailers s))
      else (t, copied bytes false (has_trailers s))

unfoldable pub flush : Stream → Stream × List Call
flush s =
    if s.closed
    then (s, [])
    else if s.status == 101
    then (s, submit_headers s.prepared_headers ∷ do_write ∷ [])
    else if s.resume_needed
    then (record s { resume_needed = false }, resume_data ∷ do_write ∷ [])
    else if not s.headers_sent
    then (record s { headers_sent = true }, submit_response s.prepared_headers ∷ do_write ∷ [])
    else if s.body_sent && s.eof
    then (s, submit_trailer s.trailers ∷ do_write ∷ [])
    else (s, do_write ∷ [])

unfoldable pub on_body : Stream → Bytes → Stream × List Call
on_body s data' = flush (record s { body = s.body ++ (data' ∷ []) })

-- For a stream that has a destructor.
unfoldable pub die : Stream → Stream × List Call
die s = if s.eof || s.errored then (s, destroy ∷ []) else (record s { closed = true }, [])

-- `response_alive` says whether the weak pointer `res` can be locked.
unfoldable pub on_eom : Stream → Bool → Stream × List Call
on_eom s response_alive =
    let t = record s { eof = true } in
    if s.closed
    then die t
    else let (u, calls) = flush t in
      (u, (if response_alive then cleared_callback ∷ [] else []) ++ calls)

unfoldable on_trailer : Stream → Bytes → Bytes → Stream
on_trailer s key value = record s { trailers = insert key value s.trailers }

-- The fields that an HTTP/2 message must not carry.
abbrev pub is_connection_specific : Bytes × Bytes → Bool
is_connection_specific h =
    icompare h.0 (codes "connection")
    || (icompare h.0 (codes "keep-alive")
        || (icompare h.0 (codes "upgrade") || icompare h.0 (codes "proxy-connection")))

-- `erase(found)` of the entry that `find` returns.
unfoldable pub erase_found : Bytes → Multimap → Multimap
erase_found k [] = []
erase_found k ((j, w) ∷ m) = if bytes_eq j k then m else (j, w) ∷ erase_found k m

-- One round of the loop over the fields in `on_header`.
unfoldable pub prepare : Multimap → Bytes → Bytes → Multimap
prepare prepared key value = elim (find key prepared) [
  | none ↦ insert key value prepared
  | some cval ↦ erase_found key (insert key (cval ++ (codes ", " ++ value)) prepared)
]

unfoldable pub prepare_all : Multimap → Multimap → Multimap
prepare_all prepared [] = prepared
prepare_all prepared ((k, v) ∷ m) = prepare_all (prepare prepared k v) m

-- The message without its connection, and with the transfer encoding that HTTP/2 allows.
unfoldable pub translate : StructuredData → Option StructuredData
translate resp =
    let kept = filter resp is_connection_specific in
    if has kept (codes "transfer-encoding")
    then header (remove_header kept (codes "transfer-encoding")) (codes "transfer-encoding")
        (codes "trailers")
    else some kept

unfoldable pub on_header : Stream → Response → Option (Stream × List Call)
on_header s resp = translate resp.base >>= λ d. some (
    flush (record s {
      status = resp.status_code;
      prepared_headers =
          prepare_all (insert (codes ":status") (to_string resp.status_code) s.prepared_headers)
            d.headers;
    }))
