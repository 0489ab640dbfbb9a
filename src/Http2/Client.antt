-- ===== src/Http2/Client.antt =====
-- src/http2/stream_client.{h,cpp}: what a client sends on one HTTP/2 stream. Its state is that of a
-- server's stream, and the tests on its body are the same; see Http2.Stream.
use doormat.Base.{
  ℕ, ◌&&◌, ◌||◌, not, Bool, true, false, Option, none, some, List, [], ◌∷◌, ◌++◌, Bytes, codes,
  bytes_eq, ◌==◌, if◌then◌else◌, is_empty,
}
use doormat.Utils.{icompare}
use doormat.Headers.Store.{Multimap}
use doormat.Headers.{StructuredData, ◌>>=◌, filter, has, header, get_header, hf_host, remove_header}
use doormat.Messages.{Request, method_name}
use doormat.Http2.Stream.{
  Stream, Reading, deferred, copied, defer, body_empty, body_eof, is_last_frame, has_trailers, copy,
  is_connection_specific, prepare_all,
}

-- `req_pseudo_headers`
pub record PseudoHeaders : Type 0 where
  pub method : Bytes
  pub scheme : Bytes
  pub authority : Bytes
  pub path : Bytes

abbrev pub init_path : Bytes → Bytes → Bytes
init_path path method =
    if is_empty path
    then (if bytes_eq method (codes "OPTIONS") then codes "*" else codes "/")
    else path

unfoldable pub pseudo_headers : Request → PseudoHeaders
pseudo_headers req = record {
  method = method_name req.method;
  scheme = req.schema;
  authority = get_header req.base hf_host;
  path =
      init_path req.path (method_name req.method)
      ++ (if is_empty req.query then [] else 63 ∷ req.query);
}

-- `data_source_read_callback` of a client, which tests for the last frame before it copies.
unfoldable pub client_read_callback : Stream → ℕ → Stream × Reading
client_read_callback s room =
    if defer s
    then (record s { resume_needed = true }, deferred)
    else let last = body_eof s || is_last_frame s room in
      let t = record s { body_sent = s.body_sent || last } in
      if body_empty s
      then (t, copied [] last (has_trailers s))
      else let (u, bytes) = copy t room in (u, copied bytes last (has_trailers s))

-- The calls that a client's stream makes. `submit_request` is `nghttp2_submit_request` without a
-- data provider.
pub data ClientCall : Type 0 where
  resume_data do_write destroy cleared_callback : ClientCall
  submit_request submit_headers : PseudoHeaders → Multimap → ClientCall
  submit_trailer : Multimap → ClientCall

unfoldable pub client_flush : PseudoHeaders → Stream → Stream × List ClientCall
client_flush p s =
    if s.closed
    then (s, [])
    else if s.status == 101
    then (s, submit_headers p s.prepared_headers ∷ do_write ∷ [])
    else if s.resume_needed
    then (record s { resume_needed = false }, resume_data ∷ do_write ∷ [])
    else if not s.headers_sent
    then (record s { headers_sent = true }, submit_request p s.prepared_headers ∷ do_write ∷ [])
    else if s.body_sent && s.eof
    then (s, submit_trailer s.trailers ∷ do_write ∷ [])
    else (s, do_write ∷ [])

unfoldable pub client_on_body : PseudoHeaders → Stream → Bytes → Stream × List ClientCall
client_on_body p s data' = client_flush p (record s { body = s.body ++ (data' ∷ []) })

unfoldable pub client_die : Stream → Stream × List ClientCall
client_die s = if s.eof || s.errored then (s, destroy ∷ []) else (record s { closed = true }, [])

-- `request_alive` says whether `req` is set.
unfoldable pub client_on_eom : PseudoHeaders → Stream → Bool → Stream × List ClientCall
client_on_eom p s request_alive =
    let t = record s { eof = true } in
    if s.closed
    then client_die t
    else let (u, calls) = client_flush p t in
      (u, (if request_alive then cleared_callback ∷ [] else []) ++ calls)

-- The fields that a client leaves out, the host among them.
abbrev pub is_left_out : Bytes × Bytes → Bool
is_left_out h = is_connection_specific h || icompare h.0 (codes "host")

unfoldable pub client_translate : StructuredData → Option StructuredData
client_translate req =
    let kept = filter req is_left_out in
    if has kept (codes "transfer-encoding")
    then header (remove_header kept (codes "transfer-encoding")) (codes "transfer-encoding")
        (codes "trailers")
    else some kept

abbrev pub all_present : PseudoHeaders → Bool
all_present p =
    not (is_empty p.method)
    && (not (is_empty p.scheme) && (not (is_empty p.path) && not (is_empty p.authority)))

-- `none` is a failed assertion.
unfoldable pub client_on_header : Stream → Request → Option (Stream × List ClientCall)
client_on_header s req = client_translate req.base >>= λ d.
    let p = pseudo_headers req in
    if all_present p
    then some
        (client_flush p (record s { prepared_headers = prepare_all s.prepared_headers d.headers }))
    else none
