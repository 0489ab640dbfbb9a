-- ===== src/Http2/RequestFrames.antt =====
-- A request that a server receives over HTTP/2, from its first frame to its last.
use doormat.Base.{
  ◌≡◌, refl, sym, ap, ◌∙◌, true, false, Option, none, some, List, [], ◌∷◌, ◌++◌, Bytes, some-inj,
  bind-some,
}
use doormat.Headers.{◌>>=◌}
use doormat.Messages.{Request}
use doormat.Objects.Remote.{Remote, Trigger, headers, body, trailer, finished, trigger, trigger_all}
use doormat.Objects.Remote
use doormat.Http2.Incoming.{
  Incoming, on_header_callback, on_request_header_complete, on_request_body, on_request_finished,
}
use doormat.Http2.RequestFields.{with_fields, with_fields-Untold, new_stream-Untold}
use doormat.Http2.Frames.{
  request_headers, FrameCall, begin_headers, frame_recv, ServerStream, new_stream, on_call,
  on_calls, on_begin_headers_callback, on_field, on_frame_recv_callback,
  on_data_chunk_recv_callback, finish_if,
}
use doormat.Http2.FrameCalls.{
  Fields, fields, chunks, more_data, last_data, trailing, data_frames, pieces, Rest, nothing,
  by_data, by_trailers, is_nothing, calls_of, body_of, opening, message_calls, bodies,
  bodies-append,
}

trigger_all-append :
    (xs ys : List (Trigger Request)) (o : Remote Request)
    → trigger_all (xs ++ ys) o ≡ trigger_all ys (trigger_all xs o)
trigger_all-append [] ys o = refl
trigger_all-append (x ∷ xs) ys o = trigger_all-append xs ys (trigger x o)

bodies_told :
    (xs ys : List Bytes) (o : Remote Request)
    → trigger_all (bodies ys) (trigger_all (bodies xs) o) ≡ trigger_all (bodies (xs ++ ys)) o
bodies_told xs ys o =
    sym (trigger_all-append (bodies xs) (bodies ys) o)
    ∙ ap (λ l. trigger_all l o) (sym (bodies-append xs ys))

module _ (moved : Request → Request) (origin : Bytes) where
  on_calls-append :
      (xs ys : List FrameCall) (st : Option ServerStream) (t : Option ServerStream)
      → on_calls moved origin xs st ≡ some t
      → on_calls moved origin (xs ++ ys) st ≡ on_calls moved origin ys t
  unfolding on_calls
  on_calls-append [] ys st t h = ap (on_calls moved origin ys) (some-inj h)
  on_calls-append (x ∷ xs) ys st t h =
      let (s, h1, h2) = bind-some (on_call moved origin x st) (on_calls moved origin xs) h in
      ap (λ v. v >>= on_calls moved origin (xs ++ ys)) h1 ∙ on_calls-append xs ys s t h2

  -- The fields of the header as nghttp2 hands them over.
  on_calls-fields :
      (rest : Rest) (fs : Fields) (s : ServerStream) (i : Incoming)
      → with_fields fs s.incoming ≡ some i
      → on_calls moved origin (fields (opening request_headers rest) fs) (some s)
        ≡ some (some (record s { incoming = i }))
  unfolding on_calls on_call on_field
  on_calls-fields rest [] s i h = ap (λ v. some (some (record s { incoming = v }))) (some-inj h)
  on_calls-fields rest (f ∷ fs) s i h =
      let (k, h1, h2) = bind-some (on_header_callback f.0 f.1 s.incoming) (with_fields fs) h in
      ap
        (λ v.
          ((v >>= λ j. some (record s { incoming = j })) >>= λ t. some (some t))
          >>= on_calls moved origin (fields (opening request_headers rest) fs))
        h1
      ∙ on_calls-fields rest fs (record s { incoming = k }) i h2

  abbrev told : List (Trigger Request) → Remote Request → ServerStream → ServerStream
  told ts o s = record s { incoming = record s.incoming { req = some (trigger_all ts o) } }

  on_calls-chunks :
      (bs : List Bytes) (s : ServerStream) (o : Remote Request)
      → s.incoming.req ≡ some o
      → on_calls moved origin (chunks bs) (some s) ≡ some (some (told (bodies bs) o s))
  unfolding on_calls on_call on_data_chunk_recv_callback on_request_body
  on_calls-chunks [] s o h =
      ap (λ v. some (some (record s { incoming = record s.incoming { req = v } }))) h
  on_calls-chunks (b ∷ bs) s o h =
      ap
        (λ v.
          (((v >>= λ o. some (record s.incoming { req = some (trigger (body b) o) })) >>= λ i.
          some (record s { incoming = i }))
            >>= λ t. some (some t))
          >>= on_calls moved origin (chunks bs))
        h
      ∙ on_calls-chunks bs (told (body b ∷ []) o s) (trigger (body b) o) refl

  -- A DATA frame that does not end the message has no effect of its own.
  on_calls-more_data :
      (cs : List FrameCall) (s : ServerStream)
      → on_calls moved origin (frame_recv more_data ∷ cs) (some s)
        ≡ on_calls moved origin cs (some s)
  unfolding on_calls on_call on_frame_recv_callback
  on_calls-more_data cs s = refl

  on_calls-data_frames :
      (fss : List (List Bytes)) (s : ServerStream) (o : Remote Request)
      → s.incoming.req ≡ some o
      → on_calls moved origin (data_frames fss) (some s)
        ≡ some (some (told (bodies (pieces fss)) o s))
  unfolding on_calls
  on_calls-data_frames [] s o h =
      ap (λ v. some (some (record s { incoming = record s.incoming { req = v } }))) h
  on_calls-data_frames (bs ∷ fss) s o h =
      let t = told (bodies bs) o s in
      on_calls-append (chunks bs) (frame_recv more_data ∷ data_frames fss) (some s) (some t)
        (on_calls-chunks bs s o h)
      ∙ on_calls-more_data (data_frames fss) t
      ∙ on_calls-data_frames fss t (trigger_all (bodies bs) o) refl
      ∙ ap (λ v. some (some (record s { incoming = record s.incoming { req = some v } })))
          (bodies_told bs (pieces fss) o)

  -- The fields of another HEADERS frame are passed over.
  on_calls-trailers :
      (fs : Fields) (st : Option ServerStream)
      → on_calls moved origin (fields trailing fs) st ≡ some st
  unfolding on_calls on_call on_field
  on_calls-trailers [] st = refl
  on_calls-trailers (f ∷ fs) st = on_calls-trailers fs st

  -- The stream once it has let go of its object.
  abbrev left : List (Trigger Request) → Remote Request → ServerStream → ServerStream
  left ts o s = record {
    incoming = record s.incoming { req = none };
    let_go = some (trigger finished (trigger_all ts o));
  }

  finish_if-object :
      (s : ServerStream) (o : Remote Request)
      → s.incoming.req ≡ some o
      → finish_if true s ≡ some (left [] o s)
  unfolding on_request_finished
  finish_if-object s o h =
      let gone = λ (o : Remote Request).
        let out : Option (Incoming × Remote Request) =
          some (record s.incoming { req = none }, trigger finished o) in
        out in
      ap (λ v. (v >>= gone) >>= λ p. some (record { incoming = p.0; let_go = some p.1 })) h

  on_calls-last_data :
      (s : ServerStream) (o : Remote Request)
      → s.incoming.req ≡ some o
      → on_calls moved origin (frame_recv last_data ∷ []) (some s) ≡ some (some (left [] o s))
  unfolding on_calls on_call on_frame_recv_callback
  on_calls-last_data s o h =
      ap (λ v. (v >>= λ t. some (some t)) >>= on_calls moved origin []) (finish_if-object s o h)

  on_calls-trailing :
      (ts : Fields) (s : ServerStream) (o : Remote Request)
      → s.incoming.req ≡ some o
      → on_calls moved origin
          (begin_headers trailing ∷ (fields trailing ts ++ (frame_recv trailing ∷ [])))
          (some s)
        ≡ some (some (left [] o s))
  unfolding on_calls on_call on_frame_recv_callback on_begin_headers_callback
  on_calls-trailing ts s o h =
      on_calls-append (fields trailing ts) (frame_recv trailing ∷ []) (some s) (some s)
        (on_calls-trailers ts (some s))
      ∙ ap (λ v. (v >>= λ t. some (some t)) >>= on_calls moved origin []) (finish_if-object s o h)

  -- What follows a header that does not end the message.
  on_calls-calls_of :
      (rest : Rest) (s : ServerStream) (o : Remote Request)
      → is_nothing rest ≡ false
      → s.incoming.req ≡ some o
      → on_calls moved origin (calls_of rest) (some s)
        ≡ some (some (left (bodies (body_of rest)) o s))
  on_calls-calls_of nothing s o n h = absurd (cc)
  on_calls-calls_of (by_data fss bs) s o n h =
      let t = told (bodies (pieces fss)) o s in
      let p = trigger_all (bodies (pieces fss)) o in
      let u = told (bodies bs) p s in
      on_calls-append (data_frames fss) (chunks bs ++ (frame_recv last_data ∷ [])) (some s) (some t)
        (on_calls-data_frames fss s o h)
      ∙ on_calls-append (chunks bs) (frame_recv last_data ∷ []) (some t) (some u)
          (on_calls-chunks bs t p refl)
      ∙ on_calls-last_data u (trigger_all (bodies bs) p) refl
      ∙ ap (λ v. some (some (left [] v s))) (bodies_told (pieces fss) bs o)
  on_calls-calls_of (by_trailers fss ts) s o n h =
      let t = told (bodies (pieces fss)) o s in
      on_calls-append (data_frames fss)
        (begin_headers trailing ∷ (fields trailing ts ++ (frame_recv trailing ∷ []))) (some s)
        (some t) (on_calls-data_frames fss s o h)
      ∙ on_calls-trailing ts t (trigger_all (bodies (pieces fss)) o) refl

  -- The stream behind its header.
  abbrev opened : Remote Request → ServerStream → ServerStream
  opened o s = record s {
    incoming = record s.incoming {
      request = moved s.incoming.request;
      req = some (trigger (headers s.incoming.request) o);
      headers_sent = true;
    };
  }

  on_calls-opening :
      (rest : Rest) (s : ServerStream) (o : Remote Request)
      → s.incoming.req ≡ some o
      → on_call moved origin (frame_recv (opening request_headers rest)) (some s)
        ≡ (finish_if (is_nothing rest) (opened o s) >>= λ t. some (some t))
  unfolding on_call on_frame_recv_callback on_request_header_complete
  on_calls-opening rest s o h =
      ap
        (λ v.
          (((v >>= λ o. some (record s.incoming {
            request = moved s.incoming.request;
            req = some (trigger (headers s.incoming.request) o);
            headers_sent = true;
          }))
              >>= λ i. some (record s { incoming = i }))
            >>= finish_if (is_nothing rest))
          >>= λ t. some (some t))
        h

  on_calls-message :
      (rest : Rest) (s : ServerStream) (o : Remote Request)
      → s.incoming.req ≡ some o
      → on_calls moved origin (frame_recv (opening request_headers rest) ∷ calls_of rest) (some s)
        ≡ some (
            some
              (left (bodies (body_of rest)) (trigger (headers s.incoming.request) o) (opened o s)))
  unfolding on_calls
  on_calls-message nothing s o h =
      ap (λ v. v >>= on_calls moved origin [])
        (on_calls-opening nothing s o h
          ∙ ap (λ v. v >>= λ t. some (some t))
              (finish_if-object (opened o s) (trigger (headers s.incoming.request) o) refl))
  on_calls-message (by_data fss bs) s o h =
      ap (λ v. v >>= on_calls moved origin (calls_of (by_data fss bs)))
        (on_calls-opening (by_data fss bs) s o h)
      ∙ on_calls-calls_of (by_data fss bs) (opened o s) (trigger (headers s.incoming.request) o)
          refl refl
  on_calls-message (by_trailers fss ts) s o h =
      ap (λ v. v >>= on_calls moved origin (calls_of (by_trailers fss ts)))
        (on_calls-opening (by_trailers fss ts) s o h)
      ∙ on_calls-calls_of (by_trailers fss ts) (opened o s) (trigger (headers s.incoming.request) o)
          refl refl

  on_calls-begin :
      (rest : Rest) (st : Option ServerStream) (s : ServerStream) (cs : List FrameCall)
      → new_stream origin ≡ some s
      → on_calls moved origin (begin_headers (opening request_headers rest) ∷ cs) st
        ≡ on_calls moved origin cs (some s)
  unfolding on_calls on_call on_begin_headers_callback
  on_calls-begin rest st s cs h =
      ap (λ v. (v >>= λ t. some (some t)) >>= on_calls moved origin cs) h

  -- A request that a server receives over HTTP/2, whose header fields it takes, and which its header, a
  -- DATA frame or trailers end: its object is told of the header, of each piece of the body in order,
  -- over all DATA frames, and of the end, and of nothing else, and the stream lets go of it. The
  -- trailers are lost.
  pub on_calls-request :
      (fs : List (Bytes × Bytes)) (rest : Rest) (st : Option ServerStream) (s : ServerStream)
      (i : Incoming)
      → new_stream origin ≡ some s
      → with_fields fs s.incoming ≡ some i
      → on_calls moved origin (message_calls request_headers fs rest) st
        ≡ some (
            some (record {
              incoming = record i { request = moved i.request; req = none; headers_sent = true };
              let_go = some (
                  trigger_all
                    (headers i.request ∷ (bodies (body_of rest) ++ (finished ∷ [])))
                    doormat.Objects.Remote.make);
            }))
  on_calls-request fs rest st s i new taken =
      let (no_object, unsent) = new_stream-Untold origin s new in
      let (same, more) = with_fields-Untold fs s.incoming i unsent taken in
      let made : Remote Request = doormat.Objects.Remote.make in
      let s1 : ServerStream = record s { incoming = i } in
      let behind = frame_recv (opening request_headers rest) ∷ calls_of rest in
      on_calls-begin rest st s (fields (opening request_headers rest) fs ++ behind) new
      ∙ on_calls-append (fields (opening request_headers rest) fs) behind (some s) (some s1)
          (on_calls-fields rest fs s i taken)
      ∙ on_calls-message rest s1 made (same ∙ no_object)
      ∙ ap
          (λ v. some (
            some (record {
              incoming = record i { request = moved i.request; req = none; headers_sent = true };
              let_go = some v;
            })))
          (sym (
            trigger_all-append (bodies (body_of rest)) (finished ∷ [])
              (trigger (headers i.request) made)))
