-- ===== src/Http2/Responses.antt =====
-- A response that a client receives over HTTP/2, from its first frame to its last.
use doormat.Base.{
  ◌≡◌, refl, sym, ap, ◌∙◌, true, false, none, some, List, [], ◌∷◌, ◌++◌, Bytes, append_assoc,
  append-nil,
}
use doormat.Headers.{◌>>=◌}
use doormat.Messages.{Response}
use doormat.Objects.Remote.{Trigger, headers, finished}
use doormat.Objects.ClientResponse.{ClientResponse, trigger}
use doormat.Http2.Frames.{begin_headers, frame_recv, other_headers}
use doormat.Http2.ClientFrames.{
  ClientStream, on_response_finished, on_frame_recv_callback, on_call, on_calls, finish_if,
}
use doormat.Http2.FrameCalls.{
  Fields, fields, chunks, bodies, bodies-append, data_frames, pieces, last_data, trailing, Rest,
  nothing, by_data, by_trailers, has_trailing, calls_of, body_of, opening, message_calls,
}
use doormat.Http2.ResponseFrames.{
  with_fields, trailers, tell_all, ArePlain, tell_all-append, with_fields-Untold, on_calls-append,
  on_calls-fields, on_calls-chunks, on_calls-data_frames, on_calls-trailers, on_calls-header,
}

module _ (moved : Response → Response) where
  -- The stream behind its header, and once it has let go of its object.
  abbrev opened : ClientResponse Response → ClientStream → ClientStream
  opened o s = record s {
    res = some (trigger (headers s.response) o);
    headers_sent = true;
    response = moved s.response;
  }

  abbrev left : List (Trigger Response) → ClientResponse Response → ClientStream → ClientStream
  left ts o s = record s { res = none; let_go = some (tell_all (ts ++ (finished ∷ [])) o) }

  finish_if-object :
      (s : ClientStream) (o : ClientResponse Response)
      → s.res ≡ some o
      → finish_if true s ≡ some (left [] o s)
  unfolding on_response_finished
  finish_if-object s o h =
      ap (λ v. v >>= λ o. some (record s { res = none; let_go = some (trigger finished o) })) h

  left_told :
      (xs ys : List (Trigger Response)) (s : ClientStream) (o : ClientResponse Response)
      → left ys (tell_all xs o) s ≡ left (xs ++ ys) o s
  left_told xs ys s o =
      ap (λ v. record s { res = none; let_go = some v })
        (sym (tell_all-append xs (ys ++ (finished ∷ [])) o)
          ∙ ap (λ l. tell_all l o) (sym (append_assoc xs ys (finished ∷ []))))

  on_calls-last_data :
      (s : ClientStream) (o : ClientResponse Response)
      → s.res ≡ some o
      → on_calls moved (frame_recv last_data ∷ []) (some s) ≡ some (some (left [] o s))
  unfolding on_calls on_call on_frame_recv_callback
  on_calls-last_data s o h =
      ap (λ v. (v >>= λ t. some (some t)) >>= on_calls moved []) (finish_if-object s o h)

  -- The fields of the header, and the calls behind them.
  on_calls-start :
      (fs : Fields) (rest : Rest) (s i : ClientStream)
      → with_fields fs s ≡ some i
      → on_calls moved (message_calls other_headers fs rest) (some s)
        ≡ on_calls moved (frame_recv (opening other_headers rest) ∷ calls_of rest) (some i)
  unfolding on_calls on_call
  on_calls-start fs rest s i taken =
      on_calls-append moved (fields (opening other_headers rest) fs)
        (frame_recv (opening other_headers rest) ∷ calls_of rest) (some s) (some i)
        (on_calls-fields moved rest fs s i taken)

  on_calls-bare :
      (s : ClientStream) (o : ClientResponse Response)
      → s.res ≡ some o
      → on_calls moved (frame_recv (opening other_headers nothing) ∷ []) (some s)
        ≡ some (some (left [] (trigger (headers s.response) o) (opened o s)))
  unfolding on_calls
  on_calls-bare s o h =
      ap (λ v. v >>= on_calls moved [])
        (on_calls-header moved true s o h
          ∙ ap (λ v. v >>= λ t. some (some t))
              (finish_if-object (opened o s) (trigger (headers s.response) o) refl))

  on_calls-by_data :
      (fss : List (List Bytes)) (bs : List Bytes) (s : ClientStream) (o : ClientResponse Response)
      → s.res ≡ some o
      → on_calls moved (calls_of (by_data fss bs)) (some s)
        ≡ some (some (left (bodies (pieces fss ++ bs)) o s))
  on_calls-by_data fss bs s o h =
      let p = tell_all (bodies (pieces fss)) o in
      let t : ClientStream = record s { res = some p } in
      let u : ClientStream = record s { res = some (tell_all (bodies bs) p) } in
      on_calls-append moved (data_frames fss) (chunks bs ++ (frame_recv last_data ∷ [])) (some s)
        (some t) (on_calls-data_frames moved fss s o h)
      ∙ on_calls-append moved (chunks bs) (frame_recv last_data ∷ []) (some t) (some u)
          (on_calls-chunks moved bs t p refl)
      ∙ on_calls-last_data u (tell_all (bodies bs) p) refl
      ∙ ap (λ v. some (some v))
          (left_told (bodies bs) [] s p
            ∙ ap (λ l. left l p s) (append-nil (bodies bs))
            ∙ left_told (bodies (pieces fss)) (bodies bs) s o
            ∙ ap (λ l. left l o s) (sym (bodies-append (pieces fss) bs)))

  on_calls-untrailed :
      (rest : Rest) (s : ClientStream) (o : ClientResponse Response)
      → has_trailing rest ≡ false
      → s.res ≡ some o
      → on_calls moved (frame_recv (opening other_headers rest) ∷ calls_of rest) (some s)
        ≡ some (some (left (bodies (body_of rest)) (trigger (headers s.response) o) (opened o s)))
  unfolding on_calls
  on_calls-untrailed nothing s o n h = on_calls-bare s o h
  on_calls-untrailed (by_data fss bs) s o n h =
      ap (λ v. v >>= on_calls moved (calls_of (by_data fss bs))) (on_calls-header moved false s o h)
      ∙ on_calls-by_data fss bs (opened o s) (trigger (headers s.response) o) refl
  on_calls-untrailed (by_trailers fss ts) s o n h = absurd (cc)

  -- A response without trailers that a client receives over HTTP/2, whose header fields it takes, ended by
  -- its header or by a DATA frame: the object of the user is told of the header, of each piece of the
  -- body in order, over all DATA frames, and of the end, and of nothing else, and the stream lets go of
  -- it.
  pub on_calls-response :
      (fs : List (Bytes × Bytes)) (rest : Rest) (s i : ClientStream) (o : ClientResponse Response)
      → has_trailing rest ≡ false
      → s.res ≡ some o
      → s.headers_sent ≡ false
      → with_fields fs s ≡ some i
      → (t : ClientStream) × (on_calls moved (message_calls other_headers fs rest) (some s)
          ≡ some (some t))
        × (t.res ≡ none)
        × (t.let_go
            ≡ some (tell_all (headers i.response ∷ (bodies (body_of rest) ++ (finished ∷ []))) o))
  on_calls-response fs rest s i o n object unsent taken =
      let (same, more) = with_fields-Untold fs s i unsent taken in
      (
        left (bodies (body_of rest)) (trigger (headers i.response) o) (opened o i),
        on_calls-start fs rest s i taken ∙ on_calls-untrailed rest i o n (same ∙ object),
        refl,
        refl,
      )

  -- The trailers and the frame that they come in.
  on_calls-trailed :
      (ts : Fields) (s : ClientStream) (o : ClientResponse Response)
      → ArePlain ts
      → s.headers_sent ≡ true
      → s.res ≡ some o
      → on_calls moved
          (begin_headers trailing ∷ (fields trailing ts ++ (frame_recv trailing ∷ [])))
          (some s)
        ≡ some (
            some (
              left []
                (trigger (headers s.response) (tell_all (trailers ts) o))
                (opened (tell_all (trailers ts) o) s)))
  unfolding on_calls on_call
  on_calls-trailed ts s o plain sent h =
      let p = tell_all (trailers ts) o in
      let t : ClientStream = record s { res = some p } in
      on_calls-append moved (fields trailing ts) (frame_recv trailing ∷ []) (some s) (some t)
        (on_calls-trailers moved ts s o plain sent h)
      ∙ on_calls-bare t p refl

  -- A response that a client receives over HTTP/2, whose header fields it takes and which trailers end, in
  -- names other than `:authority` and `:status`: the object of the user is told of the header, of each
  -- piece of the body, over all DATA frames, and of each trailer in order, then of a header once more,
  -- with what is left of the response since it was handed over, and of the end; the stream lets go of it.
  pub on_calls-ended_by_trailers :
      (fs ts : List (Bytes × Bytes)) (fss : List (List Bytes)) (s i : ClientStream)
      (o : ClientResponse Response)
      → s.res ≡ some o
      → s.headers_sent ≡ false
      → with_fields fs s ≡ some i
      → ArePlain ts
      → (t : ClientStream) × (on_calls moved
            (message_calls other_headers fs (by_trailers fss ts))
            (some s)
          ≡ some (some t))
        × (t.res ≡ none)
        × (t.let_go
            ≡ some (
                tell_all
                  (headers i.response
                    ∷ (bodies (pieces fss)
                        ++ (trailers ts ++ (headers (moved i.response) ∷ (finished ∷ [])))))
                  o))
  unfolding on_calls
  on_calls-ended_by_trailers fs ts fss s i o object unsent taken plain =
      let (same, rest) = with_fields-Untold fs s i unsent taken in
      let told = trigger (headers i.response) o in
      let s2 = opened o i in
      let o3 = tell_all (bodies (pieces fss)) told in
      let s3 : ClientStream = record s2 { res = some o3 } in
      let o4 = tell_all (trailers ts) o3 in
      let more = headers (moved i.response) ∷ (finished ∷ []) in
      let last = begin_headers trailing ∷ (fields trailing ts ++ (frame_recv trailing ∷ [])) in
      (
        left [] (trigger (headers s3.response) o4) (opened o4 s3),
        on_calls-start fs (by_trailers fss ts) s i taken
            ∙ ap (λ v. v >>= on_calls moved (data_frames fss ++ last))
                (on_calls-header moved false i o (same ∙ object))
            ∙ on_calls-append moved (data_frames fss) last (some s2) (some s3)
                (on_calls-data_frames moved fss s2 told refl)
            ∙ on_calls-trailed ts s3 o3 plain refl refl,
        refl,
        ap some (
            sym (
              tell_all-append (bodies (pieces fss)) (trailers ts ++ more) told
              ∙ tell_all-append (trailers ts) more o3)),
      )
