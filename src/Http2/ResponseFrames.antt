-- ===== src/Http2/ResponseFrames.antt =====
-- The frames of a response that a client receives over HTTP/2.
use doormat.Base.{
  ◌≡◌, refl, sym, ap, ◌∙◌, Bool, true, false, Option, some, List, [], ◌∷◌, ◌++◌, Bytes, bytes_eq,
  codes, if◌then◌else◌, some-inj, bind-some, if_cases, inl, inr,
}
use doormat.Headers.{header, set_hostname, ◌>>=◌}
use doormat.Messages.{Response}
use doormat.Objects.Remote.{Trigger, headers, body, trailer}
use doormat.Objects.ClientResponse.{ClientResponse, trigger}
use doormat.Http2.Frames.{other_headers, FrameCall, frame_recv}
use doormat.Http2.ClientFrames.{
  ClientStream, tell, stoi, status, uri_host, add_header, on_response_body,
  on_response_header_complete, on_header, on_field, finish_if, on_data_chunk_recv_callback,
  on_frame_recv_callback, on_call, on_calls,
}
use doormat.Http2.FrameCalls.{
  Fields, fields, chunks, bodies, bodies-append, trailing, more_data, data_frames, pieces, Rest,
  opening,
}

abbrev pub with_fields : Fields → ClientStream → Option ClientStream
with_fields [] s = some s
with_fields (f ∷ fs) s = on_header f.0 f.1 s >>= with_fields fs

abbrev pub trailers {ℓ} : {M : Type ℓ} → Fields → List (Trigger M)
trailers [] = []
trailers (f ∷ fs) = trailer f.0 f.1 ∷ trailers fs

abbrev pub tell_all : List (Trigger Response) → ClientResponse Response → ClientResponse Response
tell_all [] o = o
tell_all (x ∷ xs) o = tell_all xs (trigger x o)

-- The names are not those that the client looks for.
abbrev pub ArePlain : Fields → Type 0
ArePlain [] = Unit {0}
ArePlain (f ∷ fs) =
    (bytes_eq f.0 (codes ":authority") ≡ false)
    × (bytes_eq f.0 (codes ":status") ≡ false)
    × ArePlain fs

pub tell_all-append :
    (xs ys : List (Trigger Response)) (o : ClientResponse Response)
    → tell_all (xs ++ ys) o ≡ tell_all ys (tell_all xs o)
tell_all-append [] ys o = refl
tell_all-append (x ∷ xs) ys o = tell_all-append xs ys (trigger x o)

-- A field of the header leaves the object alone.
abbrev Untold : ClientStream → ClientStream → Type 0
Untold s t = (t.res ≡ s.res) × (t.headers_sent ≡ s.headers_sent)

same-Untold : (s k t : ClientStream) → Untold s k → some k ≡ some t → Untold s t
same-Untold s k t u e = (
  ap (λ (v : ClientStream). v.res) (sym (some-inj e)) ∙ u.0,
  ap (λ (v : ClientStream). v.headers_sent) (sym (some-inj e)) ∙ u.1,
)

-- `add_header` before the end of the header, and behind it.
abbrev into_header : Bytes → Bytes → ClientStream → Option ClientStream
into_header name value s = header s.response.base name value >>= λ d.
    some (record s { response = record s.response { base = d } })

add_header_before :
    (name value : Bytes) (s : ClientStream)
    → s.headers_sent ≡ false
    → add_header name value s ≡ into_header name value s
unfolding add_header
add_header_before name value s n =
    ap (λ b. if b then tell (trigger (trailer name value)) s else into_header name value s) n

add_header_behind :
    (name value : Bytes) (s : ClientStream)
    → s.headers_sent ≡ true
    → add_header name value s ≡ tell (trigger (trailer name value)) s
unfolding add_header
add_header_behind name value s n =
    ap (λ b. if b then tell (trigger (trailer name value)) s else into_header name value s) n

on_header-Untold :
    (name value : Bytes) (s t : ClientStream)
    → s.headers_sent ≡ false
    → on_header name value s ≡ some t
    → Untold s t
unfolding on_header uri_host status
on_header-Untold name value s t n h = elim (if_cases (bytes_eq name (codes ":authority")) _ _ h) [
  | inl a ↦
      let (d, b, c) =
        bind-some (set_hostname s.response.base value)
          (λ d. some (record s { response = record s.response { base = d } })) a in
      same-Untold s _ t (refl, refl) c
  | inr h1 ↦ elim (if_cases (bytes_eq name (codes ":status")) _ _ h1) [
    | inl a ↦
        let (k, b, c) = bind-some (stoi value) (λ k. some (status k s)) a in
        same-Untold s _ t (refl, refl) c
    | inr a ↦
        let (d, b, c) =
          bind-some (header s.response.base name value)
            (λ d. some (record s { response = record s.response { base = d } }))
            (sym (add_header_before name value s n) ∙ a) in
        same-Untold s _ t (refl, refl) c
  ]
]

pub with_fields-Untold :
    (fs : Fields) (s t : ClientStream)
    → s.headers_sent ≡ false
    → with_fields fs s ≡ some t
    → Untold s t
with_fields-Untold [] s t n h = same-Untold s s t (refl, refl) h
with_fields-Untold (f ∷ fs) s t n h =
    let (k, h1, h2) = bind-some (on_header f.0 f.1 s) (with_fields fs) h in
    let (a, b) = on_header-Untold f.0 f.1 s k n h1 in
    let (c, d) = with_fields-Untold fs k t (b ∙ n) h2 in (c ∙ a, d ∙ b)

on_header_plain :
    (name value : Bytes) (s : ClientStream)
    → bytes_eq name (codes ":authority") ≡ false
    → bytes_eq name (codes ":status") ≡ false
    → on_header name value s ≡ add_header name value s
unfolding on_header
on_header_plain name value s a b =
    ap
      (λ t.
        if t
        then uri_host value s
        else if bytes_eq name (codes ":status")
        then (stoi value >>= λ n. some (status n s))
        else add_header name value s)
      a
    ∙ ap (λ t. if t then (stoi value >>= λ n. some (status n s)) else add_header name value s) b

module _ (moved : Response → Response) where
  pub on_calls-append :
      (xs ys : List FrameCall) (st t : Option ClientStream)
      → on_calls moved xs st ≡ some t
      → on_calls moved (xs ++ ys) st ≡ on_calls moved ys t
  unfolding on_calls
  on_calls-append [] ys st t h = ap (on_calls moved ys) (some-inj h)
  on_calls-append (x ∷ xs) ys st t h =
      let (s, h1, h2) = bind-some (on_call moved x st) (on_calls moved xs) h in
      ap (λ v. v >>= on_calls moved (xs ++ ys)) h1 ∙ on_calls-append xs ys s t h2

  pub on_calls-fields :
      (rest : Rest) (fs : Fields) (s t : ClientStream)
      → with_fields fs s ≡ some t
      → on_calls moved (fields (opening other_headers rest) fs) (some s) ≡ some (some t)
  unfolding on_calls on_call on_field
  on_calls-fields rest [] s t h = ap some h
  on_calls-fields rest (f ∷ fs) s t h =
      let (k, h1, h2) = bind-some (on_header f.0 f.1 s) (with_fields fs) h in
      ap
        (λ v.
          (v >>= λ j. some (some j)) >>= on_calls moved (fields (opening other_headers rest) fs))
        h1
      ∙ on_calls-fields rest fs k t h2

  pub on_calls-chunks :
      (bs : List Bytes) (s : ClientStream) (o : ClientResponse Response)
      → s.res ≡ some o
      → on_calls moved (chunks bs) (some s)
        ≡ some (some (record s { res = some (tell_all (bodies bs) o) }))
  unfolding on_calls on_call on_data_chunk_recv_callback on_response_body
  on_calls-chunks [] s o h = ap (λ v. some (some (record s { res = v }))) h
  on_calls-chunks (b ∷ bs) s o h =
      ap
        (λ v.
          ((v >>= λ o. some (record s { res = some (trigger (body b) o) })) >>= λ t. some (some t))
          >>= on_calls moved (chunks bs))
        h
      ∙ on_calls-chunks bs (record s { res = some (trigger (body b) o) }) (trigger (body b) o) refl

  bodies_told :
      (xs ys : List Bytes) (o : ClientResponse Response)
      → tell_all (bodies ys) (tell_all (bodies xs) o) ≡ tell_all (bodies (xs ++ ys)) o
  bodies_told xs ys o =
      sym (tell_all-append (bodies xs) (bodies ys) o)
      ∙ ap (λ l. tell_all l o) (sym (bodies-append xs ys))

  on_calls-more_data :
      (cs : List FrameCall) (s : ClientStream)
      → on_calls moved (frame_recv more_data ∷ cs) (some s) ≡ on_calls moved cs (some s)
  unfolding on_calls on_call on_frame_recv_callback
  on_calls-more_data cs s = refl

  pub on_calls-data_frames :
      (fss : List (List Bytes)) (s : ClientStream) (o : ClientResponse Response)
      → s.res ≡ some o
      → on_calls moved (data_frames fss) (some s)
        ≡ some (some (record s { res = some (tell_all (bodies (pieces fss)) o) }))
  unfolding on_calls
  on_calls-data_frames [] s o h = ap (λ v. some (some (record s { res = v }))) h
  on_calls-data_frames (bs ∷ fss) s o h =
      let t : ClientStream = record s { res = some (tell_all (bodies bs) o) } in
      on_calls-append (chunks bs) (frame_recv more_data ∷ data_frames fss) (some s) (some t)
        (on_calls-chunks bs s o h)
      ∙ on_calls-more_data (data_frames fss) t
      ∙ on_calls-data_frames fss t (tell_all (bodies bs) o) refl
      ∙ ap (λ v. some (some (record s { res = some v }))) (bodies_told bs (pieces fss) o)

  pub on_calls-trailers :
      (fs : Fields) (s : ClientStream) (o : ClientResponse Response)
      → ArePlain fs
      → s.headers_sent ≡ true
      → s.res ≡ some o
      → on_calls moved (fields trailing fs) (some s)
        ≡ some (some (record s { res = some (tell_all (trailers fs) o) }))
  unfolding on_calls on_call on_field
  on_calls-trailers [] s o q n h = ap (λ v. some (some (record s { res = v }))) h
  on_calls-trailers (f ∷ fs) s o (a, b, q) n h =
      ap (λ v. (v >>= λ t. some (some t)) >>= on_calls moved (fields trailing fs))
        (on_header_plain f.0 f.1 s a b
          ∙ add_header_behind f.0 f.1 s n
          ∙ ap (λ v. v >>= λ o. some (record s { res = some (trigger (trailer f.0 f.1) o) })) h)
      ∙ on_calls-trailers fs (record s { res = some (trigger (trailer f.0 f.1) o) })
          (trigger (trailer f.0 f.1) o) q n refl

  pub on_calls-header :
      (end : Bool) (s : ClientStream) (o : ClientResponse Response)
      → s.res ≡ some o
      → on_call moved
          (frame_recv (record { frame_type = other_headers; end_stream = end }))
          (some s)
        ≡ (finish_if end (record s {
          res = some (trigger (headers s.response) o);
          headers_sent = true;
          response = moved s.response;
        })
            >>= λ t. some (some t))
  unfolding on_call on_frame_recv_callback on_response_header_complete
  on_calls-header end s o h =
      ap
        (λ v.
          (((v >>= λ o. some (record s { res = some (trigger (headers s.response) o) })) >>= λ t.
          some (record t { headers_sent = true; response = moved s.response }))
            >>= finish_if end)
          >>= λ t. some (some t))
        h
