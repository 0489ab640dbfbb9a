-- ===== src/Handler/Trailing.antt =====
-- The body and the trailers of a request, as the parser hands them on to the handler.
use doormat.Base.{
  bind-some, some-inj, ℕ, ◌≡◌, refl, sym, ap, ◌∙◌, subst, Bool, true, Option, none, some, List, [],
  ◌∷◌, ◌++◌, Bytes, append_assoc, append-nil,
}
use doormat.Headers.{◌>>=◌}
use doormat.Messages.{Request}
use doormat.Objects.Remote.{Remote}
use doormat.Codec.Decoder.{
  request, Url, Decoder, Callback, Event, message_begin, url_part, status_part, header_field,
  header_value, headers_complete, body_part, chunk_header, chunk_complete, message_complete, handle,
  run,
}
use doormat.Codec.Events.{All}
use doormat.Codec.Trailing.{
  Trails, IsPiece, trailing, trailing-handle, trailing-pointed, trailing-completed, trailing-All,
}
use doormat.Handler.Decoding.{
  server_side, aimed, settle, dispatch, dispatch_all, receive, receive_all, if_zero,
}
use doormat.Handler.Current.{State, Reading, event_of, events_of, with_events, dispatch_all-pieces}
use doormat.Handler.Heading.{Reader}

pub events_of-append : (xs ys : List Callback) → events_of (xs ++ ys) ≡ events_of xs ++ events_of ys
events_of-append [] ys = refl
events_of-append (x ∷ xs) ys =
    ap (λ l. event_of x ++ l) (events_of-append xs ys)
    ∙ sym (append_assoc (event_of x) (events_of xs) (events_of ys))

pub dispatch_all-append :
    (xs ys : List Callback) (c d : State)
    → dispatch_all server_side xs c ≡ some d
    → dispatch_all server_side (xs ++ ys) c ≡ dispatch_all server_side ys d
unfolding dispatch_all
dispatch_all-append [] ys c d h = ap (dispatch_all server_side ys) (some-inj h)
dispatch_all-append (x ∷ xs) ys c d h =
    let (e, h1, h2) = bind-some (dispatch server_side x c) (dispatch_all server_side xs) h in
    ap (λ v. v >>= dispatch_all server_side (xs ++ ys)) h1 ∙ dispatch_all-append xs ys e d h2

-- The receiver's decoder is `d`, but for its message, which is the handler's.
abbrev pub Follows : Reader → Decoder → Type 0
Follows r d = (w : Request) × (r.decoder ≡ record d { message = some (request w) })

pub aimed-Follows :
    (r : Reader) (d : Decoder)
    → Follows r d
    → aimed server_side r ≡ record d { message = some (request r.core.current) }
aimed-Follows r d (w, h) =
    ap
      (λ (v : Decoder). record v {
        message = elim v.message [ none ↦ none | some x ↦ some (request r.core.current) ];
      })
      h

-- What calls behind the header come to.
abbrev Trailed : Reader → Option Reader → Decoder → ℕ → Remote Request → Type 0
Trailed r out d id o =
    (t : Reader) × (out ≡ some t)
    × Follows t d
    × Reading t.core id o
    × (t.core.locals ≡ r.core.locals)

settle-pieces :
    (r : Reader) (d : Decoder) (xs : List Callback) (id : ℕ) (o : Remote Request)
    → All IsPiece xs
    → Reading r.core id o
    → (t : Reader) × (settle server_side r.core 0
          (record d { message = some (request r.core.current) }, xs)
        ≡ some (t, 0))
      × Follows t d
      × Reading t.core id (with_events (events_of xs) o)
      × (t.core.locals ≡ r.core.locals)
unfolding settle
settle-pieces r d xs id o q h =
    let (c, e, k, l, m) = dispatch_all-pieces xs r.core id o q h in
    let e' = record d { message = some (request r.core.current) } in
    (
      record { decoder = e'; core = c },
      ap (λ v. v >>= λ c'. some (record { decoder = e'; core = c' }, 0)) e,
      (r.core.current, refl),
      k,
      l,
    )

module _ (parse_url : Bytes → Bool → Url → Url × Bool) where
  receive-handled :
      (r : Reader) (e : Event)
      → Trails e
      → receive server_side parse_url r e
        ≡ (handle parse_url (aimed server_side r) e >>= settle server_side r.core 0)
  unfolding receive
  receive-handled r (header_field s) q = refl
  receive-handled r (header_value s) q = refl
  receive-handled r (body_part s) q = refl
  receive-handled r (chunk_header b) q = refl
  receive-handled r (chunk_complete b) q = refl
  receive-handled r (message_begin _) q = elim q [ ]
  receive-handled r (url_part _) q = elim q [ ]
  receive-handled r (status_part _ _) q = elim q [ ]
  receive-handled r (headers_complete _) q = elim q [ ]
  receive-handled r message_complete q = elim q [ ]

  receive_trail :
      (r : Reader) (e : Event) (d : Decoder) (id : ℕ) (o : Remote Request)
      → Follows r d
      → d.headers_completed ≡ true
      → Trails e
      → Reading r.core id o
      → (t : Reader) × (receive server_side parse_url r e ≡ some (t, 0))
        × Follows t (trailing d e).0
        × Reading t.core id (with_events (events_of (trailing d e).1) o)
        × (t.core.locals ≡ r.core.locals)
  receive_trail r e d id o f c q h =
      let (t, s, follows, k, l) =
        settle-pieces r (trailing d e).0 (trailing d e).1 id o (trailing-All d e) h in
      (
        t,
        receive-handled r e q
            ∙ ap (λ v. handle parse_url v e >>= settle server_side r.core 0) (aimed-Follows r d f)
            ∙ ap (λ v. v >>= settle server_side r.core 0)
                (trailing-handle parse_url (record d { message = some (request r.core.current) }) e
                    c q
                  ∙ ap some (trailing-pointed (some (request r.core.current)) d e))
            ∙ s,
        follows,
        k,
        l,
      )

  -- What stands behind the header, as the decoder alone reads it.
  pub receive-Trails :
      (es : List Event) (r : Reader) (d d' : Decoder) (xs : List Callback) (id : ℕ)
      (o : Remote Request)
      → Follows r d
      → d.headers_completed ≡ true
      → All Trails es
      → run parse_url d es ≡ some (d', xs)
      → Reading r.core id o
      → (t : Reader) × (receive_all server_side parse_url r es ≡ some t)
        × Follows t d'
        × Reading t.core id (with_events (events_of xs) o)
        × (t.core.locals ≡ r.core.locals)
  unfolding run receive_all
  receive-Trails [] r d d' xs id o f c q h k =
      let same = some-inj h in
      let told : Reading r.core id (with_events [] o) =
        subst (Reading r.core id) (ap (λ l. record o { posted = l }) (sym (append-nil o.posted)))
          k in
      (
        r,
        refl,
        subst (Follows r) (ap (λ (p : Decoder × List Callback). p.0) same) f,
        subst (λ l. Reading r.core id (with_events (events_of l) o))
            (ap (λ (p : Decoder × List Callback). p.1) same) told,
        refl,
      )
  receive-Trails (e ∷ es) r d d' xs id o f c (q, qs) h k =
      let ((d1, ys), h1, rest) =
        bind-some (handle parse_url d e) (λ p. run parse_url p.0 es >>= λ s. some (s.0, p.1 ++ s.1))
          h in
      let ((d2, zs), h2, out) = bind-some (run parse_url d1 es) (λ s. some (s.0, ys ++ s.1)) rest in
      let tr : trailing d e ≡ (d1, ys) = some-inj (sym (trailing-handle parse_url d e c q) ∙ h1) in
      let (t, s, ft, kt, lt) = receive_trail r e d id o f c q k in
      let c1 =
        ap (λ (p : Decoder × List Callback). p.0.headers_completed) (sym tr)
        ∙ trailing-completed d e
        ∙ c in
      let (u, s', fu, ku, lu) =
        receive-Trails es t d1 d2 zs id (with_events (events_of ys) o)
          (subst (λ (p : Decoder × List Callback). Follows t p.0) tr ft) c1 qs h2
          (subst
            (λ (p : Decoder × List Callback). Reading t.core id (with_events (events_of p.1) o)) tr
            kt) in
      let told : with_events (events_of zs) (with_events (events_of ys) o)
          ≡ with_events (events_of (ys ++ zs)) o =
        ap (λ l. record o { posted = l })
          (append_assoc o.posted (events_of ys) (events_of zs)
            ∙ ap (λ l. o.posted ++ l) (sym (events_of-append ys zs))) in
      let same = some-inj out in
      (
        u,
        ap (λ v. v >>= if_zero (λ x. receive_all server_side parse_url x es)) s ∙ s',
        subst (λ (p : Decoder × List Callback). Follows u p.0) same fu,
        subst (λ (p : Decoder × List Callback). Reading u.core id (with_events (events_of p.1) o))
            same (subst (Reading u.core id) told ku),
        lu ∙ lt,
      )
