-- ===== src/Handler/Heading.antt =====
-- The header of a request, as the parser hands it on to the handler.
use doormat.Base.{
  bind-some, some-inj, ℕ, ◌≡◌, refl, sym, ap, ◌∙◌, Bool, none, some, List, [], ◌∷◌, ◌++◌, Bytes,
}
use doormat.Headers.{◌>>=◌}
use doormat.Messages.{Request, Response}
use doormat.Objects.Remote.{Remote}
use doormat.Codec.Decoder.{
  request, Url, Decoder, Callback, Event, message_begin, url_part, status_part, header_field,
  header_value, headers_complete, body_part, chunk_header, chunk_complete, message_complete, on_url,
  handle, run,
}
use doormat.Codec.Events.{Heads, All, url-passed, Heads-IsRequest}
use doormat.Handler.Decoding.{
  server_side, Receiver, aimed, settle, write_back, dispatch_all, receive, receive_all, if_zero,
}

abbrev pub Reader : Type 0
Reader = Receiver Request Response (Remote Request)

-- The receiver once the decoder has done `d` to the message.
abbrev pub moved : Reader → Decoder → Request → Reader
moved r d m = record { decoder = d; core = record r.core { current = m } }

-- The decoder points to the message as the handler has it.
abbrev pub IsAimed : Reader → Type 0
IsAimed r = r.decoder.message ≡ some (request r.core.current)

pub aimed-IsAimed : (r : Reader) → IsAimed r → aimed server_side r ≡ r.decoder
aimed-IsAimed r h =
    ap (λ x. record r.decoder { message = x })
      (ap (λ o. elim o [ none ↦ none | some x ↦ some (request r.core.current) ]) h ∙ sym h)

pub settle-quiet :
    (r : Reader) (d : Decoder) (m : Request) (n : ℕ)
    → d.message ≡ some (request m)
    → settle server_side r.core n (d, []) ≡ some (moved r d m, n)
unfolding settle dispatch_all
settle-quiet r d m n h =
    ap
      (λ o. write_back server_side o r.core >>= λ c'.
        dispatch_all server_side [] c' >>= λ c''. some (record { decoder = d; core = c'' }, n))
      h

all-none {ℓ} : {A : Type ℓ} (xs ys : List A) → xs ++ ys ≡ [] → (xs ≡ []) × (ys ≡ [])
all-none [] ys e = (refl, e)
all-none (x ∷ xs) ys e = absurd (cc)

module _ (parse_url : Bytes → Bool → Url → Url × Bool) where
  receive_head :
      (r : Reader) (e : Event) (d : Decoder) (m : Request)
      → IsAimed r
      → Heads e
      → handle parse_url r.decoder e ≡ some (d, [])
      → d.message ≡ some (request m)
      → receive server_side parse_url r e ≡ some (moved r d m, 0)
  unfolding receive
  receive_head r (url_part s) d m a q h k =
      ap (λ v. on_url parse_url v s >>= λ p. settle server_side r.core p.1 (p.0, []))
        (aimed-IsAimed r a)
      ∙ ap (λ v. v >>= λ (p : Decoder × ℕ). settle server_side r.core p.1 (p.0, []))
          (url-passed parse_url r.decoder d s h)
      ∙ settle-quiet r d m 0 k
  receive_head r (status_part n s) d m a q h k =
      ap (λ v. handle parse_url v (status_part n s) >>= settle server_side r.core 0)
        (aimed-IsAimed r a)
      ∙ ap (λ v. v >>= settle server_side r.core 0) h
      ∙ settle-quiet r d m 0 k
  receive_head r (header_field s) d m a q h k =
      ap (λ v. handle parse_url v (header_field s) >>= settle server_side r.core 0)
        (aimed-IsAimed r a)
      ∙ ap (λ v. v >>= settle server_side r.core 0) h
      ∙ settle-quiet r d m 0 k
  receive_head r (header_value s) d m a q h k =
      ap (λ v. handle parse_url v (header_value s) >>= settle server_side r.core 0)
        (aimed-IsAimed r a)
      ∙ ap (λ v. v >>= settle server_side r.core 0) h
      ∙ settle-quiet r d m 0 k
  receive_head r (message_begin _) d m a q h k = elim q [ ]
  receive_head r (headers_complete _) d m a q h k = elim q [ ]
  receive_head r (body_part _) d m a q h k = elim q [ ]
  receive_head r (chunk_header _) d m a q h k = elim q [ ]
  receive_head r (chunk_complete _) d m a q h k = elim q [ ]
  receive_head r message_complete d m a q h k = elim q [ ]

  -- The header as the decoder alone reads it.
  pub receive-Heads :
      (es : List Event) (r : Reader) (d : Decoder)
      → IsAimed r
      → All Heads es
      → run parse_url r.decoder es ≡ some (d, [])
      → (m : Request) × (d.message ≡ some (request m))
        × (receive_all server_side parse_url r es ≡ some (moved r d m))
  unfolding run receive_all
  receive-Heads [] r d a q h =
      let same : r.decoder ≡ d = ap (λ (p : Decoder × List Callback). p.0) (some-inj h) in
      (
        r.core.current,
        ap (λ (v : Decoder). v.message) (sym same) ∙ a,
        ap (λ v. some (moved r v r.core.current)) same,
      )
  receive-Heads (e ∷ es) r d a (q, qs) h =
      let ((d1, xs), h1, rest) =
        bind-some (handle parse_url r.decoder e)
          (λ p. run parse_url p.0 es >>= λ s. some (s.0, p.1 ++ s.1)) h in
      let ((d2, ys), h2, out) = bind-some (run parse_url d1 es) (λ s. some (s.0, xs ++ s.1)) rest in
      let (no_xs, no_ys) =
        all-none xs ys (ap (λ (p : Decoder × List Callback). p.1) (some-inj out)) in
      let same : d2 ≡ d = ap (λ (p : Decoder × List Callback). p.0) (some-inj out) in
      let first : handle parse_url r.decoder e ≡ some (d1, []) =
        h1 ∙ ap (λ l. some (d1, l)) no_xs in
      let (m1, k1) = Heads-IsRequest parse_url r.decoder d1 r.core.current e a q first in
      let (m, k, all) =
        receive-Heads es (moved r d1 m1) d k1 qs
          (h2 ∙ ap (λ l. some (d2, l)) no_ys ∙ ap (λ v. some (v, [])) same) in
      (
        m,
        k,
        ap (λ v. v >>= if_zero (λ x. receive_all server_side parse_url x es))
              (receive_head r e d1 m1 a q first k1)
            ∙ all,
      )
