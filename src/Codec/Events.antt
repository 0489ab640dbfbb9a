-- ===== src/Codec/Events.antt =====
-- What the events of a request do to the message that the decoder points to: those of the header
-- change it, and those behind the header, in Codec.Trailing, do not look at it.
use doormat.Base.{
  ℕ, ◌==◌, ◌≡◌, refl, sym, ap, ◌∙◌, Bool, true, false, Option, none, some, List, [], ◌∷◌, ◌++◌,
  arith, Bytes, if◌then◌else◌, Bool-cases, inl, inr, some-inj, some-ne-none, bind-some, if_cases,
  ltb, length, if_both, ap₂,
}
use doormat.Headers.{header, set_protocol, keep, ◌>>=◌}
use doormat.Messages.{Request, set_status_message}
use doormat.Codec.Decoder.{
  Head, on_headers_complete, version_of, set_target, Message, request, response, Url, Decoder,
  Callback, error_cb, Event, message_begin, url_part, status_part, header_field, header_value,
  headers_complete, body_part, chunk_header, chunk_complete, message_complete, on_base,
  process_current_header, as_request, as_response, reset, set_url, found_url, on_url, on_status,
  on_header_field, on_header_value, on_trailer_field, flush_trailer, handle,
}

-- Between the start of a message and the end of its header.
abbrev pub Heads : Event → Type 0
Heads (url_part s) = Unit {0}
Heads (status_part n s) = Unit {0}
Heads (header_field s) = Unit {0}
Heads (header_value s) = Unit {0}
Heads _ = ⊥

abbrev pub All {ℓ} : {A : Type ℓ} → (A → Type 0) → List A → Type 0
All P [] = Unit {0}
All P (x ∷ xs) = P x × All P xs

-- The message is a request.
abbrev pub IsRequest : Decoder → Type 0
IsRequest d = (m : Request) × (d.message ≡ some (request m))

-- What `process_current_header` does when there is a field.
abbrev set_message : Decoder → Message → Option Decoder
set_message d m = some (record d { message = some m; got_header = false; key = []; value = [] })

abbrev field_added : Decoder → Message → Option Decoder
field_added d m = on_base (λ b. header b d.key d.value) m >>= set_message d

process-IsRequest :
    (d e : Decoder) (m : Request)
    → d.message ≡ some (request m)
    → process_current_header d ≡ some e
    → IsRequest e
unfolding process_current_header
process-IsRequest d e m h p = elim (Bool-cases d.got_header) [
  | inr n ↦
      let same : d ≡ e =
        some-inj (sym (ap (λ t. if t then (d.message >>= field_added d) else some d) n) ∙ p) in
      (m, ap (λ (x : Decoder). x.message) (sym same) ∙ h)
  | inl y ↦
      let q : field_added d (request m) ≡ some e =
        sym (
          ap (λ t. if t then (d.message >>= field_added d) else some d) y
          ∙ ap (λ o. o >>= field_added d) h)
        ∙ p in
      let (m', on, set) =
        bind-some (on_base (λ b. header b d.key d.value) (request m)) (set_message d) q in
      let (b, some_b, made) =
        bind-some (header m.base d.key d.value) (λ b. some (request (record m { base = b }))) on in
      (
        record m { base = b },
        ap (λ (x : Decoder). x.message) (sym (some-inj set)) ∙ ap some (sym (some-inj made)),
      )
]

field-IsRequest :
    (d e : Decoder) (m : Request) (s : Bytes)
    → d.message ≡ some (request m)
    → on_header_field d s ≡ some e
    → IsRequest e
unfolding on_header_field
field-IsRequest d e m s h p =
    let (f, on, made) =
      bind-some (process_current_header d) (λ v. some (record v { key = v.key ++ s })) p in
    let (k, ok) = process-IsRequest d f m h on in
    (k, ap (λ (v : Decoder). v.message) (sym (some-inj made)) ∙ ok)

found-IsRequest : (d e : Decoder) (n : ℕ) → found_url d ≡ some (e, n) → IsRequest e
unfolding found_url
found-IsRequest d e n p =
    let (r, q, s) =
      bind-some (as_request d.message)
        (λ r. set_url d.urline d.url r >>= λ r'. some (record d { message = some (request r') }, 0))
        p in
    let (r', t, u) =
      bind-some (set_url d.urline d.url r)
        (λ r'. some (record d { message = some (request r') }, 0)) s in
    (r', ap (λ (x : Decoder × ℕ). x.0.message) (sym (some-inj u)))

pub flush-message : (d : Decoder) → (flush_trailer d).0.message ≡ d.message
unfolding flush_trailer
flush-message d =
    if_both (λ (p : Decoder × List Callback). p.0.message ≡ d.message) d.got_header refl refl

module _ (parse_url : Bytes → Bool → Url → Url × Bool) where
  pub url-IsRequest :
      (d e : Decoder) (m : Request) (s : Bytes) (n : ℕ)
      → d.message ≡ some (request m)
      → on_url parse_url d s ≡ some (e, n)
      → IsRequest e
  unfolding on_url
  url-IsRequest d e m s n h p =
      let kept =
        λ (x : Decoder) (k : ℕ) (same : x.message ≡ d.message) (q : some (x, k) ≡ some (e, n)).
          let out : IsRequest e =
            (m, ap (λ (v : Decoder × ℕ). v.0.message) (sym (some-inj q)) ∙ same ∙ h) in
          out in
      elim (if_cases (ltb 8192 (length (d.urline ++ s))) _ _ p) [
        | inl q ↦ kept _ 1 refl q
        | inr q ↦ elim (if_cases (parse_url s d.connected d.url).1 _ _ q) [
          | inl f ↦ found-IsRequest _ e n f
          | inr g ↦ kept _ 0 refl g
        ]
      ]

  -- A URL that is no error.
  pub url-passed :
      (d e : Decoder) (s : Bytes)
      → handle parse_url d (url_part s) ≡ some (e, [])
      → on_url parse_url d s ≡ some (e, 0)
  unfolding handle
  url-passed d e s p =
      let (q, on, r) =
        bind-some (on_url parse_url d s)
          (λ q. if q.1 == 0 then some (q.0, []) else some (reset q.0, error_cb ∷ [])) p in
      elim (Bool-cases (q.1 == 0)) [
        | inl y ↦
            let same : q.0 ≡ e =
              ap (λ (v : Decoder × List Callback). v.0)
                (some-inj (
                  sym (ap (λ t. if t then some (q.0, []) else some (reset q.0, error_cb ∷ [])) y)
                  ∙ r)) in
            on ∙ ap₂ (λ v k. some (v, k)) same (ground (arith, y))
        | inr n ↦
            let bad : error_cb ∷ [] ≡ [] =
              ap (λ (v : Decoder × List Callback). v.1)
                (some-inj (
                  sym (ap (λ t. if t then some (q.0, []) else some (reset q.0, error_cb ∷ [])) n)
                  ∙ r)) in
            absurd (cc)
      ]

  -- The header keeps the message a request.
  pub Heads-IsRequest :
      (d e : Decoder) (m : Request) (x : Event)
      → d.message ≡ some (request m)
      → Heads x
      → handle parse_url d x ≡ some (e, [])
      → IsRequest e
  unfolding handle on_status on_header_field on_header_value on_trailer_field
  Heads-IsRequest d e m (url_part s) h q p = url-IsRequest d e m s 0 h (url-passed d e s p)
  Heads-IsRequest d e m (status_part k s) h q p =
      let none_there : ◌≡◌ {A = Option (Decoder × List Callback)} none (some (e, [])) =
        sym (
          ap
            (λ o.
              (as_response o >>= λ r. some (record d {
                status = d.status ++ s;
                message = some (response (set_status_message r k (d.status ++ s)));
              }))
              >>= λ v. some (v, []))
            h)
        ∙ p in
      absurd (cc)
  Heads-IsRequest d e m (header_field s) h q p = elim (if_cases d.headers_completed _ _ p) [
    | inl f ↦ (
      m,
      ap (λ (v : Decoder × List Callback). v.0.message) (sym (some-inj f)) ∙ flush-message d ∙ h,
    )
    | inr g ↦
        let (f, on, same) = bind-some (on_header_field d s) (λ v. some (v, [])) g in
        let (k, ok) = field-IsRequest d f m s h on in
        (k, ap (λ (v : Decoder × List Callback). v.0.message) (sym (some-inj same)) ∙ ok)
  ]
  Heads-IsRequest d e m (header_value s) h q p =
      (m, ap (λ (v : Decoder × List Callback). v.0.message) (sym (some-inj p)) ∙ h)
  Heads-IsRequest d e m (message_begin _) h q p = elim q [ ]
  Heads-IsRequest d e m (headers_complete _) h q p = elim q [ ]
  Heads-IsRequest d e m (body_part _) h q p = elim q [ ]
  Heads-IsRequest d e m (chunk_header _) h q p = elim q [ ]
  Heads-IsRequest d e m (chunk_complete _) h q p = elim q [ ]
  Heads-IsRequest d e m message_complete h q p = elim q [ ]

-- A header that is complete stays so.
pub headers_complete-completed :
    (d e : Decoder) (h : Head) (xs : List Callback)
    → on_headers_complete d h ≡ some (e, xs)
    → e.headers_completed ≡ true
unfolding on_headers_complete
headers_complete-completed d e h xs p = elim (if_cases (h.http_major == 1) _ _ p) [
  | inr n ↦ absurd (some-ne-none (sym n))
  | inl q ↦
      let (m, a, q1) = bind-some d.message _ q in
      let (m1, b, q2) = bind-some (on_base (λ v. set_protocol v (version_of d.version h)) m) _ q1 in
      let (f, c, q3) =
        bind-some
          (process_current_header
            (record d { version = version_of d.version h; message = some m1 }))
          _ q2 in
      let (m2, g, q4) = bind-some f.message _ q3 in
      let (m3, k, q5) =
        bind-some (on_base (λ v. keep v h.should_keep_alive) (set_target h.method m2)) _ q4 in
      ap (λ (v : Decoder × List Callback). v.0.headers_completed) (sym (some-inj q5))
]
