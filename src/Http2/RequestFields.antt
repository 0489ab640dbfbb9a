-- ===== src/Http2/RequestFields.antt =====
-- The header fields of a request that a server receives over HTTP/2: src/http2/session.cpp and stream.cpp.
use doormat.Base.{
  ◌≡◌, refl, sym, ap, ◌∙◌, false, Option, some, [], ◌∷◌, Bytes, bytes_eq, codes, if◌then◌else◌,
  some-inj, bind-some, if_cases, inl, inr,
}
use doormat.Headers.{header, make, set_protocol, http11, ◌>>=◌}
use doormat.Objects.Remote.{Remote, trailer, trigger}
use doormat.Objects.Remote
use doormat.Http2.Incoming.{Incoming, on_header_callback, add_header, uri_host}
use doormat.Http2.Frames.{ServerStream, new_stream}
use doormat.Http2.FrameCalls.{Fields}

-- The fields of the header, one after the other.
abbrev pub with_fields : Fields → Incoming → Option Incoming
with_fields [] i = some i
with_fields (f ∷ fs) i = on_header_callback f.0 f.1 i >>= with_fields fs

-- A field of the header leaves the object alone.
abbrev pub Untold : Incoming → Incoming → Type 0
Untold i j = (j.req ≡ i.req) × (j.headers_sent ≡ i.headers_sent)

add_header-Untold :
    (name value : Bytes) (i j : Incoming)
    → i.headers_sent ≡ false
    → add_header name value i ≡ some j
    → Untold i j
unfolding add_header
add_header-Untold name value i j n h =
    let (d, b, c) =
      bind-some (header i.request.base name value)
        (λ d. some (record i { request = record i.request { base = d } }))
        (sym (
            ap
              (λ t.
                if t
                then (i.req >>= λ o.
                    some (record i { req = some (trigger (trailer name value) o) }))
                else (header i.request.base name value >>= λ d.
                    some (record i { request = record i.request { base = d } })))
              n)
          ∙ h) in
    (
      ap (λ (v : Incoming). v.req) (sym (some-inj c)),
      ap (λ (v : Incoming). v.headers_sent) (sym (some-inj c)),
    )

on_header_callback-Untold :
    (name value : Bytes) (i j : Incoming)
    → i.headers_sent ≡ false
    → on_header_callback name value i ≡ some j
    → Untold i j
unfolding on_header_callback
on_header_callback-Untold name value i j n h =
    let same = λ (k : Incoming) (u : Untold i k) (e : some k ≡ some j).
      let out : Untold i j = (
        ap (λ (v : Incoming). v.req) (sym (some-inj e)) ∙ u.0,
        ap (λ (v : Incoming). v.headers_sent) (sym (some-inj e)) ∙ u.1,
      ) in
      out in
    elim (if_cases (bytes_eq name (codes ":path")) _ _ h) [
      | inl a ↦ same _ (refl, refl) a
      | inr h1 ↦ elim (if_cases (bytes_eq name (codes ":scheme")) _ _ h1) [
        | inl a ↦ same _ (refl, refl) a
        | inr h2 ↦ elim (if_cases (bytes_eq name (codes ":method")) _ _ h2) [
          | inl a ↦ same _ (refl, refl) a
          | inr h3 ↦ elim (if_cases (bytes_eq name (codes ":authority")) _ _ h3) [
            | inl a ↦
                let (r, b, c) =
                  bind-some (uri_host value i.request) (λ r. some (record i { request = r })) a in
                same _ (refl, refl) c
            | inr h4 ↦ add_header-Untold name value i j n h4
          ]
        ]
      ]
    ]

pub with_fields-Untold :
    (fs : Fields) (i j : Incoming) → i.headers_sent ≡ false → with_fields fs i ≡ some j → Untold i j
with_fields-Untold [] i j n h = (
  ap (λ (v : Incoming). v.req) (sym (some-inj h)),
  ap (λ (v : Incoming). v.headers_sent) (sym (some-inj h)),
)
with_fields-Untold (f ∷ fs) i j n h =
    let (k, h1, h2) = bind-some (on_header_callback f.0 f.1 i) (with_fields fs) h in
    let (a, b) = on_header_callback-Untold f.0 f.1 i k n h1 in
    let (c, d) = with_fields-Untold fs k j (b ∙ n) h2 in (c ∙ a, d ∙ b)

pub new_stream-Untold :
    (origin : Bytes) (s : ServerStream)
    → new_stream origin ≡ some s
    → (s.incoming.req ≡ some doormat.Objects.Remote.make) × (s.incoming.headers_sent ≡ false)
unfolding new_stream
new_stream-Untold origin s h =
    let (d, h1, h2) = bind-some make _ h in
    let (e, h3, h4) = bind-some (set_protocol d http11) _ h2 in
    (
      ap (λ (v : ServerStream). v.incoming.req) (sym (some-inj h4)),
      ap (λ (v : ServerStream). v.incoming.headers_sent) (sym (some-inj h4)),
    )
