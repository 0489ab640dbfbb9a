-- ===== src/Codec/Versions.antt =====
-- The protocol version that the decoder keeps.
use doormat.Base.{
  ℕ, ◌≡◌, refl, ap, ◌∙◌, subst, Bool, true, false, Option, none, some, List, [], ◌∷◌, ◌++◌, arith,
  Bytes, ◌==◌, if◌then◌else◌, ltb, length,
}
use doormat.Headers.{ProtoVersion, unset, same_version, ◌>>=◌}
use doormat.Codec.Decoder.{
  Decoder, Message, Url, Event, message_begin, url_part, status_part, header_field, header_value,
  headers_complete, body_part, chunk_header, chunk_complete, message_complete, Callback, Head,
  process_current_header, on_url, found_url, set_url, as_request, on_status, on_header_field,
  on_header_value, on_headers_complete, flush_trailer, on_trailer_field, on_chunk,
  on_message_complete, reset, version_of, handle, run,
}

-- A result that is there has the version `v`.
Kept {ℓ} : {A : Type ℓ} → (A → Decoder) → ProtoVersion → Option A → Type 0
Kept of v none = Unit {0}
Kept of v (some a) = (of a).version ≡ v

all_bind {ℓ κ} :
    {A : Type ℓ} {B : Type κ} (of : B → Decoder) (v : ProtoVersion) (o : Option A)
    (f : A → Option B)
    → ((a : A) → Kept of v (f a))
    → Kept of v (o >>= f)
unfolding Kept
all_bind of v none f h = tt
all_bind of v (some a) f h = h a

keep_bind {ℓ κ} :
    {A : Type ℓ} {B : Type κ} (from : A → Decoder) (of : B → Decoder) (v : ProtoVersion)
    (o : Option A) (f : A → Option B)
    → Kept from v o
    → ((a : A) → (from a).version ≡ v → Kept of v (f a))
    → Kept of v (o >>= f)
unfolding Kept
keep_bind from of v none f k h = tt
keep_bind from of v (some a) f k h = h a k

kept {ℓ} :
    {A : Type ℓ} (of : A → Decoder) (v : ProtoVersion) (a : A)
    → (of a).version ≡ v
    → Kept of v (some a)
unfolding Kept
kept of v a e = e

kept_value {ℓ} :
    {A : Type ℓ} (of : A → Decoder) (v : ProtoVersion) (a : A)
    → Kept of v (some a)
    → (of a).version ≡ v
unfolding Kept
kept_value of v a e = e

no_result {ℓ} : {A : Type ℓ} (of : A → Decoder) (v : ProtoVersion) → Kept {A = A} of v none
unfolding Kept
no_result of v = tt

Kept-if {ℓ} :
    {A : Type ℓ} (of : A → Decoder) (v : ProtoVersion) (b : Bool) (x y : Option A)
    → Kept of v x
    → Kept of v y
    → Kept of v (if b then x else y)
Kept-if of v true x y k l = k
Kept-if of v false x y k l = l

abbrev self : Decoder → Decoder
self d = d

process-Kept : (d : Decoder) → Kept self d.version (process_current_header d)
unfolding process_current_header
process-Kept d =
    Kept-if self d.version d.got_header _ (some d)
      (all_bind self d.version d.message _
        (λ m. all_bind self d.version _ _ (λ m'. kept self _ _ refl)))
      (kept self _ d refl)

trailer_version : (d : Decoder) (s : Bytes) → (on_trailer_field d s).0.version ≡ d.version
unfolding on_trailer_field flush_trailer
trailer_version d s = ground arith

complete_version : (d : Decoder) → (on_message_complete d).0.version ≡ d.version
unfolding on_message_complete flush_trailer reset
complete_version d = ground arith

chunk_version : (d : Decoder) (b : Bool) → (on_chunk d b).version ≡ d.version
unfolding on_chunk
chunk_version d b = ground arith

abbrev state : Decoder × List Callback → Decoder
state q = q.0

abbrev returned : Decoder × ℕ → Decoder
returned q = q.0

headers-Kept :
    (d : Decoder) (h : Head)
    → same_version d.version unset ≡ false
    → Kept state d.version (on_headers_complete d h)
unfolding on_headers_complete
headers-Kept d h set =
    Kept-if state d.version (h.http_major == 1) _ none
      (all_bind state d.version d.message _ (λ m. all_bind state d.version _ _ (λ m1.
        keep_bind self state d.version (process_current_header (after m1)) _ (processed m1) (λ e k.
          all_bind state d.version e.message _
            (λ m2. all_bind state d.version _ _ (λ m3. kept state _ _ k))))))
      (no_result state d.version)
  where
    after : Message → Decoder
    after m1 = record d { version = version_of d.version h; message = some m1 }

    processed : (m1 : Message) → Kept self d.version (process_current_header (after m1))
    processed m1 =
        subst (λ v. Kept self v (process_current_header (after m1))) (rw set refl)
          (process-Kept (after m1))

found-Kept : (d : Decoder) → Kept returned d.version (found_url d)
unfolding found_url
found-Kept d =
    all_bind returned d.version (as_request d.message) _
      (λ r. all_bind returned d.version (set_url d.urline d.url r) _ (λ r'. kept returned _ _ refl))

module _ (p : Bytes → Bool → Url → Url × Bool) where
  url-Kept : (d : Decoder) (s : Bytes) → Kept returned d.version (on_url p d s)
  unfolding on_url
  url-Kept d s =
      Kept-if returned d.version (ltb 8192 (length (d.urline ++ s))) _ _ (kept returned _ _ refl) (
        Kept-if returned d.version (p s d.connected d.url).1 _ _ (found-Kept _)
          (kept returned _ _ refl))

  handle-Kept :
      (d : Decoder) (e : Event)
      → same_version d.version unset ≡ false
      → Kept state d.version (handle p d e)
  unfolding handle on_status on_header_field on_header_value reset
  handle-Kept d (message_begin m) set = kept state _ _ refl
  handle-Kept d (url_part s) set =
      keep_bind returned state d.version (on_url p d s) _ (url-Kept d s)
        (λ q k. Kept-if state d.version _ _ _ (kept state _ _ k) (kept state _ _ k))
  handle-Kept d (status_part code s) set =
      keep_bind self state d.version (on_status d code s) _
        (all_bind self d.version _ _ (λ r. kept self _ _ refl)) (λ e k. kept state _ _ k)
  handle-Kept d (header_field s) set =
      Kept-if state d.version _ _ _ (kept state _ _ (trailer_version d s)) (
        keep_bind self state d.version (on_header_field d s) _
          (keep_bind self self d.version (process_current_header d) _ (process-Kept d)
            (λ e k. kept self _ _ k))
          (λ e k. kept state _ _ k))
  handle-Kept d (header_value s) set = kept state _ _ refl
  handle-Kept d (headers_complete h) set = headers-Kept d h set
  handle-Kept d (body_part s) set = kept state _ _ refl
  handle-Kept d (chunk_header final) set = kept state _ _ (chunk_version d final)
  handle-Kept d (chunk_complete final) set = kept state _ _ (chunk_version d final)
  handle-Kept d message_complete set = kept state _ _ (complete_version d)

  run-Kept :
      (v : ProtoVersion) (d : Decoder) (es : List Event)
      → same_version v unset ≡ false
      → d.version ≡ v
      → Kept state v (run p d es)
  unfolding run
  run-Kept v d [] set e = kept state v _ e
  run-Kept v d (x ∷ es) set e =
      keep_bind state state v (handle p d x) _
        (subst (λ w. Kept state w (handle p d x)) e
          (handle-Kept d x (ap (λ w. same_version w unset) e ∙ set)))
        (λ q k.
          keep_bind state state v (run p q.0 es) _ (run-Kept v q.0 es set k)
            (λ r l. kept state v _ l))

  -- Once the decoder has a protocol version, it has the same one after every sequence of events that
  -- it handles, the ends of messages included.
  pub version-run :
      (d d' : Decoder) (es : List Event) (calls : List Callback)
      → same_version d.version unset ≡ false
      → run p d es ≡ some (d', calls)
      → d'.version ≡ d.version
  version-run d d' es calls set e =
      kept_value state d.version (d', calls)
        (subst (Kept state d.version) e (run-Kept d.version d es set refl))
