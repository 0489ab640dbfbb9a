-- ===== src/Codec/Trailing.antt =====
-- What the events of a message behind its header do in the decoder.
use doormat.Base.{
  ◌≡◌, refl, ap, Bool, true, false, Option, some, [], ◌∷◌, ◌++◌, Bytes, if◌then◌else◌, if_both,
  List,
}
use doormat.Codec.Events.{All}
use doormat.Codec.Decoder.{
  Message, Url, Decoder, Callback, body_cb, trailer_cb, Event, message_begin, url_part, status_part,
  header_field, header_value, headers_complete, body_part, chunk_header, chunk_complete,
  message_complete, on_header_value, on_trailer_field, flush_trailer, on_body, on_chunk, handle,
}

-- Between the end of the header and that of the message.
abbrev pub Trails : Event → Type 0
Trails (header_field s) = Unit {0}
Trails (header_value s) = Unit {0}
Trails (body_part s) = Unit {0}
Trails (chunk_header b) = Unit {0}
Trails (chunk_complete b) = Unit {0}
Trails _ = ⊥

-- What an event behind the header does.
abbrev pub trailing : Decoder → Event → Decoder × List Callback
trailing d (header_field s) = on_trailer_field d s
trailing d (header_value s) = (on_header_value d s, [])
trailing d (body_part s) = (d, on_body d s)
trailing d (chunk_header b) = (on_chunk d b, [])
trailing d (chunk_complete b) = (on_chunk d b, [])
trailing d x = (d, [])

pub trailing-handle :
    (parse_url : Bytes → Bool → Url → Url × Bool) (d : Decoder) (x : Event)
    → d.headers_completed ≡ true
    → Trails x
    → handle parse_url d x ≡ some (trailing d x)
unfolding handle
trailing-handle parse_url d (header_field s) h q = rw h refl
trailing-handle parse_url d (header_value s) h q = refl
trailing-handle parse_url d (body_part s) h q = refl
trailing-handle parse_url d (chunk_header b) h q = refl
trailing-handle parse_url d (chunk_complete b) h q = refl
trailing-handle parse_url d (message_begin _) h q = elim q [ ]
trailing-handle parse_url d (url_part _) h q = elim q [ ]
trailing-handle parse_url d (status_part _ _) h q = elim q [ ]
trailing-handle parse_url d (headers_complete _) h q = elim q [ ]
trailing-handle parse_url d message_complete h q = elim q [ ]

-- It does not look at the message, and the header stays complete.
abbrev pub pointed : Option Message → Decoder × List Callback → Decoder × List Callback
pointed m p = (record p.0 { message = m }, p.1)

if-pointed :
    (m : Option Message) (b : Bool) (p q : Decoder × List Callback)
    → (if b then pointed m p else pointed m q) ≡ pointed m (if b then p else q)
if-pointed m true p q = refl
if-pointed m false p q = refl

pub flush-pointed :
    (m : Option Message) (d : Decoder)
    → flush_trailer (record d { message = m }) ≡ pointed m (flush_trailer d)
unfolding flush_trailer
flush-pointed m d =
    if-pointed m d.got_header
      (record d { got_header = false; key = []; value = [] }, trailer_cb d.key d.value ∷ []) (d, [])

chunk-pointed :
    (m : Option Message) (d : Decoder) (b : Bool)
    → ◌≡◌ {A = Decoder × List Callback}
        (on_chunk (record d { message = m }) b, [])
        (pointed m (on_chunk d b, []))
unfolding on_chunk
chunk-pointed m d true = refl
chunk-pointed m d false = refl

pub trailing-pointed :
    (m : Option Message) (d : Decoder) (x : Event)
    → trailing (record d { message = m }) x ≡ pointed m (trailing d x)
unfolding on_trailer_field on_header_value on_body
trailing-pointed m d (header_field s) =
    ap (λ (p : Decoder × List Callback). (record p.0 { key = p.0.key ++ s }, p.1))
      (flush-pointed m d)
trailing-pointed m d (header_value s) = refl
trailing-pointed m d (body_part s) = refl
trailing-pointed m d (chunk_header b) = chunk-pointed m d b
trailing-pointed m d (chunk_complete b) = chunk-pointed m d b
trailing-pointed m d (message_begin _) = refl
trailing-pointed m d (url_part _) = refl
trailing-pointed m d (status_part _ _) = refl
trailing-pointed m d (headers_complete _) = refl
trailing-pointed m d message_complete = refl

chunk-completed : (d : Decoder) (b : Bool) → (on_chunk d b).headers_completed ≡ d.headers_completed
unfolding on_chunk
chunk-completed d true = refl
chunk-completed d false = refl

pub trailing-completed :
    (d : Decoder) (x : Event) → (trailing d x).0.headers_completed ≡ d.headers_completed
unfolding on_trailer_field on_header_value flush_trailer
trailing-completed d (header_field s) =
    if_both (λ (p : Decoder × List Callback). p.0.headers_completed ≡ d.headers_completed)
      d.got_header refl refl
trailing-completed d (header_value s) = refl
trailing-completed d (body_part s) = refl
trailing-completed d (chunk_header b) = chunk-completed d b
trailing-completed d (chunk_complete b) = chunk-completed d b
trailing-completed d (message_begin _) = refl
trailing-completed d (url_part _) = refl
trailing-completed d (status_part _ _) = refl
trailing-completed d (headers_complete _) = refl
trailing-completed d message_complete = refl

-- It reports pieces of the body and trailers only.
abbrev pub IsPiece : Callback → Type 0
IsPiece (body_cb b) = Unit {0}
IsPiece (trailer_cb k v) = Unit {0}
IsPiece _ = ⊥

pub flush-All : (d : Decoder) → All IsPiece (flush_trailer d).1
unfolding flush_trailer
flush-All d = if_both (λ (p : Decoder × List Callback). All IsPiece p.1) d.got_header (tt, tt) tt

pub trailing-All : (d : Decoder) (x : Event) → All IsPiece (trailing d x).1
unfolding on_trailer_field on_body
trailing-All d (header_field s) = flush-All d
trailing-All d (header_value s) = tt
trailing-All d (body_part s) = if_both (λ xs. All IsPiece xs) d.ignore tt (tt, tt)
trailing-All d (chunk_header b) = tt
trailing-All d (chunk_complete b) = tt
trailing-All d (message_begin _) = tt
trailing-All d (url_part _) = tt
trailing-All d (status_part _ _) = tt
trailing-All d (headers_complete _) = tt
trailing-All d message_complete = tt
