-- ===== src/Codec/Trailers.antt =====
-- What the encoder writes behind the last chunk when there are trailers.
use doormat.Base.{
  ◌≡◌, refl, ap, true, Option, some, List, [], ◌∷◌, ◌++◌, append_assoc, Bytes, codes,
}
use doormat.Headers.{crlf, ◌>>=◌}
use doormat.Codec.{
  Codec, at_zero, at_body, at_trailer, encode_trailer, encode_eom, transfer_chunked_termination,
}

-- One call of `encode_trailer` for each trailer, then `encode_eom`.
pub encode_trailers : Codec → List (Bytes × Bytes) → Option (Codec × Bytes)
encode_trailers c [] = encode_eom c
encode_trailers c ((k, v) ∷ ts) =
    encode_trailer c k v >>= λ p. encode_trailers p.0 ts >>= λ q. some (q.0, p.1 ++ q.1)

-- Each trailer as a line of its own, as the chunked coding asks for.
abbrev pub trailer_lines : List (Bytes × Bytes) → Bytes
trailer_lines [] = []
trailer_lines ((k, v) ∷ ts) = (k ++ (codes ": " ++ (v ++ crlf))) ++ trailer_lines ts

-- The same with the line of the last chunk repeated before each of them.
abbrev pub repeated_lines : List (Bytes × Bytes) → Bytes
repeated_lines [] = []
repeated_lines ((k, v) ∷ ts) =
    transfer_chunked_termination ++ ((k ++ (codes ": " ++ (v ++ crlf))) ++ repeated_lines ts)

later :
    (ts : List (Bytes × Bytes))
    → encode_trailers (record { chunked = true; encoder_state = at_trailer }) ts
      ≡ some (record { chunked = true; encoder_state = at_zero }, repeated_lines ts ++ crlf)
unfolding encode_trailers encode_trailer encode_eom
later [] = refl
later ((k, v) ∷ ts) = rw (later ts) (ap (λ x. some (done, x)) (simp append_assoc))
  where
    done : Codec
    done = record { chunked = true; encoder_state = at_zero }

-- One trailer behind a chunked body is written as the coding asks for: the last chunk, the trailer's
-- line and an empty line. Every further trailer has a second `0` line before it, which a reader takes
-- for the start of a trailer.
pub encode_trailers-repeated :
    (k v : Bytes) (ts : List (Bytes × Bytes))
    → (encode_trailers (record { chunked = true; encoder_state = at_body }) ((k, v) ∷ [])
        ≡ some (
          record { chunked = true; encoder_state = at_zero },
          transfer_chunked_termination ++ (trailer_lines ((k, v) ∷ []) ++ crlf),
        ))
      × (encode_trailers (record { chunked = true; encoder_state = at_body }) ((k, v) ∷ ts)
          ≡ some (
            record { chunked = true; encoder_state = at_zero },
            transfer_chunked_termination
                ++ (trailer_lines ((k, v) ∷ []) ++ (repeated_lines ts ++ crlf)),
          ))
unfolding encode_trailers encode_trailer encode_eom
encode_trailers-repeated k v ts = (
  ap (λ x. some (done, x)) (simp append_assoc),
  rw (later ts) (ap (λ x. some (done, x)) (simp append_assoc)),
)
  where
    done : Codec
    done = record { chunked = true; encoder_state = at_zero }
