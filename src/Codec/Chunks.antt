-- ===== src/Codec/Chunks.antt =====
-- A chunked body as a reader of the connection sees it.
use doormat.Base.{
  ℕ, zero, suc, ◌^◌, ◌<◌, ◌≡◌, refl, ap, ◌∙◌, true, false, Option, none, some, List, [], ◌∷◌, ◌++◌,
  append_assoc, append-nil, arith, Bytes, ltb, ◌==◌, if◌then◌else◌, length, take, drop, take-append,
  drop-append, length-append, is_empty,
}
use doormat.Utils.Hex.{from, read_hex, read_hex-from}
use doormat.Headers.{crlf, ◌>>=◌}
use doormat.Codec.{
  Codec, at_zero, at_header, at_body, encode_body, encode_eom, transfer_chunked_termination,
}

abbrev pub strip_crlf : Bytes → Option Bytes
strip_crlf [] = none
strip_crlf (c ∷ []) = none
strip_crlf (c ∷ d ∷ s) = if c == 13 then (if d == 10 then some s else none) else none

-- A chunk of `n` bytes with the line end behind it, and what follows.
abbrev pub take_chunk : ℕ → Bytes → Option (Bytes × Bytes)
take_chunk n t =
    if ltb (length t) n then none else (strip_crlf (drop n t) >>= λ u. some (take n t, u))

-- The rest of a body behind the line with the size `n`; `next` reads the chunks behind this one.
abbrev pub read_sized : (Bytes → Option (Bytes × Bytes)) → ℕ → Bytes → Option (Bytes × Bytes)
read_sized next n t =
    if n == 0
    then (strip_crlf t >>= λ u. some ([], u))
    else (take_chunk n t >>= λ p. next p.1 >>= λ q. some (p.0 ++ q.0, q.1))

-- A reference reader: chunks up to the one of size 0, without trailers. It returns the body and what
-- follows the message.
pub read_chunks : ℕ → Bytes → Option (Bytes × Bytes)
read_chunks zero s = none
read_chunks (suc fuel) s =
    let (n, r) = read_hex 0 s in strip_crlf r >>= λ t. read_sized (read_chunks fuel) n t

-- One call of `encode_body` for each piece.
pub encode_bodies : Codec → List Bytes → Option (Codec × Bytes)
encode_bodies c [] = some (c, [])
encode_bodies c (d ∷ ds) =
    encode_body c d >>= λ p. encode_bodies p.0 ds >>= λ q. some (q.0, p.1 ++ q.1)

-- The pieces, then `encode_eom`.
pub encode_all : Codec → List Bytes → Option (Codec × Bytes)
unfolding encode_bodies
encode_all c ds = encode_bodies c ds >>= λ p. encode_eom p.0 >>= λ q. some (q.0, p.1 ++ q.1)

abbrev pub concat : List Bytes → Bytes
concat [] = []
concat (d ∷ ds) = d ++ concat ds

abbrev pub AllSmall : List Bytes → Type 0
AllSmall [] = Unit {0}
AllSmall (d ∷ ds) = (length d < 2 ^ 64) × AllSmall ds

-- What the encoder writes for the pieces.
abbrev pub chunks : List Bytes → Bytes
chunks [] = []
chunks (d ∷ ds) = (if is_empty d then [] else from (length d) ++ (crlf ++ (d ++ crlf))) ++ chunks ds

abbrev chunked_body : Codec
chunked_body = record { chunked = true; encoder_state = at_body }

encode_bodies-chunks :
    (ds : List Bytes) → encode_bodies chunked_body ds ≡ some (chunked_body, chunks ds)
unfolding encode_bodies encode_body
encode_bodies-chunks [] = refl
encode_bodies-chunks (d ∷ ds) = rw (encode_bodies-chunks ds) refl

encode_all-chunks :
    (ds : List Bytes)
    → encode_all (record { chunked = true; encoder_state = at_header }) ds
      ≡ some (
        record { chunked = true; encoder_state = at_zero },
        chunks ds ++ (transfer_chunked_termination ++ crlf),
      )
unfolding encode_all encode_bodies encode_body encode_eom
encode_all-chunks [] = refl
encode_all-chunks (d ∷ ds) = rw (encode_bodies-chunks ds) refl

take_chunk-append : (d s : Bytes) → take_chunk (length d) (d ++ (crlf ++ s)) ≡ some (d, s)
take_chunk-append d s = rw (drop-append d (crlf ++ s), take-append d (crlf ++ s), enough) refl
  where
    enough : ltb (length (d ++ (crlf ++ s))) (length d) ≡ false
    enough = ground (arith, length-append d (crlf ++ s))

read_chunk :
    (fuel : ℕ) (d s : Bytes)
    → length d < 2 ^ 64
    → is_empty d ≡ false
    → read_chunks (suc fuel) (from (length d) ++ (crlf ++ (d ++ (crlf ++ s))))
      ≡ (read_chunks fuel s >>= λ p. some (d ++ p.0, p.1))
unfolding read_chunks
read_chunk fuel d s h ne =
    rw
      (
        read_hex-from (length d) 13 (10 ∷ (d ++ (crlf ++ s))) h refl,
        some_bytes d ne,
        take_chunk-append d s,
      )
      refl
  where
    some_bytes : (d : Bytes) → is_empty d ≡ false → (length d == 0) ≡ false
    some_bytes [] e = cc
    some_bytes (b ∷ d) e = ground arith

read_last :
    (fuel : ℕ) (rest : Bytes)
    → read_chunks (suc fuel) (transfer_chunked_termination ++ (crlf ++ rest)) ≡ some ([], rest)
unfolding read_chunks read_hex
read_last fuel rest = refl

regroup :
    (a b d c t : Bytes) → ((a ++ (b ++ (d ++ b))) ++ c) ++ t ≡ a ++ (b ++ (d ++ (b ++ (c ++ t))))
regroup a b d c t = simp append_assoc

read_chunks-chunks :
    (ds : List Bytes) (rest : Bytes) (fuel : ℕ)
    → AllSmall ds
    → length ds < fuel
    → read_chunks fuel (chunks ds ++ (transfer_chunked_termination ++ (crlf ++ rest)))
      ≡ some (concat ds, rest)
read_chunks-chunks ds rest zero h f = absurd (omega arith)
read_chunks-chunks [] rest (suc fuel) h f = read_last fuel rest
read_chunks-chunks ([] ∷ ds) rest (suc fuel) h f =
    read_chunks-chunks ds rest (suc fuel) h.1 (omega arith)
read_chunks-chunks ((b ∷ d) ∷ ds) rest (suc fuel) h f =
    ap (read_chunks (suc fuel)) (
      regroup (from (length (b ∷ d))) crlf (b ∷ d) (chunks ds)
        (transfer_chunked_termination ++ (crlf ++ rest)))
    ∙ read_chunk fuel (b ∷ d) (chunks ds ++ (transfer_chunked_termination ++ (crlf ++ rest))) h.0
        refl
    ∙ ap (λ o. o >>= λ p. some ((b ∷ d) ++ p.0, p.1))
        (read_chunks-chunks ds rest fuel h.1 (omega arith))

-- A chunked message whose body is given in pieces of less than 2 ^ 64 bytes is read back, by a reader
-- of the chunked coding that may read one chunk more than there are pieces, as the pieces put
-- together, whatever follows the message; empty pieces write nothing, and the codec is ready for the
-- next message.
pub read_chunks-encode_all :
    (ds : List Bytes) (rest : Bytes) (fuel : ℕ)
    → AllSmall ds
    → length ds < fuel
    → (out : Bytes) × (encode_all (record { chunked = true; encoder_state = at_header }) ds
        ≡ some (record { chunked = true; encoder_state = at_zero }, out))
      × (read_chunks fuel (out ++ rest) ≡ some (concat ds, rest))
read_chunks-encode_all ds rest fuel h f = (
  chunks ds ++ (transfer_chunked_termination ++ crlf),
  encode_all-chunks ds,
  ap (read_chunks fuel) (simp append_assoc) ∙ read_chunks-chunks ds rest fuel h f,
)

plain_body :
    (ds : List Bytes)
    → encode_bodies (record { chunked = false; encoder_state = at_body }) ds
      ≡ some (record { chunked = false; encoder_state = at_body }, concat ds)
unfolding encode_bodies encode_body
plain_body [] = refl
plain_body ([] ∷ ds) = rw (plain_body ds) refl
plain_body ((b ∷ d) ∷ ds) = rw (plain_body ds) refl

-- Without the chunked coding the pieces are written one behind the other and nothing else.
pub encode_all-concat :
    (ds : List Bytes)
    → encode_all (record { chunked = false; encoder_state = at_header }) ds
      ≡ some (record { chunked = false; encoder_state = at_zero }, concat ds)
unfolding encode_all encode_bodies encode_body encode_eom
encode_all-concat [] = refl
encode_all-concat ([] ∷ ds) = rw (plain_body ds, append-nil (concat ds)) refl
encode_all-concat ((b ∷ d) ∷ ds) = rw (plain_body ds, append-nil (d ++ concat ds)) refl
