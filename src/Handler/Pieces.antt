-- ===== src/Handler/Pieces.antt =====
-- A message, encoded piece by piece.
use doormat.Base.{
  ◌≡◌, refl, sym, ◌∙◌, Bool, true, false, Option, none, some, List, [], ◌∷◌, ◌++◌, arith, Bytes,
  Option-cases, inl, inr,
}
use doormat.Headers.{◌>>=◌}
use doormat.Codec.{Codec, encode_header, encode_body, encode_trailer, encode_eom}
use doormat.Handler.{Traits}

-- One piece encoded, then others from the codec it leaves.
abbrev pub then_piece :
    Option (Codec × Bytes) → (Codec → Option (Codec × Bytes)) → Option (Codec × Bytes)
then_piece x k = x >>= λ p. k p.0 >>= λ q. some (q.0, p.1 ++ q.1)

abbrev pub end_piece : Codec → Bool → Option (Codec × Bytes)
end_piece c false = some (c, [])
end_piece c true = encode_eom c

abbrev pub trailer_pieces : Codec → List (Bytes × Bytes) → Bool → Option (Codec × Bytes)
trailer_pieces c [] ended = end_piece c ended
trailer_pieces c (kv ∷ kvs) ended =
    then_piece (encode_trailer c kv.0 kv.1) (λ c'. trailer_pieces c' kvs ended)

abbrev pub body_pieces : Codec → Bytes → List (Bytes × Bytes) → Bool → Option (Codec × Bytes)
body_pieces c [] ts ended = trailer_pieces c ts ended
body_pieces c (b ∷ bs) ts ended =
    then_piece (encode_body c (b ∷ bs)) (λ c'. trailer_pieces c' ts ended)

-- A message, encoded: its header, its body, its trailers and its end, as far as they are there.
abbrev pub all_pieces :
    {M N R : Type 0}
    → Traits M N R
    → Codec
    → Option N
    → Bytes
    → List (Bytes × Bytes)
    → Bool
    → Option (Codec × Bytes)
all_pieces t c none b ts ended = body_pieces c b ts ended
all_pieces t c (some m) b ts ended =
    then_piece (encode_header c (Traits.local_base t m).chunked (Traits.serialize_local t m))
      (λ c'. body_pieces c' b ts ended)

pub then_piece_inv :
    (x : Option (Codec × Bytes)) (k : Codec → Option (Codec × Bytes)) (c : Codec) (bytes : Bytes)
    → then_piece x k ≡ some (c, bytes)
    → (p : Codec × Bytes) × (rest : Bytes) × (x ≡ some p)
      × (k p.0 ≡ some (c, rest))
      × (p.1 ++ rest ≡ bytes)
then_piece_inv none k c bytes e = absurd cc
then_piece_inv (some p) k c bytes e = elim (Option-cases (k p.0)) [
  | inl n ↦ absurd (ground (arith, n, e))
  | inr (q, y) ↦
      let both : (some (q.0, p.1 ++ q.1)) ≡ some (c, bytes) = sym (rw y refl) ∙ e in
      (p, q.1, refl, y ∙ ground (arith, both), ground (arith, both))
]
