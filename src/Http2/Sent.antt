-- ===== src/Http2/Sent.antt =====
-- The body of a client's stream as nghttp2 reads it.
use doormat.Base.{
  ℕ, ◌+◌, ◌-◌, ◌≤◌, ◌≡◌, sym, ap, subst, ◌∙◌, true, false, List, ◌∷◌, ◌++◌, arith, Bytes, length,
  drop, length-drop, length-append,
}
use doormat.Http2.Stream.{Stream, sizes, has_trailers, copy_chunks}
use doormat.Http2.Reading.{
  concat, pending, IsValid, bytes_of, eof_of, copy_chunks-concat, chunks_length-pending,
  length-concat,
}
use doormat.Http2.Client.{client_read_callback}

-- Each call hands over the next bytes of the body, no more than there is room for, and keeps the rest.
pub client_read_callback-pending :
    (s : Stream) (room : ℕ)
    → IsValid s
    → let (t, r) = client_read_callback s room in
      (pending s ≡ bytes_of r ++ pending t) × (length (bytes_of r) ≤ room) × IsValid t
unfolding client_read_callback
client_read_callback-pending s room v =
    ground (arith, copy_chunks-concat s.body s.body_index room v.inside)

-- The chunks that a stream is left with when the first one fits.
first_copied :
    (c : Bytes) (cs : List Bytes) (index room : ℕ)
    → index ≤ length c
    → length c - index ≤ room
    → ((copy_chunks (c ∷ cs) index room).0 ≡ cs) × ((copy_chunks (c ∷ cs) index room).1 ≡ 0)
first_copied c cs index room i h = ground arith

pending-length :
    (c : Bytes) (cs : List Bytes) (index : ℕ)
    → index ≤ length c
    → length (drop index (concat (c ∷ cs))) ≡ length c + sizes cs - index
pending-length c cs index i =
    omega (arith, length-drop index (c ++ concat cs), length-append c (concat cs), length-concat cs)

early :
    (s : Stream) (room : ℕ) (c d : Bytes) (cs : List Bytes)
    → let s1 = record s { body = c ∷ d ∷ cs } in
      IsValid s1
      → s.eof ≡ true
      → has_trailers s ≡ false
      → room ≡ length (pending s1)
      → let (t, r) = client_read_callback s1 room in
        (eof_of r ≡ true) × (length (pending t) ≡ length d + sizes cs)
unfolding client_read_callback
early s room c d cs v e n h = ground (
  arith,
  first_copied c (d ∷ cs) s.body_index room,
  pending-length c (d ∷ cs) s.body_index,
  chunks_length-pending (c ∷ d ∷ cs) s.body_index v.inside v.fits,
  pending-length d cs 0,
  v.inside,
  v.fits,
  e,
  n,
  h,
)

-- At the end of a message without trailers, a call with room for exactly what is pending in two
-- chunks or more marks the frame as the last and hands over the first chunk only.
pub client_read_callback_early :
    (s : Stream) (room : ℕ) (c d : Bytes) (cs : List Bytes)
    → IsValid s
    → s.body ≡ c ∷ d ∷ cs
    → s.eof ≡ true
    → has_trailers s ≡ false
    → room ≡ length (pending s)
    → let (t, r) = client_read_callback s room in
      (eof_of r ≡ true) × (length (pending t) ≡ length d + sizes cs)
client_read_callback_early s room c d cs v b e n h =
    let same : record s { body = c ∷ d ∷ cs } ≡ s = ap (λ x. record s { body = x }) (sym b) in
    subst
      (λ u.
        let (t, r) = client_read_callback u room in
        (eof_of r ≡ true) × (length (pending t) ≡ length d + sizes cs))
      same
      (early s room c d cs (subst IsValid (sym same) v) e n
        (h ∙ ap (λ u. length (pending u)) (sym same)))
