-- ===== src/Http2/Reading.antt =====
-- The body of a stream as nghttp2 reads it.
use doormat.Base.{
  ℕ, zero, suc, ◌+◌, ◌-◌, ◌^◌, ◌≤◌, ◌<◌, min, ◌≡◌, ◌↔◌, refl, ap, Bool, true, false, List, [], ◌∷◌,
  ◌++◌, arith, Bytes, length, take, drop, length-take, length-drop, length-append, ◌⊎◌,
}
use doormat.Http2.Stream.{
  Stream, Reading, deferred, copied, body_empty, sizes, chunks_length, has_trailers, copy_chunks,
  copy, data_source_read_callback,
}

abbrev pub concat : List Bytes → Bytes
concat [] = []
concat (c ∷ cs) = c ++ concat cs

-- The bytes of the body that are not yet sent.
abbrev pub pending : Stream → Bytes
pending s = drop s.body_index (concat s.body)

-- The index lies inside the first chunk, and all chunks together fit the memory.
abbrev pub IndexIn : List Bytes → ℕ → Type 0
IndexIn [] index = index ≡ 0
IndexIn (c ∷ cs) index = index ≤ length c

pub record IsValid (s : Stream) : Type 0 where
  pub inside : IndexIn s.body s.body_index
  pub fits : sizes s.body < 2 ^ 63

abbrev pub bytes_of : Reading → Bytes
bytes_of deferred = []
bytes_of (copied bytes eof no_end) = bytes

abbrev pub eof_of : Reading → Bool
eof_of deferred = false
eof_of (copied bytes eof no_end) = eof

take-drop_in : (r : ℕ) (c rest : Bytes) → r ≤ length c → c ++ rest ≡ take r c ++ drop r (c ++ rest)
take-drop_in zero c rest h = refl
take-drop_in (suc r) [] rest h = absurd (omega arith)
take-drop_in (suc r) (x ∷ c) rest h = ap (λ l. x ∷ l) (take-drop_in r c rest (omega arith))

-- The bytes from `index` on, cut at `j`.
copied_part :
    (index r j : ℕ) (c rest : Bytes)
    → j ≡ index + r
    → j ≤ length c
    → drop index (c ++ rest) ≡ take r (drop index c) ++ drop j (c ++ rest)
copied_part zero r j c rest e h = rw e' (take-drop_in j c rest h)
  where
    e' : r ≡ j
    e' = omega (arith, e)
copied_part (suc index) r zero c rest e h = absurd (omega arith)
copied_part (suc index) r (suc j) [] rest e h = absurd (omega arith)
copied_part (suc index) r (suc j) (x ∷ c) rest e h =
    copied_part index r j c rest (omega arith) (omega arith)

drop-append : (c rest : Bytes) → drop (length c) (c ++ rest) ≡ rest
drop-append [] rest = refl
drop-append (x ∷ c) rest = drop-append c rest

pub copy_chunks-concat :
    (body : List Bytes) (index room : ℕ)
    → IndexIn body index
    → let (body', index', bytes) = copy_chunks body index room in
      (drop index (concat body) ≡ bytes ++ drop index' (concat body'))
      × (length bytes ≤ room)
      × IndexIn body' index'
      × (sizes body' ≤ sizes body)
copy_chunks-concat [] index room i = rw i (refl, omega arith, refl, omega arith)
copy_chunks-concat (c ∷ []) index room i = ground (
  arith,
  copied_part index (min (length c - index) room) (index + min (length c - index) room) c [],
  drop-append c [],
  length-take (min (length c - index) room) (drop index c),
)
copy_chunks-concat (c ∷ d ∷ cs) index room i = ground (
  arith,
  copied_part index (min (length c - index) room) (index + min (length c - index) room) c
      (d ++ concat cs),
  drop-append c (d ++ concat cs),
  length-take (min (length c - index) room) (drop index c),
)

pub length-concat : (cs : List Bytes) → length (concat cs) ≡ sizes cs
length-concat [] = refl
length-concat (c ∷ cs) = omega (arith, length-append c (concat cs), length-concat cs)

index_total : (body : List Bytes) (index : ℕ) → IndexIn body index → index ≤ sizes body
index_total [] index i = omega (arith, i)
index_total (c ∷ cs) index i = omega (arith, i)

-- `body_length` is the number of bytes pending.
pub chunks_length-pending :
    (body : List Bytes) (index : ℕ)
    → IndexIn body index
    → sizes body < 2 ^ 63
    → chunks_length body index ≡ length (drop index (concat body))
chunks_length-pending [] index i f = rw i refl
chunks_length-pending (c ∷ cs) index i f =
    omega
      (arith, length-drop index (c ++ concat cs), length-append c (concat cs), length-concat cs, i)

-- Each call hands over the next bytes of the body, no more than there is room for, and keeps the rest
-- for later calls, whatever the sizes of the chunks.
pub data_source_read_callback-pending :
    (s : Stream) (room : ℕ)
    → IsValid s
    → let (t, r) = data_source_read_callback s room in
      (pending s ≡ bytes_of r ++ pending t) × (length (bytes_of r) ≤ room) × IsValid t
unfolding data_source_read_callback
data_source_read_callback-pending s room v =
    ground (arith, copy_chunks-concat s.body s.body_index room v.inside)

-- Behind the end of the message, without trailers, the frame is marked as the last of the stream
-- exactly when no chunk is left or when the bytes still pending behind those copied are as many as the
-- buffer has room for. In the second case the mark comes too early: the pending bytes are not sent.
pub data_source_read_callback-eof :
    (s : Stream) (room : ℕ)
    → IsValid s
    → room < 2 ^ 63
    → s.eof ≡ true
    → has_trailers s ≡ false
    → let (t, r) = data_source_read_callback s room in
      (eof_of r ≡ true) ↔ ((body_empty t ≡ true) ⊎ (length (pending t) ≡ room))
unfolding data_source_read_callback
data_source_read_callback-eof s room v small e n = ground (
  arith,
  copy_chunks-concat s.body s.body_index room v.inside,
  chunks_length-pending s.body s.body_index v.inside v.fits,
  chunks_length-pending (copy s room).0.body (copy s room).0.body_index,
)
