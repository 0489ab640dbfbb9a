-- ===== src/Headers/Framing.antt =====
-- How the two descriptions of a body's length, `content-length` and `transfer-encoding: chunked`,
-- displace one another.
use doormat.Base.{
  ℕ, ◌≡◌, refl, true, false, some, [], ◌∷◌, arith, Bytes, codes, bytes_eq, bytes_eq_refl,
}
use doormat.Utils.{icompare}
use doormat.Headers.Store.{
  Multimap, insert, erase, equal_range, IsSorted, insert-IsSorted, erase-IsSorted,
  equal_range-insert, equal_range-erase,
}
use doormat.Headers.Number.{stoull}
use doormat.Headers.Laws.{IsWellFormed}
use doormat.Headers.{
  StructuredData, header, header_lower, set_length, set_chunked, hf_content_len,
  hf_transfer_encoding, add, remove_header, ◌>>=◌,
}

length_other : bytes_eq hf_content_len hf_transfer_encoding ≡ false
length_other = unfold bytes_eq in refl

encoding_other : bytes_eq hf_transfer_encoding hf_content_len ≡ false
encoding_other = unfold bytes_eq in refl

header-chunked :
    (d : StructuredData) (v : Bytes)
    → icompare v (codes "chunked") ≡ true
    → header d hf_transfer_encoding v ≡ some (set_chunked d v)
unfolding header header_lower bytes_eq
header-chunked d v h = rw h refl

header-length : (d : StructuredData) (w : Bytes) → header d hf_content_len w ≡ set_length d w
unfolding header header_lower bytes_eq
header-length d w = refl

-- The values of the two fields after each order of arrival, for a chunked encoding `v` and a length
-- `w` that can be read: an encoding that comes last displaces the length, but a length that comes last
-- stands beside the encoding, and the message is still marked as chunked.
pub framing_order :
    (d : StructuredData) (v w : Bytes) (n : ℕ)
    → IsWellFormed d
    → icompare v (codes "chunked") ≡ true
    → stoull w ≡ some n
    → ((e : StructuredData) × ((header d hf_content_len w >>= λ x. header x hf_transfer_encoding v)
          ≡ some e)
        × (equal_range hf_content_len e.headers ≡ [])
        × (equal_range hf_transfer_encoding e.headers ≡ v ∷ [])
        × (e.chunked ≡ true))
      × ((e : StructuredData) × ((header d hf_transfer_encoding v >>= λ x.
              header x hf_content_len w)
            ≡ some e)
          × (equal_range hf_content_len e.headers ≡ w ∷ [])
          × (equal_range hf_transfer_encoding e.headers ≡ v ∷ [])
          × (e.chunked ≡ true))
unfolding set_length set_chunked
framing_order d v w n f h g = (
  (
    set_chunked measured v,
    rw (header-length d w, g, set_length) (header-chunked measured v h),
    chunked_last measured.headers sized,
    encoded measured.headers sized,
    refl,
  ),
  (
    add (remove_header (record coded { content_len = n }) hf_content_len) hf_content_len w,
    rw (header-chunked d v h, header-length coded w, g, set_length) refl,
    length_last coded.headers both,
    length_keeps coded.headers both (encoded d.headers f.sorted),
    refl,
  ),
)
  where
    measured : StructuredData
    measured = add (remove_header (record d { content_len = n }) hf_content_len) hf_content_len w

    coded : StructuredData
    coded = set_chunked d v

    sized : IsSorted measured.headers
    sized = insert-IsSorted hf_content_len w _ (erase-IsSorted hf_content_len d.headers f.sorted)

    both : IsSorted coded.headers
    both =
        insert-IsSorted hf_transfer_encoding v _
          (erase-IsSorted hf_content_len _ (erase-IsSorted hf_transfer_encoding d.headers f.sorted))

    chunked_last :
        (m : Multimap)
        → IsSorted m
        → equal_range hf_content_len
            (insert hf_transfer_encoding v (erase hf_content_len (erase hf_transfer_encoding m)))
          ≡ []
    chunked_last m o = ground (
      arith,
      equal_range-insert hf_content_len hf_transfer_encoding v _
          (erase-IsSorted hf_content_len _ (erase-IsSorted hf_transfer_encoding m o)),
      equal_range-erase hf_content_len hf_content_len (erase hf_transfer_encoding m),
      bytes_eq_refl hf_content_len,
      encoding_other,
    )

    encoded :
        (m : Multimap)
        → IsSorted m
        → equal_range hf_transfer_encoding
            (insert hf_transfer_encoding v (erase hf_content_len (erase hf_transfer_encoding m)))
          ≡ v ∷ []
    encoded m o = ground (
      arith,
      equal_range-insert hf_transfer_encoding hf_transfer_encoding v _
          (erase-IsSorted hf_content_len _ (erase-IsSorted hf_transfer_encoding m o)),
      equal_range-erase hf_transfer_encoding hf_content_len (erase hf_transfer_encoding m),
      equal_range-erase hf_transfer_encoding hf_transfer_encoding m,
      bytes_eq_refl hf_transfer_encoding,
      length_other,
    )

    length_last :
        (m : Multimap)
        → IsSorted m
        → equal_range hf_content_len (insert hf_content_len w (erase hf_content_len m)) ≡ w ∷ []
    length_last m o = ground (
      arith,
      equal_range-insert hf_content_len hf_content_len w _ (erase-IsSorted hf_content_len m o),
      equal_range-erase hf_content_len hf_content_len m,
      bytes_eq_refl hf_content_len,
    )

    length_keeps :
        (m : Multimap)
        → IsSorted m
        → equal_range hf_transfer_encoding m ≡ v ∷ []
        → equal_range hf_transfer_encoding (insert hf_content_len w (erase hf_content_len m))
          ≡ v ∷ []
    length_keeps m o e = ground (
      arith,
      equal_range-insert hf_transfer_encoding hf_content_len w _
          (erase-IsSorted hf_content_len m o),
      equal_range-erase hf_transfer_encoding hf_content_len m,
      length_other,
    )
