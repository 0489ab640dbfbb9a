-- ===== src/Http2/Fields.antt =====
-- The header fields of a response as a stream sends them.
use doormat.Base.{
  ◌≡◌, refl, ap, ◌&&◌, ◌∙◌, inl, inr, Bool, false, some, [], ◌∷◌, append-nil, arith, Bytes, codes,
  bytes_eq, bytes_eq_sound, if◌then◌else◌, Bool-cases,
}
use doormat.Headers.Store.{
  Multimap, erase, equal_range, IsSorted, KeysFrom, erase-IsSorted, equal_range-insert,
  equal_range-erase, find-equal_range,
}
use doormat.Headers.{
  StructuredData, filter, filter_headers, has, header, header_lower, remove_header, add, get_header,
}
use doormat.Utils.{icompare}
use doormat.Http2.Stream.{is_connection_specific, translate}

equal_range-filter :
    (k : Bytes) (q : Bytes → Bool) (m : Multimap)
    → equal_range k (filter_headers (λ h. q h.0) m) ≡ (if q k then [] else equal_range k m)
unfolding equal_range filter_headers
equal_range-filter k q [] = ground arith
equal_range-filter k q ((j, v) ∷ m) =
    ground (arith, equal_range-filter k q m, bytes_eq_sound j k, λ (e : j ≡ k). ap q e)

KeysFrom-filter :
    (j : Bytes) (p : Bytes × Bytes → Bool) (m : Multimap)
    → KeysFrom j m
    → KeysFrom j (filter_headers p m)
unfolding filter_headers
KeysFrom-filter j p [] f = tt
KeysFrom-filter j p ((i, w) ∷ m) f = ground (arith, KeysFrom-filter j p m f.1)

filter-IsSorted :
    (p : Bytes × Bytes → Bool) (m : Multimap) → IsSorted m → IsSorted (filter_headers p m)
unfolding filter_headers
filter-IsSorted p [] s = tt
filter-IsSorted p ((j, w) ∷ m) s =
    ground (arith, filter-IsSorted p m s.1, KeysFrom-filter j p m s.0)

abbrev pub transfer_encoding : Bytes
transfer_encoding = codes "transfer-encoding"

abbrev pub is_forbidden : Bytes → Bool
is_forbidden k = is_connection_specific (k, [])

header-trailers :
    (d : StructuredData)
    → header d transfer_encoding (codes "trailers")
      ≡ some (add d transfer_encoding (codes "trailers"))
unfolding header header_lower bytes_eq icompare
header-trailers d = refl

encoding_allowed : is_forbidden transfer_encoding ≡ false
unfolding icompare
encoding_allowed = refl

has_cong :
    (d e : StructuredData) (k : Bytes)
    → equal_range k d.headers ≡ equal_range k e.headers
    → has d k ≡ has e k
unfolding has get_header
has_cong d e k h =
    rw (has, get_header, find-equal_range k d.headers, find-equal_range k e.headers, h) refl

module _ (d : StructuredData) (s : IsSorted d.headers) where
  abbrev pub kept : StructuredData
  kept = filter d is_connection_specific

  sent : StructuredData
  sent =
      if has kept transfer_encoding
      then add (remove_header kept transfer_encoding) transfer_encoding (codes "trailers")
      else kept

  translate-sent : translate d ≡ some sent
  unfolding translate sent
  translate-sent = elim (Bool-cases (has kept transfer_encoding)) [
    | inl h ↦ rw h (header-trailers (remove_header kept transfer_encoding))
    | inr h ↦ rw h refl
  ]

  kept-IsSorted : IsSorted kept.headers
  unfolding filter
  kept-IsSorted = filter-IsSorted is_connection_specific d.headers s

  kept_values :
      (k : Bytes)
      → equal_range k kept.headers ≡ (if is_forbidden k then [] else equal_range k d.headers)
  unfolding filter
  kept_values k = equal_range-filter k is_forbidden d.headers

  has-kept : has kept transfer_encoding ≡ has d transfer_encoding
  has-kept =
      has_cong kept d transfer_encoding (kept_values transfer_encoding ∙ rw encoding_allowed refl)

  sent_values :
      (k : Bytes)
      → equal_range k sent.headers ≡ (
          if has d transfer_encoding && bytes_eq transfer_encoding k
          then codes "trailers" ∷ []
          else equal_range k kept.headers)
  unfolding sent
  sent_values k = ground (
    arith,
    has-kept,
    equal_range-insert k transfer_encoding (codes "trailers") (erase transfer_encoding kept.headers)
        (erase-IsSorted transfer_encoding kept.headers kept-IsSorted),
    equal_range-erase k transfer_encoding kept.headers,
    append-nil (equal_range k kept.headers),
  )

  -- A response is sent, and the message that is sent has no field `k` if HTTP/2 forbids it, and else
  -- the values that the response has of it, but for a transfer encoding, of which the only value
  -- becomes "trailers".
  pub translate_fields :
      (k : Bytes)
      → (e : StructuredData) × (translate d ≡ some e)
        × (equal_range k e.headers ≡ (
            if has d transfer_encoding && bytes_eq transfer_encoding k
            then codes "trailers" ∷ []
            else if is_forbidden k
            then []
            else equal_range k d.headers))
  translate_fields k = (sent, translate-sent, rw (← kept_values k) (sent_values k))
