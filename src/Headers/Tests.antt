-- ===== src/Headers/Tests.antt =====
-- The theorems on header fields at short messages.
use doormat.Base.{◌≡◌, refl, true, some, List, [], ◌∷◌, ◌++◌, codes}
use doormat.Utils.{icompare}
use doormat.Headers.Store.{Multimap, equal_range, IsSorted, bytes_lt}
use doormat.Headers.Number.{stoull}
use doormat.Headers.Laws.{Keeps, blank-IsConsistent}
use doormat.Headers.Reach.{Call, headers, chunks, measures, protocols, calls, calls-make-Keeps}
use doormat.Headers.Serialize.{groups, lines, Increasing, serialize-lines}
use doormat.Headers.Framing.{framing_order}
use doormat.Headers.{
  StructuredData, http11, blank, make, header, serialize, crlf, ◌>>=◌, hf_content_len,
  hf_transfer_encoding,
}

abbrev some_calls : List Call
some_calls =
    protocols http11
    ∷ headers (codes "Host") (codes "a")
    ∷ measures 12
    ∷ headers (codes "host") (codes "b")
    ∷ chunks true
    ∷ []

calls-make-Keeps_example : Keeps (calls make some_calls)
calls-make-Keeps_example = calls-make-Keeps some_calls

abbrev two_cookies : Multimap
two_cookies =
    (codes "accept", codes "a") ∷ (codes "cookie", codes "x=1") ∷ (codes "cookie", codes "y=2") ∷ []

abbrev with_cookies : StructuredData
with_cookies = record blank { headers = two_cookies }

two_cookies-IsSorted : IsSorted two_cookies
unfolding bytes_lt
two_cookies-IsSorted = ((refl, (refl, tt)), ((refl, tt), (tt, tt)))

serialize-lines_example :
    (serialize with_cookies ≡ some (lines (groups two_cookies) ++ crlf))
    × Increasing (groups two_cookies)
serialize-lines_example =
    serialize-lines with_cookies (codes "accept") (codes "a")
      ((codes "cookie", codes "x=1") ∷ (codes "cookie", codes "y=2") ∷ []) refl two_cookies-IsSorted
      (refl, (refl, (refl, tt)))

framing_order_example :
    ((e : StructuredData) × ((header blank hf_content_len (codes "5") >>= λ x.
    header x hf_transfer_encoding (codes "Chunked"))
        ≡ some e)
      × (equal_range hf_content_len e.headers ≡ [])
      × (equal_range hf_transfer_encoding e.headers ≡ codes "Chunked" ∷ [])
      × (e.chunked ≡ true))
    × ((e : StructuredData) × ((header blank hf_transfer_encoding (codes "Chunked") >>= λ x.
            header x hf_content_len (codes "5"))
          ≡ some e)
        × (equal_range hf_content_len e.headers ≡ codes "5" ∷ [])
        × (equal_range hf_transfer_encoding e.headers ≡ codes "Chunked" ∷ [])
        × (e.chunked ≡ true))
unfolding icompare stoull
framing_order_example =
    framing_order blank (codes "Chunked") (codes "5") 5 (blank-IsConsistent 0) refl refl
