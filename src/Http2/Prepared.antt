-- ===== src/Http2/Prepared.antt =====
-- The fields that a stream prepares from those of a response: `on_header` of src/http2/stream.cpp.
use doormat.Base.{
  ℕ, ◌≤◌, ◌==◌, length, ◌≡◌, refl, sym, ap, subst, ◌∙◌, inl, inr, true, false, Option, none, some,
  List, [], ◌∷◌, ◌++◌, append_assoc, append-nil, arith, Bytes, codes, bytes_eq, bytes_eq_sound,
  bytes_eq_refl, if◌then◌else◌, Option-cases, Bool-cases,
}
use doormat.Headers.Store.{
  Multimap, insert, equal_range, find, IsSorted, KeysFrom, insert-IsSorted, equal_range-insert,
  find-equal_range, first,
}
use doormat.Headers.{StructuredData}
use doormat.Messages.{Response}
use doormat.Headers.Number.{to_string}
use doormat.Http2.Stream.{
  Stream, submit_response, do_write, flush, on_header, erase_found, prepare, prepare_all, translate,
}

-- What one more value does to the values of its name.
abbrev pub add_value : List Bytes → Bytes → List Bytes
add_value [] v = v ∷ []
add_value (w ∷ ws) v = ws ++ ((w ++ (codes ", " ++ v)) ∷ [])

-- All values of a name in one, with commas between them.
abbrev pub joined : List Bytes → Bytes
joined [] = []
joined (v ∷ []) = v
joined (v ∷ w ∷ ws) = v ++ (codes ", " ++ joined (w ∷ ws))

abbrev pub tail : List Bytes → List Bytes
tail [] = []
tail (v ∷ vs) = vs

KeysFrom-erase_found : (j k : Bytes) (m : Multimap) → KeysFrom j m → KeysFrom j (erase_found k m)
unfolding erase_found
KeysFrom-erase_found j k [] f = tt
KeysFrom-erase_found j k ((i, w) ∷ m) f = ground (arith, KeysFrom-erase_found j k m f.1)

erase_found-IsSorted : (k : Bytes) (m : Multimap) → IsSorted m → IsSorted (erase_found k m)
unfolding erase_found
erase_found-IsSorted k [] s = tt
erase_found-IsSorted k ((j, w) ∷ m) s =
    ground (arith, erase_found-IsSorted k m s.1, KeysFrom-erase_found j k m s.0)

equal_range-erase_found :
    (j k : Bytes) (m : Multimap)
    → equal_range j (erase_found k m)
      ≡ (if bytes_eq k j then tail (equal_range j m) else equal_range j m)
unfolding equal_range erase_found
equal_range-erase_found j k [] = ground arith
equal_range-erase_found j k ((i, w) ∷ m) = ground (
  arith,
  equal_range-erase_found j k m,
  bytes_eq_sound i k,
  bytes_eq_sound k j,
  bytes_eq_sound i j,
  bytes_eq_refl k,
  bytes_eq_refl j,
)

prepare_fresh : (p : Multimap) (k v : Bytes) → find k p ≡ none → prepare p k v ≡ insert k v p
unfolding prepare
prepare_fresh p k v e = rw (e, prepare) refl

prepare_again :
    (p : Multimap) (k v w : Bytes)
    → find k p ≡ some w
    → prepare p k v ≡ erase_found k (insert k (w ++ (codes ", " ++ v)) p)
unfolding prepare
prepare_again p k v w e = rw (e, prepare) refl

prepare-IsSorted : (p : Multimap) (k v : Bytes) → IsSorted p → IsSorted (prepare p k v)
prepare-IsSorted p k v s = elim (Option-cases (find k p)) [
  | inl e ↦ subst IsSorted (sym (prepare_fresh p k v e)) (insert-IsSorted k v p s)
  | inr (w, e) ↦
      subst IsSorted (sym (prepare_again p k v w e))
        (erase_found-IsSorted k _ (insert-IsSorted k (w ++ (codes ", " ++ v)) p s))
]

first-none : (vs : List Bytes) → first vs ≡ none → vs ≡ []
first-none [] e = refl
first-none (v ∷ vs) e = cc

first-some : (vs : List Bytes) (w : Bytes) → first vs ≡ some w → vs ≡ w ∷ tail vs
first-some [] w e = cc
first-some (v ∷ vs) w e = ground (arith, e)

-- The values of a name in the fields, with one more that is joined to the first of them.
added :
    (vs : List Bytes) (w v : Bytes)
    → first vs ≡ some w
    → tail (vs ++ ((w ++ (codes ", " ++ v)) ∷ [])) ≡ add_value vs v
added [] w v e = cc
added (x ∷ vs) w v e = ground (arith, e)

fresh_value : (vs : List Bytes) (v : Bytes) → first vs ≡ none → vs ++ (v ∷ []) ≡ add_value vs v
fresh_value [] v e = refl
fresh_value (x ∷ vs) v e = cc

module _ (j : Bytes) (p : Multimap) (k v : Bytes) (s : IsSorted p) where
  abbrev grown : List Bytes
  grown = if bytes_eq k j then add_value (equal_range j p) v else equal_range j p

  first_at : (o : Option Bytes) → find k p ≡ o → bytes_eq k j ≡ true → first (equal_range j p) ≡ o
  first_at o e h = sym (find-equal_range j p) ∙ ap (λ x. find x p) (sym (bytes_eq_sound k j h)) ∙ e

  equal_range_fresh : find k p ≡ none → equal_range j (insert k v p) ≡ grown
  equal_range_fresh e = elim (Bool-cases (bytes_eq k j)) [
    | inl same ↦
        equal_range-insert j k v p s
        ∙ rw same (fresh_value (equal_range j p) v (first_at none e same))
    | inr other ↦ equal_range-insert j k v p s ∙ rw other (append-nil (equal_range j p))
  ]

  equal_range_again :
      (w : Bytes)
      → find k p ≡ some w
      → equal_range j (erase_found k (insert k (w ++ (codes ", " ++ v)) p)) ≡ grown
  equal_range_again w e = elim (Bool-cases (bytes_eq k j)) [
    | inl same ↦ ground (
      arith,
      equal_range-erase_found j k (insert k (w ++ (codes ", " ++ v)) p),
      equal_range-insert j k (w ++ (codes ", " ++ v)) p s,
      added (equal_range j p) w v (first_at (some w) e same),
      same,
    )
    | inr other ↦ ground (
      arith,
      equal_range-erase_found j k (insert k (w ++ (codes ", " ++ v)) p),
      equal_range-insert j k (w ++ (codes ", " ++ v)) p s,
      append-nil (equal_range j p),
      other,
    )
  ]

  equal_range-prepare : equal_range j (prepare p k v) ≡ grown
  equal_range-prepare = elim (Option-cases (find k p)) [
    | inl e ↦ ap (equal_range j) (prepare_fresh p k v e) ∙ equal_range_fresh e
    | inr (w, e) ↦ ap (equal_range j) (prepare_again p k v w e) ∙ equal_range_again w e
  ]

-- All values of a name, one after the other.
abbrev pub add_values : List Bytes → List Bytes → List Bytes
add_values vs [] = vs
add_values vs (x ∷ xs) = add_values (add_value vs x) xs

equal_range-prepare_all :
    (j : Bytes) (p m : Multimap)
    → IsSorted p
    → equal_range j (prepare_all p m) ≡ add_values (equal_range j p) (equal_range j m)
unfolding prepare_all equal_range
equal_range-prepare_all j p [] s = refl
equal_range-prepare_all j p ((k, v) ∷ m) s = ground (
  arith,
  equal_range-prepare_all j (prepare p k v) m (prepare-IsSorted p k v s),
  equal_range-prepare j p k v s,
)

abbrev pub at_most_one : List Bytes → List Bytes
at_most_one [] = []
at_most_one (v ∷ vs) = joined (v ∷ vs) ∷ []

joined-step :
    (v w : Bytes) (ws : List Bytes) → joined ((v ++ (codes ", " ++ w)) ∷ ws) ≡ joined (v ∷ w ∷ ws)
joined-step v w [] = refl
joined-step v w (x ∷ ws) = simp append_assoc

add_values-joined : (v : Bytes) (xs : List Bytes) → add_values (v ∷ []) xs ≡ joined (v ∷ xs) ∷ []
add_values-joined v [] = refl
add_values-joined v (x ∷ xs) =
    add_values-joined (v ++ (codes ", " ++ x)) xs ∙ ap (λ y. y ∷ []) (joined-step v x xs)

add_values-at_most_one :
    (vs xs : List Bytes) → length vs ≤ 1 → add_values vs xs ≡ at_most_one (vs ++ xs)
add_values-at_most_one [] [] h = refl
add_values-at_most_one [] (x ∷ xs) h = add_values-joined x xs
add_values-at_most_one (v ∷ []) xs h = add_values-joined v xs
add_values-at_most_one (v ∷ w ∷ vs) xs h = absurd (omega (arith, h))

-- The status as a field of its own, under a name.
abbrev pub status_under : Bytes → ℕ → List Bytes
status_under j code = if bytes_eq (codes ":status") j then to_string code ∷ [] else []

prepared_with_status :
    (j : Bytes) (code : ℕ) (m : Multimap)
    → equal_range j (prepare_all (insert (codes ":status") (to_string code) []) m)
      ≡ at_most_one (status_under j code ++ equal_range j m)
unfolding equal_range
prepared_with_status j code m =
    let start : equal_range j (insert (codes ":status") (to_string code) []) ≡ status_under j code =
      equal_range-insert j (codes ":status") (to_string code) [] tt in
    equal_range-prepare_all j (insert (codes ":status") (to_string code) []) m
      (insert-IsSorted (codes ":status") (to_string code) [] tt)
    ∙ ap (λ l. add_values l (equal_range j m)) start
    ∙ add_values-at_most_one (status_under j code) (equal_range j m) (ground arith)

-- On an open stream that has prepared and sent no header yet and is not to be resumed, `on_header` of a
-- response whose status is not 101 submits a list of fields with each name at most once: under each
-- name stand the values that the translated message has for it, in their order with ", " between
-- them, behind the status if the name is `:status`; and a name without such a value is not sent.
pub on_header-prepared :
    (s : Stream) (resp : Response) (d : StructuredData)
    → s.closed ≡ false
    → s.resume_needed ≡ false
    → s.headers_sent ≡ false
    → s.prepared_headers ≡ []
    → (resp.status_code == 101) ≡ false
    → translate resp.base ≡ some d
    → (t : Stream) × (m : Multimap) × (on_header s resp
        ≡ some (t, submit_response m ∷ do_write ∷ []))
      × ((j : Bytes)
          → equal_range j m
            ≡ at_most_one (status_under j resp.status_code ++ equal_range j d.headers))
unfolding on_header flush
on_header-prepared s resp d not_closed running unsent none_yet code e = (
  record s {
    status = resp.status_code;
    prepared_headers =
        prepare_all (insert (codes ":status") (to_string resp.status_code) []) d.headers;
    headers_sent = true;
  },
  prepare_all (insert (codes ":status") (to_string resp.status_code) []) d.headers,
  rw (e, none_yet, not_closed, code, running, unsent) refl,
  λ j. prepared_with_status j resp.status_code d.headers,
)
