-- ===== src/Headers/Laws.antt =====
-- The invariant of http_structured_data, kept by every operation that changes the header fields.
use doormat.Base.{
  ℕ, ◌≤◌, ◌≡◌, refl, sym, ap, ◌∙◌, ◌↔◌, ◌⊎◌, inl, inr, ◌||◌, Bool, true, false, Option, none, some,
  [], ◌∷◌, map, append-nil, arith, Bytes, bytes_eq, bytes_eq_sound, bytes_eq_refl, if◌then◌else◌,
  length, Bool-cases, Option-cases,
}
use doormat.Utils.{tolower}
use doormat.Headers.Store.{
  Multimap, insert, erase, equal_range, IsSorted, insert-IsSorted, erase-IsSorted,
  equal_range-insert, equal_range-erase,
}
use doormat.Headers.Number.{stoull}
use doormat.Headers.{
  StructuredData, header, header_lower, add, set_length, set_chunked, is_single, hf_content_len,
  hf_transfer_encoding,
}

-- The names with at most one value: those that are replaced, and the content length.
abbrev pub kept_once : Bytes → Bool
kept_once s = is_single s || bytes_eq s hf_content_len

pub record IsConsistent (m : Multimap) (n : ℕ) : Type 0 where
  pub sorted : IsSorted m
  pub once : (s : Bytes) → kept_once s ≡ true → length (equal_range s m) ≤ 1
  pub agrees : (v : Bytes) → equal_range hf_content_len m ≡ v ∷ [] → stoull v ≡ some n

-- The fields are in order, the names above have at most one value, and a content length that is
-- there is the number in `_content_len`.
abbrev pub IsWellFormed : StructuredData → Type 0
IsWellFormed d = IsConsistent d.headers d.content_len

pub blank-IsConsistent : (n : ℕ) → IsConsistent [] n
blank-IsConsistent n = record {
  sorted = tt;
  once = λ s h. nothing s;
  agrees = λ v e. absurd (nothing_there v e);
}
  where
    nothing : (s : Bytes) → length (equal_range s []) ≤ 1
    nothing s = unfold equal_range in omega arith

    nothing_there : (v : Bytes) → equal_range hf_content_len [] ≡ v ∷ [] → ⊥
    nothing_there v e = unfold equal_range in cc e

range_replace :
    (s k v : Bytes) (m : Multimap)
    → IsSorted m
    → equal_range s (insert k v (erase k m)) ≡ (if bytes_eq k s then v ∷ [] else equal_range s m)
range_replace s k v m o = ground (
  arith,
  equal_range-insert s k v (erase k m) (erase-IsSorted k m o),
  equal_range-erase s k m,
  append-nil (equal_range s m),
)

range_add :
    (s k v : Bytes) (m : Multimap)
    → IsSorted m
    → bytes_eq k s ≡ false
    → equal_range s (insert k v m) ≡ equal_range s m
range_add s k v m o ne = ground (arith, equal_range-insert s k v m o, append-nil (equal_range s m))

replace-IsConsistent :
    (k v : Bytes) (m : Multimap) (n : ℕ)
    → IsConsistent m n
    → bytes_eq k hf_content_len ≡ false
    → IsConsistent (insert k v (erase k m)) n
replace-IsConsistent k v m n c ne = record {
  sorted = insert-IsSorted k v (erase k m) (erase-IsSorted k m c.sorted);
  once = λ s h. ground (arith, range_replace s k v m c.sorted, c.once s h);
  agrees = λ w e. c.agrees w (ground (arith, range_replace hf_content_len k v m c.sorted));
}

content_len_once : kept_once hf_content_len ≡ true
unfolding bytes_eq
content_len_once = refl

differ : (k s : Bytes) → kept_once k ≡ false → kept_once s ≡ true → bytes_eq k s ≡ false
differ k s p q = elim (Bool-cases (bytes_eq k s)) [
  | inl e ↦ absurd (true_is_not_false (sym q ∙ ap kept_once (sym (bytes_eq_sound k s e)) ∙ p))
  | inr ne ↦ ne
]
  where
    true_is_not_false : true ≡ false → ⊥
    true_is_not_false h = cc

length-IsConsistent :
    (v : Bytes) (m : Multimap) (n n' : ℕ)
    → IsConsistent m n
    → stoull v ≡ some n'
    → IsConsistent (insert hf_content_len v (erase hf_content_len m)) n'
length-IsConsistent v m n n' c e = record {
  sorted = insert-IsSorted hf_content_len v _ (erase-IsSorted hf_content_len m c.sorted);
  once = λ s h. ground (arith, range_replace s hf_content_len v m c.sorted, c.once s h);
  agrees = λ w f. ground (
    arith,
    range_replace hf_content_len hf_content_len v m c.sorted,
    bytes_eq_refl hf_content_len,
  );
}

add-IsConsistent :
    (k v : Bytes) (m : Multimap) (n : ℕ)
    → IsConsistent m n
    → kept_once k ≡ false
    → IsConsistent (insert k v m) n
add-IsConsistent k v m n c ne = record {
  sorted = insert-IsSorted k v m c.sorted;
  once = λ s h. ground (arith, range_add s k v m c.sorted (differ k s ne h), c.once s h);
  agrees = λ w e. c.agrees w (
      sym (range_add hf_content_len k v m c.sorted (differ k hf_content_len ne content_len_once))
      ∙ e);
}

pub erase-IsConsistent :
    (k : Bytes) (m : Multimap) (n : ℕ) → IsConsistent m n → IsConsistent (erase k m) n
erase-IsConsistent k m n c = record {
  sorted = erase-IsSorted k m c.sorted;
  once = λ s h. ground (arith, equal_range-erase s k m, c.once s h);
  agrees = λ w e. c.agrees w (ground (arith, equal_range-erase hf_content_len k m));
}

not_length : (k : Bytes) → is_single k ≡ true → bytes_eq k hf_content_len ≡ false
not_length k h = elim (Bool-cases (bytes_eq k hf_content_len)) [
  | inl e ↦ absurd (clash (sym h ∙ ap is_single (bytes_eq_sound k hf_content_len e)))
  | inr ne ↦ ne
]
  where
    clash : true ≡ is_single hf_content_len → ⊥
    clash e = unfold bytes_eq in cc e

transfer_encoding_repeats : kept_once hf_transfer_encoding ≡ false
unfolding bytes_eq
transfer_encoding_repeats = refl

-- An operation that returns leaves a well-formed message.
abbrev pub Keeps : Option StructuredData → Type 0
Keeps none = Unit {0}
Keeps (some d) = IsWellFormed d

set_length-Keeps :
    (d : StructuredData) (value : Bytes) → IsWellFormed d → Keeps (set_length d value)
unfolding set_length
set_length-Keeps d value w = elim (Option-cases (stoull value)) [
  | inl bad ↦ rw (bad, set_length) tt
  | inr (n, good) ↦
      rw (good, set_length) (length-IsConsistent value d.headers d.content_len n w good)
]

set_chunked-IsWellFormed :
    (d : StructuredData) (value : Bytes) → IsWellFormed d → IsWellFormed (set_chunked d value)
unfolding set_chunked
set_chunked-IsWellFormed d value w =
    add-IsConsistent hf_transfer_encoding value _ d.content_len
      (erase-IsConsistent hf_content_len _ d.content_len
        (erase-IsConsistent hf_transfer_encoding d.headers d.content_len w))
      transfer_encoding_repeats

header_lower-Keeps :
    (d : StructuredData) (key value : Bytes) → IsWellFormed d → Keeps (header_lower d key value)
unfolding header_lower
header_lower-Keeps d key value w = elim (Bool-cases (is_single key)) [
  | inl one ↦ rw one (replace-IsConsistent key value d.headers d.content_len w (not_length key one))
  | inr many ↦ elim (Bool-cases (bytes_eq key hf_content_len)) [
    | inl size ↦ rw (many, size) (set_length-Keeps d value w)
    | inr plain ↦
        rw (many, plain)
          (others (Bool-cases _)
            (add-IsConsistent key value d.headers d.content_len w (rw (many, plain) refl)))
  ]
]
  where
    others :
        {b : Bool}
        → (b ≡ true) ⊎ (b ≡ false)
        → IsWellFormed (add d key value)
        → Keeps (if b then some (set_chunked d value) else some (add d key value))
    others (inl e) h = rw e (set_chunked-IsWellFormed d value w)
    others (inr e) h = rw e h

-- `header` keeps a message well formed whenever it returns.
pub header-Keeps :
    (d : StructuredData) (key value : Bytes) → IsWellFormed d → Keeps (header d key value)
unfolding header
header-Keeps d key value w = header_lower-Keeps d (map tolower key) value w

-- `header` fails on exactly one input: a content length that `std::stoull` throws on.
pub header_fails :
    (d : StructuredData) (key value : Bytes)
    → (header d key value ≡ none)
      ↔ ((bytes_eq (map tolower key) hf_content_len ≡ true) × (stoull value ≡ none))
unfolding header header_lower set_length
header_fails d key value = ground (arith, not_length (map tolower key))
