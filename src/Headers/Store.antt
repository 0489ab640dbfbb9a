-- ===== src/Headers/Store.antt =====
-- `std::multimap<std::string, std::string>`, as far as http_structured_data.cpp uses it: a list of
-- entries in the order of their keys, those of one key in the order of insertion. `find` on a key
-- with several entries returns the first, as the implementations of the library do.
use doormat.Base.{
  ◌≡◌, refl, ap, inl, inr, Bool, true, false, Option, none, some, List, [], ◌∷◌, ◌++◌, append-nil,
  arith, Bytes, bytes_eq, bytes_eq_sound, ltb, if◌then◌else◌, Bool-cases,
}

abbrev pub Multimap : Type 0
Multimap = List (Bytes × Bytes)

-- `std::less<std::string>`
unfoldable pub bytes_lt : Bytes → Bytes → Bool
bytes_lt [] [] = false
bytes_lt [] (y ∷ ys) = true
bytes_lt (x ∷ xs) [] = false
bytes_lt (x ∷ xs) (y ∷ ys) = if ltb x y then true else if ltb y x then false else bytes_lt xs ys

-- Behind every entry whose key is not greater.
pub insert : Bytes → Bytes → Multimap → Multimap
insert k v [] = (k, v) ∷ []
insert k v ((j, w) ∷ m) = if bytes_lt k j then (k, v) ∷ (j, w) ∷ m else (j, w) ∷ insert k v m

pub erase : Bytes → Multimap → Multimap
erase k [] = []
erase k ((j, w) ∷ m) = if bytes_eq j k then erase k m else (j, w) ∷ erase k m

-- The values between the two ends of `equal_range`.
unfoldable pub equal_range : Bytes → Multimap → List Bytes
equal_range k [] = []
equal_range k ((j, w) ∷ m) = if bytes_eq j k then w ∷ equal_range k m else equal_range k m

pub find : Bytes → Multimap → Option Bytes
find k [] = none
find k ((j, w) ∷ m) = if bytes_eq j k then some w else find k m

abbrev pub KeyLe : Bytes → Bytes → Type 0
KeyLe j k = bytes_lt k j ≡ false

abbrev pub KeysFrom : Bytes → Multimap → Type 0
KeysFrom k [] = Unit {0}
KeysFrom k ((j, w) ∷ m) = KeyLe k j × KeysFrom k m

abbrev pub IsSorted : Multimap → Type 0
IsSorted [] = Unit {0}
IsSorted ((k, v) ∷ m) = KeysFrom k m × IsSorted m

lt_irrefl : (k : Bytes) → bytes_lt k k ≡ false
unfolding bytes_lt
lt_irrefl [] = refl
lt_irrefl (x ∷ xs) = ground (arith, lt_irrefl xs)

lt_asymm : (j k : Bytes) → bytes_lt j k ≡ true → KeyLe j k
unfolding bytes_lt
lt_asymm [] [] h = refl
lt_asymm [] (y ∷ ys) h = refl
lt_asymm (x ∷ xs) [] h = cc
lt_asymm (x ∷ xs) (y ∷ ys) h = ground (arith, lt_asymm xs ys)

pub le_trans : (a b c : Bytes) → KeyLe a b → KeyLe b c → KeyLe a c
unfolding bytes_lt
le_trans [] [] [] p q = refl
le_trans [] [] (z ∷ c) p q = refl
le_trans [] (y ∷ b) [] p q = refl
le_trans [] (y ∷ b) (z ∷ c) p q = refl
le_trans (x ∷ a) [] c p q = cc
le_trans (x ∷ a) (y ∷ b) [] p q = cc
le_trans (x ∷ a) (y ∷ b) (z ∷ c) p q = ground (arith, le_trans a b c)

pub lt_of_le_ne : (k j : Bytes) → KeyLe k j → bytes_eq k j ≡ false → bytes_lt k j ≡ true
unfolding bytes_lt bytes_eq
lt_of_le_ne [] [] h e = cc
lt_of_le_ne [] (y ∷ j) h e = refl
lt_of_le_ne (x ∷ k) [] h e = cc
lt_of_le_ne (x ∷ k) (y ∷ j) h e = ground (arith, lt_of_le_ne k j)

KeysFrom-trans : (j k : Bytes) (m : Multimap) → KeyLe j k → KeysFrom k m → KeysFrom j m
KeysFrom-trans j k [] h f = tt
KeysFrom-trans j k ((i, v) ∷ m) h f = (le_trans j k i h f.0, KeysFrom-trans j k m h f.1)

KeysFrom-insert :
    (j k v : Bytes) (m : Multimap) → KeyLe j k → KeysFrom j m → KeysFrom j (insert k v m)
unfolding insert
KeysFrom-insert j k v [] h f = (h, tt)
KeysFrom-insert j k v ((i, w) ∷ m) h f = ground (arith, KeysFrom-insert j k v m h f.1)

pub insert-IsSorted : (k v : Bytes) (m : Multimap) → IsSorted m → IsSorted (insert k v m)
unfolding insert
insert-IsSorted k v [] s = (tt, tt)
insert-IsSorted k v ((j, w) ∷ m) s = elim (Bool-cases (bytes_lt k j)) [
  | inl before ↦
      rw before ((lt_asymm k j before, KeysFrom-trans k j m (lt_asymm k j before) s.0), s)
  | inr behind ↦ rw behind (KeysFrom-insert j k v m behind s.0, insert-IsSorted k v m s.1)
]

KeysFrom-erase : (j k : Bytes) (m : Multimap) → KeysFrom j m → KeysFrom j (erase k m)
unfolding erase
KeysFrom-erase j k [] f = tt
KeysFrom-erase j k ((i, w) ∷ m) f = ground (arith, KeysFrom-erase j k m f.1)

pub erase-IsSorted : (k : Bytes) (m : Multimap) → IsSorted m → IsSorted (erase k m)
unfolding erase
erase-IsSorted k [] s = tt
erase-IsSorted k ((j, w) ∷ m) s = ground (arith, erase-IsSorted k m s.1, KeysFrom-erase j k m s.0)

-- No entry of a key stands behind a greater key.
equal_range_before :
    (k j : Bytes) (m : Multimap) → bytes_lt k j ≡ true → KeysFrom j m → equal_range k m ≡ []
unfolding equal_range
equal_range_before k j [] h f = refl
equal_range_before k j ((i, w) ∷ m) h f =
    ground (arith, equal_range_before k j m h f.1, bytes_eq_sound i k, ap (λ x. bytes_lt x j))

bytes_eq-trans_false : (j k i : Bytes) → bytes_eq j k ≡ true → bytes_eq j i ≡ bytes_eq k i
bytes_eq-trans_false j k i h = ap (λ x. bytes_eq x i) (bytes_eq_sound j k h)

bytes_eq_right : (i k j : Bytes) → bytes_eq k j ≡ true → bytes_eq i k ≡ bytes_eq i j
bytes_eq_right i k j h = ap (bytes_eq i) (bytes_eq_sound k j h)

-- An insertion adds the value behind the others of its key, and changes nothing for other keys.
pub equal_range-insert :
    (j k v : Bytes) (m : Multimap)
    → IsSorted m
    → equal_range j (insert k v m) ≡ equal_range j m ++ (if bytes_eq k j then v ∷ [] else [])
unfolding equal_range insert
equal_range-insert j k v [] s = ground arith
equal_range-insert j k v ((i, w) ∷ m) s = ground (
  arith,
  equal_range-insert j k v m s.1,
  equal_range_before k i m,
  bytes_eq_sound k j,
  bytes_eq_sound i j,
  lt_irrefl k,
  append-nil (equal_range j m),
  ap (λ x. equal_range x m),
  ap (λ x. bytes_lt k x),
)

pub equal_range-erase :
    (j k : Bytes) (m : Multimap)
    → equal_range j (erase k m) ≡ (if bytes_eq k j then [] else equal_range j m)
unfolding equal_range erase
equal_range-erase j k [] = ground arith
equal_range-erase j k ((i, w) ∷ m) =
    ground (arith, equal_range-erase j k m, bytes_eq-trans_false i k j, bytes_eq_right i k j)

abbrev pub first : List Bytes → Option Bytes
first [] = none
first (v ∷ vs) = some v

pub find-equal_range : (k : Bytes) (m : Multimap) → find k m ≡ first (equal_range k m)
unfolding find equal_range
find-equal_range k [] = refl
find-equal_range k ((j, w) ∷ m) = ground (arith, find-equal_range k m)
