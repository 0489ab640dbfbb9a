-- ===== src/Utils/Compare.antt =====
-- What the string comparisons of utils.h decide.
use mathlib.Core.List.{reverse, reverse-cons, reverse-append, reverse-reverse}
use doormat.Base.{
  ℕ, zero, suc, ◌^◌, ◌≤◌, ◌<◌, ◌≡◌, ◌≢◌, ◌↔◌, ◌⊎◌, inl, inr, refl, sym, ap, ◌∙◌, Bool, true, none,
  [], ◌∷◌, ◌++◌, map, arith, Bytes, ◌==◌, ==_iff, length, drop, length-append, Bool-cases,
}
use doormat.Utils.{
  tolower, equal, same_lower, icompare, iless, iless_comparator, same, starts_with, equal_unchecked,
  starts_with_at, ends_with, get_first_part,
}

abbrev pub Lacks : ℕ → Bytes → Type 0
Lacks c [] = Unit {0}
Lacks c (x ∷ xs) = (x ≢ c) × Lacks c xs

abbrev pub lower : Bytes → Bytes
lower = map tolower

equal-lower :
    (b a : Bytes) → length a ≡ length b → (equal same_lower b a ≡ true) ↔ (lower a ≡ lower b)
unfolding equal
equal-lower [] [] e = (λ _. refl, λ _. refl)
equal-lower [] (x ∷ a) e = absurd (omega arith)
equal-lower (y ∷ b) [] e = absurd (omega arith)
equal-lower (y ∷ b) (x ∷ a) e = ground (arith, equal-lower b a)

length-lower : (a b : Bytes) → lower a ≡ lower b → length a ≡ length b
length-lower [] [] e = refl
length-lower [] (y ∷ b) e = cc
length-lower (x ∷ a) [] e = cc
length-lower (x ∷ a) (y ∷ b) e = ground (arith, length-lower a b)

-- `icompare` holds of two strings exactly when they agree up to the case of their letters.
pub icompare_iff : (a b : Bytes) → (icompare a b ≡ true) ↔ (lower a ≡ lower b)
unfolding icompare
icompare_iff a b = ground (arith, equal-lower b a, length-lower a b)

equal-prefix :
    (sub str : Bytes)
    → length sub ≤ length str
    → (equal same sub str ≡ true) ↔ (str ≡ sub ++ drop (length sub) str)
unfolding equal
equal-prefix [] str h = (λ _. refl, λ _. refl)
equal-prefix (c ∷ sub) [] h = absurd (omega arith)
equal-prefix (c ∷ sub) (d ∷ str) h = ground (arith, equal-prefix sub str)

append-drop : (sub rest : Bytes) → drop (length sub) (sub ++ rest) ≡ rest
append-drop [] rest = refl
append-drop (c ∷ sub) rest = append-drop sub rest

-- `starts_with` holds exactly when `substr` is a prefix, whatever predicate it is given.
pub starts_with_iff :
    (p : ℕ → ℕ → Bool) (str substr : Bytes)
    → (starts_with p str substr ≡ true) ↔ ((rest : Bytes) × (str ≡ substr ++ rest))
unfolding starts_with
starts_with_iff p str substr = (
  λ h. (drop (length substr) str, ground (arith, equal-prefix substr str)),
  λ (rest, e). ground (
    arith,
    equal-prefix substr str,
    e,
    ap length e,
    length-append substr rest,
    append-drop substr rest,
    ap (drop (length substr)) e,
  ),
)

length-reverse : (xs : Bytes) → length (reverse xs) ≡ length xs
length-reverse [] = refl
length-reverse (x ∷ xs) =
    omega
      (arith, ap length (reverse-cons x xs), length-append (reverse xs) (x ∷ []), length-reverse xs)

-- `ends_with` with `==` for its predicate holds exactly when `substr` is a suffix.
pub ends_with_iff :
    (str substr : Bytes)
    → (ends_with same str substr ≡ true) ↔ ((front : Bytes) × (str ≡ front ++ substr))
unfolding ends_with
ends_with_iff str substr = (
  λ h. (reverse (remainder str), front h),
  λ (before, e). ground (
    arith,
    length-reverse str,
    length-reverse substr,
    equal-prefix (reverse substr) (reverse str),
    ap reverse e ∙ reverse-append before substr,
    append-drop (reverse substr) (reverse before),
    ap (drop (length (reverse substr))) (ap reverse e ∙ reverse-append before substr),
    ap length e,
    length-append before substr,
  ),
)
  where
    remainder : Bytes → Bytes
    remainder t = drop (length (reverse substr)) (reverse t)

    front : ends_with same str substr ≡ true → str ≡ reverse (remainder str) ++ substr
    front h =
        sym (reverse-reverse str)
        ∙ ap reverse {x = reverse str} {y = reverse substr ++ remainder str} (
            ground (
              arith,
              equal-prefix (reverse substr) (reverse str),
              length-reverse str,
              length-reverse substr,
            ))
        ∙ reverse-append (reverse substr) (remainder str)
        ∙ ap (λ l. reverse (remainder str) ++ l) (reverse-reverse substr)

equal_refl : (x : Bytes) → equal iless_comparator x x ≡ true
unfolding equal
equal_refl [] = refl
equal_refl (c ∷ x) = ground (arith, equal_refl x)

-- `iless` holds between every string and itself, so it is no strict order and cannot serve as the
-- comparison of a sorted container.
pub iless_refl : (x : Bytes) → iless x x ≡ true
unfolding iless
iless_refl x = ground (arith, equal_refl x)

drop-nil : (n : ℕ) (s : Bytes) → length s ≤ n → drop n s ≡ []
drop-nil zero [] h = refl
drop-nil zero (c ∷ s) h = absurd (omega arith)
drop-nil (suc n) [] h = refl
drop-nil (suc n) (c ∷ s) h = drop-nil n s (omega arith)

equal_unchecked-nil : (p : ℕ → ℕ → Bool) (sub : Bytes) → sub ≢ [] → equal_unchecked p sub [] ≡ none
unfolding equal_unchecked
equal_unchecked-nil p [] h = absurd (h refl)
equal_unchecked-nil p (c ∷ sub) h = refl

-- With an offset past the end of `str` the difference of the lengths wraps, the guard passes, and the
-- comparison reads beyond the end.
pub starts_with_at_overrun :
    (str substr : Bytes) (offset : ℕ) (p : ℕ → ℕ → Bool)
    → length str < offset
    → offset < 2 ^ 63
    → length substr < 2 ^ 63
    → substr ≢ []
    → starts_with_at str substr offset p ≡ none
unfolding starts_with_at
starts_with_at_overrun str substr offset p h small small' ne =
    ground (arith, drop-nil offset str (omega arith), equal_unchecked-nil p substr ne)

-- The first part holds no delimiter, and what follows it in the string is nothing or begins with one.
pub get_first_part_lem :
    (s : Bytes) (delimiter : ℕ)
    → (rest : Bytes) × (s ≡ get_first_part s delimiter ++ rest)
      × ((rest ≡ []) ⊎ ((tail : Bytes) × (rest ≡ delimiter ∷ tail)))
      × Lacks delimiter (get_first_part s delimiter)
unfolding get_first_part
get_first_part_lem [] delimiter = ([], refl, inl refl, tt)
get_first_part_lem (c ∷ s) delimiter = elim (Bool-cases (c == delimiter)) [
  | inl hit ↦ rw hit (c ∷ s, refl, inr (s, ap (λ x. x ∷ s) ((==_iff c delimiter).0 hit)), tt)
  | inr miss ↦
      let (rest, e, h, l) = get_first_part_lem s delimiter in
      rw miss (rest, ap (λ t. c ∷ t) e, h, (ground (arith, miss), l))
]
