-- ===== src/Headers/Number.antt =====
-- `std::to_string` and `std::stoull` for base 10, by which content lengths are printed and read.
use native.Mathlib.Nat.{pow-suc}
use doormat.Base.{
  ℕ, zero, suc, ◌+◌, ◌-◌, ◌*◌, ◌/◌, ◌%◌, ◌^◌, ◌<◌, ◌≡◌, inl, inr, refl, sym, ap, ◌∙◌, ◌&&◌, ◌||◌,
  Bool, false, Option, none, some, [], ◌∷◌, ◌++◌, append_assoc, append-nil, arith, Bytes, ltb,
  ltb→lt, leb, ◌==◌, if◌then◌else◌, Bool-cases,
}

abbrev pub is_digit : ℕ → Bool
is_digit c = leb 48 c && leb c 57

abbrev is_space : ℕ → Bool
is_space c = c == 32 || (leb 9 c && leb c 13)

dec_digits : ℕ → ℕ → Bytes
dec_digits zero n = []
dec_digits (suc fuel) n =
    let front = dec_digits fuel (n / 10) in
    if ltb n 10 then (48 + n) ∷ [] else front ++ ((48 + n % 10) ∷ [])

-- `std::to_string(size_t)`: a number of 64 bits has at most 20 digits.
pub to_string : ℕ → Bytes
to_string n = dec_digits 20 n

read_dec : ℕ → Bytes → ℕ
read_dec acc [] = acc
read_dec acc (c ∷ cs) = if is_digit c then read_dec (acc * 10 + (c - 48)) cs else acc

-- What `std::stoull` throws for is `none`: no digit, or a number that does not fit 64 bits.
read_unsigned : Bytes → Option ℕ
unfolding read_dec
read_unsigned [] = none
read_unsigned (c ∷ cs) =
    if is_digit c
    then (let n = read_dec 0 (c ∷ cs) in if ltb n (2 ^ 64) then some n else none)
    else none

negated : Option ℕ → Option ℕ
negated none = none
negated (some n) = some ((2 ^ 64 - n) % 2 ^ 64)

read_signed : Bytes → Option ℕ
unfolding read_unsigned negated
read_signed [] = none
read_signed (c ∷ cs) =
    if c == 43
    then read_unsigned cs
    else if c == 45
    then negated (read_unsigned cs)
    else read_unsigned (c ∷ cs)

-- Leading white space is passed over, a sign may follow, and what stands behind the digits is not
-- looked at.
unfoldable pub stoull : Bytes → Option ℕ
unfolding read_signed
stoull [] = none
stoull (c ∷ cs) = if is_space c then stoull cs else read_signed (c ∷ cs)

read_dec_digit :
    (acc d : ℕ) (cs : Bytes) → d < 10 → read_dec acc ((48 + d) ∷ cs) ≡ read_dec (acc * 10 + d) cs
unfolding read_dec
read_dec_digit acc d cs h =
    ground (
      arith,
      ap (λ a. read_dec a cs) {x = acc * 10 + (48 + d - 48)} {y = acc * 10 + d} (omega arith),
    )

next_small : (fuel n : ℕ) → n < 10 ^ suc fuel → n / 10 < 10 ^ fuel
next_small fuel n h = omega (arith, pow-suc 10 fuel)

fuel_left : (fuel n : ℕ) → n < 10 ^ suc fuel → ltb n 10 ≡ false → 0 < fuel
fuel_left zero n h l = ground arith
fuel_left (suc f) n h l = omega arith

read_dec-digits :
    (fuel acc n : ℕ) (cs : Bytes)
    → n < 10 ^ fuel
    → 0 < fuel
    → (k : ℕ) × (read_dec acc (dec_digits fuel n ++ cs) ≡ read_dec (acc * k + n) cs)
unfolding dec_digits
read_dec-digits zero acc n cs h p = absurd (omega arith)
read_dec-digits (suc fuel) acc n cs h p = elim (Bool-cases (ltb n 10)) [
  | inl small ↦ (10, rw small (read_dec_digit acc n cs (ltb→lt n 10 small)))
  | inr large ↦
      let (k, ih) =
        read_dec-digits fuel acc (n / 10) ((48 + n % 10) ∷ cs) (next_small fuel n h)
          (fuel_left fuel n h large) in
      (k * 10, rw (large, append_assoc) (ih ∙ last k))
]
  where
    last :
        (k : ℕ)
        → read_dec (acc * k + n / 10) ((48 + n % 10) ∷ cs) ≡ read_dec (acc * (k * 10) + n) cs
    last k =
        read_dec_digit (acc * k + n / 10) (n % 10) cs (omega arith)
        ∙ ap (λ a. read_dec a cs) {y = acc * (k * 10) + n} (omega arith)

starts_with_digit :
    (fuel n : ℕ)
    → 0 < fuel
    → n < 10 ^ fuel
    → (d : ℕ) × (cs : Bytes) × (dec_digits fuel n ≡ (48 + d) ∷ cs) × (d < 10)
unfolding dec_digits
starts_with_digit zero n p h = absurd (omega arith)
starts_with_digit (suc fuel) n p h = elim (Bool-cases (ltb n 10)) [
  | inl small ↦ (n, [], rw small refl, ltb→lt n 10 small)
  | inr large ↦
      let (d, cs, e, l) =
        starts_with_digit fuel (n / 10) (fuel_left fuel n h large) (next_small fuel n h) in
      (d, cs ++ ((48 + n % 10) ∷ []), rw (large, e) refl, l)
]

stoull-digits :
    (s : Bytes) (d n : ℕ) (cs : Bytes)
    → s ≡ (48 + d) ∷ cs
    → d < 10
    → read_dec 0 s ≡ n
    → n < 2 ^ 64
    → stoull s ≡ some n
unfolding stoull
stoull-digits s d n cs e l r h = rw e (ground (arith, ap (read_dec 0) e))

-- A number of 64 bits is read back from its decimal digits.
pub stoull-to_string : (n : ℕ) → n < 2 ^ 64 → stoull (to_string n) ≡ some n
unfolding to_string
stoull-to_string n h =
    let (d, cs, e, l) = starts_with_digit 20 n (omega arith) (omega arith) in
    let (k, r) = read_dec-digits 20 0 n [] (omega arith) (omega arith) in
    stoull-digits (dec_digits 20 n) d n cs e l
      (ap (read_dec 0) (sym (append-nil (dec_digits 20 n))) ∙ r ∙ read_end k) h
  where
    read_end : (k : ℕ) → read_dec (0 * k + n) [] ≡ n
    read_end k = omega (arith, ends (0 * k + n))
      where
        ends : (a : ℕ) → read_dec a [] ≡ a
        ends a = unfold read_dec in refl
