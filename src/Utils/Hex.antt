-- ===== src/Utils/Hex.antt =====
-- The hexadecimal texts of utils.h: `from`, by which chunk sizes are printed, and `to_lower_hex`.
use native.Mathlib.Nat.{pow-suc}
use doormat.Base.{
  ℕ, zero, suc, ◌+◌, ◌-◌, ◌*◌, ◌/◌, ◌%◌, ◌^◌, ◌<◌, ◌≡◌, refl, ap, ◌∙◌, ◌&&◌, false, Option, none,
  some, [], ◌∷◌, ◌++◌, append_assoc, arith, Bytes, ltb, ltb→lt, leb, Bool-cases, inl, inr,
  if◌then◌else◌, length,
}

-- The digit that `std::hex` prints, also `digits[d]` of `to_lower_hex`.
abbrev pub hex_digit : ℕ → ℕ
hex_digit d = if ltb d 10 then 48 + d else 87 + d

-- At most `fuel` digits, without leading zeros.
unfoldable pub hex_digits : ℕ → ℕ → Bytes
hex_digits zero n = []
hex_digits (suc fuel) n =
    let front = hex_digits fuel (n / 16) in
    if ltb n 16 then hex_digit n ∷ [] else front ++ (hex_digit (n % 16) ∷ [])

-- `from<size_t>`: a number of 64 bits has at most 16 digits.
unfoldable pub from : ℕ → Bytes
unfolding hex_digits
from n = hex_digits 16 n

pub to_lower_hex : Bytes → Bytes
to_lower_hex [] = []
to_lower_hex (c ∷ cs) = hex_digit (c / 16 % 16) ∷ hex_digit (c % 16) ∷ to_lower_hex cs

-- Reading back, for the specification: the value of a digit, and of the digits up to the first other
-- character, which is returned with what follows.
abbrev pub digit_value : ℕ → Option ℕ
digit_value c =
    if leb 48 c && leb c 57
    then some (c - 48)
    else if leb 97 c && leb c 102
    then some (c - 87)
    else none

unfoldable pub read_hex : ℕ → Bytes → ℕ × Bytes
read_hex acc [] = (acc, [])
read_hex acc (c ∷ cs) = elim (digit_value c) [
  | none ↦ (acc, c ∷ cs)
  | some d ↦ read_hex (acc * 16 + d) cs
]

digit_value-hex_digit : (d : ℕ) → d < 16 → digit_value (hex_digit d) ≡ some d
digit_value-hex_digit d h = ground arith

read_hex-cons :
    (acc d : ℕ) (cs : Bytes) → d < 16 → read_hex acc (hex_digit d ∷ cs) ≡ read_hex (acc * 16 + d) cs
unfolding read_hex
read_hex-cons acc d cs h = rw (digit_value-hex_digit d h, read_hex) refl

read_hex-digits :
    (fuel acc n : ℕ) (cs : Bytes)
    → n < 16 ^ fuel
    → 0 < fuel
    → (k : ℕ) × (read_hex acc (hex_digits fuel n ++ cs) ≡ read_hex (acc * k + n) cs)
unfolding hex_digits
read_hex-digits zero acc n cs h p = absurd (omega arith)
read_hex-digits (suc fuel) acc n cs h p = elim (Bool-cases (ltb n 16)) [
  | inl small ↦ (16, rw small (read_hex-cons acc n cs (ltb→lt n 16 small)))
  | inr large ↦
      let (k, ih) =
        read_hex-digits fuel acc (n / 16) (hex_digit (n % 16) ∷ cs) (next_small fuel n h)
          (fuel_left fuel n h large) in
      (k * 16, rw (large, append_assoc) (ih ∙ last k))
]
  where
    next_small : (fuel n : ℕ) → n < 16 ^ suc fuel → n / 16 < 16 ^ fuel
    next_small fuel n h = omega (arith, pow-suc 16 fuel)

    fuel_left : (fuel n : ℕ) → n < 16 ^ suc fuel → ltb n 16 ≡ false → 0 < fuel
    fuel_left zero n h l = ground arith
    fuel_left (suc f) n h l = omega arith

    last :
        (k : ℕ)
        → read_hex (acc * k + n / 16) (hex_digit (n % 16) ∷ cs) ≡ read_hex (acc * (k * 16) + n) cs
    last k =
        read_hex-cons (acc * k + n / 16) (n % 16) cs (omega arith)
        ∙ ap (λ a. read_hex a cs) {y = acc * (k * 16) + n} (omega arith)

-- A chunk size of 64 bits, printed by `from` and followed by something that is no hexadecimal digit,
-- is read back as it was, and what follows is left.
pub read_hex-from :
    (n c : ℕ) (cs : Bytes)
    → n < 2 ^ 64
    → digit_value c ≡ none
    → read_hex 0 (from n ++ c ∷ cs) ≡ (n, c ∷ cs)
unfolding from read_hex
read_hex-from n c cs h stop =
    let (k, e) = read_hex-digits 16 0 n (c ∷ cs) (omega arith) (omega arith) in
    e ∙ ap (λ a. read_hex a (c ∷ cs)) {y = n} (omega arith) ∙ stops n
  where
    stops : (a : ℕ) → read_hex a (c ∷ cs) ≡ (a, c ∷ cs)
    stops a = rw (stop, read_hex) refl

-- Reading the digits two by two, for the specification.
pub from_hex : Bytes → Option Bytes
from_hex [] = some []
from_hex (a ∷ []) = none
from_hex (a ∷ b ∷ cs) = elim (digit_value a) [
  | none ↦ none
  | some x ↦ elim (digit_value b) [
    | none ↦ none
    | some y ↦ elim (from_hex cs) [ none ↦ none | some bs ↦ some ((x * 16 + y) ∷ bs) ]
  ]
]

abbrev pub AllBytes : Bytes → Type 0
AllBytes [] = Unit {0}
AllBytes (c ∷ cs) = (c < 256) × AllBytes cs

-- `to_lower_hex` writes two digits for each byte, and the bytes can be read back from them.
pub from_hex-to_lower_hex :
    (bs : Bytes)
    → AllBytes bs
    → (from_hex (to_lower_hex bs) ≡ some bs) × (length (to_lower_hex bs) ≡ 2 * length bs)
unfolding from_hex to_lower_hex
from_hex-to_lower_hex [] v = (refl, refl)
from_hex-to_lower_hex (c ∷ cs) v = ground (
  arith,
  from_hex-to_lower_hex cs v.1,
  digit_value-hex_digit (c / 16 % 16) (omega arith),
  digit_value-hex_digit (c % 16) (omega arith),
)
