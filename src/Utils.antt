-- ===== src/Utils.antt =====
-- src/utils/utils.h and utils.cpp: the comparisons and conversions of strings that the rest of the
-- program uses. A `char` is a byte below 256; where the source compares two `char`s by `<=`, bytes
-- from 128 on count as negative. `tolower` is that of the C locale.
pub mod Compare
pub mod Hex
mod Tests
use doormat.Base.{
  ℕ, zero, suc, ◌+◌, ◌-◌, ◌/◌, ◌%◌, ◌^◌, ◌&&◌, not, Bool, true, false, Option, none, some, List, [],
  ◌∷◌, ◌++◌, map, Bytes, ltb, leb, ◌==◌, if◌then◌else◌, length, drop,
}
use mathlib.Core.List.{reverse}

abbrev pub tolower : ℕ → ℕ
tolower c = if leb 65 c && leb c 90 then c + 32 else c

-- `std::equal(bs.begin(), bs.end(), as.begin(), p)`, for an `as` that is at least as long as `bs`.
unfoldable pub equal : (ℕ → ℕ → Bool) → Bytes → Bytes → Bool
equal p [] as' = true
equal p (b ∷ bs) [] = false
equal p (b ∷ bs) (a ∷ as') = p b a && equal p bs as'

abbrev pub same_lower : ℕ → ℕ → Bool
same_lower a b = tolower a == tolower b

unfoldable pub icompare : Bytes → Bytes → Bool
unfolding equal
icompare a b = if length a == length b then equal same_lower b a else false

-- The order of signed `char`s.
abbrev pub char_le : ℕ → ℕ → Bool
char_le a b = leb ((a + 128) % 256) ((b + 128) % 256)

-- The comparator of `iless`.
abbrev iless_comparator : ℕ → ℕ → Bool
iless_comparator a b = char_le (tolower a) (tolower b)

pub iless : Bytes → Bytes → Bool
unfolding equal
iless x y =
    if leb (length x) (length y)
    then equal iless_comparator x y
    else not (equal iless_comparator y x)

unfoldable i_starts_with : Bytes → Bytes → Bool
unfolding equal
i_starts_with a b = if leb (length b) (length a) then equal same_lower b a else false

abbrev pub same : ℕ → ℕ → Bool
same a b = a == b

-- The overload for two strings, which takes a predicate and does not use it.
pub starts_with : (ℕ → ℕ → Bool) → Bytes → Bytes → Bool
unfolding equal
starts_with p str substr = if ltb (length str) (length substr) then false else equal same substr str

-- `std::equal` that may run past the end of `as`, which is `none`.
pub equal_unchecked : (ℕ → ℕ → Bool) → Bytes → Bytes → Option Bool
equal_unchecked p [] as' = some true
equal_unchecked p (b ∷ bs) [] = none
equal_unchecked p (b ∷ bs) (a ∷ as') =
    let rest = equal_unchecked p bs as' in if p b a then rest else some false

-- The overload for a literal, `substr` without its final zero, with an offset into `str`.
pub starts_with_at : Bytes → Bytes → ℕ → (ℕ → ℕ → Bool) → Option Bool
unfolding equal_unchecked
starts_with_at str substr str_offset p =
    if ltb ((2 ^ 64 + length str - str_offset) % 2 ^ 64) (length substr)
    then some false
    else equal_unchecked p substr (drop str_offset str)

-- Both overloads of `ends_with`: the strings are compared from their ends.
unfoldable pub ends_with : (ℕ → ℕ → Bool) → Bytes → Bytes → Bool
unfolding equal
ends_with p str substr =
    if ltb (length str) (length substr) then false else equal p (reverse substr) (reverse str)

-- `s.substr(0, s.find_first_of(delimiter))`
pub get_first_part : Bytes → ℕ → Bytes
get_first_part [] delimiter = []
get_first_part (c ∷ s) delimiter = if c == delimiter then [] else c ∷ get_first_part s delimiter
