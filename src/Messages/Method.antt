-- ===== src/Messages/Method.antt =====
-- The names of the methods and back.
use doormat.Base.{
  ℕ, zero, suc, ◌+◌, ◌<◌, ◌≡◌, ◌≢◌, refl, ap, ◌∙◌, ◌&&◌, Bool, true, List, [], ◌∷◌, arith, Bytes,
  bytes_eq, bytes_eq_sound, ◌==◌, ==_iff, Bool-cases, inl, inr,
}
use doormat.Messages.{method_name, method_names, method_end, find_method, method_loop, name_at}

all_below : ℕ → (ℕ → Bool) → Bool
all_below zero p = true
all_below (suc n) p = p n && all_below n p

all_below-true : (n : ℕ) (p : ℕ → Bool) (x : ℕ) → all_below n p ≡ true → x < n → p x ≡ true
unfolding all_below
all_below-true zero p x h lt = absurd (omega arith)
all_below-true (suc n) p x h lt = ground (arith, all_below-true n p x)

names_found : all_below method_end (λ m. find_method (method_name m) == m) ≡ true
unfolding all_below find_method method_loop method_name name_at bytes_eq
names_found = refl

loop_sound :
    (names : List Bytes) (first : ℕ) (val : Bytes)
    → method_loop names first val ≢ method_end
    → (i : ℕ) × (method_loop names first val ≡ first + i) × (name_at names i ≡ val)
unfolding method_loop name_at
loop_sound [] first val h = absurd (h refl)
loop_sound (s ∷ names) first val h = elim (Bool-cases (bytes_eq s val)) [
  | inl hit ↦ (0, rw hit (omega arith), bytes_eq_sound s val hit)
  | inr miss ↦
      let (i, e, n) = loop_sound names (suc first) val (λ z. h (rw miss z)) in
      (suc i, rw miss (e ∙ shift i), n)
]
  where
    shift : (i : ℕ) → suc first + i ≡ first + suc i
    shift i = omega arith

-- Every method below `END` is found again by the name that is printed for it.
pub find_method-method_name : (m : ℕ) → m < method_end → find_method (method_name m) ≡ m
find_method-method_name m h =
    (==_iff (find_method (method_name m)) m).0
      (all_below-true method_end (λ k. find_method (method_name k) == k) m names_found h)

-- A text that is taken for a method is printed as it was, so no text becomes another method.
pub method_name-find_method :
    (val : Bytes) → find_method val ≢ method_end → method_name (find_method val) ≡ val
unfolding find_method method_name
method_name-find_method val h =
    let (i, e, n) = loop_sound method_names 0 val h in
    ap (name_at method_names) {y = i} (omega (arith, e)) ∙ n
