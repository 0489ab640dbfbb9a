-- ===== src/Multiplexer/Gcd.antt =====
-- `GCD` of src/http/client/client_connection_multiplexer.cpp, by recursion on the smaller number.
use mathlib.Core.Logic.{dite, dif_pos, dif_neg}
use mathlib.Core.WellFounded.{Acc, WellFounded}
use native.Mathlib.Bridge.{le_prop}
use native.Mathlib.Decide.{dec_lt}
use native.Mathlib.Nat.{mul_comm, mul-sub}
use doormat.Base.{ℕ, zero, suc, ◌+◌, ◌-◌, ◌*◌, ◌/◌, ◌%◌, ◌<◌, ◌≡◌, ap, arith}

Acc-below : (k n : ℕ) → n < k → Acc ◌<◌ n
Acc-below zero n h = elim h [ ]
Acc-below (suc k) n h = Acc.intro n (λ m hm. Acc-below k m (omega arith))

unfoldable lt_wf : WellFounded ◌<◌
unfolding Acc-below
lt_wf = record { apply = λ n. Acc-below (suc n) n (omega arith) }

pub mod_below : (u v : ℕ) → 0 < v → u % v < v
mod_below u v h = omega arith

-- The loop of `GCD`, on the proof that `v` is accessible.
gcd_loop : (u v : ℕ) → Acc ◌<◌ v → ℕ
gcd_loop u v (Acc.intro _ smaller) =
    dite (dec_lt 0 v) (λ h. gcd_loop v (u % v) (smaller (u % v) (mod_below u v h))) (λ _. u)

pub gcd : ℕ → ℕ → ℕ
unfolding gcd_loop lt_wf dec_lt
gcd u v = gcd_loop u v (lt_wf.apply v)

-- `d` goes into `n` without remainder.
abbrev pub Divides : ℕ → ℕ → Type 0
Divides d n = (k : ℕ) × (n ≡ k * d)

Divides-of_mod : (g u v : ℕ) → 0 < v → Divides g v → Divides g (u % v) → Divides g u
Divides-of_mod g u v h (a, p) (b, q) = (u / v * a + b, omega (arith, ap (λ (t : ℕ). u / v * t) p))

Divides-mod : (d u v : ℕ) → 0 < v → Divides d u → Divides d v → Divides d (u % v)
Divides-mod d u v h (a, p) (b, q) = (
  a - u / v * b,
  rw (mul_comm (a - u / v * b) d, mul-sub) (omega (arith, ap (λ (t : ℕ). u / v * t) q)),
)

gcd_loop-Divides :
    (u v : ℕ) (w : Acc ◌<◌ v) → Divides (gcd_loop u v w) u × Divides (gcd_loop u v w) v
unfolding gcd_loop
gcd_loop-Divides u v (Acc.intro _ smaller) = elim (dec_lt 0 v) [
  | yes h ↦
      let (p, q) = gcd_loop-Divides v (u % v) (smaller (u % v) (mod_below u v h)) in
      rw (dif_pos _ le_prop h) (Divides-of_mod _ u v h p q, p)
  | no h ↦ rw (dif_neg _ h) ((1, omega arith), (0, omega arith))
]

gcd_loop_greatest :
    (d u v : ℕ) (w : Acc ◌<◌ v) → Divides d u → Divides d v → Divides d (gcd_loop u v w)
unfolding gcd_loop
gcd_loop_greatest d u v (Acc.intro _ smaller) p q = elim (dec_lt 0 v) [
  | yes h ↦ rw (dif_pos _ le_prop h) (
      gcd_loop_greatest d v (u % v) (smaller (u % v) (mod_below u v h)) q (Divides-mod d u v h p q))
  | no h ↦ rw (dif_neg _ h) p
]

-- `GCD` returns a common divisor that every common divisor divides.
pub gcd_greatest :
    (u v : ℕ)
    → Divides (gcd u v) u
      × Divides (gcd u v) v
      × ((d : ℕ) → Divides d u → Divides d v → Divides d (gcd u v))
unfolding gcd
gcd_greatest u v = (
  (gcd_loop-Divides u v (lt_wf.apply v)).0,
  (gcd_loop-Divides u v (lt_wf.apply v)).1,
  λ d. gcd_loop_greatest d u v (lt_wf.apply v),
)
