-- ===== src/Multiplexer/Timing.antt =====
-- What the ticks of the multiplexer's timer mean in milliseconds.
use native.Mathlib.Nat.{mod-eq_of_lt, add-mul-mod_self_right, zero-mul, mul-div_cancel, mul_assoc}
use doormat.Base.{
  ℕ, zero, suc, ◌+◌, ◌*◌, ◌/◌, ◌%◌, ◌^◌, ◌≤◌, ◌<◌, ◌≡◌, ◌⊎◌, inl, inr, refl, ap, ◌∙◌, sym, List, [],
  ◌∷◌, ◌++◌, map, arith, not, ◌&&◌, ◌==◌, Bool-cases, ==_iff, if◌then◌else◌,
}
use doormat.Multiplexer.Gcd.{gcd, gcd_greatest, Divides}
use doormat.Multiplexer.{Handler, Multiplexer, rearm, update_timeout, timeout, fire, to_list}

-- The periods in milliseconds of the handlers that are alive, 0 for one that has no timeout.
abbrev pub periods : ℕ → List Handler → List ℕ
periods interval [] = []
periods interval (h ∷ hs) =
    if h.alive then h.periodicity * interval ∷ periods interval hs else periods interval hs

-- The milliseconds that the counted ticks stand for.
abbrev pub elapsed : Multiplexer → ℕ
elapsed m = m.tick_count * m.timeout_interval

-- Every period fits 64 bits; without a timer no handler has a period.
abbrev pub AllFit : ℕ → List Handler → Type 0
AllFit interval [] = Unit {0}
AllFit interval (h ∷ hs) =
    (h.periodicity * interval < 2 ^ 64) × (interval ≡ 0 → h.periodicity ≡ 0) × AllFit interval hs

pub record IsTimed (m : Multiplexer) : Type 0 where
  pub fits : AllFit m.timeout_interval m.handlers_list
  pub elapsed_fits : elapsed m < 2 ^ 64
  pub unarmed : m.timeout_interval ≡ 0 → m.tick_count ≡ 0

-- The period of a handler after a timeout of `ms` was asked for by someone.
abbrev pub new_period : ℕ → ℕ → ℕ
new_period ms p = if p == 0 then ms else p

pub le-mul_pos : (n g : ℕ) → 0 < g → n ≤ n * g
le-mul_pos n zero h = absurd (omega arith)
le-mul_pos n (suc g) h = omega arith

-- Ticks counted in the new, shorter interval stand for the same time.
rescale : (t k g : ℕ) → 0 < g → t * (k * g) < 2 ^ 64 → t * k % 2 ^ 64 * g ≡ t * (k * g)
rescale t k g pos fit =
    ap (λ (n : ℕ). n * g)
      (mod-eq_of_lt {n = t * k} {m = 2 ^ 64}
        (omega (arith, le-mul_pos (t * k) g pos, mul_assoc t k g)))
    ∙ mul_assoc t k g

pub Divides-exact : (g n : ℕ) → 0 < g → Divides g n → n / g * g ≡ n
Divides-exact g n pos (k, e) = rw (e, mul-div_cancel k pos)

pub Divides-pos : (g n : ℕ) → 0 < n → Divides g n → 0 < g
Divides-pos zero n pos (k, e) = absurd (omega arith)
Divides-pos (suc g) n pos d = omega arith

product_zero : (p i : ℕ) → 0 < i → p * i ≡ 0 → p ≡ 0
product_zero zero i pos e = refl
product_zero (suc p) i pos e = absurd (grind arith)

pub rearm_period :
    (ms i old k g p : ℕ)
    → 0 < g
    → old ≡ k * g
    → ms / g * g ≡ ms
    → ((i ≡ old) × (0 < i)) ⊎ ((i ≡ 0) × (p ≡ 0))
    → p * i < 2 ^ 64
    → (if p == 0 then ms / g else p * k % 2 ^ 64) * g ≡ new_period ms (p * i)
rearm_period ms i old k g p pos e m (inl (same, some_time)) fit =
    ground (arith, ap (λ (n : ℕ). p * n) (same ∙ e), rescale p k g pos, product_zero p i some_time)
rearm_period ms i old k g p pos e m (inr (unset, idle)) fit =
    ground (arith, ap (λ (n : ℕ). n * i) idle)

periods-rearm :
    (ms i old k g : ℕ) (hs : List Handler)
    → 0 < g
    → old ≡ k * g
    → ms / g * g ≡ ms
    → ((i ≡ old) × (0 < i)) ⊎ (i ≡ 0)
    → AllFit i hs
    → periods g (map (rearm k ms g) hs) ≡ map (new_period ms) (periods i hs)
unfolding rearm
periods-rearm ms i old k g [] pos e m c f = refl
periods-rearm ms i old k g (h ∷ hs) pos e m (inl same) f = ground (
  arith,
  rearm_period ms i old k g h.periodicity pos e m (inl same),
  periods-rearm ms i old k g hs pos e m (inl same) f.2,
)
periods-rearm ms i old k g (h ∷ hs) pos e m (inr unset) f = ground (
  arith,
  rearm_period ms i old k g h.periodicity pos e m (inr (unset, f.1 unset)),
  periods-rearm ms i old k g hs pos e m (inr unset) f.2,
)

retimed :
    (ms old i tick : ℕ) (hs : List Handler)
    → 0 < ms
    → 0 < old
    → ((i ≡ old) × (0 < i)) ⊎ (i ≡ 0)
    → AllFit i hs
    → tick * i < 2 ^ 64
    → (i ≡ 0 → tick ≡ 0)
    → let g = gcd ms old in
      (periods g (map (rearm (old / g) ms g) hs) ≡ map (new_period ms) (periods i hs))
      × (tick * (old / g) % 2 ^ 64 * g ≡ tick * i)
      × (0 < g)
      × Divides g ms
      × Divides g i
retimed ms old i tick hs pm po c f e u =
    let d : Divides (gcd ms old) ms = (gcd_greatest ms old).0 in
    let d' : Divides (gcd ms old) old = (gcd_greatest ms old).1 in
    let pos : 0 < gcd ms old = Divides-pos (gcd ms old) ms pm d in
    let exact : old / gcd ms old * gcd ms old ≡ old = Divides-exact (gcd ms old) old pos d' in
    (
      periods-rearm ms i old (old / gcd ms old) (gcd ms old) hs pos (sym exact)
          (Divides-exact (gcd ms old) ms pos d) c f,
      same_time c exact pos,
      pos,
      d,
      divides_old c d',
    )
  where
    same_time :
        ((i ≡ old) × (0 < i)) ⊎ (i ≡ 0)
        → old / gcd ms old * gcd ms old ≡ old
        → 0 < gcd ms old
        → tick * (old / gcd ms old) % 2 ^ 64 * gcd ms old ≡ tick * i
    same_time (inl (s, _)) exact pos = omega (
      arith,
      rescale tick (old / gcd ms old) (gcd ms old) pos (rw (exact, ← s) e),
      ap (λ (n : ℕ). tick * n) exact,
      ap (λ (n : ℕ). tick * n) s,
    )
    same_time (inr z) exact pos = rw (u z, z) (simp zero-mul)

    divides_old :
        ((i ≡ old) × (0 < i)) ⊎ (i ≡ 0) → Divides (gcd ms old) old → Divides (gcd ms old) i
    divides_old (inl (s, _)) (k, p) = (k, s ∙ p)
    divides_old (inr z) _ = (0, omega arith)

-- Asking for a timeout of `ms` milliseconds changes the timer's interval to a common divisor of the
-- old interval and `ms`, and with it the unit of all counters, but no time: the time elapsed stays
-- what it was, and so does the period of every handler alive that has one; each other handler alive
-- gets the period `ms`.
pub update_timeout-periods :
    (m : Multiplexer) (ms : ℕ)
    → IsTimed m
    → 0 < ms
    → let m' = update_timeout m ms in
      (periods m'.timeout_interval m'.handlers_list
        ≡ map (new_period ms) (periods m.timeout_interval m.handlers_list))
      × (elapsed m' ≡ elapsed m)
      × (0 < m'.timeout_interval)
      × Divides m'.timeout_interval ms
      × Divides m'.timeout_interval m.timeout_interval
      × (m'.conn_timeout ≡ m'.timeout_interval)
unfolding update_timeout
update_timeout-periods m ms v pos = elim (Bool-cases (i == 0)) [
  | inl unset ↦
      let zero_interval : i ≡ 0 = (==_iff i 0).0 unset in
      let r = retimed ms ms i tick hs pos pos (inr zero_interval) v.fits v.elapsed_fits v.unarmed in
      rw unset (r.0, r.1, r.2, r.3, r.4, refl)
  | inr set ↦
      let some_time : 0 < i = ground (arith, set) in
      let r =
        retimed ms i i tick hs pos some_time (inl (refl, some_time)) v.fits v.elapsed_fits
          v.unarmed in
      rw set (r.0, r.1, r.2, r.3, r.4, refl)
]
  where
    open m use {timeout_interval as i, tick_count as tick, handlers_list as hs}

-- The timeout callbacks due at the time `now`, in the order of the handlers.
abbrev pub due : ℕ → ℕ → List Handler → List ℕ
due interval now [] = []
due interval now (h ∷ hs) =
    let period = h.periodicity * interval in
    let rest = due interval now hs in
    if h.alive && not (period == 0) && (now % period == 0) then to_list h.tcb ++ rest else rest

mod-scale : (t p i : ℕ) → 0 < p → 0 < i → t * i % (p * i) ≡ t % p * i
mod-scale t p i pp pi =
    ap (λ (n : ℕ). n % (p * i)) split
    ∙ add-mul-mod_self_right (t % p * i) (t / p) (p * i)
    ∙ mod-eq_of_lt {n = t % p * i} {m = p * i} (scaled i (t % p) p (omega arith) pi)
  where
    scaled : (i r p : ℕ) → r < p → 0 < i → r * i < p * i
    scaled i r p h q = grind arith

    split : t * i ≡ t % p * i + t / p * (p * i)
    split = omega (arith, ap (λ (n : ℕ). n * i) (quotient t p))
      where
        quotient : (t p : ℕ) → t ≡ t / p * p + t % p
        quotient t p = omega arith

fire-due :
    (interval tick : ℕ) (hs : List Handler)
    → 0 < interval
    → fire tick hs ≡ due interval (tick * interval) hs
unfolding fire
fire-due interval tick [] pos = refl
fire-due interval tick (h ∷ hs) pos = ground (
  arith,
  fire-due interval tick hs pos,
  product_zero h.periodicity interval pos,
  mod-scale tick h.periodicity interval,
  product_zero (tick % h.periodicity) interval pos,
)

-- A tick calls the timeout callbacks of exactly those handlers alive that have a period, and whose
-- period divides the time elapsed at that tick.
pub timeout-due :
    (m : Multiplexer)
    → 0 < m.timeout_interval
    → suc m.tick_count < 2 ^ 64
    → (timeout m).1 ≡ due m.timeout_interval (suc m.tick_count * m.timeout_interval) m.handlers_list
unfolding timeout
timeout-due m pos fit = ground (
  arith,
  mod-eq_of_lt {n = suc m.tick_count} {m = 2 ^ 64} fit,
  fire-due m.timeout_interval (suc m.tick_count) m.handlers_list pos,
)
