-- ===== src/Multiplexer/Invariant.antt =====
-- The timing invariant through calls of `update_timeout`, and what a second call can still change.
use doormat.Base.{
  ℕ, zero, suc, ◌*◌, ◌/◌, ◌^◌, ◌≤◌, ◌<◌, ◌≡◌, ◌⊎◌, inl, inr, refl, ap, ◌∙◌, sym, true, false, List,
  [], ◌∷◌, map, arith, ◌==◌, Bool-cases, ==_iff,
}
use doormat.Multiplexer.Gcd.{gcd, gcd_greatest, Divides}
use doormat.Multiplexer.Timing.{
  periods, AllFit, IsTimed, new_period, rearm_period, Divides-pos, Divides-exact,
  update_timeout-periods,
}
use doormat.Multiplexer.{Handler, Multiplexer, rearm, update_timeout}

Divides-le : (g n : ℕ) → 0 < n → Divides g n → g ≤ n
Divides-le g n pos (zero, e) = absurd (omega arith)
Divides-le g n pos (suc k, e) = omega arith

period_mono : (p g i : ℕ) → g ≤ i → p * g ≤ p * i
period_mono p g i h = grind arith

module _ (ms old i : ℕ) (small : ms < 2 ^ 64) (pm : 0 < ms) (po : 0 < old) where
  common : Divides (gcd ms old) ms × Divides (gcd ms old) old
  common = ((gcd_greatest ms old).0, (gcd_greatest ms old).1)

  gcd_pos : 0 < gcd ms old
  gcd_pos = Divides-pos (gcd ms old) ms pm common.0

  rearm_fits :
      (h : Handler)
      → ((i ≡ old) × (0 < i)) ⊎ (i ≡ 0)
      → h.periodicity * i < 2 ^ 64
      → (i ≡ 0 → h.periodicity ≡ 0)
      → (rearm (old / gcd ms old) ms (gcd ms old) h).periodicity * gcd ms old < 2 ^ 64
  unfolding rearm
  rearm_fits h (inl (s, some_time)) f u = ground (
    arith,
    rearm_period ms i old (old / gcd ms old) (gcd ms old) h.periodicity gcd_pos
        (sym (Divides-exact (gcd ms old) old gcd_pos common.1))
        (Divides-exact (gcd ms old) ms gcd_pos common.0) (inl (s, some_time)) f,
    period_mono h.periodicity (gcd ms old) i (rw s (Divides-le (gcd ms old) old po common.1)),
  )
  rearm_fits h (inr unset) f u = ground (
    arith,
    rearm_period ms i old (old / gcd ms old) (gcd ms old) h.periodicity gcd_pos
        (sym (Divides-exact (gcd ms old) old gcd_pos common.1))
        (Divides-exact (gcd ms old) ms gcd_pos common.0) (inr (unset, u unset)) f,
    ap (λ (n : ℕ). n * gcd ms old) (u unset),
  )

  rearm-AllFit :
      (hs : List Handler)
      → ((i ≡ old) × (0 < i)) ⊎ (i ≡ 0)
      → AllFit i hs
      → AllFit (gcd ms old) (map (rearm (old / gcd ms old) ms (gcd ms old)) hs)
  rearm-AllFit [] c f = tt
  rearm-AllFit (h ∷ hs) c f =
      (rearm_fits h c f.0 f.1, λ z. absurd (omega (arith, gcd_pos)), rearm-AllFit hs c f.2)

-- A call of `update_timeout` keeps all periods and the time elapsed within 64 bits.
pub update_timeout-IsTimed :
    (m : Multiplexer) (ms : ℕ) → IsTimed m → 0 < ms → ms < 2 ^ 64 → IsTimed (update_timeout m ms)
unfolding update_timeout
update_timeout-IsTimed m ms v pos small = record {
  fits = all_fit (Bool-cases (i == 0));
  elapsed_fits = rw ((update_timeout-periods m ms v pos).1) v.elapsed_fits;
  unarmed = λ z. absurd (omega (arith, (update_timeout-periods m ms v pos).2, z));
}
  where
    open m use {timeout_interval as i, handlers_list as hs}

    all_fit :
        ((i == 0) ≡ true) ⊎ ((i == 0) ≡ false)
        → AllFit (update_timeout m ms).timeout_interval (update_timeout m ms).handlers_list
    all_fit (inl unset) =
        rw unset (rearm-AllFit ms ms i small pos pos hs (inr ((==_iff i 0).0 unset)) v.fits)
    all_fit (inr set) =
        let some_time : 0 < i = ground (arith, set) in
        rw set (rearm-AllFit ms i i small pos some_time hs (inl (refl, some_time)) v.fits)

map-new_period :
    (ms ms' : ℕ) (ps : List ℕ)
    → 0 < ms
    → map (new_period ms') (map (new_period ms) ps) ≡ map (new_period ms) ps
map-new_period ms ms' [] pos = refl
map-new_period ms ms' (p ∷ ps) pos = ground (arith, map-new_period ms ms' ps pos)

-- Once somebody has asked for a timeout of `ms`, every handler alive has a period, and a later call
-- with any other `ms'` changes no period: the timeout that a handler asks for itself is not the one
-- it gets if another handler asked first.
pub update_timeout_first :
    (m : Multiplexer) (ms ms' : ℕ)
    → IsTimed m
    → 0 < ms
    → ms < 2 ^ 64
    → 0 < ms'
    → let m' = update_timeout (update_timeout m ms) ms' in
      periods m'.timeout_interval m'.handlers_list
      ≡ map (new_period ms) (periods m.timeout_interval m.handlers_list)
update_timeout_first m ms ms' v pos small pos' =
    (update_timeout-periods (update_timeout m ms) ms' (update_timeout-IsTimed m ms v pos small)
      pos').0
    ∙ ap (map (new_period ms')) (update_timeout-periods m ms v pos).0
    ∙ map-new_period ms ms' (periods m.timeout_interval m.handlers_list) pos
