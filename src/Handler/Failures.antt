-- ===== src/Handler/Failures.antt =====
-- What the HTTP/1 handler does when its decoder fails.
use doormat.Base.{
  some-ne-none, ℕ, ◌≡◌, ◌↔◌, refl, sym, ap, ◌∙◌, none, some, List, [], ◌∷◌, arith, Option-cases,
  inl, inr,
}
use doormat.Headers.{◌>>=◌}
use doormat.Objects.Remote.{error, decoding}
use doormat.Handler.{Traits, Core}
use doormat.Handler.Receiving.{
  get_current, decoding_failure, fail_local, fail_at, last, pop_remote, tell,
}

module _ {M N R : Type 0} (t : Traits M N R) where
  last-cons : (x : ℕ) (xs : List ℕ) → (y : ℕ) × (last (x ∷ xs) ≡ some y)
  last-cons x [] = (x, refl)
  last-cons x (y ∷ ys) = last-cons y ys

  get_current-locals : (c : Core M N R) → (get_current t c).0.locals ≡ c.locals
  unfolding get_current
  get_current-locals c = ground arith

  fail_local_empty : (c : Core M N R) (l : List ℕ) → c.locals ≡ l → fail_local t c ≡ none → l ≡ []
  fail_local_empty c [] e h = refl
  fail_local_empty c (x ∷ xs) e h =
      let (y, f) = last-cons x xs in
      absurd (some-ne-none (sym (ap (λ o. o >>= λ id. some (fail_at t id c)) (ap last e ∙ f)) ∙ h))

  empty_fail_local : (c : Core M N R) → c.locals ≡ [] → fail_local t c ≡ none
  empty_fail_local c e = rw e refl

  abbrev failed_with : (c : Core M N R) (id : ℕ) → Core M N R
  failed_with c id = pop_remote t (tell t id (error decoding) (get_current t c).0)

  decoding_failure-current :
      (c : Core M N R) (id : ℕ)
      → (get_current t c).1 ≡ some id
      → decoding_failure t c ≡ fail_local t (failed_with c id)
  unfolding decoding_failure
  decoding_failure-current c id e =
      ap (λ o. elim o [ none ↦ some (get_current t c).0 | some i ↦ fail_local t (failed_with c i) ])
        e

  -- A failure of the decoder goes wrong, by the back of an empty list, exactly when a message is being
  -- received while none is being sent.
  pub decoding_failure_iff :
      (c : Core M N R)
      → (decoding_failure t c ≡ none)
        ↔ (((id : ℕ) × ((get_current t c).1 ≡ some id)) × (c.locals ≡ []))
  unfolding decoding_failure
  decoding_failure_iff c = elim (Option-cases (get_current t c).1) [
    | inl e ↦ (λ h. absurd (ground (arith, e, h)), λ h. absurd (ground (arith, e, h.0.1)))
    | inr (id, e) ↦ (
      (λ h. (
        (id, e),
        fail_local_empty (failed_with c id) c.locals (get_current-locals c)
            (sym (decoding_failure-current c id e) ∙ h),
      )),
      (λ h.
          decoding_failure-current c id e
          ∙ empty_fail_local (failed_with c id) (get_current-locals c ∙ h.1)),
    )
  ]
