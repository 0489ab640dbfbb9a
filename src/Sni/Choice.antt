-- ===== src/Sni/Choice.antt =====
-- Which certificate the three loops of `sni_callback` choose.
use doormat.Base.{
  ◌≤◌, ◌↔◌, leb, ◌==◌, ℕ, ◌≡◌, ◌≢◌, refl, Bool, true, none, some, List, [], ◌∷◌, ◌++◌, arith, Bytes,
  bytes_eq, if◌then◌else◌, inl, inr, Option-cases,
}
use doormat.Utils.Compare.{ends_with_iff}
use doormat.Sni.{
  Certificate, tlsext_err_ok, unrecognized_name, sni_callback, find_name, find_wildcard, find_host,
  wildcard_matches,
}

module _ {ℓ} {X : Type ℓ} where
  -- How well a certificate fits a name: 0 by its own name, 1 by a wildcard, 2 by what the certificate
  -- itself says, 3 not at all.
  unfoldable pub rank : (X → Bytes → Bool) → Bytes → Certificate X → ℕ
  rank check_host required c =
      if bytes_eq c.server_name required
      then 0
      else if wildcard_matches required c.server_name
      then 1
      else elim c.x509 [ none ↦ 3 | some x ↦ if check_host x required then 2 else 3 ]

  -- The rank and the context of the first certificate among those that fit best.
  unfoldable pub best : (X → Bytes → Bool) → Bytes → List (Certificate X) → ℕ × ℕ
  best check_host required [] = (3, 0)
  best check_host required (c ∷ cs) =
      let rest = best check_host required cs in
      if leb (rank check_host required c) rest.0
      then (rank check_host required c, c.context)
      else rest

  -- Every certificate has its `x509`.
  unfoldable pub IsLoaded : List (Certificate X) → Type ℓ
  IsLoaded [] = Unit
  IsLoaded (c ∷ cs) = (c.x509 ≢ none) × IsLoaded cs

  find_name-best :
      (check_host : X → Bytes → Bool) (required : Bytes) (l : List (Certificate X))
      → find_name required l ≡ (
          if (best check_host required l).0 == 0 then some (best check_host required l).1 else none)
  unfolding find_name best rank
  find_name-best check_host required [] = refl
  find_name-best check_host required (c ∷ cs) =
      ground (arith, find_name-best check_host required cs)

  find_wildcard-best :
      (check_host : X → Bytes → Bool) (required : Bytes) (l : List (Certificate X))
      → (best check_host required l).0 ≢ 0
      → find_wildcard required l ≡ (
          if (best check_host required l).0 == 1 then some (best check_host required l).1 else none)
  unfolding find_wildcard best rank
  find_wildcard-best check_host required [] h = refl
  find_wildcard-best check_host required (c ∷ cs) h =
      ground (arith, find_wildcard-best check_host required cs)

  find_host-best :
      (check_host : X → Bytes → Bool) (required : Bytes) (l : List (Certificate X))
      → IsLoaded l
      → 2 ≤ (best check_host required l).0
      → find_host check_host required l ≡ (
          if (best check_host required l).0 == 2
          then tlsext_err_ok (best check_host required l).1
          else unrecognized_name)
  unfolding find_host best rank IsLoaded
  find_host-best check_host required [] h r = refl
  find_host-best check_host required (c ∷ cs) h r = elim (Option-cases c.x509) [
    | inl e ↦ absurd (h.0 e)
    | inr (x, e) ↦ rw e (ground (arith, e, find_host-best check_host required cs h.1))
  ]

  best_bound :
      (check_host : X → Bytes → Bool) (required : Bytes) (l : List (Certificate X))
      → (best check_host required l).0 ≤ 3
  unfolding best
  best_bound check_host required [] = omega arith
  best_bound check_host required (c ∷ cs) = ground (arith, best_bound check_host required cs)

  -- Where every certificate is set, the three loops together choose the first certificate among
  -- those that fit the name best: its own name before a wildcard, and a wildcard before what the
  -- certificate itself says. They refuse the name only if no certificate fits it.
  pub sni_callback-best :
      (check_host : X → Bytes → Bool) (required : Bytes) (l : List (Certificate X))
      → IsLoaded l
      → sni_callback check_host l (some required) ≡ (
          if (best check_host required l).0 == 3
          then unrecognized_name
          else tlsext_err_ok (best check_host required l).1)
  sni_callback-best check_host required l h = ground (
    arith,
    find_name-best check_host required l,
    find_wildcard-best check_host required l,
    find_host-best check_host required l h,
    best_bound check_host required l,
  )

-- A wildcard certificate for `*.x` fits exactly the names that end in `x`, whatever stands before it:
-- no dot is asked for, and none is excluded.
pub wildcard_matches_iff :
    (required x : Bytes)
    → (wildcard_matches required (42 ∷ 46 ∷ x) ≡ true) ↔ ((front : Bytes) × (required ≡ front ++ x))
unfolding wildcard_matches
wildcard_matches_iff required x = ends_with_iff required x
