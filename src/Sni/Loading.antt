-- ===== src/Sni/Loading.antt =====
-- What is left of the choice after `load_certificates`, which sets every name to the empty string.
use doormat.Base.{
  ℕ, ◌≡◌, ◌≢◌, refl, Bool, true, none, some, List, [], ◌∷◌, ◌++◌, arith, Bytes, length, bytes_eq,
  Bool-cases, inl, inr,
}
use doormat.Sni.{
  RawCertificate, Loaded, thrown, no_subject, loaded, Certificate, prepare_all, prepare_certificate,
  load_certificates, prepared, sni_callback, find_name, find_wildcard, find_host, wildcard_matches,
}

module _ {ℓ} {X : Type ℓ} where
  -- The certificates as `prepare_certificate` leaves them: without a name.
  pub IsNameless : List (Certificate X) → Type ℓ
  IsNameless [] = Unit
  IsNameless (c ∷ cs) = (c.server_name ≡ []) × (c.x509 ≢ none) × IsNameless cs

  IsNameless-append :
      (l : List (Certificate X)) (n : ℕ) (x : X)
      → IsNameless l
      → IsNameless (l ++ (prepared n (some x) ∷ []))
  unfolding IsNameless
  IsNameless-append [] n x h = (refl, (λ e. cc), tt)
  IsNameless-append (c ∷ cs) n x h = (h.0, h.1, IsNameless-append cs n x h.2)

  prepare_certificate-IsNameless :
      (r : Loaded X) (l : List (Certificate X))
      → IsNameless l
      → (prepare_certificate r l).1 ≡ true
      → IsNameless (prepare_certificate r l).0
  prepare_certificate-IsNameless thrown l h ok = h
  prepare_certificate-IsNameless no_subject l h ok = cc
  prepare_certificate-IsNameless (loaded x) l h ok = IsNameless-append l (length l) x h

  prepare_all-IsNameless :
      (load : RawCertificate → Loaded X) (raw : List RawCertificate) (l : List (Certificate X))
      → IsNameless l
      → (prepare_all load raw l).1 ≡ true
      → IsNameless (prepare_all load raw l).0
  unfolding prepare_all IsNameless
  prepare_all-IsNameless load [] l h ok = h
  prepare_all-IsNameless load (t ∷ ts) l h ok =
      elim (Bool-cases (prepare_certificate (load t) l).1) [
        | inl e ↦ rw e (
            prepare_all-IsNameless load ts (prepare_certificate (load t) l).0
              (prepare_certificate-IsNameless (load t) l h e) (ground (arith, e, ok)))
        | inr e ↦ absurd (ground (arith, e, ok))
      ]

  find_name_nameless :
      (required : Bytes) (l : List (Certificate X))
      → required ≢ []
      → IsNameless l
      → find_name required l ≡ none
  unfolding find_name IsNameless bytes_eq
  find_name_nameless [] l r h = absurd (r refl)
  find_name_nameless (c ∷ cs) [] r h = refl
  find_name_nameless (b ∷ bs) (c ∷ cs) r h = rw (h.0) (find_name_nameless (b ∷ bs) cs r h.2)

  find_wildcard_nameless :
      (required : Bytes) (l : List (Certificate X)) → IsNameless l → find_wildcard required l ≡ none
  unfolding find_wildcard IsNameless wildcard_matches
  find_wildcard_nameless required [] h = refl
  find_wildcard_nameless required (c ∷ cs) h = rw h.0 (find_wildcard_nameless required cs h.2)

  -- After certificates have been loaded, a client that names a server is served by what the
  -- certificates themselves say and nothing else: the loops over names and wildcards find nothing.
  pub load_certificates-sni_callback :
      (load : RawCertificate → Loaded X) (raw : List RawCertificate) (check_host : X → Bytes → Bool)
      (required : Bytes)
      → required ≢ []
      → (load_certificates load raw []).1 ≡ true
      → let list = (load_certificates load raw []).0 in
        (sni_callback check_host list (some required) ≡ find_host check_host required list)
        × (list ≢ [])
  unfolding load_certificates IsNameless
  load_certificates-sni_callback load raw check_host required r ok = ground (
    arith,
    find_name_nameless required (prepare_all load raw []).0 r,
    find_wildcard_nameless required (prepare_all load raw []).0,
    prepare_all-IsNameless load raw [] tt,
  )
