-- ===== src/Sni.antt =====
-- src/utils/sni_solver.h and sni_solver.cpp: the certificates of a server and the choice among them
-- by the name that a TLS client asks for. What OpenSSL does with the files of a certificate and its
-- check of a host name are arguments; a context is known by its place in the order of loading.
mod Choice
mod Loading
mod Tests
use doormat.Base.{
  ℕ, zero, suc, ◌+◌, ◌&&◌, Bool, true, false, Option, none, some, List, [], ◌∷◌, ◌++◌, Bytes,
  bytes_eq, ◌==◌, if◌then◌else◌, length, drop, get_elem?,
}
use doormat.Utils.{same, ends_with}

-- `x509` is `none` while it is not set.
pub record Certificate {ℓ} (X : Type ℓ) : Type ℓ where
  pub server_name : Bytes
  pub context : ℕ
  pub x509 : Option X

-- What becomes of the files of a certificate: an exception of any kind, a certificate without a
-- subject, or one with it.
pub data Loaded {ℓ} (X : Type ℓ) : Type ℓ where
  thrown no_subject : Loaded X
  loaded : X → Loaded X

pub record RawCertificate : Type 0 where
  pub certificate_file : Bytes
  pub key_file : Bytes
  pub key_password : Bytes

-- The results of `sni_callback`, with the context that the connection is switched to; `unset_x509` is
-- a check of a certificate whose `x509` was never set.
pub data SniResult : Type 0 where
  tlsext_err_ok : ℕ → SniResult
  tlsext_err_noack unrecognized_name unset_x509 : SniResult

abbrev pub char_at : Bytes → ℕ → ℕ
char_at s i = elim (get_elem? s i) [ none ↦ 0 | some c ↦ c ]

abbrev pub is_wildcard : Bytes → Bool
is_wildcard name = char_at name 0 == 42 && char_at name 1 == 46

abbrev pub clean_wildcard_name : Bytes → Bytes
clean_wildcard_name name = drop 2 name

unfoldable pub wildcard_matches : Bytes → Bytes → Bool
wildcard_matches required name =
    is_wildcard name && ends_with same required (clean_wildcard_name name)

abbrev pub or_next : Option ℕ → SniResult → SniResult
or_next none next = next
or_next (some context) next = tlsext_err_ok context

module _ {ℓ} {X : Type ℓ} where
  -- The certificate that `prepare_certificate` adds: its name is that of a buffer of zeros.
  abbrev pub prepared : ℕ → Option X → Certificate X
  prepared context x509 = record { server_name = []; context = context; x509 = x509 }

  -- `prepare_certificate`, on what its files are found to be.
  abbrev pub prepare_certificate : Loaded X → List (Certificate X) → List (Certificate X) × Bool
  prepare_certificate thrown list = (list, false)
  prepare_certificate no_subject list = (list ++ (prepared (length list) none ∷ []), false)
  prepare_certificate (loaded x) list = (list ++ (prepared (length list) (some x) ∷ []), true)

  -- The loop of `load_certificates`.
  pub prepare_all :
      (RawCertificate → Loaded X)
      → List RawCertificate
      → List (Certificate X)
      → List (Certificate X) × Bool
  prepare_all load [] list = (list, true)
  prepare_all load (t ∷ ts) list =
      let next = prepare_certificate (load t) list in
      let rest = prepare_all load ts next.0 in if next.1 then rest else next

  abbrev is_empty_list : List (Certificate X) → Bool
  is_empty_list [] = true
  is_empty_list (c ∷ cs) = false

  unfoldable pub load_certificates :
      (RawCertificate → Loaded X)
      → List RawCertificate
      → List (Certificate X)
      → List (Certificate X) × Bool
  unfolding prepare_all
  load_certificates load raw list =
      let done = prepare_all load raw list in
      if done.1
      then (if is_empty_list done.0 then (done.0, false) else (done.0, true))
      else (done.0, false)

  -- The three loops of `sni_callback`; the third calls `X509_check_host`.
  pub find_name : Bytes → List (Certificate X) → Option ℕ
  find_name required [] = none
  find_name required (c ∷ cs) =
      let rest = find_name required cs in
      if bytes_eq c.server_name required then some c.context else rest

  pub find_wildcard : Bytes → List (Certificate X) → Option ℕ
  find_wildcard required [] = none
  find_wildcard required (c ∷ cs) =
      let rest = find_wildcard required cs in
      if wildcard_matches required c.server_name then some c.context else rest

  pub find_host : (X → Bytes → Bool) → Bytes → List (Certificate X) → SniResult
  find_host check_host required [] = unrecognized_name
  find_host check_host required (c ∷ cs) =
      let rest = find_host check_host required cs in
      elim c.x509 [
        | none ↦ unset_x509
        | some x ↦ if check_host x required then tlsext_err_ok c.context else rest
      ]

  -- `sni_callback`, with a solver set; `none` is a client that names no server.
  abbrev pub sni_callback : (X → Bytes → Bool) → List (Certificate X) → Option Bytes → SniResult
  sni_callback check_host list none = tlsext_err_noack
  sni_callback check_host list (some required) =
      or_next (find_name required list)
        (or_next (find_wildcard required list) (find_host check_host required list))
