-- ===== src/Sni/Tests.antt =====
-- Runs of the choice of a certificate, and the theorems about it at concrete certificates. An `x509` is
-- the list of the names it is good for.
use doormat.Base.{
  ◌≡◌, ◌≢◌, ◌↔◌, refl, ◌||◌, ◌==◌, Bool, true, false, some, List, [], ◌∷◌, ◌++◌, Bytes, codes,
  bytes_eq, if◌then◌else◌,
}
use doormat.Utils.{equal, ends_with}
use doormat.Sni.{
  RawCertificate, Loaded, loaded, Certificate, tlsext_err_ok, unrecognized_name, load_certificates,
  prepare_all, sni_callback, find_host, find_name, find_wildcard, wildcard_matches,
}
use doormat.Sni.Choice.{best, IsLoaded, sni_callback-best, wildcard_matches_iff}
use doormat.Sni.Loading.{load_certificates-sni_callback}

abbrev check_host : List Bytes → Bytes → Bool
check_host [] name = false
check_host (n ∷ ns) name = bytes_eq n name || check_host ns name

abbrev site : Bytes
site = codes "a.org"

abbrev subdomain : Bytes
subdomain = codes "x.a.org"

abbrev other : Bytes
other = codes "nota.org"

abbrev certificates : List (Certificate (List Bytes))
certificates =
    record { server_name = []; context = 0; x509 = some (subdomain ∷ []) }
    ∷ record { server_name = 42 ∷ 46 ∷ site; context = 1; x509 = some [] }
    ∷ record { server_name = site; context = 2; x509 = some [] }
    ∷ []

by_name : sni_callback check_host certificates (some site) ≡ tlsext_err_ok 2
unfolding find_name bytes_eq
by_name = refl

-- The wildcard goes before the certificate that names the host itself.
by_wildcard : sni_callback check_host certificates (some subdomain) ≡ tlsext_err_ok 1
unfolding find_name bytes_eq find_wildcard wildcard_matches ends_with equal
by_wildcard = refl

without_a_dot : sni_callback check_host certificates (some other) ≡ tlsext_err_ok 1
unfolding find_name bytes_eq find_wildcard wildcard_matches ends_with equal
without_a_dot = refl

abbrev files : List RawCertificate
files = record { certificate_file = codes "c"; key_file = codes "k"; key_password = codes "p" } ∷ []

abbrev load : RawCertificate → Loaded (List Bytes)
load r = loaded (site ∷ [])

sni_callback-best_example : sni_callback check_host certificates (some subdomain) ≡ (
    if (best check_host subdomain certificates).0 == 3
    then unrecognized_name
    else tlsext_err_ok (best check_host subdomain certificates).1)
unfolding IsLoaded
sni_callback-best_example =
    sni_callback-best check_host subdomain certificates ((λ e. cc), ((λ e. cc), ((λ e. cc), tt)))

wildcard_matches_iff_example :
    (wildcard_matches other (42 ∷ 46 ∷ site) ≡ true) ↔ ((front : Bytes) × (other ≡ front ++ site))
wildcard_matches_iff_example = wildcard_matches_iff other site

load_certificates-sni_callback_example :
    let list = (load_certificates load files []).0 in
    (sni_callback check_host list (some site) ≡ find_host check_host site list) × (list ≢ [])
unfolding load_certificates prepare_all
load_certificates-sni_callback_example =
    load_certificates-sni_callback load files check_host site (λ e. cc) refl
