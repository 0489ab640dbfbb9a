-- ===== src/Http2/Target.antt =====
-- What becomes of the target of a request that one doormat sends over HTTP/2 and another receives.
use doormat.Base.{
  ℕ, suc, ◌≡◌, refl, sym, ap, ◌∙◌, [], ◌∷◌, ◌++◌, arith, Bytes, codes, take, length, take-append,
  drop-append, append-nil, ==_false,
}
use doormat.Utils.Compare.{Lacks}
use doormat.Messages.{Request, target}
use doormat.Http2.Incoming.{scan, on_path}
use doormat.Http2.Client.{pseudo_headers}

scan-append : (stop : ℕ) (p rest : Bytes) → Lacks stop p → scan stop (p ++ (stop ∷ rest)) ≡ length p
unfolding scan
scan-append stop [] rest h = ground arith
scan-append stop (x ∷ p) rest h = rw (==_false x stop h.0) (ap suc (scan-append stop p rest h.1))

scan_lacking : (stop : ℕ) (p : Bytes) → Lacks stop p → scan stop p ≡ length p
unfolding scan
scan_lacking stop [] h = refl
scan_lacking stop (x ∷ p) h = rw (==_false x stop h.0) (ap suc (scan_lacking stop p h.1))

take-all : (p : Bytes) → take (length p) p ≡ p
take-all p = ap (take (length p)) (sym (append-nil p)) ∙ take-append p []

-- A path with a query: the query is kept with its question mark, and once more as the fragment.
on_path-query :
    (p q : Bytes) (r : Request)
    → Lacks 63 p
    → Lacks 35 q
    → on_path (p ++ (63 ∷ q)) r ≡ record r { path = p; query = 63 ∷ q; fragment = 63 ∷ q }
unfolding on_path scan
on_path-query p q r hp hq =
    rw
      (
        scan-append 63 p q hp,
        take-append p (63 ∷ q),
        drop-append p (63 ∷ q),
        scan_lacking 35 q hq,
        take-all q,
      )
      refl

-- A request with a path and a query that a client sends over HTTP/2 arrives at a server with the
-- question mark in its query and with the query as its fragment too, so that the target is printed
-- with two question marks and the query twice.
pub target-on_path :
    (req r : Request) (x y : ℕ) (p q : Bytes)
    → req.path ≡ x ∷ p
    → req.query ≡ y ∷ q
    → Lacks 63 req.path
    → Lacks 35 req.query
    → target (on_path (pseudo_headers req).path r)
      ≡ req.path ++ (codes "??" ++ (req.query ++ (codes "#?" ++ req.query)))
unfolding target pseudo_headers
target-on_path req r x y p q ep eq hp hq =
    let sent : (pseudo_headers req).path ≡ req.path ++ (63 ∷ req.query) = rw (ep, eq) refl in
    ap (λ v. target (on_path v r)) sent
    ∙ (ap target (on_path-query req.path req.query r hp hq) ∙ rw ep refl)
