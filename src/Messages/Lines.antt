-- ===== src/Messages/Lines.antt =====
-- The first line of a message is read back from what is sent.
use doormat.Base.{
  ℕ, ◌≡◌, refl, Bool, true, false, some, [], ◌∷◌, ◌++◌, arith, Bytes, codes, ◌==◌, ==_refl,
  ==_false, if◌then◌else◌, is_empty,
}
use doormat.Utils.Compare.{Lacks}
use doormat.Headers.{serialize, proto_to_string, crlf, ProtoVersion}
use doormat.Messages.{Request, serialize_request, target, method_name}

-- What stands before the first `c`, and what stands behind it.
abbrev pub split_at : ℕ → Bytes → Bytes × Bytes
split_at c [] = ([], [])
split_at c (x ∷ xs) = let (l, r) = split_at c xs in if x == c then ([], xs) else (x ∷ l, r)

split_at-append : (c : ℕ) (xs ys : Bytes) → Lacks c xs → split_at c (xs ++ (c ∷ ys)) ≡ (xs, ys)
split_at-append c [] ys l = rw (==_refl c) refl
split_at-append c (x ∷ xs) ys l = rw (==_false x c l.0, split_at-append c xs ys l.1) refl

Lacks-append : (c : ℕ) (xs ys : Bytes) → Lacks c xs → Lacks c ys → Lacks c (xs ++ ys)
Lacks-append c [] ys l m = m
Lacks-append c (x ∷ xs) ys l m = (l.0, Lacks-append c xs ys l.1 m)

-- The parts of a request line, and what follows the line.
abbrev pub RequestLine : Type 0
RequestLine = Bytes × Bytes × Bytes × Bytes

abbrev pub read_request_line : Bytes → RequestLine
read_request_line s =
    let (method, rest) = split_at 32 s in
    let (uri, rest') = split_at 32 rest in
    let (version, rest'') = split_at 13 rest' in (method, uri, version, rest'')

Lacks-if : (b : Bool) (xs ys : Bytes) → Lacks 32 xs → Lacks 32 ys → Lacks 32 (if b then xs else ys)
Lacks-if true xs ys l m = l
Lacks-if false xs ys l m = m

target-Lacks :
    (r : Request) → Lacks 32 r.path → Lacks 32 r.query → Lacks 32 r.fragment → Lacks 32 (target r)
unfolding target
target-Lacks r p q f =
    Lacks-append 32 (if is_empty r.path then codes "/" else r.path) _
      (Lacks-if (is_empty r.path) (codes "/") r.path (omega arith, tt) p)
      (Lacks-append 32 (if is_empty r.query then [] else codes "?" ++ r.query) _
        (Lacks-if (is_empty r.query) [] (codes "?" ++ r.query) tt (omega arith, q))
        (Lacks-if (is_empty r.fragment) [] (codes "#" ++ r.fragment) tt (omega arith, f)))

version-Lacks : (v : ProtoVersion) → Lacks 13 (proto_to_string v)
unfolding proto_to_string
version-Lacks ProtoVersion.unset = tt
version-Lacks ProtoVersion.http11 = ground arith
version-Lacks ProtoVersion.http10 = ground arith
version-Lacks ProtoVersion.http20 = ground arith

-- A request whose target holds no space is sent with a first line from which its method, its target
-- and its protocol are read back, and the fields follow behind the line.
pub read_request_line-serialize :
    (r : Request) (fields : Bytes)
    → serialize r.base ≡ some fields
    → Lacks 32 (method_name r.method)
    → Lacks 32 r.path
    → Lacks 32 r.query
    → Lacks 32 r.fragment
    → (s : Bytes) × (serialize_request r ≡ some s)
      × (read_request_line s
          ≡ (method_name r.method, target r, proto_to_string r.base.protocol, 10 ∷ fields))
unfolding serialize_request
read_request_line-serialize r fields e m p q f = (
  method_name r.method
      ++ (codes " "
          ++ (target r ++ (codes " " ++ (proto_to_string r.base.protocol ++ (crlf ++ fields))))),
  rw (e, serialize_request) refl,
  rw
      (
        split_at-append 32 (method_name r.method) _ m,
        split_at-append 32 (target r) _ (target-Lacks r p q f),
        split_at-append 13 (proto_to_string r.base.protocol) _ (version-Lacks r.base.protocol),
      )
      refl,
)
