-- ===== src/Headers/Reach.antt =====
-- Every sequence of operations on a message, from its construction on.
use doormat.Base.{
  ℕ, ◌≤◌, ◌≡◌, refl, ◌⊎◌, inl, Bool, true, false, Option, none, some, List, [], ◌∷◌, arith, Bytes,
  codes, bytes_eq, bytes_eq_refl, not, ◌||◌, if◌then◌else◌, length, ◌==◌,
}
use doormat.Headers.Store.{Multimap, erase, equal_range, equal_range-erase, IsSorted, KeysFrom}
use doormat.Headers.Number.{to_string}
use doormat.Headers.Laws.{
  IsConsistent, IsWellFormed, Keeps, kept_once, header-Keeps, erase-IsConsistent,
  blank-IsConsistent,
}
use doormat.Headers.{
  StructuredData, ProtoVersion, http11, http10, blank, make, header, remove_header, filter,
  filter_headers, chunk, keep, measure, set_protocol, default_connection, set_date, set_hostname,
  hf_connection, hf_host, hf_content_len, hf_date, hf_transfer_encoding, hv_chunked,
  hv_connection_close, ◌>>=◌, same_version,
}

-- The calls that change the header fields.
pub data Call : Type 0 where
  headers : Bytes → Bytes → Call
  removes : Bytes → Call
  filters : (Bytes × Bytes → Bool) → Call
  chunks : Bool → Call
  keeps : Bool → Call
  measures : ℕ → Call
  protocols : ProtoVersion → Call
  dates : Bytes → Call
  hostnames : Bytes → Call

pub call : StructuredData → Call → Option StructuredData
call d (headers k v) = header d k v
call d (removes k) = some (remove_header d k)
call d (filters p) = some (filter d p)
call d (chunks b) = chunk d b
call d (keeps b) = keep d b
call d (measures n) = measure d n
call d (protocols v) = set_protocol d v
call d (dates v) = set_date d v
call d (hostnames v) = set_hostname d v

pub calls : Option StructuredData → List Call → Option StructuredData
calls m [] = m
calls m (c ∷ cs) = calls (m >>= λ d. call d c) cs

KeysFrom-filter :
    (k : Bytes) (p : Bytes × Bytes → Bool) (m : Multimap)
    → KeysFrom k m
    → KeysFrom k (filter_headers p m)
unfolding filter_headers
KeysFrom-filter k p [] f = tt
KeysFrom-filter k p ((j, v) ∷ m) f = ground (arith, KeysFrom-filter k p m f.1)

filter-IsSorted :
    (p : Bytes × Bytes → Bool) (m : Multimap) → IsSorted m → IsSorted (filter_headers p m)
unfolding filter_headers
filter-IsSorted p [] s = tt
filter-IsSorted p ((j, v) ∷ m) s =
    ground (arith, filter-IsSorted p m s.1, KeysFrom-filter j p m s.0)

-- A name with at most one value keeps it or loses it.
filter_once :
    (s : Bytes) (p : Bytes × Bytes → Bool) (m : Multimap)
    → length (equal_range s m) ≤ 1
    → (equal_range s (filter_headers p m) ≡ [])
      ⊎ (equal_range s (filter_headers p m) ≡ equal_range s m)
unfolding filter_headers equal_range
filter_once s p [] h = inl refl
filter_once s p ((j, v) ∷ m) h = ground (arith, filter_once s p m)

filter-IsConsistent :
    (p : Bytes × Bytes → Bool) (m : Multimap) (n : ℕ)
    → IsConsistent m n
    → IsConsistent (filter_headers p m) n
filter-IsConsistent p m n c = record {
  sorted = filter-IsSorted p m c.sorted;
  once = λ s h. ground (arith, filter_once s p m, c.once s h);
  agrees = λ v e.
      c.agrees v
        (ground (arith, filter_once hf_content_len p m, c.once hf_content_len content_len_once));
}
  where
    content_len_once : kept_once hf_content_len ≡ true
    content_len_once = unfold bytes_eq in refl

-- A later change of flags alone keeps what an operation left.
then_flags :
    (m : Option StructuredData) (f : StructuredData → StructuredData)
    → ((d : StructuredData) → IsWellFormed d → IsWellFormed (f d))
    → Keeps m
    → Keeps (m >>= λ d. some (f d))
then_flags none f h k = tt
then_flags (some d) f h k = h d k

default_connection-Keeps :
    (d : StructuredData) (v : ProtoVersion) → IsWellFormed d → Keeps (default_connection d v)
unfolding default_connection
default_connection-Keeps d http11 w = w
default_connection-Keeps d http10 w =
    then_flags (header d hf_connection hv_connection_close) (λ e. record e { keepalive = false })
      (λ e k. k) (header-Keeps d hf_connection hv_connection_close w)
default_connection-Keeps d v w = w

-- Without a content length among the fields any number agrees with them.
forget_length :
    (m : Multimap) (n n' : ℕ) → IsConsistent m n → IsConsistent (erase hf_content_len m) n'
forget_length m n n' c = record {
  sorted = kept.sorted;
  once = kept.once;
  agrees = λ v e. absurd (gone v e);
}
  where
    kept : IsConsistent (erase hf_content_len m) n
    kept = erase-IsConsistent hf_content_len m n c

    gone : (v : Bytes) → equal_range hf_content_len (erase hf_content_len m) ≡ v ∷ [] → ⊥
    gone v e =
        ground
          (arith, equal_range-erase hf_content_len hf_content_len m, bytes_eq_refl hf_content_len)

Keeps-if : (b : Bool) (x y : Option StructuredData) → Keeps x → Keeps y → Keeps (if b then x else y)
Keeps-if true x y k l = k
Keeps-if false x y k l = l

chunk-Keeps : (d : StructuredData) (b : Bool) → IsWellFormed d → Keeps (chunk d b)
unfolding chunk
chunk-Keeps d true w = Keeps-if d.chunked (some d) _ w (
    then_flags (header d hf_transfer_encoding hv_chunked) (λ e. record e { chunked = true })
      (λ e k. k) (header-Keeps d hf_transfer_encoding hv_chunked w))
chunk-Keeps d false w =
    Keeps-if (not d.chunked) (some d) _ w
      (erase-IsConsistent hf_transfer_encoding d.headers d.content_len w)

measure-Keeps : (d : StructuredData) (n : ℕ) → IsWellFormed d → Keeps (measure d n)
unfolding measure
measure-Keeps d n w =
    Keeps-if (not d.chunked || (n == 0)) _ none
      (header-Keeps _ hf_content_len (to_string n) (forget_length d.headers d.content_len n w)) tt

set_protocol-Keeps :
    (d : StructuredData) (v : ProtoVersion) → IsWellFormed d → Keeps (set_protocol d v)
unfolding set_protocol
set_protocol-Keeps d v w = Keeps-if (same_version d.protocol v) (some d) _ w (
    Keeps-if d.default_keepalive _ (some (record d { protocol = v }))
      (default_connection-Keeps (record d { protocol = v; headers = erase hf_connection d.headers })
        v (erase-IsConsistent hf_connection d.headers d.content_len w))
      w)

-- Each call keeps a message well formed whenever it returns.
pub call-Keeps : (d : StructuredData) (c : Call) → IsWellFormed d → Keeps (call d c)
unfolding call keep set_date set_hostname filter
call-Keeps d (headers k v) w = header-Keeps d k v w
call-Keeps d (removes k) w = erase-IsConsistent k d.headers d.content_len w
call-Keeps d (filters p) w = filter-IsConsistent p d.headers d.content_len w
call-Keeps d (chunks b) w = chunk-Keeps d b w
call-Keeps d (keeps b) w = header-Keeps _ hf_connection _ w
call-Keeps d (measures n) w = measure-Keeps d n w
call-Keeps d (protocols v) w = set_protocol-Keeps d v w
call-Keeps d (dates v) w =
    header-Keeps _ hf_date v (erase-IsConsistent hf_date d.headers d.content_len w)
call-Keeps d (hostnames v) w = header-Keeps d hf_host v w

calls-Keeps : (m : Option StructuredData) (cs : List Call) → Keeps m → Keeps (calls m cs)
unfolding calls
calls-Keeps m [] k = k
calls-Keeps none (c ∷ cs) k = calls-Keeps none cs tt
calls-Keeps (some d) (c ∷ cs) k = calls-Keeps (call d c) cs (call-Keeps d c k)

make-Keeps : Keeps make
unfolding make
make-Keeps =
    then_header (header blank hf_content_len (codes "0"))
      (header-Keeps blank _ _ (blank-IsConsistent 0))
  where
    then_header :
        (m : Option StructuredData)
        → Keeps m
        → Keeps (m >>= λ d. header d hf_connection hv_connection_close)
    then_header none k = tt
    then_header (some d) k = header-Keeps d hf_connection hv_connection_close k

-- A message is well formed after any sequence of calls that returns, from its construction on.
pub calls-make-Keeps : (cs : List Call) → Keeps (calls make cs)
calls-make-Keeps cs = calls-Keeps make cs make-Keeps
