-- ===== src/Headers.antt =====
-- src/http/http_structured_data.{h,cpp}: what requests and responses share, a protocol, header fields
-- and the flags derived from them, with the constants of src/http/http_commons.h.
-- `none` is the end of the process: `std::stoull` throws inside a function declared `noexcept`, or an
-- assertion fails. The origin's address is only stored, and is kept as bytes. `type_index`, which
-- tells requests from responses, is the record that holds a value of this type; the member
-- `destination_headers` is never used.
pub mod Store
pub mod Number
pub mod Laws
pub mod Total
pub mod Reach
pub mod Framing
pub mod Serialize
mod Tests
pub use doormat.Base.{◌>>=◌}
use doormat.Base.{
  ℕ, ◌&&◌, ◌||◌, Bool, true, false, not, Option, none, some, List, [], ◌∷◌, ◌++◌, map, Bytes, codes,
  bytes_eq, ◌==◌, if◌then◌else◌, length, is_empty,
}
use doormat.Utils.{tolower, icompare}
use Store.{Multimap, insert, erase, equal_range, find}
use Number.{stoull, to_string}

pub data ProtoVersion : Type 0 where
  unset http11 http10 http20 : ProtoVersion

abbrev pub same_version : ProtoVersion → ProtoVersion → Bool
same_version unset unset = true
same_version http11 http11 = true
same_version http10 http10 = true
same_version http20 http20 = true
same_version _ _ = false

abbrev pub hf_connection : Bytes
hf_connection = codes "connection"

abbrev pub hf_host : Bytes
hf_host = codes "host"

abbrev pub hf_date : Bytes
hf_date = codes "date"

abbrev pub hf_via : Bytes
hf_via = codes "via"

abbrev pub hf_accept_encoding : Bytes
hf_accept_encoding = codes "accept-encoding"

abbrev pub hf_content_len : Bytes
hf_content_len = codes "content-length"

abbrev pub hf_transfer_encoding : Bytes
hf_transfer_encoding = codes "transfer-encoding"

abbrev pub hv_keepalive : Bytes
hv_keepalive = codes "keep-alive"

abbrev pub hv_connection_close : Bytes
hv_connection_close = codes "close"

abbrev pub hv_chunked : Bytes
hv_chunked = codes "Chunked"

abbrev pub crlf : Bytes
crlf = 13 ∷ 10 ∷ []

pub record StructuredData : Type 0 where
  pub protocol : ProtoVersion
  pub channel : ProtoVersion
  pub headers : Multimap
  pub chunked : Bool
  pub keepalive : Bool
  pub default_keepalive : Bool
  pub content_len : ℕ
  pub origin : Bytes

-- The members as they are before the two calls of `header` in the constructor.
abbrev pub blank : StructuredData
blank = record {
  protocol = unset;
  channel = unset;
  headers = [];
  chunked = false;
  keepalive = false;
  default_keepalive = true;
  content_len = 0;
  origin = [];
}

abbrev pub remove_header : StructuredData → Bytes → StructuredData
remove_header d key = record d { headers = erase key d.headers }

-- `_headers.insert`
abbrev pub add : StructuredData → Bytes → Bytes → StructuredData
add d key value = record d { headers = insert key value d.headers }

-- The names of which a message keeps the last value only.
abbrev pub is_single : Bytes → Bool
is_single key =
    bytes_eq key hf_connection
    || (bytes_eq key hf_host || (bytes_eq key hf_via || bytes_eq key hf_accept_encoding))

-- The branch for a content length.
unfoldable pub set_length : StructuredData → Bytes → Option StructuredData
set_length d value = elim (stoull value) [
  | none ↦ none
  | some n ↦
      some (add (remove_header (record d { content_len = n }) hf_content_len) hf_content_len value)
]

-- The branch for a chunked transfer encoding.
pub set_chunked : StructuredData → Bytes → StructuredData
set_chunked d value =
    add
      (remove_header (remove_header (record d { chunked = true }) hf_transfer_encoding)
        hf_content_len)
      hf_transfer_encoding value

-- `header(key, value)`, for a key in lower case.
unfoldable pub header_lower : StructuredData → Bytes → Bytes → Option StructuredData
header_lower d key value =
    if is_single key
    then some (add (remove_header d key) key value)
    else if bytes_eq key hf_content_len
    then set_length d value
    else if bytes_eq key hf_transfer_encoding && icompare value (codes "chunked")
    then some (set_chunked d value)
    else some (add d key value)

unfoldable pub header : StructuredData → Bytes → Bytes → Option StructuredData
header d key value = header_lower d (map tolower key) value

-- The constructor.
unfoldable pub make : Option StructuredData
make = header blank hf_content_len (codes "0") >>= λ d. header d hf_connection hv_connection_close

-- `header(key) const`: the first value, or the empty string.
unfoldable pub get_header : StructuredData → Bytes → Bytes
get_header d key = elim (find key d.headers) [ none ↦ [] | some v ↦ v ]

-- `headers(key) const`
unfoldable get_headers : StructuredData → Bytes → List Bytes
get_headers d key = equal_range key d.headers

unfoldable pub has : StructuredData → Bytes → Bool
has d key = not (is_empty (get_header d key))

any_value : (Bytes → Bool) → List Bytes → Bool
any_value pred [] = false
any_value pred (v ∷ vs) = pred v || any_value pred vs

-- `has(key, pred)`; `has(key, val)` is the instance with `==`.
unfoldable has_value : StructuredData → Bytes → (Bytes → Bool) → Bool
unfolding any_value
has_value d key pred = any_value pred (equal_range key d.headers)

unfoldable pub filter_headers : (Bytes × Bytes → Bool) → Multimap → Multimap
filter_headers predicate [] = []
filter_headers predicate (h ∷ m) =
    if predicate h then filter_headers predicate m else h ∷ filter_headers predicate m

-- `filter` removes what the predicate holds of.
unfoldable pub filter : StructuredData → (Bytes × Bytes → Bool) → StructuredData
filter d predicate = record d { headers = filter_headers predicate d.headers }

-- `chunked(val)`
pub chunk : StructuredData → Bool → Option StructuredData
chunk d val =
    if (if val then d.chunked else not d.chunked)
    then some d
    else (if val
        then header d hf_transfer_encoding hv_chunked
        else some (remove_header d hf_transfer_encoding))
      >>= λ e. some (record e { chunked = val })

-- `keepalive(val)`
unfoldable pub keep : StructuredData → Bool → Option StructuredData
keep d val =
    header (record d { keepalive = val; default_keepalive = false }) hf_connection
      (if val then hv_keepalive else hv_connection_close)

-- `content_len(val)`
pub measure : StructuredData → ℕ → Option StructuredData
measure d val =
    if not d.chunked || (val == 0)
    then header (remove_header (record d { content_len = val }) hf_content_len) hf_content_len
        (to_string val)
    else none

unfoldable pub default_connection : StructuredData → ProtoVersion → Option StructuredData
default_connection d http11 = some (record d { keepalive = true })
default_connection d http10 =
    header d hf_connection hv_connection_close >>= λ e. some (record e { keepalive = false })
default_connection d _ = some d

-- `protocol(val)`
unfoldable pub set_protocol : StructuredData → ProtoVersion → Option StructuredData
set_protocol d val =
    if same_version d.protocol val
    then some d
    else if d.default_keepalive
    then default_connection (remove_header (record d { protocol = val }) hf_connection) val
    else some (record d { protocol = val })

pub set_date : StructuredData → Bytes → Option StructuredData
set_date d val = header (remove_header d hf_date) hf_date val

pub set_hostname : StructuredData → Bytes → Option StructuredData
set_hostname d val = header d hf_host val

-- `proto_to_string`
unfoldable pub proto_to_string : ProtoVersion → Bytes
proto_to_string http10 = codes "HTTP/1.0"
proto_to_string http11 = codes "HTTP/1.1"
proto_to_string http20 = codes "HTTP/2.0"
proto_to_string unset = []

unfoldable pub same_headers : Multimap → Multimap → Bool
same_headers [] [] = true
same_headers [] (_ ∷ _) = false
same_headers (_ ∷ _) [] = false
same_headers ((j, v) ∷ m) ((k, w) ∷ n) = bytes_eq j k && bytes_eq v w && same_headers m n

unfoldable pub same_bool : Bool → Bool → Bool
same_bool true b = b
same_bool false b = not b

-- `operator==`
unfoldable pub equal : StructuredData → StructuredData → Bool
equal d e =
    same_headers d.headers e.headers
    && same_version d.protocol e.protocol
    && same_version d.channel e.channel
    && same_bool d.chunked e.chunked
    && same_bool d.keepalive e.keepalive
    && (d.content_len == e.content_len)

-- The loop of `serialize`, behind an entry with the key `last_key`.
unfoldable pub serialize_rest : Bytes → Multimap → Bytes
serialize_rest last_key [] = []
serialize_rest last_key ((j, v) ∷ m) =
    (if bytes_eq j last_key
      then (if bytes_eq j (codes "cookie") then codes "; " else codes ", ")
      else crlf ++ (j ++ codes ": "))
    ++ (v ++ serialize_rest j m)

abbrev pub last_key : Bytes → Multimap → Bytes
last_key k [] = k
last_key k ((j, v) ∷ m) = last_key j m

unfoldable pub serialize : StructuredData → Option Bytes
serialize d = elim d.headers [
  | [] ↦ none
  | (j, v) ∷ m ↦ some (
      j
      ++ (codes ": "
          ++ (v
              ++ (serialize_rest j m ++ ((if is_empty (last_key j m) then [] else crlf) ++ crlf)))))
]
