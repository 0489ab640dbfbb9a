-- ===== src/Alpn.antt =====
-- The choice of a protocol in a TLS handshake: src/network/communicator/dns_communicator_factory.cpp,
-- where a client chooses among what the server offers and reads what was chosen, and
-- src/protocol/handler_factory.cpp, where a server does. A pointer into the offer is the rest of the
-- offer behind it. What OpenSSL returns as the protocol chosen is an argument, `none` for a null
-- pointer.
pub mod Offer
pub mod Agreement
mod Tests
use doormat.Base.{
  ℕ, zero, suc, ◌+◌, ◌-◌, ◌%◌, ◌^◌, ◌&&◌, ◌||◌, Bool, true, false, Option, none, some, List, [],
  ◌∷◌, ◌++◌, Bytes, codes, bytes_eq, leb, ◌==◌, if◌then◌else◌, length, take, drop, get_elem?,
}
use doormat.Utils.{equal, same}
use doormat.Headers.{ProtoVersion, http11, http10, http20}

abbrev pub h2 : Bytes
h2 = codes "h2"

abbrev pub h2_16 : Bytes
h2_16 = codes "h2-16"

abbrev pub h2_14 : Bytes
h2_14 = codes "h2-14"

abbrev pub http_1_1 : Bytes
http_1_1 = codes "http/1.1"

abbrev pub http_1_0 : Bytes
http_1_0 = codes "http/1.0"

-- A name behind its length, as in the constants of both files.
abbrev pub prefixed : Bytes → Bytes
prefixed name = length name ∷ name

-- The loop of `select_proto` from the pointer on, for a key that is not empty. The result is what
-- `out` and `outlen` are set to.
unfoldable pub select_loop : ℕ → Bytes → Bytes → Option Bytes
select_loop zero p key = none
select_loop (suc fuel) [] key = none
select_loop (suc fuel) (n ∷ p) key =
    let rest = select_loop fuel (drop n p) key in
    if leb (length key) (suc (length p))
    then (if bytes_eq key (take (length key) (n ∷ p)) then some (take n p) else rest)
    else none

-- Each round passes at least one byte of the offer.
unfoldable pub select_proto : Bytes → Bytes → Option Bytes
select_proto offer key = select_loop (suc (length offer)) offer key

-- `a || b` on two results.
abbrev pub or_else : Option Bytes → Option Bytes → Option Bytes
or_else none b = b
or_else (some a) b = some a

unfoldable pub select_h2 : Bytes → Option Bytes
select_h2 offer =
    or_else (select_proto offer (prefixed h2))
      (or_else (select_proto offer (prefixed h2_16)) (select_proto offer (prefixed h2_14)))

unfoldable pub select_h1 : Bytes → Option Bytes
select_h1 offer =
    or_else (select_proto offer (prefixed http_1_1)) (select_proto offer (prefixed http_1_0))

-- `none` is `SSL_TLSEXT_ERR_NOACK`.
unfoldable pub client_select_next_proto_cb : Bytes → Option Bytes
client_select_next_proto_cb offer = or_else (select_h2 offer) (select_h1 offer)

-- What a client offers itself.
abbrev pub get_default_alpn : Bytes
get_default_alpn =
    prefixed h2 ++ (prefixed h2_16 ++ (prefixed h2_14 ++ (prefixed http_1_1 ++ prefixed http_1_0)))

-- `chose_protocol`, on the protocol that ALPN or else NPN has chosen, empty for none.
unfoldable pub chose_protocol : Bytes → ProtoVersion
chose_protocol proto =
    if leb 2 (length proto) && bytes_eq (take 2 proto) h2
    then http20
    else if bytes_eq proto http_1_1
    then http11
    else http10

pub data HandlerType : Type 0 where
  ht_h1 ht_h2 : HandlerType

-- The type and the version in `negotiate_handler`; a protocol of length 0 with a pointer that is not
-- null is read before its first byte, which is `none`.
abbrev pub type_of : ℕ → HandlerType
type_of len = if len == 2 || (len == 3 || len == 5) then ht_h2 else ht_h1

abbrev pub version_of : HandlerType → Option Bytes → Option ProtoVersion
version_of ht_h2 proto = some http20
version_of ht_h1 none = some http10
version_of ht_h1 (some proto) = elim (get_elem? proto (length proto - 1)) [
  | none ↦ none
  | some last ↦ if last == 48 then some http10 else some http11
]

abbrev pub length_of : Option Bytes → ℕ
length_of none = 0
length_of (some proto) = length proto

unfoldable pub negotiate_handler : Option Bytes → HandlerType × Option ProtoVersion
negotiate_handler proto = let type = type_of (length_of proto) in (type, version_of type proto)
