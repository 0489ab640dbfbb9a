-- ===== src/Messages/Equality.antt =====
-- The comparisons of two responses.
use doormat.Base.{◌≡◌, refl, Bool, true, [], ◌∷◌, arith, bytes_eq_refl, ==_refl}
use doormat.Headers.Store.{Multimap}
use doormat.Headers.{StructuredData, ProtoVersion, equal, same_headers, same_bool, same_version}
use doormat.Messages.{Response, equal_response, differ_response}

same_headers_refl : (m : Multimap) → same_headers m m ≡ true
unfolding same_headers
same_headers_refl [] = refl
same_headers_refl ((k, v) ∷ m) =
    ground (arith, bytes_eq_refl k, bytes_eq_refl v, same_headers_refl m)

same_version_refl : (v : ProtoVersion) → same_version v v ≡ true
same_version_refl v = ground arith

same_bool_refl : (b : Bool) → same_bool b b ≡ true
unfolding same_bool
same_bool_refl b = ground arith

pub equal_refl : (d : StructuredData) → equal d d ≡ true
unfolding equal
equal_refl d = ground (
  arith,
  same_headers_refl d.headers,
  same_version_refl d.protocol,
  same_version_refl d.channel,
  same_bool_refl d.chunked,
  same_bool_refl d.keepalive,
  ==_refl d.content_len,
)

-- Every response is equal to itself by `==`, and differs from itself by `!=`: the two operators are
-- not each other's negation, since `!=` takes equal messages for a difference.
pub differ_response_refl :
    (r : Response) → (equal_response r r ≡ true) × (differ_response r r ≡ true)
unfolding equal_response differ_response
differ_response_refl r =
    ground (arith, equal_refl r.base, ==_refl r.status_code, bytes_eq_refl r.status_message)
