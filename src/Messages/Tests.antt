-- ===== src/Messages/Tests.antt =====
-- The theorems on requests and responses at short messages.
use doormat.Base.{◌≡◌, refl, false, some, [], ◌∷◌, ◌++◌, arith, Bytes, codes}
use doormat.Headers.{StructuredData, http11, blank, serialize, serialize_rest, proto_to_string}
use doormat.Messages.{
  Request, Response, make_request, method_name, name_at, target, serialize_request,
}
use doormat.Messages.Lines.{read_request_line, read_request_line-serialize}

abbrev one_field : StructuredData
one_field = record blank { protocol = http11; headers = (codes "host", codes "a") ∷ [] }

abbrev get_index : Request
get_index = record (make_request one_field false 1) { path = codes "/i"; query = codes "q" }

read_request_line-serialize_example :
    (s : Bytes) × (serialize_request get_index ≡ some s)
    × (read_request_line s ≡ (
      method_name 1,
      target get_index,
      proto_to_string http11,
      10 ∷ codes "host: a" ++ (13 ∷ 10 ∷ 13 ∷ 10 ∷ []),
    ))
unfolding serialize serialize_rest method_name name_at
read_request_line-serialize_example =
    read_request_line-serialize get_index (codes "host: a" ++ (13 ∷ 10 ∷ 13 ∷ 10 ∷ [])) refl
      (omega arith, (omega arith, (omega arith, tt))) (omega arith, (omega arith, tt))
      (omega arith, tt) tt

abbrev found : Response
found = record { base = one_field; status_code = 302; status_message = codes "Found" }
