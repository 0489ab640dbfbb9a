-- ===== src/Messages.antt =====
-- src/http/http_request.{h,cpp} and http_response.{h,cpp}. A method is its number in `enum
-- http_method` of http_parser.h, whose names http_request.cpp takes from HTTP_METHOD_MAP; 33 is `END`.
-- `_params` is an association list.
pub mod Method
pub mod Lines
pub mod Equality
mod Tests
use doormat.Base.{
  ℕ, zero, suc, ◌+◌, ◌%◌, ◌^◌, ◌&&◌, ◌||◌, Bool, true, false, not, Option, none, some, List, [],
  ◌∷◌, ◌++◌, Bytes, codes, bytes_eq, ◌==◌, if◌then◌else◌, is_empty,
}
use doormat.Headers.Number.{to_string}
use doormat.Headers.{StructuredData, serialize, equal, proto_to_string, crlf}

pub record Request : Type 0 where
  pub base : StructuredData
  pub ssl : Bool
  pub method : ℕ
  pub schema : Bytes
  pub urihost : Bytes
  pub port : Bytes
  pub path : Bytes
  pub query : Bytes
  pub fragment : Bytes
  pub userinfo : Bytes
  pub params : List (Bytes × Bytes)

-- The constructor, on the base that `Headers.make` returns.
abbrev pub make_request : StructuredData → Bool → ℕ → Request
make_request base ssl method = record {
  base = base;
  ssl = ssl;
  method = method;
  schema = [];
  urihost = [];
  port = [];
  path = [];
  query = [];
  fragment = [];
  userinfo = [];
  params = [];
}

-- `method_mapper`, without its last entry "NONE".
abbrev pub method_names : List Bytes
method_names =
    codes "DELETE"
    ∷ codes "GET"
    ∷ codes "HEAD"
    ∷ codes "POST"
    ∷ codes "PUT"
    ∷ codes "CONNECT"
    ∷ codes "OPTIONS"
    ∷ codes "TRACE"
    ∷ codes "COPY"
    ∷ codes "LOCK"
    ∷ codes "MKCOL"
    ∷ codes "MOVE"
    ∷ codes "PROPFIND"
    ∷ codes "PROPPATCH"
    ∷ codes "SEARCH"
    ∷ codes "UNLOCK"
    ∷ codes "BIND"
    ∷ codes "REBIND"
    ∷ codes "UNBIND"
    ∷ codes "ACL"
    ∷ codes "REPORT"
    ∷ codes "MKACTIVITY"
    ∷ codes "CHECKOUT"
    ∷ codes "MERGE"
    ∷ codes "MSEARCH"
    ∷ codes "NOTIFY"
    ∷ codes "SUBSCRIBE"
    ∷ codes "UNSUBSCRIBE"
    ∷ codes "PATCH"
    ∷ codes "PURGE"
    ∷ codes "MKCALENDAR"
    ∷ codes "LINK"
    ∷ codes "UNLINK"
    ∷ []

abbrev pub method_end : ℕ
method_end = 33

pub name_at : List Bytes → ℕ → Bytes
name_at [] n = codes "NONE"
name_at (s ∷ names) zero = s
name_at (s ∷ names) (suc n) = name_at names n

-- `method() const`
pub method_name : ℕ → Bytes
method_name m = name_at method_names m

-- The loop of `method(val)` from the number `first` on.
unfoldable pub method_loop : List Bytes → ℕ → Bytes → ℕ
method_loop [] first val = method_end
method_loop (s ∷ names) first val =
    if bytes_eq s val then first else method_loop names (suc first) val

unfoldable pub find_method : Bytes → ℕ
find_method val = method_loop method_names 0 val

-- `method(val)`
unfoldable pub set_method : Request → Bytes → Request
set_method r val = record r { method = find_method val }

-- The target of the request line.
unfoldable pub target : Request → Bytes
target r =
    (if is_empty r.path then codes "/" else r.path)
    ++ ((if is_empty r.query then [] else codes "?" ++ r.query)
        ++ (if is_empty r.fragment then [] else codes "#" ++ r.fragment))

unfoldable pub serialize_request : Request → Option Bytes
serialize_request r = elim (serialize r.base) [
  | none ↦ none
  | some rest ↦ some (
      method_name r.method
      ++ (codes " "
          ++ (target r ++ (codes " " ++ (proto_to_string r.base.protocol ++ (crlf ++ rest))))))
]

unfoldable equal_request : Request → Request → Bool
equal_request r s =
    equal r.base s.base
    && (r.method == s.method)
    && bytes_eq r.urihost s.urihost
    && bytes_eq r.port s.port
    && bytes_eq r.path s.path
    && bytes_eq r.query s.query
    && bytes_eq r.fragment s.fragment
    && bytes_eq r.userinfo s.userinfo

abbrev set_param : Bytes → Bytes → List (Bytes × Bytes) → List (Bytes × Bytes)
set_param k v [] = (k, v) ∷ []
set_param k v ((j, w) ∷ ps) = if bytes_eq j k then (k, v) ∷ ps else (j, w) ∷ set_param k v ps

abbrev erase_param : Bytes → List (Bytes × Bytes) → List (Bytes × Bytes)
erase_param k [] = []
erase_param k ((j, w) ∷ ps) = if bytes_eq j k then erase_param k ps else (j, w) ∷ erase_param k ps

abbrev find_param : Bytes → List (Bytes × Bytes) → Option Bytes
find_param k [] = none
find_param k ((j, w) ∷ ps) = if bytes_eq j k then some w else find_param k ps

unfoldable set_parameter : Request → Bytes → Bytes → Request
set_parameter r k v = record r { params = set_param k v r.params }

unfoldable remove_parameter : Request → Bytes → Request
remove_parameter r k = record r { params = erase_param k r.params }

unfoldable has_parameter : Request → Bytes → Bool
has_parameter r k = elim (find_param k r.params) [ none ↦ false | some v ↦ true ]

-- `none` is the failed assertion.
unfoldable get_parameter : Request → Bytes → Option Bytes
get_parameter r k = find_param k r.params

pub record Response : Type 0 where
  pub base : StructuredData
  pub status_code : ℕ
  pub status_message : Bytes

abbrev pub status_messages : List (ℕ × Bytes)
status_messages =
    (100, codes "Continue")
    ∷ (101, codes "Switching Protocols")
    ∷ (200, codes "OK")
    ∷ (201, codes "Created")
    ∷ (202, codes "Accepted")
    ∷ (203, codes "Non-Authoritative Information")
    ∷ (204, codes "No Content")
    ∷ (205, codes "Reset Content")
    ∷ (206, codes "Partial Content")
    ∷ (300, codes "Multiple Choices")
    ∷ (301, codes "Moved Permanently")
    ∷ (302, codes "Found")
    ∷ (303, codes "See Other")
    ∷ (304, codes "Not Modified")
    ∷ (305, codes "Use Proxy")
    ∷ (307, codes "Temporary Redirect")
    ∷ (400, codes "Bad Request")
    ∷ (401, codes "Unauthorized")
    ∷ (402, codes "Payment Required")
    ∷ (403, codes "Forbidden")
    ∷ (404, codes "Not Found")
    ∷ (405, codes "Method Not Allowed")
    ∷ (406, codes "Not Acceptable")
    ∷ (407, codes "Proxy Authentication Required")
    ∷ (408, codes "Request Timeout")
    ∷ (409, codes "Conflict")
    ∷ (410, codes "Gone")
    ∷ (411, codes "Length Required")
    ∷ (412, codes "Precondition Failed")
    ∷ (413, codes "Request Entity Too Large")
    ∷ (414, codes "Request-URI Too Long")
    ∷ (415, codes "Unsupported Media Type")
    ∷ (416, codes "Requested Range Not Satisfiable")
    ∷ (417, codes "Expectation Failed")
    ∷ (418, codes "I'm a teapot")
    ∷ (500, codes "Internal Server Error")
    ∷ (501, codes "Not Implemented")
    ∷ (502, codes "Bad Gateway")
    ∷ (503, codes "Service Unavailable")
    ∷ (504, codes "Gateway Timeout")
    ∷ (505, codes "HTTP Version Not Supported")
    ∷ []

unfoldable pub message_in : List (ℕ × Bytes) → ℕ → Bytes
message_in [] status = codes "Damn!"
message_in ((n, s) ∷ rest) status = if n == status then s else message_in rest status

unfoldable pub get_default_message : ℕ → Bytes
unfolding message_in
get_default_message status = message_in status_messages status

-- `status(val)`; the argument is a `uint16_t`.
unfoldable pub set_status : Response → ℕ → Response
set_status r val = record r {
  status_code = val % 2 ^ 16;
  status_message = get_default_message (val % 2 ^ 16);
}

-- `status(code, msg)`
unfoldable pub set_status_message : Response → ℕ → Bytes → Response
set_status_message r code msg = record r { status_code = code % 2 ^ 16; status_message = msg }

unfoldable pub serialize_response : Response → Option Bytes
serialize_response r = elim (serialize r.base) [
  | none ↦ none
  | some rest ↦ some (
      proto_to_string r.base.protocol
      ++ (codes " "
          ++ (to_string r.status_code ++ (codes " " ++ (r.status_message ++ (crlf ++ rest))))))
]

-- `operator==` of http_response.
pub equal_response : Response → Response → Bool
equal_response r s =
    equal r.base s.base
    && (r.status_code == s.status_code)
    && bytes_eq r.status_message s.status_message

-- `operator!=` of http_response, with the comparison of the messages as it is written.
pub differ_response : Response → Response → Bool
differ_response r s =
    not (s.status_code == r.status_code)
    || bytes_eq r.status_message s.status_message
    || not (equal r.base s.base)
