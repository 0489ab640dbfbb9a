-- ===== src/Handler/Sides.antt =====
-- The two sides that the HTTP/1 handler is instantiated for: src/http/server/server_traits.h and
-- src/http/client/client_traits.h.
use doormat.Base.{ℕ, false, Option, none, some, []}
use doormat.Headers.{StructuredData, http11, set_protocol, ◌>>=◌}
use doormat.Headers
use doormat.Messages.{
  Request, Response, make_request, set_status, serialize_request, serialize_response,
}
use doormat.Objects.Local.{get_state, client_state, error, cleared, client_error, client_cleared}
use doormat.Objects.Remote.{Remote}
use doormat.Objects.Remote
use doormat.Objects.ClientResponse.{ClientResponse, Callbacks}
use doormat.Objects.ClientResponse
use doormat.Handler.{Traits}

-- A response as its constructor makes it. It leaves the status code unset, which is `code`.
abbrev pub new_response : ℕ → Option Response
new_response code =
    doormat.Headers.make >>= λ d. some record { base = d; status_code = code; status_message = [] }

-- The response of `send_continue`.
unfoldable pub continue_response : Option Response
continue_response = new_response 0 >>= λ r.
    set_protocol r.base http11 >>= λ d. some (set_status (record r { base = d }) 100)

-- The constructor of a request with its default arguments.
abbrev pub new_request : Option Request
new_request = doormat.Headers.make >>= λ d. some (make_request d false 1)

abbrev pub server : Traits Request Response (Remote Request)
server = record {
  remote_base = λ m. m.base;
  set_remote_base = λ m d. record m { base = d };
  blank_remote = new_request;
  status_code = λ m. 0;
  new_remote = doormat.Objects.Remote.make;
  trigger = doormat.Objects.Remote.trigger;
  ended = λ o. o.terminated;
  local_base = λ n. n.base;
  serialize_local = serialize_response;
  continue_message = continue_response;
  get_state = get_state;
  local_error = error;
  local_cleared = cleared;
}

-- `callbacks` are those that the user sets on a new response.
abbrev pub client : Callbacks → ℕ → Traits Response Request (ClientResponse Response)
client callbacks code = record {
  remote_base = λ m. m.base;
  set_remote_base = λ m d. record m { base = d };
  blank_remote = new_response code;
  status_code = λ m. m.status_code;
  new_remote = doormat.Objects.ClientResponse.make callbacks;
  trigger = doormat.Objects.ClientResponse.trigger;
  ended = λ o. o.response_ended;
  local_base = λ n. n.base;
  serialize_local = serialize_request;
  continue_message = none;
  get_state = client_state;
  local_error = client_error;
  local_cleared = client_cleared;
}
