-- ===== src/Objects/Local.antt =====
-- The objects that are sent from: `response` of a server and `client_request` of a client, with
-- messages of type N. A client's request has no `continue_required`, which stays false in it.
use doormat.Base.{
  Bool, true, false, Option, none, some, List, [], ◌∷◌, ◌++◌, Bytes, if◌then◌else◌, is_empty,
}

pub data LocalEvent : Type 0 where
  error_callback write_callback : LocalEvent

pub record Local {ℓ} (N : Type ℓ) : Type ℓ where
  pub message : Option N
  pub content : Bytes
  pub trailers : List (Bytes × Bytes)
  pub ended : Bool
  pub continue_required : Bool
  pub has_error_callback : Bool
  pub has_write_callback : Bool
  pub myself : Bool
  pub posted : List LocalEvent

-- `state` of both classes; a client's has no `send_continue`.
pub data LocalState : Type 0 where
  send_continue pending headers_received body_received trailer_received all_ended : LocalState

module _ {ℓ} {N : Type ℓ} where
  abbrev pub make : Local N
  make = record {
    message = none;
    content = [];
    trailers = [];
    ended = false;
    continue_required = false;
    has_error_callback = false;
    has_write_callback = false;
    myself = false;
    posted = [];
  }

  -- What `hcb`, `bcb`, `tcb` and `ccb` of the first constructor keep, before each calls
  -- `content_notification`.
  unfoldable pub put_headers : N → Local N → Local N
  put_headers m o = record o { message = some m }

  unfoldable pub put_body : Bytes → Local N → Local N
  put_body d o = record o { content = o.content ++ d }

  unfoldable pub put_trailer : Bytes → Bytes → Local N → Local N
  put_trailer k v o = record o { trailers = o.trailers ++ ((k, v) ∷ []) }

  unfoldable pub put_end : Local N → Local N
  put_end o = record o { ended = true }

  unfoldable pub put_continue : Local N → Local N
  put_continue o = record o { continue_required = true }

  abbrev pub content_state : Local N → LocalState
  content_state o = elim o.message [
    | some m ↦ headers_received
    | none ↦
        if is_empty o.content
        then (if is_empty o.trailers
            then (if o.ended then all_ended else pending)
            else trailer_received)
        else body_received
  ]

  -- `response::get_state`
  abbrev pub get_state : Local N → Local N × LocalState
  get_state o =
      if o.continue_required
      then (record o { continue_required = false }, send_continue)
      else (o, content_state o)

  -- `client_request::get_state`
  abbrev pub client_state : Local N → Local N × LocalState
  client_state o = (o, content_state o)

  -- `preamble`, `get_body` and `get_trailer`; `none` is a read of what is not there.
  abbrev pub preamble : Local N → Option (Local N × N)
  preamble o = elim o.message [ none ↦ none | some m ↦ some (record o { message = none }, m) ]

  abbrev pub get_body : Local N → Local N × Bytes
  get_body o = (record o { content = [] }, o.content)

  abbrev pub get_trailer : Local N → Option (Local N × (Bytes × Bytes))
  get_trailer o = elim o.trailers [ [] ↦ none | t ∷ ts ↦ some (record o { trailers = ts }, t) ]

  abbrev pub notify : Bool → LocalEvent → Local N → Local N
  notify set event o = if set then record o { posted = o.posted ++ (event ∷ []) } else o

  -- `response::error` and `response::cleared`
  unfoldable pub error : Local N → Local N
  error o = record (notify o.has_error_callback error_callback (record o { ended = true })) {
    myself = false;
  }

  unfoldable pub cleared : Local N → Local N
  cleared o = record (notify o.has_write_callback write_callback (record o { ended = true })) {
    myself = false;
  }

  -- `client_request::error` and `client_request::cleared`
  unfoldable pub client_error : Local N → Local N
  client_error o = record (notify o.has_error_callback error_callback o) { myself = false }

  unfoldable pub client_cleared : Local N → Local N
  client_cleared o = record (notify o.has_write_callback write_callback o) { myself = false }
