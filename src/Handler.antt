-- ===== src/Handler.antt =====
-- src/protocol/handler_http1.h and http_handler.{h,cpp}: the HTTP/1 handler of a connection, between its
-- connector and the objects its users hold. The handler is a template: what it takes from
-- `handler_traits` is the record Traits, with the server's and the client's in Handler.Sides. Objects
-- are known by numbers and live in two stores; a `weak_ptr` that has expired is a number without an
-- object. `none` is a failed assertion or a step that C++ leaves undefined.
pub mod Sending
pub mod Receiving
pub mod Closing
pub mod Sides
pub mod Pieces
pub mod Output
pub mod Polled
pub mod Sent
pub mod Queue
pub mod Failures
pub mod Awaiting
pub mod Interim
pub mod Decoding
pub mod Current
pub mod Heading
pub mod Trailing
pub mod Delivery
pub mod Reading
pub mod Ending
pub mod Requests
mod Tests
mod Examples
mod ClientExamples
use doormat.Base.{
  ℕ, zero, suc, ◌+◌, ◌&&◌, ◌||◌, Bool, true, false, not, Option, none, some, List, [], ◌∷◌, ◌++◌,
  Bytes, ◌==◌, if◌then◌else◌, length, is_empty,
}
use doormat.Headers.{StructuredData}
use doormat.Codec.{Codec}
use doormat.Connector.{Connector, HttpHandler, do_write}
use doormat.Objects.Local.{Local, LocalState}
use doormat.Objects.Remote.{Trigger, ErrorCode}

-- M is what is received, N what is sent, and R the object that is received into.
pub record Traits (M N R : Type 0) : Type 0 where
  pub remote_base : M → StructuredData
  pub set_remote_base : M → StructuredData → M
  pub blank_remote : Option M
  pub status_code : M → ℕ
  pub new_remote : R
  pub trigger : Trigger M → R → R
  pub ended : R → Bool
  pub local_base : N → StructuredData
  pub serialize_local : N → Option Bytes
  pub continue_message : Option N
  pub get_state : Local N → Local N × LocalState
  pub local_error : Local N → Local N
  pub local_cleared : Local N → Local N

-- The members of the handler, of its connection and of its decoder's callbacks; `errors` are the calls
-- of the connection's error callback, `clears` counts those of `cleared`, `requests` are the pairs of
-- objects given to the user by `user_feedback`, `none` for two null pointers, and `timeouts` counts the timeouts posted.
pub record Core (M N R : Type 0) : Type 0 where
  pub locals : List ℕ
  pub remotes : List ℕ
  pub local_store : ℕ → Option (Local N)
  pub remote_store : ℕ → R
  pub fresh : ℕ
  pub encoder : Codec
  pub current : M
  pub serialization : Bytes
  pub user_close : Bool
  pub decoding_error : Bool
  pub managing_continue : Bool
  pub persistent : Bool
  pub connected : Bool
  pub myself : Bool
  pub pending_clear_callbacks : List ℕ
  pub errors : List ErrorCode
  pub clears : ℕ
  pub requests : List (Option ℕ)
  pub timeouts : ℕ

abbrev pub put {ℓ} : {A : Type ℓ} → ℕ → A → (ℕ → A) → ℕ → A
put id o store j = if j == id then o else store j

abbrev pub is_none_left : List ℕ → Bool
is_none_left [] = true
is_none_left (x ∷ xs) = false

module _ {M N R : Type 0} where
  unfoldable pub on_write : Core M N R → Core M N R × Option Bytes
  on_write c =
      if c.connected && not (is_empty c.serialization)
      then (record c { serialization = [] }, some c.serialization)
      else (c, none)

  abbrev pub should_stop : Core M N R → Bool
  should_stop c = is_none_left c.locals && not c.persistent

  abbrev pub write_feedbacks : Core M N R → Core M N R × List ℕ
  write_feedbacks c = (record c { pending_clear_callbacks = [] }, c.pending_clear_callbacks)

  abbrev pub trigger_timeout_event : Core M N R → Core M N R
  trigger_timeout_event c = record c { timeouts = c.timeouts + 1 }

  -- `start`, up to the registration of the decoder's callbacks, which Handler.Receiving has.
  abbrev pub start : Core M N R → Core M N R × Bool
  start c = (record c { myself = true }, true)

  -- The handler as its connector sees it. A feedback is the number of the object to be told.
  abbrev pub http1 : HttpHandler (Core M N R) ℕ
  http1 = record {
    start_handler = start;
    on_write = on_write;
    should_stop = should_stop;
    write_feedbacks = write_feedbacks;
    trigger_timeout_event = trigger_timeout_event;
  }

  -- `do_write`
  abbrev pub request_write : Connector (Core M N R) ℕ → Connector (Core M N R) ℕ
  request_write s = if s.handler.connected then do_write http1 s else s

  -- `get_user_handlers`; both objects of a pair have the same number.
  unfoldable pub get_user_handlers : Traits M N R → Core M N R → Core M N R × Option ℕ
  get_user_handlers t c =
      if c.connected
      then (
        record c {
          local_store = put c.fresh (some doormat.Objects.Local.make) c.local_store;
          remote_store = put c.fresh (Traits.new_remote t) c.remote_store;
          remotes = c.remotes ++ (c.fresh ∷ []);
          locals = c.locals ++ (c.fresh ∷ []);
          fresh = c.fresh + 1;
        },
        some c.fresh,
      )
      else (c, none)
