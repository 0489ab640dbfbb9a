-- ===== src/Objects/ClientResponse.antt =====
-- `client_response`, in src/http/client/response.{h,cpp}. It posts an event only if its user has set a
-- callback for it, and it takes note of its end only when the io_service runs what was posted.
use doormat.Base.{
  ◌≡◌, Bool, true, false, Option, none, some, List, [], ◌∷◌, ◌++◌, if◌then◌else◌, append_assoc,
  append-nil, sym, ap, ◌∙◌,
}
use doormat.Objects.Remote.{
  Trigger, headers, body, trailer, finished, response_continue, error, ErrorCode, success,
  RemoteEvent, headers_event, body_event, trailer_event, finished_event, error_event,
  continue_event, is_terminal,
}

-- Which callbacks are set.
pub record Callbacks : Type 0 where
  pub on_headers : Bool
  pub on_body : Bool
  pub on_trailer : Bool
  pub on_finished : Bool
  pub on_response_continue : Bool
  pub on_error : Bool

-- `delivered` are the callbacks that have run, oldest first.
pub record ClientResponse {ℓ} (M : Type ℓ) : Type ℓ where
  pub message : Option M
  pub callbacks : Callbacks
  pub response_ended : Bool
  pub conn_error : ErrorCode
  pub posted : List RemoteEvent
  pub delivered : List RemoteEvent

module _ {ℓ} {M : Type ℓ} where
  abbrev pub make : Callbacks → ClientResponse M
  make callbacks = record {
    message = none;
    callbacks = callbacks;
    response_ended = false;
    conn_error = success;
    posted = [];
    delivered = [];
  }

  abbrev pub post_if : Bool → RemoteEvent → ClientResponse M → ClientResponse M
  post_if set e o = if set then record o { posted = o.posted ++ (e ∷ []) } else o

  unfoldable pub trigger : Trigger M → ClientResponse M → ClientResponse M
  trigger (headers m) o =
      post_if o.callbacks.on_headers headers_event (record o { message = some m })
  trigger (body d) o = post_if o.callbacks.on_body (body_event d) o
  trigger (trailer k v) o = post_if o.callbacks.on_trailer (trailer_event k v) o
  trigger finished o =
      if o.response_ended then o else post_if o.callbacks.on_finished finished_event o
  trigger response_continue o =
      if o.response_ended then o else post_if o.callbacks.on_response_continue continue_event o
  trigger (error e) o =
      if o.response_ended
      then o
      else post_if o.callbacks.on_error error_event (record o { conn_error = e })

  -- The io_service runs a posted callback.
  abbrev pub deliver : RemoteEvent → ClientResponse M → ClientResponse M
  deliver e o = record o {
    delivered = o.delivered ++ (e ∷ []);
    response_ended = if is_terminal e then true else o.response_ended;
  }

  abbrev pub deliver_all : List RemoteEvent → ClientResponse M → ClientResponse M
  deliver_all [] o = o
  deliver_all (e ∷ es) o = deliver_all es (deliver e o)

  -- It runs all that is posted.
  unfoldable pub run : ClientResponse M → ClientResponse M
  run o = deliver_all o.posted (record o { posted = [] })

  deliver_all-delivered :
      (es : List RemoteEvent) (o : ClientResponse M)
      → (deliver_all es o).delivered ≡ o.delivered ++ es
  deliver_all-delivered [] o = sym (append-nil o.delivered)
  deliver_all-delivered (e ∷ es) o =
      deliver_all-delivered es (deliver e o) ∙ append_assoc o.delivered (e ∷ []) es

  -- A message that finishes and then fails, before the io_service runs, reports both to its user.
  pub run-finished_error :
      (o : ClientResponse M) (e : ErrorCode)
      → o.response_ended ≡ false
      → o.callbacks.on_finished ≡ true
      → o.callbacks.on_error ≡ true
      → (run (trigger (error e) (trigger finished o))).delivered
        ≡ o.delivered ++ (o.posted ++ (finished_event ∷ error_event ∷ []))
  unfolding run trigger
  run-finished_error o e n f x =
      rw (n, f, x)
        (deliver_all-delivered ((o.posted ++ (finished_event ∷ [])) ++ (error_event ∷ [])) _
          ∙ ap (λ l. o.delivered ++ l)
              (append_assoc o.posted (finished_event ∷ []) (error_event ∷ [])))
