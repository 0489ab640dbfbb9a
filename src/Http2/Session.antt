-- ===== src/Http2/Session.antt =====
-- src/http2/session.{h,cpp}: the session of a server, which knows the streams that are alive and hands
-- what nghttp2 wants to send to the connector. nghttp2 is the record Nghttp2, whose memory is taken to
-- suffice; a stream is known by a number, its address. `none` is a failed assertion or a stream that is
-- not there.
use doormat.Base.{
  ℕ, suc, ◌+◌, ◌≡◌, ◌&&◌, Bool, true, false, not, Option, none, some, List, [], ◌∷◌, ◌++◌, map,
  Bytes, ◌==◌, if◌then◌else◌,
}
use doormat.Headers.{◌>>=◌}
use doormat.Connector.{HttpHandler}
use doormat.Objects.Remote.{ErrorCode, connection_closed, closed_by_client}
use doormat.Http2.Stream.{Stream, Call, destroy, cleared_callback, die, on_eom}

-- `nghttp2_session_*`
pub record Nghttp2 (N : Type 0) : Type 0 where
  pub want_read : N → Bool
  pub want_write : N → Bool
  pub mem_send : N → N × Bytes
  pub submit_settings : N → N
  pub submit_goaway : N → N

-- `errors` are the calls of the connection's error callback, `told` the streams that were told of an
-- error, `failed` the error callbacks called, and `asked` the calls that the streams have made.
pub record Session (N : Type 0) : Type 0 where
  pub session_data : N
  pub listeners : List ℕ
  pub pending : List ℕ
  pub streams : ℕ → Option Stream
  pub stream_counter : ℕ
  pub connected : Bool
  pub user_close : Bool
  pub gone : Bool
  pub errors : List ErrorCode
  pub told : List (ℕ × ErrorCode)
  pub failed : List ℕ
  pub asked : List (ℕ × Call)
  pub timeouts : ℕ

-- A stream as its constructor makes it; `status` has no value before there is a header.
abbrev pub new_stream : Stream
new_stream = record {
  status = 0;
  headers_sent = false;
  body_sent = false;
  resume_needed = false;
  eof = false;
  errored = false;
  closed = false;
  body = [];
  body_index = 0;
  trailers = [];
  prepared_headers = [];
}

-- How often a list of streams holds one.
unfoldable pub count : ℕ → List ℕ → ℕ
count id [] = 0
count id (x ∷ xs) = if x == id then suc (count id xs) else count id xs

unfoldable pub remove : ℕ → List ℕ → List ℕ
remove id [] = []
remove id (x ∷ xs) = if x == id then remove id xs else x ∷ remove id xs

abbrev pub place : ℕ → Option Stream → (ℕ → Option Stream) → ℕ → Option Stream
place id o streams j = if j == id then o else streams j

module _ {N : Type 0} where
  unfoldable pub subscribe : ℕ → Session N → Option (Session N)
  subscribe id s =
      if count id s.listeners == 0
      then some (record s { listeners = s.listeners ++ (id ∷ []) })
      else none

  unfoldable pub unsubscribe : ℕ → Session N → Session N
  unsubscribe id s = record s { listeners = remove id s.listeners }

  unfoldable pub create_stream : ℕ → Session N → Option (Session N)
  create_stream id s =
      subscribe id (record s { streams = place id (some new_stream) s.streams }) >>= λ t.
      some (record t { stream_counter = t.stream_counter + 1 })

  -- What the calls of a stream do to the session; the destructor takes the stream away.
  unfoldable pub perform : ℕ → List Call → Session N → Session N
  perform id [] s = s
  perform id (destroy ∷ cs) s =
      perform id cs (unsubscribe id (record s { streams = place id none s.streams }))
  perform id (cleared_callback ∷ cs) s =
      perform id cs (record s { pending = s.pending ++ (id ∷ []) })
  perform id (c ∷ cs) s = perform id cs (record s { asked = s.asked ++ ((id, c) ∷ []) })

  -- A stream acts.
  unfoldable pub act : ℕ → (Stream → Stream × List Call) → Session N → Option (Session N)
  act id f s = s.streams id >>= λ st.
      some (perform id (f st).1 (record s { streams = place id (some (f st).0) s.streams }))

  unfoldable pub on_stream_close_callback : ℕ → Session N → Option (Session N)
  on_stream_close_callback id s = act id die s

  -- The ends of messages as the user's response reports them.
  unfoldable pub response_eom : ℕ → Bool → Session N → Option (Session N)
  response_eom id response_alive s = act id (λ st. on_eom st response_alive) s

  unfoldable pub notify_error : ErrorCode → Session N → Session N
  notify_error ec s = record s { told = s.told ++ map (λ id. (id, ec)) s.listeners }

  unfoldable pub on_connector_nulled : Session N → Session N
  on_connector_nulled s =
      let err = if s.user_close then connection_closed else closed_by_client in
      notify_error err
        (record s { errors = s.errors ++ (err ∷ []); failed = s.failed ++ s.pending })

  module _ (ng : Nghttp2 N) where
    unfoldable pub on_write : Session N → Session N × Option Bytes
    on_write s =
        if s.connected
        then (let (n, data') = Nghttp2.mem_send ng s.session_data in
            (record s { session_data = n }, some data'))
        else (s, none)

    abbrev pub should_stop : Session N → Bool
    should_stop s =
        not (Nghttp2.want_read ng s.session_data) && not (Nghttp2.want_write ng s.session_data)

    abbrev pub write_feedbacks : Session N → Session N × List ℕ
    write_feedbacks s = (record s { pending = [] }, s.pending)

    abbrev pub trigger_timeout_event : Session N → Session N
    trigger_timeout_event s = record s { timeouts = s.timeouts + 1 }

    -- `start`, without the writes that it asks its connector for.
    unfoldable pub start : Session N → Session N × Bool
    start s =
        if s.connected
        then (record s { session_data = Nghttp2.submit_settings ng s.session_data }, true)
        else (s, false)

    unfoldable pub go_away : Session N → Session N
    go_away s = record s { session_data = Nghttp2.submit_goaway ng s.session_data; gone = true }

    -- The session as its connector sees it.
    abbrev pub http2 : HttpHandler (Session N) ℕ
    http2 = record {
      start_handler = start;
      on_write = on_write;
      should_stop = should_stop;
      write_feedbacks = write_feedbacks;
      trigger_timeout_event = trigger_timeout_event;
    }

  -- What may happen to the streams of a session: one is made, in memory that is free, or one acts.
  pub data Step (s : Session N) (t : Session N) : Type 0 where
    created : (id : ℕ) → s.streams id ≡ none → create_stream id s ≡ some t → Step s t
    acted : (id : ℕ) (f : Stream → Stream × List Call) → act id f s ≡ some t → Step s t

  pub data Reach (s : Session N) : Session N → Type 0 where
    here : Reach s s
    next : {t u : Session N} → Reach s t → Step t u → Reach s u
