-- ===== src/Http2/ClientSession.antt =====
-- src/http2/session_client.{h,cpp}: the session of a client, with nghttp2 as in Http2.Session. `posted`
-- are the streams whose request has posted the error callback that `create_stream` sets, which lets the
-- stream die, and `writes` the calls of `do_write` that reach a connector. A stream is known by a
-- number; `none` is a failed assertion or a stream that is not there.
use doormat.Base.{
  ℕ, ◌+◌, Bool, true, false, not, ◌&&◌, Option, none, some, List, [], ◌∷◌, ◌++◌, map, Bytes, ◌==◌,
  if◌then◌else◌,
}
use doormat.Headers.{◌>>=◌}
use doormat.Objects.Remote.{ErrorCode, connection_closed, closed_by_client}
use doormat.Http2.Stream.{Stream}
use doormat.Http2.Client.{
  PseudoHeaders, ClientCall, destroy, cleared_callback, do_write, client_die, client_on_eom,
}
use doormat.Http2.Frames.{FrameType, request_headers, other_headers, data_frame, other_frame}
use doormat.Http2.Session.{Nghttp2, new_stream, count, remove, place}

pub record ClientSession (N : Type 0) : Type 0 where
  pub session_data : N
  pub listeners : List ℕ
  pub pending : List ℕ
  pub streams : ℕ → Option Stream
  pub stream_counter : ℕ
  pub connected : Bool
  pub user_close : Bool
  pub gone : Bool
  pub errors : List ErrorCode
  pub told : List (ℕ × ErrorCode)
  pub posted : List ℕ
  pub asked : List (ℕ × ClientCall)
  pub writes : ℕ

module _ {N : Type 0} where
  -- `do_write` of the session
  abbrev pub session_do_write : ClientSession N → ClientSession N
  session_do_write s = record s { writes = if s.connected then s.writes + 1 else s.writes }

  unfoldable pub subscribe : ℕ → ClientSession N → Option (ClientSession N)
  subscribe id s =
      if count id s.listeners == 0
      then some (record s { listeners = s.listeners ++ (id ∷ []) })
      else none

  unfoldable pub unsubscribe : ℕ → ClientSession N → ClientSession N
  unsubscribe id s = record s { listeners = remove id s.listeners }

  -- A stream takes the service of its connector, so there is to be one.
  unfoldable pub create_stream : ℕ → ClientSession N → Option (ClientSession N)
  create_stream id s =
      subscribe id
        (record s { streams = place id (some (record new_stream { status = 200 })) s.streams })
      >>= λ t.
          if t.connected then some (record t { stream_counter = t.stream_counter + 1 }) else none

  -- What the calls of a stream do to the session; the destructor takes the stream away.
  unfoldable pub perform : ℕ → List ClientCall → ClientSession N → ClientSession N
  perform id [] s = s
  perform id (destroy ∷ cs) s =
      perform id cs (unsubscribe id (record s { streams = place id none s.streams }))
  perform id (cleared_callback ∷ cs) s =
      perform id cs (record s { pending = s.pending ++ (id ∷ []) })
  perform id (do_write ∷ cs) s = perform id cs (session_do_write s)
  perform id (c ∷ cs) s = perform id cs (record s { asked = s.asked ++ ((id, c) ∷ []) })

  -- A stream acts.
  unfoldable pub act :
      ℕ → (Stream → Stream × List ClientCall) → ClientSession N → Option (ClientSession N)
  act id f s = s.streams id >>= λ st.
      some (perform id (f st).1 (record s { streams = place id (some (f st).0) s.streams }))

  -- The end of a message as the user's request reports it; the stream keeps that request.
  unfoldable pub request_eom : PseudoHeaders → ℕ → ClientSession N → Option (ClientSession N)
  request_eom p id s = act id (λ st. client_on_eom p st true) s

  -- The error callbacks that have been posted, one after the other.
  unfoldable pub run_posted : List ℕ → ClientSession N → Option (ClientSession N)
  run_posted [] s = some s
  run_posted (id ∷ ids) s = act id client_die s >>= run_posted ids

  -- Each stream tells its response, and its request posts the error callback.
  unfoldable pub notify_error : ErrorCode → ClientSession N → ClientSession N
  notify_error ec s = record s {
    told = s.told ++ map (λ id. (id, ec)) s.listeners;
    posted = s.posted ++ s.listeners;
  }

  -- The error callbacks of `pending` are those of requests, which post theirs in turn.
  unfoldable pub on_connector_nulled : ClientSession N → ClientSession N
  on_connector_nulled s =
      let err = if s.user_close then connection_closed else closed_by_client in
      notify_error err
        (record s { errors = s.errors ++ (err ∷ []); posted = s.posted ++ s.pending })

  abbrev pub close : ClientSession N → ClientSession N
  close s = record s { user_close = true }

  abbrev pub write_feedbacks : ClientSession N → ClientSession N × List ℕ
  write_feedbacks s = (record s { pending = [] }, s.pending)

  module _ (ng : Nghttp2 N) where
    -- The bytes are taken whether or not there is a connector.
    unfoldable pub on_write : ClientSession N → ClientSession N × Bytes × Bool
    on_write s =
        let (n, chunk) = Nghttp2.mem_send ng s.session_data in
        (record s { session_data = n }, chunk, s.connected)

    abbrev pub should_stop : ClientSession N → Bool
    should_stop s =
        not (Nghttp2.want_read ng s.session_data) && not (Nghttp2.want_write ng s.session_data)

    abbrev pub send_connection_header : ClientSession N → ClientSession N
    send_connection_header s =
        session_do_write (record s { session_data = Nghttp2.submit_settings ng s.session_data })

    unfoldable pub start : ClientSession N → ClientSession N × Bool
    start s =
        if s.connected then (session_do_write (send_connection_header s), true) else (s, false)

    unfoldable pub go_away : ClientSession N → ClientSession N
    go_away s = record s { session_data = Nghttp2.submit_goaway ng s.session_data; gone = true }

    -- What ends the callbacks: a write, if nghttp2 wants one.
    abbrev pub write_wanted : ClientSession N → ClientSession N
    write_wanted s = if Nghttp2.want_write ng s.session_data then session_do_write s else s

    unfoldable pub on_stream_close_callback : ℕ → ClientSession N → Option (ClientSession N)
    on_stream_close_callback id s = act id client_die s >>= λ t. some (write_wanted t)

    -- `submit_rst_stream` is `nghttp2_submit_rst_stream` with an internal error.
    module _ (submit_rst_stream : ℕ → N → N) where
      abbrev pub reset_stream : ℕ → ClientSession N → ClientSession N
      reset_stream id s = record s { session_data = submit_rst_stream id s.session_data }

      unfoldable pub frame_not_send_callback :
          FrameType → ℕ → ClientSession N → Option (ClientSession N)
      frame_not_send_callback request_headers id s = elim (s.streams id) [
        | none ↦ some (reset_stream id s)
        | some st ↦ act id client_die s >>= λ t. some (reset_stream id t)
      ]
      frame_not_send_callback other_headers id s = some s
      frame_not_send_callback data_frame id s = some s
      frame_not_send_callback other_frame id s = some s
