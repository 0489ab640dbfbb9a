-- ===== src/Handler/Sending.antt =====
-- How the HTTP/1 handler sends what its users put into their objects.
use doormat.Base.{
  ℕ, zero, suc, ◌+◌, Bool, true, false, Option, none, some, List, [], ◌∷◌, ◌++◌, Bytes, bytes_eq,
  if◌then◌else◌, length, drop,
}
use doormat.Headers.{has, get_header, hf_connection, hv_keepalive, ◌>>=◌}
use doormat.Codec.{Codec, encode_header, encode_body, encode_trailer, encode_eom}
use doormat.Connector.{Connector}
use doormat.Objects.Local.{
  Local, send_continue, pending, headers_received, body_received, trailer_received, all_ended,
  LocalState, preamble, get_body, get_trailer,
}
use doormat.Objects.Remote.{ErrorCode, missing_stream_element, error}
use doormat.Handler.{Traits, Core, request_write, put}

module _ {M N R : Type 0} (t : Traits M N R) where
  -- `serialization.append` of what the encoder returns.
  abbrev pub append : Connector (Core M N R) ℕ → Codec × Bytes → Connector (Core M N R) ℕ
  append s p = record s {
    handler = record s.handler { encoder = p.0; serialization = s.handler.serialization ++ p.1 };
  }

  -- The same, followed by `do_write`.
  unfoldable pub emit : Connector (Core M N R) ℕ → Codec × Bytes → Connector (Core M N R) ℕ
  emit s p = request_write (append s p)

  unfoldable pub notify_local_headers :
      N → Connector (Core M N R) ℕ → Option (Connector (Core M N R) ℕ)
  notify_local_headers loc s =
      let base = Traits.local_base t loc in
      let c = record s.handler {
        persistent =
            if has base hf_connection
            then bytes_eq (get_header base hf_connection) hv_keepalive
            else s.handler.persistent;
      } in
      encode_header c.encoder base.chunked (Traits.serialize_local t loc) >>= λ p.
      some (emit (record s { handler = c }) p)

  unfoldable pub notify_local_body :
      Bytes → Connector (Core M N R) ℕ → Option (Connector (Core M N R) ℕ)
  notify_local_body body s = encode_body s.handler.encoder body >>= λ p. some (emit s p)

  unfoldable pub notify_local_trailer :
      Bytes × Bytes → Connector (Core M N R) ℕ → Option (Connector (Core M N R) ℕ)
  notify_local_trailer kv s = encode_trailer s.handler.encoder kv.0 kv.1 >>= λ p. some (emit s p)

  unfoldable pub notify_local_end : Connector (Core M N R) ℕ → Option (Connector (Core M N R) ℕ)
  notify_local_end s = encode_eom s.handler.encoder >>= λ p. some (emit s p)

  abbrev pub set_local : ℕ → Local N → Connector (Core M N R) ℕ → Connector (Core M N R) ℕ
  set_local id o s = record s {
    handler = record s.handler { local_store = put id (some o) s.handler.local_store };
  }

  -- The case of `send_continue`: a header and its end, in one write.
  unfoldable pub notify_continue : Connector (Core M N R) ℕ → Option (Connector (Core M N R) ℕ)
  notify_continue s = Traits.continue_message t >>= λ r.
      encode_header s.handler.encoder (Traits.local_base t r).chunked (Traits.serialize_local t r)
      >>= λ p. encode_eom p.0 >>= λ q. some (emit s (q.0, p.1 ++ q.1))

  -- The case of `ended`.
  unfoldable pub finish_local : ℕ → Connector (Core M N R) ℕ → Option (Connector (Core M N R) ℕ)
  finish_local id s =
      notify_local_end (record s {
        handler = record s.handler {
          pending_clear_callbacks = s.handler.pending_clear_callbacks ++ (id ∷ []);
        };
      })
      >>= λ u. some (record u { handler = record u.handler { clears = u.handler.clears + 1 } })

  -- A round of the loop of `poll_local`: the `switch`, with what follows it as an argument.
  unfoldable pub poll_round :
      (Connector (Core M N R) ℕ → Option (Connector (Core M N R) ℕ × Bool))
      → ℕ
      → Connector (Core M N R) ℕ
      → Local N
      → LocalState
      → Option (Connector (Core M N R) ℕ × Bool)
  poll_round rest id s o pending = some (set_local id o s, false)
  poll_round rest id s o headers_received =
      preamble o >>= λ p. notify_local_headers p.1 (set_local id p.0 s) >>= rest
  poll_round rest id s o body_received =
      let (o', body) = get_body o in notify_local_body body (set_local id o' s) >>= rest
  poll_round rest id s o trailer_received =
      get_trailer o >>= λ p. notify_local_trailer p.1 (set_local id p.0 s) >>= rest
  poll_round rest id s o all_ended = finish_local id (set_local id o s) >>= λ u. some (u, true)
  poll_round rest id s o send_continue = notify_continue (set_local id o s) >>= λ u. some (u, false)

  -- `poll_local` on an object that is alive, with fuel for the rounds of its loop.
  unfoldable pub poll_loop :
      ℕ → ℕ → Connector (Core M N R) ℕ → Option (Connector (Core M N R) ℕ × Bool)
  poll_loop zero id s = none
  poll_loop (suc fuel) id s = s.handler.local_store id >>= λ loc.
      let (o, state) = Traits.get_state t loc in poll_round (poll_loop fuel id) id s o state

  -- A header, a body, each trailer, and the round that finds the end or nothing more.
  unfoldable pub rounds : Local N → ℕ
  rounds o = length o.trailers + 3

  unfoldable pub poll_local :
      ℕ → Connector (Core M N R) ℕ → Option (Connector (Core M N R) ℕ × Bool)
  poll_local id s = s.handler.local_store id >>= λ loc. poll_loop (rounds loc) id s

  -- `notify_all`
  abbrev error_remotes : ErrorCode → List ℕ → (ℕ → R) → ℕ → R
  error_remotes e [] store = store
  error_remotes e (id ∷ ids) store =
      error_remotes e ids (put id (Traits.trigger t (error e) (store id)) store)

  abbrev error_locals : List ℕ → (ℕ → Option (Local N)) → ℕ → Option (Local N)
  error_locals [] store = store
  error_locals (id ∷ ids) store = elim (store id) [
    | none ↦ error_locals ids store
    | some o ↦ error_locals ids (put id (some (Traits.local_error t o)) store)
  ]

  unfoldable pub notify_all : ErrorCode → Core M N R → Core M N R
  notify_all e c = record c {
    remote_store = error_remotes e c.remotes c.remote_store;
    local_store = error_locals c.locals c.local_store;
    remotes = [];
    locals = [];
  }

  -- The branch of `notify_local_content` for an object that has gone.
  abbrev pub missing_element : Core M N R → Core M N R
  missing_element c =
      record (notify_all missing_stream_element
        (record c { errors = c.errors ++ (missing_stream_element ∷ []) })) { myself = false }

  abbrev pub pop_local : Connector (Core M N R) ℕ → Connector (Core M N R) ℕ
  pop_local s = record s { handler = record s.handler { locals = drop 1 s.handler.locals } }

  -- A round of the loop of `notify_local_content`, with what follows it as an argument.
  unfoldable pub content_next :
      (Connector (Core M N R) ℕ → Option (Connector (Core M N R) ℕ))
      → Connector (Core M N R) ℕ × Bool
      → Option (Connector (Core M N R) ℕ)
  content_next rest (u, true) = rest (pop_local u)
  content_next rest (u, false) = some u

  unfoldable pub content_head :
      (Connector (Core M N R) ℕ → Option (Connector (Core M N R) ℕ))
      → Connector (Core M N R) ℕ
      → ℕ
      → Option (Local N)
      → Option (Connector (Core M N R) ℕ)
  content_head rest s id none = rest (record s { handler = missing_element s.handler })
  content_head rest s id (some o) = poll_local id s >>= content_next rest

  unfoldable pub content_round :
      (Connector (Core M N R) ℕ → Option (Connector (Core M N R) ℕ))
      → Connector (Core M N R) ℕ
      → List ℕ
      → Option (Connector (Core M N R) ℕ)
  content_round rest s [] = some s
  content_round rest s (id ∷ ids) = content_head rest s id (s.handler.local_store id)

  -- `notify_local_content`, with fuel for the rounds of its loop: all but the last take an object away.
  unfoldable pub content_loop : ℕ → Connector (Core M N R) ℕ → Option (Connector (Core M N R) ℕ)
  content_loop zero s = none
  content_loop (suc fuel) s = content_round (content_loop fuel) s s.handler.locals

  unfoldable pub notify_local_content : Connector (Core M N R) ℕ → Option (Connector (Core M N R) ℕ)
  notify_local_content s = content_loop (suc (length s.handler.locals)) s

  -- What a user does to an object, followed by `content_notification`: `headers`, `body`, `trailer`,
  -- `send_continue` and the end.
  unfoldable pub user_puts :
      ℕ → (Local N → Local N) → Connector (Core M N R) ℕ → Option (Connector (Core M N R) ℕ)
  user_puts id change s =
      s.handler.local_store id >>= λ o. notify_local_content (set_local id (change o) s)
