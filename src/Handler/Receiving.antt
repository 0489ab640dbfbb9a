-- ===== src/Handler/Receiving.antt =====
-- What the HTTP/1 handler does when its decoder reports a piece of a message.
use doormat.Base.{
  ℕ, ◌&&◌, ◌||◌, Bool, true, false, not, Option, none, some, List, [], ◌∷◌, ◌++◌, Bytes, bytes_eq,
  ◌==◌, if◌then◌else◌, drop,
}
use doormat.Headers.{
  StructuredData, same_version, http10, has, get_header, keep, hf_connection, hv_keepalive, ◌>>=◌,
}
use doormat.Objects.Local.{Local}
use doormat.Objects.Remote.{
  Trigger, ErrorCode, decoding, invalid_read, headers, body, trailer, finished, response_continue,
  error,
}
use doormat.Handler.{Traits, Core, put, get_user_handlers}

abbrev pub last : List ℕ → Option ℕ
last [] = none
last (x ∷ []) = some x
last (x ∷ y ∷ ys) = last (y ∷ ys)

module _ {M N R : Type 0} (t : Traits M N R) where
  abbrev pub connection_error : ErrorCode → Core M N R → Core M N R
  connection_error e c = record c { errors = c.errors ++ (e ∷ []) }

  -- `get_current`
  unfoldable pub get_current : Core M N R → Core M N R × Option ℕ
  get_current c = if c.decoding_error then (c, none) else elim c.remotes [
    | [] ↦ (connection_error invalid_read (record c { decoding_error = true }), none)
    | id ∷ ids ↦
        if Traits.ended t (c.remote_store id)
        then (connection_error invalid_read c, none)
        else (c, some id)
  ]

  abbrev pub tell : ℕ → Trigger M → Core M N R → Core M N R
  tell id what c = record c {
    remote_store = put id (Traits.trigger t what (c.remote_store id)) c.remote_store;
  }

  abbrev pub pop_remote : Core M N R → Core M N R
  pop_remote c = record c { remotes = drop 1 c.remotes }

  abbrev pub with_current : (Core M N R → ℕ → Core M N R) → Core M N R → Core M N R
  with_current f c =
      let (c', current) = get_current c in elim current [ none ↦ c' | some id ↦ f c' id ]

  -- An object that may have gone.
  abbrev pub fail_object : ℕ → Option (Local N) → (ℕ → Option (Local N)) → ℕ → Option (Local N)
  fail_object id none store = store
  fail_object id (some o) store = put id (some (Traits.local_error t o)) store

  -- The end of `decoding_failure`: the object at the back is told, and the one at the front goes. `none`
  -- is the back of an empty list.
  abbrev pub fail_at : ℕ → Core M N R → Core M N R
  fail_at id c = record c {
    local_store = fail_object id (c.local_store id) c.local_store;
    locals = drop 1 c.locals;
  }

  abbrev pub fail_local : Core M N R → Option (Core M N R)
  fail_local c = last c.locals >>= λ id. some (fail_at id c)

  unfoldable pub decoding_failure : Core M N R → Option (Core M N R)
  decoding_failure c =
      let (c', current) = get_current c in
      elim current [
        | none ↦ some c'
        | some id ↦ fail_local (pop_remote (tell id (error decoding) c'))
      ]

  unfoldable pub decoding_end : Core M N R → Core M N R
  decoding_end c = with_current (λ c' id. pop_remote (tell id finished c')) c

  unfoldable pub decoded_trailer : Bytes → Bytes → Core M N R → Core M N R
  decoded_trailer k v c =
      with_current (λ c' id. if c'.managing_continue then c' else tell id (trailer k v) c') c

  unfoldable pub decoded_body : Bytes → Core M N R → Core M N R
  decoded_body b c = with_current (λ c' id. tell id (body b) c') c

  -- Whether a message lets its connection persist.
  unfoldable pub asks_persistent : StructuredData → Bool
  asks_persistent d =
      if same_version d.protocol http10
      then has d hf_connection && bytes_eq (get_header d hf_connection) hv_keepalive
      else not (has d hf_connection) || bytes_eq (get_header d hf_connection) hv_keepalive

  unfoldable pub update_persistent : Core M N R → Option (Core M N R)
  update_persistent c =
      let base = Traits.remote_base t c.current in
      let p = c.persistent && asks_persistent base in
      keep base p >>= λ d.
      some record c { persistent = p; current = Traits.set_remote_base t c.current d }

  abbrev pub clear_current : Core M N R → Option (Core M N R)
  clear_current c = Traits.blank_remote t >>= λ m. some record c { current = m }

  unfoldable pub decoded_headers : Core M N R → Option (Core M N R)
  decoded_headers c =
      let (c', current) = get_current c in
      elim current [
        | none ↦ some c'
        | some id ↦ update_persistent c' >>= λ d. clear_current (tell id (headers d.current) d)
      ]

  -- `decoding_start`, which gives the decoder `current`; on a server, `decoder_begin` makes a pair of
  -- objects, if it has a connector, and gives it to the user in any case.
  abbrev pub begin_message : Core M N R → Core M N R
  begin_message c = record c { decoding_error = false; managing_continue = false }

  unfoldable pub server_decoding_start : Core M N R → Core M N R
  server_decoding_start c =
      let (c', made) = get_user_handlers t (begin_message c) in
      record c' { requests = c'.requests ++ (made ∷ []) }

  -- The specialisations for a client.
  unfoldable pub client_decoded_headers : Core M N R → Option (Core M N R)
  client_decoded_headers c =
      let (c', current) = get_current c in
      elim current [
        | none ↦ some c'
        | some id ↦ update_persistent c' >>= λ d.
            let continuing = Traits.status_code t d.current == 100 in
            let e = record d { managing_continue = continuing } in
            clear_current (if continuing then e else tell id (headers e.current) e)
      ]

  unfoldable pub client_decoding_end : Core M N R → Core M N R
  client_decoding_end c =
      with_current
        (λ c' id.
          let p = pop_remote c' in
          if p.managing_continue then tell id response_continue p else tell id finished p)
        c
