-- ===== src/Handler/Closing.antt =====
-- How an HTTP/1 handler ends: `close` by its user, and `on_connector_nulled` when its connector is gone.
use doormat.Base.{ℕ, true, false, Option, none, some, List, [], ◌∷◌, ◌++◌, if◌then◌else◌}
use doormat.Connector.{Connector, stop}
use doormat.Objects.Local.{Local}
use doormat.Objects.Remote.{connection_closed, closed_by_client}
use doormat.Handler.{Traits, Core, http1, put}
use doormat.Handler.Sending.{notify_all}

module _ {M N R : Type 0} (t : Traits M N R) where
  unfoldable pub close : Connector (Core M N R) ℕ → Connector (Core M N R) ℕ
  close s =
      let u = record s { handler = record s.handler { user_close = true } } in
      let v = if u.handler.connected then stop http1 u else u in
      record v { handler = record (notify_all t connection_closed v.handler) { myself = false } }

  -- The calls of the error callbacks that wait for a write.
  abbrev fail_pending : List ℕ → (ℕ → Option (Local N)) → ℕ → Option (Local N)
  fail_pending [] store = store
  fail_pending (id ∷ ids) store = elim (store id) [
    | none ↦ fail_pending ids store
    | some o ↦ fail_pending ids (put id (some (Traits.local_error t o)) store)
  ]

  unfoldable pub on_connector_nulled : Core M N R → Core M N R
  on_connector_nulled c =
      if c.user_close
      then c
      else (let d = notify_all t closed_by_client c in
          record d {
            errors = d.errors ++ (closed_by_client ∷ []);
            myself = false;
            local_store = fail_pending d.pending_clear_callbacks d.local_store;
            pending_clear_callbacks = [];
          })

  -- `http_handler::connector` with a null pointer, as the connector's destructor calls it.
  unfoldable pub lose_connector : Core M N R → Core M N R
  lose_connector c = on_connector_nulled (record c { connected = false })
