-- ===== src/Handler/Sent.antt =====
-- What the users of both sides send reaches the connection.
use doormat.Base.{ℕ, ◌≡◌, refl, false, some, ◌++◌, Bytes}
use doormat.Messages.{Request, Response}
use doormat.Codec.{Codec}
use doormat.Connector.{Connector}
use doormat.Objects.Local.{Local, content_state, get_state}
use doormat.Objects.Remote.{Remote}
use doormat.Objects.ClientResponse.{ClientResponse, Callbacks}
use doormat.Handler.{Core}
use doormat.Handler.Sides.{server, client}
use doormat.Handler.Pieces.{all_pieces}
use doormat.Handler.Output.{output}
use doormat.Handler.Polled.{poll_local-pieces}
use doormat.Handler.Sending.{poll_local}

pub get_state_plain :
    (o : Local Response) → o.continue_required ≡ false → get_state o ≡ (o, content_state o)
get_state_plain o h = rw h refl

-- A server's round of sending on a response ends and fails no assertion whenever the codec can encode
-- what the response holds: its header, its body, its trailers and its end, as far as they are there.
-- Written bytes and waiting bytes together have then grown by exactly these pieces in this order,
-- whether a write is under way or not, and the response is reported finished if it has ended.
pub server-poll_local :
    (id : ℕ) (s : Connector (Core Request Response (Remote Request)) ℕ) (o : Local Response)
    (c : Codec) (bytes : Bytes)
    → s.handler.local_store id ≡ some o
    → o.continue_required ≡ false
    → all_pieces server s.handler.encoder o.message o.content o.trailers o.ended ≡ some (c, bytes)
    → (u : Connector (Core Request Response (Remote Request)) ℕ) × (poll_local server id s
        ≡ some (u, o.ended))
      × (u.handler.encoder ≡ c)
      × (output u ≡ output s ++ bytes)
server-poll_local id s o c bytes e h p =
    let (u, r, l, out, kept) = poll_local-pieces server get_state_plain id s o c bytes e h p in
    (u, r, l, out)

-- The same of a client's request, which knows no `send_continue`.
pub client-poll_local :
    (callbacks : Callbacks) (code id : ℕ)
    (s : Connector (Core Response Request (ClientResponse Response)) ℕ) (o : Local Request)
    (c : Codec) (bytes : Bytes)
    → s.handler.local_store id ≡ some o
    → o.continue_required ≡ false
    → all_pieces (client callbacks code) s.handler.encoder o.message o.content o.trailers o.ended
      ≡ some (c, bytes)
    → (u : Connector (Core Response Request (ClientResponse Response)) ℕ) × (poll_local
          (client callbacks code)
          id
          s
        ≡ some (u, o.ended))
      × (u.handler.encoder ≡ c)
      × (output u ≡ output s ++ bytes)
client-poll_local callbacks code id s o c bytes e h p =
    let (u, r, l, out, kept) =
      poll_local-pieces (client callbacks code) (λ o' h'. refl) id s o c bytes e h p in
    (u, r, l, out)
