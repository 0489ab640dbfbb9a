-- ===== src/Handler/Requests.antt =====
-- A request that arrives over several reads of a server's connection.
use doormat.Base.{◌≡◌, true, some, List, [], ◌∷◌, ◌++◌, Bytes, ◌&&◌}
use doormat.Headers.{keep}
use doormat.Messages.{Request, Response}
use doormat.Objects.Remote.{Remote, headers_event}
use doormat.Codec.Decoder.{
  Message, request, Decoder, Callback, header_cb, Event, Head, message_begin, headers_complete,
  message_complete, handle, run, on_message_complete,
}
use doormat.Codec.Events.{Heads, All}
use doormat.Codec.Trailing.{Trails}
use doormat.Handler.Sides.{server}
use doormat.Handler.Receiving.{asks_persistent}
use doormat.Handler.Decoding.{server_side, Receiver}
use doormat.Handler.Current.{events_of}
use doormat.Handler.Decoding.{HttpParser}
use doormat.Handler.Delivery.{received, receive_all-delivered}
use doormat.Handler.Reading.{on_reads, Parses, on_reads-Parses}

-- Over some reads, none of which is empty, and as long as 0 is returned to it, the parser makes the
-- calls of one request and takes every byte; the server is receiving no other message, and the decoder reads the events without a failure.
-- However the bytes are cut into reads, `on_read` then succeeds on each of them, makes one new pair of
-- objects, puts the local one behind the others, and leaves the object received into ended and out of
-- the queue. Its user is told of the header, then of each piece of the body and each trailer that the
-- decoder by itself reports, in their order, and then of the end, and of nothing else. The message
-- is the one that the decoder has read, with the connection field set by `update_persistent`.
pub on_reads-request :
    {P : Type 0} (parser : HttpParser P) (p q : P) (ds : List Bytes)
    (r : Receiver Request Response (Remote Request)) (x : Message) (heads trails : List Event)
    (h : Head) (d0 d1 d2 : Decoder) (m : Request) (xs : List Callback)
    → Parses server_side parser p ds
        (message_begin x ∷ (heads ++ (headers_complete h ∷ (trails ++ (message_complete ∷ [])))))
        q
    → r.core.connected ≡ true
    → r.core.remotes ≡ []
    → All Heads heads
    → All Trails trails
    → run
        (HttpParser.parse_url parser)
        (record r.decoder { message = some (request r.core.current) })
        heads
      ≡ some (d0, [])
    → handle (HttpParser.parse_url parser) d0 (headers_complete h) ≡ some (d1, header_cb ∷ [])
    → d1.message ≡ some (request m)
    → run (HttpParser.parse_url parser) d1 trails ≡ some (d2, xs)
    → (t : Receiver Request Response (Remote Request)) × (n : Request) × (on_reads server_side
          parser p r ds
        ≡ some (q, t, true))
      × (t.decoder ≡ (on_message_complete d2).0)
      × (t.core.remotes ≡ [])
      × (t.core.locals ≡ r.core.locals ++ (r.core.fresh ∷ []))
      × (t.core.remote_store r.core.fresh
          ≡ received n (headers_event ∷ events_of (xs ++ (on_message_complete d2).1)))
      × (keep m.base (r.core.persistent && asks_persistent server m.base) ≡ some n.base)
      × (n ≡ record m { base = n.base })
on_reads-request parser p q ds r x heads trails h d0 d1 d2 m xs parses conn alone hs ts e0 e1 k e2 =
    let (t, n, all, rest, more, queue, told, kept, same) =
      receive_all-delivered (HttpParser.parse_url parser) r x heads trails h d0 d1 d2 m xs conn
        alone hs ts e0 e1 k e2 in
    (
      t,
      n,
      on_reads-Parses server_side parser ds p q
          (message_begin x ∷ (heads ++ (headers_complete h ∷ (trails ++ (message_complete ∷ [])))))
          r t parses all,
      rest,
      more,
      queue,
      told,
      kept,
      same,
    )
