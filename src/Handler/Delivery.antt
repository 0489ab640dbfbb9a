-- ===== src/Handler/Delivery.antt =====
-- A request read from a connection, from the first call of the parser to the last, and what its object
-- tells the user.
use doormat.Base.{
  some-inj, ℕ, zero, suc, arith, none, Option, ◌≡◌, refl, sym, ap, ◌∙◌, Bool, true, some, List, [],
  ◌∷◌, ◌++◌, Bytes, append_assoc, ◌&&◌,
}
use doormat.Headers.{◌>>=◌, keep}
use doormat.Messages.{Request, Response}
use doormat.Objects.Remote.{
  Remote, RemoteEvent, success, headers, trigger, headers_event, finished_event,
}
use doormat.Objects.Remote
use doormat.Codec.Decoder.{
  Message, request, Url, Decoder, reset, Callback, header_cb, completion_cb, Event, Head,
  message_begin, headers_complete, message_complete, handle, run, on_message_complete,
  flush_trailer,
}
use doormat.Codec.Events.{Heads, All, headers_complete-completed}
use doormat.Codec.Trailing.{Trails, flush-pointed, flush-All}
use doormat.Handler.Sides.{server}
use doormat.Handler.Receiving.{asks_persistent}
use doormat.Handler.Decoding.{
  server_side, Receiver, settle, write_back, dispatch, dispatch_all, receive, receive_all, if_zero,
}
use doormat.Handler.Current.{
  Reading, events_of, with_events, dispatch_all-pieces, made_pair, made_pair-Reading,
  decoding_start-made_pair, changed-Reading, header-dispatched, completion-dispatched,
}
use doormat.Handler.Heading.{Reader, moved, IsAimed, aimed-IsAimed, receive-Heads}
use doormat.Handler.Trailing.{
  Follows, aimed-Follows, dispatch_all-append, events_of-append, receive-Trails,
}

-- The object of a request that was received whole.
abbrev pub received : Request → List RemoteEvent → Remote Request
received n es = record { message = some n; terminated = true; conn_error = success; posted = es }

-- What a call that has been gone on from has returned.
pub if_zero-some :
    {A : Type 0} {B : Type 0} (o : Option (A × ℕ)) (f : A → Option B) {b : B}
    → (o >>= if_zero f) ≡ some b
    → (a : A) × (o ≡ some (a, 0)) × (f a ≡ some b)
if_zero-some none f h = absurd (ground (arith, h))
if_zero-some (some (a, zero)) f h = (a, refl, h)
if_zero-some (some (a, suc n)) f h = absurd (ground (arith, h))

module _ (parse_url : Bytes → Bool → Url → Url × Bool) where
  receive_all-append :
      (xs ys : List Event) (r s : Reader)
      → receive_all server_side parse_url r xs ≡ some s
      → receive_all server_side parse_url r (xs ++ ys) ≡ receive_all server_side parse_url s ys
  unfolding receive_all
  receive_all-append [] ys r s h = ap (λ v. receive_all server_side parse_url v ys) (some-inj h)
  receive_all-append (x ∷ xs) ys r s h =
      let (q, h1, h2) =
        if_zero-some (receive server_side parse_url r x)
          (λ q. receive_all server_side parse_url q xs) h in
      ap (λ v. v >>= if_zero (λ q. receive_all server_side parse_url q (xs ++ ys))) h1
      ∙ receive_all-append xs ys q s h2

  -- The start: the decoder is given the handler's message, and the user the objects.
  receive_begin :
      (r : Reader) (x : Message)
      → r.core.connected ≡ true
      → receive server_side parse_url r (message_begin x)
        ≡ some (
          record {
            decoder = record r.decoder { message = some (request r.core.current) };
            core = made_pair r.core;
          },
          0,
        )
  unfolding receive handle settle dispatch_all dispatch
  receive_begin r x h =
      ap
        (λ c. some (
          record {
            decoder = record r.decoder { message = some (request r.core.current) };
            core = c;
          },
          0,
        ))
        (decoding_start-made_pair r.core h)

  -- The end of the header.
  receive_header :
      (r : Reader) (d : Decoder) (m : Request) (h : Head) (id : ℕ) (o : Remote Request)
      → IsAimed r
      → handle parse_url r.decoder (headers_complete h) ≡ some (d, header_cb ∷ [])
      → d.message ≡ some (request m)
      → Reading r.core id o
      → (t : Reader) × (n : Request) × (receive server_side parse_url r (headers_complete h)
          ≡ some (t, 0))
        × (t.decoder ≡ d)
        × Reading t.core id (trigger (headers n) o)
        × (t.core.locals ≡ r.core.locals)
        × (keep m.base (r.core.persistent && asks_persistent server m.base) ≡ some n.base)
        × (n ≡ record m { base = n.base })
  unfolding receive settle dispatch_all
  receive_header r d m h id o a e k reading =
      let before = record r.core { current = m } in
      let (c, n, said, told, (kept, same), queue, p) =
        header-dispatched before id o (changed-Reading r.core id o r.core.persistent m reading) in
      (
        record { decoder = d; core = c },
        n,
        ap (λ v. handle parse_url v (headers_complete h) >>= settle server_side r.core 0)
              (aimed-IsAimed r a)
            ∙ ap (λ v. v >>= settle server_side r.core 0) e
            ∙ ap
                (λ v. write_back server_side v r.core >>= λ c'.
                  dispatch_all server_side (header_cb ∷ []) c' >>= λ c''.
                  some (record { decoder = d; core = c'' }, 0))
                k
            ∙ ap
                (λ v. (v >>= dispatch_all server_side []) >>= λ c''.
                  some (record { decoder = d; core = c'' }, 0))
                said,
        refl,
        told,
        queue,
        kept,
        same,
      )

  -- The end of the message.
  receive_end :
      (r : Reader) (d : Decoder) (id : ℕ) (o : Remote Request)
      → Follows r d
      → Reading r.core id o
      → (t : Reader) × (receive server_side parse_url r message_complete ≡ some (t, 0))
        × (t.decoder ≡ (on_message_complete d).0)
        × (t.core.remotes ≡ [])
        × (t.core.remote_store id
            ≡ record (with_events (events_of (on_message_complete d).1) o) { terminated = true })
        × (t.core.locals ≡ r.core.locals)
  unfolding receive handle settle on_message_complete reset dispatch_all
  receive_end r d id o f k =
      let end = λ (p : Decoder × List Callback).
        let out : Decoder × List Callback = (reset p.0, p.1 ++ (completion_cb ∷ [])) in out in
      let ys = (flush_trailer d).1 in
      let (c, said, told, queue, same) = dispatch_all-pieces ys r.core id o (flush-All d) k in
      let (c', ended, none_left, stored, queue') =
        completion-dispatched c id (with_events (events_of ys) o) told in
      let t : Reader = record { decoder = reset (flush_trailer d).0; core = c' } in
      let all : o.posted ++ events_of (ys ++ (completion_cb ∷ []))
          ≡ (o.posted ++ events_of ys) ++ (finished_event ∷ []) =
        ap (λ l. o.posted ++ l) (events_of-append ys (completion_cb ∷ []))
        ∙ sym (append_assoc o.posted (events_of ys) (finished_event ∷ [])) in
      (
        t,
        ap (λ v. settle server_side r.core 0 (end (flush_trailer v))) (aimed-Follows r d f)
            ∙ ap (λ v. settle server_side r.core 0 (end v))
                (flush-pointed (some (request r.core.current)) d)
            ∙ ap
                (λ v.
                  v >>= λ c''. some (record { decoder = reset (flush_trailer d).0; core = c'' }, 0))
                (dispatch_all-append ys (completion_cb ∷ []) r.core c said
                  ∙ ap (λ v. v >>= dispatch_all server_side []) ended),
        refl,
        none_left,
        stored ∙ ap (λ l. record o { posted = l; terminated = true }) (sym all),
        queue' ∙ queue,
      )

  header-completed :
      (d e : Decoder) (h : Head)
      → handle parse_url d (headers_complete h) ≡ some (e, header_cb ∷ [])
      → e.headers_completed ≡ true
  unfolding handle
  header-completed d e h p = headers_complete-completed d e h (header_cb ∷ []) p

  -- A request whose events the decoder reads without a failure, on a connection of a server that is
  -- receiving no other: `receive_all`, which is what the parser's calls come to, makes one new pair of
  -- objects, puts the local one behind the others, and leaves the object received into ended and out of
  -- the queue. Its user is told of the header, then of each piece of the body and each trailer that the
  -- decoder by itself reports, in their order, and then of the end, and of nothing else. The message
  -- is the one that the decoder has read, with the connection field set by `update_persistent`.
  pub receive_all-delivered :
      (r : Receiver Request Response (Remote Request)) (x : Message) (heads trails : List Event)
      (h : Head) (d0 d1 d2 : Decoder) (m : Request) (xs : List Callback)
      → r.core.connected ≡ true
      → r.core.remotes ≡ []
      → All Heads heads
      → All Trails trails
      → run parse_url (record r.decoder { message = some (request r.core.current) }) heads
        ≡ some (d0, [])
      → handle parse_url d0 (headers_complete h) ≡ some (d1, header_cb ∷ [])
      → d1.message ≡ some (request m)
      → run parse_url d1 trails ≡ some (d2, xs)
      → (t : Receiver Request Response (Remote Request)) × (n : Request) × (receive_all server_side
            parse_url r
            (message_begin x
              ∷ (heads ++ (headers_complete h ∷ (trails ++ (message_complete ∷ [])))))
          ≡ some t)
        × (t.decoder ≡ (on_message_complete d2).0)
        × (t.core.remotes ≡ [])
        × (t.core.locals ≡ r.core.locals ++ (r.core.fresh ∷ []))
        × (t.core.remote_store r.core.fresh
            ≡ received n (headers_event ∷ events_of (xs ++ (on_message_complete d2).1)))
        × (keep m.base (r.core.persistent && asks_persistent server m.base) ≡ some n.base)
        × (n ≡ record m { base = n.base })
  unfolding receive_all trigger
  receive_all-delivered r x heads trails h d0 d1 d2 m xs conn alone hs ts e0 e1 k e2 =
      let r0 : Reader = record {
        decoder = record r.decoder { message = some (request r.core.current) };
        core = made_pair r.core;
      } in
      let id = r.core.fresh in
      let new : Remote Request = doormat.Objects.Remote.make in
      let (m0, k0, q0) = receive-Heads parse_url heads r0 d0 refl hs e0 in
      let r1 = moved r0 d0 m0 in
      let (t, n, q1, dt, told, queue, kept, same) =
        receive_header r1 d1 m h id new k0 e1 k
          (changed-Reading r0.core id new r0.core.persistent m0 (made_pair-Reading r.core alone)) in
      let (u, q2, fu, ku, lu) =
        receive-Trails parse_url trails t d1 d2 xs id (trigger (headers n) new)
          (m, dt ∙ ap (λ v. record d1 { message = v }) k) (header-completed d0 d1 h e1) ts e2
          told in
      let (v, q3, dv, none_left, stored, lv) =
        receive_end u d2 id (with_events (events_of xs) (trigger (headers n) new)) fu ku in
      let last = message_complete ∷ [] in
      (
        v,
        n,
        ap
              (λ o.
                o
                >>= if_zero (λ q.
                  receive_all server_side parse_url q
                    (heads ++ (headers_complete h ∷ (trails ++ last)))))
              (receive_begin r x conn)
            ∙ receive_all-append heads (headers_complete h ∷ (trails ++ last)) r0 r1 q0
            ∙ ap (λ o. o >>= if_zero (λ q. receive_all server_side parse_url q (trails ++ last))) q1
            ∙ receive_all-append trails last t u q2
            ∙ ap (λ o. o >>= if_zero (λ (q : Reader). some q)) q3,
        dv,
        none_left,
        lv ∙ lu ∙ queue,
        stored
            ∙ ap (λ l. received n (headers_event ∷ l))
                (sym (events_of-append xs (on_message_complete d2).1)),
        kept,
        same,
      )
