-- ===== src/Handler/Interim.antt =====
-- What a client's HTTP/1 handler does with an interim response, 100 Continue.
use doormat.Base.{
  ℕ, ◌==◌, ◌≡◌, refl, ap, ◌∙◌, true, false, some, List, [], ◌∷◌, ◌++◌, if◌then◌else◌, ==_refl,
  arith,
}
use doormat.Messages.{Response}
use doormat.Objects.Remote.{headers, response_continue, invalid_read}
use doormat.Objects.ClientResponse.{ClientResponse, Callbacks, trigger}
use doormat.Codec.Decoder.{header_cb, completion_cb}
use doormat.Handler.{put}
use doormat.Handler.Sides.{client}
use doormat.Handler.Receiving.{connection_error, begin_message}
use doormat.Handler.Decoding.{client_side, dispatch_all}
use doormat.Handler.Awaiting.{
  State, Awaits, interim-dispatched, final-dispatched, nothing-dispatched,
}

unequal : (a b : ℕ) → (a == b) ≡ false → (b == a) ≡ false
unequal a b h = ground (arith, h)

module _ (callbacks : Callbacks) (code : ℕ) where
  -- The decoder has begun the next message, and read its header into `m`.
  abbrev pub begun_with : Response → State → State
  begun_with m c = record (begin_message (client callbacks code) c) { current = m }

  -- A client that has sent one request receives an interim response, and then the final one: the object
  -- is told to continue, and is never told of the header of the final response; the connection reports
  -- an invalid read instead.
  pub final_lost :
      (c : State) (id : ℕ) (m : Response)
      → Awaits c id []
      → (c.current.status_code == 100) ≡ true
      → (d e : State) × (dispatch_all
            (client_side callbacks code)
            (header_cb ∷ (completion_cb ∷ []))
            c
          ≡ some d)
        × (dispatch_all (client_side callbacks code) (header_cb ∷ []) (begun_with m d) ≡ some e)
        × (e.remote_store ≡ put id (trigger response_continue (c.remote_store id)) c.remote_store)
        × (e.errors ≡ c.errors ++ (invalid_read ∷ []))
  final_lost c id m h q =
      let (d, over, empty, store, errors, locals) = interim-dispatched callbacks code c id [] h q in
      (
        d,
        connection_error (client callbacks code) invalid_read
            (record (begun_with m d) { decoding_error = true }),
        over,
        nothing-dispatched callbacks code (begun_with m d) refl empty,
        store,
        ap (λ l. l ++ (invalid_read ∷ [])) errors,
      )

  -- With a second request under way, its object is handed the header of the first one's final
  -- response.
  pub final_misdelivered :
      (c : State) (id next : ℕ) (ids : List ℕ) (m : Response)
      → Awaits c id (next ∷ ids)
      → (c.current.status_code == 100) ≡ true
      → (next == id) ≡ false
      → (c.remote_store next).response_ended ≡ false
      → (m.status_code == 100) ≡ false
      → (d e : State) × (n : Response) × (dispatch_all
            (client_side callbacks code)
            (header_cb ∷ (completion_cb ∷ []))
            c
          ≡ some d)
        × (dispatch_all (client_side callbacks code) (header_cb ∷ []) (begun_with m d) ≡ some e)
        × (n ≡ record m { base = n.base })
        × (e.remote_store next ≡ trigger (headers n) (c.remote_store next))
        × (e.remote_store id ≡ trigger response_continue (c.remote_store id))
  final_misdelivered c id next ids m h q other open_still status =
      let (d, over, left, store, errors, locals) =
        interim-dispatched callbacks code c id (next ∷ ids) h q in
      let kept : d.remote_store next ≡ c.remote_store next =
        ap (λ f. f next) store
        ∙ ap (λ b. if b then trigger response_continue (c.remote_store id) else c.remote_store next)
            other in
      let waits : Awaits (begun_with m d) next ids = record {
        decoding = refl;
        front = left;
        open_still = ap (λ (o : ClientResponse Response). o.response_ended) kept ∙ open_still;
      } in
      let (e, n, said, same, store') =
        final-dispatched callbacks code (begun_with m d) next ids waits status in
      (
        d,
        e,
        n,
        over,
        said,
        same,
        ap (λ f. f next) store'
            ∙ ap (λ b. if b then trigger (headers n) (d.remote_store next) else d.remote_store next)
                (==_refl next)
            ∙ ap (trigger (headers n)) kept,
        ap (λ f. f id) store'
            ∙ ap (λ b. if b then trigger (headers n) (d.remote_store next) else d.remote_store id)
                (unequal next id other)
            ∙ ap (λ f. f id) store
            ∙ ap
                (λ b.
                  if b then trigger response_continue (c.remote_store id) else c.remote_store id)
                (==_refl id),
      )
