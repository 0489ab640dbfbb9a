-- ===== src/Handler/Awaiting.antt =====
-- A client's HTTP/1 handler while it waits for responses: what the header and the end of one do.
use doormat.Base.{
  ℕ, ◌==◌, ◌≡◌, refl, ap, ◌∙◌, ◌&&◌, Bool, true, false, Option, none, some, List, [], ◌∷◌, drop,
  if◌then◌else◌, ◌>>=◌,
}
use doormat.Headers.Total.{keep_total, make_total}
use doormat.Messages.{Request, Response}
use doormat.Objects.Remote.{headers, finished, response_continue, invalid_read}
use doormat.Objects.ClientResponse.{ClientResponse, Callbacks, trigger}
use doormat.Codec.Decoder.{header_cb, completion_cb}
use doormat.Handler.{Traits, Core, put}
use doormat.Handler.Sides.{client}
use doormat.Handler.Receiving.{
  get_current, tell, pop_remote, connection_error, asks_persistent, update_persistent,
  clear_current, client_decoded_headers, client_decoding_end,
}
use doormat.Handler.Decoding.{client_side, dispatch, dispatch_all}

abbrev pub State : Type 0
State = Core Response Request (ClientResponse Response)

-- The object at the front has not ended, and nothing has failed.
pub record Awaits (c : State) (id : ℕ) (ids : List ℕ) : Type 0 where
  pub decoding : c.decoding_error ≡ false
  pub front : c.remotes ≡ id ∷ ids
  pub open_still : (c.remote_store id).response_ended ≡ false

module _ (callbacks : Callbacks) (code : ℕ) where
  abbrev pub t : Traits Response Request (ClientResponse Response)
  t = client callbacks code

  get_current-Awaits :
      (c : State) (id : ℕ) (ids : List ℕ) → Awaits c id ids → get_current t c ≡ (c, some id)
  unfolding get_current
  get_current-Awaits c id ids h =
      let more = λ (l : List ℕ).
        let out : State × Option ℕ = elim l [
          | [] ↦ (connection_error t invalid_read (record c { decoding_error = true }), none)
          | i ∷ is ↦
              if (c.remote_store i).response_ended
              then (connection_error t invalid_read c, none)
              else (c, some i)
        ] in
        out in
      ap (λ b. if b then (c, none) else more c.remotes) h.decoding
      ∙ ap more h.front
      ∙ ap (λ b. if b then (connection_error t invalid_read c, none) else (c, some id)) h.open_still

  -- What follows the update of the persistence.
  abbrev hand_on : ℕ → State → Bool → Option State
  hand_on id d continuing =
      let e = record d { managing_continue = continuing } in
      clear_current t (if continuing then e else tell t id (headers e.current) e)

  abbrev empty_response : Response
  empty_response = record { base = make_total.0; status_code = code; status_message = [] }

  abbrev updated : State → Response → State
  updated c m = record c {
    persistent = c.persistent && asks_persistent t c.current.base;
    current = m;
  }

  hand_on-update :
      (c : State) (id : ℕ) (ids : List ℕ) (continuing : Bool)
      → Awaits c id ids
      → (c.current.status_code == 100) ≡ continuing
      → (m : Response) × (dispatch (client_side callbacks code) header_cb c
          ≡ hand_on id (updated c m) continuing)
        × (m ≡ record c.current { base = m.base })
  unfolding dispatch client_decoded_headers update_persistent
  hand_on-update c id ids continuing h q =
      let p = c.persistent && asks_persistent t c.current.base in
      let (b, kept) = keep_total c.current.base p in
      let m : Response = record c.current { base = b } in
      (
        m,
        ap
              (λ (x : State × Option ℕ). elim x.1 [
                | none ↦ some x.0
                | some i ↦ update_persistent t x.0 >>= λ d.
                    hand_on i d (Traits.status_code t d.current == 100)
              ])
              (get_current-Awaits c id ids h)
            ∙ ap
                (λ x.
                  (x >>= λ d.
                  some (record c { persistent = p; current = record c.current { base = d } }))
                  >>= λ d. hand_on id d (Traits.status_code t d.current == 100))
                kept
            ∙ ap (hand_on id (updated c m)) q,
        refl,
      )

  clear_current_lem : (c : State) → clear_current t c ≡ some (record c { current = empty_response })
  clear_current_lem c =
      ap
        (λ x.
          (x >>= λ d. some (record { base = d; status_code = code; status_message = [] })) >>= λ v.
          some (record c { current = v }))
        make_total.1

  -- An interim response is over, and the object has been told of it and has left the queue.
  pub interim-dispatched :
      (c : State) (id : ℕ) (ids : List ℕ)
      → Awaits c id ids
      → (c.current.status_code == 100) ≡ true
      → (d : State) × (dispatch_all
            (client_side callbacks code)
            (header_cb ∷ (completion_cb ∷ []))
            c
          ≡ some d)
        × (d.remotes ≡ ids)
        × (d.remote_store ≡ put id (trigger response_continue (c.remote_store id)) c.remote_store)
        × (d.errors ≡ c.errors)
        × (d.locals ≡ c.locals)
  unfolding dispatch_all dispatch client_decoding_end
  interim-dispatched c id ids h q =
      let (m, e, same) = hand_on-update c id ids true h q in
      let d1 : State = record (updated c m) {
        managing_continue = true;
        current = empty_response;
      } in
      let awaiting : Awaits d1 id ids = record {
        decoding = h.decoding;
        front = h.front;
        open_still = h.open_still;
      } in
      (
        tell t id response_continue (pop_remote t d1),
        ap (λ v. v >>= dispatch_all (client_side callbacks code) (completion_cb ∷ []))
              (e ∙ clear_current_lem (record (updated c m) { managing_continue = true }))
            ∙ ap
                (λ (x : State × Option ℕ). some (elim x.1 [
                  | none ↦ x.0
                  | some i ↦
                      if x.0.managing_continue
                      then tell t i response_continue (pop_remote t x.0)
                      else tell t i finished (pop_remote t x.0)
                ]))
                (get_current-Awaits d1 id ids awaiting),
        ap (drop 1) h.front,
        refl,
        refl,
        refl,
      )

  -- A response that is not an interim one.
  pub final-dispatched :
      (c : State) (id : ℕ) (ids : List ℕ)
      → Awaits c id ids
      → (c.current.status_code == 100) ≡ false
      → (d : State) × (m : Response) × (dispatch_all (client_side callbacks code) (header_cb ∷ []) c
          ≡ some d)
        × (m ≡ record c.current { base = m.base })
        × (d.remote_store ≡ put id (trigger (headers m) (c.remote_store id)) c.remote_store)
  unfolding dispatch_all
  final-dispatched c id ids h q =
      let (m, e, same) = hand_on-update c id ids false h q in
      (
        record (tell t id (headers m) (updated c m)) {
          managing_continue = false;
          current = empty_response;
        },
        m,
        ap (λ v. v >>= dispatch_all (client_side callbacks code) [])
            (e
              ∙ clear_current_lem
                  (record (tell t id (headers m) (updated c m)) { managing_continue = false })),
        same,
        refl,
      )

  -- A header that no object waits for.
  get_current_nothing :
      (c : State)
      → c.decoding_error ≡ false
      → c.remotes ≡ []
      → get_current t c
        ≡ (connection_error t invalid_read (record c { decoding_error = true }), none)
  unfolding get_current
  get_current_nothing c n e =
      let more = λ (l : List ℕ).
        let out : State × Option ℕ = elim l [
          | [] ↦ (connection_error t invalid_read (record c { decoding_error = true }), none)
          | i ∷ is ↦
              if (c.remote_store i).response_ended
              then (connection_error t invalid_read c, none)
              else (c, some i)
        ] in
        out in
      ap (λ b. if b then (c, none) else more c.remotes) n ∙ ap more e

  pub nothing-dispatched :
      (c : State)
      → c.decoding_error ≡ false
      → c.remotes ≡ []
      → dispatch_all (client_side callbacks code) (header_cb ∷ []) c
        ≡ some (connection_error t invalid_read (record c { decoding_error = true }))
  unfolding dispatch_all dispatch client_decoded_headers
  nothing-dispatched c n e =
      ap
        (λ (x : State × Option ℕ).
          elim x.1 [
            | none ↦ some x.0
            | some i ↦
                update_persistent t x.0 >>= λ d. hand_on i d (Traits.status_code t d.current == 100)
          ]
          >>= λ v. some v)
        (get_current_nothing c n e)
