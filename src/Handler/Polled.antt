-- ===== src/Handler/Polled.antt =====
-- What a round of sending puts on the connection: the pieces of the object, encoded in order.
use doormat.Base.{
  ℕ, zero, suc, ◌+◌, ◌<◌, ◌≡◌, refl, sym, ap, ◌∙◌, Bool, true, false, Option, none, some, List, [],
  ◌∷◌, ◌++◌, arith, Bytes, bytes_eq, if◌then◌else◌, length, append_assoc, append-nil, ==_refl, ◌==◌,
}
use doormat.Headers.{has, get_header, hf_connection, hv_keepalive, ◌>>=◌}
use doormat.Codec.{Codec}
use doormat.Connector.{Connector}
use doormat.Objects.Local.{Local, LocalState, content_state}
use doormat.Handler.{Traits, Core}
use doormat.Handler.Sending.{
  emit, notify_local_headers, notify_local_body, notify_local_trailer, notify_local_end, set_local,
  finish_local, poll_round, poll_loop, poll_local, rounds,
}
use doormat.Handler.Pieces.{then_piece_inv, end_piece, trailer_pieces, body_pieces, all_pieces}
use doormat.Handler.Output.{output, emit-output, emit-encoder, emit-local_store, emit-locals}

-- What is left of an object that has been polled so far.
abbrev stage {ℓ} : {N : Type ℓ} → Local N → Option N → Bytes → List (Bytes × Bytes) → Local N
stage o m b ts = record o { message = m; content = b; trailers = ts; continue_required = false }

module _ {M N R : Type 0} where
  -- The queue and the objects other than one are as they were.
  abbrev pub Kept : ℕ → Connector (Core M N R) ℕ → Connector (Core M N R) ℕ → Type 0
  Kept id s u =
      (u.handler.locals ≡ s.handler.locals)
      × ((j : ℕ) → (j == id) ≡ false → u.handler.local_store j ≡ s.handler.local_store j)

  -- What polling has come to.
  abbrev Polls : Traits M N R → ℕ → ℕ → Connector (Core M N R) ℕ → Bool → Codec → Bytes → Type 0
  Polls t fuel id s e c bytes =
      (u : Connector (Core M N R) ℕ) × (poll_loop t fuel id s ≡ some (u, e))
      × (u.handler.encoder ≡ c)
      × (output u ≡ output s ++ bytes)
      × Kept id s u

  module _ (t : Traits M N R)
      (plain : (o : Local N)
        → o.continue_required ≡ false
        → Traits.get_state t o ≡ (o, content_state o))
      (id : ℕ) where
    poll_step :
        (fuel : ℕ) (s : Connector (Core M N R) ℕ) (o : Local N)
        → s.handler.local_store id ≡ some o
        → o.continue_required ≡ false
        → poll_loop t (suc fuel) id s ≡ poll_round t (poll_loop t fuel id) id s o (content_state o)
    unfolding poll_loop
    poll_step fuel s o e h =
        ap
          (λ x. x >>= λ loc.
            let (o', state) = Traits.get_state t loc in
            poll_round t (poll_loop t fuel id) id s o' state)
          e
        ∙ ap (λ (p : Local N × LocalState). poll_round t (poll_loop t fuel id) id s p.0 p.1)
            (plain o h)

    -- The object is in the store as it was put there.
    emit-set_local :
        (s : Connector (Core M N R) ℕ) (o : Local N) (c : Core M N R) (p : Codec × Bytes)
        → c.local_store ≡ (set_local t id o s).handler.local_store
        → (emit t (record s { handler = c }) p).handler.local_store id ≡ some o
    emit-set_local s o c p e =
        ap (λ store. store id) (emit-local_store t (record s { handler = c }) p ∙ e)
        ∙ rw (==_refl id) refl

    -- The rest is as it was.
    emit-Kept :
        (s : Connector (Core M N R) ℕ) (o : Local N) (c : Core M N R) (p : Codec × Bytes)
        → c.local_store ≡ (set_local t id o s).handler.local_store
        → c.locals ≡ s.handler.locals
        → Kept id s (emit t (record s { handler = c }) p)
    emit-Kept s o c p e l = (
      emit-locals t (record s { handler = c }) p ∙ l,
      λ j n.
          ap (λ store. store j) (emit-local_store t (record s { handler = c }) p ∙ e) ∙ rw n refl,
    )

    poll_end :
        (fuel : ℕ) (s : Connector (Core M N R) ℕ) (o : Local N) (c : Codec) (bytes : Bytes)
        (ended : Bool)
        → s.handler.local_store id ≡ some (record (stage o none [] []) { ended = ended })
        → end_piece s.handler.encoder ended ≡ some (c, bytes)
        → Polls t (suc fuel) id s ended c bytes
    unfolding poll_round finish_local notify_local_end
    poll_end fuel s o c bytes true e p =
        let o' = record (stage o none [] []) { ended = true } in
        let s1 = set_local t id o' s in
        let s2 = record s1 {
          handler = record s1.handler {
            pending_clear_callbacks = s.handler.pending_clear_callbacks ++ (id ∷ []);
          };
        } in
        let u = emit t s2 (c, bytes) in
        (
          record u { handler = record u.handler { clears = u.handler.clears + 1 } },
          poll_step fuel s o' e refl
              ∙ ap
                  (λ x.
                    x
                    >>= (λ q. some (emit t s2 q))
                    >>= (λ v.
                        some (record v {
                          handler = record v.handler { clears = v.handler.clears + 1 };
                        }))
                    >>= λ v. some (v, true))
                  p,
          emit-encoder t s2 (c, bytes),
          emit-output t s2 (c, bytes),
          emit-Kept s o' s2.handler (c, bytes) refl refl,
        )
    poll_end fuel s o c bytes false e p =
        let o' = record (stage o none [] []) { ended = false } in
        (
          set_local t id o' s,
          poll_step fuel s o' e refl,
          ground (arith, p),
          sym (append-nil (output s)) ∙ ap (λ l. output s ++ l) (ground (arith, p)),
          (refl, λ j n. rw n refl),
        )

    poll_after :
        (fuel : ℕ) (s s' : Connector (Core M N R) ℕ) (ended : Bool) (c : Codec)
        (first rest bytes : Bytes)
        → poll_loop t (suc fuel) id s ≡ poll_loop t fuel id s'
        → output s' ≡ output s ++ first
        → first ++ rest ≡ bytes
        → Kept id s s'
        → Polls t fuel id s' ended c rest
        → Polls t (suc fuel) id s ended c bytes
    poll_after fuel s s' ended c first rest bytes step out all kept (u, result, enc, o, more) = (
      u,
      step ∙ result,
      enc,
      o
          ∙ (ap (λ l. l ++ rest) out
              ∙ (append_assoc (output s) first rest ∙ ap (λ l. output s ++ l) all)),
      (more.0 ∙ kept.0, λ j n. more.1 j n ∙ kept.1 j n),
    )

    poll_trailers :
        (fuel : ℕ) (s : Connector (Core M N R) ℕ) (o : Local N) (c : Codec) (bytes : Bytes)
        (ended : Bool) (ts : List (Bytes × Bytes))
        → length ts < fuel
        → s.handler.local_store id ≡ some (record (stage o none [] ts) { ended = ended })
        → trailer_pieces s.handler.encoder ts ended ≡ some (c, bytes)
        → Polls t fuel id s ended c bytes
    unfolding poll_round notify_local_trailer
    poll_trailers zero s o c bytes ended ts h e p = absurd (omega arith)
    poll_trailers (suc fuel) s o c bytes ended [] h e p = poll_end fuel s o c bytes ended e p
    poll_trailers (suc fuel) s o c bytes ended (kv ∷ kvs) h e p =
        let (q, rest, x, k, all) = then_piece_inv _ (λ c'. trailer_pieces c' kvs ended) c bytes p in
        let o' = record (stage o none [] kvs) { ended = ended } in
        let s1 = set_local t id o' s in
        let s' = emit t s1 q in
        poll_after fuel s s' ended c q.1 rest bytes
          (poll_step fuel s (record (stage o none [] (kv ∷ kvs)) { ended = ended }) e refl
            ∙ ap (λ y. y >>= (λ z. some (emit t s1 z)) >>= poll_loop t fuel id) x)
          (emit-output t s1 q) all (emit-Kept s o' s1.handler q refl refl)
          (poll_trailers fuel s' o c rest ended kvs (omega arith)
            (emit-set_local s o' s1.handler q refl)
            (ap (λ c'. trailer_pieces c' kvs ended) (emit-encoder t s1 q) ∙ k))

    poll_body :
        (fuel : ℕ) (s : Connector (Core M N R) ℕ) (o : Local N) (c : Codec) (bytes : Bytes)
        (ended : Bool) (b : Bytes) (ts : List (Bytes × Bytes))
        → suc (length ts) < fuel
        → s.handler.local_store id ≡ some (record (stage o none b ts) { ended = ended })
        → body_pieces s.handler.encoder b ts ended ≡ some (c, bytes)
        → Polls t fuel id s ended c bytes
    unfolding poll_round notify_local_body
    poll_body zero s o c bytes ended b ts h e p = absurd (omega arith)
    poll_body (suc fuel) s o c bytes ended [] ts h e p =
        poll_trailers (suc fuel) s o c bytes ended ts (omega arith) e p
    poll_body (suc fuel) s o c bytes ended (b ∷ bs) ts h e p =
        let (q, rest, x, k, all) = then_piece_inv _ (λ c'. trailer_pieces c' ts ended) c bytes p in
        let o' = record (stage o none [] ts) { ended = ended } in
        let s1 = set_local t id o' s in
        let s' = emit t s1 q in
        poll_after fuel s s' ended c q.1 rest bytes
          (poll_step fuel s (record (stage o none (b ∷ bs) ts) { ended = ended }) e refl
            ∙ ap (λ y. y >>= (λ z. some (emit t s1 z)) >>= poll_loop t fuel id) x)
          (emit-output t s1 q) all (emit-Kept s o' s1.handler q refl refl)
          (poll_trailers fuel s' o c rest ended ts (omega arith)
            (emit-set_local s o' s1.handler q refl)
            (ap (λ c'. trailer_pieces c' ts ended) (emit-encoder t s1 q) ∙ k))

    poll_message :
        (fuel : ℕ) (s : Connector (Core M N R) ℕ) (o : Local N) (c : Codec) (bytes : Bytes)
        (ended : Bool) (m : Option N) (b : Bytes) (ts : List (Bytes × Bytes))
        → suc (suc (length ts)) < fuel
        → s.handler.local_store id ≡ some (record (stage o m b ts) { ended = ended })
        → all_pieces t s.handler.encoder m b ts ended ≡ some (c, bytes)
        → Polls t fuel id s ended c bytes
    unfolding poll_round notify_local_headers
    poll_message zero s o c bytes ended m b ts h e p = absurd (omega arith)
    poll_message (suc fuel) s o c bytes ended none b ts h e p =
        poll_body (suc fuel) s o c bytes ended b ts (omega arith) e p
    poll_message (suc fuel) s o c bytes ended (some m) b ts h e p =
        let (q, rest, x, k, all) = then_piece_inv _ (λ c'. body_pieces c' b ts ended) c bytes p in
        let o' = record (stage o none b ts) { ended = ended } in
        let s1 = set_local t id o' s in
        let base = Traits.local_base t m in
        let c1 = record s1.handler {
          persistent =
              if has base hf_connection
              then bytes_eq (get_header base hf_connection) hv_keepalive
              else s.handler.persistent;
        } in
        let s2 = record s1 { handler = c1 } in
        let s' = emit t s2 q in
        poll_after fuel s s' ended c q.1 rest bytes
          (poll_step fuel s (record (stage o (some m) b ts) { ended = ended }) e refl
            ∙ ap (λ y. y >>= (λ z. some (emit t s2 z)) >>= poll_loop t fuel id) x)
          (emit-output t s2 q) all (emit-Kept s o' c1 q refl refl)
          (poll_body fuel s' o c rest ended b ts (omega arith) (emit-set_local s o' c1 q refl)
            (ap (λ c'. body_pieces c' b ts ended) (emit-encoder t s2 q) ∙ k))

    pub poll_local-pieces :
        (s : Connector (Core M N R) ℕ) (o : Local N) (c : Codec) (bytes : Bytes)
        → s.handler.local_store id ≡ some o
        → o.continue_required ≡ false
        → all_pieces t s.handler.encoder o.message o.content o.trailers o.ended ≡ some (c, bytes)
        → (u : Connector (Core M N R) ℕ) × (poll_local t id s ≡ some (u, o.ended))
          × (u.handler.encoder ≡ c)
          × (output u ≡ output s ++ bytes)
          × Kept id s u
    unfolding poll_local rounds
    poll_local-pieces s o c bytes e h p =
        let (u, result, rest, out, kept) =
          poll_message (length o.trailers + 3) s o c bytes o.ended o.message o.content o.trailers
            (omega arith) (e ∙ ap (λ v. some (record o { continue_required = v })) h) p in
        (
          u,
          ap (λ x. x >>= λ loc. poll_loop t (length loc.trailers + 3) id s) e ∙ result,
          rest,
          out,
          kept,
        )
