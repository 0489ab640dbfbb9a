-- ===== src/Handler/Output.antt =====
-- The HTTP/1 handler as a writer of its connector: what its serialised bytes come to.
use doormat.Base.{
  ℕ, ◌≡◌, refl, sym, ap, ◌∙◌, ◌&&◌, ◌||◌, false, not, Option, none, some, [], ◌∷◌, ◌++◌, arith,
  Bytes, is_empty, append_assoc, append-nil, Bool-cases, if_both, inl, inr,
}
use doormat.Codec.{Codec}
use doormat.Connector.{Connector, HttpHandler, do_write, write_result, renew_ttl}
use doormat.Connector.Writing.{IsWriter, stream, do_write-stream, do_write-keeps, written_by}
use doormat.Handler.{Traits, Core, http1, request_write, on_write}
use doormat.Handler.Sending.{append, emit}

module _ {M N R : Type 0} where
  pub on_write-unsent :
      (c : Core M N R) → written_by (on_write c).1 ++ (on_write c).0.serialization ≡ c.serialization
  unfolding on_write
  on_write-unsent c = elim (Bool-cases (c.connected && not (is_empty c.serialization))) [
    | inl e ↦ rw e (append-nil c.serialization)
    | inr e ↦ rw e refl
  ]

  pub on_write-keeps :
      {A : Type 0} (f : Core M N R → A)
      → ((c : Core M N R) → f (record c { serialization = [] }) ≡ f c)
      → (c : Core M N R) → f (on_write c).0 ≡ f c
  unfolding on_write
  on_write-keeps f h c = elim (Bool-cases (c.connected && not (is_empty c.serialization))) [
    | inl e ↦ rw e (h c)
    | inr e ↦ rw e refl
  ]

  -- The handler is a writer as its connector needs one.
  abbrev pub http1-IsWriter : IsWriter (http1 {M = M} {N = N} {R = R})
  http1-IsWriter = record {
    unsent = λ c. c.serialization;
    pending = λ c. c.pending_clear_callbacks;
    feedbacks_taken = λ c. refl;
    none_pending = λ c. refl;
    feedbacks_unsent = λ c. refl;
    write_unsent = on_write-unsent;
    write_pending = on_write-keeps (λ c. c.pending_clear_callbacks) (λ c. refl);
  }

  -- The bytes written on the connection and those that still wait.
  abbrev pub output : Connector (Core M N R) ℕ → Bytes
  output s = stream http1 http1-IsWriter s

  request_write-output : (s : Connector (Core M N R) ℕ) → output (request_write s) ≡ output s
  request_write-output s =
      if_both (λ u. output u ≡ output s) s.handler.connected
        (do_write-stream http1 http1-IsWriter s) refl

  request_write-keeps :
      {A : Type 0} (f : Core M N R → A)
      → ((c : Core M N R) → f (record c { serialization = [] }) ≡ f c)
      → ((c : Core M N R) → f (record c { pending_clear_callbacks = [] }) ≡ f c)
      → (s : Connector (Core M N R) ℕ) → f (request_write s).handler ≡ f s.handler
  request_write-keeps f g h s =
      if_both (λ (u : Connector (Core M N R) ℕ). f u.handler ≡ f s.handler) s.handler.connected
        (do_write-keeps http1 f (on_write-keeps f g) h s) refl

  pub emit-output :
      (t : Traits M N R) (s : Connector (Core M N R) ℕ) (p : Codec × Bytes)
      → output (emit t s p) ≡ output s ++ p.1
  unfolding emit
  emit-output t s p =
      request_write-output (append t s p)
      ∙ sym (append_assoc (doormat.Connector.Writing.concat s.written) s.handler.serialization p.1)

  pub emit-encoder :
      (t : Traits M N R) (s : Connector (Core M N R) ℕ) (p : Codec × Bytes)
      → (emit t s p).handler.encoder ≡ p.0
  unfolding emit
  emit-encoder t s p = request_write-keeps (λ c. c.encoder) (λ c. refl) (λ c. refl) (append t s p)

  pub emit-local_store :
      (t : Traits M N R) (s : Connector (Core M N R) ℕ) (p : Codec × Bytes)
      → (emit t s p).handler.local_store ≡ s.handler.local_store
  unfolding emit
  emit-local_store t s p =
      request_write-keeps (λ c. c.local_store) (λ c. refl) (λ c. refl) (append t s p)

  pub emit-locals :
      (t : Traits M N R) (s : Connector (Core M N R) ℕ) (p : Codec × Bytes)
      → (emit t s p).handler.locals ≡ s.handler.locals
  unfolding emit
  emit-locals t s p = request_write-keeps (λ c. c.locals) (λ c. refl) (λ c. refl) (append t s p)

  on_write_some : (c : Core M N R) (b : Bytes) → (on_write c).1 ≡ some b → is_empty b ≡ false
  unfolding on_write
  on_write_some c b e = elim (Bool-cases (c.connected && not (is_empty c.serialization))) [
    | inl y ↦
        let same : c.serialization ≡ b = ground (arith, y, e) in
        ap is_empty (sym same) ∙ ground (arith, y)
    | inr n ↦ absurd (ground (arith, n, e))
  ]

  write_some-stopped :
      (s : Connector (Core M N R) ℕ) (b : Bytes)
      → is_empty b ≡ false
      → (write_result http1 s (some b)).stopped ≡ s.stopped
  write_some-stopped s [] h = cc
  write_some-stopped s (x ∷ xs) h = refl

  write_result-stopped :
      (s : Connector (Core M N R) ℕ) (out : Option Bytes)
      → ((b : Bytes) → out ≡ some b → is_empty b ≡ false)
      → (write_result http1 s out).stopped ≡ s.stopped
  write_result-stopped s none h = refl
  write_result-stopped s (some b) h = write_some-stopped s b (h b refl)

  renew_ttl-stopped : (s : Connector (Core M N R) ℕ) → (renew_ttl http1 s).stopped ≡ s.stopped
  renew_ttl-stopped s = ground arith

  -- Whatever its handler holds, a connector with an HTTP/1 handler is never stopped by `do_write`: the
  -- handler asks for a write only when it has bytes, and `should_stop` is asked only when there are none.
  pub do_write-stopped : (s : Connector (Core M N R) ℕ) → (do_write http1 s).stopped ≡ s.stopped
  unfolding do_write
  do_write-stopped s =
      if_both (λ (u : Connector (Core M N R) ℕ). u.stopped ≡ s.stopped) (s.writing || s.stopped)
        refl
        (write_result-stopped
            (record (renew_ttl http1 s) { handler = (on_write (renew_ttl http1 s).handler).0 })
            (on_write (renew_ttl http1 s).handler).1 (on_write_some (renew_ttl http1 s).handler)
          ∙ renew_ttl-stopped s)
