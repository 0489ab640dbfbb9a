-- ===== src/Connector/Reading.antt =====
-- The reads of a connector: each is offered the whole buffer, and the handler gets what came.
use doormat.Base.{
  some-inj, ℕ, ◌+◌, ◌≤◌, ◌≡◌, refl, subst, sym, ap, ◌∙◌, ◌⊎◌, inl, inr, ◌||◌, Bool, true, false,
  Option, none, some, [], ◌∷◌, arith, Bytes, Bool-cases, length, ◌==◌,
}
use doormat.Buffer.{ReusableBuffer, reserve, avail_mem, produce, advance, consume, store}
use doormat.Buffer.Ring.{window, window-store_self}
use doormat.Connector.{
  Connector, HttpHandler, canceled, failed, Step, Reach, Uses, make, start, do_write, do_read,
  write_succeeded, write_failed, read_succeeded, here, next, read, read_error, wrote, write_error,
  expired, acted, none_of_it, handled, asked_write, asked_stop, asked_timeout, asked_post,
  read_failed, after_read, write_result, stop, set_timeout, maxinbytesperloop,
}
use doormat.Connector.Idle.{IsReader}

module _ {ℓ} {H F : Type ℓ} (i : HttpHandler H F)
    (on_read : Connector H F → Bytes → Connector H F × Bool) (r : IsReader i on_read) where
  -- Either no read is under way, or one that is offered the whole of an empty buffer.
  pub record IsReading (s : Connector H F) : Type 0 where
    pub whole : s.reading ≡ some (0, maxinbytesperloop)
    pub unbound : s.rb.bound ≡ false
    pub rd_zero : s.rb.rd ≡ 0
    pub wr_zero : s.rb.wr ≡ 0

  abbrev IsReady : Connector H F → Type 0
  IsReady s = (s.reading ≡ none) ⊎ IsReading s

  abbrev SameReads : Connector H F → Connector H F → Type 0
  SameReads s t = (t.rb ≡ s.rb) × (t.reading ≡ s.reading)

  write_result-SameReads :
      (s : Connector H F) (out : Option Bytes) → SameReads s (write_result i s out)
  write_result-SameReads s none = (refl, refl)
  write_result-SameReads s (some []) = ground arith
  write_result-SameReads s (some (x ∷ xs)) = (refl, refl)

  do_write-SameReads : (s : Connector H F) → SameReads s (do_write i s)
  unfolding do_write
  do_write-SameReads s = elim (Bool-cases (s.writing || s.stopped)) [
    | inl e ↦ rw e (refl, refl)
    | inr e ↦ rw e (elim (Bool-cases (s.ttl == 0)) [
      | inl z ↦ rw z (
          write_result-SameReads (record s { handler = (HttpHandler.on_write i s.handler).0 })
            (HttpHandler.on_write i s.handler).1)
      | inr z ↦ rw z (
          write_result-SameReads
            (record s { timer = true; handler = (HttpHandler.on_write i s.handler).0 })
            (HttpHandler.on_write i s.handler).1)
    ])
  ]

  stop-SameReads : (s : Connector H F) → SameReads s (stop i s)
  stop-SameReads s = ground arith

  set_timeout-SameReads : (ms : ℕ) (s : Connector H F) → SameReads s (set_timeout i ms s)
  set_timeout-SameReads ms s = ground arith

  SameReads-trans : (s t u : Connector H F) → SameReads s t → SameReads t u → SameReads s u
  SameReads-trans s t u p q = (q.0 ∙ p.0, q.1 ∙ p.1)

  Uses-SameReads : {s t : Connector H F} → Uses i s t → SameReads s t
  Uses-SameReads none_of_it = (refl, refl)
  Uses-SameReads (handled u g) = Uses-SameReads u
  Uses-SameReads {s} (asked_write {t} u) =
      SameReads-trans s t (do_write i t) (Uses-SameReads u) (do_write-SameReads t)
  Uses-SameReads {s} (asked_stop {t} u) =
      SameReads-trans s t (stop i t) (Uses-SameReads u) (stop-SameReads t)
  Uses-SameReads {s} (asked_timeout {t} u ms) =
      SameReads-trans s t (set_timeout i ms t) (Uses-SameReads u) (set_timeout-SameReads ms t)
  Uses-SameReads (asked_post u b cbs) = Uses-SameReads u

  SameReads-IsReady : (s t : Connector H F) → IsReady s → SameReads s t → IsReady t
  SameReads-IsReady s t (inl e) p = inl (p.1 ∙ e)
  SameReads-IsReady s t (inr x) p = inr record {
    whole = p.1 ∙ x.whole;
    unbound = ap (λ b. b.bound) p.0 ∙ x.unbound;
    rd_zero = ap (λ b. b.rd) p.0 ∙ x.rd_zero;
    wr_zero = ap (λ b. b.wr) p.0 ∙ x.wr_zero;
  }

  -- An empty buffer is offered whole to the next read.
  do_read-IsReady :
      (s : Connector H F)
      → s.reading ≡ none
      → s.rb.bound ≡ false
      → s.rb.rd ≡ s.rb.wr
      → IsReady (do_read i s)
  unfolding do_read reserve avail_mem
  do_read-IsReady s e b d = elim (Bool-cases s.stopped) [
    | inl st ↦ inl (rw st e)
    | inr st ↦ inr record {
      whole = ground (arith, st, b, d);
      unbound = ground (arith, st, b, d);
      rd_zero = ground (arith, st, b, d);
      wr_zero = ground (arith, st, b, d);
    }
  ]

  produce-whole :
      (b : ReusableBuffer) (n : ℕ)
      → b.bound ≡ false
      → b.rd ≡ 0
      → b.wr ≡ 0
      → n ≤ maxinbytesperloop
      → ((produce maxinbytesperloop b n).1 ≡ some 0)
        × ((produce maxinbytesperloop b n).0.mem ≡ b.mem)
        × ((consume maxinbytesperloop (produce maxinbytesperloop b n).0 n).0.bound ≡ false)
        × ((consume maxinbytesperloop (produce maxinbytesperloop b n).0 n).0.rd
            ≡ (consume maxinbytesperloop (produce maxinbytesperloop b n).0 n).0.wr)
  unfolding produce avail_mem advance consume
  produce-whole b n e r w h = ground (arith, e, r, w, h)

  -- The connector that hands `bytes` to its handler.
  abbrev handing : Bytes → Connector H F → Connector H F
  handing bytes s = record s {
    timer = false;
    reading = none;
    rb =
        (produce maxinbytesperloop (record s.rb { mem = store s.rb.mem 0 bytes }) (length bytes)).0;
  }

  read_whole :
      (s : Connector H F) (x : ℕ) (xs : Bytes)
      → IsReading s
      → length (x ∷ xs) ≤ maxinbytesperloop
      → read_succeeded i on_read 0 (x ∷ xs) s
        ≡ some (after_read i (length (x ∷ xs)) (on_read (handing (x ∷ xs) s) (x ∷ xs)))
  unfolding read_succeeded
  read_whole s x xs h l =
      let m = store s.rb.mem 0 (x ∷ xs) in
      let p =
        produce-whole (record s.rb { mem = m }) (length (x ∷ xs)) h.unbound h.rd_zero h.wr_zero l in
      let zero_add : 0 + length (x ∷ xs) ≡ length (x ∷ xs) = omega arith in
      rw (p.0, zero_add)
        (ap (λ given. some (after_read i (length (x ∷ xs)) (on_read (handing (x ∷ xs) s) given)))
          (ap (λ f. window f 0 (length (x ∷ xs))) p.1 ∙ window-store_self s.rb.mem 0 (x ∷ xs)))

  after_read-IsReady :
      (s : Connector H F) (x : ℕ) (xs : Bytes)
      → IsReading s
      → length (x ∷ xs) ≤ maxinbytesperloop
      → (t : Connector H F) (ok : Bool) → SameReads (handing (x ∷ xs) s) t
      → IsReady (after_read i (length (x ∷ xs)) (t, ok))
  after_read-IsReady s x xs h l t true e =
      let m = store s.rb.mem 0 (x ∷ xs) in
      let p =
        produce-whole (record s.rb { mem = m }) (length (x ∷ xs)) h.unbound h.rd_zero h.wr_zero l in
      do_read-IsReady (record t { rb = (consume maxinbytesperloop t.rb (length (x ∷ xs))).0 }) e.1
        (rw e.0 p.2) (rw e.0 p.3)
  after_read-IsReady s x xs h l t false e = inl ((stop-SameReads t).1 ∙ e.1)

  read-IsReady :
      (s t : Connector H F) (at n : ℕ) (bytes : Bytes)
      → IsReading s
      → s.reading ≡ some (at, n)
      → length bytes ≤ n
      → (length bytes ≡ 0 → n ≡ 0)
      → read_succeeded i on_read at bytes s ≡ some t
      → IsReady t
  read-IsReady s t at n [] h e l z eq = absurd (ground (arith, h.whole, e, z))
  read-IsReady s t at n (x ∷ xs) h e l z eq =
      let fits : length (x ∷ xs) ≤ maxinbytesperloop = ground (arith, h.whole, e, l) in
      let from_zero : at ≡ 0 = ground (arith, h.whole, e) in
      let got = on_read (handing (x ∷ xs) s) (x ∷ xs) in
      let out : after_read i (length (x ∷ xs)) got ≡ t = some-inj (
        sym (read_whole s x xs h fits)
        ∙ (ap (λ a. read_succeeded i on_read a (x ∷ xs) s) (sym from_zero) ∙ eq)) in
      subst IsReady out (
        after_read-IsReady s x xs h fits got.0 got.1
          (Uses-SameReads (IsReader.uses r (handing (x ∷ xs) s) (x ∷ xs))))

  Step-IsReady : {s t : Connector H F} → IsReady s → Step i on_read s t → IsReady t
  unfolding write_succeeded write_failed read_failed
  Step-IsReady {s} {t} h (read at n bytes e l z eq) = elim h [
    | inl none_read ↦ absurd (ground (arith, none_read, e))
    | inr x ↦ read-IsReady s t at n bytes x e l z eq
  ]
  Step-IsReady {s} h (read_error canceled p q e) = rw e (inl refl)
  Step-IsReady {s} h (read_error failed p q e) = rw e (inl (stop-SameReads _).1)
  Step-IsReady {s} h (wrote b e) = rw e (SameReads-IsReady s _ h (do_write-SameReads _))
  Step-IsReady {s} h (write_error canceled b e) = rw e (SameReads-IsReady s _ h (refl, refl))
  Step-IsReady {s} h (write_error failed b e) = rw e (SameReads-IsReady s _ h (stop-SameReads _))
  Step-IsReady {s} h (expired b e) = rw e (SameReads-IsReady s _ h (ground arith))
  Step-IsReady {s} {t} h (acted u) = SameReads-IsReady s t h (Uses-SameReads u)

  Reach-IsReady : {s t : Connector H F} → IsReady s → Reach i on_read s t → IsReady t
  Reach-IsReady h here = h
  Reach-IsReady h (next p st) = Step-IsReady (Reach-IsReady h p) st

  start-IsReady : (h : H) → IsReady (start i (make i h))
  unfolding start do_read reserve avail_mem
  start-IsReady h = elim (Bool-cases (HttpHandler.start_handler i h).1) [
    | inl e ↦ rw e (inr record { whole = refl; unbound = refl; rd_zero = refl; wr_zero = refl })
    | inr e ↦ rw e (inl refl)
  ]

  -- Whatever socket, timer, handler and callers have done since the start of a connector, a read that
  -- is under way has been offered all 8192 bytes of the buffer; and when the socket completes it with
  -- some bytes that fit, no assertion fails and the handler is given exactly these bytes, on a
  -- connector with the same handler state and no read under way.
  pub read_delivers :
      (h : H) (s : Connector H F)
      → Reach i on_read (start i (make i h)) s
      → (at n x : ℕ) (xs : Bytes) → s.reading ≡ some (at, n)
      → length (x ∷ xs) ≤ n
      → (n ≡ maxinbytesperloop)
        × ((c : Connector H F) × (c.handler ≡ s.handler)
            × (c.reading ≡ none)
            × (read_succeeded i on_read at (x ∷ xs) s
                ≡ some (after_read i (length (x ∷ xs)) (on_read c (x ∷ xs)))))
  read_delivers h s p at n x xs e l = elim (Reach-IsReady (start-IsReady h) p) [
    | inl none_read ↦ absurd (ground (arith, none_read, e))
    | inr ready ↦
        let from_zero : at ≡ 0 = ground (arith, ready.whole, e) in
        let whole : n ≡ maxinbytesperloop = ground (arith, ready.whole, e) in
        (
          whole,
          (
            handing (x ∷ xs) s,
            refl,
            refl,
            ap (λ a. read_succeeded i on_read a (x ∷ xs) s) from_zero
                ∙ read_whole s x xs ready (ground (arith, whole, l)),
          ),
        )
  ]
