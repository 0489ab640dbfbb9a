-- ===== src/Connector/Idle.antt =====
-- In every state that a connector can come to, its feedbacks are accounted for.
use doormat.Base.{
  ℕ, ◌+◌, ◌≡◌, refl, ◌||◌, ◌==◌, Bool, true, false, Option, none, some, [], ◌∷◌, subst,
  Option-cases, arith, Bytes, Bool-cases, inl, inr, length,
}
use doormat.Buffer.{produce, consume, store}
use doormat.Buffer.Ring.{window}
use doormat.Connector.{
  Connector, HttpHandler, Failure, canceled, failed, Step, Reach, Uses, make, start, do_write,
  do_read, write_succeeded, write_failed, read_succeeded, here, next, read, read_error, wrote,
  write_error, expired, acted, none_of_it, handled, asked_write, asked_stop, asked_timeout,
  asked_post, read_failed, after_read, write_result, stop, set_timeout, maxinbytesperloop,
}
use doormat.Connector.Writing.{
  IsWriter, IsIdle, feedbacks, do_write-feedbacks, write_succeeded-feedbacks,
  write_failed-feedbacks,
}

-- A handler reaches its connector by its operations only.
pub record IsReader {ℓ} {H F : Type ℓ} (i : HttpHandler H F)
    (on_read : Connector H F → Bytes → Connector H F × Bool) : Type ℓ where
  pub uses : (s : Connector H F) (bytes : Bytes) → Uses i s (on_read s bytes).0

module _ {ℓ} {H F : Type ℓ} (i : HttpHandler H F)
    (on_read : Connector H F → Bytes → Connector H F × Bool) (w : IsWriter i)
    (r : IsReader i on_read) where
  write_result-IsIdle :
      (s : Connector H F) (out : Option Bytes) → IsIdle i w s → IsIdle i w (write_result i s out)
  write_result-IsIdle s none h = h
  write_result-IsIdle s (some []) h = ground arith
  write_result-IsIdle s (some (x ∷ xs)) h = λ e. cc

  do_write-IsIdle : (s : Connector H F) → IsIdle i w s → IsIdle i w (do_write i s)
  unfolding do_write
  do_write-IsIdle s h = elim (Bool-cases (s.writing || s.stopped)) [
    | inl e ↦ rw e h
    | inr e ↦ rw e (elim (Bool-cases (s.ttl == 0)) [
      | inl z ↦ rw z (
          write_result-IsIdle (record s { handler = (HttpHandler.on_write i s.handler).0 })
            (HttpHandler.on_write i s.handler).1 h)
      | inr z ↦ rw z (
          write_result-IsIdle
            (record s { timer = true; handler = (HttpHandler.on_write i s.handler).0 })
            (HttpHandler.on_write i s.handler).1 h)
    ])
  ]

  stop-IsIdle : (s : Connector H F) → IsIdle i w s → IsIdle i w (stop i s)
  stop-IsIdle s h = ground arith

  set_timeout-IsIdle : (ms : ℕ) (s : Connector H F) → IsIdle i w s → IsIdle i w (set_timeout i ms s)
  set_timeout-IsIdle ms s h = ground arith

  Uses-IsIdle : {s t : Connector H F} → IsIdle i w s → Uses i s t → IsIdle i w t
  Uses-IsIdle h none_of_it = h
  Uses-IsIdle h (handled u g) = Uses-IsIdle h u
  Uses-IsIdle h (asked_write {t} u) = do_write-IsIdle t (Uses-IsIdle h u)
  Uses-IsIdle h (asked_stop {t} u) = stop-IsIdle t (Uses-IsIdle h u)
  Uses-IsIdle h (asked_timeout {t} u ms) = set_timeout-IsIdle ms t (Uses-IsIdle h u)
  Uses-IsIdle h (asked_post u b cbs) = Uses-IsIdle h u

  do_read-IsIdle : (s : Connector H F) → IsIdle i w s → IsIdle i w (do_read i s)
  unfolding do_read
  do_read-IsIdle s h = ground arith

  after_read-IsIdle :
      (ptr : ℕ) (s : Connector H F) (ok : Bool)
      → IsIdle i w s
      → IsIdle i w (after_read i ptr (s, ok))
  after_read-IsIdle ptr s true h =
      do_read-IsIdle (record s { rb = (consume maxinbytesperloop s.rb ptr).0 }) h
  after_read-IsIdle ptr s false h = stop-IsIdle s h

  read_succeeded-IsIdle :
      (at : ℕ) (bytes : Bytes) (s t : Connector H F)
      → IsIdle i w s
      → read_succeeded i on_read at bytes s ≡ some t
      → IsIdle i w t
  unfolding read_succeeded
  read_succeeded-IsIdle at [] s t h e = cc
  read_succeeded-IsIdle at (x ∷ xs) s t h e =
      let m = store s.rb.mem at (x ∷ xs) in
      let p = produce maxinbytesperloop (record s.rb { mem = m }) (length (x ∷ xs)) in
      elim (Option-cases p.1) [
        | inl o ↦ absurd (ground (arith, o, e))
        | inr (tmp, o) ↦
            let c = record s { timer = false; reading = none; rb = p.0 } in
            let got = on_read c (window p.0.mem tmp (length (x ∷ xs))) in
            let out : after_read i (tmp + length (x ∷ xs)) got ≡ t = ground (arith, o, e) in
            subst (λ u. IsIdle i w u) out
              (after_read-IsIdle (tmp + length (x ∷ xs)) got.0 got.1
                (Uses-IsIdle {s = c} h (IsReader.uses r c (window p.0.mem tmp (length (x ∷ xs))))))
      ]

  Step-IsIdle : {s t : Connector H F} → IsIdle i w s → Step i on_read s t → IsIdle i w t
  unfolding write_succeeded write_failed read_failed
  Step-IsIdle {s} {t} h (read at n bytes e l z eq) = read_succeeded-IsIdle at bytes s t h eq
  Step-IsIdle {s} h (read_error canceled p q e) = rw e h
  Step-IsIdle {s} h (read_error failed p q e) = rw e (ground arith)
  Step-IsIdle {s} h (wrote b e) = rw e (do_write-IsIdle _ (λ x. refl))
  Step-IsIdle {s} h (write_error canceled b e) = rw e (λ x. refl)
  Step-IsIdle {s} h (write_error failed b e) = rw e (ground arith)
  Step-IsIdle {s} h (expired b e) = rw e (ground arith)
  Step-IsIdle h (acted u) = Uses-IsIdle h u

  Reach-IsIdle : {s t : Connector H F} → IsIdle i w s → Reach i on_read s t → IsIdle i w t
  Reach-IsIdle h here = h
  Reach-IsIdle h (next p st) = Step-IsIdle (Reach-IsIdle h p) st

  start-IsIdle : (h : H) → IsIdle i w (start i (make i h))
  unfolding start do_read
  start-IsIdle h = ground arith

  -- From its start on, whatever socket, timer, handler and callers do, a connector hands over each
  -- feedback once: a call of `do_write` and the end of a write, good or bad, keep the list of those
  -- handed over, those of the write under way and those that wait, in its order.
  pub feedbacks_kept :
      (h : H) (s : Connector H F)
      → Reach i on_read (start i (make i h)) s
      → (feedbacks i w (do_write i s) ≡ feedbacks i w s)
        × (feedbacks i w (write_succeeded i s) ≡ feedbacks i w s)
        × ((f : Failure) → feedbacks i w (write_failed i f s) ≡ feedbacks i w s)
  feedbacks_kept h s p = (
    do_write-feedbacks i w s (Reach-IsIdle (start-IsIdle h) p),
    write_succeeded-feedbacks i w s,
    λ f. write_failed-feedbacks i w f s,
  )
