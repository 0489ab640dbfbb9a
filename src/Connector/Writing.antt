-- ===== src/Connector/Writing.antt =====
-- What the writes of a connector carry, and what becomes of the feedbacks of its handler.
use doormat.Base.{
  ◌≡◌, refl, sym, ap, ◌∙◌, ◌||◌, Bool, true, false, Option, none, some, List, [], ◌∷◌, ◌++◌, map,
  arith, Bytes, append-nil, append_assoc, Bool-cases, inl, inr, if◌then◌else◌, ◌==◌,
}
use doormat.Connector.{
  Connector, HttpHandler, do_write, write_succeeded, write_failed, canceled, failed, Failure,
  write_result, end_write, post, stop, take_feedbacks, renew_ttl,
}

abbrev pub concat : List Bytes → Bytes
concat [] = []
concat (b ∷ bs) = b ++ concat bs

concat-append : (xs ys : List Bytes) → concat (xs ++ ys) ≡ concat xs ++ concat ys
concat-append [] ys = refl
concat-append (x ∷ xs) ys =
    ap (λ l. x ++ l) (concat-append xs ys) ∙ sym (append_assoc x (concat xs) (concat ys))

abbrev pub written_by : Option Bytes → Bytes
written_by none = []
written_by (some b) = b

-- What a connector relies on when it writes: the bytes a handler still has to send, its feedbacks that
-- wait for a write, and that it hands out both in order and once.
pub record IsWriter {ℓ} {H F : Type ℓ} (i : HttpHandler H F) : Type ℓ where
  pub unsent : H → Bytes
  pub pending : H → List F
  pub feedbacks_taken : (h : H) → (HttpHandler.write_feedbacks i h).1 ≡ pending h
  pub none_pending : (h : H) → pending (HttpHandler.write_feedbacks i h).0 ≡ []
  pub feedbacks_unsent : (h : H) → unsent (HttpHandler.write_feedbacks i h).0 ≡ unsent h
  pub write_unsent :
      (h : H)
      → written_by (HttpHandler.on_write i h).1 ++ unsent (HttpHandler.on_write i h).0 ≡ unsent h
  pub write_pending : (h : H) → pending (HttpHandler.on_write i h).0 ≡ pending h

module _ {ℓ} {H F : Type ℓ} (i : HttpHandler H F) (w : IsWriter i) where
  -- All the bytes written and still to be sent, in order.
  abbrev pub stream : Connector H F → Bytes
  stream s = concat s.written ++ IsWriter.unsent w s.handler

  -- All the feedbacks: those handed over, those of the write under way, and those that wait.
  abbrev pub feedbacks : Connector H F → List F
  feedbacks s =
      map (λ (p : F × Bool). p.0) s.posted ++ (s.in_flight ++ IsWriter.pending w s.handler)

  -- No feedback belongs to a write unless one is under way.
  abbrev pub IsIdle : Connector H F → Type ℓ
  IsIdle s = s.writing ≡ false → s.in_flight ≡ []

  stop-stream : (s : Connector H F) → stream (stop i s) ≡ stream s
  stop-stream s = ground arith

  write_result-stream :
      (s : Connector H F) (out : Option Bytes)
      → stream (write_result i s out)
        ≡ concat s.written ++ (written_by out ++ IsWriter.unsent w s.handler)
  write_result-stream s none = rw (IsWriter.feedbacks_unsent w s.handler) refl
  write_result-stream s (some []) = ground (arith, IsWriter.feedbacks_unsent w s.handler)
  write_result-stream s (some (x ∷ xs)) =
      simp (concat-append, append_assoc, append-nil, IsWriter.feedbacks_unsent w s.handler)

  unfoldable asked : Connector H F → Connector H F
  asked s =
      let (h, out) = HttpHandler.on_write i s.handler in
      write_result i (record s { handler = h }) out

  asked-stream : (s : Connector H F) → stream (asked s) ≡ stream s
  unfolding asked
  asked-stream s =
      write_result-stream (record s { handler = (HttpHandler.on_write i s.handler).0 })
        (HttpHandler.on_write i s.handler).1
      ∙ ap (λ l. concat s.written ++ l) (IsWriter.write_unsent w s.handler)

  do_write-asked :
      (s : Connector H F)
      → do_write i s ≡ (if s.writing || s.stopped then s else asked (renew_ttl i s))
  unfolding do_write asked
  do_write-asked s = refl

  -- `do_write` neither loses nor repeats nor reorders a byte, whatever state the connector is in.
  pub do_write-stream : (s : Connector H F) → stream (do_write i s) ≡ stream s
  do_write-stream s =
      rw (do_write-asked s)
        (ground (arith, asked-stream s, asked-stream (record s { timer = true })))

  pub write_succeeded-stream : (s : Connector H F) → stream (write_succeeded i s) ≡ stream s
  unfolding write_succeeded
  write_succeeded-stream s = do_write-stream (post i true s.in_flight (end_write i s))

  firsts : (b : Bool) (cbs : List F) → map (λ (p : F × Bool). p.0) (map (λ cb. (cb, b)) cbs) ≡ cbs
  firsts b [] = refl
  firsts b (x ∷ xs) = ap (λ l. x ∷ l) (firsts b xs)

  firsts-post :
      (b : Bool) (cbs : List F) (l : List (F × Bool)) (rest : List F)
      → map (λ (p : F × Bool). p.0) (l ++ map (λ cb. (cb, b)) cbs) ++ rest
        ≡ map (λ (p : F × Bool). p.0) l ++ (cbs ++ rest)
  firsts-post b cbs [] rest = ap (λ l. l ++ rest) (firsts b cbs)
  firsts-post b cbs (x ∷ xs) rest = ap (λ l. x.0 ∷ l) (firsts-post b cbs xs rest)

  -- Feedbacks taken from the handler and posted, with no write under way.
  taken-feedbacks :
      (s : Connector H F)
      → s.in_flight ≡ []
      → feedbacks (post i true (take_feedbacks i s).1 (take_feedbacks i s).0) ≡ feedbacks s
  taken-feedbacks s e =
      rw
        (
          e,
          IsWriter.none_pending w s.handler,
          IsWriter.feedbacks_taken w s.handler,
          firsts-post true (IsWriter.pending w s.handler) s.posted [],
        )
        (simp append-nil)

  stop-feedbacks : (s : Connector H F) → feedbacks (stop i s) ≡ feedbacks s
  stop-feedbacks s = ground arith

  write_result-feedbacks :
      (s : Connector H F) (out : Option Bytes)
      → s.in_flight ≡ []
      → feedbacks (write_result i s out) ≡ feedbacks s
  write_result-feedbacks s none e = taken-feedbacks s e
  write_result-feedbacks s (some []) e = elim (Bool-cases (HttpHandler.should_stop i s.handler)) [
    | inl t ↦ rw t (
        stop-feedbacks (post i true (take_feedbacks i s).1 (take_feedbacks i s).0)
        ∙ taken-feedbacks s e)
    | inr f ↦ rw f refl
  ]
  write_result-feedbacks s (some (x ∷ xs)) e =
      rw (e, IsWriter.none_pending w s.handler, IsWriter.feedbacks_taken w s.handler)
        (simp append-nil)

  asked-feedbacks : (s : Connector H F) → s.in_flight ≡ [] → feedbacks (asked s) ≡ feedbacks s
  unfolding asked
  asked-feedbacks s e =
      write_result-feedbacks (record s { handler = (HttpHandler.on_write i s.handler).0 })
        (HttpHandler.on_write i s.handler).1 e
      ∙ ap (λ l. map (λ (p : F × Bool). p.0) s.posted ++ (s.in_flight ++ l))
          (IsWriter.write_pending w s.handler)

  pub do_write-feedbacks : (s : Connector H F) → IsIdle s → feedbacks (do_write i s) ≡ feedbacks s
  do_write-feedbacks s e =
      rw (do_write-asked s)
        (ground (arith, e, asked-feedbacks s, asked-feedbacks (record s { timer = true })))

  -- The feedbacks of a write that ends go to the io_service, in order.
  ended-feedbacks :
      (b : Bool) (s : Connector H F)
      → feedbacks (post i b s.in_flight (end_write i s)) ≡ feedbacks s
  ended-feedbacks b s = firsts-post b s.in_flight s.posted (IsWriter.pending w s.handler)

  pub write_failed-feedbacks :
      (f : Failure) (s : Connector H F) → feedbacks (write_failed i f s) ≡ feedbacks s
  unfolding write_failed
  write_failed-feedbacks canceled s = ended-feedbacks false s
  write_failed-feedbacks failed s = ground (arith, ended-feedbacks false s)

  pub write_succeeded-feedbacks :
      (s : Connector H F) → feedbacks (write_succeeded i s) ≡ feedbacks s
  unfolding write_succeeded
  write_succeeded-feedbacks s =
      do_write-feedbacks (post i true s.in_flight (end_write i s)) (λ e. refl)
      ∙ ended-feedbacks true s

-- What `on_write` and `write_feedbacks` leave alone, `do_write` leaves alone.
module _ {ℓ} {H F A : Type ℓ} (i : HttpHandler H F) (f : H → A)
    (write_keeps : (h : H) → f (HttpHandler.on_write i h).0 ≡ f h)
    (feedbacks_keep : (h : H) → f (HttpHandler.write_feedbacks i h).0 ≡ f h) where
  write_result-keeps :
      (s : Connector H F) (out : Option Bytes) → f (write_result i s out).handler ≡ f s.handler
  write_result-keeps s none = feedbacks_keep s.handler
  write_result-keeps s (some []) = ground (arith, feedbacks_keep s.handler)
  write_result-keeps s (some (x ∷ xs)) = feedbacks_keep s.handler

  pub do_write-keeps : (s : Connector H F) → f (do_write i s).handler ≡ f s.handler
  unfolding do_write
  do_write-keeps s = elim (Bool-cases (s.writing || s.stopped)) [
    | inl e ↦ rw e refl
    | inr e ↦ rw e (elim (Bool-cases (s.ttl == 0)) [
      | inl z ↦ rw z (
          write_result-keeps (record s { handler = (HttpHandler.on_write i s.handler).0 })
            (HttpHandler.on_write i s.handler).1
          ∙ write_keeps s.handler)
      | inr z ↦ rw z (
          write_result-keeps
            (record s { timer = true; handler = (HttpHandler.on_write i s.handler).0 })
            (HttpHandler.on_write i s.handler).1
          ∙ write_keeps s.handler)
    ])
  ]
