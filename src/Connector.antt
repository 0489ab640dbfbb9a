-- ===== src/Connector.antt =====
-- src/connector.h: a connector, which moves bytes between a socket and the handler of a connection.
-- The socket is what completes the reads and writes: `written` lists the writes asked of it, `reading`
-- is the region of a read that is under way, and `posted` are the callbacks handed to the io_service,
-- each with whether it is the one for success. The time is what makes the timer expire, and a time to
-- live is a number of milliseconds, 0 for none. The handler is an interface, whose callbacks have the
-- type F; that of the program's own handler is in Handler.
pub mod Writing
pub mod Reading
pub mod Idle
mod Tests
use doormat.Base.{
  ℕ, zero, suc, ◌+◌, ◌≤◌, ◌<◌, ◌≡◌, ◌&&◌, ◌||◌, Bool, true, false, Option, none, some, List, [],
  ◌∷◌, ◌++◌, map, Bytes, ◌==◌, if◌then◌else◌, length, is_empty,
}
use doormat.Buffer.{ReusableBuffer, init, reserve, produce, consume, store}
use doormat.Buffer.Ring.{window}

abbrev pub maxinbytesperloop : ℕ
maxinbytesperloop = 8192

pub record Connector {ℓ} (H : Type ℓ) (F : Type ℓ) : Type ℓ where
  pub handler : H
  pub rb : ReusableBuffer
  pub reading : Option (ℕ × ℕ)
  pub ttl : ℕ
  pub timer : Bool
  pub writing : Bool
  pub stopped : Bool
  pub written : List Bytes
  pub in_flight : List F
  pub posted : List (F × Bool)

-- `http_handler`. In `on_write`, `none` is the result `false`. Its `on_read`, which has its connector at
-- hand and may ask it to write, is an argument of its own.
pub record HttpHandler {ℓ} (H : Type ℓ) (F : Type ℓ) : Type ℓ where
  pub start_handler : H → H × Bool
  pub on_write : H → H × Option Bytes
  pub should_stop : H → Bool
  pub write_feedbacks : H → H × List F
  pub trigger_timeout_event : H → H

-- What may end a read or a write of the socket.
pub data Failure : Type 0 where
  canceled failed : Failure

module _ {ℓ} {H F : Type ℓ} (i : HttpHandler H F) where
  abbrev pub renew_ttl : Connector H F → Connector H F
  renew_ttl s = if s.ttl == 0 then s else record s { timer = true }

  abbrev pub cancel_deadline : Connector H F → Connector H F
  cancel_deadline s = record s { timer = false }

  -- The callback of `schedule_deadline`, when the deadline has expired.
  abbrev pub expire : Connector H F → Connector H F
  expire s =
      renew_ttl
        (record s { timer = false; handler = HttpHandler.trigger_timeout_event i s.handler })

  abbrev pub set_timeout : ℕ → Connector H F → Connector H F
  set_timeout ms s = renew_ttl (record s { ttl = ms })

  abbrev pub stop : Connector H F → Connector H F
  stop s = if s.stopped then s else record s { stopped = true; timer = false; ttl = 0 }

  -- Callbacks posted to the io_service.
  abbrev pub post : Bool → List F → Connector H F → Connector H F
  post success cbs s = record s { posted = s.posted ++ map (λ cb. (cb, success)) cbs }

  abbrev pub take_feedbacks : Connector H F → Connector H F × List F
  take_feedbacks s =
      let (h, cbs) = HttpHandler.write_feedbacks i s.handler in (record s { handler = h }, cbs)

  -- The part of `do_write` behind `on_write` that has returned true with `out`.
  abbrev pub write_out : Bytes → Connector H F → Connector H F
  write_out out s =
      if is_empty out && HttpHandler.should_stop i s.handler
      then (let (s', cbs) = take_feedbacks s in stop (post true cbs s'))
      else if is_empty out
      then s
      else (let (s', cbs) = take_feedbacks s in
          record s' { writing = true; written = s'.written ++ (out ∷ []); in_flight = cbs })

  abbrev pub write_result : Connector H F → Option Bytes → Connector H F
  write_result s none = let (s', cbs) = take_feedbacks s in post true cbs s'
  write_result s (some out) = write_out out s

  unfoldable pub do_write : Connector H F → Connector H F
  do_write s =
      if s.writing || s.stopped
      then s
      else (let t = renew_ttl s in
          let (h, out) = HttpHandler.on_write i t.handler in
          write_result (record t { handler = h }) out)

  -- The completion of a write.
  abbrev pub end_write : Connector H F → Connector H F
  end_write s = record (cancel_deadline s) { writing = false; in_flight = [] }

  unfoldable pub write_succeeded : Connector H F → Connector H F
  write_succeeded s = do_write (post true s.in_flight (end_write s))

  unfoldable pub write_failed : Failure → Connector H F → Connector H F
  write_failed canceled s = post false s.in_flight (end_write s)
  write_failed failed s = post false s.in_flight (stop (end_write s))

  unfoldable pub do_read : Connector H F → Connector H F
  do_read s =
      if s.stopped
      then s
      else (let t = renew_ttl s in
          let (b, start, n) = reserve maxinbytesperloop t.rb in
          record t { rb = b; reading = some (start, n) })

  -- The constructor and `handler`.
  abbrev pub make : H → Connector H F
  make h = record {
    handler = h;
    rb = init;
    reading = none;
    ttl = 0;
    timer = false;
    writing = false;
    stopped = false;
    written = [];
    in_flight = [];
    posted = [];
  }

  unfoldable pub start : Connector H F → Connector H F
  start s =
      let (h, started) = HttpHandler.start_handler i s.handler in
      let t = record s { handler = h } in if started then do_read t else t

  -- What follows `on_read`, which was given `len` bytes at `tmp`.
  abbrev pub after_read : ℕ → Connector H F × Bool → Connector H F
  after_read ptr (s, true) = do_read (record s { rb = (consume maxinbytesperloop s.rb ptr).0 })
  after_read ptr (s, false) = stop s

  unfoldable pub read_failed : Failure → Connector H F → Connector H F
  read_failed canceled s = record (cancel_deadline s) { reading = none }
  read_failed failed s = stop (record (cancel_deadline s) { reading = none })

  -- What a handler may do to its connector: change its own state, or call an operation.
  pub data Uses (s : Connector H F) : Connector H F → Type ℓ where
    none_of_it : Uses s s
    handled : {t : Connector H F} → Uses s t → (h : H) → Uses s (record t { handler = h })
    asked_write : {t : Connector H F} → Uses s t → Uses s (do_write t)
    asked_stop : {t : Connector H F} → Uses s t → Uses s (stop t)
    asked_timeout : {t : Connector H F} → Uses s t → (ms : ℕ) → Uses s (set_timeout ms t)
    asked_post : {t : Connector H F} → Uses s t → (b : Bool) (cbs : List F) → Uses s (post b cbs t)

module _ {ℓ} {H F : Type ℓ} (i : HttpHandler H F)
    (on_read : Connector H F → Bytes → Connector H F × Bool) where
  -- The completion of a read, with the bytes that the socket has stored in the region from `start`
  -- on. `none` is a null pointer handed to the handler, or the assertion that some bytes came.
  unfoldable pub read_succeeded : ℕ → Bytes → Connector H F → Option (Connector H F)
  read_succeeded start bytes s =
      let t = record (cancel_deadline i s) { reading = none } in
      let (b, ptr) =
        produce maxinbytesperloop (record t.rb { mem = store t.rb.mem start bytes })
          (length bytes) in
      if is_empty bytes then none else elim ptr [
        | none ↦ none
        | some tmp ↦ some (
            after_read i (tmp + length bytes)
              (on_read (record t { rb = b }) (window b.mem tmp (length bytes))))
      ]

  -- What may happen to a connector next: the socket completes a read or a write, the timer expires,
  -- or the program acts on the handler. A read into a region that is not empty completes with
  -- at least one byte.
  pub data Step (s : Connector H F) (t : Connector H F) : Type ℓ where
    read :
        (start n : ℕ) (bytes : Bytes)
        → s.reading ≡ some (start, n)
        → length bytes ≤ n
        → (length bytes ≡ 0 → n ≡ 0)
        → read_succeeded start bytes s ≡ some t
        → Step s t
    read_error : (f : Failure) (r : ℕ × ℕ) → s.reading ≡ some r → t ≡ read_failed i f s → Step s t
    wrote : s.writing ≡ true → t ≡ write_succeeded i s → Step s t
    write_error : (f : Failure) → s.writing ≡ true → t ≡ write_failed i f s → Step s t
    expired : s.timer ≡ true → t ≡ expire i s → Step s t
    acted : Uses i s t → Step s t

  pub data Reach (s : Connector H F) : Connector H F → Type ℓ where
    here : Reach s s
    next : {t u : Connector H F} → Reach s t → Step t u → Reach s u
