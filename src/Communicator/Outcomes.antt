-- ===== src/Communicator/Outcomes.antt =====
-- How often an attempt to connect answers.
use doormat.Base.{
  ℕ, suc, ◌+◌, ◌≤◌, ◌≡◌, refl, ap, ◌∙◌, sym, subst, Bool, true, false, ◌==◌, List, [], ◌∷◌, ◌++◌,
  arith, if◌then◌else◌, length, length-append, is_empty, if_both,
}
use doormat.Communicator.{
  Attempt, Phase, resolving, connecting, connecting_any, over, Timer, idle, running, due,
  Completion, done, canceled, failed, Outcome, connected, failed_with, say, cancel_timer,
  get_connector, endpoint_connect, on_resolved, on_connected, connect_ended, on_tls_connected,
  on_handshake, on_connect_timer, Step, resolved, connect_completed, tls_completed,
  handshake_completed, timer_expired, timer_handled, late_handled, stopped, destroyed, Reach, here,
  next,
}

-- The error 4 is that of a timer; every other answer ends the attempt.
abbrev pub is_expiry : Outcome → Bool
is_expiry (connected tls) = false
is_expiry (failed_with n) = n == 4

unfoldable pub conclusions : List Outcome → ℕ
conclusions [] = 0
conclusions (o ∷ os) = if is_expiry o then conclusions os else suc (conclusions os)

unfoldable pub expiries : List Outcome → ℕ
expiries [] = 0
expiries (o ∷ os) = if is_expiry o then suc (expiries os) else expiries os

conclusions-append :
    (os : List Outcome) (o : Outcome)
    → conclusions (os ++ (o ∷ [])) ≡ conclusions os + (if is_expiry o then 0 else 1)
unfolding conclusions
conclusions-append [] o = ground arith
conclusions-append (x ∷ os) o = ground (arith, conclusions-append os o)

expiries-append :
    (os : List Outcome) (o : Outcome)
    → expiries (os ++ (o ∷ [])) ≡ expiries os + (if is_expiry o then 1 else 0)
unfolding expiries
expiries-append [] o = ground arith
expiries-append (x ∷ os) o = ground (arith, expiries-append os o)

-- Whether an answer that ends the attempt may still come, and whether one of the last timer may.
abbrev pub open_ended : Phase → ℕ
open_ended over = 0
open_ended p = 1

abbrev pub armed : Timer → ℕ
armed idle = 0
armed t = 1

pub record IsSound (s : Attempt) : Type 0 where
  pub once : conclusions s.outcomes + open_ended s.phase ≤ 1
  pub timers : expiries s.outcomes + (s.late + armed s.timer) ≤ length s.connects

over-IsSound : (s : Attempt) → IsSound s → IsSound (record s { phase = over })
over-IsSound s h = record { once = omega (arith, h.once); timers = h.timers }

-- An answer that ends an attempt that is not over.
concluded-IsSound :
    (s : Attempt) (o : Outcome)
    → is_expiry o ≡ false
    → IsSound s
    → open_ended s.phase ≡ 1
    → IsSound (record (say o s) { phase = over })
concluded-IsSound s o e h p = record {
  once = ground (arith, conclusions-append s.outcomes o, e, h.once, p);
  timers = ground (arith, expiries-append s.outcomes o, e, h.timers);
}

cancel_timer-armed :
    (k : Timer) (s : Attempt)
    → IsSound (record s { timer = k })
    → IsSound (cancel_timer (record s { timer = k }))
unfolding cancel_timer
cancel_timer-armed idle s h = h
cancel_timer-armed running s h = record { once = h.once; timers = omega (arith, h.timers) }
cancel_timer-armed due s h = record { once = h.once; timers = omega (arith, h.timers) }

cancel_timer-IsSound : (s : Attempt) → IsSound s → IsSound (cancel_timer s)
cancel_timer-IsSound s h = cancel_timer-armed s.timer s h

phase-cancel_timer : (s : Attempt) → (cancel_timer s).phase ≡ s.phase
unfolding cancel_timer
phase-cancel_timer s = ground arith

-- A connect that is made while an answer may come.
started-IsSound :
    (p : Phase) (its : List ℕ) (s : Attempt)
    → IsSound s
    → open_ended s.phase ≡ 1
    → open_ended p ≡ 1
    → IsSound (record s { timer = running; phase = p; connects = s.connects ++ (its ∷ []) })
started-IsSound p its s h e f = record {
  once = omega (arith, h.once, e, f);
  timers = omega (arith, h.timers, length-append s.connects (its ∷ []));
}

endpoint_connect-IsSound :
    (its : List ℕ) (s : Attempt)
    → IsSound s
    → open_ended s.phase ≡ 1
    → IsSound (endpoint_connect its s)
unfolding endpoint_connect
endpoint_connect-IsSound [] s h p = concluded-IsSound s (failed_with 3) refl h p
endpoint_connect-IsSound (it ∷ rest) s h p =
    if_both IsSound s.stopping (concluded-IsSound s (failed_with 3) refl h p) (
      if_both IsSound s.tls (started-IsSound connecting_any (it ∷ rest) s h p refl)
        (started-IsSound (connecting it rest) (it ∷ []) s h p refl))

on_resolved-IsSound :
    (its : List ℕ) (s : Attempt) → IsSound s → s.phase ≡ resolving → IsSound (on_resolved its s)
unfolding on_resolved
on_resolved-IsSound its s h p =
    let unfinished : open_ended s.phase ≡ 1 = ap open_ended p in
    if_both IsSound s.dead (over-IsSound s h) (
      if_both IsSound (is_empty its) (concluded-IsSound s (failed_with 3) refl h unfinished)
        (endpoint_connect-IsSound its s h unfinished))

connect_ended-IsSound :
    (rest : List ℕ) (c : Completion) (s : Attempt)
    → IsSound s
    → open_ended s.phase ≡ 1
    → IsSound (connect_ended rest c s)
unfolding connect_ended
connect_ended-IsSound rest done s h p = concluded-IsSound s (connected false) refl h p
connect_ended-IsSound rest canceled s h p = over-IsSound s h
connect_ended-IsSound rest failed s h p = endpoint_connect-IsSound rest s h p

on_connected-IsSound :
    (rest : List ℕ) (c : Completion) (s : Attempt)
    → IsSound s
    → open_ended s.phase ≡ 1
    → IsSound (on_connected rest c s)
unfolding on_connected
on_connected-IsSound rest c s h p = if_both IsSound s.dead (over-IsSound s h) (
    connect_ended-IsSound rest c (cancel_timer s) (cancel_timer-IsSound s h)
      (ap open_ended (phase-cancel_timer s) ∙ p))

on_tls_connected-IsSound :
    (c : Completion) (s : Attempt)
    → IsSound s
    → s.phase ≡ connecting_any
    → IsSound (on_tls_connected [] c s)
unfolding on_tls_connected
on_tls_connected-IsSound done s h p =
    if_both IsSound s.dead (over-IsSound s h)
      (record { once = omega (arith, h.once, ap open_ended p); timers = h.timers })
on_tls_connected-IsSound canceled s h p =
    if_both IsSound s.dead (over-IsSound s h) (over-IsSound s h)
on_tls_connected-IsSound failed s h p =
    if_both IsSound s.dead (over-IsSound s h) (endpoint_connect-IsSound [] s h (ap open_ended p))

on_handshake-IsSound :
    (c : Completion) (s : Attempt) → IsSound s → open_ended s.phase ≡ 1 → IsSound (on_handshake c s)
unfolding on_handshake
on_handshake-IsSound c s h p =
    let k = cancel_timer-IsSound s h in
    let e = ap open_ended (phase-cancel_timer s) ∙ p in
    elim c as (λ c. IsSound (on_handshake c s)) [
      | done ↦ concluded-IsSound (cancel_timer s) (connected true) refl k e
      | canceled ↦ over-IsSound (cancel_timer s) k
      | failed ↦ concluded-IsSound (cancel_timer s) (failed_with 3) refl k e
    ]

-- The callback of a timer, which is waiting no more.
on_connect_timer-IsSound :
    (s : Attempt)
    → conclusions s.outcomes + open_ended s.phase ≤ 1
    → suc (expiries s.outcomes + (s.late + armed s.timer)) ≤ length s.connects
    → IsSound (on_connect_timer s)
unfolding on_connect_timer
on_connect_timer-IsSound s h k = record {
  once = omega (arith, h, conclusions-append s.outcomes (failed_with 4));
  timers = omega (arith, k, expiries-append s.outcomes (failed_with 4));
}

-- Each step of an attempt.
Step-IsSound : {s t : Attempt} → Step s t → IsSound s → IsSound t
Step-IsSound {s} (resolved its p e) h = subst IsSound (sym e) (on_resolved-IsSound its s h p)
Step-IsSound {s} (connect_completed it rest c p e) h =
    subst IsSound (sym e) (on_connected-IsSound rest c s h (ap open_ended p))
Step-IsSound {s} (tls_completed c p e) h = subst IsSound (sym e) (on_tls_connected-IsSound c s h p)
Step-IsSound {s} (handshake_completed c p e) h =
    subst IsSound (sym e) (on_handshake-IsSound c s h (ap open_ended p))
Step-IsSound {s} (timer_expired m e) h =
    subst IsSound (sym e) (record { once = h.once; timers = omega (arith, h.timers, ap armed m) })
Step-IsSound {s} (timer_handled m e) h = subst IsSound (sym e) (
    on_connect_timer-IsSound (record s { timer = idle }) h.once
      (omega (arith, h.timers, ap armed m)))
Step-IsSound {s} (late_handled n m e) h =
    subst IsSound (sym e)
      (on_connect_timer-IsSound (record s { late = n }) h.once (omega (arith, h.timers, m)))
Step-IsSound (stopped e) h = subst IsSound (sym e) (record { once = h.once; timers = h.timers })
Step-IsSound (destroyed e) h = subst IsSound (sym e) (record { once = h.once; timers = h.timers })

Reach-IsSound : {s t : Attempt} → IsSound s → Reach s t → IsSound t
Reach-IsSound h here = h
Reach-IsSound h (next r st) = Step-IsSound st (Reach-IsSound h r)

get_connector-IsSound : (tls stopping : Bool) → IsSound (get_connector tls stopping)
unfolding get_connector conclusions expiries
get_connector-IsSound tls true = record { once = omega arith; timers = omega arith }
get_connector-IsSound tls false = record { once = omega arith; timers = omega arith }

-- Whatever the resolver, the endpoints, the handshake, the timers and the callers of `stop` and of the
-- destructor do and in whatever order, cancellations that come too late included, an attempt gives at
-- most one answer besides the error 4, be it a connector or another error, and the error 4 at most once
-- for each connect that it has made.
pub concludes_once :
    (tls stopping : Bool) (t : Attempt)
    → Reach (get_connector tls stopping) t
    → (conclusions t.outcomes ≤ 1) × (expiries t.outcomes ≤ length t.connects)
concludes_once tls stopping t r =
    let h = Reach-IsSound (get_connector-IsSound tls stopping) r in
    (omega (arith, h.once), omega (arith, h.timers))
