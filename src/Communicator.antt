-- ===== src/Communicator.antt =====
-- src/network/communicator/dns_communicator_factory.{h,cpp}: an attempt of a client to get a connector,
-- by the callbacks that boost::asio runs for it. A host is resolved to endpoints; without TLS they are
-- tried one after the other by the factory, with TLS by `async_connect`, and then there is a
-- handshake. What asio decides is an argument of the callback. The choice of a protocol is in Alpn.
pub mod Outcomes
pub mod Endpoints
pub mod TlsTimer
mod Tests
use doormat.Base.{ℕ, suc, ◌+◌, Bool, true, false, List, [], ◌∷◌, ◌++◌, ◌≡◌, if◌then◌else◌, is_empty}

-- A call of `connector_cb`, with TLS for the connector or without, or of `error_cb` with its number.
pub data Outcome : Type 0 where
  connected : Bool → Outcome
  failed_with : ℕ → Outcome

pub data Phase : Type 0 where
  resolving : Phase
  connecting : ℕ → List ℕ → Phase
  connecting_any : Phase
  handshaking over : Phase

-- How an operation of asio completes.
pub data Completion : Type 0 where
  done canceled failed : Completion

-- A timer is made by each connect. When it has run out, its callback waits to be run, without an
-- error, whatever is done to the timer then.
pub data Timer : Type 0 where
  idle running due : Timer

-- `timer` is the timer of the connect that was made last, and `late` is how many callbacks of timers are
-- waiting that were cancelled when they had run out. `cancelled` says whether a timer has cancelled the
-- socket. `connects` are the endpoints that each `async_connect` was given, and `outcomes` the calls of
-- the two callbacks, oldest first.
pub record Attempt : Type 0 where
  pub tls : Bool
  pub phase : Phase
  pub timer : Timer
  pub late : ℕ
  pub cancelled : Bool
  pub stopping : Bool
  pub dead : Bool
  pub connects : List (List ℕ)
  pub outcomes : List Outcome

abbrev pub say : Outcome → Attempt → Attempt
say o s = record s { outcomes = s.outcomes ++ (o ∷ []) }

-- An attempt that has said why it goes no further.
abbrev pub give_up : ℕ → Attempt → Attempt
give_up n s = record (say (failed_with n) s) { phase = over }

-- `connect_timer->cancel()`
unfoldable pub cancel_timer : Attempt → Attempt
cancel_timer s = elim s.timer [
  | idle ↦ s
  | running ↦ record s { timer = idle }
  | due ↦ record s { timer = idle; late = s.late + 1 }
]

-- `get_connector`, up to the resolver, whose own timer only cancels it.
unfoldable pub get_connector : Bool → Bool → Attempt
get_connector tls stopping =
    let s : Attempt = record {
      tls = tls;
      phase = resolving;
      timer = idle;
      late = 0;
      cancelled = false;
      stopping = stopping;
      dead = false;
      connects = [];
      outcomes = [];
    } in
    if stopping then give_up 1 s else s

-- Both overloads of `endpoint_connect`: the one for TLS gives all endpoints to `async_connect`, and the
-- other connects to the first and keeps the rest for the callback.
unfoldable pub endpoint_connect : List ℕ → Attempt → Attempt
endpoint_connect [] s = give_up 3 s
endpoint_connect (it ∷ rest) s =
    if s.stopping
    then give_up 3 s
    else if s.tls
    then record s {
      timer = running;
      phase = connecting_any;
      connects = s.connects ++ ((it ∷ rest) ∷ []);
    }
    else record s {
      timer = running;
      phase = connecting it rest;
      connects = s.connects ++ ((it ∷ []) ∷ []);
    }

-- The callback of `async_resolve`, with the endpoints; there are none if it failed.
unfoldable pub on_resolved : List ℕ → Attempt → Attempt
on_resolved its s =
    if s.dead
    then record s { phase = over }
    else if is_empty its
    then give_up 3 s
    else endpoint_connect its s

-- The callback of `async_connect` on a plain socket, with the endpoints that it keeps: what follows the
-- test of `dead` and the timer that is cancelled, and the whole.
unfoldable pub connect_ended : List ℕ → Completion → Attempt → Attempt
connect_ended rest done s = record (say (connected false) s) { phase = over }
connect_ended rest canceled s = record s { phase = over }
connect_ended rest failed s = endpoint_connect rest s

unfoldable pub on_connected : List ℕ → Completion → Attempt → Attempt
on_connected rest c s =
    if s.dead then record s { phase = over } else connect_ended rest c (cancel_timer s)

-- The same with TLS, with the endpoint that asio has stopped at. The timer runs on.
unfoldable pub on_tls_connected : List ℕ → Completion → Attempt → Attempt
on_tls_connected rest c s = if s.dead then record s { phase = over } else elim c [
  | done ↦ record s { phase = handshaking }
  | canceled ↦ record s { phase = over }
  | failed ↦ endpoint_connect rest s
]

-- The callback of `async_handshake`, which does not look at `dead`.
unfoldable pub on_handshake : Completion → Attempt → Attempt
on_handshake c s =
    let t = record (cancel_timer s) { phase = over } in
    elim c [ done ↦ say (connected true) t | canceled ↦ t | failed ↦ say (failed_with 3) t ]

-- The callback of a connect timer, run without an error; it cancels the socket.
unfoldable pub on_connect_timer : Attempt → Attempt
on_connect_timer s = record (say (failed_with 4) s) { cancelled = true }

-- `stop`, and the destructor.
abbrev pub stop : Attempt → Attempt
stop s = record s { stopping = true }

abbrev pub destroy : Attempt → Attempt
destroy s = record s { dead = true }

-- What may happen to an attempt next. A timer that has run out may be cancelled before its callback
-- runs, which then runs nevertheless; and an operation on a socket that is cancelled may have completed
-- before, so that it completes in any way. The last connect of `async_connect` over several endpoints fails
-- behind the last of them.
pub data Step (s : Attempt) (t : Attempt) : Type 0 where
  resolved : (its : List ℕ) → s.phase ≡ resolving → t ≡ on_resolved its s → Step s t
  connect_completed :
      (it : ℕ) (rest : List ℕ) (c : Completion)
      → s.phase ≡ connecting it rest
      → t ≡ on_connected rest c s
      → Step s t
  tls_completed :
      (c : Completion) → s.phase ≡ connecting_any → t ≡ on_tls_connected [] c s → Step s t
  handshake_completed : (c : Completion) → s.phase ≡ handshaking → t ≡ on_handshake c s → Step s t
  timer_expired : s.timer ≡ running → t ≡ record s { timer = due } → Step s t
  timer_handled : s.timer ≡ due → t ≡ on_connect_timer (record s { timer = idle }) → Step s t
  late_handled : (n : ℕ) → s.late ≡ suc n → t ≡ on_connect_timer (record s { late = n }) → Step s t
  stopped : t ≡ stop s → Step s t
  destroyed : t ≡ destroy s → Step s t

pub data Reach (s : Attempt) : Attempt → Type 0 where
  here : Reach s s
  next : {t u : Attempt} → Reach s t → Step t u → Reach s u
