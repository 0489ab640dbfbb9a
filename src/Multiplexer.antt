-- ===== src/Multiplexer.antt =====
-- src/http/client/client_connection_multiplexer.{h,cpp}: several users of one client connection, each
-- with a handler of its own; one timer of the connection serves the timeouts of all handlers.
-- A user's callback is a number, and calling it is an entry of the output. Callbacks are taken to
-- return without calling the multiplexer again. An entry of `handlers_list` is the object behind the
-- weak pointer, with `alive` false once the pointer has expired. `assert(ms.count() > 0)` is a
-- hypothesis of the theorems. A `size_t` is multiplied mod 2 ^ 64.
pub mod Gcd
pub mod Timing
pub mod Invariant
pub mod Expiry
mod Tests
use doormat.Base.{
  ℕ, zero, suc, ◌+◌, ◌*◌, ◌/◌, ◌%◌, ◌^◌, max, ◌&&◌, Bool, true, false, not, Option, none, some,
  List, [], ◌∷◌, ◌++◌, map, ◌==◌, if◌then◌else◌, is_empty,
}
use Gcd.{gcd}

pub record Handler : Type 0 where
  pub id : ℕ
  pub alive : Bool
  pub ecb : Option ℕ
  pub tcb : Option ℕ
  pub periodicity : ℕ

-- The last three fields are what the multiplexer has asked of the connection: whether its callbacks
-- are registered, the interval of the connection's timer, and whether it was closed.
pub record Multiplexer : Type 0 where
  pub handlers_list : List Handler
  pub timeout_interval : ℕ
  pub self_periodicity : ℕ
  pub max_periodicity : ℕ
  pub tick_count : ℕ
  pub registered : Bool
  pub conn_timeout : ℕ
  pub closed : Bool

-- The constructor; `init` registers the callbacks.
abbrev pub make : Multiplexer
make = record {
  handlers_list = [];
  timeout_interval = 0;
  self_periodicity = 1;
  max_periodicity = 1;
  tick_count = 0;
  registered = false;
  conn_timeout = 0;
  closed = false;
}

unfoldable init : Multiplexer → Multiplexer
init m = record m { registered = true }

-- The new handler gets the name `id`.
unfoldable get_handler : Multiplexer → ℕ → Multiplexer
get_handler m id = record m { handlers_list = m.handlers_list ++ (fresh ∷ []) }
  where
    fresh : Handler
    fresh = record { id = id; alive = true; ecb = none; tcb = none; periodicity = 0 }

-- The body of the loop over the handlers in `update_timeout`.
unfoldable rearm : ℕ → ℕ → ℕ → Handler → Handler
rearm multiplier count interval h =
    if h.alive
    then (if h.periodicity == 0
        then record h { periodicity = count / interval }
        else record h { periodicity = h.periodicity * multiplier % 2 ^ 64 })
    else h

pub update_timeout : Multiplexer → ℕ → Multiplexer
unfolding rearm
update_timeout m ms =
    let old_gcd = if m.timeout_interval == 0 then ms else m.timeout_interval in
    let interval = gcd ms old_gcd in
    let multiplier = old_gcd / interval in
    record m {
      timeout_interval = interval;
      self_periodicity = m.self_periodicity * multiplier % 2 ^ 64;
      tick_count = m.tick_count * multiplier % 2 ^ 64;
      max_periodicity = max (m.max_periodicity * multiplier % 2 ^ 64) (ms / interval);
      handlers_list = map (rearm multiplier ms interval) m.handlers_list;
      registered = true;
      conn_timeout = interval;
    }

set_tcb : ℕ → ℕ → Handler → Handler
set_tcb id callback h = if h.id == id then record h { tcb = some callback } else h

-- `client_connection_handler::on_timeout`, called on the handler `id`.
unfoldable on_timeout : Multiplexer → ℕ → ℕ → ℕ → Multiplexer
unfolding set_tcb
on_timeout m id ms callback =
    update_timeout (record m { handlers_list = map (set_tcb id callback) m.handlers_list }) ms

set_ecb : ℕ → ℕ → Handler → Handler
set_ecb id callback h = if h.id == id then record h { ecb = some callback } else h

-- `client_connection_handler::on_error`, called on the handler `id`.
unfoldable on_error : Multiplexer → ℕ → ℕ → Multiplexer
unfolding set_ecb
on_error m id callback = record m { handlers_list = map (set_ecb id callback) m.handlers_list }

pub deregister_handlers : Multiplexer → Multiplexer
deregister_handlers m = record m { registered = false; conn_timeout = 0 }

-- Advances past expired handlers until the first that is alive, and erases what it passed.
unfoldable drop_expired : List Handler → List Handler
drop_expired [] = []
drop_expired (h ∷ hs) = if h.alive then h ∷ hs else drop_expired hs

pub clear_expired : Multiplexer → Multiplexer
unfolding drop_expired deregister_handlers
clear_expired m =
    let m' = record m { handlers_list = drop_expired m.handlers_list } in
    if is_empty m'.handlers_list then deregister_handlers m' else m'

abbrev to_list : Option ℕ → List ℕ
to_list none = []
to_list (some c) = c ∷ []

-- The timeout callbacks that one tick calls.
unfoldable fire : ℕ → List Handler → List ℕ
fire tick [] = []
fire tick (h ∷ hs) =
    (if h.alive && (not (h.periodicity == 0) && (tick % h.periodicity == 0))
      then to_list h.tcb
      else [])
    ++ fire tick hs

pub timeout : Multiplexer → Multiplexer × List ℕ
unfolding fire clear_expired
timeout m =
    let tick = (m.tick_count + 1) % 2 ^ 64 in
    (clear_expired (record m { tick_count = tick }), fire tick m.handlers_list)

-- The error callbacks of all handlers that are alive.
unfoldable broadcast : List Handler → List ℕ
broadcast [] = []
broadcast (h ∷ hs) = (if h.alive then to_list h.ecb else []) ++ broadcast hs

-- The error callback that `init` registers with the connection.
unfoldable connection_error : Multiplexer → Multiplexer × List ℕ
unfolding broadcast deregister_handlers
connection_error m =
    (deregister_handlers (record m { handlers_list = [] }), broadcast m.handlers_list)

-- The callback that `init` registers for a request that was sent.
unfoldable request_sent : Multiplexer → Multiplexer
unfolding clear_expired
request_sent m = clear_expired m

unfoldable close : Multiplexer → Multiplexer × List ℕ
unfolding broadcast deregister_handlers
close m = (record (deregister_handlers m) { closed = true }, broadcast m.handlers_list)
