-- ===== src/Multiplexer/Tests.antt =====
-- The theorems on the multiplexer at a connection with two users and one that has gone.
use doormat.Base.{suc, ◌*◌, ◌<◌, ◌≡◌, true, false, none, some, [], ◌∷◌, map, arith}
use doormat.Multiplexer.{Handler, Multiplexer, update_timeout, timeout}
use doormat.Multiplexer.Gcd.{Divides}
use doormat.Multiplexer.Timing.{
  periods, elapsed, IsTimed, new_period, due, update_timeout-periods, timeout-due,
}

abbrev gone : Handler
gone = record { id = 0; alive = false; ecb = none; tcb = some 7; periodicity = 2 }

abbrev armed : Handler
armed = record { id = 1; alive = true; ecb = none; tcb = some 8; periodicity = 3 }

abbrev idle : Handler
idle = record { id = 2; alive = true; ecb = some 9; tcb = none; periodicity = 0 }

-- A timer of 10 ms, of which five ticks are counted.
abbrev shared : Multiplexer
shared = record {
  handlers_list = gone ∷ armed ∷ idle ∷ [];
  timeout_interval = 10;
  self_periodicity = 1;
  max_periodicity = 3;
  tick_count = 5;
  registered = true;
  conn_timeout = 10;
  closed = false;
}

shared-IsTimed : IsTimed shared
shared-IsTimed = record {
  fits = (
    omega arith,
    λ z. omega (arith, z),
    (omega arith, λ z. omega (arith, z), (omega arith, λ z. omega (arith, z), tt)),
  );
  elapsed_fits = omega arith;
  unarmed = λ z. omega (arith, z);
}

update_timeout-periods_example :
    let m' = update_timeout shared 4 in
    (periods m'.timeout_interval m'.handlers_list
      ≡ map (new_period 4) (periods shared.timeout_interval shared.handlers_list))
    × (elapsed m' ≡ elapsed shared)
    × (0 < m'.timeout_interval)
    × Divides m'.timeout_interval 4
    × Divides m'.timeout_interval shared.timeout_interval
    × (m'.conn_timeout ≡ m'.timeout_interval)
update_timeout-periods_example = update_timeout-periods shared 4 shared-IsTimed (omega arith)

timeout-due_example :
    (timeout shared).1
    ≡ due shared.timeout_interval
        (suc shared.tick_count * shared.timeout_interval)
        shared.handlers_list
timeout-due_example = timeout-due shared (omega arith) (omega arith)
