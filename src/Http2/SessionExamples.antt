-- ===== src/Http2/SessionExamples.antt =====
-- The theorems on the loss of a connector at the session of a client with two streams.
use doormat.Base.{
  ℕ, ◌≡◌, refl, true, false, none, Bool-cases, inl, inr, some, [], ◌∷◌, arith, Bytes, codes, ◌==◌,
}
use doormat.Http2.Client.{PseudoHeaders}
use doormat.Http2.Session.{count, place, new_stream}
use doormat.Http2.Listeners.{present}
use doormat.Http2.ClientSession.{ClientSession, request_eom, run_posted, on_connector_nulled}
use doormat.Http2.Losses.{ended_dies_twice}
use doormat.Http2.Survivors.{dead, nulled_dies_once}

abbrev two_streams : ClientSession Bytes
two_streams = record {
  session_data = [];
  listeners = 5 ∷ 8 ∷ [];
  pending = [];
  streams =
      place 5 (some new_stream) (place 8 (some (record new_stream { eof = true })) (λ id. none));
  stream_counter = 2;
  connected = true;
  user_close = false;
  gone = false;
  errors = [];
  told = [];
  posted = [];
  asked = [];
  writes = 0;
}

abbrev root : PseudoHeaders
root = record {
  method = codes "GET";
  scheme = codes "https";
  authority = codes "a.b";
  path = codes "/";
}

-- One stream, whose request is under way.
abbrev one_stream : ClientSession Bytes
one_stream = record two_streams {
  listeners = 5 ∷ [];
  streams = place 5 (some new_stream) (λ id. none);
  stream_counter = 1;
}

listed_once : count 5 one_stream.listeners ≡ 1
unfolding count
listed_once = refl

ended_dies_twice_example :
    (t : ClientSession Bytes) × (u : ClientSession Bytes) × (request_eom root 5 one_stream ≡ some t)
    × ((on_connector_nulled t).posted ≡ 5 ∷ 5 ∷ [])
    × (count 5 (on_connector_nulled t).posted ≡ 2)
    × (run_posted (5 ∷ []) (on_connector_nulled t) ≡ some u)
    × (u.streams 5 ≡ none)
    × (run_posted (5 ∷ []) u ≡ none)
    × (run_posted (on_connector_nulled t).posted (on_connector_nulled t) ≡ none)
ended_dies_twice_example =
    ended_dies_twice root 5 new_stream one_stream refl refl listed_once refl refl

all_listed_once : (id : ℕ) → count id two_streams.listeners ≡ present (two_streams.streams id)
unfolding count
all_listed_once id = elim (Bool-cases (id == 5)) [
  | inl y ↦ rw y (ground (arith, y))
  | inr n ↦ elim (Bool-cases (id == 8)) [
    | inl y ↦ rw (n, y) (ground (arith, n, y))
    | inr m ↦ rw (n, m) (ground (arith, n, m))
  ]
]

nulled_dies_once_example :
    (t : ClientSession Bytes) × (run_posted
        (on_connector_nulled two_streams).posted
        (on_connector_nulled two_streams)
      ≡ some t)
    × ((id : ℕ) → t.streams id ≡ dead (two_streams.streams id))
nulled_dies_once_example = nulled_dies_once two_streams all_listed_once refl refl
