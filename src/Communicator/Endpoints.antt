-- ===== src/Communicator/Endpoints.antt =====
-- Which endpoints an attempt without TLS connects to, and what it ends with.
use doormat.Base.{
  ℕ, zero, suc, ◌≡◌, refl, ◌∙◌, Bool, true, false, List, [], ◌∷◌, ◌++◌, append_assoc, append-nil,
  length, map, if◌then◌else◌, Bool-cases, inl, inr,
}
use doormat.Communicator.{
  Attempt, resolving, connecting, connecting_any, handshaking, over, idle, running, done, failed,
  Outcome, connected, failed_with, cancel_timer, get_connector, endpoint_connect, on_resolved,
  on_connected, connect_ended,
}

-- The connect under way completes as its endpoint decides, with the endpoints that its callback keeps.
unfoldable pub advance : (ℕ → Bool) → Attempt → Attempt
advance accepts s = elim s.phase [
  | resolving ↦ s
  | connecting it rest ↦ on_connected rest (if accepts it then done else failed) s
  | connecting_any ↦ s
  | handshaking ↦ s
  | over ↦ s
]

unfoldable pub run : (ℕ → Bool) → ℕ → Attempt → Attempt
run accepts zero s = s
run accepts (suc n) s = run accepts n (advance accepts s)

-- The endpoints up to the first that accepts, and whether there is one.
unfoldable pub until : (ℕ → Bool) → List ℕ → List ℕ
until accepts [] = []
until accepts (i ∷ is) = i ∷ (if accepts i then [] else until accepts is)

unfoldable pub accepted : (ℕ → Bool) → List ℕ → Bool
accepted accepts [] = false
accepted accepts (i ∷ is) = if accepts i then true else accepted accepts is

-- What is said at the end.
abbrev pub verdict : Bool → Outcome
verdict found = if found then connected false else failed_with 3

abbrev alone : ℕ → List ℕ
alone i = i ∷ []

abbrev connecting_to : ℕ → List ℕ → List (List ℕ) → Attempt
connecting_to it rest cs = record {
  tls = false;
  phase = connecting it rest;
  timer = running;
  late = 0;
  cancelled = false;
  stopping = false;
  dead = false;
  connects = cs;
  outcomes = [];
}

abbrev ended : Bool → List (List ℕ) → Attempt
ended found cs = record (connecting_to 0 [] cs) {
  phase = over;
  timer = idle;
  outcomes = verdict found ∷ [];
}

run-ended :
    (accepts : ℕ → Bool) (n : ℕ) (found : Bool) (cs : List (List ℕ))
    → run accepts n (ended found cs) ≡ ended found cs
unfolding run advance
run-ended accepts zero found cs = refl
run-ended accepts (suc n) found cs = run-ended accepts n found cs

-- The endpoint that is tried accepts.
run-accepted :
    (accepts : ℕ → Bool) (n it : ℕ) (rest : List ℕ) (cs : List (List ℕ))
    → accepts it ≡ true
    → run accepts (suc n) (connecting_to it rest cs) ≡ ended true cs
unfolding run advance on_connected connect_ended cancel_timer
run-accepted accepts n it rest cs y = rw y (run-ended accepts n true cs)

-- It does not, and it was the last one, or there is another.
run-last :
    (accepts : ℕ → Bool) (n it : ℕ) (cs : List (List ℕ))
    → accepts it ≡ false
    → run accepts (suc n) (connecting_to it [] cs) ≡ ended false cs
unfolding run advance on_connected connect_ended cancel_timer endpoint_connect
run-last accepts n it cs y = rw y (run-ended accepts n false cs)

run-next :
    (accepts : ℕ → Bool) (n it i : ℕ) (rest : List ℕ) (cs : List (List ℕ))
    → accepts it ≡ false
    → run accepts (suc n) (connecting_to it (i ∷ rest) cs)
      ≡ run accepts n (connecting_to i rest (cs ++ (alone i ∷ [])))
unfolding run advance on_connected connect_ended cancel_timer endpoint_connect
run-next accepts n it i rest cs y = rw y refl

-- The endpoints that are tried behind the first one.
abbrev behind : (ℕ → Bool) → ℕ → List ℕ → List (List ℕ)
behind accepts it rest = map alone (if accepts it then [] else until accepts rest)

run-connecting_to :
    (accepts : ℕ → Bool) (it : ℕ) (rest : List ℕ) (cs : List (List ℕ))
    → run accepts (suc (length rest)) (connecting_to it rest cs)
      ≡ ended (accepted accepts (it ∷ rest)) (cs ++ behind accepts it rest)
unfolding accepted until
run-connecting_to accepts it [] cs = elim (Bool-cases (accepts it)) [
  | inl y ↦ rw (run-accepted accepts 0 it [] cs y, y, append-nil cs) refl
  | inr n ↦ rw (run-last accepts 0 it cs n, n, append-nil cs) refl
]
run-connecting_to accepts it (i ∷ rest) cs = elim (Bool-cases (accepts it)) [
  | inl y ↦ rw (run-accepted accepts (suc (length rest)) it (i ∷ rest) cs y, y, append-nil cs) refl
  | inr n ↦
      run-next accepts (suc (length rest)) it i rest cs n
      ∙ run-connecting_to accepts i rest (cs ++ (alone i ∷ []))
      ∙ rw (n, append_assoc cs (alone i ∷ []) (behind accepts i rest)) refl
]

-- An attempt without TLS, of a host with endpoints, that no one stops and no timer overtakes: after as
-- many completions as there are endpoints it is over. It has connected to the endpoints one by one, each
-- once and in their order, up to the first that accepts, and has given out one connector if there is
-- one, and else the error 3, and nothing else.
pub connects_in_turn :
    (accepts : ℕ → Bool) (it : ℕ) (its : List ℕ)
    → (t : Attempt) × (run accepts
          (suc (length its))
          (on_resolved (it ∷ its) (get_connector false false))
        ≡ t)
      × (t.phase ≡ over)
      × (t.connects ≡ map (λ i. i ∷ []) (until accepts (it ∷ its)))
      × (t.outcomes ≡ (if accepted accepts (it ∷ its) then connected false else failed_with 3) ∷ [])
unfolding on_resolved endpoint_connect get_connector until
connects_in_turn accepts it its = (
  ended (accepted accepts (it ∷ its)) ((alone it ∷ []) ++ behind accepts it its),
  run-connecting_to accepts it its (alone it ∷ []),
  refl,
  refl,
  refl,
)
