-- ===== src/Http2/Losses.antt =====
-- src/http2/session_client.cpp: what the loss of its connector does to the streams of a client.
use doormat.Base.{
  suc, ℕ, ◌≡◌, ◌≤◌, refl, sym, ap, ◌∙◌, true, false, Option, none, some, List, [], ◌∷◌, ◌++◌, arith,
  ◌==◌, ◌||◌, ◌&&◌, some-inj, some-ne-none, if◌then◌else◌, Bool-cases, Option-cases, inl, inr,
}
use doormat.Http2.Stream.{Stream}
use doormat.Http2.Client.{PseudoHeaders, client_die, client_flush, client_on_eom}
use doormat.Http2.Session.{count, place}
use doormat.Http2.ClientSession.{
  ClientSession, act, perform, unsubscribe, run_posted, request_eom, notify_error,
  on_connector_nulled,
}

-- What the streams are once one of them has been let die.
abbrev pub after : ℕ → Stream → (ℕ → Option Stream) → ℕ → Option Stream
after x st streams j =
    if j == x
    then (if st.eof || st.errored then none else some (record st { closed = true }))
    else streams j

placed : (id : ℕ) (o : Option Stream) (f : ℕ → Option Stream) → place id o f id ≡ o
placed id o f = elim (Bool-cases (id == id)) [
  | inl y ↦ rw y refl
  | inr n ↦ absurd (ground (arith, n))
]

count_first : (id : ℕ) (xs : List ℕ) → count id (id ∷ xs) ≡ suc (count id xs)
unfolding count
count_first id xs = ground arith

module _ {N : Type 0} where
  abbrev pub let_die : ℕ → Stream → ClientSession N → ClientSession N
  let_die x st s =
      perform x (client_die st).1
        (record s { streams = place x (some (client_die st).0) s.streams })

  act-client_die :
      (x : ℕ) (st : Stream) (s : ClientSession N)
      → s.streams x ≡ some st
      → act x client_die s ≡ some (let_die x st s)
  unfolding act
  act-client_die x st s e = rw e refl

  pub streams-let_die :
      (x : ℕ) (st : Stream) (s : ClientSession N) (j : ℕ)
      → (let_die x st s).streams j ≡ after x st s.streams j
  unfolding perform unsubscribe client_die
  streams-let_die x st s j = elim (Bool-cases (st.eof || st.errored)) [
    | inl y ↦ elim (Bool-cases (j == x)) [ inl a ↦ rw (y, a) refl | inr b ↦ rw (y, b) refl ]
    | inr n ↦ elim (Bool-cases (j == x)) [ inl a ↦ rw (n, a) refl | inr b ↦ rw (n, b) refl ]
  ]

  pub run_posted_first :
      (x : ℕ) (xs : List ℕ) (st : Stream) (s : ClientSession N)
      → s.streams x ≡ some st
      → run_posted (x ∷ xs) s ≡ run_posted xs (let_die x st s)
  unfolding run_posted
  run_posted_first x xs st s e = rw (act-client_die x st s e) refl

  run_posted_stopped :
      (x : ℕ) (xs : List ℕ) (s : ClientSession N)
      → s.streams x ≡ none
      → run_posted (x ∷ xs) s ≡ none
  unfolding run_posted act
  run_posted_stopped x xs s e = rw e refl

  pub same_stream : (i j : ℕ) (s : ClientSession N) → (i == j) ≡ true → s.streams j ≡ s.streams i
  same_stream i j s y = ap s.streams (ground (arith, y))

  ended :
      (i j : ℕ) (s : ClientSession N) (st st' : Stream)
      → (i == j) ≡ true
      → s.streams i ≡ some st
      → s.streams j ≡ some st'
      → st.eof ≡ true
      → st'.eof ≡ true
  ended i j s st st' y e e' eof =
      let same : st ≡ st' = some-inj (sym e ∙ (sym (same_stream i j s y) ∙ e')) in
      ap (λ (t : Stream). t.eof) (sym same) ∙ eof

  -- A stream that is not there cannot die.
  run_posted_absent :
      (id : ℕ) (xs : List ℕ) (s : ClientSession N)
      → s.streams id ≡ none
      → 1 ≤ count id xs
      → run_posted xs s ≡ none
  unfolding run_posted count
  run_posted_absent id [] s n h = absurd (omega (arith, h))
  run_posted_absent id (x ∷ xs) s n h = elim (Option-cases (s.streams x)) [
    | inl gone ↦ run_posted_stopped x xs s gone
    | inr (st, e) ↦
        let other : (id == x) ≡ false = elim (Bool-cases (id == x)) [
          | inl y ↦ absurd (some-ne-none (sym e ∙ same_stream id x s y ∙ n))
          | inr b ↦ b
        ] in
        run_posted_first x xs st s e
        ∙ run_posted_absent id xs (let_die x st s) (streams-let_die x st s id ∙ (rw other n))
            (ground (arith, h, other))
  ]

  -- One that has ended cannot die twice.
  run_posted_twice :
      (id : ℕ) (xs : List ℕ) (s : ClientSession N) (st : Stream)
      → s.streams id ≡ some st
      → st.eof ≡ true
      → 2 ≤ count id xs
      → run_posted xs s ≡ none
  unfolding run_posted count
  run_posted_twice id [] s st e eof h = absurd (omega (arith, h))
  run_posted_twice id (x ∷ xs) s st e eof h = elim (Option-cases (s.streams x)) [
    | inl gone ↦ run_posted_stopped x xs s gone
    | inr (st', e') ↦ run_posted_first x xs st' s e' ∙ elim (Bool-cases (id == x)) [
      | inl y ↦
          run_posted_absent id xs (let_die x st' s)
            (streams-let_die x st' s id ∙ (rw (y, ended id x s st st' y e e' eof) refl))
            (ground (arith, h))
      | inr n ↦
          run_posted_twice id xs (let_die x st' s) st (streams-let_die x st' s id ∙ (rw n e)) eof
            (ground (arith, h, n))
    ]
  ]

  -- What a flush leaves as it is.
  abbrev Same : ClientSession N → ClientSession N → Type 0
  Same s t =
      (t.streams ≡ s.streams)
      × (t.listeners ≡ s.listeners)
      × (t.pending ≡ s.pending)
      × (t.posted ≡ s.posted)

  perform-client_flush :
      (p : PseudoHeaders) (id : ℕ) (st : Stream) (s : ClientSession N)
      → Same s (perform id (client_flush p st).1 s) × ((client_flush p st).0.eof ≡ st.eof)
  unfolding perform client_flush
  perform-client_flush p id st s = elim (Bool-cases st.closed) [
    | inl a ↦ rw a ((refl, refl, refl, refl), refl)
    | inr a ↦ elim (Bool-cases (st.status == 101)) [
      | inl b ↦ rw (a, b) ((refl, refl, refl, refl), refl)
      | inr b ↦ elim (Bool-cases st.resume_needed) [
        | inl c ↦ rw (a, b, c) ((refl, refl, refl, refl), refl)
        | inr c ↦ elim (Bool-cases st.headers_sent) [
          | inr d ↦ rw (a, b, c, d) ((refl, refl, refl, refl), refl)
          | inl d ↦ elim (Bool-cases (st.body_sent && st.eof)) [
            | inl e ↦ rw (a, b, c, d, e) ((refl, refl, refl, refl), refl)
            | inr e ↦ rw (a, b, c, d, e) ((refl, refl, refl, refl), refl)
          ]
        ]
      ]
    ]
  ]

  run_posted_one :
      (id : ℕ) (st : Stream) (s : ClientSession N)
      → s.streams id ≡ some st
      → st.eof ≡ true
      → run_posted (id ∷ []) s ≡ some (let_die id st s) × ((let_die id st s).streams id ≡ none)
  unfolding run_posted
  run_posted_one id st s e eof = (
    run_posted_first id [] st s e,
    streams-let_die id st s id ∙ elim (Bool-cases (id == id)) [
      | inl y ↦ rw (y, eof) refl
      | inr n ↦ absurd (ground (arith, n))
    ],
  )

  -- A stream of a client's session is alive, open and listed once, and no feedback is waited for and no
  -- error callback is under way. When its user ends its request, and the connector is lost before it
  -- has taken the feedback for that, the error callback of the request is posted twice: before those of
  -- all streams, and again among them. The first one runs and destroys the stream, and to go on with the
  -- others uses a stream that is not there.
  pub ended_dies_twice :
      (p : PseudoHeaders) (id : ℕ) (st : Stream) (s : ClientSession N)
      → s.streams id ≡ some st
      → st.closed ≡ false
      → count id s.listeners ≡ 1
      → s.pending ≡ []
      → s.posted ≡ []
      → (t : ClientSession N) × (u : ClientSession N) × (request_eom p id s ≡ some t)
        × ((on_connector_nulled t).posted ≡ id ∷ s.listeners)
        × (count id (on_connector_nulled t).posted ≡ 2)
        × (run_posted (id ∷ []) (on_connector_nulled t) ≡ some u)
        × (u.streams id ≡ none)
        × (run_posted s.listeners u ≡ none)
        × (run_posted (on_connector_nulled t).posted (on_connector_nulled t) ≡ none)
  unfolding request_eom act client_on_eom perform on_connector_nulled notify_error count
  ended_dies_twice p id st s e closed listed waiting under_way =
      let st' : Stream = record st { eof = true } in
      let w : ClientSession N = record s {
        streams = place id (some (client_flush p st').0) s.streams;
        pending = s.pending ++ (id ∷ []);
      } in
      let t : ClientSession N = perform id (client_flush p st').1 w in
      let ((streams, listeners, pending, posted), eof) = perform-client_flush p id st' w in
      let here' : t.streams id ≡ some (client_flush p st').0 =
        ap (λ f. f id) streams ∙ placed id (some (client_flush p st').0) s.streams in
      let both : (t.posted ++ t.pending) ++ t.listeners ≡ id ∷ s.listeners =
        rw (posted, pending, listeners, waiting, under_way) refl in
      let (runs, gone) =
        run_posted_one id (client_flush p st').0 (on_connector_nulled t) here' eof in
      let twice : count id (id ∷ s.listeners) ≡ 2 = count_first id s.listeners ∙ ap suc listed in
      (
        t,
        let_die id (client_flush p st').0 (on_connector_nulled t),
        rw (e, closed) refl,
        both,
        ap (count id) both ∙ twice,
        runs,
        gone,
        run_posted_absent id s.listeners _ gone (omega (arith, listed)),
        ap (λ l. run_posted l (on_connector_nulled t)) both
            ∙ run_posted_twice id (id ∷ s.listeners) (on_connector_nulled t) (client_flush p st').0
                here' eof (omega (arith, twice)),
      )
