-- ===== src/Http2/Listeners.antt =====
-- A session knows exactly the streams that are alive.
use doormat.Base.{
  some-inj, some-ne-none, ℕ, ◌+◌, ◌≡◌, ◌≢◌, ◌↔◌, refl, subst, sym, ap, ◌∙◌, Option, none, some,
  List, [], ◌∷◌, ◌++◌, map, arith, ◌==◌, if◌then◌else◌, Bool-cases, Option-cases, inl, inr,
}
use doormat.Headers.{◌>>=◌}
use doormat.Objects.Remote.{ErrorCode, connection_closed, closed_by_client}
use doormat.Http2.Stream.{
  Stream, Call, destroy, cleared_callback, resume_data, do_write, submit_response, submit_trailer,
  submit_headers,
}
use doormat.Http2.Session.{
  Session, count, remove, place, subscribe, unsubscribe, create_stream, perform, act, notify_error,
  on_connector_nulled, Step, created, acted, Reach, here, next, new_stream,
}

abbrev pub present : Option Stream → ℕ
present none = 0
present (some st) = 1

pub count-append : (id : ℕ) (xs ys : List ℕ) → count id (xs ++ ys) ≡ count id xs + count id ys
unfolding count
count-append id [] ys = omega arith
count-append id (x ∷ xs) ys = ground (arith, count-append id xs ys)

count-remove :
    (id j : ℕ) (xs : List ℕ) → count j (remove id xs) ≡ (if j == id then 0 else count j xs)
unfolding count remove
count-remove id j [] = ground arith
count-remove id j (x ∷ xs) = ground (arith, count-remove id j xs)

count-firsts :
    (id : ℕ) (ec : ErrorCode) (l : List ℕ)
    → count id (map (λ (p : ℕ × ErrorCode). p.0) (map (λ i. (i, ec)) l)) ≡ count id l
unfolding count
count-firsts id ec [] = refl
count-firsts id ec (x ∷ xs) = ground (arith, count-firsts id ec xs)

module _ {N : Type 0} where
  -- Each stream alive is in the list once, and no other is.
  abbrev pub IsListed : Session N → Type 0
  IsListed s = (id : ℕ) → count id s.listeners ≡ present (s.streams id)

  unsubscribe-IsListed :
      (id : ℕ) (s : Session N)
      → IsListed s
      → IsListed (unsubscribe id (record s { streams = place id none s.streams }))
  unfolding unsubscribe
  unsubscribe-IsListed id s h j = ground (arith, count-remove id j s.listeners, h j)

  perform-IsListed :
      (id : ℕ) (cs : List Call) (s : Session N) → IsListed s → IsListed (perform id cs s)
  unfolding perform
  perform-IsListed id [] s h = h
  perform-IsListed id (destroy ∷ cs) s h = perform-IsListed id cs _ (unsubscribe-IsListed id s h)
  perform-IsListed id (cleared_callback ∷ cs) s h = perform-IsListed id cs _ h
  perform-IsListed id (resume_data ∷ cs) s h = perform-IsListed id cs _ h
  perform-IsListed id (do_write ∷ cs) s h = perform-IsListed id cs _ h
  perform-IsListed id (submit_response m ∷ cs) s h = perform-IsListed id cs _ h
  perform-IsListed id (submit_trailer m ∷ cs) s h = perform-IsListed id cs _ h
  perform-IsListed id (submit_headers m ∷ cs) s h = perform-IsListed id cs _ h

  placed-IsListed :
      (id : ℕ) (st st' : Stream) (s : Session N)
      → IsListed s
      → s.streams id ≡ some st
      → IsListed (record s { streams = place id (some st') s.streams })
  placed-IsListed id st st' s h e j = elim (Bool-cases (j == id)) [
    | inl y ↦
        let same : j ≡ id = ground (arith, y) in
        rw y (h j ∙ (ap (λ k. present (s.streams k)) same ∙ ap present e))
    | inr n ↦ rw n (h j)
  ]

  act-IsListed :
      (id : ℕ) (f : Stream → Stream × List Call) (s t : Session N)
      → IsListed s
      → act id f s ≡ some t
      → IsListed t
  unfolding act
  act-IsListed id f s t h e = elim (Option-cases (s.streams id)) [
    | inl n ↦ absurd (ground (arith, n, e))
    | inr (st, y) ↦
        let out : perform id (f st).1 (record s { streams = place id (some (f st).0) s.streams })
            ≡ t =
          some-inj (
            sym (
              ap
                (λ o. o >>= λ v.
                  some
                    (perform id (f v).1 (record s { streams = place id (some (f v).0) s.streams })))
                y)
            ∙ e) in
        subst IsListed out (perform-IsListed id (f st).1 _ (placed-IsListed id st (f st).0 s h y))
  ]

  -- The session after a stream has been made.
  abbrev with_stream : ℕ → Session N → Session N
  with_stream id s = record s {
    streams = place id (some new_stream) s.streams;
    listeners = s.listeners ++ (id ∷ []);
    stream_counter = s.stream_counter + 1;
  }

  create_stream_made :
      (id : ℕ) (s : Session N)
      → IsListed s
      → s.streams id ≡ none
      → create_stream id s ≡ some (with_stream id s)
  unfolding create_stream subscribe
  create_stream_made id s h e =
      let unlisted : count id s.listeners ≡ 0 = h id ∙ ap present e in rw unlisted refl

  with_stream-IsListed :
      (id : ℕ) (s : Session N) → IsListed s → s.streams id ≡ none → IsListed (with_stream id s)
  unfolding count
  with_stream-IsListed id s h e j = elim (Bool-cases (j == id)) [
    | inl y ↦
        let same : j ≡ id = ground (arith, y) in
        let gone : present (s.streams j) ≡ 0 =
          ap (λ k. present (s.streams k)) same ∙ ap present e in
        rw y (ground (arith, count-append j s.listeners (id ∷ []), h j, gone, same))
    | inr n ↦ rw n (ground (arith, count-append j s.listeners (id ∷ []), h j, n))
  ]

  Step-IsListed : {s t : Session N} → IsListed s → Step s t → IsListed t
  Step-IsListed {s} h (created id n e) =
      subst IsListed (some-inj (sym (create_stream_made id s h n) ∙ e))
        (with_stream-IsListed id s h n)
  Step-IsListed {s} {t} h (acted id f e) = act-IsListed id f s t h e

  Reach-IsListed : {s t : Session N} → IsListed s → Reach s t → IsListed t
  Reach-IsListed h here = h
  Reach-IsListed h (next r st) = Step-IsListed (Reach-IsListed h r) st

  create_stream_refused :
      (id : ℕ) (s : Session N) (st : Stream)
      → IsListed s
      → s.streams id ≡ some st
      → create_stream id s ≡ none
  unfolding create_stream subscribe
  create_stream_refused id s st h e =
      let listed : count id s.listeners ≡ 1 = h id ∙ ap present e in rw listed refl

  create_stream_iff :
      (id : ℕ) (s : Session N) → IsListed s → (create_stream id s ≡ none) ↔ (s.streams id ≢ none)
  create_stream_iff id s h = (
    λ c e. some-ne-none (sym (create_stream_made id s h e) ∙ c),
    λ n. elim (Option-cases (s.streams id)) [
      | inl e ↦ absurd (n e)
      | inr (st, e) ↦ create_stream_refused id s st h e
    ],
  )

  -- In every state that a session without streams can come to: a stream can be made exactly where no
  -- stream is alive, and when the connector is lost, each stream alive is told of the error once, and no
  -- stream that has been taken away is told.
  pub streams_told :
      (s t : Session N)
      → s.listeners ≡ []
      → ((id : ℕ) → s.streams id ≡ none)
      → Reach s t
      → t.told ≡ []
      → (id : ℕ)
      → ((create_stream id t ≡ none) ↔ (t.streams id ≢ none))
        × (count id (map (λ (p : ℕ × ErrorCode). p.0) (on_connector_nulled t).told)
            ≡ present (t.streams id))
  unfolding on_connector_nulled notify_error count
  streams_told s t l n r o id =
      let listed : IsListed t = Reach-IsListed (λ i. ap (count i) l ∙ sym (ap present (n i))) r in
      (
        create_stream_iff id t listed,
        ap
              (λ l'. count id (
                map (λ (p : ℕ × ErrorCode). p.0)
                  (l'
                    ++ map (λ i. (i, if t.user_close then connection_closed else closed_by_client))
                        t.listeners)))
              o
            ∙ (count-firsts id (if t.user_close then connection_closed else closed_by_client)
                  t.listeners
                ∙ listed id),
      )
