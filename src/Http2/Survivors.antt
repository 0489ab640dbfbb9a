-- ===== src/Http2/Survivors.antt =====
-- src/http2/session_client.cpp: the streams of a client that outlive its connector, and those that do not.
use doormat.Base.{
  ℕ, suc, ◌≡◌, ◌≤◌, refl, sym, ap, ◌∙◌, true, false, Option, none, some, List, [], ◌∷◌, ◌++◌, arith,
  ◌==◌, ◌||◌, if◌then◌else◌, Bool-cases, Option-cases, inl, inr,
}
use doormat.Http2.Stream.{Stream}
use doormat.Http2.Session.{count}
use doormat.Http2.Listeners.{present}
use doormat.Http2.Losses.{let_die, streams-let_die, run_posted_first, same_stream}
use doormat.Http2.ClientSession.{ClientSession, run_posted, notify_error, on_connector_nulled}

-- What a stream is once it has been let die.
abbrev pub dead : Option Stream → Option Stream
dead none = none
dead (some st) = if st.eof || st.errored then none else some (record st { closed = true })

count_hit : (id x : ℕ) (xs : List ℕ) → (id == x) ≡ true → count id (x ∷ xs) ≡ suc (count id xs)
unfolding count
count_hit id x xs y = ground (arith, y)

count_self : (x : ℕ) (xs : List ℕ) → 1 ≤ count x (x ∷ xs)
unfolding count
count_self x xs = ground arith

count_other : (id x : ℕ) (xs : List ℕ) → (id == x) ≡ false → count id (x ∷ xs) ≡ count id xs
unfolding count
count_other id x xs n = ground (arith, n)

module _ {N : Type 0} where
  found :
      (id x : ℕ) (st : Stream) (s : ClientSession N)
      → s.streams x ≡ some st
      → (id == x) ≡ true
      → s.streams id ≡ some st
  found id x st s e y = sym (same_stream id x s y) ∙ e

  none_left :
      (id x : ℕ) (xs : List ℕ) (st : Stream) (s : ClientSession N)
      → s.streams x ≡ some st
      → (id == x) ≡ true
      → count id (x ∷ xs) ≤ present (s.streams id)
      → count id xs ≡ 0
  none_left id x xs st s e y h =
      omega (arith, h, count_hit id x xs y, ap present (found id x st s e y))

  fewer :
      (id x : ℕ) (xs : List ℕ) (st : Stream) (s : ClientSession N)
      → s.streams x ≡ some st
      → count id (x ∷ xs) ≤ present (s.streams id)
      → count id xs ≤ present ((let_die x st s).streams id)
  fewer id x xs st s e h = elim (Bool-cases (id == x)) [
    | inl y ↦ omega (arith, none_left id x xs st s e y h)
    | inr n ↦ rw (streams-let_die x st s id, n) (omega (arith, h, count_other id x xs n))
  ]

  settled :
      (id x : ℕ) (xs : List ℕ) (st : Stream) (s : ClientSession N)
      → s.streams x ≡ some st
      → count id (x ∷ xs) ≤ present (s.streams id)
      → (if count id xs == 0
          then (let_die x st s).streams id
          else dead ((let_die x st s).streams id))
        ≡ (if count id (x ∷ xs) == 0 then s.streams id else dead (s.streams id))
  settled id x xs st s e h = elim (Bool-cases (id == x)) [
    | inl y ↦
        rw
          (
            count_hit id x xs y,
            none_left id x xs st s e y h,
            streams-let_die x st s id,
            y,
            found id x st s e y,
          )
          refl
    | inr n ↦ rw (streams-let_die x st s id, n, count_other id x xs n) refl
  ]

  -- Callbacks of streams that are alive, each posted once.
  run_posted_all :
      (xs : List ℕ) (s : ClientSession N)
      → ((id : ℕ) → count id xs ≤ present (s.streams id))
      → (t : ClientSession N) × (run_posted xs s ≡ some t)
        × ((id : ℕ)
            → t.streams id ≡ (if count id xs == 0 then s.streams id else dead (s.streams id)))
  unfolding run_posted count
  run_posted_all [] s h = (s, refl, λ id. refl)
  run_posted_all (x ∷ xs) s h = elim (Option-cases (s.streams x)) [
    | inl gone ↦ absurd (omega (arith, h x, ap present gone, count_self x xs))
    | inr (st, e) ↦
        let (t, runs, streams) =
          run_posted_all xs (let_die x st s) (λ id. fewer id x xs st s e (h id)) in
        (t, run_posted_first x xs st s e ∙ runs, λ id. streams id ∙ settled id x xs st s e (h id))
  ]

  all_listed :
      (id : ℕ) (s : ClientSession N)
      → count id s.listeners ≡ present (s.streams id)
      → (if count id s.listeners == 0 then s.streams id else dead (s.streams id))
        ≡ dead (s.streams id)
  all_listed id s h = elim (Bool-cases (count id s.listeners == 0)) [
    | inl y ↦ elim (Option-cases (s.streams id)) [
      | inl n ↦ rw (y, n) refl
      | inr (st, e) ↦ absurd (ground (arith, h, ap present e, y))
    ]
    | inr n ↦ rw n refl
  ]

  -- When its connector is lost, a client's session that lists each stream alive once, waits for no
  -- feedback and has no error callback under way has each of them die once: those whose request has
  -- ended or failed are destroyed, and the others are closed.
  pub nulled_dies_once :
      (s : ClientSession N)
      → ((id : ℕ) → count id s.listeners ≡ present (s.streams id))
      → s.pending ≡ []
      → s.posted ≡ []
      → (t : ClientSession N) × (run_posted (on_connector_nulled s).posted (on_connector_nulled s)
          ≡ some t)
        × ((id : ℕ) → t.streams id ≡ dead (s.streams id))
  unfolding on_connector_nulled notify_error
  nulled_dies_once s h p o =
      let (t, runs, streams) =
        run_posted_all s.listeners (on_connector_nulled s) (λ id. omega (arith, h id)) in
      let empty : s.posted ++ s.pending ≡ [] = rw (o, p) refl in
      (
        t,
        ap (λ l. run_posted (l ++ s.listeners) (on_connector_nulled s)) empty ∙ runs,
        λ id. streams id ∙ all_listed id s (h id),
      )
