-- ===== src/Handler/Ending.antt =====
-- `on_read` of the HTTP/1 handler ends: the loop of `decode` in src/http/http_codec.cpp.
use doormat.Base.{
  bind-some, some-inj, some-ne-none, ℕ, zero, suc, ◌<◌, ◌≡◌, refl, sym, ap, ◌∙◌, ◌⊎◌, inl, inr,
  Bool, true, false, none, some, [], ◌∷◌, arith, Bytes, length, drop, Option-cases, length-drop,
  subst,
}
use doormat.Headers.{◌>>=◌}
use doormat.Handler.Decoding.{
  Execution, calls, HttpParser, Side, Receiver, receive, receive_all, follow, on_parser_error,
  decode_next, decode_loop, on_read,
}
use doormat.Handler.Decoding

module _ {M N R : Type 0} (side : Side M N R) {P : Type 0} (parser : HttpParser P) where
  -- What http_parser is known to do: a run that ends without an error has taken some of its bytes.
  abbrev pub Consumes : Execution P → Type 0
  Consumes (Decoding.finished p n good) = good ≡ true → 0 < n
  Consumes (calls e k) = (code : ℕ) → Consumes (k code)

  abbrev pub Progresses : Type 0
  Progresses = (p : P) (b : ℕ) (bs : Bytes) → Consumes (HttpParser.execute parser p (b ∷ bs))

  -- An assertion fails, or a step is undefined, at a call of this run of the parser.
  abbrev pub Fails : Receiver M N R → Execution P → Type 0
  Fails r (Decoding.finished p n good) = ⊥
  Fails r (calls e k) =
      (receive side (HttpParser.parse_url parser) r e ≡ none)
      ⊎ ((x : Receiver M N R × ℕ) × (receive side (HttpParser.parse_url parser) r e ≡ some x)
          × Fails x.0 (k x.1))

  -- It does so in this run of the parser, in a later one, or when the error of the last is reported.
  pub data Breaks : P → Receiver M N R → Bytes → Type 0 where
    in_run :
        (p : P) (r : Receiver M N R) (b : ℕ) (bs : Bytes)
        → Fails r (HttpParser.execute parser p (b ∷ bs))
        → Breaks p r (b ∷ bs)
    in_report :
        (p q : P) (r t : Receiver M N R) (b n : ℕ) (bs : Bytes)
        → follow side (HttpParser.parse_url parser) (HttpParser.execute parser p (b ∷ bs)) r
          ≡ some (t, q, n, false)
        → on_parser_error side t ≡ none
        → Breaks p r (b ∷ bs)
    later :
        (p q : P) (r t : Receiver M N R) (b n : ℕ) (bs : Bytes)
        → follow side (HttpParser.parse_url parser) (HttpParser.execute parser p (b ∷ bs)) r
          ≡ some (t, q, n, true)
        → Breaks q t (drop n (b ∷ bs))
        → Breaks p r (b ∷ bs)

  follow-none :
      (x : Execution P) (r : Receiver M N R)
      → follow side (HttpParser.parse_url parser) x r ≡ none
      → Fails r x
  unfolding follow
  follow-none (Decoding.finished p n good) r h = absurd (cc)
  follow-none (calls e k) r h =
      elim (Option-cases (receive side (HttpParser.parse_url parser) r e)) [
        | inl bad ↦ inl bad
        | inr (v, ok) ↦ inr (
          v,
          ok,
          follow-none (k v.1) v.0 (
              sym (ap (λ o. o >>= λ x. follow side (HttpParser.parse_url parser) (k x.1) x.0) ok)
              ∙ h),
        )
      ]

  follow-Consumes :
      (x : Execution P) (r t : Receiver M N R) (p : P) (n : ℕ) (good : Bool)
      → Consumes x
      → follow side (HttpParser.parse_url parser) x r ≡ some (t, p, n, good)
      → good ≡ true
      → 0 < n
  unfolding follow
  follow-Consumes (Decoding.finished p' n' good') r t p n good c h g =
      let same = some-inj h in
      subst (λ k. 0 < k) (ap (λ (x : Receiver M N R × P × ℕ × Bool). x.2) same)
        (c (ap (λ (x : Receiver M N R × P × ℕ × Bool). x.3) same ∙ g))
  follow-Consumes (calls e k) r t p n good c h g =
      let (v, ok, more) =
        bind-some (receive side (HttpParser.parse_url parser) r e)
          (λ x. follow side (HttpParser.parse_url parser) (k x.1) x.0) h in
      follow-Consumes (k v.1) v.0 t p n good (c v.1) more g

  next_none :
      (fuel b : ℕ) (bs : Bytes) (p : P) (r t : Receiver M N R) (q : P) (n : ℕ) (good : Bool)
      → ((p : P) (r : Receiver M N R) (d : Bytes)
          → length d < fuel
          → decode_loop side parser fuel p r d ≡ none
          → Breaks p r d)
      → length bs < fuel
      → (good ≡ true → 0 < n)
      → follow side (HttpParser.parse_url parser) (HttpParser.execute parser p (b ∷ bs)) r
        ≡ some (t, q, n, good)
      → decode_next side parser (decode_loop side parser fuel) (b ∷ bs) (t, q, n, good) ≡ none
      → Breaks p r (b ∷ bs)
  unfolding decode_next
  next_none fuel b bs p r t q n true ih lt w ran h =
      let some_taken = w refl in
      later p q r t b n bs ran
        (ih q t (drop n (b ∷ bs)) (omega (arith, length-drop n (b ∷ bs), some_taken)) h)
  next_none fuel b bs p r t q n false ih lt w ran h = elim (Option-cases (on_parser_error side t)) [
    | inl bad ↦ in_report p q r t b n bs ran bad
    | inr (r', ok) ↦ absurd (
        some-ne-none (sym (ap (λ o. o >>= λ v. some (HttpParser.initial parser, v, false)) ok) ∙ h))
  ]

  loop_none :
      (fuel : ℕ) (p : P) (r : Receiver M N R) (d : Bytes)
      → Progresses
      → length d < fuel
      → decode_loop side parser fuel p r d ≡ none
      → Breaks p r d
  unfolding decode_loop
  loop_none zero p r d w lt h = absurd (omega arith)
  loop_none (suc fuel) p r [] w lt h = absurd (cc)
  loop_none (suc fuel) p r (b ∷ bs) w lt h =
      let ex = HttpParser.execute parser p (b ∷ bs) in
      elim (Option-cases (follow side (HttpParser.parse_url parser) ex r)) [
        | inl bad ↦ in_run p r b bs (follow-none ex r bad)
        | inr ((t, q, n, good), ok) ↦
            next_none fuel b bs p r t q n good (λ p' r' d' lt' h'. loop_none fuel p' r' d' w lt' h')
              (omega arith) (follow-Consumes ex r t q n good (w p b bs) ok) ok
              (sym (
                  ap (λ o. o >>= decode_next side parser (decode_loop side parser fuel) (b ∷ bs))
                    ok)
                ∙ h)
      ]

  -- `on_read` comes to an end: it has a result unless an assertion fails, or a step is undefined, at
  -- some call of the runs of the parser that it makes, or when it reports the error of the last of
  -- them. A run of the parser over some bytes that ends without an error takes at least one.
  pub on_read-none :
      (p : P) (r : Receiver M N R) (d : Bytes)
      → ((p : P) (b : ℕ) (bs : Bytes) → Consumes (HttpParser.execute parser p (b ∷ bs)))
      → on_read side parser p r d ≡ none
      → Breaks p r d
  unfolding on_read
  on_read-none p r d w h = loop_none (suc (length d)) p r d w (omega arith) h
