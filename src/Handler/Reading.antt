-- ===== src/Handler/Reading.antt =====
-- `on_read` of the HTTP/1 handler over the reads of a connection: src/protocol/handler_http1.h and
-- `decode` of src/http/http_codec.cpp.
use doormat.Base.{
  some-inj, ℕ, suc, ◌≡◌, refl, sym, ap, ◌∙◌, Bool, true, false, Option, some, List, [], ◌∷◌, ◌++◌,
  Bytes, length, drop,
}
use doormat.Headers.{◌>>=◌}
use doormat.Codec.Decoder.{Event}
use doormat.Handler.Decoding.{
  Execution, calls, HttpParser, Side, Receiver, receive, receive_all, follow, decode_next,
  decode_loop, on_read, if_zero, finished,
}
use doormat.Handler.Delivery.{if_zero-some}

-- As long as 0 is returned to it, the parser makes these calls; then it ends without an error, in this
-- state and with this number of bytes. What it does on other numbers is left open.
unfoldable pub Makes : {P : Type 0} → Execution P → List Event → P → ℕ → Type 0
Makes (finished q' n' good) [] q n = (q' ≡ q) × (n' ≡ n) × (good ≡ true)
Makes (finished q' n' good) (e ∷ es) q n = ⊥
Makes (calls e' k) [] q n = ⊥
Makes (calls e' k) (e ∷ es) q n = (e' ≡ e) × Makes (k 0) es q n

module _ {M N R : Type 0} (side : Side M N R) {P : Type 0} (parser : HttpParser P) where
  -- One read after the other, as long as each is good.
  unfoldable pub on_reads : P → Receiver M N R → List Bytes → Option (P × Receiver M N R × Bool)
  on_reads p r [] = some (p, r, true)
  on_reads p r (d ∷ ds) =
      on_read side parser p r d >>= λ x. elim x.2 [ true ↦ on_reads x.0 x.1 ds | false ↦ some x ]

  -- Over these reads, none of which is empty, the parser makes these calls, as long as 0 is returned
  -- to it, and takes every byte.
  abbrev pub Parses : P → List Bytes → List Event → P → Type 0
  Parses p [] es q = (es ≡ []) × (p ≡ q)
  Parses p ([] ∷ ds) es q = ⊥
  Parses p ((b ∷ bs) ∷ ds) es q =
      (now : List Event) × (later : List Event) × (p' : P) × (es ≡ now ++ later)
      × Makes (HttpParser.execute parser p (b ∷ bs)) now p' (length (b ∷ bs))
      × Parses p' ds later q

  follow-Makes :
      (x : Execution P) (es : List Event) (q : P) (n : ℕ) (r t : Receiver M N R)
      → Makes x es q n
      → receive_all side (HttpParser.parse_url parser) r es ≡ some t
      → follow side (HttpParser.parse_url parser) x r ≡ some (t, q, n, true)
  unfolding follow receive_all Makes
  follow-Makes (finished q' n' good) [] q n r t (a, b, c) h = rw (a, b, c, some-inj h) refl
  follow-Makes (finished q' n' good) (e ∷ es) q n r t x h = elim x [ ]
  follow-Makes (calls e' k) [] q n r t x h = elim x [ ]
  follow-Makes (calls e' k) (e ∷ es) q n r t (same, more) h =
      let (u, h1, h2) =
        if_zero-some (receive side (HttpParser.parse_url parser) r e)
          (λ u. receive_all side (HttpParser.parse_url parser) u es) h in
      ap
        (λ v. receive side (HttpParser.parse_url parser) r v >>= λ x.
          follow side (HttpParser.parse_url parser) (k x.1) x.0)
        same
      ∙ ap (λ v. v >>= λ x. follow side (HttpParser.parse_url parser) (k x.1) x.0) h1
      ∙ follow-Makes (k 0) es q n u t more h2

  drop-length {ℓ} : {A : Type ℓ} (xs : List A) → drop (length xs) xs ≡ []
  drop-length [] = refl
  drop-length (x ∷ xs) = drop-length xs

  loop_empty :
      (fuel : ℕ) (p : P) (r : Receiver M N R) (d : Bytes)
      → d ≡ []
      → decode_loop side parser (suc fuel) p r d ≡ some (p, r, true)
  unfolding decode_loop
  loop_empty fuel p r d h = ap (decode_loop side parser (suc fuel) p r) h

  -- One read that the parser takes whole.
  on_read-Makes :
      (p q : P) (b : ℕ) (bs : Bytes) (es : List Event) (r t : Receiver M N R)
      → Makes (HttpParser.execute parser p (b ∷ bs)) es q (length (b ∷ bs))
      → receive_all side (HttpParser.parse_url parser) r es ≡ some t
      → on_read side parser p r (b ∷ bs) ≡ some (q, t, true)
  unfolding on_read decode_loop decode_next
  on_read-Makes p q b bs es r t h k =
      let rest = decode_next side parser (decode_loop side parser (suc (length bs))) (b ∷ bs) in
      ap (λ x. x >>= rest)
        (follow-Makes (HttpParser.execute parser p (b ∷ bs)) es q (length (b ∷ bs)) r t h k)
      ∙ loop_empty (length bs) q t (drop (length bs) bs) (drop-length bs)

  receive_all-split :
      (xs ys : List Event) (r t : Receiver M N R)
      → receive_all side (HttpParser.parse_url parser) r (xs ++ ys) ≡ some t
      → (s : Receiver M N R) × (receive_all side (HttpParser.parse_url parser) r xs ≡ some s)
        × (receive_all side (HttpParser.parse_url parser) s ys ≡ some t)
  unfolding receive_all
  receive_all-split [] ys r t h = (r, refl, h)
  receive_all-split (x ∷ xs) ys r t h =
      let (q, h1, h2) =
        if_zero-some (receive side (HttpParser.parse_url parser) r x)
          (λ q. receive_all side (HttpParser.parse_url parser) q (xs ++ ys)) h in
      let (s, k, l) = receive_all-split xs ys q t h2 in
      (
        s,
        ap (λ v. v >>= if_zero (λ q. receive_all side (HttpParser.parse_url parser) q xs)) h1 ∙ k,
        l,
      )

  -- However the bytes are cut into reads, what the reads come to is what the calls come to.
  pub on_reads-Parses :
      (ds : List Bytes) (p q : P) (es : List Event) (r t : Receiver M N R)
      → Parses p ds es q
      → receive_all side (HttpParser.parse_url parser) r es ≡ some t
      → on_reads p r ds ≡ some (q, t, true)
  unfolding on_reads receive_all
  on_reads-Parses [] p q es r t (none_left, same) h =
      let out : some r ≡ some t =
        ap (receive_all side (HttpParser.parse_url parser) r) (sym none_left) ∙ h in
      ap (λ v. some (v, r, true)) same ∙ ap (λ v. some (q, v, true)) (some-inj out)
  on_reads-Parses ([] ∷ ds) p q es r t x h = elim x [ ]
  on_reads-Parses ((b ∷ bs) ∷ ds) p q es r t (now, later, p', parts, run, more) h =
      let (s, k, l) =
        receive_all-split now later r t
          (ap (receive_all side (HttpParser.parse_url parser) r) (sym parts) ∙ h) in
      ap (λ v. v >>= λ x. elim x.2 [ true ↦ on_reads x.0 x.1 ds | false ↦ some x ])
        (on_read-Makes p p' b bs now r s run k)
      ∙ on_reads-Parses ds p' q later s t more l
