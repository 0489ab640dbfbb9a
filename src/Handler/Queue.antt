-- ===== src/Handler/Queue.antt =====
-- `notify_local_content` over the queue of responses: what pipelined responses put on the connection.
use doormat.Base.{
  ℕ, zero, suc, ◌<◌, ◌==◌, ◌≡◌, refl, sym, ap, ◌∙◌, true, false, Option, some, List, [], ◌∷◌, ◌++◌,
  arith, Bytes, length, drop, append_assoc, append-nil,
}
use doormat.Headers.{◌>>=◌}
use doormat.Messages.{Request, Response}
use doormat.Codec.{Codec}
use doormat.Connector.{Connector}
use doormat.Objects.Local.{Local}
use doormat.Objects.Remote.{Remote}
use doormat.Handler.{Core}
use doormat.Handler.Sides.{server}
use doormat.Handler.Pieces.{then_piece, then_piece_inv, all_pieces}
use doormat.Handler.Output.{output}
use doormat.Handler.Polled.{poll_local-pieces}
use doormat.Handler.Sent.{get_state_plain}
use doormat.Handler.Sending.{
  poll_local, pop_local, content_next, content_head, content_round, content_loop,
  notify_local_content,
}

-- Responses with the numbers under which they are stored.
abbrev pub Entries : Type 0
Entries = List (ℕ × Local Response)

abbrev pub ids : Entries → List ℕ
ids [] = []
ids (e ∷ es) = e.0 ∷ ids es

-- No entry has a given number.
abbrev pub Apart : ℕ → Entries → Type 0
Apart id [] = Unit {0}
Apart id (e ∷ es) = ((e.0 == id) ≡ false) × Apart id es

-- The entries are stored, ended, ask for no 100 Continue, and have different numbers.
abbrev pub Queued : (ℕ → Option (Local Response)) → Entries → Type 0
Queued store [] = Unit {0}
Queued store (e ∷ es) =
    (store e.0 ≡ some e.1)
    × (e.1.continue_required ≡ false)
    × (e.1.ended ≡ true)
    × Apart e.0 es
    × Queued store es

-- The responses of a queue, encoded one after the other.
abbrev pub queue_pieces : Codec → Entries → Option (Codec × Bytes)
queue_pieces c [] = some (c, [])
queue_pieces c (e ∷ es) =
    then_piece (all_pieces server c e.1.message e.1.content e.1.trailers e.1.ended)
      (λ c'. queue_pieces c' es)

kept-Queued :
    (id : ℕ) (f g : ℕ → Option (Local Response))
    → ((j : ℕ) → (j == id) ≡ false → g j ≡ f j)
    → (es : Entries) → Apart id es
    → Queued f es
    → Queued g es
kept-Queued id f g h [] a q = q
kept-Queued id f g h (e ∷ es) (a, more) (q, r, l, n, qs) =
    (h e.0 a ∙ q, r, l, n, kept-Queued id f g h es more qs)

abbrev Side : Type 0
Side = Connector (Core Request Response (Remote Request)) ℕ

abbrev Drains : ℕ → Side → Codec → Bytes → Type 0
Drains fuel s c bytes =
    (u : Side) × (content_loop server fuel s ≡ some u)
    × (u.handler.locals ≡ [])
    × (u.handler.encoder ≡ c)
    × (output u ≡ output s ++ bytes)

-- A round that takes the first response away.
content_loop_round :
    (fuel id : ℕ) (xs : List ℕ) (s u : Side) (o : Local Response)
    → s.handler.locals ≡ id ∷ xs
    → s.handler.local_store id ≡ some o
    → poll_local server id s ≡ some (u, true)
    → content_loop server (suc fuel) s ≡ content_loop server fuel (pop_local server u)
unfolding content_loop content_round content_head content_next
content_loop_round fuel id xs s u o l e p =
    ap (content_round server (content_loop server fuel) s) l
    ∙ ap (content_head server (content_loop server fuel) s id) e
    ∙ ap (λ x. x >>= content_next server (content_loop server fuel)) p

content_loop_end :
    (fuel : ℕ) (s : Side) → s.handler.locals ≡ [] → content_loop server (suc fuel) s ≡ some s
unfolding content_loop content_round
content_loop_end fuel s l = ap (content_round server (content_loop server fuel) s) l

content_loop-Drains :
    (es : Entries) (fuel : ℕ) (s : Side) (c : Codec) (bytes : Bytes)
    → length es < fuel
    → s.handler.locals ≡ ids es
    → Queued s.handler.local_store es
    → queue_pieces s.handler.encoder es ≡ some (c, bytes)
    → Drains fuel s c bytes
content_loop-Drains es zero s c bytes lt l q p = absurd (omega arith)
content_loop-Drains [] (suc fuel) s c bytes lt l q p =
    let enc : s.handler.encoder ≡ c = ground (arith, p) in
    let nothing : [] ≡ bytes = ground (arith, p) in
    (
      s,
      content_loop_end fuel s l,
      l,
      enc,
      sym (append-nil (output s)) ∙ ap (λ x. output s ++ x) nothing,
    )
content_loop-Drains (e ∷ es) (suc fuel) s c bytes lt l (stored, plain, ended, apart, queued) p =
    let (first, rest, f, r, b) =
      then_piece_inv
        (all_pieces server s.handler.encoder e.1.message e.1.content e.1.trailers e.1.ended)
        (λ c'. queue_pieces c' es) c bytes p in
    let (u, polled, enc, out, (locs, others)) =
      poll_local-pieces server get_state_plain e.0 s e.1 first.0 first.1 stored plain f in
    let (v, loop, done, enc', out') =
      content_loop-Drains es fuel (pop_local server u) c rest (omega arith)
        (ap (λ x. drop 1 x) (locs ∙ l))
        (kept-Queued e.0 s.handler.local_store u.handler.local_store others es apart queued)
        (ap (λ x. queue_pieces x es) enc ∙ r) in
    (
      v,
      content_loop_round fuel e.0 (ids es) s u e.1 l stored (polled ∙ ap (λ x. some (u, x)) ended)
          ∙ loop,
      done,
      enc',
      out'
          ∙ ap (λ x. x ++ rest) out
          ∙ append_assoc (output s) first.1 rest
          ∙ ap (λ x. output s ++ x) b,
    )

length-ids : (es : Entries) → length (ids es) ≡ length es
length-ids [] = refl
length-ids (e ∷ es) = ap suc (length-ids es)

-- When every response of a server's queue has ended and the codec can encode them one after the other,
-- `notify_local_content` ends, fails no assertion, empties the queue and leaves the codec as that
-- encoding does. Written and waiting bytes together have grown by the responses in the order of the
-- queue. The responses have different numbers and wait for no 100 Continue.
pub notify_local_content-pipelined :
    (s : Connector (Core Request Response (Remote Request)) ℕ) (es : List (ℕ × Local Response))
    (c : Codec) (bytes : Bytes)
    → s.handler.locals ≡ ids es
    → Queued s.handler.local_store es
    → queue_pieces s.handler.encoder es ≡ some (c, bytes)
    → (u : Connector (Core Request Response (Remote Request)) ℕ) × (notify_local_content server s
        ≡ some u)
      × (u.handler.locals ≡ [])
      × (u.handler.encoder ≡ c)
      × (output u ≡ output s ++ bytes)
unfolding notify_local_content
notify_local_content-pipelined s es c bytes l q p =
    content_loop-Drains es (suc (length s.handler.locals)) s c bytes
      (let n : length s.handler.locals ≡ length es = ap length l ∙ length-ids es in omega arith) l q
      p
