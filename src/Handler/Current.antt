-- ===== src/Handler/Current.antt =====
-- The HTTP/1 handler while a message is being received: what its callbacks do to the object.
use doormat.Base.{
  ℕ, ◌+◌, ◌≡◌, refl, sym, ap, ◌∙◌, Bool, true, false, Option, none, some, List, [], ◌∷◌, ◌++◌, drop,
  ◌&&◌, if◌then◌else◌, ==_refl, append_assoc, append-nil, subst,
}
use doormat.Headers.{◌>>=◌, keep}
use doormat.Headers.Total.{keep_total, make_total}
use doormat.Messages.{Request, Response, make_request}
use doormat.Objects.Remote.{
  Remote, Trigger, RemoteEvent, headers, body, trailer, finished, headers_event, body_event,
  trailer_event, finished_event, trigger, invalid_read,
}
use doormat.Objects.Remote
use doormat.Objects.Local
use doormat.Codec.Decoder.{
  Callback, begin_cb, header_cb, body_cb, trailer_cb, completion_cb, error_cb,
}
use doormat.Codec.Events.{All}
use doormat.Codec.Trailing.{IsPiece}
use doormat.Handler.{Core, put, get_user_handlers}
use doormat.Handler.Sides.{server}
use doormat.Handler.Receiving.{
  get_current, begin_message, tell, pop_remote, connection_error, decoded_body, decoded_trailer,
  decoded_headers, decoding_end, update_persistent, asks_persistent, clear_current,
  server_decoding_start,
}
use doormat.Handler.Decoding.{server_side, dispatch, dispatch_all}

abbrev pub State : Type 0
State = Core Request Response (Remote Request)

-- One object is being received into, and it is `o`, which has not ended.
pub record Reading (c : State) (id : ℕ) (o : Remote Request) : Type 0 where
  pub decoding : c.decoding_error ≡ false
  pub no_continue : c.managing_continue ≡ false
  pub only : c.remotes ≡ id ∷ []
  pub stored : c.remote_store id ≡ o
  pub open_still : o.terminated ≡ false

-- What the user is told by the callbacks of the decoder.
abbrev pub event_of : Callback → List RemoteEvent
event_of begin_cb = []
event_of header_cb = headers_event ∷ []
event_of completion_cb = finished_event ∷ []
event_of error_cb = []
event_of (body_cb b) = body_event b ∷ []
event_of (trailer_cb k v) = trailer_event k v ∷ []

abbrev pub events_of : List Callback → List RemoteEvent
events_of [] = []
events_of (x ∷ xs) = event_of x ++ events_of xs

abbrev pub with_events : List RemoteEvent → Remote Request → Remote Request
with_events es o = record o { posted = o.posted ++ es }

get_current-Reading :
    (c : State) (id : ℕ) (o : Remote Request) → Reading c id o → get_current server c ≡ (c, some id)
unfolding get_current
get_current-Reading c id o h =
    let ended : (c.remote_store id).terminated ≡ false =
      ap (λ (r : Remote Request). r.terminated) h.stored ∙ h.open_still in
    let more = λ (l : List ℕ).
      let out : State × Option ℕ = elim l [
        | [] ↦ (connection_error server invalid_read (record c { decoding_error = true }), none)
        | i ∷ ids ↦
            if (c.remote_store i).terminated
            then (connection_error server invalid_read c, none)
            else (c, some i)
      ] in
      out in
    ap (λ b. if b then (c, none) else more c.remotes) h.decoding
    ∙ ap more h.only
    ∙ ap (λ b. if b then (connection_error server invalid_read c, none) else (c, some id)) ended

-- Telling the object something that does not end it.
tell-Reading :
    (c : State) (id : ℕ) (o : Remote Request) (what : Trigger Request)
    → Reading c id o
    → (trigger what o).terminated ≡ false
    → Reading (tell server id what c) id (trigger what o)
tell-Reading c id o what h e = record {
  decoding = h.decoding;
  no_continue = h.no_continue;
  only = h.only;
  stored = rw (==_refl id) (ap (trigger what) h.stored);
  open_still = e;
}

-- What a callback comes to: the object is told, and the queue stays.
abbrev pub Tells : State → Option State → ℕ → Remote Request → Type 0
Tells c out id o =
    (d : State) × (out ≡ some d) × Reading d id o × (d.locals ≡ c.locals) × (d.current ≡ c.current)

pub dispatch-piece :
    (x : Callback) (c : State) (id : ℕ) (o : Remote Request)
    → IsPiece x
    → Reading c id o
    → Tells c (dispatch server_side x c) id (with_events (event_of x) o)
unfolding dispatch decoded_body decoded_trailer trigger
dispatch-piece (body_cb b) c id o q h = (
  tell server id (body b) c,
  ap
      (λ (p : State × Option ℕ).
        some (elim p.1 [ none ↦ p.0 | some i ↦ tell server i (body b) p.0 ]))
      (get_current-Reading c id o h),
  tell-Reading c id o (body b) h h.open_still,
  refl,
  refl,
)
dispatch-piece (trailer_cb k v) c id o q h =
    let said = λ (c' : State) (i : ℕ).
      let out : State = if c'.managing_continue then c' else tell server i (trailer k v) c' in
      out in
    (
      tell server id (trailer k v) c,
      ap (λ (p : State × Option ℕ). some (elim p.1 [ none ↦ p.0 | some i ↦ said p.0 i ]))
            (get_current-Reading c id o h)
          ∙ ap (λ b. some (if b then c else tell server id (trailer k v) c)) h.no_continue,
      tell-Reading c id o (trailer k v) h h.open_still,
      refl,
      refl,
    )
dispatch-piece begin_cb c id o q h = elim q [ ]
dispatch-piece header_cb c id o q h = elim q [ ]
dispatch-piece completion_cb c id o q h = elim q [ ]
dispatch-piece error_cb c id o q h = elim q [ ]

with_events-append :
    (xs ys : List RemoteEvent) (o : Remote Request)
    → with_events ys (with_events xs o) ≡ with_events (xs ++ ys) o
with_events-append xs ys o = ap (λ l. record o { posted = l }) (append_assoc o.posted xs ys)

pub dispatch_all-pieces :
    (xs : List Callback) (c : State) (id : ℕ) (o : Remote Request)
    → All IsPiece xs
    → Reading c id o
    → Tells c (dispatch_all server_side xs c) id (with_events (events_of xs) o)
unfolding dispatch_all
dispatch_all-pieces [] c id o q h = (
  c,
  refl,
  subst (Reading c id) (ap (λ l. record o { posted = l }) (sym (append-nil o.posted))) h,
  refl,
  refl,
)
dispatch_all-pieces (x ∷ xs) c id o (q, qs) h =
    let (d, e, r, l, k) = dispatch-piece x c id o q h in
    let (d', e', r', l', k') = dispatch_all-pieces xs d id (with_events (event_of x) o) qs r in
    (
      d',
      ap (λ v. v >>= dispatch_all server_side xs) e ∙ e',
      subst (Reading d' id) (with_events-append (event_of x) (events_of xs) o) r',
      l' ∙ l,
      k' ∙ k,
    )

-- A new message of a connection, and the pair of objects made for it.
abbrev pub made_pair : State → State
made_pair c = record c {
  decoding_error = false;
  managing_continue = false;
  local_store = put c.fresh (some doormat.Objects.Local.make) c.local_store;
  remote_store = put c.fresh doormat.Objects.Remote.make c.remote_store;
  remotes = c.remotes ++ (c.fresh ∷ []);
  locals = c.locals ++ (c.fresh ∷ []);
  fresh = c.fresh + 1;
  requests = c.requests ++ (some c.fresh ∷ []);
}

pub decoding_start-made_pair :
    (c : State) → c.connected ≡ true → server_decoding_start server c ≡ made_pair c
unfolding server_decoding_start get_user_handlers
decoding_start-made_pair c h =
    ap
      (λ b.
        let p : State × Option ℕ =
          if b
          then (record (made_pair c) { requests = c.requests }, some c.fresh)
          else (begin_message server c, none) in
        record p.0 { requests = p.0.requests ++ (p.1 ∷ []) })
      h

pub made_pair-Reading :
    (c : State) → c.remotes ≡ [] → Reading (made_pair c) c.fresh doormat.Objects.Remote.make
made_pair-Reading c e = record {
  decoding = refl;
  no_continue = refl;
  only = ap (λ l. l ++ (c.fresh ∷ [])) e;
  stored = rw (==_refl c.fresh) refl;
  open_still = refl;
}

-- The message as it is handed on, with the connection field that the connection asks for.
abbrev pub Persists : State → Request → Type 0
Persists c m =
    keep c.current.base (c.persistent && asks_persistent server c.current.base) ≡ some m.base
    × (m ≡ record c.current { base = m.base })

-- The message being decoded and the persistence of the connection are not the object's.
pub changed-Reading :
    (c : State) (id : ℕ) (o : Remote Request) (p : Bool) (m : Request)
    → Reading c id o
    → Reading (record c { persistent = p; current = m }) id o
changed-Reading c id o p m h = record {
  decoding = h.decoding;
  no_continue = h.no_continue;
  only = h.only;
  stored = h.stored;
  open_still = h.open_still;
}

-- The header: the object gets the message.
pub header-dispatched :
    (c : State) (id : ℕ) (o : Remote Request)
    → Reading c id o
    → (d : State) × (m : Request) × (dispatch server_side header_cb c ≡ some d)
      × Reading d id (trigger (headers m) o)
      × Persists c m
      × (d.locals ≡ c.locals)
      × (d.persistent ≡ (c.persistent && asks_persistent server c.current.base))
unfolding dispatch decoded_headers update_persistent trigger
header-dispatched c id o h =
    let p = c.persistent && asks_persistent server c.current.base in
    let (b, kept) = keep_total c.current.base p in
    let (blank, new) = make_total in
    let m : Request = record c.current { base = b } in
    let d : State = record c { persistent = p; current = m } in
    let next = λ (v : State). clear_current server (tell server id (headers v.current) v) in
    (
      record (tell server id (headers m) d) { current = make_request blank false 1 },
      m,
      ap
            (λ (q : State × Option ℕ). elim q.1 [
              | none ↦ some q.0
              | some i ↦ update_persistent server q.0 >>= λ v.
                  clear_current server (tell server i (headers v.current) v)
            ])
            (get_current-Reading c id o h)
          ∙ ap
              (λ x.
                (x >>= λ e.
                some (record c { persistent = p; current = record c.current { base = e } }))
                >>= next)
              kept
          ∙ ap
              (λ x. (x >>= λ e. some (make_request e false 1)) >>= λ v.
                some (record (tell server id (headers m) d) { current = v }))
              new,
      changed-Reading (tell server id (headers m) d) id (trigger (headers m) o) p
          (make_request blank false 1)
          (tell-Reading d id o (headers m) (changed-Reading c id o p m h) h.open_still),
      (kept, refl),
      refl,
      refl,
    )

-- The end of the message.
pub completion-dispatched :
    (c : State) (id : ℕ) (o : Remote Request)
    → Reading c id o
    → (d : State) × (dispatch server_side completion_cb c ≡ some d)
      × (d.remotes ≡ [])
      × (d.remote_store id ≡ record (with_events (finished_event ∷ []) o) { terminated = true })
      × (d.locals ≡ c.locals)
unfolding dispatch decoding_end trigger
completion-dispatched c id o h = (
  pop_remote server (tell server id finished c),
  ap
      (λ (q : State × Option ℕ).
        some (elim q.1 [ none ↦ q.0 | some i ↦ pop_remote server (tell server i finished q.0) ]))
      (get_current-Reading c id o h),
  ap (drop 1) h.only,
  rw (==_refl id) (
      ap (trigger finished) h.stored
      ∙ ap
          (λ t. if t then o else record (with_events (finished_event ∷ []) o) { terminated = true })
          h.open_still),
  refl,
)
