-- ===== src/Objects/Remote.antt =====
-- The objects that are received into: `request` of a server and `client_response` of a client, with
-- messages of type M.
use doormat.Base.{
  ℕ, suc, ◌+◌, ◌≡◌, refl, arith, ◌||◌, Bool, true, false, Option, none, some, List, [], ◌∷◌, ◌++◌,
  Bytes, if◌then◌else◌,
}

-- `http::error_code`
pub data ErrorCode : Type 0 where
  success decoding closed_by_client invalid_read connection_closed missing_stream_element
        write_error :
      ErrorCode

-- What is posted for the user, in both classes.
pub data RemoteEvent : Type 0 where
  headers_event : RemoteEvent
  body_event : Bytes → RemoteEvent
  trailer_event : Bytes → Bytes → RemoteEvent
  finished_event error_event continue_event : RemoteEvent

-- The calls that a handler makes.
pub data Trigger {ℓ} (M : Type ℓ) : Type ℓ where
  headers : M → Trigger M
  body : Bytes → Trigger M
  trailer : Bytes → Bytes → Trigger M
  finished response_continue : Trigger M
  error : ErrorCode → Trigger M

pub record Remote {ℓ} (M : Type ℓ) : Type ℓ where
  pub message : Option M
  pub terminated : Bool
  pub conn_error : ErrorCode
  pub posted : List RemoteEvent

abbrev pub is_terminal : RemoteEvent → Bool
is_terminal finished_event = true
is_terminal error_event = true
is_terminal _ = false

abbrev pub count : List RemoteEvent → ℕ
count [] = 0
count (e ∷ es) = if is_terminal e then suc (count es) else count es

count-append : (xs ys : List RemoteEvent) → count (xs ++ ys) ≡ count xs + count ys
count-append [] ys = omega arith
count-append (x ∷ xs) ys = ground (arith, count-append xs ys)

module _ {ℓ} {M : Type ℓ} where
  abbrev pub make : Remote M
  make = record { message = none; terminated = false; conn_error = success; posted = [] }

  abbrev pub post : RemoteEvent → Remote M → Remote M
  post e o = record o { posted = o.posted ++ (e ∷ []) }

  -- The triggers of `request`, which has no `response_continue`.
  unfoldable pub trigger : Trigger M → Remote M → Remote M
  trigger (headers m) o = post headers_event (record o { message = some m })
  trigger (body d) o = post (body_event d) o
  trigger (trailer k v) o = post (trailer_event k v) o
  trigger finished o =
      if o.terminated then o else record (post finished_event o) { terminated = true }
  trigger (error e) o =
      if o.terminated
      then o
      else record (post error_event (record o { conn_error = e })) { terminated = true }
  trigger response_continue o = o

  abbrev pub trigger_all : List (Trigger M) → Remote M → Remote M
  trigger_all [] o = o
  trigger_all (t ∷ ts) o = trigger_all ts (trigger t o)

  trigger-count :
      (t : Trigger M) (o : Remote M)
      → count o.posted ≡ (if o.terminated then 1 else 0)
      → count (trigger t o).posted ≡ (if (trigger t o).terminated then 1 else 0)
  unfolding trigger
  trigger-count (headers m) o h = ground (arith, count-append o.posted (headers_event ∷ []))
  trigger-count (body d) o h = ground (arith, count-append o.posted ((body_event d) ∷ []))
  trigger-count (trailer k v) o h = ground (arith, count-append o.posted ((trailer_event k v) ∷ []))
  trigger-count finished o h = ground (arith, count-append o.posted (finished_event ∷ []))
  trigger-count response_continue o h = h
  trigger-count (error e) o h = ground (arith, count-append o.posted (error_event ∷ []))

  trigger_all-count :
      (ts : List (Trigger M)) (o : Remote M)
      → count o.posted ≡ (if o.terminated then 1 else 0)
      → count (trigger_all ts o).posted ≡ (if (trigger_all ts o).terminated then 1 else 0)
  trigger_all-count [] o h = h
  trigger_all-count (t ∷ ts) o h = trigger_all-count ts (trigger t o) (trigger-count t o h)

  abbrev pub ends : List (Trigger M) → Bool
  ends [] = false
  ends (finished ∷ ts) = true
  ends (error e ∷ ts) = true
  ends (t ∷ ts) = ends ts

  trigger_all-ends :
      (ts : List (Trigger M)) (o : Remote M)
      → (trigger_all ts o).terminated ≡ (o.terminated || ends ts)
  unfolding trigger
  trigger_all-ends [] o = ground arith
  trigger_all-ends (headers m ∷ ts) o = trigger_all-ends ts (trigger (headers m) o)
  trigger_all-ends (body d ∷ ts) o = trigger_all-ends ts (trigger (body d) o)
  trigger_all-ends (trailer k v ∷ ts) o = trigger_all-ends ts (trigger (trailer k v) o)
  trigger_all-ends (finished ∷ ts) o = ground (arith, trigger_all-ends ts (trigger finished o))
  trigger_all-ends (response_continue ∷ ts) o = trigger_all-ends ts o
  trigger_all-ends (error e ∷ ts) o = ground (arith, trigger_all-ends ts (trigger (error e) o))

  -- Whatever a handler reports to a server's request, and in whatever order, its user is told of one
  -- end of it, finished or failed, if any was reported, and of none otherwise.
  pub trigger_all_one_end :
      (ts : List (Trigger M)) → count (trigger_all ts make).posted ≡ (if ends ts then 1 else 0)
  trigger_all_one_end ts = rw (← trigger_all-ends ts make) (trigger_all-count ts make refl)
