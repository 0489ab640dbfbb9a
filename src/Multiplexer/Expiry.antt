-- ===== src/Multiplexer/Expiry.antt =====
-- Which handlers `clear_expired` forgets.
use doormat.Base.{◌≡◌, refl, true, false, List, [], ◌∷◌, arith, if◌then◌else◌, is_empty}
use doormat.Multiplexer.{Handler, Multiplexer, drop_expired, clear_expired}

-- The handlers whose owner still exists.
abbrev pub live : List Handler → List Handler
live [] = []
live (h ∷ hs) = if h.alive then h ∷ live hs else live hs

live-drop_expired : (hs : List Handler) → live (drop_expired hs) ≡ live hs
unfolding drop_expired
live-drop_expired [] = refl
live-drop_expired (h ∷ hs) = ground (arith, live-drop_expired hs)

is_empty-drop_expired : (hs : List Handler) → is_empty (drop_expired hs) ≡ is_empty (live hs)
unfolding drop_expired
is_empty-drop_expired [] = refl
is_empty-drop_expired (h ∷ hs) = ground (arith, is_empty-drop_expired hs)

-- `clear_expired` keeps every handler that is alive, in order; when none is alive it empties the list
-- and takes the callbacks off the connection, and otherwise it leaves the registration as it is.
pub clear_expired-live :
    (m : Multiplexer)
    → (live (clear_expired m).handlers_list ≡ live m.handlers_list)
      × (is_empty (clear_expired m).handlers_list ≡ is_empty (live m.handlers_list))
      × ((clear_expired m).registered
          ≡ (if is_empty (live m.handlers_list) then false else m.registered))
unfolding clear_expired drop_expired
clear_expired-live m = (
  ground (arith, live-drop_expired m.handlers_list),
  ground (arith, is_empty-drop_expired m.handlers_list),
  ground (arith, is_empty-drop_expired m.handlers_list),
)

-- An expired handler behind one that is alive stays, although the comment of the source says that
-- all expired handlers are erased.
pub clear_expired-keeps :
    (m : Multiplexer) (h : Handler) (hs : List Handler)
    → m.handlers_list ≡ h ∷ hs
    → h.alive ≡ true
    → clear_expired m ≡ m
unfolding clear_expired drop_expired
clear_expired-keeps m h hs e a = ground arith
