-- ===== src/Alpn/Offer.antt =====
-- What `select_proto` finds in an offer, and which protocol a client prefers.
use doormat.Base.{
  ℕ, zero, suc, ◌<◌, ◌≡◌, refl, ap, ◌||◌, Bool, true, false, Option, none, some, List, [], ◌∷◌,
  ◌++◌, arith, Bytes, bytes_eq, bytes_eq_sound, ◌==◌, if◌then◌else◌, length, take, take-append,
  drop-append, length-append, Bool-cases, inl, inr,
}
use doormat.Alpn.{
  prefixed, select_loop, select_proto, select_h2, select_h1, client_select_next_proto_cb, h2, h2_16,
  h2_14, http_1_1, http_1_0,
}

-- An offer: the names, each behind its length.
abbrev pub offer : List Bytes → Bytes
offer [] = []
offer (name ∷ names) = prefixed name ++ offer names

abbrev pub offers : List Bytes → Bytes → Bool
offers [] name = false
offers (n ∷ names) name = bytes_eq name n || offers names name

bytes_eq-length : (xs ys : Bytes) → bytes_eq xs ys ≡ true → length xs ≡ length ys
bytes_eq-length xs ys h = ap length (bytes_eq_sound xs ys h)

-- Whether the first name of an offer is the one looked for.
prefix-same :
    (key name rest : Bytes)
    → bytes_eq (prefixed key) (take (length (prefixed key)) (prefixed name ++ rest))
      ≡ bytes_eq key name
unfolding bytes_eq
prefix-same key name rest = elim (Bool-cases (length key == length name)) [
  | inl same ↦
      let e : length key ≡ length name = ground (arith, same) in
      rw (same, e, take-append name rest) refl
  | inr other ↦ rw other (ground (arith, other, bytes_eq-length key name))
]

offers-length :
    (names : List Bytes) (key : Bytes) → offers names key ≡ true → length key < length (offer names)
offers-length [] key h = cc
offers-length (n ∷ names) key h =
    ground (arith, length-append n (offer names), bytes_eq-length key n, offers-length names key)

select_loop-offer :
    (fuel : ℕ) (names : List Bytes) (key : Bytes)
    → length (offer names) < fuel
    → select_loop fuel (offer names) (prefixed key) ≡ (if offers names key then some key else none)
unfolding select_loop
select_loop-offer zero names key h = absurd (omega arith)
select_loop-offer (suc fuel) [] key h = refl
select_loop-offer (suc fuel) (name ∷ names) key h =
    rw
      (
        prefix-same key name (offer names),
        take-append name (offer names),
        drop-append name (offer names),
        select_loop-offer fuel names key (omega (arith, length-append name (offer names))),
      )
      (ground (
        arith,
        length-append name (offer names),
        offers-length (name ∷ names) key,
        bytes_eq_sound key name,
      ))

-- In a well-formed offer of any length, the search finds exactly the protocols that it names, and
-- comes to an end.
pub select_proto-offer :
    (names : List Bytes) (key : Bytes)
    → select_proto (offer names) (prefixed key) ≡ (if offers names key then some key else none)
unfolding select_proto
select_proto-offer names key =
    select_loop-offer (suc (length (offer names))) names key (omega arith)

-- The first of the keys that an offer names.
abbrev pub preferred : List Bytes → List Bytes → Option Bytes
preferred names [] = none
preferred names (k ∷ ks) = if offers names k then some k else preferred names ks

-- Whatever order a server offers its protocols in, the client takes the newest it knows of them, in
-- the order h2, h2-16, h2-14, http/1.1, http/1.0, and declines if the offer names none of these.
pub client_select_next_proto_cb-offer :
    (names : List Bytes)
    → client_select_next_proto_cb (offer names)
      ≡ preferred names (h2 ∷ h2_16 ∷ h2_14 ∷ http_1_1 ∷ http_1_0 ∷ [])
unfolding client_select_next_proto_cb select_h2 select_h1
client_select_next_proto_cb-offer names =
    rw
      (
        select_proto-offer names h2,
        select_proto-offer names h2_16,
        select_proto-offer names h2_14,
        select_proto-offer names http_1_1,
        select_proto-offer names http_1_0,
      )
      (ground arith)
