-- ===== src/Alpn/Agreement.antt =====
-- Client and server read the same version of HTTP off the protocol that was chosen.
use doormat.Base.{
  ◌≡◌, refl, some, List, [], ◌∷◌, arith, Bytes, bytes_eq, Bool-cases, inl, inr, sym, ◌∙◌, subst,
}
use doormat.Alpn.{
  h2, h2_16, h2_14, http_1_1, http_1_0, client_select_next_proto_cb, chose_protocol,
  negotiate_handler,
}
use doormat.Alpn.Offer.{offer, offers, preferred, client_select_next_proto_cb-offer}

-- Both ends agree on a protocol.
abbrev Agrees : Bytes → Type 0
Agrees proto = (negotiate_handler (some proto)).1 ≡ some (chose_protocol proto)

abbrev AllAgree : List Bytes → Type 0
AllAgree [] = Unit
AllAgree (k ∷ ks) = Agrees k × AllAgree ks

preferred-Agrees :
    (names keys : List Bytes) (proto : Bytes)
    → AllAgree keys
    → preferred names keys ≡ some proto
    → Agrees proto
preferred-Agrees names [] proto a h = cc
preferred-Agrees names (k ∷ ks) proto a h = elim (Bool-cases (offers names k)) [
  | inl e ↦ let p : k ≡ proto = ground (arith, e, h) in subst Agrees p a.0
  | inr e ↦ preferred-Agrees names ks proto a.1 (sym (rw e refl) ∙ h)
]

-- Whatever protocol a client chooses of an offer, client and server read the same version off it.
pub negotiate_handler-chose_protocol :
    (names : List Bytes) (proto : Bytes)
    → client_select_next_proto_cb (offer names) ≡ some proto
    → (negotiate_handler (some proto)).1 ≡ some (chose_protocol proto)
unfolding negotiate_handler chose_protocol bytes_eq
negotiate_handler-chose_protocol names proto h =
    preferred-Agrees names (h2 ∷ h2_16 ∷ h2_14 ∷ http_1_1 ∷ http_1_0 ∷ []) proto
      (refl, (refl, (refl, (refl, (refl, tt))))) (sym (client_select_next_proto_cb-offer names) ∙ h)
