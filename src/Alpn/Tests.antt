-- ===== src/Alpn/Tests.antt =====
-- Runs of the choice of a protocol, and the theorems about it at concrete offers.
use doormat.Base.{◌≡◌, refl, none, some, List, [], ◌∷◌, Bytes, codes, bytes_eq}
use doormat.Headers.{http10}
use doormat.Alpn.{
  h2_14, http_1_1, select_proto, select_loop, client_select_next_proto_cb, select_h2, select_h1,
  chose_protocol, negotiate_handler, ht_h1,
}
use doormat.Alpn.Offer.{offer}
use doormat.Alpn.Agreement.{negotiate_handler-chose_protocol}

abbrev spdy : Bytes
spdy = codes "spdy/3.1"

abbrev server_names : List Bytes
server_names = http_1_1 ∷ spdy ∷ h2_14 ∷ []

chosen : client_select_next_proto_cb (offer server_names) ≡ some h2_14
unfolding client_select_next_proto_cb select_h2 select_h1 select_proto select_loop bytes_eq
chosen = refl

declined : client_select_next_proto_cb (offer (spdy ∷ [])) ≡ none
unfolding client_select_next_proto_cb select_h2 select_h1 select_proto select_loop bytes_eq
declined = refl

no_protocol : negotiate_handler none ≡ (ht_h1, some http10)
unfolding negotiate_handler
no_protocol = refl

negotiate_handler-chose_protocol_example :
    (negotiate_handler (some h2_14)).1 ≡ some (chose_protocol h2_14)
negotiate_handler-chose_protocol_example =
    negotiate_handler-chose_protocol server_names h2_14 chosen
