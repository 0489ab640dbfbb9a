-- ===== src/Handler/ClientExamples.antt =====
-- Two requests of a client under way, and an interim response to the first.
use doormat.Base.{◌≡◌, refl, true, false, none, some, [], ◌∷◌, codes}
use doormat.Headers.{blank}
use doormat.Messages.{Response}
use doormat.Codec.{at_zero}
use doormat.Codec.Decoder.{header_cb, completion_cb}
use doormat.Objects.Remote.{headers, response_continue, invalid_read}
use doormat.Objects.ClientResponse.{Callbacks, trigger}
use doormat.Objects.ClientResponse
use doormat.Handler.{put}
use doormat.Handler.Decoding.{client_side, dispatch_all}
use doormat.Handler.Awaiting.{State}
use doormat.Handler.Interim.{begun_with, final_lost, final_misdelivered}

abbrev callbacks : Callbacks
callbacks = record {
  on_headers = true;
  on_body = true;
  on_trailer = true;
  on_finished = true;
  on_response_continue = true;
  on_error = true;
}

abbrev interim : Response
interim = record { base = blank; status_code = 100; status_message = codes "Continue" }

abbrev final : Response
final = record { base = blank; status_code = 200; status_message = codes "OK" }

abbrev two_waiting : State
two_waiting = record {
  locals = [];
  remotes = 0 ∷ 1 ∷ [];
  local_store = λ id. none;
  remote_store = λ id. doormat.Objects.ClientResponse.make callbacks;
  fresh = 2;
  encoder = record { chunked = false; encoder_state = at_zero };
  current = interim;
  serialization = [];
  user_close = false;
  decoding_error = false;
  managing_continue = false;
  persistent = true;
  connected = true;
  myself = true;
  pending_clear_callbacks = [];
  errors = [];
  clears = 2;
  requests = [];
  timeouts = 0;
}

abbrev one_waiting : State
one_waiting = record two_waiting { remotes = 0 ∷ []; fresh = 1; clears = 1 }

final_lost_example :
    (d e : State) × (dispatch_all
        (client_side callbacks 0)
        (header_cb ∷ (completion_cb ∷ []))
        one_waiting
      ≡ some d)
    × (dispatch_all (client_side callbacks 0) (header_cb ∷ []) (begun_with callbacks 0 final d)
        ≡ some e)
    × (e.remote_store
        ≡ put 0
            (trigger response_continue (doormat.Objects.ClientResponse.make callbacks))
            one_waiting.remote_store)
    × (e.errors ≡ invalid_read ∷ [])
final_lost_example =
    final_lost callbacks 0 one_waiting 0 final
      (record { decoding = refl; front = refl; open_still = refl }) refl

final_misdelivered_example :
    (d e : State) × (n : Response) × (dispatch_all
        (client_side callbacks 0)
        (header_cb ∷ (completion_cb ∷ []))
        two_waiting
      ≡ some d)
    × (dispatch_all (client_side callbacks 0) (header_cb ∷ []) (begun_with callbacks 0 final d)
        ≡ some e)
    × (n ≡ record final { base = n.base })
    × (e.remote_store 1 ≡ trigger (headers n) (doormat.Objects.ClientResponse.make callbacks))
    × (e.remote_store 0 ≡ trigger response_continue (doormat.Objects.ClientResponse.make callbacks))
final_misdelivered_example =
    final_misdelivered callbacks 0 two_waiting 0 1 [] final
      (record { decoding = refl; front = refl; open_still = refl }) refl refl refl refl
