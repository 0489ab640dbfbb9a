-- ===== src/Codec/Tests.antt =====
-- The theorems on the encoder at short messages.
use doormat.Base.{
  refl, Bool, ◌≡◌, true, false, none, some, List, [], ◌∷◌, ◌++◌, arith, Bytes, codes,
}
use doormat.Headers.{blank, unset, http11, ◌>>=◌}
use doormat.Codec.{at_zero, at_header}
use doormat.Messages.{make_request}
use doormat.Codec.Decoder.{
  Decoder, Message, request, Url, no_url, run, handle, reset, on_body, on_message_complete,
  flush_trailer, body_part, message_complete, body_cb, completion_cb,
}
use doormat.Codec.Versions.{version-run}
use doormat.Codec.Assembly.{Pieces, events, with_fields, inside, then_process, process-run}
use doormat.Codec.Chunks.{encode_all, read_chunks, concat, read_chunks-encode_all}

abbrev pieces : List Bytes
pieces = codes "wiki" ∷ [] ∷ codes "pedia" ∷ []

read_chunks-encode_all_example :
    (out : Bytes) × (encode_all (record { chunked = true; encoder_state = at_header }) pieces
      ≡ some (record { chunked = true; encoder_state = at_zero }, out))
    × (read_chunks 4 (out ++ codes "GET") ≡ some (concat pieces, codes "GET"))
read_chunks-encode_all_example =
    read_chunks-encode_all pieces (codes "GET") 4 (omega arith, (omega arith, (omega arith, tt)))
      (omega arith)

-- A parser of URLs that fails on every text.
abbrev no_parse : Bytes → Bool → Url → Url × Bool
no_parse s connect u = (u, false)

abbrev split_field : Pieces
split_field = record {
  name_first = codes "Ho";
  name_rest = codes "st" ∷ [];
  value_first = codes "a";
  value_rest = codes ":" ∷ codes "80" ∷ [];
}

abbrev split_length : Pieces
split_length = record {
  name_first = codes "content-length";
  name_rest = [];
  value_first = codes "1";
  value_rest = codes "2" ∷ [];
}

abbrev fresh_decoder : Decoder
fresh_decoder = record {
  message = none;
  version = unset;
  ignore = false;
  connected = true;
  got_header = false;
  headers_completed = false;
  urline = codes "/";
  status = [];
  key = [];
  value = [];
  url = no_url;
}

abbrev new_request : Message
new_request = request (make_request blank false 1)

process-run_example :
    then_process no_parse fresh_decoder (
      run no_parse
        (inside fresh_decoder new_request false [] [])
        (events (split_field ∷ split_length ∷ [])))
    ≡ (with_fields new_request (split_field ∷ split_length ∷ []) >>= λ m'.
        some (inside fresh_decoder m' false [] []))
process-run_example =
    process-run no_parse fresh_decoder new_request (split_field ∷ split_length ∷ [])

abbrev second_message : Decoder
second_message = record fresh_decoder { version = http11; message = some new_request }

-- The end of a message, behind which the version is still there.
version-run_example : (reset second_message).version ≡ http11
unfolding run handle on_body on_message_complete flush_trailer
version-run_example =
    version-run no_parse second_message (reset second_message)
      (body_part (codes "x") ∷ message_complete ∷ []) (body_cb (codes "x") ∷ completion_cb ∷ [])
      refl refl
