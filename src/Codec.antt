-- ===== src/Codec.antt =====
-- src/http/http_codec.{h,cpp}: the encoder of http_codec, which writes a message in pieces. `none` is
-- a failed assertion. The template argument of `encode_header` is what it uses of the message, its
-- `chunked()` and its `serialize()`.
pub mod Chunks
pub mod Trailers
pub mod Decoder
pub mod Assembly
pub mod Versions
pub mod Events
pub mod Trailing
mod Tests
use doormat.Base.{
  Bool, true, false, ◌||◌, Option, none, some, List, [], ◌∷◌, ◌++◌, Bytes, codes, if◌then◌else◌,
  length, is_empty,
}
use doormat.Utils.Hex.{from}
use doormat.Headers.{crlf, ◌>>=◌}

-- `encoder_state`
pub data EncoderState : Type 0 where
  at_zero at_header at_body at_trailer : EncoderState

pub record Codec : Type 0 where
  pub chunked : Bool
  pub encoder_state : EncoderState

abbrev pub make : Codec
make = record { chunked = false; encoder_state = at_zero }

abbrev pub transfer_chunked_termination : Bytes
transfer_chunked_termination = 48 ∷ crlf

abbrev pub is_zero : EncoderState → Bool
is_zero at_zero = true
is_zero _ = false

abbrev pub is_header : EncoderState → Bool
is_header at_header = true
is_header _ = false

abbrev pub is_body : EncoderState → Bool
is_body at_body = true
is_body _ = false

abbrev pub is_trailer : EncoderState → Bool
is_trailer at_trailer = true
is_trailer _ = false

unfoldable pub encode_header : Codec → Bool → Option Bytes → Option (Codec × Bytes)
encode_header c msg_chunked serialized =
    if is_zero c.encoder_state
    then (serialized >>= λ s. some (record { chunked = msg_chunked; encoder_state = at_header }, s))
    else none

unfoldable pub encode_body : Codec → Bytes → Option (Codec × Bytes)
encode_body c data' =
    if is_header c.encoder_state || is_body c.encoder_state
    then some (
      record c { encoder_state = at_body },
      (if is_empty data'
          then []
          else if c.chunked
          then from (length data') ++ (crlf ++ (data' ++ crlf))
          else data'),
    )
    else none

unfoldable pub encode_trailer : Codec → Bytes → Bytes → Option (Codec × Bytes)
encode_trailer c key data' =
    if is_body c.encoder_state || is_trailer c.encoder_state
    then some (
      record c { encoder_state = at_trailer },
      transfer_chunked_termination ++ (key ++ (codes ": " ++ (data' ++ crlf))),
    )
    else none

-- The `switch` of `encode_eom`, with the case that falls through.
abbrev pub end_of_chunks : EncoderState → Bytes
end_of_chunks at_header = transfer_chunked_termination ++ crlf
end_of_chunks at_body = transfer_chunked_termination ++ crlf
end_of_chunks at_trailer = crlf
end_of_chunks at_zero = []

unfoldable pub encode_eom : Codec → Option (Codec × Bytes)
encode_eom c =
    if is_zero c.encoder_state
    then none
    else some (
      record c { encoder_state = at_zero },
      (if c.chunked then end_of_chunks c.encoder_state else []),
    )
