-- ===== src/Http2/FrameCalls.antt =====
-- The calls that nghttp2 makes for a message, from its first frame to its last.
use doormat.Base.{refl, ◌≡◌, ap, true, false, Bool, List, [], ◌∷◌, ◌++◌, Bytes}
use doormat.Objects.Remote.{Trigger, body}
use doormat.Http2.Frames.{
  FrameType, other_headers, data_frame, Frame, FrameCall, begin_headers, field, frame_recv,
  data_chunk_recv,
}

abbrev pub Fields : Type 0
Fields = List (Bytes × Bytes)

abbrev pub fields : Frame → Fields → List FrameCall
fields h [] = []
fields h (f ∷ fs) = field h f.0 f.1 ∷ fields h fs

abbrev pub chunks : List Bytes → List FrameCall
chunks [] = []
chunks (b ∷ bs) = data_chunk_recv b ∷ chunks bs

-- DATA frames, in the message and at its end, and the HEADERS frame of trailers.
abbrev pub more_data : Frame
more_data = record { frame_type = data_frame; end_stream = false }

abbrev pub last_data : Frame
last_data = record { frame_type = data_frame; end_stream = true }

abbrev pub trailing : Frame
trailing = record { frame_type = other_headers; end_stream = true }

-- DATA frames that do not end the message, each with its chunks.
abbrev pub data_frames : List (List Bytes) → List FrameCall
data_frames [] = []
data_frames (bs ∷ fss) = chunks bs ++ (frame_recv more_data ∷ data_frames fss)

abbrev pub pieces : List (List Bytes) → List Bytes
pieces [] = []
pieces (bs ∷ fss) = bs ++ pieces fss

-- What follows the header: nothing, DATA frames with a last one, or DATA frames and trailers.
pub data Rest : Type 0 where
  nothing : Rest
  by_data : List (List Bytes) → List Bytes → Rest
  by_trailers : List (List Bytes) → Fields → Rest

abbrev pub is_nothing : Rest → Bool
is_nothing nothing = true
is_nothing (by_data fss bs) = false
is_nothing (by_trailers fss ts) = false

abbrev pub has_trailing : Rest → Bool
has_trailing nothing = false
has_trailing (by_data fss bs) = false
has_trailing (by_trailers fss ts) = true

abbrev pub calls_of : Rest → List FrameCall
calls_of nothing = []
calls_of (by_data fss bs) = data_frames fss ++ (chunks bs ++ (frame_recv last_data ∷ []))
calls_of (by_trailers fss ts) =
    data_frames fss ++ (begin_headers trailing ∷ (fields trailing ts ++ (frame_recv trailing ∷ [])))

abbrev pub body_of : Rest → List Bytes
body_of nothing = []
body_of (by_data fss bs) = pieces fss ++ bs
body_of (by_trailers fss ts) = pieces fss

-- A message whose header comes in a HEADERS frame of this type.
abbrev pub opening : FrameType → Rest → Frame
opening k rest = record { frame_type = k; end_stream = is_nothing rest }

abbrev pub message_calls : FrameType → Fields → Rest → List FrameCall
message_calls k fs rest =
    begin_headers (opening k rest)
    ∷ (fields (opening k rest) fs ++ (frame_recv (opening k rest) ∷ calls_of rest))

-- What the object is told of a body.
abbrev pub bodies {ℓ} : {M : Type ℓ} → List Bytes → List (Trigger M)
bodies [] = []
bodies (b ∷ bs) = body b ∷ bodies bs

pub bodies-append {ℓ} :
    {M : Type ℓ} (xs ys : List Bytes) → bodies {M = M} (xs ++ ys) ≡ bodies xs ++ bodies ys
bodies-append [] ys = refl
bodies-append (x ∷ xs) ys = ap (λ l. body x ∷ l) (bodies-append xs ys)
