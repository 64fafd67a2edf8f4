-- ===== src/Wire.antt =====
-- The Raw UDS framing of src/protocols/local_stt_v1.py: frame types, the five byte header, one-shot
-- encoding and decoding, and the incremental decoder. A byte string is a list of numbers.
mod Tests
pub mod RoundTrip
pub mod Receive
pub mod Decoder
use rtc_asr.Prelude.{
  ℕ, ◌+◌, ◌*◌, ◌/◌, ◌%◌, Bool, not, Option, none, some, List, [], ◌∷◌, ◌++◌, length, drop, ltb,
  ◌==◌, if◌then◌else◌, String, Result, ok, err, ◌>>=◌, ◌>>◌, raise_if,
}

pub data RawUdsFrameType : Type 0 where
  json_control audio_pcm16 json_event error ping pong : RawUdsFrameType

-- The codes that this layer raises.
pub data Code : Type 0 where
  unsupported_frame_type payload_too_large incomplete_frame frame_length_mismatch : Code
  invalid_bytes invalid_audio_chunk audio_must_be_binary : Code

abbrev pub header_bytes : ℕ
header_bytes = 5

abbrev pub max_payload_bytes : ℕ
max_payload_bytes = 8 * 1024 * 1024

abbrev pub type_value : RawUdsFrameType → ℕ
type_value json_control = 1
type_value audio_pcm16 = 2
type_value json_event = 3
type_value error = 4
type_value ping = 5
type_value pong = 6

-- `RawUdsFrameType(n)`
unfoldable pub type_of_value : ℕ → Option RawUdsFrameType
type_of_value n =
    if n == 1
    then some json_control
    else if n == 2
    then some audio_pcm16
    else if n == 3
    then some json_event
    else if n == 4
    then some error
    else if n == 5
    then some ping
    else if n == 6
    then some pong
    else none

pub record RawUdsFrame : Type 0 where
  pub frame_type : RawUdsFrameType
  pub payload : List ℕ

-- A frame type as a caller may give it: a member, an integer (`negative` is any below 0), a bool.
pub data TypeArgument : Type 0 where
  member : RawUdsFrameType → TypeArgument
  integer : ℕ → TypeArgument
  negative : ℕ → TypeArgument
  boolean : Bool → TypeArgument

-- A payload as a caller may give it.
pub data BytesArgument : Type 0 where
  bytes : List ℕ → BytesArgument
  text : String → BytesArgument
  other : BytesArgument

abbrev some_type : Option RawUdsFrameType → Result Code RawUdsFrameType
some_type none = err unsupported_frame_type
some_type (some t) = ok t

unfoldable pub parse_frame_type : TypeArgument → Result Code RawUdsFrameType
parse_frame_type (member t) = ok t
parse_frame_type (integer n) = some_type (type_of_value n)
parse_frame_type (negative n) = err unsupported_frame_type
parse_frame_type (boolean b) = err unsupported_frame_type

unfoldable pub coerce_bytes_like : BytesArgument → Result Code (List ℕ)
coerce_bytes_like (bytes b) = ok b
coerce_bytes_like (text s) = err invalid_bytes
coerce_bytes_like other = err invalid_bytes

-- `struct.pack("<BI", t, n)`: one byte, then 32 bits with the lowest byte first.
unfoldable pub pack_header : ℕ → ℕ → List ℕ
pack_header t n = t ∷ n % 256 ∷ n / 256 % 256 ∷ n / 65536 % 256 ∷ n / 16777216 % 256 ∷ []

-- `struct.unpack("<BI", buffer[:5])`, which raises on fewer bytes; the callers test the length.
unfoldable pub unpack_header : List ℕ → Option (ℕ × ℕ)
unpack_header (t ∷ a ∷ b ∷ c ∷ d ∷ rest) = some (t, a + b * 256 + c * 65536 + d * 16777216)
unpack_header _ = none

unfoldable pub encode_raw_uds_frame : TypeArgument → BytesArgument → Result Code (List ℕ)
unfolding parse_frame_type coerce_bytes_like pack_header
encode_raw_uds_frame frame_type payload = do
  resolved_type ← parse_frame_type frame_type
  payload_bytes ← coerce_bytes_like payload
  raise_if (ltb max_payload_bytes (length payload_bytes)) payload_too_large
  ok (pack_header (type_value resolved_type) (length payload_bytes) ++ payload_bytes)

abbrev some_header : Option (ℕ × ℕ) → Result Code (ℕ × ℕ)
some_header none = err incomplete_frame
some_header (some h) = ok h

unfoldable pub decode_raw_uds_frame : BytesArgument → Result Code RawUdsFrame
unfolding parse_frame_type coerce_bytes_like unpack_header
decode_raw_uds_frame input = do
  frame_bytes ← coerce_bytes_like input
  raise_if (ltb (length frame_bytes) header_bytes) incomplete_frame
  (frame_type_value, payload_length) ← some_header (unpack_header frame_bytes)
  frame_type ← parse_frame_type (integer frame_type_value)
  raise_if (ltb max_payload_bytes payload_length) payload_too_large
  raise_if (not (length frame_bytes == header_bytes + payload_length)) frame_length_mismatch
  ok (record { frame_type = frame_type; payload = drop header_bytes frame_bytes })
