-- ===== src/Messages.antt =====
-- The messages in frames of src/protocols/local_stt_v1.py: from a payload to the bytes of a frame and
-- from a frame to a message. pydantic's models, `json.dumps` and `json.loads` are parameters; the texts of
-- errors are left out, their codes and metadata are kept.
pub mod Frames
pub mod Validators
pub mod Objects
pub mod Compact
pub mod RoundTrip
pub mod Server
pub mod Wrapping
mod Tests
use rtc_asr.Prelude.{
  ℕ, ◌%◌, Bool, true, false, not, ◌&&◌, ◌||◌, Option, none, some, List, [], ◌∷◌, String, length,
  ltb, ◌==◌, if◌then◌else◌, Result, ok, err, ◌>>=◌, ◌>>◌, raise_if, map_err,
}
use text.Mathlib.Text.{◌==◌ as str_eq}
use rtc_asr.Prelude.Int.{pos}
use rtc_asr.Text.{Text, codes, text_eq}
use rtc_asr.Json.{
  Value, null, boolean, integer, float, string, array, object, Fields, end, field, lookup, get,
  get_or, has_key, insert, is_empty_object,
}
use rtc_asr.Wire.{
  Code, unsupported_frame_type, payload_too_large, incomplete_frame, frame_length_mismatch,
  invalid_bytes, invalid_audio_chunk, audio_must_be_binary, RawUdsFrameType, json_control,
  audio_pcm16, json_event, RawUdsFrame, member, bytes, BytesArgument, encode_raw_uds_frame,
}
use rtc_asr.Wire

pub record ProtocolError : Type 0 where
  pub code : String
  pub fatal : Bool
  pub retryable : Bool
  pub metadata : Fields

-- `LocalSttProtocolError`, or another exception, which no `except` clause here takes.
pub data Failure : Type 0 where
  protocol : ProtocolError → Failure
  type_error : Failure

abbrev pub protocol_error : String → Failure
protocol_error code =
    protocol (record { code = code; fatal = true; retryable = false; metadata = end })

abbrev pub code_name : Code → String
code_name unsupported_frame_type = "raw_uds_unsupported_frame_type"
code_name payload_too_large = "raw_uds_payload_too_large"
code_name incomplete_frame = "raw_uds_incomplete_frame"
code_name frame_length_mismatch = "raw_uds_frame_length_mismatch"
code_name invalid_bytes = "raw_uds_invalid_bytes"
code_name invalid_audio_chunk = "invalid_audio_chunk"
code_name audio_must_be_binary = "audio_must_be_binary"

abbrev pub of_code : Code → Failure
of_code c = protocol_error (code_name c)

-- The classes of messages.
pub data Kind : Type 0 where
  start finalize cancel close ping ready transcript warning error pong closed : Kind

abbrev pub kind_name : Kind → String
kind_name start = "start"
kind_name finalize = "finalize"
kind_name cancel = "cancel"
kind_name close = "close"
kind_name ping = "ping"
kind_name ready = "ready"
kind_name transcript = "transcript"
kind_name warning = "warning"
kind_name error = "error"
kind_name pong = "pong"
kind_name closed = "closed"

-- pydantic and json: a message's class, `model_dump(exclude_none=True)`, `validate_python` with the
-- type of the first validation error, `json.dumps(...).encode()`, and `json.loads(payload.decode())`, nothing
-- where it raises UnicodeDecodeError or JSONDecodeError.
pub record Library (M : Type 0) : Type 0 where
  pub kind : M → Kind
  pub dump : M → Fields
  pub validate_client : Fields → Result String M
  pub validate_server : Fields → Result String M
  pub dumps : Fields → List ℕ
  pub loads : List ℕ → Option Value

-- `validate_audio_chunk`
abbrev pub checked_chunk : List ℕ → Result Failure (List ℕ)
checked_chunk chunk =
    if length chunk == 0
    then err (of_code invalid_audio_chunk)
    else if not (length chunk % 2 == 0)
    then err (of_code invalid_audio_chunk)
    else ok chunk

unfoldable pub validate_audio_chunk : BytesArgument → Result Failure (List ℕ)
validate_audio_chunk (BytesArgument.text s) = err (of_code audio_must_be_binary)
validate_audio_chunk BytesArgument.other = err (of_code invalid_audio_chunk)
validate_audio_chunk (bytes chunk) = checked_chunk chunk

abbrev pub known_error : List String → String → Bool
known_error [] t = false
known_error (s ∷ names) t = str_eq s t || known_error names t

-- The code of a validation error, by its type.
unfoldable pub error_code_from_validation : String → String
error_code_from_validation error_type =
    if known_error
      ("unsupported_audio_format" ∷ "invalid_timing_metadata" ∷ "invalid_integer_field"
        ∷ "invalid_numeric_field" ∷ "invalid_boolean_field" ∷ "invalid_string_field"
        ∷ "invalid_metadata_field" ∷ [])
      error_type
    then error_type
    else if str_eq error_type "union_tag_invalid"
    then "unsupported_message_type"
    else "invalid_message"

abbrev pub of_validation : String → Failure
of_validation error_type = protocol_error (error_code_from_validation error_type)

-- `payload == text`, for a JSON value and a text.
abbrev pub is_text : Value → String → Bool
is_text (string t) s = text_eq t (codes s)
is_text v s = false

-- `protocol not in {...}`, which needs a value that can be hashed.
abbrev pub names_protocol : Value → Result Failure Bool
names_protocol (array items) = err type_error
names_protocol (object fields) = err type_error
names_protocol v = ok (is_text v "local-stt-v1" || is_text v "local-stt.v1")

abbrev pub translated : Fields → Fields
translated p = field "type" (string (codes "start")) (
    field "version" (string (codes "local-stt.v1")) (
      field "audio"
        (object (
          field "sample_rate" (get "sample_rate" p) (
            field "channels" (get "channels" p) (
              field "format" (get "format" p) (
                field "frame_ms" (get_or "frame_ms" (integer (pos 20)) p)
                  (field "bytes_per_frame" (get "bytes_per_frame" p) end))))))
        (field "language" (get "language" p) (
          field "interim_results" (get_or "interim_results" (boolean true) p) (
            field "partial_interval_ms" (get "partial_interval_ms" p) (
              field "partial_window_seconds" (get "partial_window_seconds" p) (
                field "max_buffer_seconds" (get "max_buffer_seconds" p) (
                  field "finalize_on_stable_partial"
                    (get_or "finalize_on_stable_partial" (boolean false) p)
                    (field "stable_partial_cycles" (get "stable_partial_cycles" p) (
                      field "client_stream_id" (get "client_stream_id" p)
                        (field "metadata" (get_or "metadata" (object end) p) end)))))))))))

abbrev pub translate_if : Fields → Bool → Result Failure Fields
translate_if p true = ok (translated p)
translate_if p false = ok p

-- `_normalize_raw_uds_control_payload`
unfoldable pub normalize_control : Fields → Result Failure Fields
normalize_control p =
    if not (is_text (get "type" p) "start") || has_key "audio" p
    then ok p
    else names_protocol (get_or "protocol" (get "version" p) p) >>= translate_if p

abbrev pub mismatch : String → Failure
mismatch expected = protocol (record {
  code = "raw_uds_frame_type_mismatch";
  fatal = true;
  retryable = false;
  metadata = field "frame_message_type" (string (codes expected)) end;
})

abbrev pub applied : Value → Fields → String → Result Failure Fields
applied null p expected = ok (insert "type" (string (codes expected)) p)
applied v p expected =
    if is_text v expected
    then ok (insert "type" (string (codes expected)) p)
    else err (mismatch expected)

-- `_apply_raw_uds_envelope_type`. The metadata tells the payload's type too, as Python prints it; that is left out.
unfoldable pub apply_envelope_type : Fields → String → Result Failure Fields
apply_envelope_type p expected = applied (get "type" p) p expected

-- `d.pop(key)`
abbrev pub remove : String → Fields → Fields
remove key end = end
remove key (field k v rest) =
    let later = remove key rest in if str_eq key k then rest else field k v later

abbrev pub drop_if : Bool → String → Fields → Fields
drop_if true key d = remove key d
drop_if false key d = d

abbrev pub is_empty_value : Value → Bool
is_empty_value (object d) = is_empty_object d
is_empty_value v = false

abbrev pub is_false : Value → Bool
is_false (boolean false) = true
is_false v = false

-- `{**a, **b}`
abbrev pub merge : Fields → Fields → Fields
merge a end = a
merge a (field k v rest) = merge (insert k v a) rest

-- The error of a frame that cannot be read, around the one that says why.
abbrev pub rewrapped : String → ProtocolError → ProtocolError
rewrapped code e = record {
  code = code;
  fatal = e.fatal;
  retryable = e.retryable;
  metadata = merge (field "original_code" (string (codes e.code)) end) e.metadata;
}

abbrev pub rewrap : String → Failure → Failure
rewrap code (protocol e) = protocol (rewrapped code e)
rewrap code type_error = type_error

-- A payload as a caller may give it: a message, a dictionary, or something else.
pub data Payload (M : Type 0) : Type 0 where
  model : M → Payload M
  dictionary : Fields → Payload M
  not_an_object : Payload M

pub data Parsed (M : Type 0) : Type 0 where
  message : M → Parsed M
  audio : List ℕ → Parsed M

abbrev pub is_signal : Kind → Bool
is_signal ping = true
is_signal pong = true
is_signal k = false

abbrev pub client_frame_type : Kind → RawUdsFrameType
client_frame_type ping = Wire.ping
client_frame_type pong = Wire.pong
client_frame_type k = json_control

abbrev pub server_frame_type : Kind → RawUdsFrameType
server_frame_type error = Wire.error
server_frame_type ping = Wire.ping
server_frame_type pong = Wire.pong
server_frame_type k = json_event

abbrev pub object_of : Option Value → Result Failure Fields
object_of (some (object d)) = ok d
object_of o = err (protocol_error "raw_uds_invalid_json")

abbrev pub to_message : {M : Type 0} → M → Result Failure (Parsed M)
to_message m = ok (message m)

-- A mismatch of types is not rewrapped.
abbrev pub rewrap_event : Failure → Failure
rewrap_event (protocol e) =
    if str_eq e.code "raw_uds_frame_type_mismatch"
    then protocol e
    else protocol (rewrapped "raw_uds_malformed_json_event" e)
rewrap_event type_error = type_error
