-- ===== src/Messages/Frames.antt =====
-- Encoding messages as frames, and parsing frames as messages: src/protocols/local_stt_v1.py.
use rtc_asr.Prelude.{
  ℕ, Bool, not, ◌&&◌, List, [], ◌∷◌, String, if◌then◌else◌, Result, ok, err, ◌>>=◌, map_err,
}
use rtc_asr.Json.{object, Fields, end, get, get_or, has_key}
use rtc_asr.Wire.{
  Code, unsupported_frame_type, payload_too_large, incomplete_frame, frame_length_mismatch,
  invalid_bytes, invalid_audio_chunk, audio_must_be_binary, RawUdsFrameType, json_control,
  audio_pcm16, json_event, RawUdsFrame, member, bytes, BytesArgument, encode_raw_uds_frame,
}
use rtc_asr.Wire
use rtc_asr.Messages.{
  Failure, Library, Parsed, Payload, apply_envelope_type, audio, client_frame_type, dictionary,
  drop_if, is_empty_value, is_false, is_signal, model, normalize_control, not_an_object, object_of,
  of_code, of_validation, protocol_error, rewrap, rewrap_event, server_frame_type, to_message,
  validate_audio_chunk,
}

module _ {M : Type 0} (lib : Library M) where
  unfoldable pub parse_client_message : Fields → Result Failure M
  parse_client_message p = map_err of_validation (lib.validate_client p)

  unfoldable pub parse_server_message : Fields → Result Failure M
  parse_server_message p = map_err of_validation (lib.validate_server p)

  abbrev pub message_payload : Payload M → Result Failure Fields
  message_payload (model m) = ok (lib.dump m)
  message_payload (dictionary d) = ok d
  message_payload not_an_object = err (protocol_error "raw_uds_invalid_json")

  -- `_compact_raw_uds_message_payload`
  unfoldable pub compact : M → Fields
  compact m =
      let d = lib.dump m in
      let e = drop_if (is_empty_value (get "metadata" d)) "metadata" d in
      drop_if (is_false (get "finalize_on_stable_partial" e)) "finalize_on_stable_partial" e

  -- A ping or pong without an id, a time and metadata.
  unfoldable pub is_bare : M → Bool
  is_bare m =
      is_signal (lib.kind m)
      && not (has_key "ping_id" (lib.dump m))
      && not (has_key "timestamp_ms" (lib.dump m))
      && is_empty_value (get_or "metadata" (object end) (lib.dump m))

  unfoldable pub encode_json_frame : RawUdsFrameType → Fields → Result Failure (List ℕ)
  encode_json_frame audio_pcm16 d = err (protocol_error "raw_uds_invalid_json_frame_type")
  encode_json_frame t d = map_err of_code (encode_raw_uds_frame (member t) (bytes (lib.dumps d)))

  abbrev pub encode_message : RawUdsFrameType → M → Result Failure (List ℕ)
  encode_message t m =
      if is_bare m
      then map_err of_code (encode_raw_uds_frame (member t) (bytes []))
      else encode_json_frame t (compact m)

  -- The message that a client's payload means.
  abbrev pub client_message : Payload M → Result Failure M
  client_message payload = do
    p ← message_payload payload
    normalized ← normalize_control p
    parse_client_message normalized

  unfoldable pub encode_client_message : Payload M → Result Failure (List ℕ)
  encode_client_message payload = do
    m ← client_message payload
    encode_message (client_frame_type (lib.kind m)) m

  abbrev pub server_message : Payload M → Result Failure M
  server_message payload = do p ← message_payload payload; parse_server_message p

  unfoldable pub encode_server_message : Payload M → Result Failure (List ℕ)
  encode_server_message payload = do
    m ← server_message payload
    encode_message (server_frame_type (lib.kind m)) m

  -- `decode_raw_uds_json_payload`
  unfoldable pub decode_json_payload : RawUdsFrameType → List ℕ → Result Failure Fields
  decode_json_payload audio_pcm16 payload = err (protocol_error "raw_uds_invalid_json_frame_type")
  decode_json_payload t payload = object_of (lib.loads payload)

  -- An empty payload of a ping or a pong stands for `{}`.
  abbrev pub signal_payload : RawUdsFrameType → List ℕ → Result Failure Fields
  signal_payload t [] = ok end
  signal_payload t (b ∷ payload) = decode_json_payload t (b ∷ payload)

  abbrev pub parse_signal :
      (Fields → Result Failure M) → RawUdsFrameType → List ℕ → String → Result Failure M
  parse_signal parse t payload name = do
    p ← signal_payload t payload
    typed ← apply_envelope_type p name
    parse typed

  abbrev pub client_payload : RawUdsFrameType → List ℕ → Result Failure (Parsed M)
  client_payload audio_pcm16 payload = validate_audio_chunk (bytes payload) >>= λ c. ok (audio c)
  client_payload json_control payload =
      map_err (rewrap "raw_uds_malformed_json_control") (do
        d ← decode_json_payload json_control payload
        p ← normalize_control d
        parse_client_message p)
      >>= to_message
  client_payload Wire.ping payload =
      map_err (rewrap "raw_uds_malformed_json_control")
        (parse_signal parse_client_message Wire.ping payload "ping")
      >>= to_message
  client_payload Wire.pong payload =
      map_err (rewrap "raw_uds_malformed_json_control")
        (parse_signal parse_client_message Wire.pong payload "pong")
      >>= to_message
  client_payload t payload = err (protocol_error "raw_uds_invalid_client_frame_type")

  unfoldable pub parse_client_frame : RawUdsFrame → Result Failure (Parsed M)
  parse_client_frame frame = client_payload frame.frame_type frame.payload

  abbrev pub server_payload : RawUdsFrameType → List ℕ → Result Failure M
  server_payload json_event payload =
      map_err (rewrap "raw_uds_malformed_json_event")
        (do d ← decode_json_payload json_event payload; parse_server_message d)
  server_payload Wire.error payload = map_err rewrap_event (do
    d ← decode_json_payload Wire.error payload
    typed ← apply_envelope_type d "error"
    parse_server_message typed)
  server_payload Wire.ping payload =
      map_err rewrap_event (parse_signal parse_server_message Wire.ping payload "ping")
  server_payload Wire.pong payload =
      map_err rewrap_event (parse_signal parse_server_message Wire.pong payload "pong")
  server_payload t payload = err (protocol_error "raw_uds_invalid_server_frame_type")

  unfoldable pub parse_server_frame : RawUdsFrame → Result Failure M
  parse_server_frame frame = server_payload frame.frame_type frame.payload
