-- ===== src/Messages/Wrapping.antt =====
-- The errors of a client's frame in src/protocols/local_stt_v1.py: an error of its JSON is told under one
-- code, with the code that it had.
use rtc_asr.Prelude.{
  ◌≡◌, refl, ap, ◌∙◌, ◌⊎◌, inl, inr, Bool, true, false, not, ◌||◌, Option, none, some, List, [],
  ◌∷◌, ℕ, String, if◌then◌else◌, if_case, Result, ok, err, ◌>>=◌, map_err, Fails, Fails-ok,
  Fails-err, Fails-bind,
}
use rtc_asr.Text.{codes}
use rtc_asr.Json.{
  Value, null, array, object, string, Fields, end, field, lookup, get, get_or, has_key, insert,
}
use rtc_asr.Wire.{RawUdsFrameType, json_control, RawUdsFrame}
use rtc_asr.Wire
use rtc_asr.Messages.{
  Failure, protocol, type_error, protocol_error, Library, message, merge, rewrapped, rewrap,
  to_message, normalize_control, names_protocol, translate_if, translated, is_text, mismatch,
  applied, apply_envelope_type, object_of, of_validation, error_code_from_validation,
}
use rtc_asr.Messages.Frames.{
  client_payload, parse_client_frame, parse_signal, parse_client_message, decode_json_payload,
}

abbrev pub has_client_json : RawUdsFrameType → Bool
has_client_json json_control = true
has_client_json Wire.ping = true
has_client_json Wire.pong = true
has_client_json t = false

abbrev pub signal_name : RawUdsFrameType → String
signal_name Wire.pong = "pong"
signal_name t = "ping"

-- What can be wrong with the JSON of a client's frame, by the code that says so: it is no JSON object; it is a ping
-- or pong with the type of something else; or its dictionary is not valid, for a reason of its own.
abbrev pub IsCause : {M : Type 0} → Library M → RawUdsFrameType → List ℕ → String → Type 0
IsCause lib t payload code =
    ((code ≡ "raw_uds_invalid_json")
      × (object_of (lib.loads payload) ≡ err (protocol_error "raw_uds_invalid_json")))
    ⊎ (((code ≡ "raw_uds_frame_type_mismatch")
          × (d : Fields) × (object_of (lib.loads payload) ≡ ok d)
          × (is_text (get "type" d) (signal_name t) ≡ false))
        ⊎ ((d : Fields) × (reason : String) × (lib.validate_client d ≡ err reason)
            × (code ≡ error_code_from_validation reason)))

-- The error of a malformed frame, with the code of what was wrong in its metadata.
abbrev pub IsMalformed : {M : Type 0} → Library M → RawUdsFrame → Failure → Type 0
IsMalformed lib frame (protocol e) =
    (e.code ≡ "raw_uds_malformed_json_control")
    × (code : String) × (lookup "original_code" e.metadata ≡ some (string (codes code)))
    × IsCause lib frame.frame_type frame.payload code
IsMalformed lib frame type_error = Unit {0}

-- Metadata that does not say `original_code` itself.
abbrev IsPlain : Fields → Type 0
IsPlain d = (d ≡ end) ⊎ ((v : Value) × (d ≡ field "frame_message_type" v end))

told_code :
    (code : String) (d : Fields)
    → IsPlain d
    → lookup "original_code" (merge (field "original_code" (string (codes code)) end) d)
      ≡ some (string (codes code))
unfolding lookup insert
told_code code d (inl e) = rw e refl
told_code code d (inr (v, e)) = rw e refl

module _ {M : Type 0} (lib : Library M) (t : RawUdsFrameType) (payload : List ℕ) where
  abbrev IsCaused : Failure → Type 0
  IsCaused (protocol e) = IsPlain e.metadata × IsCause lib t payload e.code
  IsCaused type_error = Unit {0}

  abbrev Told : Failure → Type 0
  Told = IsMalformed lib (record { frame_type = t; payload = payload })

  answered-Fails :
      (r : Result Failure M)
      → Fails IsCaused r
      → Fails Told (map_err (rewrap "raw_uds_malformed_json_control") r >>= to_message)
  answered-Fails (ok m) h = Fails-ok (message m)
  answered-Fails (err (protocol e)) h =
      let caused : IsPlain e.metadata × IsCause lib t payload e.code =
        h.because (protocol e) refl in
      Fails-err (protocol (rewrapped "raw_uds_malformed_json_control" e))
        (refl, e.code, told_code e.code e.metadata caused.0, caused.1)
  answered-Fails (err type_error) h = Fails-err type_error tt

  message-Fails : (d : Fields) → Fails IsCaused (parse_client_message lib d)
  unfolding parse_client_message
  message-Fails d = go (lib.validate_client d) refl
    where
      go :
          (r : Result String M)
          → lib.validate_client d ≡ r
          → Fails IsCaused (map_err of_validation r)
      go (ok m) e = Fails-ok m
      go (err reason) e =
          Fails-err (of_validation reason) (inl refl, inr (inr (d, reason, e, refl)))

  object-Fails : Fails IsCaused (object_of (lib.loads payload))
  object-Fails = read (lib.loads payload) refl
    where
      read : (o : Option Value) → lib.loads payload ≡ o → Fails IsCaused (object_of o)
      read none e = Fails-err _ (inl refl, inl (refl, ap object_of e))
      read (some (object d)) e = Fails-ok d
      read (some v) e = Fails-err _ (inl refl, inl (refl, ap object_of e))

  normal-Fails : (d : Fields) → Fails IsCaused (normalize_control d)
  unfolding normalize_control
  normal-Fails d =
      if_case (λ (r : Result Failure Fields). Fails IsCaused r)
        (not (is_text (get "type" d) "start") || has_key "audio" d) (λ _. Fails-ok d)
        (λ _.
          Fails-bind (names_protocol (get_or "protocol" (get "version" d) d)) (translate_if d)
            (hashed (get_or "protocol" (get "version" d) d)) λ b _. translating b)
    where
      hashed : (v : Value) → Fails IsCaused (names_protocol v)
      hashed (array items) = Fails-err type_error tt
      hashed (object fields) = Fails-err type_error tt
      hashed v = Fails-ok _

      translating : (b : Bool) → Fails IsCaused (translate_if d b)
      translating true = Fails-ok (translated d)
      translating false = Fails-ok d

  -- The type that the frame tells, against the one of its dictionary.
  typed-Fails :
      (d : Fields)
      → object_of (lib.loads payload) ≡ ok d
      → Fails IsCaused (apply_envelope_type d (signal_name t))
  unfolding apply_envelope_type
  typed-Fails d found = go (get "type" d) refl
    where
      against :
          (v : Value)
          → get "type" d ≡ v
          → (b : Bool) → is_text v (signal_name t) ≡ b
          → Fails IsCaused (
              if b
              then ok (insert "type" (string (codes (signal_name t))) d)
              else err (mismatch (signal_name t)))
      against v e true k = Fails-ok _
      against v e false k = Fails-err (mismatch (signal_name t)) (
        inr (string (codes (signal_name t)), refl),
        inr (inl (refl, d, found, ap (λ w. is_text w (signal_name t)) e ∙ k)),
      )

      go : (v : Value) → get "type" d ≡ v → Fails IsCaused (applied v d (signal_name t))
      go null e = Fails-ok _
      go v e = against v e (is_text v (signal_name t)) refl

  untold : Fails IsCaused (apply_envelope_type end (signal_name t))
  unfolding apply_envelope_type lookup
  untold = Fails-ok _

  signal-Fails :
      decode_json_payload lib t payload ≡ object_of (lib.loads payload)
      → Fails IsCaused (parse_signal lib (parse_client_message lib) t payload (signal_name t))
  signal-Fails = given payload
    where
      given :
          (p : List ℕ)
          → decode_json_payload lib t p ≡ object_of (lib.loads payload)
          → Fails IsCaused (parse_signal lib (parse_client_message lib) t p (signal_name t))
      given [] e =
          Fails-bind (apply_envelope_type end (signal_name t)) (parse_client_message lib) untold
            λ d _. message-Fails d
      given (b ∷ p) e = rw e (
          Fails-bind (object_of (lib.loads payload)) _ object-Fails λ d found.
            Fails-bind (apply_envelope_type d (signal_name t)) (parse_client_message lib)
              (typed-Fails d found) λ x _. message-Fails x)

module _ {M : Type 0} (lib : Library M) where
  payload-Fails :
      (t : RawUdsFrameType) (payload : List ℕ)
      → has_client_json t ≡ true
      → Fails (Told lib t payload) (client_payload lib t payload)
  unfolding decode_json_payload
  payload-Fails json_control payload h = answered-Fails lib json_control payload _ (
      Fails-bind (object_of (lib.loads payload)) _ (object-Fails lib json_control payload) λ d _.
        Fails-bind (normalize_control d) (parse_client_message lib)
          (normal-Fails lib json_control payload d) λ p _. message-Fails lib json_control payload p)
  payload-Fails Wire.ping payload h =
      answered-Fails lib Wire.ping payload _ (signal-Fails lib Wire.ping payload refl)
  payload-Fails Wire.pong payload h =
      answered-Fails lib Wire.pong payload _ (signal-Fails lib Wire.pong payload refl)
  payload-Fails Wire.audio_pcm16 payload h = cc
  payload-Fails Wire.json_event payload h = cc
  payload-Fails Wire.error payload h = cc

  -- Whatever the bytes and the library, a protocol error from a control, ping or pong frame of a client has
  -- the code of a malformed frame, and its metadata has the code of what was wrong: that of invalid JSON only where
  -- the payload is no JSON object, that of a mismatch only where a ping or pong has the type of something else, and
  -- that of a validation error only for the reason of a dictionary that validation refuses.
  pub parse_client_frame-IsMalformed :
      (frame : RawUdsFrame) (e : Failure)
      → has_client_json frame.frame_type ≡ true
      → parse_client_frame lib frame ≡ err e
      → IsMalformed lib frame e
  unfolding parse_client_frame
  parse_client_frame-IsMalformed frame e h =
      (payload-Fails frame.frame_type frame.payload h).because e
