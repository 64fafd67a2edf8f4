-- ===== src/Messages/RoundTrip.antt =====
-- What is sent as a frame is read back as the message that it was made of: the encoders and the parsers
-- of src/protocols/local_stt_v1.py.
use rtc_asr.Prelude.{
  ℕ, ◌≡◌, refl, sym, ap, ◌∙◌, inl, inr, Bool, true, false, List, [], String, if◌then◌else◌, Result,
  ok, ◌>>=◌, map_err, bind_returned, map_err_returned, ◌⊎◌,
}
use rtc_asr.Wire.{
  RawUdsFrameType, json_control, audio_pcm16, json_event, RawUdsFrame, member, bytes,
  encode_raw_uds_frame, decode_raw_uds_frame, Code,
}
use rtc_asr.Wire
use rtc_asr.Json.{Fields}
use rtc_asr.Wire.RoundTrip.{encode_returned}
use rtc_asr.Messages.{
  Failure, Kind, ping, pong, kind_name, Library, of_code, normalize_control, rewrap, Payload,
  Parsed, client_frame_type, is_signal, to_message,
}
use rtc_asr.Messages.Frames.{
  parse_client_message, compact, is_bare, encode_json_frame, encode_message, client_message,
  encode_client_message, parse_signal, client_payload, parse_client_frame,
}
use rtc_asr.Messages.Compact.{
  Laws, Carries, compact-Carries, bare-Carries, bare, carries_json, name, normal, signal_of,
  decoded, signal_read, bare_read,
}

-- What validation says of a client's dictionary, with its error told as that of a malformed frame.
abbrev pub answered : {M : Type 0} → Library M → Fields → Result Failure (Parsed M)
answered lib d =
    map_err (rewrap "raw_uds_malformed_json_control") (parse_client_message lib d) >>= to_message

module _ {M : Type 0} (lib : Library M) (laws : Laws lib) (m : M) where
  control_read :
      client_payload lib json_control (lib.dumps (compact lib m)) ≡ answered lib (compact lib m)
  control_read =
      ap
        (λ r.
          map_err (rewrap "raw_uds_malformed_json_control")
            (r >>= λ d. normalize_control d >>= parse_client_message lib)
          >>= to_message)
        (decoded lib laws m json_control refl)
      ∙ ap
          (λ r.
            map_err (rewrap "raw_uds_malformed_json_control") (r >>= parse_client_message lib)
            >>= to_message)
          (normal lib laws m)

  -- Under the type that the frame tells.
  signal_answered :
      (t : RawUdsFrameType) (payload : List ℕ) (s : String) (d : Fields)
      → name lib laws m ≡ s
      → parse_signal lib (parse_client_message lib) t payload (name lib laws m)
        ≡ parse_client_message lib d
      → map_err
            (rewrap "raw_uds_malformed_json_control")
            (parse_signal lib (parse_client_message lib) t payload s)
          >>= to_message
        ≡ answered lib d
  signal_answered t payload s d e read =
      ap
        (λ x.
          map_err (rewrap "raw_uds_malformed_json_control")
            (parse_signal lib (parse_client_message lib) t payload x)
          >>= to_message)
        (sym e)
      ∙ ap (λ r. map_err (rewrap "raw_uds_malformed_json_control") r >>= to_message) read

  client_read :
      (k : Kind)
      → lib.kind m ≡ k
      → client_payload lib (client_frame_type k) (lib.dumps (compact lib m))
        ≡ answered lib (compact lib m)
  client_read ping e =
      signal_answered Wire.ping _ "ping" _ (ap kind_name e)
        (signal_read lib laws m (parse_client_message lib) Wire.ping refl)
  client_read pong e =
      signal_answered Wire.pong _ "pong" _ (ap kind_name e)
        (signal_read lib laws m (parse_client_message lib) Wire.pong refl)
  client_read k e = control_read

  client_bare :
      (k : Kind)
      → lib.kind m ≡ k
      → is_bare lib m ≡ true
      → client_payload lib (client_frame_type k) [] ≡ answered lib (bare lib laws m)
  client_bare ping e h =
      signal_answered Wire.ping [] "ping" _ (ap kind_name e)
        (bare_read lib laws m (parse_client_message lib) Wire.ping)
  client_bare pong e h =
      signal_answered Wire.pong [] "pong" _ (ap kind_name e)
        (bare_read lib laws m (parse_client_message lib) Wire.pong)
  client_bare k e h = let signal : is_signal k ≡ true = rw e at (signal_of lib laws m h) in cc

  -- What `encode_message` returns is the bytes of one frame, of the type and with the payload that it says.
  pub framed_as :
      (t : RawUdsFrameType) (b : List ℕ)
      → carries_json t ≡ true
      → encode_message lib t m ≡ ok b
      → ((is_bare lib m ≡ true)
          × (decode_raw_uds_frame (bytes b) ≡ ok (record { frame_type = t; payload = [] })))
        ⊎ (decode_raw_uds_frame (bytes b)
            ≡ ok (record { frame_type = t; payload = lib.dumps (compact lib m) }))
  unfolding encode_json_frame
  framed_as t b json e = go (is_bare lib m) refl e
    where
      plain :
          (t : RawUdsFrameType)
          → carries_json t ≡ true
          → encode_json_frame lib t (compact lib m) ≡ ok b
          → encode_raw_uds_frame (member t) (bytes (lib.dumps (compact lib m))) ≡ ok b
      plain audio_pcm16 json e = cc
      plain t json e = map_err_returned of_code _ b e

      go :
          (h : Bool)
          → is_bare lib m ≡ h
          → (if h
              then map_err of_code (encode_raw_uds_frame (member t) (bytes []))
              else encode_json_frame lib t (compact lib m))
            ≡ ok b
          → ((is_bare lib m ≡ true)
              × (decode_raw_uds_frame (bytes b) ≡ ok (record { frame_type = t; payload = [] })))
            ⊎ (decode_raw_uds_frame (bytes b)
                ≡ ok (record { frame_type = t; payload = lib.dumps (compact lib m) }))
      go true h e = inl (h, encode_returned t [] b (map_err_returned of_code _ b e))
      go false h e = inr (encode_returned t (lib.dumps (compact lib m)) b (plain t json e))

carries_client : (k : Kind) → carries_json (client_frame_type k) ≡ true
carries_client ping = refl
carries_client pong = refl
carries_client k = refl

module _ {M : Type 0} (lib : Library M) (laws : Laws lib) where
  -- Whatever a client encodes as a message `m` is the bytes of one frame, and the server's parser answers to
  -- that frame as validation does to a dictionary with all the fields of `m` but empty metadata and
  -- a false `finalize_on_stable_partial`, when pydantic and json keep their laws.
  pub parse-encode_client :
      (payload : Payload M) (b : List ℕ)
      → encode_client_message lib payload ≡ ok b
      → (m : M) × (f : RawUdsFrame) × (d : Fields) × (client_message lib payload ≡ ok m)
        × (decode_raw_uds_frame (bytes b) ≡ ok f)
        × Carries d (lib.dump m)
        × (parse_client_frame lib f ≡ answered lib d)
  unfolding encode_client_message parse_client_frame
  parse-encode_client payload b returned =
      let (m, encoded, meant) =
        bind_returned (λ m. encode_message lib (client_frame_type (lib.kind m)) m)
          (client_message lib payload) returned in
      let t = client_frame_type (lib.kind m) in
      elim (framed_as lib laws m t b (carries_client (lib.kind m)) encoded) [
        | inl (h, read) ↦ (
          m,
          record { frame_type = t; payload = [] },
          bare lib laws m,
          meant,
          read,
          bare-Carries lib laws m h,
          client_bare lib laws m (lib.kind m) refl h,
        )
        | inr read ↦ (
          m,
          record { frame_type = t; payload = lib.dumps (compact lib m) },
          compact lib m,
          meant,
          read,
          compact-Carries lib laws m,
          client_read lib laws m (lib.kind m) refl,
        )
      ]
