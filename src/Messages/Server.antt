-- ===== src/Messages/Server.antt =====
-- What the server sends as a frame is read back as the message that it was made of, by
-- `parse_raw_uds_server_frame` of src/protocols/local_stt_v1.py.
use rtc_asr.Prelude.{
  ℕ, ◌≡◌, refl, sym, ap, ◌∙◌, inl, inr, true, List, [], String, Result, ok, ◌>>=◌, map_err,
  bind_returned,
}
use rtc_asr.Wire.{
  RawUdsFrameType, json_control, audio_pcm16, json_event, RawUdsFrame, member, bytes,
  encode_raw_uds_frame, decode_raw_uds_frame, Code,
}
use rtc_asr.Wire
use rtc_asr.Json.{Fields}
use rtc_asr.Messages.{
  Failure, Kind, ping, error, pong, kind_name, Library, apply_envelope_type, rewrap, rewrap_event,
  Payload, is_signal, server_frame_type,
}
use rtc_asr.Messages.Frames.{
  parse_server_message, compact, is_bare, encode_message, server_message, encode_server_message,
  parse_signal, server_payload, parse_server_frame,
}
use rtc_asr.Messages.Compact.{
  Laws, Carries, compact-Carries, bare-Carries, bare, carries_json, name, enveloped, signal_of,
  decoded, signal_read, bare_read,
}
use rtc_asr.Messages.RoundTrip.{framed_as}

-- The errors of a server's frame are told in one of two ways.
abbrev pub told : Kind → Failure → Failure
told ping = rewrap_event
told pong = rewrap_event
told error = rewrap_event
told k = rewrap "raw_uds_malformed_json_event"

-- What validation says of a server's dictionary.
abbrev pub answered : {M : Type 0} → Library M → Kind → Fields → Result Failure M
answered lib k d = map_err (told k) (parse_server_message lib d)

module _ {M : Type 0} (lib : Library M) (laws : Laws lib) (m : M) where
  -- Under the type that the frame tells.
  signal_answered :
      (t : RawUdsFrameType) (payload : List ℕ) (s : String) (d : Fields)
      → name lib laws m ≡ s
      → parse_signal lib (parse_server_message lib) t payload (name lib laws m)
        ≡ parse_server_message lib d
      → map_err rewrap_event (parse_signal lib (parse_server_message lib) t payload s)
        ≡ map_err rewrap_event (parse_server_message lib d)
  signal_answered t payload s d e read =
      ap (λ x. map_err rewrap_event (parse_signal lib (parse_server_message lib) t payload x))
        (sym e)
      ∙ ap (map_err rewrap_event) read

  error_read :
      lib.kind m ≡ error
      → server_payload lib Wire.error (lib.dumps (compact lib m))
        ≡ map_err rewrap_event (parse_server_message lib (compact lib m))
  error_read e =
      ap
        (λ r.
          map_err rewrap_event
            (r >>= λ d. apply_envelope_type d "error" >>= parse_server_message lib))
        (decoded lib laws m Wire.error refl)
      ∙ ap
          (λ s.
            map_err rewrap_event
              (apply_envelope_type (compact lib m) s >>= parse_server_message lib))
          (sym (ap kind_name e))
      ∙ ap (λ r. map_err rewrap_event (r >>= parse_server_message lib)) (enveloped lib laws m)

  server_read :
      (k : Kind)
      → lib.kind m ≡ k
      → server_payload lib (server_frame_type k) (lib.dumps (compact lib m))
        ≡ answered lib k (compact lib m)
  server_read ping e =
      signal_answered Wire.ping (lib.dumps (compact lib m)) "ping" _ (ap kind_name e)
        (signal_read lib laws m (parse_server_message lib) Wire.ping refl)
  server_read pong e =
      signal_answered Wire.pong (lib.dumps (compact lib m)) "pong" _ (ap kind_name e)
        (signal_read lib laws m (parse_server_message lib) Wire.pong refl)
  server_read error e = error_read e
  server_read k e =
      ap (λ r. map_err (rewrap "raw_uds_malformed_json_event") (r >>= parse_server_message lib))
        (decoded lib laws m json_event refl)

  server_bare :
      (k : Kind)
      → lib.kind m ≡ k
      → is_bare lib m ≡ true
      → server_payload lib (server_frame_type k) [] ≡ answered lib k (bare lib laws m)
  server_bare ping e h =
      signal_answered Wire.ping [] "ping" _ (ap kind_name e)
        (bare_read lib laws m (parse_server_message lib) Wire.ping)
  server_bare pong e h =
      signal_answered Wire.pong [] "pong" _ (ap kind_name e)
        (bare_read lib laws m (parse_server_message lib) Wire.pong)
  server_bare k e h = let signal : is_signal k ≡ true = rw e at (signal_of lib laws m h) in cc

carries_server : (k : Kind) → carries_json (server_frame_type k) ≡ true
carries_server ping = refl
carries_server pong = refl
carries_server error = refl
carries_server k = refl

module _ {M : Type 0} (lib : Library M) (laws : Laws lib) where
  -- Whatever the server encodes as a message `m` is the bytes of one frame, and the client's parser answers to
  -- that frame as validation does to a dictionary with all the fields of `m` but empty metadata and
  -- a false `finalize_on_stable_partial`, when pydantic and json keep their laws.
  pub parse-encode_server :
      (payload : Payload M) (b : List ℕ)
      → encode_server_message lib payload ≡ ok b
      → (m : M) × (f : RawUdsFrame) × (d : Fields) × (server_message lib payload ≡ ok m)
        × (decode_raw_uds_frame (bytes b) ≡ ok f)
        × Carries d (lib.dump m)
        × (parse_server_frame lib f ≡ answered lib (lib.kind m) d)
  unfolding encode_server_message parse_server_frame
  parse-encode_server payload b returned =
      let (m, encoded, meant) =
        bind_returned (λ m. encode_message lib (server_frame_type (lib.kind m)) m)
          (server_message lib payload) returned in
      let t = server_frame_type (lib.kind m) in
      elim (framed_as lib laws m t b (carries_server (lib.kind m)) encoded) [
        | inl (h, read) ↦ (
          m,
          record { frame_type = t; payload = [] },
          bare lib laws m,
          meant,
          read,
          bare-Carries lib laws m h,
          server_bare lib laws m (lib.kind m) refl h,
        )
        | inr read ↦ (
          m,
          record { frame_type = t; payload = lib.dumps (compact lib m) },
          compact lib m,
          meant,
          read,
          compact-Carries lib laws m,
          server_read lib laws m (lib.kind m) refl,
        )
      ]
