-- ===== src/Wire/Tests.antt =====
-- Runs of the framing code, and its theorems at concrete inputs.
use rtc_asr.Prelude.{ℕ, ◌≡◌, ◌≢◌, refl, List, [], ◌∷◌, ◌++◌, ◌<◌, ◌+◌, arith, ok, err}
use rtc_asr.Wire.{
  RawUdsFrame, ping, audio_pcm16, member, bytes, text, encode_raw_uds_frame, decode_raw_uds_frame,
  unsupported_frame_type, payload_too_large, header_bytes, max_payload_bytes, pack_header,
  type_of_value,
}
use rtc_asr.Wire.RoundTrip.{decode-encode, encode-decode, framed}
use rtc_asr.Wire.Receive.{receive_frame, receive_frame-next_frame, as_received, received}
use rtc_asr.Wire.Decoder.Loop.{feed_loop-ne-stuck}
use rtc_asr.Wire.Decoder.{stuck, empty_decoder, feed, feed_loop, next_frame, buffered_bytes}
use rtc_asr.Wire.Decoder.Stream.{feed-append, feed_all-encoded, feed_all, and_then, joined}
use rtc_asr.Wire.Decoder.Bounds.{run-bound, run, feeds, finishes}

abbrev beep : RawUdsFrame
beep = record { frame_type = ping; payload = [] }

abbrev audio : RawUdsFrame
audio = record { frame_type = audio_pcm16; payload = 1 ∷ 2 ∷ 3 ∷ 4 ∷ [] }

abbrev audio_bytes : List ℕ
audio_bytes = 2 ∷ 4 ∷ 0 ∷ 0 ∷ 0 ∷ 1 ∷ 2 ∷ 3 ∷ 4 ∷ []

encode_run : encode_raw_uds_frame (member audio_pcm16) (bytes (1 ∷ 2 ∷ 3 ∷ 4 ∷ [])) ≡ ok audio_bytes
unfolding encode_raw_uds_frame
encode_run = refl

bad_type_run : decode_raw_uds_frame (bytes (9 ∷ 0 ∷ 0 ∷ 0 ∷ 0 ∷ [])) ≡ err unsupported_frame_type
unfolding decode_raw_uds_frame type_of_value
bad_type_run = refl

too_large_run :
    feed (record { buffer = 2 ∷ 1 ∷ 0 ∷ [] }) (bytes (128 ∷ 0 ∷ 7 ∷ []))
    ≡ (err payload_too_large, empty_decoder)
unfolding feed feed_loop next_frame type_of_value
too_large_run = refl

decode-encode_example : decode_raw_uds_frame (bytes (framed audio)) ≡ ok audio
decode-encode_example = (decode-encode audio (omega arith)).1

encode-decode_example :
    encode_raw_uds_frame (member audio.frame_type) (bytes audio.payload) ≡ ok audio_bytes
unfolding decode_raw_uds_frame type_of_value
encode-decode_example = encode-decode audio_bytes audio (omega arith) refl

feed-append_example :
    feed empty_decoder (bytes (2 ∷ 4 ∷ 0 ∷ 0 ∷ 0 ∷ 1 ∷ []))
    ≡ and_then (feed empty_decoder (bytes (2 ∷ 4 ∷ 0 ∷ []))) (λ d. feed d (bytes (0 ∷ 0 ∷ 1 ∷ [])))
feed-append_example = feed-append empty_decoder (2 ∷ 4 ∷ 0 ∷ []) (0 ∷ 0 ∷ 1 ∷ [])

abbrev split : List (List ℕ)
split = (2 ∷ 4 ∷ 0 ∷ []) ∷ (0 ∷ 0 ∷ 1 ∷ 2 ∷ 3 ∷ []) ∷ [] ∷ (4 ∷ 5 ∷ 0 ∷ 0 ∷ []) ∷ (0 ∷ 0 ∷ []) ∷ []

feed_all-encoded_example : feed_all empty_decoder split ≡ (ok (audio ∷ beep ∷ []), empty_decoder)
unfolding joined pack_header
feed_all-encoded_example = feed_all-encoded (audio ∷ beep ∷ []) split (omega arith) refl

run-bound_example :
    buffered_bytes
      (run empty_decoder (feeds (bytes (2 ∷ 4 ∷ [])) ∷ feeds (text "no") ∷ finishes ∷ []))
    < header_bytes + max_payload_bytes
run-bound_example = (run-bound (feeds (bytes (2 ∷ 4 ∷ [])) ∷ feeds (text "no") ∷ finishes ∷ [])).1

receive_frame-next_frame_example :
    receive_frame (audio_bytes ++ 5 ∷ 0 ∷ [])
    ≡ as_received (audio_bytes ++ 5 ∷ 0 ∷ []) (next_frame (audio_bytes ++ 5 ∷ 0 ∷ []))
receive_frame-next_frame_example = receive_frame-next_frame (audio_bytes ++ 5 ∷ 0 ∷ [])

receive_run : receive_frame (audio_bytes ++ 5 ∷ 0 ∷ []) ≡ received audio (5 ∷ 0 ∷ [])
unfolding receive_frame decode_raw_uds_frame type_of_value
receive_run = refl

feed_loop-ne-stuck_example : feed_loop 6 (0 ∷ 0 ∷ 0 ∷ 0 ∷ 0 ∷ []) [] ≢ stuck
feed_loop-ne-stuck_example = feed_loop-ne-stuck 6 (0 ∷ 0 ∷ 0 ∷ 0 ∷ 0 ∷ []) [] (omega arith)
