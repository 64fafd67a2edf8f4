-- ===== src/Stream/Tests.antt =====
-- Runs of the /ws/stream handler, and its theorems at concrete inputs.
use rtc_asr.Prelude.{ℕ, ◌≡◌, refl, true, false, none, some, List, [], ◌∷◌, ok, Fails-ok, arith}
use rtc_asr.Prelude.Int.{pos}
use rtc_asr.Prelude.Rounding.{round_half_even}
use rtc_asr.Text.{Text, codes, strip, lstrip, is_space, fold_case}
use rtc_asr.Json.{Fields, end, field, integer, string, float, object, infinity, lookup, get, get_or}
use rtc_asr.Session.{
  StreamSession, Transcript, unexpected, append_audio, record_partial, partial_audio_bytes,
  last_partial_if_reusable, rolling_window, audio_bytes_to_duration_ms,
}
use rtc_asr.Session.Create.{create_stream_session, positive_integer, coerce_positive_seconds}
use rtc_asr.Stream.{
  Library, Services, Backend, Incoming, binary, text, Connection, accepted, serve, websocket_step,
  closed, start, error_event, receive_stream_event, event_type_of, dispatch, handle_start,
  handle_audio, handle_stop, after_chunk, emit_partial, stream_event, on_error,
  resolve_final_result, decode_websocket_audio,
}
use rtc_asr.Stream.Grammar.{serve-Lawful, Lawful}
use rtc_asr.Stream.Final.{handle_stop-IsAnswer, IsAnswer, Step}
use rtc_asr.Stream.Errors.{websocket_step-Closes, Closes}
use rtc_asr.Stream.Infinite.{websocket_step-infinite, IsOtherwiseFine}

abbrev library : Library
library = record {
  unicode = record { lower = λ c. c ∷ []; casefold = λ c. c ∷ [] };
  b64decode = λ t. none;
}

-- Ten bytes at most.
abbrev services : Services
services = record {
  config = record { sample_rate = 16000; stream_max_buffer_bytes = 10 };
  backend_name = codes "echo";
  model_name = codes "tiny";
}

abbrev heard : List ℕ → Transcript
heard bytes = record { text = some bytes; backend = none; model = none; language = none }

-- A backend whose transcript is the audio.
abbrev echo : Backend
echo = record { transcribe = λ bytes language rate. ok (heard bytes); is_loaded = false }

abbrev event : Text → Fields → Incoming
event name d = text (some (object (field "type" (string name) d)))

abbrev start_message : Incoming
start_message = event (codes " start") (field "partial_interval_chunks" (integer (pos 2)) end)

abbrev conversation : List Step
conversation =
    (echo, start_message) ∷ (echo, binary (1 ∷ 2 ∷ [])) ∷ (echo, binary (3 ∷ 4 ∷ [])) ∷ []

abbrev conversation_end : Connection
conversation_end = (serve library services accepted conversation).connection

abbrev spoken : StreamSession
spoken = record {
  stream_id = 1;
  language = some (codes "en");
  sample_rate = 16000;
  max_buffer_bytes = 10;
  partial_interval_chunks = 2;
  partial_interval_audio_ms = none;
  partial_window_seconds = none;
  max_buffer_seconds = none;
  partial_window_bytes = none;
  interim_results = true;
  finalize_on_stable_partial = false;
  stable_partial_cycles = 3;
  client_stream_id = none;
  client_metadata = end;
  decoder_mode = rolling_window;
  audio_buffer = 1 ∷ 2 ∷ 3 ∷ 4 ∷ [];
  chunks_received = 2;
  last_partial_chunks_received = 2;
  last_partial_audio_received_ms = 0;
  last_partial_result = some (heard (1 ∷ 2 ∷ 3 ∷ 4 ∷ []));
  stable_partial_text = none;
  stable_partial_count = 0;
  transcript_revision = 0;
}

spoken_run : conversation_end.session ≡ some spoken
unfolding serve websocket_step receive_stream_event event_type_of dispatch handle_start handle_audio
    after_chunk emit_partial create_stream_session positive_integer coerce_positive_seconds lookup
    strip lstrip is_space fold_case append_audio decode_websocket_audio partial_audio_bytes
    record_partial audio_bytes_to_duration_ms round_half_even
spoken_run = refl

-- A partial result that covers the buffer is sent again as the final one.
stop_run :
    handle_stop echo conversation_end
    ≡ ok (
      record conversation_end { session = none },
      stream_event true spoken (heard (1 ∷ 2 ∷ 3 ∷ 4 ∷ [])) ∷ [],
    )
unfolding serve websocket_step receive_stream_event event_type_of dispatch handle_start handle_audio
    after_chunk emit_partial create_stream_session positive_integer coerce_positive_seconds lookup
    strip lstrip is_space fold_case append_audio decode_websocket_audio partial_audio_bytes
    record_partial audio_bytes_to_duration_ms round_half_even handle_stop resolve_final_result
    last_partial_if_reusable stream_event
stop_run = refl

handle_stop-IsAnswer_example :
    (t : Transcript) × (stream_event true spoken (heard (1 ∷ 2 ∷ 3 ∷ 4 ∷ [])) ∷ []
      ≡ stream_event true spoken t ∷ [])
    × IsAnswer ((echo, event (codes "stop") end) ∷ conversation) spoken t
handle_stop-IsAnswer_example =
    handle_stop-IsAnswer library services (omega arith) conversation
      (echo, event (codes "stop") end) spoken spoken_run
      (record conversation_end { session = none })
      (stream_event true spoken (heard (1 ∷ 2 ∷ 3 ∷ 4 ∷ [])) ∷ []) stop_run

serve-Lawful_example :
    Lawful library services (omega arith) accepted (serve library services accepted conversation)
serve-Lawful_example = serve-Lawful library services (omega arith) accepted conversation tt

-- An eleventh byte.
abbrev long_chunk : Incoming
long_chunk = binary (5 ∷ 6 ∷ 7 ∷ 8 ∷ 9 ∷ 10 ∷ 11 ∷ [])

abbrev speaking : Connection
speaking = record { session = some spoken; next_stream_id = 2; preload_error = none }

overflow_run : (websocket_step library services echo speaking long_chunk).fate ≡ closed 1009
unfolding websocket_step receive_stream_event dispatch handle_audio decode_websocket_audio
    append_audio on_error
overflow_run = refl

websocket_step-Closes_example :
    Closes library services echo speaking (websocket_step library services echo speaking long_chunk)
websocket_step-Closes_example =
    websocket_step-Closes library services echo speaking long_chunk 1009
      (λ bytes language rate. Fails-ok _) overflow_run

abbrev endless : Fields
endless = field "type" (string (codes "start")) (field "max_buffer_seconds" (float infinity) end)

endless-IsOtherwiseFine : IsOtherwiseFine services.config endless
unfolding lookup positive_integer
endless-IsOtherwiseFine = record {
  no_window = refl;
  rate = 16000;
  rate_taken = refl;
  interval = 1;
  interval_taken = refl;
  language = some (codes "en");
  language_taken = refl;
}

endless_starts : event_type_of library (get_or "type" (string []) endless) ≡ start
unfolding event_type_of lookup strip lstrip is_space fold_case
endless_starts = refl

endless_is : get "max_buffer_seconds" endless ≡ float infinity
unfolding lookup
endless_is = refl

websocket_step-infinite_example :
    let after = websocket_step library services echo accepted (text (some (object endless))) in
    (after.fate ≡ closed 1011)
    × (after.sent ≡ error_event unexpected 1011 ∷ [])
    × (after.connection.preload_error ≡ some unexpected)
websocket_step-infinite_example =
    websocket_step-infinite library services echo accepted endless refl endless_starts
      endless-IsOtherwiseFine endless_is
