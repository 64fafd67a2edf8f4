-- ===== src/Session/Tests.antt =====
-- Runs of the session's code, and its theorems at concrete inputs.
use rtc_asr.Prelude.{
  ℕ, ◌*◌, ◌≡◌, ◌≤◌, ◌<◌, ◌+◌, ◌++◌, refl, true, false, none, some, List, [], ◌∷◌, length, ok, err,
  arith,
}
use rtc_asr.Prelude.Int.{pos}
use rtc_asr.Prelude.Rounding.{round_half_even}
use rtc_asr.Text.{Text, Unicode, codes, is_space, fold_case}
use rtc_asr.Text.Words.{words, split_from, join_words}
use rtc_asr.Json.{Fields, end, field, integer, float, finite, lookup}
use rtc_asr.Session.{
  StreamSession, Transcript, audio_bytes_to_duration_ms, append_audio, partial_audio_bytes,
  rolling_window, client_error, buffer_exceeded, normalize_stability_text,
}
use rtc_asr.Session.Create.{
  StreamConfig, create_stream_session, positive_integer, coerce_positive_seconds,
  seconds_to_buffer_bytes, seconds_to_samples,
}
use rtc_asr.Session.Bounds.{
  IsWellFormed, append_audio-IsWellFormed, partial_audio_bytes_lem, IsNew,
  create_stream_session-IsNew,
}
use rtc_asr.Session.CreateLocal.{
  LocalSttStartConfig, create_local_stt_stream_session, create_local_stt_stream_session-IsNew,
  partial_intervals, partial_intervals_lem, ceil_quotient, log_two,
}
use rtc_asr.Session.Stability.{observe, stable_partial_count-observe}

-- A session with a limit of 8 bytes and a window of 4.
abbrev session_of : List ℕ → StreamSession
session_of buffer = record {
  stream_id = 1;
  language = none;
  sample_rate = 16000;
  max_buffer_bytes = 8;
  partial_interval_chunks = 1;
  partial_interval_audio_ms = none;
  partial_window_seconds = none;
  max_buffer_seconds = none;
  partial_window_bytes = some 4;
  interim_results = true;
  finalize_on_stable_partial = true;
  stable_partial_cycles = 2;
  client_stream_id = none;
  client_metadata = end;
  decoder_mode = rolling_window;
  audio_buffer = buffer;
  chunks_received = 1;
  last_partial_chunks_received = 0;
  last_partial_audio_received_ms = 0;
  last_partial_result = none;
  stable_partial_text = none;
  stable_partial_count = 0;
  transcript_revision = 0;
}

abbrev six : List ℕ
six = 1 ∷ 2 ∷ 3 ∷ 4 ∷ 5 ∷ 6 ∷ []

session_of-IsWellFormed : IsWellFormed (session_of six)
session_of-IsWellFormed = record {
  within = omega arith;
  window = (omega arith, omega arith);
  interval = omega arith;
  rate = omega arith;
}

duration_run : audio_bytes_to_duration_ms 3200 16000 ≡ 100
unfolding audio_bytes_to_duration_ms round_half_even
duration_run = refl

-- A half rounds to the even neighbour.
duration_half_run : audio_bytes_to_duration_ms 80 16000 ≡ 2
unfolding audio_bytes_to_duration_ms round_half_even
duration_half_run = refl

window_run : partial_audio_bytes (session_of six) ≡ 3 ∷ 4 ∷ 5 ∷ 6 ∷ []
unfolding partial_audio_bytes
window_run = refl

overflow_run :
    append_audio (session_of six) (7 ∷ 8 ∷ 9 ∷ []) ≡ err (client_error buffer_exceeded 1009)
unfolding append_audio
overflow_run = refl

append_audio-IsWellFormed_example :
    IsWellFormed (record (session_of six) { audio_buffer = six ++ 7 ∷ 8 ∷ []; chunks_received = 2 })
unfolding append_audio
append_audio-IsWellFormed_example =
    append_audio-IsWellFormed (session_of six) _ (7 ∷ 8 ∷ []) session_of-IsWellFormed refl

partial_audio_bytes_lem_example : length (partial_audio_bytes (session_of six)) ≡ 4
partial_audio_bytes_lem_example =
    (partial_audio_bytes_lem (session_of six) 4 session_of-IsWellFormed refl).1

abbrev config : StreamConfig
config = record { sample_rate = 16000; stream_max_buffer_bytes = 1000 }

-- A tenth of a second at 8 kHz is 1600 bytes: the configured limit is less.
abbrev start_payload : Fields
start_payload = field "sample_rate" (integer (pos 8000)) (
    field "max_buffer_seconds" (float (finite (pos 1) 9))
      (field "partial_window_seconds" (float (finite (pos 1) 99)) end))

abbrev new_session : StreamSession
new_session = record (session_of []) {
  stream_id = 7;
  language = some (codes "en");
  sample_rate = 8000;
  max_buffer_bytes = 1000;
  partial_window_seconds = some (finite (pos 1) 99);
  max_buffer_seconds = some (finite (pos 1) 9);
  partial_window_bytes = some 160;
  finalize_on_stable_partial = false;
  stable_partial_cycles = 3;
  chunks_received = 0;
}

create_run : create_stream_session start_payload config 7 ≡ ok new_session
unfolding create_stream_session positive_integer coerce_positive_seconds seconds_to_buffer_bytes
    seconds_to_samples round_half_even lookup
create_run = refl

create_stream_session-IsNew_example : IsNew config 7 new_session
create_stream_session-IsNew_example =
    create_stream_session-IsNew start_payload config 7 new_session (omega arith) create_run

abbrev ascii : Unicode
ascii = record { lower = λ c. c ∷ []; casefold = λ c. c ∷ [] }

abbrev said : Text → Transcript
said t = record { text = some t; backend = none; model = none; language = none }

stable_partial_count-observe_example :
    (observe ascii
      (session_of six)
      (said (codes " a b") ∷ said (codes "a  b ") ∷ said (codes "a") ∷ [])).stable_partial_count
    ≡ 2
unfolding normalize_stability_text words split_from join_words is_space fold_case
stable_partial_count-observe_example =
    stable_partial_count-observe ascii (session_of six)
      (said (codes " a b") ∷ said (codes "a  b ") ∷ said (codes "a") ∷ []) refl refl

abbrev local_start : LocalSttStartConfig
local_start = record {
  sample_rate = 8000;
  language = some (codes "en");
  interim_results = true;
  partial_interval_chunks = 1;
  partial_interval_audio_ms = none;
  partial_window_seconds = some (finite (pos 1) 99);
  max_buffer_seconds = some (finite (pos 1) 9);
  finalize_on_stable_partial = false;
  stable_partial_cycles = 3;
  client_stream_id = none;
  client_metadata = end;
}

local_run : create_local_stt_stream_session local_start config 7 ≡ ok new_session
unfolding create_local_stt_stream_session seconds_to_buffer_bytes seconds_to_samples round_half_even
local_run = refl

create_local_stt_stream_session-IsNew_example : IsNew config 7 new_session
create_local_stt_stream_session-IsNew_example =
    create_local_stt_stream_session-IsNew local_start config 7 new_session (omega arith)
      (omega arith) (omega arith) local_run

interval_run : partial_intervals (some 250) none 20 ≡ ok (13, some 260)
unfolding partial_intervals ceil_quotient
interval_run = refl

-- The double nearest to 100000000000000001 / 20 is a whole number below it.
large_run : ceil_quotient 100000000000000001 20 ≡ ok 5000000000000000
unfolding ceil_quotient log_two round_half_even
large_run = refl

partial_intervals_lem_example :
    (chunks : ℕ) × (partial_intervals (some 250) none 20 ≡ ok (chunks, some (chunks * 20)))
    × (0 < chunks)
    × (250 ≤ chunks * 20)
    × (chunks * 20 < 250 + 20)
partial_intervals_lem_example =
    partial_intervals_lem 250 20 none (omega arith) (omega arith) (omega arith)
