-- ===== src/Session/Create.antt =====
-- `_create_stream_session` of src/main.py: the start event of /ws/stream.
use rtc_asr.Prelude.{
  ℕ, zero, suc, ◌+◌, ◌*◌, ◌-◌, ◌^◌, max, min, Bool, true, false, Option, none, some, [], leb,
  if◌then◌else◌, Result, ok, err, ◌>>=◌, is_some, ◌||◌,
}
use rtc_asr.Prelude.Int.{pos, negsuc}
use rtc_asr.Prelude.Rounding.{round_half_even}
use rtc_asr.Text.{Text, codes}
use rtc_asr.Json.{
  Float, finite, infinity, nan, Value, null, integer, float, string, Fields, end, get, get_or,
}
use rtc_asr.Session.{
  StreamSession, StreamError, Reason, client_error, number_error, unexpected,
  sample_rate_not_positive, interval_not_positive, language_not_text, window_not_positive,
  max_buffer_not_positive, rolling_window,
}

-- The fields of `AppConfig` that a stream reads.
pub record StreamConfig : Type 0 where
  pub sample_rate : ℕ
  pub stream_max_buffer_bytes : ℕ

-- An `int`, no `bool`, above 0.
unfoldable pub positive_integer : Value → Option ℕ
positive_integer (integer (pos zero)) = none
positive_integer (integer (pos (suc n))) = some (suc n)
positive_integer _ = none

unfoldable pub is_positive_integer : Value → Bool
unfolding positive_integer
is_positive_integer v = is_some (positive_integer v)

abbrev pub require_positive : Value → Reason → Result StreamError ℕ
require_positive v reason = elim (positive_integer v) [
  | none ↦ err (client_error reason 1003)
  | some n ↦ ok n
]

-- A value `float(n)` would not represent: it raises `OverflowError`.
abbrev pub float_limit : ℕ
float_limit = 2 ^ 1024 - 2 ^ 970

abbrev pub to_float : ℕ → Result StreamError (Option Float)
to_float n = if leb float_limit n then err unexpected else ok (some (finite (pos n) 0))

unfoldable pub coerce_positive_seconds : Value → Reason → Result StreamError (Option Float)
coerce_positive_seconds null reason = ok none
coerce_positive_seconds (integer (pos (suc n))) reason = to_float (suc n)
coerce_positive_seconds (float (finite (pos (suc n)) d)) reason = ok (some (finite (pos (suc n)) d))
coerce_positive_seconds (float infinity) reason = ok (some infinity)
coerce_positive_seconds (float nan) reason = ok (some nan)
coerce_positive_seconds _ reason = err (client_error reason 1003)

-- `round(seconds * sample_rate)`: `OverflowError` for a rate that no double is near, for a product that is an
-- infinity and for an infinite number of seconds, else `ValueError` for a NaN.
unfoldable pub seconds_to_samples : Float → ℕ → Result StreamError ℕ
seconds_to_samples (finite (pos n) d) rate =
    if leb float_limit rate || leb (float_limit * (d + 1)) (n * rate)
    then err unexpected
    else ok (round_half_even (n * rate) (d + 1))
seconds_to_samples nan rate = if leb float_limit rate then err unexpected else err number_error
seconds_to_samples (finite (negsuc n) d) rate =
    if leb float_limit rate then err unexpected else ok 0
seconds_to_samples _ rate = err unexpected

unfoldable pub seconds_to_buffer_bytes : Float → ℕ → Result StreamError ℕ
unfolding seconds_to_samples
seconds_to_buffer_bytes seconds rate = do
  sample_count ← seconds_to_samples seconds rate
  ok (max 1 sample_count * 2)

abbrev pub text_or_null : Value → Result StreamError (Option Text)
text_or_null null = ok none
text_or_null (string t) = ok (some t)
text_or_null _ = err (client_error language_not_text 1003)

-- `limit` cut down to the bytes of `seconds`, if a number of seconds is given.
abbrev pub cut_to : ℕ → Option Float → ℕ → Result StreamError ℕ
cut_to limit none rate = ok limit
cut_to limit (some seconds) rate = do n ← seconds_to_buffer_bytes seconds rate; ok (min limit n)

abbrev pub window_bytes : ℕ → Option Float → ℕ → Result StreamError (Option ℕ)
window_bytes limit none rate = ok none
window_bytes limit (some seconds) rate = do
  n ← seconds_to_buffer_bytes seconds rate
  ok (some (min limit n))

abbrev pub default_stable_partial_cycles : ℕ
default_stable_partial_cycles = 3

unfoldable pub create_stream_session : Fields → StreamConfig → ℕ → Result StreamError StreamSession
unfolding positive_integer coerce_positive_seconds seconds_to_buffer_bytes
create_stream_session payload config stream_id = do
  window_seconds ←
      coerce_positive_seconds (get "partial_window_seconds" payload) window_not_positive
  buffer_seconds ←
      coerce_positive_seconds (get "max_buffer_seconds" payload) max_buffer_not_positive
  sample_rate ←
      require_positive (get_or "sample_rate" (integer (pos config.sample_rate)) payload)
        sample_rate_not_positive
  interval ←
      require_positive (get_or "partial_interval_chunks" (integer (pos 1)) payload)
        interval_not_positive
  language ← text_or_null (get_or "language" (string (codes "en")) payload)
  max_buffer_bytes ← cut_to config.stream_max_buffer_bytes buffer_seconds sample_rate
  partial_window_bytes ← window_bytes max_buffer_bytes window_seconds sample_rate
  ok (record {
    stream_id = stream_id;
    language = language;
    sample_rate = sample_rate;
    max_buffer_bytes = max_buffer_bytes;
    partial_interval_chunks = interval;
    partial_interval_audio_ms = none;
    partial_window_seconds = window_seconds;
    max_buffer_seconds = buffer_seconds;
    partial_window_bytes = partial_window_bytes;
    interim_results = true;
    finalize_on_stable_partial = false;
    stable_partial_cycles = default_stable_partial_cycles;
    client_stream_id = none;
    client_metadata = end;
    decoder_mode = rolling_window;
    audio_buffer = [];
    chunks_received = 0;
    last_partial_chunks_received = 0;
    last_partial_audio_received_ms = 0;
    last_partial_result = none;
    stable_partial_text = none;
    stable_partial_count = 0;
    transcript_revision = 0;
  })
