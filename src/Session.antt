-- ===== src/Session.antt =====
-- `StreamSession` of src/main.py, the state of one utterance that both websocket protocols share,
-- with the helpers it calls. Sizes are in bytes, durations in whole milliseconds.
pub mod Stability
pub mod Bounds
pub mod Create
pub mod CreateLocal
mod Tests
use rtc_asr.Prelude.{
  ℕ, zero, suc, ◌+◌, ◌*◌, ◌-◌, max, Bool, true, false, not, ◌&&◌, Option, none, some, List, [], ◌∷◌,
  ◌++◌, length, drop, ltb, leb, ◌==◌, if◌then◌else◌, Result, ok, err, raise_if, ◌>>◌,
}
use rtc_asr.Prelude.Rounding.{round_half_even}
use rtc_asr.Text.{Text, Unicode, text_eq, is_empty, fold_case}
use rtc_asr.Text.Words.{words, join_words}
use rtc_asr.Json.{Float, Fields, end}

-- Why a stream request is refused: one constructor for each message of the source.
pub data Reason : Type 0 where
  buffer_exceeded : Reason
  sample_rate_not_positive interval_not_positive language_not_text : Reason
  window_not_positive max_buffer_not_positive : Reason
  start_before_audio start_before_stop start_before_cancel no_audio finish_active : Reason
  unsupported_event not_json not_object no_payload : Reason
  audio_not_bytes audio_missing audio_not_base64 : Reason

-- The exceptions that the handlers tell apart: `StreamClientError` with its close code, any other
-- `ValueError`, `ASRUnavailableError`, and the rest.
pub data StreamError : Type 0 where
  client_error : Reason → ℕ → StreamError
  value_error : Reason → StreamError
  number_error : StreamError
  asr_unavailable : StreamError
  unexpected : StreamError

-- What a backend's `transcribe` returns, by the keys that the program reads: strings, and nothing where
-- the key is missing.
pub record Transcript : Type 0 where
  pub text : Option Text
  pub backend : Option Text
  pub model : Option Text
  pub language : Option Text

pub data DecoderMode : Type 0 where
  rolling_window stateful : DecoderMode

pub record StreamSession : Type 0 where
  pub stream_id : ℕ
  pub language : Option Text
  pub sample_rate : ℕ
  pub max_buffer_bytes : ℕ
  pub partial_interval_chunks : ℕ
  pub partial_interval_audio_ms : Option ℕ
  pub partial_window_seconds : Option Float
  pub max_buffer_seconds : Option Float
  pub partial_window_bytes : Option ℕ
  pub interim_results : Bool
  pub finalize_on_stable_partial : Bool
  pub stable_partial_cycles : ℕ
  pub client_stream_id : Option Text
  pub client_metadata : Fields
  pub decoder_mode : DecoderMode
  pub audio_buffer : List ℕ
  pub chunks_received : ℕ
  pub last_partial_chunks_received : ℕ
  pub last_partial_audio_received_ms : ℕ
  pub last_partial_result : Option Transcript
  pub stable_partial_text : Option Text
  pub stable_partial_count : ℕ
  pub transcript_revision : ℕ

-- `round((byte_count / 2) * 1000 / sample_rate)`. Below 2 ^ 43 bytes the double of the quotient rounds as the quotient
-- does; a rate that no double is near, for which the source raises `OverflowError`, is left out.
unfoldable pub audio_bytes_to_duration_ms : ℕ → ℕ → ℕ
audio_bytes_to_duration_ms byte_count sample_rate =
    if ltb sample_rate 1 then 0 else round_half_even (byte_count * 1000) (2 * sample_rate)

unfoldable pub append_audio : StreamSession → List ℕ → Result StreamError StreamSession
append_audio s chunk = do
  raise_if (ltb s.max_buffer_bytes (length s.audio_buffer + length chunk))
      (client_error buffer_exceeded 1009)
  ok (record s { audio_buffer = s.audio_buffer ++ chunk; chunks_received = s.chunks_received + 1 })

unfoldable pub audio_received_ms : StreamSession → ℕ
audio_received_ms s = audio_bytes_to_duration_ms (length s.audio_buffer) s.sample_rate

abbrev pub or_else : Option ℕ → ℕ → ℕ
or_else none n = n
or_else (some m) n = m

unfoldable pub record_partial : StreamSession → Transcript → Option ℕ → Option ℕ → StreamSession
unfolding audio_received_ms
record_partial s transcript chunks ms = record s {
  last_partial_result = some transcript;
  last_partial_chunks_received = or_else chunks s.chunks_received;
  last_partial_audio_received_ms = or_else ms (audio_received_ms s);
}

-- The source subtracts integers that may go below 0; the test is the same with the subtrahend on
-- the other side.
unfoldable pub should_emit_partial : StreamSession → Bool
unfolding audio_received_ms
should_emit_partial s = elim s.partial_interval_audio_ms [
  | none ↦ leb (s.last_partial_chunks_received + s.partial_interval_chunks) s.chunks_received
  | some interval ↦ leb (s.last_partial_audio_received_ms + interval) (audio_received_ms s)
]

-- `buffer[-w:]`, which is the whole buffer for w = 0.
abbrev pub last_bytes : ℕ → List ℕ → List ℕ
last_bytes w buffer = if w == 0 then buffer else drop (length buffer - w) buffer

abbrev pub windowed : Option ℕ → List ℕ → List ℕ
windowed none buffer = buffer
windowed (some w) buffer = if leb (length buffer) w then buffer else last_bytes w buffer

unfoldable pub partial_audio_bytes : StreamSession → List ℕ
partial_audio_bytes s = windowed s.partial_window_bytes s.audio_buffer

-- The text up to case and white space; nothing if no word is left.
unfoldable pub normalize_stability_text : Unicode → Option Text → Option Text
normalize_stability_text u none = none
normalize_stability_text u (some value) =
    let normalized = join_words (words (fold_case u.casefold value)) in
    if is_empty normalized then none else some normalized

abbrev pub same_text : Option Text → Text → Bool
same_text none t = false
same_text (some s) t = text_eq t s

abbrev pub note_text : StreamSession → Option Text → StreamSession
note_text s none = record s { stable_partial_text = none; stable_partial_count = 0 }
note_text s (some normalized) =
    if same_text s.stable_partial_text normalized
    then record s { stable_partial_count = s.stable_partial_count + 1 }
    else record s { stable_partial_text = some normalized; stable_partial_count = 1 }

-- The count that the method returns is the new state's.
unfoldable pub record_transcript_stability : Unicode → StreamSession → Transcript → StreamSession
unfolding normalize_stability_text
record_transcript_stability u s transcript =
    note_text s (normalize_stability_text u transcript.text)

unfoldable pub should_finalize_stable_partial : StreamSession → Bool
should_finalize_stable_partial s =
    s.finalize_on_stable_partial && leb s.stable_partial_cycles s.stable_partial_count

-- The revision that the method returns is the new state's.
unfoldable pub next_transcript_revision : StreamSession → StreamSession
next_transcript_revision s = record s { transcript_revision = s.transcript_revision + 1 }

unfoldable pub partial_covers_full_buffer : StreamSession → Bool
partial_covers_full_buffer s = elim s.partial_window_bytes [
  | none ↦ true
  | some w ↦ leb (length s.audio_buffer) w
]

abbrev pub reusable : StreamSession → Option Transcript
reusable s =
    if s.last_partial_chunks_received == s.chunks_received && partial_covers_full_buffer s
    then s.last_partial_result
    else none

-- The last partial result where `_can_reuse_last_partial` holds.
unfoldable pub last_partial_if_reusable : StreamSession → Option Transcript
unfolding partial_covers_full_buffer
last_partial_if_reusable s = reusable s
