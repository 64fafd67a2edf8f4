-- ===== src/Runtime.antt =====
-- One stream of the Local STT protocol: `StreamRuntime` of src/main.py, its decode worker
-- `_local_stt_asr_worker`, and what the handlers of /v1/stt/stream and the Unix socket do to it. The
-- handler, the worker and the sender are tasks of one event loop: a turn is what one of them does
-- from one `await` to the next, and a schedule is a list of turns. Times of decoding are left out.
pub mod Schedule
pub mod Reader
pub mod Reading
pub mod Rounds
pub mod Order
pub mod Silence
pub mod Pushes
pub mod Timing
pub mod Progress
mod Tests
use rtc_asr.Prelude.{
  ℕ, zero, suc, ◌+◌, ◌-◌, max, Bool, true, false, not, ◌&&◌, ◌||◌, Option, none, some, List, [],
  ◌∷◌, ◌++◌, length, drop, ◌==◌, if◌then◌else◌, Result, ok, err,
}
use rtc_asr.Text.{Text, Unicode, strip, is_empty}
use rtc_asr.Session.{
  StreamSession, StreamError, Transcript, DecoderMode, append_audio, audio_received_ms,
  audio_bytes_to_duration_ms, record_partial, should_emit_partial, partial_audio_bytes,
  record_transcript_stability, should_finalize_stable_partial, next_transcript_revision,
  partial_covers_full_buffer, last_partial_if_reusable,
}

pub record TranscriptMessage : Type 0 where
  pub text : Text
  pub is_final : Bool
  pub revision : ℕ
  pub audio_received_ms : ℕ
  pub audio_transcribed_ms : ℕ
  pub language : Option Text
  pub stream_id : ℕ
  pub chunks_received : ℕ
  pub buffered_bytes : ℕ
  pub remaining_buffer_bytes : ℕ
  pub decoder_mode : DecoderMode
  pub window_start_ms : ℕ
  pub window_end_ms : ℕ
  pub stability_count : ℕ
  pub backend : Option Text
  pub model : Option Text

pub record CancelWarning : Type 0 where
  pub stream_id : ℕ
  pub chunks_received : ℕ
  pub buffered_bytes : ℕ
  pub remaining_buffer_bytes : ℕ

pub data Event : Type 0 where
  transcript : TranscriptMessage → Event
  cancel_warning : CancelWarning → Event
  pong : Event

-- Where the worker is: at `audio_updated.wait()`, in a decode of some audio with the count of
-- chunks and the milliseconds at its start, in the last decode with the bytes of the buffer and those
-- that the decoder still gets, or at its end.
pub data Worker : Type 0 where
  waiting : Worker
  in_partial : ℕ → ℕ → List ℕ → Worker
  in_final : ℕ → List ℕ → Worker
  returned : Worker
  raised : StreamError → Worker

-- The runtime with its worker, what the sender has sent, and what a stateful decoder has been given.
pub record StreamRuntime : Type 0 where
  pub session : StreamSession
  pub audio_updated : Bool
  pub finalize_requested : Bool
  pub cancel_requested : Bool
  pub outgoing_events : List Event
  pub decode_in_flight : Bool
  pub partial_decode_started : Bool
  pub dirty : Bool
  pub closed : Bool
  pub final_emitted : Bool
  pub send_queue_high_water : ℕ
  pub streaming_decoder : Bool
  pub streaming_decode_offset : ℕ
  pub worker : Worker
  pub sent : List Event
  pub pushed : List ℕ

abbrev pub note_audio : StreamRuntime → StreamRuntime
note_audio r = record r { dirty = true; audio_updated = true }

abbrev pub request_finalize : StreamRuntime → StreamRuntime
request_finalize r = record r { finalize_requested = true; audio_updated = true }

abbrev pub request_cancel : StreamRuntime → StreamRuntime
request_cancel r = record r {
  cancel_requested = true;
  session = record r.session {
    audio_buffer = [];
    last_partial_result = none;
    stable_partial_text = none;
    stable_partial_count = 0;
  };
  audio_updated = true;
}

abbrev pub close : StreamRuntime → StreamRuntime
close r = record r { closed = true; audio_updated = true }

-- The queue is unbounded, so that `put` never waits. The depths that go into the event's metadata are left out.
abbrev pub enqueue_event : StreamRuntime → Event → StreamRuntime
enqueue_event r e = record r {
  send_queue_high_water = max r.send_queue_high_water (length r.outgoing_events + 1);
  outgoing_events = r.outgoing_events ++ e ∷ [];
}

-- `str(transcript.get("text", "")).strip()`
abbrev pub text_of : Transcript → Text
text_of t = elim t.text [ none ↦ [] | some x ↦ strip x ]

abbrev language_of : Transcript → StreamSession → Option Text
language_of t s = elim t.language [ none ↦ s.language | some l ↦ some l ]

-- `_local_stt_transcript_event`, for the session after `next_transcript_revision`.
unfoldable pub transcript_event : StreamSession → Transcript → Bool → ℕ → TranscriptMessage
unfolding audio_received_ms
transcript_event s t is_final transcribed_audio_bytes = record {
  text = text_of t;
  is_final = is_final;
  revision = s.transcript_revision;
  audio_received_ms = audio_bytes_to_duration_ms (length s.audio_buffer) s.sample_rate;
  audio_transcribed_ms = audio_bytes_to_duration_ms transcribed_audio_bytes s.sample_rate;
  language = language_of t s;
  stream_id = s.stream_id;
  chunks_received = s.chunks_received;
  buffered_bytes = length s.audio_buffer;
  remaining_buffer_bytes = s.max_buffer_bytes - length s.audio_buffer;
  decoder_mode = s.decoder_mode;
  window_start_ms =
      audio_received_ms s - audio_bytes_to_duration_ms transcribed_audio_bytes s.sample_rate;
  window_end_ms = audio_received_ms s;
  stability_count = s.stable_partial_count;
  backend = t.backend;
  model = t.model;
}

abbrev pub enqueue_transcript : StreamRuntime → Transcript → Bool → ℕ → StreamRuntime
enqueue_transcript r t is_final n =
    let s = next_transcript_revision r.session in
    enqueue_event (record r { session = s }) (transcript (transcript_event s t is_final n))

abbrev pub finish : StreamRuntime → StreamRuntime
finish r = record r { worker = returned }

abbrev pub finish_final : StreamRuntime → StreamRuntime
finish_final r = record r { final_emitted = true; closed = true; worker = returned }

-- After the last decode.
unfoldable pub after_final : StreamRuntime → ℕ → Transcript → StreamRuntime
after_final r n t =
    if r.cancel_requested || r.closed
    then finish r
    else finish_final (enqueue_transcript r t true n)

abbrev pub reuse_or_decode : StreamRuntime → Option Transcript → StreamRuntime
reuse_or_decode r (some t) = after_final r (length r.session.audio_buffer) t
reuse_or_decode r none = record r {
  worker = in_final (length r.session.audio_buffer) r.session.audio_buffer;
}

abbrev pub unpushed : StreamRuntime → List ℕ
unpushed r = drop r.streaming_decode_offset r.session.audio_buffer

-- A stateful decoder finalizes; otherwise a last partial result may stand for the final one.
unfoldable pub begin_final : StreamRuntime → StreamRuntime
begin_final r =
    if r.streaming_decoder
    then record r { worker = in_final (length r.session.audio_buffer) (unpushed r) }
    else reuse_or_decode r (last_partial_if_reusable r.session)

-- Audio that came during the decode sets the worker going again.
abbrev pub rearm : StreamRuntime → StreamRuntime
rearm r = if r.dirty then record r { audio_updated = true } else r

abbrev pub count_partial : StreamRuntime → ℕ → ℕ → StreamRuntime
count_partial r chunks ms = record r {
  session = record r.session {
    last_partial_chunks_received = chunks;
    last_partial_audio_received_ms = ms;
  };
}

abbrev pub keep_partial : StreamRuntime → Transcript → ℕ → ℕ → StreamRuntime
keep_partial r t chunks ms =
    if (chunks == r.session.chunks_received) && partial_covers_full_buffer r.session
    then record r { session = record_partial r.session t (some chunks) (some ms) }
    else r

abbrev pub publish : StreamRuntime → Transcript → ℕ → StreamRuntime
publish r t n =
    let is_final = should_finalize_stable_partial r.session in
    if is_empty (text_of t)
    then rearm r
    else if is_final
    then finish_final (enqueue_transcript r t is_final n)
    else rearm (enqueue_transcript r t is_final n)

abbrev pub use_partial : Unicode → StreamRuntime → ℕ → ℕ → ℕ → Option Transcript → StreamRuntime
use_partial u r chunks ms n none = rearm (count_partial r chunks ms)
use_partial u r chunks ms n (some t) =
    if r.finalize_requested
    then record (keep_partial r t chunks ms) { audio_updated = true }
    else publish
        (record r {
          session =
              record_transcript_stability u (record_partial r.session t (some chunks) (some ms)) t;
        })
        t n

-- The `finally` block of a decode.
abbrev pub decode_over : StreamRuntime → StreamRuntime
decode_over r = record r {
  decode_in_flight = false;
  partial_decode_started = false;
  worker = waiting;
}

-- After a partial decode; the bytes that it read are counted for the event.
unfoldable pub after_partial :
    Unicode → StreamRuntime → ℕ → ℕ → ℕ → Option Transcript → StreamRuntime
after_partial u r chunks ms n result =
    if r.cancel_requested || (r.final_emitted || r.closed)
    then finish (decode_over r)
    else use_partial u (decode_over r) chunks ms n result

abbrev pub start_decode : StreamRuntime → List ℕ → StreamRuntime
start_decode r bytes = record r {
  dirty = false;
  partial_decode_started = true;
  decode_in_flight = true;
  worker = in_partial r.session.chunks_received (audio_received_ms r.session) bytes;
}

-- `_push_streaming_audio_async` gives nothing for no bytes, without waiting.
abbrev pub push_or_skip : Unicode → StreamRuntime → List ℕ → StreamRuntime
push_or_skip u r [] =
    after_partial u (record r { dirty = false }) r.session.chunks_received
      (audio_received_ms r.session) 0 none
push_or_skip u r (b ∷ bytes) = start_decode r (b ∷ bytes)

unfoldable pub begin_partial : Unicode → StreamRuntime → StreamRuntime
begin_partial u r =
    if r.streaming_decoder
    then push_or_skip u r (unpushed r)
    else start_decode r (partial_audio_bytes r.session)

abbrev pub nothing_to_do : StreamRuntime → Bool
nothing_to_do r =
    r.partial_decode_started
    || (not r.session.interim_results || not (should_emit_partial r.session))

-- A round of the worker's loop, from `audio_updated.clear()` on.
unfoldable pub woken : Unicode → StreamRuntime → StreamRuntime
woken u r =
    if r.cancel_requested
    then finish r
    else if r.final_emitted || r.closed
    then finish r
    else if r.finalize_requested
    then begin_final r
    else if nothing_to_do r
    then record r { dirty = false }
    else begin_partial u r
