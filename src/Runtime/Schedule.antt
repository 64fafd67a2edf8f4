-- ===== src/Runtime/Schedule.antt =====
-- The turns of a stream's tasks, and schedules: `websocket_stream_v1` and its twin for the Unix socket
-- in src/main.py, as far as they change the runtime.
use rtc_asr.Prelude.{
  ℕ, ◌+◌, ◌-◌, Bool, false, ◌||◌, Option, none, some, List, [], ◌∷◌, ◌++◌, length, if◌then◌else◌,
  Result, ok, err, ◌==◌,
}
use rtc_asr.Text.{Unicode}
use rtc_asr.Session.{StreamSession, StreamError, Transcript, append_audio, unexpected}
use rtc_asr.Runtime.{
  StreamRuntime, Event, CancelWarning, cancel_warning, pong, Worker, waiting, in_partial, in_final,
  raised, note_audio, request_finalize, request_cancel, close, enqueue_event, finish, after_final,
  after_partial, decode_over, woken,
}

-- What the next task to run does: the handler with a message, the worker when it wakes, a decode that
-- comes back, or the sender. Only a stateful decoder comes back with nothing.
pub data Turn : Type 0 where
  takes_audio : List ℕ → Turn
  asks_final cancels closes pings wakes sends : Turn
  decodes : Result StreamError (Option Transcript) → Turn

-- A chunk too many is an error, which closes the runtime.
abbrev pub take_chunk : StreamRuntime → Result StreamError StreamSession → StreamRuntime
take_chunk r (ok s) = note_audio (record r { session = s })
take_chunk r (err e) = close r

abbrev pub ask_final : StreamRuntime → StreamRuntime
ask_final r = if length r.session.audio_buffer == 0 then close r else request_finalize r

-- `_local_stt_cancel_warning_event`
abbrev pub cancel_warning_event : StreamSession → CancelWarning
cancel_warning_event s = record {
  stream_id = s.stream_id;
  chunks_received = s.chunks_received;
  buffered_bytes = length s.audio_buffer;
  remaining_buffer_bytes = s.max_buffer_bytes - length s.audio_buffer;
}

unfoldable pub cancel : StreamRuntime → StreamRuntime
cancel r =
    let canceled = request_cancel r in
    enqueue_event canceled (cancel_warning (cancel_warning_event canceled.session))

abbrev pub wake : Unicode → StreamRuntime → Worker → StreamRuntime
wake u r waiting = if r.audio_updated then woken u (record r { audio_updated = false }) else r
wake u r w = r

-- A stateful decoder has got the bytes that it was given.
abbrev pub push_done : StreamRuntime → List ℕ → StreamRuntime
push_done r bytes =
    if r.streaming_decoder
    then record r {
      pushed = r.pushed ++ bytes;
      streaming_decode_offset = r.streaming_decode_offset + length bytes;
    }
    else r

-- `decoder.finalize()`, after which there is no decoder.
abbrev pub finalize_done : StreamRuntime → List ℕ → StreamRuntime
finalize_done r bytes = record (push_done r bytes) { streaming_decoder = false }

-- The last decode came back with nothing, which the making of the final event does not take.
abbrev pub no_answer : StreamRuntime → StreamRuntime
no_answer r =
    if r.cancel_requested || r.closed then finish r else record r { worker = raised unexpected }

unfoldable pub decode_done :
    Unicode → StreamRuntime → Worker → Result StreamError (Option Transcript) → StreamRuntime
decode_done u r (in_partial chunks ms bytes) (ok o) =
    after_partial u (push_done r bytes) chunks ms (length bytes) o
decode_done u r (in_partial chunks ms bytes) (err e) = record (decode_over r) { worker = raised e }
decode_done u r (in_final n bytes) (ok (some t)) = after_final (finalize_done r bytes) n t
decode_done u r (in_final n bytes) (ok none) = no_answer (finalize_done r bytes)
decode_done u r (in_final n bytes) (err e) = record r { worker = raised e }
decode_done u r _ _ = r

abbrev pub send_next : StreamRuntime → List Event → StreamRuntime
send_next r [] = r
send_next r (e ∷ rest) = record r { sent = r.sent ++ e ∷ []; outgoing_events = rest }

unfoldable pub turn : Unicode → StreamRuntime → Turn → StreamRuntime
turn u r (takes_audio chunk) = take_chunk r (append_audio r.session chunk)
turn u r asks_final = ask_final r
turn u r cancels = cancel r
turn u r closes = close r
turn u r pings = enqueue_event r pong
turn u r wakes = wake u r r.worker
turn u r sends = send_next r r.outgoing_events
turn u r (decodes result) = decode_done u r r.worker result

unfoldable pub run : Unicode → StreamRuntime → List Turn → StreamRuntime
run u r [] = r
run u r (t ∷ ts) = run u (turn u r t) ts

-- The runtime of a start event, with a stateful decoder or not.
abbrev pub started : StreamSession → Bool → StreamRuntime
started s stateful = record {
  session = s;
  audio_updated = false;
  finalize_requested = false;
  cancel_requested = false;
  outgoing_events = [];
  decode_in_flight = false;
  partial_decode_started = false;
  dirty = false;
  closed = false;
  final_emitted = false;
  send_queue_high_water = 0;
  streaming_decoder = stateful;
  streaming_decode_offset = 0;
  worker = waiting;
  sent = [];
  pushed = [];
}
