-- ===== src/Connection.antt =====
-- A connection of the Local STT protocol: `websocket_stream_v1` and `_send_queued_events` in src/main.py, with
-- the last words of a WebSocket or of a Unix socket. RawUds is the handler of the Unix socket,
-- `_raw_uds_stream_client`, and Twins is about both. The service's `preload_error`, which both
-- handlers set, is left out. The handler, the decode worker and the
-- sender are tasks of one event loop; a step is what one of them does between two `await`s.
-- Starting a decoder is part of the step that takes the start event, since no other task of the
-- connection has anything to do meanwhile. Closing a decoder and the
-- handler's own sends are taken not to raise; only the sender's may.
pub mod Steps
pub mod Protocol
pub mod Readers
pub mod Tracking
pub mod Events
pub mod Waits
pub mod Tasks
pub mod Refinement
pub mod Transports
pub mod RawUds
pub mod Twins
pub mod Closing
mod Tests
use rtc_asr.Prelude.{
  ℕ, ◌+◌, ◌*◌, Bool, true, false, Option, none, some, List, [], ◌∷◌, ◌++◌, map, length, String,
  Result, ok, err, ◌==◌, if◌then◌else◌,
}
use rtc_asr.Text.{Text, Unicode}
use rtc_asr.Json.{Float, Fields}
use rtc_asr.Session.{
  StreamSession, StreamError, Transcript, DecoderMode, stateful, asr_unavailable, append_audio,
}
use rtc_asr.Session.Create.{StreamConfig}
use rtc_asr.Session.CreateLocal.{LocalSttStartConfig, create_local_stt_stream_session}
use rtc_asr.Runtime.{
  StreamRuntime, Event, pong, Worker, returned, raised, note_audio, request_finalize, close,
  enqueue_event,
}
use rtc_asr.Runtime.Progress.{has_ended}
use rtc_asr.Runtime.Schedule.{cancel, wake, decode_done, send_next, started}

-- What ends a connection other than the client's close event. A protocol error carries its code.
pub data Failure : Type 0 where
  disconnected backend_unavailable unexpected_error : Failure
  protocol_error : String → Failure

-- An event of the client, as `_receive_local_stt_event` gives it; with a start event, what starting the
-- decoder gives, `true` for a stateful one.
pub data ClientEvent : Type 0 where
  start : LocalSttStartConfig → Result StreamError Bool → ClientEvent
  audio : List ℕ → ClientEvent
  finalize cancel_stream ping pong_received close_connection unsupported : ClientEvent

pub record ReadyMessage : Type 0 where
  pub stream_id : ℕ
  pub max_buffer_bytes : ℕ
  pub partial_interval_chunks : ℕ
  pub partial_interval_ms : ℕ
  pub decoder_mode : DecoderMode
  pub sample_rate : ℕ
  pub interim_results : Bool
  pub client_stream_id : Option Text
  pub client_metadata : Fields
  pub partial_window_seconds : Option Float
  pub max_buffer_seconds : Option Float
  pub stable_partial_cycles : Option ℕ

-- What the server sends: `closed` answers a close event, an error carries its code, and a WebSocket is
-- closed with a number.
pub data Message : Type 0 where
  ready : ReadyMessage → Message
  event : Event → Message
  closed : Message
  error : String → Message
  websocket_close : ℕ → Message

pub data Transport : Type 0 where
  websocket raw_uds : Transport

-- Why `stop_runtime` runs.
pub data Reason : Type 0 where
  resume client_close : Reason
  failed : Failure → Reason

-- Where the handler waits: for an event or the worker, for the worker after a finalize event, for the
-- queue to be sent, with what comes then, and for the worker in `stop_runtime`.
pub data Handler : Type 0 where
  receiving finalizing : Handler
  flushing_final flushing : Handler
  stopping : Reason → Handler
  ended : Handler

-- The sender is alive, or an exception has ended it. What it has sent of the present stream is in the
-- runtime; `past` is what has been sent before.
pub record Connection : Type 0 where
  pub runtime : Option StreamRuntime
  pub sender : Option Failure
  pub next_stream_id : ℕ
  pub handler : Handler
  pub past : List Message

abbrev pub sent_of : Option StreamRuntime → List Message
sent_of none = []
sent_of (some r) = map event r.sent

abbrev pub sent : Connection → List Message
sent c = c.past ++ sent_of c.runtime

abbrev pub opened : Connection
opened = record {
  runtime = none;
  sender = none;
  next_stream_id = 1;
  handler = receiving;
  past = [];
}

-- The exceptions of the worker and of a start, by the `except` clauses.
abbrev pub failure_of : StreamError → Failure
failure_of asr_unavailable = backend_unavailable
failure_of e = unexpected_error

-- `_close_local_stt_error`, `_write_raw_uds_protocol_error` and the `except` clauses.
abbrev pub error_messages : Transport → Failure → List Message
error_messages t disconnected = []
error_messages websocket backend_unavailable =
    error "backend_unavailable" ∷ websocket_close 1011 ∷ []
error_messages websocket (protocol_error code) = error code ∷ websocket_close 1003 ∷ []
error_messages websocket unexpected_error = error "internal_error" ∷ websocket_close 1011 ∷ []
error_messages raw_uds backend_unavailable = error "backend_unavailable" ∷ []
error_messages raw_uds (protocol_error code) = error code ∷ []
error_messages raw_uds unexpected_error = error "internal_error" ∷ []

abbrev pub closed_messages : Transport → List Message
closed_messages websocket = closed ∷ websocket_close 1000 ∷ []
closed_messages raw_uds = closed ∷ []

-- The end of `stop_runtime`, and what its caller does then.
abbrev pub stopped : Transport → Connection → Reason → Connection
stopped t c resume = record c { runtime = none; sender = none; handler = receiving; past = sent c }
stopped t c client_close = record c {
  runtime = none;
  sender = none;
  handler = ended;
  past = sent c ++ closed_messages t;
}
stopped t c (failed e) = record c {
  runtime = none;
  sender = none;
  handler = ended;
  past = sent c ++ error_messages t e;
}

-- `stop_runtime`: with a stream it waits for the worker.
abbrev pub stop_runtime : Transport → Connection → Option StreamRuntime → Reason → Connection
stop_runtime t c none why = stopped t c why
stop_runtime t c (some r) why = record c { runtime = some (close r); handler = stopping why }

abbrev pub fail : Transport → Connection → Failure → Connection
fail t c e = stop_runtime t c c.runtime (failed e)

abbrev pub stable_cycles : StreamSession → Option ℕ
stable_cycles s = if s.finalize_on_stable_partial then some s.stable_partial_cycles else none

abbrev pub interval_ms : StreamSession → Option ℕ → ℕ
interval_ms s none = s.partial_interval_chunks * 20
interval_ms s (some ms) = ms

-- The backend and the model are left out.
abbrev pub ready_event : StreamSession → ReadyMessage
ready_event s = record {
  stream_id = s.stream_id;
  max_buffer_bytes = s.max_buffer_bytes;
  partial_interval_chunks = s.partial_interval_chunks;
  partial_interval_ms = interval_ms s s.partial_interval_audio_ms;
  decoder_mode = s.decoder_mode;
  sample_rate = s.sample_rate;
  interim_results = s.interim_results;
  client_stream_id = s.client_stream_id;
  client_metadata = s.client_metadata;
  partial_window_seconds = s.partial_window_seconds;
  max_buffer_seconds = s.max_buffer_seconds;
  stable_partial_cycles = stable_cycles s;
}

abbrev pub decoding_session : StreamSession → Bool → StreamSession
decoding_session s true = record s { decoder_mode = stateful }
decoding_session s false = s

-- A start without a stream: the session, then the decoder, which may raise.
abbrev pub begin_stream :
    Transport → Connection → Result StreamError StreamSession → Result StreamError Bool → Connection
begin_stream t c (err e) decoder = fail t c (failure_of e)
begin_stream t c (ok s) (err e) =
    fail t (record c { next_stream_id = c.next_stream_id + 1 }) (failure_of e)
begin_stream t c (ok s) (ok is_stateful) =
    let session = decoding_session s is_stateful in
    record c {
      next_stream_id = c.next_stream_id + 1;
      runtime = some (started session is_stateful);
      past = sent c ++ ready (ready_event session) ∷ [];
    }

abbrev pub take_audio :
    Transport → Connection → StreamRuntime → Result StreamError StreamSession → Connection
take_audio t c r (ok s) = record c { runtime = some (note_audio (record r { session = s })) }
take_audio t c r (err e) = fail t c (protocol_error "buffer_limit_exceeded")

abbrev pub begin_finalize : Transport → Connection → StreamRuntime → Connection
begin_finalize t c r =
    if length r.session.audio_buffer == 0
    then fail t c (protocol_error "invalid_state")
    else record c { runtime = some (request_finalize r); handler = finalizing }
