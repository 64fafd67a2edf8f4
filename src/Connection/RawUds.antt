-- ===== src/Connection/RawUds.antt =====
-- The handler of the Unix socket, `_raw_uds_stream_client` of src/main.py, and its sender
-- `_send_queued_raw_uds_events`, written out apart from the handler of the WebSocket. The worker and the state are
-- those of Connection.
use rtc_asr.Prelude.{
  ◌+◌, Bool, true, false, Option, none, some, List, [], ◌∷◌, ◌++◌, length, Result, ok, err, ◌==◌,
  if◌then◌else◌,
}
use rtc_asr.Text.{Unicode}
use rtc_asr.Session.{StreamSession, StreamError, append_audio, stateful}
use rtc_asr.Session.Create.{StreamConfig}
use rtc_asr.Session.CreateLocal.{create_local_stt_stream_session}
use rtc_asr.Runtime.{
  StreamRuntime, Event, pong, Worker, returned, raised, note_audio, request_finalize, close,
  enqueue_event,
}
use rtc_asr.Runtime.Progress.{has_ended}
use rtc_asr.Runtime.Schedule.{cancel, wake, decode_done, started}
use rtc_asr.Connection.{
  ClientEvent, Connection, Failure, Handler, Message, Reason, audio, backend_unavailable,
  cancel_stream, client_close, close_connection, closed, disconnected, ended, error, event, failed,
  failure_of, finalize, finalizing, flushing, flushing_final, ping, pong_received, protocol_error,
  ready, ready_event, receiving, resume, sent, start, stopping, unexpected_error, unsupported,
}
use rtc_asr.Connection.Steps.{Step, handles, wakes, sends, send_fails, decodes, is_nil}

-- What the `except` clauses write; `finally` closes the socket.
abbrev pub client_errors : Failure → List Message
client_errors disconnected = []
client_errors backend_unavailable = error "backend_unavailable" ∷ []
client_errors (protocol_error code) = error code ∷ []
client_errors unexpected_error = error "internal_error" ∷ []

abbrev leave : Connection → List Message → Connection
leave c last = record c { runtime = none; sender = none; handler = ended; past = sent c ++ last }

-- The end of `stop_runtime`, and what its caller does then.
abbrev pub stopped_client : Connection → Reason → Connection
stopped_client c resume = record c {
  runtime = none;
  sender = none;
  handler = receiving;
  past = sent c;
}
stopped_client c client_close = leave c (closed ∷ [])
stopped_client c (failed e) = leave c (client_errors e)

abbrev pub stop_client : Connection → Reason → Option StreamRuntime → Connection
stop_client c why none = stopped_client c why
stop_client c why (some r) = record c { runtime = some (close r); handler = stopping why }

abbrev pub fail_client : Connection → Failure → Connection
fail_client c e = stop_client c (failed e) c.runtime

abbrev pub begin_decoder : Connection → StreamSession → Result StreamError Bool → Connection
begin_decoder c s (err e) = fail_client c (failure_of e)
begin_decoder c s (ok false) = record c {
  runtime = some (started s false);
  past = sent c ++ ready (ready_event s) ∷ [];
}
begin_decoder c s (ok true) = record c {
  runtime = some (started (record s { decoder_mode = stateful }) true);
  past = sent c ++ ready (ready_event (record s { decoder_mode = stateful })) ∷ [];
}

abbrev pub begin_client :
    Connection → Result StreamError StreamSession → Result StreamError Bool → Connection
begin_client c (err e) decoder = fail_client c (failure_of e)
begin_client c (ok s) decoder =
    begin_decoder (record c { next_stream_id = c.next_stream_id + 1 }) s decoder

abbrev pub take_client_audio :
    Connection → StreamRuntime → Result StreamError StreamSession → Connection
take_client_audio c r (ok s) = record c { runtime = some (note_audio (record r { session = s })) }
take_client_audio c r (err e) = fail_client c (protocol_error "buffer_limit_exceeded")

-- The `if event_type == ...` chain, each with its own test of the runtime.
unfoldable pub dispatch_client :
    StreamConfig → Connection → ClientEvent → Option StreamRuntime → Connection
dispatch_client config c (start payload decoder) (some r) =
    fail_client c (protocol_error "invalid_state")
dispatch_client config c (start payload decoder) none =
    begin_client c (create_local_stt_stream_session payload config c.next_stream_id) decoder
dispatch_client config c (audio chunk) none = fail_client c (protocol_error "invalid_state")
dispatch_client config c (audio chunk) (some r) =
    take_client_audio c r (append_audio r.session chunk)
dispatch_client config c finalize none = fail_client c (protocol_error "invalid_state")
dispatch_client config c finalize (some r) =
    if length r.session.audio_buffer == 0
    then fail_client c (protocol_error "invalid_state")
    else record c { runtime = some (request_finalize r); handler = finalizing }
dispatch_client config c cancel_stream none = fail_client c (protocol_error "invalid_state")
dispatch_client config c cancel_stream (some r) = record c {
  runtime = some (cancel r);
  handler = flushing;
}
dispatch_client config c ping none = record c { past = sent c ++ event pong ∷ [] }
dispatch_client config c ping (some r) = record c { runtime = some (enqueue_event r pong) }
dispatch_client config c pong_received o = c
dispatch_client config c close_connection o = stop_client c client_close o
dispatch_client config c unsupported o = fail_client c (protocol_error "unsupported_message_type")

-- `await worker_task`, when the worker has ended.
abbrev pub await_client_worker : Connection → Handler → Worker → Connection
await_client_worker c next (raised e) = fail_client c (failure_of e)
await_client_worker c next returned = record c { handler = next }
await_client_worker c next w = c

-- `await receive_task` where the worker has ended: only an exception of it counts.
abbrev pub client_worker_done :
    Connection → Worker → Option (Result Failure ClientEvent) → Connection
client_worker_done c w none = await_client_worker c flushing w
client_worker_done c w (some (ok e)) = await_client_worker c flushing w
client_worker_done c w (some (err e)) = fail_client c e

abbrev pub client_event :
    StreamConfig → Connection → Option (Result Failure ClientEvent) → Connection
client_event config c none = c
client_event config c (some (ok e)) = dispatch_client config c e c.runtime
client_event config c (some (err e)) = fail_client c e

abbrev pub receive_client :
    StreamConfig
    → Connection
    → Option (Result Failure ClientEvent)
    → Option StreamRuntime
    → Connection
receive_client config c came none = client_event config c came
receive_client config c came (some r) =
    if has_ended r.worker then client_worker_done c r.worker came else client_event config c came

-- The sender is canceled and awaited after a finalize event.
abbrev pub finalized_client : Connection → Option Failure → Connection
finalized_client c none = stopped_client c resume
finalized_client c (some e) = fail_client c e

-- The other waits of the handler, which are with a stream.
abbrev pub wait_client : Connection → StreamRuntime → Handler → Connection
wait_client c r finalizing =
    if has_ended r.worker then await_client_worker c flushing_final r.worker else c
wait_client c r flushing_final = if is_nil r.outgoing_events then finalized_client c c.sender else c
wait_client c r flushing = if is_nil r.outgoing_events then stop_client c resume (some r) else c
wait_client c r (stopping why) = if has_ended r.worker then stopped_client c why else c
wait_client c r receiving = c
wait_client c r ended = c

abbrev pub waits_client : Connection → Handler → Option StreamRuntime → Connection
waits_client c h none = c
waits_client c h (some r) = wait_client c r h

abbrev pub handle_client :
    StreamConfig → Connection → Option (Result Failure ClientEvent) → Handler → Connection
handle_client config c came receiving = receive_client config c came c.runtime
handle_client config c came h = waits_client c h c.runtime

-- `_send_queued_raw_uds_events`: the next event is written, unless an exception has ended the task.
abbrev pub write_next : Connection → StreamRuntime → List Event → Option Failure → Connection
write_next c r [] none = c
write_next c r (e ∷ rest) none = record c {
  runtime = some (record r { sent = r.sent ++ e ∷ []; outgoing_events = rest });
}
write_next c r queue (some e) = c

-- It cannot be written, and ends the task.
abbrev pub lose_next :
    Connection → StreamRuntime → Failure → List Event → Option Failure → Connection
lose_next c r e [] none = c
lose_next c r e (x ∷ rest) none = record c {
  runtime = some (record r { outgoing_events = rest });
  sender = some e;
}
lose_next c r e queue (some x) = c

abbrev pub client_task : Unicode → Connection → Step → StreamRuntime → Connection
client_task u c wakes r = record c { runtime = some (wake u r r.worker) }
client_task u c (decodes result) r = record c { runtime = some (decode_done u r r.worker result) }
client_task u c sends r = write_next c r r.outgoing_events c.sender
client_task u c (send_fails e) r = lose_next c r e r.outgoing_events c.sender
client_task u c (handles came) r = c

abbrev pub client_tasks : Unicode → Connection → Step → Option StreamRuntime → Connection
client_tasks u c s none = c
client_tasks u c s (some r) = client_task u c s r

unfoldable pub step_client : Unicode → StreamConfig → Connection → Step → Connection
step_client u config c (handles came) = handle_client config c came c.handler
step_client u config c s = client_tasks u c s c.runtime

unfoldable pub serve_client : Unicode → StreamConfig → Connection → List Step → Connection
serve_client u config c [] = c
serve_client u config c (s ∷ steps) = serve_client u config (step_client u config c s) steps
