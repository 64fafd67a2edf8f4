-- ===== src/Connection/Steps.antt =====
-- The steps of a connection of the Local STT protocol: the handlers of src/main.py on an event and in
-- their waits, and the turns of the other tasks.
use rtc_asr.Prelude.{
  Bool, true, false, Option, none, some, List, [], ◌∷◌, ◌++◌, Result, ok, err, if◌then◌else◌,
}
use rtc_asr.Text.{Unicode}
use rtc_asr.Session.{StreamError, Transcript, append_audio}
use rtc_asr.Session.Create.{StreamConfig}
use rtc_asr.Session.CreateLocal.{create_local_stt_stream_session}
use rtc_asr.Runtime.{StreamRuntime, Event, pong, Worker, returned, raised, enqueue_event}
use rtc_asr.Runtime.Progress.{has_ended}
use rtc_asr.Runtime.Schedule.{cancel, wake, decode_done, send_next}
use rtc_asr.Connection.{
  ClientEvent, Connection, Failure, Handler, Transport, audio, begin_finalize, begin_stream,
  cancel_stream, client_close, close_connection, event, fail, failure_of, finalize, finalizing,
  flushing, flushing_final, ping, pong_received, protocol_error, receiving, resume, sent, start,
  stop_runtime, stopped, stopping, take_audio, unsupported,
}

-- The handler with an event, by whether there is a stream.
unfoldable pub dispatch :
    Transport → StreamConfig → Connection → Option StreamRuntime → ClientEvent → Connection
dispatch t config c none (start payload decoder) =
    begin_stream t c (create_local_stt_stream_session payload config c.next_stream_id) decoder
dispatch t config c (some r) (start payload decoder) = fail t c (protocol_error "invalid_state")
dispatch t config c (some r) (audio chunk) = take_audio t c r (append_audio r.session chunk)
dispatch t config c (some r) finalize = begin_finalize t c r
dispatch t config c (some r) cancel_stream = record c {
  runtime = some (cancel r);
  handler = flushing;
}
dispatch t config c (some r) ping = record c { runtime = some (enqueue_event r pong) }
dispatch t config c none ping = record c { past = sent c ++ event pong ∷ [] }
dispatch t config c none (audio chunk) = fail t c (protocol_error "invalid_state")
dispatch t config c none finalize = fail t c (protocol_error "invalid_state")
dispatch t config c none cancel_stream = fail t c (protocol_error "invalid_state")
dispatch t config c r pong_received = c
dispatch t config c r close_connection = stop_runtime t c r client_close
dispatch t config c r unsupported = fail t c (protocol_error "unsupported_message_type")

-- `await worker_task` of a worker that has ended, and then the queue is sent.
abbrev pub await_worker : Transport → Connection → Worker → Handler → Connection
await_worker t c (raised e) next = fail t c (failure_of e)
await_worker t c returned next = record c { handler = next }
await_worker t c w next = c

-- The worker has ended while the handler waited for an event. An event that has come as well is
-- lost; an exception of `receive` is not.
abbrev pub worker_done :
    Transport → Connection → StreamRuntime → Option (Result Failure ClientEvent) → Connection
worker_done t c r (some (err e)) = fail t c e
worker_done t c r came = await_worker t c r.worker flushing

abbrev pub handle :
    Transport → StreamConfig → Connection → Option (Result Failure ClientEvent) → Connection
handle t config c none = c
handle t config c (some (err e)) = fail t c e
handle t config c (some (ok e)) = dispatch t config c c.runtime e

-- The handler when `asyncio.wait` returns.
unfoldable pub received :
    Transport
    → StreamConfig
    → Connection
    → Option StreamRuntime
    → Option (Result Failure ClientEvent)
    → Connection
received t config c none came = handle t config c came
received t config c (some r) came =
    if has_ended r.worker then worker_done t c r came else handle t config c came

abbrev pub is_nil {ℓ} : {A : Type ℓ} → List A → Bool
is_nil [] = true
is_nil (x ∷ xs) = false

-- After a finalize event the sender is awaited, and raises what has ended it. There is no decoder to
-- close then, so that nothing else is left of `stop_runtime`.
abbrev pub finalized : Transport → Connection → Option Failure → Connection
finalized t c none = stopped t c resume
finalized t c (some e) = fail t c e

-- The handler where it waits for something else than an event, with a stream.
abbrev pub proceed : Transport → Connection → StreamRuntime → Handler → Connection
proceed t c r finalizing =
    if has_ended r.worker then await_worker t c r.worker flushing_final else c
proceed t c r flushing_final = if is_nil r.outgoing_events then finalized t c c.sender else c
proceed t c r flushing = if is_nil r.outgoing_events then stop_runtime t c (some r) resume else c
proceed t c r (stopping why) = if has_ended r.worker then stopped t c why else c
proceed t c r h = c

abbrev pub send_event : Connection → StreamRuntime → Option Failure → List Event → Connection
send_event c r none queue = record c { runtime = some (send_next r queue) }
send_event c r (some e) queue = c

-- An event that cannot be sent is lost, with the sender.
abbrev pub lose_event :
    Connection → StreamRuntime → Option Failure → List Event → Failure → Connection
lose_event c r none (x ∷ rest) e = record c {
  runtime = some (record r { outgoing_events = rest });
  sender = some e;
}
lose_event c r none [] e = c
lose_event c r (some x) queue e = c

-- A turn of one of the tasks: the handler, with the event that has come if any, the worker when it wakes,
-- a decode that comes back, the sender, or the sender whose connection is gone.
pub data Step : Type 0 where
  handles : Option (Result Failure ClientEvent) → Step
  wakes sends : Step
  send_fails : Failure → Step
  decodes : Result StreamError (Option Transcript) → Step

abbrev pub resume_wait : Transport → Connection → Option StreamRuntime → Handler → Connection
resume_wait t c none h = c
resume_wait t c (some r) h = proceed t c r h

abbrev pub resumes :
    Transport
    → StreamConfig
    → Connection
    → Handler
    → Option (Result Failure ClientEvent)
    → Connection
resumes t config c receiving came = received t config c c.runtime came
resumes t config c h came = resume_wait t c c.runtime h

abbrev pub task_step : Unicode → Connection → StreamRuntime → Step → Connection
task_step u c r wakes = record c { runtime = some (wake u r r.worker) }
task_step u c r (decodes result) = record c { runtime = some (decode_done u r r.worker result) }
task_step u c r sends = send_event c r c.sender r.outgoing_events
task_step u c r (send_fails e) = lose_event c r c.sender r.outgoing_events e
task_step u c r (handles came) = c

abbrev pub tasks : Unicode → Connection → Option StreamRuntime → Step → Connection
tasks u c none s = c
tasks u c (some r) s = task_step u c r s

unfoldable pub step : Unicode → Transport → StreamConfig → Connection → Step → Connection
step u t config c (handles came) = resumes t config c c.handler came
step u t config c s = tasks u c c.runtime s

unfoldable pub serve : Unicode → Transport → StreamConfig → Connection → List Step → Connection
serve u t config c [] = c
serve u t config c (s ∷ steps) = serve u t config (step u t config c s) steps
