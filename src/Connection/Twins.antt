-- ===== src/Connection/Twins.antt =====
-- The handler of the Unix socket in src/main.py takes every step as the one of the WebSocket does, but for its last words.
use rtc_asr.Prelude.{
  ◌+◌, ◌≡◌, refl, ap, ◌∙◌, Bool, true, false, Option, none, some, List, [], ◌∷◌, Result, ok, err,
  if◌then◌else◌, length, ◌==◌,
}
use rtc_asr.Text.{Unicode}
use rtc_asr.Session.{StreamSession, StreamError, append_audio}
use rtc_asr.Session.Create.{StreamConfig}
use rtc_asr.Session.CreateLocal.{create_local_stt_stream_session}
use rtc_asr.Runtime.{StreamRuntime, Event, Worker, waiting, in_partial, in_final, returned, raised}
use rtc_asr.Runtime.Progress.{has_ended}
use rtc_asr.Connection.{
  Failure, ClientEvent, start, audio, finalize, cancel_stream, ping, pong_received,
  close_connection, unsupported, raw_uds, websocket, Reason, resume, client_close, failed, Handler,
  receiving, finalizing, flushing_final, flushing, stopping, ended, Connection, sent, opened,
  failure_of, error_messages, stopped, stop_runtime, fail, begin_stream, take_audio, disconnected,
  backend_unavailable, unexpected_error, protocol_error,
}
use rtc_asr.Connection.Steps.{
  dispatch, await_worker, worker_done, handle, received, is_nil, finalized, send_event, lose_event,
  Step, handles, wakes, sends, send_fails, decodes, resumes, resume_wait, tasks, step, serve,
}
use rtc_asr.Connection.RawUds.{
  client_errors, stopped_client, stop_client, fail_client, begin_client, take_client_audio,
  dispatch_client, await_client_worker, client_worker_done, client_event, receive_client,
  finalized_client, waits_client, handle_client, write_next, lose_next, client_tasks, step_client,
  serve_client,
}
use rtc_asr.Connection.Transports.{same_transport, payloads}

same_errors : (e : Failure) → client_errors e ≡ error_messages raw_uds e
same_errors disconnected = refl
same_errors backend_unavailable = refl
same_errors unexpected_error = refl
same_errors (protocol_error code) = refl

same_stopped : (c : Connection) (why : Reason) → stopped_client c why ≡ stopped raw_uds c why
same_stopped c resume = refl
same_stopped c client_close = refl
same_stopped c (failed disconnected) = refl
same_stopped c (failed backend_unavailable) = refl
same_stopped c (failed unexpected_error) = refl
same_stopped c (failed (protocol_error code)) = refl

same_stop :
    (c : Connection) (o : Option StreamRuntime) (why : Reason)
    → stop_client c why o ≡ stop_runtime raw_uds c o why
same_stop c none why = same_stopped c why
same_stop c (some r) why = refl

same_fail : (c : Connection) (e : Failure) → fail_client c e ≡ fail raw_uds c e
same_fail c e = same_stop c c.runtime (failed e)

same_begin :
    (c : Connection) (session : Result StreamError StreamSession)
    (decoder : Result StreamError Bool)
    → begin_client c session decoder ≡ begin_stream raw_uds c session decoder
same_begin c (err e) decoder = same_fail c (failure_of e)
same_begin c (ok s) (err e) =
    same_fail (record c { next_stream_id = c.next_stream_id + 1 }) (failure_of e)
same_begin c (ok s) (ok true) = refl
same_begin c (ok s) (ok false) = refl

same_take :
    (c : Connection) (r : StreamRuntime) (session : Result StreamError StreamSession)
    → take_client_audio c r session ≡ take_audio raw_uds c r session
same_take c r (ok s) = refl
same_take c r (err e) = same_fail c (protocol_error "buffer_limit_exceeded")

same_if {ℓ} :
    {A : Type ℓ} (b : Bool) {x y x' y' : A}
    → x ≡ x'
    → y ≡ y'
    → (if b then x else y) ≡ (if b then x' else y')
same_if true p q = p
same_if false p q = q

same_dispatch :
    (config : StreamConfig) (c : Connection) (o : Option StreamRuntime) (e : ClientEvent)
    → dispatch_client config c e o ≡ dispatch raw_uds config c o e
unfolding dispatch dispatch_client
same_dispatch config c none (start payload decoder) =
    same_begin c (create_local_stt_stream_session payload config c.next_stream_id) decoder
same_dispatch config c (some r) (start payload decoder) =
    same_fail c (protocol_error "invalid_state")
same_dispatch config c (some r) (audio chunk) = same_take c r (append_audio r.session chunk)
same_dispatch config c (some r) finalize =
    same_if (length r.session.audio_buffer == 0) (same_fail c (protocol_error "invalid_state")) refl
same_dispatch config c (some r) cancel_stream = refl
same_dispatch config c (some r) ping = refl
same_dispatch config c none ping = refl
same_dispatch config c none (audio chunk) = same_fail c (protocol_error "invalid_state")
same_dispatch config c none finalize = same_fail c (protocol_error "invalid_state")
same_dispatch config c none cancel_stream = same_fail c (protocol_error "invalid_state")
same_dispatch config c none pong_received = refl
same_dispatch config c (some r) pong_received = refl
same_dispatch config c none close_connection = same_stop c none client_close
same_dispatch config c (some r) close_connection = same_stop c (some r) client_close
same_dispatch config c none unsupported = same_fail c (protocol_error "unsupported_message_type")
same_dispatch config c (some r) unsupported =
    same_fail c (protocol_error "unsupported_message_type")

same_await :
    (c : Connection) (w : Worker) (next : Handler)
    → await_client_worker c next w ≡ await_worker raw_uds c w next
same_await c (raised e) next = same_fail c (failure_of e)
same_await c returned next = refl
same_await c waiting next = refl
same_await c (in_partial a b bytes) next = refl
same_await c (in_final n bytes) next = refl

same_done :
    (c : Connection) (r : StreamRuntime) (came : Option (Result Failure ClientEvent))
    → client_worker_done c r.worker came ≡ worker_done raw_uds c r came
same_done c r (some (err e)) = same_fail c e
same_done c r none = same_await c r.worker flushing
same_done c r (some (ok e)) = same_await c r.worker flushing

same_event :
    (config : StreamConfig) (c : Connection) (came : Option (Result Failure ClientEvent))
    → client_event config c came ≡ handle raw_uds config c came
same_event config c none = refl
same_event config c (some (err e)) = same_fail c e
same_event config c (some (ok e)) = same_dispatch config c c.runtime e

same_received :
    (config : StreamConfig) (c : Connection) (o : Option StreamRuntime)
    (came : Option (Result Failure ClientEvent))
    → receive_client config c came o ≡ received raw_uds config c o came
unfolding received
same_received config c none came = same_event config c came
same_received config c (some r) came =
    same_if (has_ended r.worker) (same_done c r came) (same_event config c came)

same_finalized :
    (c : Connection) (o : Option Failure) → finalized_client c o ≡ finalized raw_uds c o
same_finalized c none = refl
same_finalized c (some e) = same_fail c e

same_waits :
    (c : Connection) (o : Option StreamRuntime) (h : Handler)
    → waits_client c h o ≡ resume_wait raw_uds c o h
same_waits c none h = refl
same_waits c (some r) finalizing =
    same_if (has_ended r.worker) (same_await c r.worker flushing_final) refl
same_waits c (some r) flushing_final =
    same_if (is_nil r.outgoing_events) (same_finalized c c.sender) refl
same_waits c (some r) flushing =
    same_if (is_nil r.outgoing_events) (same_stop c (some r) resume) refl
same_waits c (some r) (stopping why) = same_if (has_ended r.worker) (same_stopped c why) refl
same_waits c (some r) receiving = refl
same_waits c (some r) ended = refl

same_handle :
    (config : StreamConfig) (c : Connection) (h : Handler)
    (came : Option (Result Failure ClientEvent))
    → handle_client config c came h ≡ resumes raw_uds config c h came
same_handle config c receiving came = same_received config c c.runtime came
same_handle config c finalizing came = same_waits c c.runtime finalizing
same_handle config c flushing_final came = same_waits c c.runtime flushing_final
same_handle config c flushing came = same_waits c c.runtime flushing
same_handle config c (stopping why) came = same_waits c c.runtime (stopping why)
same_handle config c ended came = same_waits c c.runtime ended

same_write :
    (c : Connection) (r : StreamRuntime) (o : Option Failure) (queue : List Event)
    → c.runtime ≡ some r
    → write_next c r queue o ≡ send_event c r o queue
same_write c r none [] e = ap (λ x. record c { runtime = x }) e
same_write c r none (x ∷ rest) e = refl
same_write c r (some x) [] e = refl
same_write c r (some x) (y ∷ rest) e = refl

same_lose :
    (c : Connection) (r : StreamRuntime) (o : Option Failure) (queue : List Event) (e : Failure)
    → lose_next c r e queue o ≡ lose_event c r o queue e
same_lose c r none [] e = refl
same_lose c r none (x ∷ rest) e = refl
same_lose c r (some x) [] e = refl
same_lose c r (some x) (y ∷ rest) e = refl

module _ (u : Unicode) (config : StreamConfig) where
  same_tasks :
      (c : Connection) (o : Option StreamRuntime) (s : Step)
      → c.runtime ≡ o
      → client_tasks u c s o ≡ tasks u c o s
  same_tasks c none s e = refl
  same_tasks c (some r) wakes e = refl
  same_tasks c (some r) (decodes result) e = refl
  same_tasks c (some r) sends e = same_write c r c.sender r.outgoing_events e
  same_tasks c (some r) (send_fails x) e = same_lose c r c.sender r.outgoing_events x
  same_tasks c (some r) (handles came) e = refl

  same_step : (c : Connection) (s : Step) → step_client u config c s ≡ step u raw_uds config c s
  unfolding step step_client
  same_step c (handles came) = same_handle config c c.handler came
  same_step c wakes = same_tasks c c.runtime wakes refl
  same_step c sends = same_tasks c c.runtime sends refl
  same_step c (send_fails e) = same_tasks c c.runtime (send_fails e) refl
  same_step c (decodes result) = same_tasks c c.runtime (decodes result) refl

  same_serve :
      (c : Connection) (steps : List Step)
      → serve_client u config c steps ≡ serve u raw_uds config c steps
  unfolding serve serve_client
  same_serve c [] = refl
  same_serve c (s ∷ steps) =
      ap (λ d. serve_client u config d steps) (same_step c s)
      ∙ same_serve (step u raw_uds config c s) steps

  -- Under the same steps the handler of the Unix socket and that of the WebSocket, which the source writes apart, send
  -- the same messages, except that only the WebSocket is closed with a number.
  pub same_messages :
      (steps : List Step)
      → sent (serve_client u config opened steps)
        ≡ payloads (sent (serve u websocket config opened steps))
  same_messages steps = ap sent (same_serve opened steps) ∙ same_transport u config steps
