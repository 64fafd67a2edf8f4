-- ===== src/Connection/Transports.antt =====
-- The two transports of src/main.py: with the last words of the Unix socket a connection sends the messages that it
-- sends over a WebSocket, less the closing of the WebSocket.
use rtc_asr.Prelude.{
  ◌+◌, ◌≡◌, refl, sym, ap, ◌∙◌, Bool, true, false, Option, none, some, List, [], ◌∷◌, ◌++◌, map,
  Result, ok, err, if◌then◌else◌, length, ◌==◌,
}
use rtc_asr.Text.{Unicode}
use rtc_asr.Session.{StreamSession, StreamError, append_audio}
use rtc_asr.Session.Create.{StreamConfig}
use rtc_asr.Session.CreateLocal.{create_local_stt_stream_session}
use rtc_asr.Runtime.{
  pong, StreamRuntime, Event, Worker, waiting, in_partial, in_final, returned, raised,
  request_finalize,
}
use rtc_asr.Runtime.Progress.{has_ended}
use rtc_asr.Connection.{
  Failure, ClientEvent, start, audio, finalize, cancel_stream, ping, pong_received,
  close_connection, unsupported, Message, ready, event, closed, error, websocket_close, websocket,
  raw_uds, Reason, resume, client_close, failed, Handler, receiving, finalizing, flushing_final,
  flushing, stopping, ended, Connection, sent, sent_of, opened, failure_of, error_messages,
  closed_messages, stopped, stop_runtime, fail, ready_event, decoding_session, begin_stream,
  take_audio, disconnected, backend_unavailable, unexpected_error, protocol_error,
}
use rtc_asr.Connection.Steps.{
  dispatch, await_worker, worker_done, handle, received, is_nil, finalized, send_event, lose_event,
  Step, handles, wakes, sends, send_fails, decodes, resumes, resume_wait, tasks, step, serve,
}

-- The messages without the closing of the WebSocket.
abbrev pub payloads : List Message → List Message
payloads [] = []
payloads (websocket_close n ∷ ms) = payloads ms
payloads (m ∷ ms) = m ∷ payloads ms

abbrev pub over_socket : Connection → Connection
over_socket c = record c { past = payloads c.past }

payloads-append : (xs ys : List Message) → payloads (xs ++ ys) ≡ payloads xs ++ payloads ys
payloads-append [] ys = refl
payloads-append (websocket_close n ∷ xs) ys = payloads-append xs ys
payloads-append (ready m ∷ xs) ys = ap (λ q. ready m ∷ q) (payloads-append xs ys)
payloads-append (event e ∷ xs) ys = ap (λ q. event e ∷ q) (payloads-append xs ys)
payloads-append (closed ∷ xs) ys = ap (λ q. closed ∷ q) (payloads-append xs ys)
payloads-append (error code ∷ xs) ys = ap (λ q. error code ∷ q) (payloads-append xs ys)

payloads-event : (es : List Event) → payloads (map event es) ≡ map event es
payloads-event [] = refl
payloads-event (e ∷ es) = ap (λ q. event e ∷ q) (payloads-event es)

payloads-sent_of : (o : Option StreamRuntime) → payloads (sent_of o) ≡ sent_of o
payloads-sent_of none = refl
payloads-sent_of (some r) = payloads-event r.sent

payloads-sent : (c : Connection) → sent (over_socket c) ≡ payloads (sent c)
payloads-sent c =
    ap (λ q. payloads c.past ++ q) (sym (payloads-sent_of c.runtime))
    ∙ sym (payloads-append c.past (sent_of c.runtime))

-- What both say last.
sent_and :
    (c : Connection) (last last' : List Message)
    → last ≡ payloads last'
    → sent (over_socket c) ++ last ≡ payloads (sent c ++ last')
sent_and c last last' same =
    ap (λ q. q ++ last) (payloads-sent c)
    ∙ ap (λ q. payloads (sent c) ++ q) same
    ∙ sym (payloads-append (sent c) last')

both_errors : (e : Failure) → error_messages raw_uds e ≡ payloads (error_messages websocket e)
both_errors disconnected = refl
both_errors backend_unavailable = refl
both_errors unexpected_error = refl
both_errors (protocol_error code) = refl

both_stopped :
    (c : Connection) (why : Reason)
    → stopped raw_uds (over_socket c) why ≡ over_socket (stopped websocket c why)
both_stopped c resume =
    ap (λ ms. record c { runtime = none; sender = none; handler = receiving; past = ms })
      (payloads-sent c)
both_stopped c client_close =
    ap (λ ms. record c { runtime = none; sender = none; handler = ended; past = ms })
      (sent_and c (closed_messages raw_uds) (closed_messages websocket) refl)
both_stopped c (failed e) =
    ap (λ ms. record c { runtime = none; sender = none; handler = ended; past = ms })
      (sent_and c (error_messages raw_uds e) (error_messages websocket e) (both_errors e))

both_stop_runtime :
    (c : Connection) (o : Option StreamRuntime) (why : Reason)
    → stop_runtime raw_uds (over_socket c) o why ≡ over_socket (stop_runtime websocket c o why)
both_stop_runtime c none why = both_stopped c why
both_stop_runtime c (some r) why = refl

both_fail :
    (c : Connection) (e : Failure)
    → fail raw_uds (over_socket c) e ≡ over_socket (fail websocket c e)
both_fail c e = both_stop_runtime c c.runtime (failed e)

both_if :
    (b : Bool) {x y : Connection} (x' y' : Connection)
    → x ≡ over_socket x'
    → y ≡ over_socket y'
    → (if b then x else y) ≡ over_socket (if b then x' else y')
both_if true x' y' p q = p
both_if false x' y' p q = q

both_begin_stream :
    (c : Connection) (session : Result StreamError StreamSession)
    (decoder : Result StreamError Bool)
    → begin_stream raw_uds (over_socket c) session decoder
      ≡ over_socket (begin_stream websocket c session decoder)
both_begin_stream c (err e) decoder = both_fail c (failure_of e)
both_begin_stream c (ok s) (err e) =
    both_fail (record c { next_stream_id = c.next_stream_id + 1 }) (failure_of e)
both_begin_stream c (ok s) (ok b) =
    let next = begin_stream websocket c (ok s) (ok b) in
    ap (λ ms. record next { past = ms })
      (sent_and c (ready (ready_event (decoding_session s b)) ∷ [])
        (ready (ready_event (decoding_session s b)) ∷ []) refl)

both_take_audio :
    (c : Connection) (r : StreamRuntime) (session : Result StreamError StreamSession)
    → take_audio raw_uds (over_socket c) r session ≡ over_socket (take_audio websocket c r session)
both_take_audio c r (ok s) = refl
both_take_audio c r (err e) = both_fail c (protocol_error "buffer_limit_exceeded")

both_dispatch :
    (config : StreamConfig) (c : Connection) (o : Option StreamRuntime) (e : ClientEvent)
    → dispatch raw_uds config (over_socket c) o e ≡ over_socket (dispatch websocket config c o e)
unfolding dispatch
both_dispatch config c none (start payload decoder) =
    both_begin_stream c (create_local_stt_stream_session payload config c.next_stream_id) decoder
both_dispatch config c (some r) (start payload decoder) =
    both_fail c (protocol_error "invalid_state")
both_dispatch config c (some r) (audio chunk) = both_take_audio c r (append_audio r.session chunk)
both_dispatch config c (some r) finalize =
    both_if (length r.session.audio_buffer == 0) (fail websocket c (protocol_error "invalid_state"))
      (record c { runtime = some (request_finalize r); handler = finalizing })
      (both_fail c (protocol_error "invalid_state")) refl
both_dispatch config c (some r) cancel_stream = refl
both_dispatch config c (some r) ping = refl
both_dispatch config c none ping =
    ap (λ ms. record c { past = ms }) (sent_and c (event pong ∷ []) (event pong ∷ []) refl)
both_dispatch config c none (audio chunk) = both_fail c (protocol_error "invalid_state")
both_dispatch config c none finalize = both_fail c (protocol_error "invalid_state")
both_dispatch config c none cancel_stream = both_fail c (protocol_error "invalid_state")
both_dispatch config c none pong_received = refl
both_dispatch config c (some r) pong_received = refl
both_dispatch config c o close_connection = both_stop_runtime c o client_close
both_dispatch config c o unsupported = both_fail c (protocol_error "unsupported_message_type")

both_await_worker :
    (c : Connection) (w : Worker) (next : Handler)
    → await_worker raw_uds (over_socket c) w next ≡ over_socket (await_worker websocket c w next)
both_await_worker c (raised e) next = both_fail c (failure_of e)
both_await_worker c returned next = refl
both_await_worker c waiting next = refl
both_await_worker c (in_partial a b bytes) next = refl
both_await_worker c (in_final n bytes) next = refl

both_worker_done :
    (c : Connection) (r : StreamRuntime) (came : Option (Result Failure ClientEvent))
    → worker_done raw_uds (over_socket c) r came ≡ over_socket (worker_done websocket c r came)
both_worker_done c r (some (err e)) = both_fail c e
both_worker_done c r none = both_await_worker c r.worker flushing
both_worker_done c r (some (ok e)) = both_await_worker c r.worker flushing

both_handle :
    (config : StreamConfig) (c : Connection) (came : Option (Result Failure ClientEvent))
    → handle raw_uds config (over_socket c) came ≡ over_socket (handle websocket config c came)
both_handle config c none = refl
both_handle config c (some (err e)) = both_fail c e
both_handle config c (some (ok e)) = both_dispatch config c c.runtime e

both_received :
    (config : StreamConfig) (c : Connection) (o : Option StreamRuntime)
    (came : Option (Result Failure ClientEvent))
    → received raw_uds config (over_socket c) o came
      ≡ over_socket (received websocket config c o came)
unfolding received
both_received config c none came = both_handle config c came
both_received config c (some r) came =
    both_if (has_ended r.worker) (worker_done websocket c r came) (handle websocket config c came)
      (both_worker_done c r came) (both_handle config c came)

both_finalized :
    (c : Connection) (o : Option Failure)
    → finalized raw_uds (over_socket c) o ≡ over_socket (finalized websocket c o)
both_finalized c none = both_stopped c resume
both_finalized c (some e) = both_fail c e

both_resume_wait :
    (c : Connection) (o : Option StreamRuntime) (h : Handler)
    → resume_wait raw_uds (over_socket c) o h ≡ over_socket (resume_wait websocket c o h)
both_resume_wait c none h = refl
both_resume_wait c (some r) finalizing =
    both_if (has_ended r.worker) (await_worker websocket c r.worker flushing_final) c
      (both_await_worker c r.worker flushing_final) refl
both_resume_wait c (some r) flushing_final =
    both_if (is_nil r.outgoing_events) (finalized websocket c c.sender) c
      (both_finalized c c.sender) refl
both_resume_wait c (some r) flushing =
    both_if (is_nil r.outgoing_events) (stop_runtime websocket c (some r) resume) c
      (both_stop_runtime c (some r) resume) refl
both_resume_wait c (some r) (stopping why) =
    both_if (has_ended r.worker) (stopped websocket c why) c (both_stopped c why) refl
both_resume_wait c (some r) receiving = refl
both_resume_wait c (some r) ended = refl

both_resumes :
    (config : StreamConfig) (c : Connection) (h : Handler)
    (came : Option (Result Failure ClientEvent))
    → resumes raw_uds config (over_socket c) h came
      ≡ over_socket (resumes websocket config c h came)
both_resumes config c receiving came = both_received config c c.runtime came
both_resumes config c finalizing came = both_resume_wait c c.runtime finalizing
both_resumes config c flushing_final came = both_resume_wait c c.runtime flushing_final
both_resumes config c flushing came = both_resume_wait c c.runtime flushing
both_resumes config c (stopping why) came = both_resume_wait c c.runtime (stopping why)
both_resumes config c ended came = both_resume_wait c c.runtime ended

both_send :
    (c : Connection) (r : StreamRuntime) (o : Option Failure) (queue : List Event)
    → send_event (over_socket c) r o queue ≡ over_socket (send_event c r o queue)
both_send c r none queue = refl
both_send c r (some e) queue = refl

both_lose :
    (c : Connection) (r : StreamRuntime) (o : Option Failure) (queue : List Event) (e : Failure)
    → lose_event (over_socket c) r o queue e ≡ over_socket (lose_event c r o queue e)
both_lose c r none [] e = refl
both_lose c r none (x ∷ rest) e = refl
both_lose c r (some x) queue e = refl

module _ (u : Unicode) (config : StreamConfig) where
  both_tasks :
      (c : Connection) (o : Option StreamRuntime) (s : Step)
      → tasks u (over_socket c) o s ≡ over_socket (tasks u c o s)
  both_tasks c none s = refl
  both_tasks c (some r) wakes = refl
  both_tasks c (some r) (decodes result) = refl
  both_tasks c (some r) sends = both_send c r c.sender r.outgoing_events
  both_tasks c (some r) (send_fails e) = both_lose c r c.sender r.outgoing_events e
  both_tasks c (some r) (handles came) = refl

  both_step :
      (c : Connection) (s : Step)
      → step u raw_uds config (over_socket c) s ≡ over_socket (step u websocket config c s)
  unfolding step
  both_step c (handles came) = both_resumes config c c.handler came
  both_step c wakes = both_tasks c c.runtime wakes
  both_step c sends = both_tasks c c.runtime sends
  both_step c (send_fails e) = both_tasks c c.runtime (send_fails e)
  both_step c (decodes result) = both_tasks c c.runtime (decodes result)

  both_serve :
      (c : Connection) (steps : List Step)
      → serve u raw_uds config (over_socket c) steps
        ≡ over_socket (serve u websocket config c steps)
  unfolding serve
  both_serve c [] = refl
  both_serve c (s ∷ steps) =
      ap (λ d. serve u raw_uds config d steps) (both_step c s)
      ∙ both_serve (step u websocket config c s) steps

  -- Under the same steps both handlers send the same messages, except that only the WebSocket is closed
  -- with a number.
  pub same_transport :
      (steps : List Step)
      → sent (serve u raw_uds config opened steps)
        ≡ payloads (sent (serve u websocket config opened steps))
  same_transport steps =
      ap sent (both_serve opened steps) ∙ payloads-sent (serve u websocket config opened steps)
