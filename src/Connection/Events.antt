-- ===== src/Connection/Events.antt =====
-- The invariant of a connection under an event that its handler takes: the branches of
-- `websocket_stream_v1` and `_raw_uds_stream_client` in src/main.py.
use rtc_asr.Prelude.{
  ℕ, ◌+◌, ◌≡◌, refl, sym, ap, ◌∙◌, inl, inr, Bool, true, false, ◌&&◌, Option, none, some, List, [],
  ◌∷◌, ◌++◌, length, ◌==◌, if◌then◌else◌, arith, Result, ok, err, if_case, Ensures,
}
use rtc_asr.Text.{Unicode}
use rtc_asr.Session.{StreamSession, StreamError, append_audio}
use rtc_asr.Session.Bounds.{append_audio_lem}
use rtc_asr.Session.Create.{StreamConfig}
use rtc_asr.Session.CreateLocal.{create_local_stt_stream_session, create_local-number}
use rtc_asr.Runtime.{StreamRuntime, pong, Worker, returned, raised, waiting, in_partial, in_final}
use rtc_asr.Runtime.Progress.{has_ended}
use rtc_asr.Runtime.Schedule.{cancel}
use rtc_asr.Runtime.Reader.{Reader, read, read_pong}
use rtc_asr.Runtime.Order.{
  Anything, warned-IsOrdered, pinged-IsOrdered, also-IsOrdered, started-IsOrdered,
}
use rtc_asr.Connection.{
  Failure, ClientEvent, start, audio, finalize, cancel_stream, ping, pong_received,
  close_connection, unsupported, Message, ready, event, Transport, Handler, receiving, flushing,
  Connection, failure_of, error_messages, closed_messages, ready_event, decoding_session,
  begin_stream, take_audio, begin_finalize, protocol_error,
}
use rtc_asr.Connection.Steps.{dispatch, await_worker, worker_done, handle, received}
use rtc_asr.Connection.Protocol.{following, is_over, number, follow, accept_all, accept_all-append}
use rtc_asr.Connection.Tracking.{
  Idle, IsTracked, Live, Tracked, closed-Live, fail-any, fail-Idle, fail-Live, finish-Accepted,
  idle-reads, last-closed, last-errors, newcomer_view,
}

-- A new stream.
ready-accepted_past :
    (past : List Message) (reader : Reader) (s : StreamSession)
    → accept_all newcomer_view past ≡ some (following reader)
    → is_over reader ≡ true
    → s.stream_id ≡ number reader + 1
    → accept_all newcomer_view (past ++ ready (ready_event s) ∷ [])
      ≡ some (following (read s.stream_id 0 false false))
ready-accepted_past past (read id n f c) s h over next =
    accept_all-append newcomer_view past (ready (ready_event s) ∷ [])
    ∙ ap (λ o. accept_all o (ready (ready_event s) ∷ [])) h
    ∙ taken
  where
    test : (is_over (read id n f c) && s.stream_id == id + 1) ≡ true
    test = ground arith

    taken :
        accept_all (some (following (read id n f c))) (ready (ready_event s) ∷ [])
        ≡ some (following (read s.stream_id 0 false false))
    taken =
        ap
          (λ b.
            accept_all (if b then some (following (read s.stream_id 0 false false)) else none) [])
          test

ponged :
    (past : List Message) (reader : Reader)
    → accept_all newcomer_view past ≡ some (following reader)
    → accept_all newcomer_view (past ++ event pong ∷ []) ≡ some (following reader)
ponged past (read id n f c) h =
    accept_all-append newcomer_view past (event pong ∷ [])
    ∙ ap (λ o. accept_all o (event pong ∷ [])) h
    ∙ ap (λ o. accept_all (follow o) []) (read_pong id n f c)

decoding-number :
    (s : StreamSession) (b : Bool)
    → ((decoding_session s b).stream_id ≡ s.stream_id)
      × ((decoding_session s b).transcript_revision ≡ s.transcript_revision)
decoding-number s true = (refl, refl)
decoding-number s false = (refl, refl)

module _ (u : Unicode) (t : Transport) (c : Connection) (waits : c.handler ≡ receiving) where
  begin_stream-IsTracked :
      (session : Result StreamError StreamSession) (decoder : Result StreamError Bool)
      → Ensures
          (λ (s : StreamSession). (s.stream_id ≡ c.next_stream_id) × (s.transcript_revision ≡ 0))
          session
      → c.runtime ≡ none
      → Idle c
      → IsTracked (begin_stream t c session decoder)
  begin_stream-IsTracked (err e) decoder new none_yet h = fail-Idle t c (failure_of e) none_yet h
  begin_stream-IsTracked (ok s) (err e) new none_yet (reader, h) = rw none_yet (
      finish-Accepted (c.past ++ []) (error_messages t (failure_of e)) reader
        (idle-reads t c reader h.accepted_past) (last-errors t (failure_of e) reader))
  begin_stream-IsTracked (ok s) (ok b) new none_yet (reader, h) =
      let session = decoding_session s b in
      let numbers = new.at s refl in
      let same = decoding-number s b in
      let numbered : session.stream_id ≡ number reader + 1 = same.0 ∙ numbers.0 ∙ h.counted in
      rw (waits, none_yet)
        (
          session.stream_id,
          record {
            began =
                ready-accepted_past (c.past ++ []) reader session
                  (idle-reads t c reader h.accepted_past) h.over numbered;
            order = started-IsOrdered false session b (same.1 ∙ numbers.1);
            counted = ap (λ n. n + 1) (sym (same.0 ∙ numbers.0));
            alive = h.alive;
          },
        )

  module _ (r : StreamRuntime) (some_r : c.runtime ≡ some r) (h : Live Anything false c r) where
    take_audio-IsTracked :
        (chunk : List ℕ) → IsTracked (take_audio t c r (append_audio r.session chunk))
    take_audio-IsTracked chunk = elim (append_audio_lem r.session chunk) [
      | inl (fits, taken) ↦
          rw (taken, waits)
            (
              h.0,
              record {
                began = h.1.began;
                order = record { reads = h.1.order.reads; placed = h.1.order.placed };
                counted = h.1.counted;
                alive = h.1.alive;
              },
            )
      | inr (over, refused) ↦
          rw refused
            (fail-Live t c Anything false r (protocol_error "buffer_limit_exceeded") some_r h)
    ]

    begin_finalize-IsTracked : IsTracked (begin_finalize t c r)
    begin_finalize-IsTracked =
        if_case IsTracked (length r.session.audio_buffer == 0)
          (λ _. fail-Live t c Anything false r (protocol_error "invalid_state") some_r h)
          (λ _. (
            h.0,
            record {
              began = h.1.began;
              order = record { reads = h.1.order.reads; placed = h.1.order.placed };
              counted = h.1.counted;
              alive = h.1.alive;
            },
          ))

    dispatch-live :
        (config : StreamConfig) (e : ClientEvent) → IsTracked (dispatch t config c (some r) e)
    unfolding dispatch cancel
    dispatch-live config (start payload decoder) =
        fail-Live t c Anything false r (protocol_error "invalid_state") some_r h
    dispatch-live config (audio chunk) = take_audio-IsTracked chunk
    dispatch-live config finalize = begin_finalize-IsTracked
    dispatch-live config cancel_stream = inr (
      h.0,
      record {
        began = h.1.began;
        order =
            also-IsOrdered (cancel r) refl (warned-IsOrdered h.0 Anything false u r tt h.1.order);
        counted = h.1.counted;
        alive = h.1.alive;
      },
    )
    dispatch-live config ping = rw waits (
      h.0,
      record {
        began = h.1.began;
        order = pinged-IsOrdered h.0 Anything false u r h.1.order;
        counted = h.1.counted;
        alive = h.1.alive;
      },
    )
    dispatch-live config pong_received = rw (waits, some_r) h
    dispatch-live config close_connection = (h.0, closed-Live h.0 Anything false c r h.1)
    dispatch-live config unsupported =
        fail-Live t c Anything false r (protocol_error "unsupported_message_type") some_r h

  module _ (none_yet : c.runtime ≡ none) (h : Idle c) where
    dispatch-idle :
        (config : StreamConfig) (e : ClientEvent) → IsTracked (dispatch t config c none e)
    unfolding dispatch
    dispatch-idle config (start payload decoder) =
        begin_stream-IsTracked (create_local_stt_stream_session payload config c.next_stream_id)
          decoder (create_local-number payload config c.next_stream_id) none_yet h
    dispatch-idle config (audio chunk) = fail-Idle t c (protocol_error "invalid_state") none_yet h
    dispatch-idle config finalize = fail-Idle t c (protocol_error "invalid_state") none_yet h
    dispatch-idle config cancel_stream = fail-Idle t c (protocol_error "invalid_state") none_yet h
    dispatch-idle config ping =
        rw (waits, none_yet)
          (
            h.0,
            record {
              accepted_past = ponged (c.past ++ []) h.0 (idle-reads t c h.0 h.1.accepted_past);
              over = h.1.over;
              counted = h.1.counted;
              alive = h.1.alive;
            },
          )
    dispatch-idle config pong_received = rw (waits, none_yet) h
    dispatch-idle config close_connection = rw none_yet (
        finish-Accepted (c.past ++ []) (closed_messages t) h.0
          (idle-reads t c h.0 h.1.accepted_past) (last-closed t h.0))
    dispatch-idle config unsupported =
        fail-Idle t c (protocol_error "unsupported_message_type") none_yet h

module _ (u : Unicode) (t : Transport) (c : Connection) where
  -- A worker that has returned, when the handler gets to know.
  pub await_worker-IsTracked :
      (w : Worker) (r : StreamRuntime) (next : Handler)
      → c.runtime ≡ some r
      → Live Anything false c r
      → IsTracked c
      → (w ≡ returned → Tracked c next (some r))
      → IsTracked (await_worker t c w next)
  await_worker-IsTracked (raised e) r next some_r h same after =
      fail-Live t c Anything false r (failure_of e) some_r h
  await_worker-IsTracked returned r next some_r h same after = rw some_r (after refl)
  await_worker-IsTracked waiting r next some_r h same after = same
  await_worker-IsTracked (in_partial a b bytes) r next some_r h same after = same
  await_worker-IsTracked (in_final a bytes) r next some_r h same after = same

  handle-IsTracked :
      (config : StreamConfig) (came : Option (Result Failure ClientEvent))
      → c.handler ≡ receiving
      → IsTracked c
      → IsTracked (handle t config c came)
  handle-IsTracked config none waits h = h
  handle-IsTracked config (some (err e)) waits h = fail-any t c e waits h
  handle-IsTracked config (some (ok e)) waits h = go c.runtime refl
    where
      go : (o : Option StreamRuntime) → c.runtime ≡ o → IsTracked (dispatch t config c o e)
      go none none_yet = dispatch-idle u t c waits none_yet (rw (waits, none_yet) at h) config e
      go (some r) some_r = dispatch-live u t c waits r some_r (rw (waits, some_r) at h) config e

  worker_done-IsTracked :
      (r : StreamRuntime) (came : Option (Result Failure ClientEvent))
      → c.handler ≡ receiving
      → c.runtime ≡ some r
      → Live Anything false c r
      → IsTracked c
      → IsTracked (worker_done t c r came)
  worker_done-IsTracked r (some (err e)) waits some_r h same =
      fail-Live t c Anything false r e some_r h
  worker_done-IsTracked r none waits some_r h same =
      await_worker-IsTracked r.worker r flushing some_r h same (λ e. inl (h, e))
  worker_done-IsTracked r (some (ok e)) waits some_r h same =
      await_worker-IsTracked r.worker r flushing some_r h same (λ e. inl (h, e))

  pub received-IsTracked :
      (config : StreamConfig) (came : Option (Result Failure ClientEvent))
      → c.handler ≡ receiving
      → IsTracked c
      → IsTracked (received t config c c.runtime came)
  unfolding received
  received-IsTracked config came waits h = go c.runtime refl
    where
      go : (o : Option StreamRuntime) → c.runtime ≡ o → IsTracked (received t config c o came)
      go none none_yet = handle-IsTracked config came waits h
      go (some r) some_r =
          if_case IsTracked (has_ended r.worker)
            (λ _. worker_done-IsTracked r came waits some_r (rw (waits, some_r) at h) h)
            (λ _. handle-IsTracked config came waits h)
