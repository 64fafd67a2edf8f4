-- ===== src/Connection/Waits.antt =====
-- The invariant of a connection where its handler has waited for the worker or for the queue: the ends of
-- the branches and `stop_runtime` in src/main.py.
use rtc_asr.Prelude.{
  ℕ, ◌+◌, ◌≡◌, refl, sym, ap, ◌∙◌, inl, inr, Bool, true, false, ◌||◌, Option, none, some, List, [],
  ◌++◌, append-nil, if_case,
}
use rtc_asr.Text.{Unicode}
use rtc_asr.Runtime.{StreamRuntime, Event, returned, close}
use rtc_asr.Runtime.Progress.{has_ended}
use rtc_asr.Runtime.Reader.{read, read_all}
use rtc_asr.Runtime.Reading.{IsOrdered}
use rtc_asr.Runtime.Order.{Anything, closed-IsOrdered, also-IsOrdered, returned-over}
use rtc_asr.Connection.{
  Failure, Transport, Reason, resume, client_close, failed, Handler, receiving, finalizing,
  flushing_final, flushing, stopping, ended, Connection, sent_of, stopped, stop_runtime,
}
use rtc_asr.Connection.Steps.{is_nil, finalized, proceed}
use rtc_asr.Connection.Protocol.{follow, accept_all}
use rtc_asr.Connection.Tracking.{
  Canceled, Idle, IsLive, IsTracked, Live, LiveOver, OverBy, Tracked, fail-Live, newcomer_view,
  nil_of, or_right, sent-Accepted, sent-follow, stopped-Closed, stopped-Ended,
}
use rtc_asr.Connection.Events.{await_worker-IsTracked}

module _ (u : Unicode) (t : Transport) (c : Connection) (r : StreamRuntime)
    (some_r : c.runtime ≡ some r) where
  -- All that an over stream has sent has been read, and its queue is sent.
  over-OverBy :
      (k : ℕ) (Q : List Event → Bool → Type 0)
      → IsOrdered k Q false r
      → (r.final_emitted || r.cancel_requested) ≡ true
      → r.outgoing_events ≡ []
      → OverBy k r.sent r.cancel_requested
  over-OverBy k Q h over flushed = (
    read k r.session.transcript_revision r.final_emitted r.cancel_requested,
    ap (read_all (some (read k 0 false false)))
          (sym (append-nil r.sent) ∙ ap (λ q. r.sent ++ q) (sym flushed))
        ∙ h.reads.read_so_far,
    over,
    refl,
  )

  Idle-stopped :
      (k : ℕ) (Q : List Event → Bool → Type 0) (b : Bool)
      → IsLive k Q b c.past c.sender c.next_stream_id r
      → OverBy k r.sent r.cancel_requested
      → Idle (stopped t c resume)
  Idle-stopped k Q b h (reader, reads, over, numbered) = (
    reader,
    record {
      accepted_past = rw some_r (sent-follow k Q b c r h) ∙ ap follow reads;
      over = over;
      counted = h.counted ∙ ap (λ n. n + 1) (sym numbered);
      alive = refl;
    },
  )

  stopping-LiveOver :
      (k : ℕ) (Q : List Event → Bool → Type 0)
      → IsLive k Q false c.past c.sender c.next_stream_id r
      → (r.final_emitted || r.cancel_requested) ≡ true
      → r.outgoing_events ≡ []
      → LiveOver c (close r)
  stopping-LiveOver k Q h over flushed = (
    k,
    record {
      began = h.began;
      order =
          also-IsOrdered (close r) (over-OverBy k Q h.order over flushed)
            (closed-IsOrdered k Q false r h.order);
      counted = h.counted;
      alive = h.alive;
    },
  )

  flush-IsTracked :
      Tracked c flushing (some r)
      → r.outgoing_events ≡ []
      → IsTracked (stop_runtime t c (some r) resume)
  flush-IsTracked (inl (h, e)) flushed =
      stopping-LiveOver h.0 Anything h.1 (returned-over r h.1.order e) flushed
  flush-IsTracked (inr h) flushed =
      stopping-LiveOver h.0 Canceled h.1
        (or_right r.final_emitted r.cancel_requested h.1.order.reads.kept) flushed

  finalized-IsTracked :
      (o : Option Failure)
      → Live Anything false c r
      → r.worker ≡ returned
      → r.outgoing_events ≡ []
      → IsTracked (finalized t c o)
  finalized-IsTracked none h e flushed =
      Idle-stopped h.0 Anything false h.1
        (over-OverBy h.0 Anything h.1.order (returned-over r h.1.order e) flushed)
  finalized-IsTracked (some e) h ended_well flushed = fail-Live t c Anything false r e some_r h

  stopped-IsTracked :
      (why : Reason) → Tracked c (stopping why) (some r) → IsTracked (stopped t c why)
  stopped-IsTracked resume h = Idle-stopped h.0 (OverBy h.0) true h.1 h.1.order.reads.kept
  stopped-IsTracked client_close h =
      let (reader, reads) = sent-Accepted h.0 Anything true c r h.1 in
      stopped-Closed t c reader
        (ap (λ o. accept_all newcomer_view (c.past ++ sent_of o)) some_r ∙ reads)
  stopped-IsTracked (failed e) h =
      let (reader, reads) = sent-Accepted h.0 Anything true c r h.1 in
      stopped-Ended t c reader e
        (ap (λ o. accept_all newcomer_view (c.past ++ sent_of o)) some_r ∙ reads)

  pub proceed-IsTracked :
      (handler : Handler)
      → c.handler ≡ handler
      → Tracked c handler (some r)
      → IsTracked (proceed t c r handler)
  proceed-IsTracked finalizing waits h =
      if_case IsTracked (has_ended r.worker)
        (λ _.
          await_worker-IsTracked u t c r.worker r flushing_final some_r h (rw (waits, some_r) h)
            (λ e. (h, e)))
        (λ _. rw (waits, some_r) h)
  proceed-IsTracked flushing_final waits h =
      if_case IsTracked (is_nil r.outgoing_events)
        (λ e. finalized-IsTracked c.sender h.0 h.1 (nil_of r.outgoing_events e))
        (λ _. rw (waits, some_r) h)
  proceed-IsTracked flushing waits h =
      if_case IsTracked (is_nil r.outgoing_events)
        (λ e. flush-IsTracked h (nil_of r.outgoing_events e)) (λ _. rw (waits, some_r) h)
  proceed-IsTracked (stopping why) waits h =
      if_case IsTracked (has_ended r.worker) (λ _. stopped-IsTracked why h)
        (λ _. rw (waits, some_r) h)
  proceed-IsTracked receiving waits h = rw (waits, some_r) h
  proceed-IsTracked ended waits h = rw (waits, some_r) h
