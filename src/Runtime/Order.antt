-- ===== src/Runtime/Order.antt =====
-- The order of a stream's transcripts, whatever the schedule: revisions, and the final event.
use rtc_asr.Prelude.{
  ℕ, ◌≡◌, refl, sym, ap, ◌∙◌, inl, inr, Bool, true, false, ◌||◌, Option, none, some, List, [], ◌∷◌,
  ◌++◌, length, append_assoc, ◌==◌, arith, Result, ok, err, if_case,
}
use rtc_asr.Text.{Unicode}
use rtc_asr.Session.{StreamSession, StreamError, Transcript, append_audio}
use rtc_asr.Session.Bounds.{append_audio_lem}
use rtc_asr.Runtime.Reader.{read, read_all, read-emit, read_warning, read_pong, emitted}
use rtc_asr.Runtime.{
  request_cancel, close, StreamRuntime, Event, cancel_warning, pong, Worker, waiting, in_partial,
  in_final, returned, raised, enqueue_event,
}
use rtc_asr.Runtime.Schedule.{
  Turn, takes_audio, asks_final, cancels, closes, pings, wakes, sends, decodes, take_chunk, cancel,
  cancel_warning_event, wake, push_done, finalize_done, decode_done, send_next, turn, run, started,
}
use rtc_asr.Runtime.Reading.{
  ReadsAs, IsOrdered, after_final-IsOrdered, Placed, or_right, Placed-over,
}
use rtc_asr.Runtime.Rounds.{after_partial-IsOrdered, woken-IsOrdered}

module _ (k : ℕ) (Q : List Event → Bool → Type 0) (stopped : Bool) where
  abbrev Reads : StreamRuntime → Type 0
  Reads = ReadsAs k Q stopped

  abbrev Ordered : StreamRuntime → Type 0
  Ordered = IsOrdered k Q stopped

  module _ (u : Unicode) where
    pub wake-IsOrdered :
        (r : StreamRuntime) (w : Worker) → Ordered r → r.worker ≡ w → Ordered (wake u r w)
    wake-IsOrdered r waiting h e =
        if_case Ordered r.audio_updated
          (λ _.
            woken-IsOrdered k Q stopped u (record r { audio_updated = false })
              (record { reads = h.reads; placed = h.placed }) e)
          (λ _. h)
    wake-IsOrdered r w h e = h

    push_done-Reads :
        (r : StreamRuntime) (bytes : List ℕ)
        → Reads r
        → r.final_emitted ≡ false
        → Reads (push_done r bytes) × ((push_done r bytes).final_emitted ≡ false)
    push_done-Reads r bytes h fresh =
        if_case (λ (a : StreamRuntime). Reads a × (a.final_emitted ≡ false)) r.streaming_decoder
          (λ _. (h, fresh)) (λ _. (h, fresh))

    pub decode_done-IsOrdered :
        (r : StreamRuntime) (w : Worker) (result : Result StreamError (Option Transcript))
        → Ordered r
        → r.worker ≡ w
        → Ordered (decode_done u r w result)
    unfolding decode_done
    decode_done-IsOrdered r (in_partial c ms bytes) (ok o) h e =
        let fresh : r.final_emitted ≡ false = rw e at h.placed in
        let pushed = push_done-Reads r bytes h.reads fresh in
        after_partial-IsOrdered k Q stopped u (push_done r bytes) c ms (length bytes) o pushed.0
          pushed.1
    decode_done-IsOrdered r (in_partial c ms bytes) (err x) h e = record {
      reads = h.reads;
      placed = tt;
    }
    decode_done-IsOrdered r (in_final n bytes) (ok (some t)) h e =
        let fresh : r.final_emitted ≡ false = rw e at h.placed in
        let pushed = push_done-Reads r bytes h.reads fresh in
        after_final-IsOrdered k Q stopped (finalize_done r bytes) pushed.0 pushed.1 n t
    decode_done-IsOrdered r (in_final n bytes) (ok none) h e =
        let fresh : r.final_emitted ≡ false = rw e at h.placed in
        let pushed = push_done-Reads r bytes h.reads fresh in
        if_case Ordered ((push_done r bytes).cancel_requested || (push_done r bytes).closed)
          (λ over. record { reads = pushed.0; placed = or_right _ _ over })
          (λ _. record { reads = pushed.0; placed = tt })
    decode_done-IsOrdered r (in_final n bytes) (err x) h e = record { reads = h.reads; placed = tt }
    decode_done-IsOrdered r waiting result h e = h
    decode_done-IsOrdered r returned result h e = h
    decode_done-IsOrdered r (raised x) result h e = h

    pub warned-IsOrdered : (r : StreamRuntime) → Q r.sent true → Ordered r → Ordered (cancel r)
    unfolding cancel
    warned-IsOrdered r q h = record {
      reads = record {
        read_so_far =
            read-emit k r.sent r.outgoing_events
              (cancel_warning (cancel_warning_event (request_cancel r).session)) _ _
              h.reads.read_so_far
              (read_warning k r.session.transcript_revision r.final_emitted r.cancel_requested
                (cancel_warning_event (request_cancel r).session) h.reads.numbered);
        numbered = h.reads.numbered;
        shut = h.reads.shut;
        kept = q;
      };
      placed = Placed-over r.worker r.final_emitted _ true refl h.placed;
    }

    pub pinged-IsOrdered : (r : StreamRuntime) → Ordered r → Ordered (enqueue_event r pong)
    pinged-IsOrdered r h = record {
      reads = record {
        read_so_far =
            read-emit k r.sent r.outgoing_events pong _ _ h.reads.read_so_far
              (read_pong k r.session.transcript_revision r.final_emitted r.cancel_requested);
        numbered = h.reads.numbered;
        shut = h.reads.shut;
        kept = h.reads.kept;
      };
      placed = h.placed;
    }

    pub send_next-IsOrdered :
        (r : StreamRuntime) (queue : List Event)
        → r.outgoing_events ≡ queue
        → Q (send_next r queue).sent r.cancel_requested
        → Ordered r
        → Ordered (send_next r queue)
    send_next-IsOrdered r [] e q h = h
    send_next-IsOrdered r (x ∷ rest) e q h = record {
      reads = record {
        read_so_far =
            ap (read_all (some (read k 0 false false))) (append_assoc r.sent (x ∷ []) rest)
            ∙ ap (λ es. read_all (some (read k 0 false false)) (r.sent ++ es)) (sym e)
            ∙ h.reads.read_so_far;
        numbered = h.reads.numbered;
        shut = h.reads.shut;
        kept = q;
      };
      placed = h.placed;
    }

  pub closed-IsOrdered : (r : StreamRuntime) → Ordered r → IsOrdered k Q true (close r)
  closed-IsOrdered r h = record {
    reads = record {
      read_so_far = h.reads.read_so_far;
      numbered = h.reads.numbered;
      shut = inl refl;
      kept = h.reads.kept;
    };
    placed =
        Placed-over r.worker r.final_emitted _ _ (or_right r.cancel_requested true refl) h.placed;
  }

abbrev pub Anything : List Event → Bool → Type 0
Anything events canceled = Unit {0}

module _ (u : Unicode) (k : ℕ) where
  take_chunk-IsOrdered :
      (r : StreamRuntime) (chunk : List ℕ)
      → IsOrdered k Anything true r
      → IsOrdered k Anything true (take_chunk r (append_audio r.session chunk))
  take_chunk-IsOrdered r chunk h = elim (append_audio_lem r.session chunk) [
    | inl (fits, taken) ↦ rw taken (record { reads = h.reads; placed = h.placed })
    | inr (over, refused) ↦ rw refused (closed-IsOrdered k Anything true r h)
  ]

  turn-IsOrdered :
      (r : StreamRuntime) (t : Turn)
      → IsOrdered k Anything true r
      → IsOrdered k Anything true (turn u r t)
  unfolding turn
  turn-IsOrdered r (takes_audio chunk) h = take_chunk-IsOrdered r chunk h
  turn-IsOrdered r asks_final h =
      if_case (IsOrdered k Anything true) (length r.session.audio_buffer == 0)
        (λ _. closed-IsOrdered k Anything true r h)
        (λ _. record { reads = h.reads; placed = h.placed })
  turn-IsOrdered r cancels h = warned-IsOrdered k Anything true u r tt h
  turn-IsOrdered r closes h = closed-IsOrdered k Anything true r h
  turn-IsOrdered r pings h = pinged-IsOrdered k Anything true u r h
  turn-IsOrdered r wakes h = wake-IsOrdered k Anything true u r r.worker h refl
  turn-IsOrdered r sends h = send_next-IsOrdered k Anything true u r r.outgoing_events refl tt h
  turn-IsOrdered r (decodes result) h =
      decode_done-IsOrdered k Anything true u r r.worker result h refl

  run-IsOrdered :
      (r : StreamRuntime) (ts : List Turn)
      → IsOrdered k Anything true r
      → IsOrdered k Anything true (run u r ts)
  unfolding run
  run-IsOrdered r [] h = h
  run-IsOrdered r (t ∷ ts) h = run-IsOrdered (turn u r t) ts (turn-IsOrdered r t h)

-- Another property of what has been sent.
pub also-IsOrdered :
    {k : ℕ} {Q Q' : List Event → Bool → Type 0} {stopped : Bool} (r : StreamRuntime)
    → Q' r.sent r.cancel_requested
    → IsOrdered k Q stopped r
    → IsOrdered k Q' stopped r
also-IsOrdered r q h = record {
  reads = record {
    read_so_far = h.reads.read_so_far;
    numbered = h.reads.numbered;
    shut = h.reads.shut;
    kept = q;
  };
  placed = h.placed;
}

-- A stream whose worker has returned, and that was not stopped, has its final transcript or was canceled.
pub returned-over :
    {k : ℕ} {Q : List Event → Bool → Type 0} (r : StreamRuntime)
    → IsOrdered k Q false r
    → r.worker ≡ returned
    → (r.final_emitted || r.cancel_requested) ≡ true
returned-over r h e =
    let over : Placed returned r.final_emitted (r.cancel_requested || r.closed) =
      rw e at h.placed in
    elim h.reads.shut [
      | inl never ↦ cc
      | inr same ↦ without_closed r.final_emitted r.cancel_requested r.closed same over
    ]
  where
    without_closed : (f c d : Bool) → d ≡ f → (f || (c || d)) ≡ true → (f || c) ≡ true
    without_closed f c d same h = ground arith

pub started-IsOrdered :
    (stopped : Bool) (s : StreamSession) (stateful : Bool)
    → s.transcript_revision ≡ 0
    → IsOrdered s.stream_id Anything stopped (started s stateful)
started-IsOrdered stopped s stateful new = record {
  reads = record {
    read_so_far = ap (λ m. some (read s.stream_id m false false)) (sym new);
    numbered = refl;
    shut = inr refl;
    kept = tt;
  };
  placed = refl;
}

-- Under every schedule the transcripts of a new stream, sent or queued, carry its number and the
-- revisions 1, 2, 3 and so on without a gap, at most one of them is final, and none follows it or the
-- warning of a cancel.
pub run-reads :
    (u : Unicode) (s : StreamSession) (stateful : Bool) (ts : List Turn)
    → s.transcript_revision ≡ 0
    → let r = run u (started s stateful) ts in
      read_all (some (read s.stream_id 0 false false)) (emitted r)
      ≡ some (read s.stream_id r.session.transcript_revision r.final_emitted r.cancel_requested)
run-reads u s stateful ts new =
    (run-IsOrdered u s.stream_id (started s stateful) ts
      (started-IsOrdered true s stateful new)).reads.read_so_far
