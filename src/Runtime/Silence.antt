-- ===== src/Runtime/Silence.antt =====
-- After a cancel request a stream makes no more transcripts.
use rtc_asr.Prelude.{
  ℕ, ◌≡◌, refl, sym, ap, ◌∙◌, true, false, ◌||◌, Option, none, some, List, [], ◌∷◌, ◌++◌, length,
  append_assoc, append-nil, ◌==◌, Result, ok, err, if_case,
}
use rtc_asr.Text.{Unicode}
use rtc_asr.Session.{StreamSession, StreamError, Transcript, append_audio}
use rtc_asr.Runtime.{
  StreamRuntime, Event, transcript, cancel_warning, pong, TranscriptMessage, Worker, waiting,
  in_partial, in_final, returned, raised, after_final, after_partial, woken,
}
use rtc_asr.Runtime.Schedule.{
  Turn, takes_audio, asks_final, cancels, closes, pings, wakes, sends, decodes, take_chunk, cancel,
  wake, push_done, finalize_done, decode_done, send_next, turn, run,
}
use rtc_asr.Runtime.Reader.{emitted}

abbrev pub transcripts : List Event → List TranscriptMessage
transcripts [] = []
transcripts (transcript m ∷ events) = m ∷ transcripts events
transcripts (cancel_warning w ∷ events) = transcripts events
transcripts (pong ∷ events) = transcripts events

transcripts-append :
    (xs ys : List Event) → transcripts (xs ++ ys) ≡ transcripts xs ++ transcripts ys
transcripts-append [] ys = refl
transcripts-append (transcript m ∷ xs) ys = ap (◌∷◌ m) (transcripts-append xs ys)
transcripts-append (cancel_warning w ∷ xs) ys = transcripts-append xs ys
transcripts-append (pong ∷ xs) ys = transcripts-append xs ys

abbrev Silent : List TranscriptMessage → StreamRuntime → Type 0
Silent before r = (r.cancel_requested ≡ true) × (transcripts (emitted r) ≡ before)

-- One more event, which is no transcript.
other_event :
    (sent queue : List Event) (e : Event)
    → transcripts (e ∷ []) ≡ []
    → transcripts (sent ++ (queue ++ e ∷ [])) ≡ transcripts (sent ++ queue)
other_event sent queue e h =
    ap transcripts (sym (append_assoc sent queue (e ∷ [])))
    ∙ transcripts-append (sent ++ queue) (e ∷ [])
    ∙ ap (λ ms. transcripts (sent ++ queue) ++ ms) h
    ∙ append-nil (transcripts (sent ++ queue))

module _ (u : Unicode) (before : List TranscriptMessage) where
  after_final-Silent :
      (r : StreamRuntime) (n : ℕ) (t : Transcript)
      → Silent before r
      → Silent before (after_final r n t)
  unfolding after_final
  after_final-Silent r n t (canceled, same) =
      if_case (Silent before) (r.cancel_requested || r.closed) (λ _. (canceled, same))
        (λ e. let never : (true || r.closed) ≡ false = rw canceled at e in cc)

  after_partial-Silent :
      (r : StreamRuntime) (c ms n : ℕ) (o : Option Transcript)
      → Silent before r
      → Silent before (after_partial u r c ms n o)
  unfolding after_partial
  after_partial-Silent r c ms n o (canceled, same) =
      if_case (Silent before) (r.cancel_requested || (r.final_emitted || r.closed))
        (λ _. (canceled, same))
        (λ e. let never : (true || (r.final_emitted || r.closed)) ≡ false = rw canceled at e in cc)

  woken-Silent : (r : StreamRuntime) → Silent before r → Silent before (woken u r)
  unfolding woken
  woken-Silent r (canceled, same) =
      if_case (Silent before) r.cancel_requested (λ _. (canceled, same)) (λ e. cc)

  wake-Silent : (r : StreamRuntime) (w : Worker) → Silent before r → Silent before (wake u r w)
  wake-Silent r waiting h =
      if_case (Silent before) r.audio_updated
        (λ _. woken-Silent (record r { audio_updated = false }) h) (λ _. h)
  wake-Silent r w h = h

  decode_done-Silent :
      (r : StreamRuntime) (w : Worker) (result : Result StreamError (Option Transcript))
      → Silent before r
      → Silent before (decode_done u r w result)
  unfolding decode_done
  decode_done-Silent r (in_partial c ms bytes) (ok o) h =
      after_partial-Silent (push_done r bytes) c ms (length bytes) o
        (if_case (Silent before) r.streaming_decoder (λ _. h) (λ _. h))
  decode_done-Silent r (in_partial c ms bytes) (err x) h = h
  decode_done-Silent r (in_final n bytes) (ok (some t)) h =
      let pushed : Silent before (push_done r bytes) =
        if_case (Silent before) r.streaming_decoder (λ _. h) (λ _. h) in
      after_final-Silent (finalize_done r bytes) n t pushed
  decode_done-Silent r (in_final n bytes) (ok none) h =
      let pushed : Silent before (push_done r bytes) =
        if_case (Silent before) r.streaming_decoder (λ _. h) (λ _. h) in
      if_case (Silent before) ((push_done r bytes).cancel_requested || (push_done r bytes).closed)
        (λ _. pushed) (λ _. pushed)
  decode_done-Silent r (in_final n bytes) (err x) h = h
  decode_done-Silent r waiting result h = h
  decode_done-Silent r returned result h = h
  decode_done-Silent r (raised x) result h = h

  take_chunk-Silent :
      (r : StreamRuntime) (m : Result StreamError StreamSession)
      → Silent before r
      → Silent before (take_chunk r m)
  take_chunk-Silent r (ok s) h = h
  take_chunk-Silent r (err e) h = h

  send_next-Silent :
      (r : StreamRuntime) (queue : List Event)
      → r.outgoing_events ≡ queue
      → Silent before r
      → Silent before (send_next r queue)
  send_next-Silent r [] e h = h
  send_next-Silent r (x ∷ rest) e (canceled, same) = (
    canceled,
    ap transcripts (append_assoc r.sent (x ∷ []) rest)
        ∙ ap (λ q. transcripts (r.sent ++ q)) (sym e)
        ∙ same,
  )

  turn-Silent : (r : StreamRuntime) (t : Turn) → Silent before r → Silent before (turn u r t)
  unfolding turn cancel
  turn-Silent r (takes_audio chunk) h = take_chunk-Silent r (append_audio r.session chunk) h
  turn-Silent r asks_final h =
      if_case (Silent before) (length r.session.audio_buffer == 0) (λ _. h) (λ _. h)
  turn-Silent r cancels h = (refl, other_event r.sent r.outgoing_events _ refl ∙ h.1)
  turn-Silent r closes h = h
  turn-Silent r pings h = (h.0, other_event r.sent r.outgoing_events pong refl ∙ h.1)
  turn-Silent r wakes h = wake-Silent r r.worker h
  turn-Silent r sends h = send_next-Silent r r.outgoing_events refl h
  turn-Silent r (decodes result) h = decode_done-Silent r r.worker result h

  run-Silent : (r : StreamRuntime) (ts : List Turn) → Silent before r → Silent before (run u r ts)
  unfolding run
  run-Silent r [] h = h
  run-Silent r (t ∷ ts) h = run-Silent (turn u r t) ts (turn-Silent r t h)

-- A cancel request silences a stream, in whatever state it is and whatever is decoding: under every
-- schedule after it, the transcripts sent or queued are those that were sent or queued before it.
pub transcripts-run_cancel :
    (u : Unicode) (r : StreamRuntime) (ts : List Turn)
    → transcripts (emitted (run u (turn u r cancels) ts)) ≡ transcripts (emitted r)
unfolding turn cancel
transcripts-run_cancel u r ts =
    (run-Silent u (transcripts (emitted r)) (turn u r cancels) ts
      (refl, other_event r.sent r.outgoing_events _ refl)).1
