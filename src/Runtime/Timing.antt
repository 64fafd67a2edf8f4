-- ===== src/Runtime/Timing.antt =====
-- What the transcripts of a stream say of time: `validate_timing` of src/protocols/local_stt_v1.py holds
-- of every one.
use rtc_asr.Prelude.{
  ℕ, ◌+◌, ◌≤◌, ◌<◌, ◌≡◌, refl, ◌⊎◌, inl, inr, Bool, true, false, not, ltb, ◌&&◌, ◌||◌, Option, none,
  some, List, [], ◌∷◌, ◌++◌, length, length-append, length-drop, ◌==◌, arith, Result, ok, err,
  if_case, All,
}
use rtc_asr.Text.{Unicode, is_empty}
use rtc_asr.Session.{
  StreamSession, StreamError, Transcript, append_audio, record_partial, record_transcript_stability,
  note_text, same_text, normalize_stability_text, next_transcript_revision,
  should_finalize_stable_partial, last_partial_if_reusable, partial_covers_full_buffer,
  audio_received_ms,
}
use rtc_asr.Session.Bounds.{
  append_audio_lem, audio_bytes_to_duration_ms_mono, length-partial_audio_bytes,
}
use rtc_asr.Runtime.{
  StreamRuntime, TranscriptMessage, Event, transcript, pong, Worker, waiting, in_partial, in_final,
  returned, raised, enqueue_transcript, transcript_event, after_final, reuse_or_decode, begin_final,
  use_partial, publish, after_partial, push_or_skip, begin_partial, woken, text_of, nothing_to_do,
  decode_over, unpushed, rearm, count_partial,
}
use rtc_asr.Runtime.Schedule.{
  Turn, takes_audio, asks_final, cancels, closes, pings, wakes, sends, decodes, no_answer,
  take_chunk, cancel, wake, decode_done, send_next, turn, run, started,
}
use rtc_asr.Runtime.Reader.{emitted}

-- `validate_timing`: no more transcribed than received audio, and a positive revision of a final transcript.
abbrev pub validate_timing : TranscriptMessage → Bool
validate_timing m =
    not (ltb m.audio_received_ms m.audio_transcribed_ms) && not (m.is_final && ltb m.revision 1)

-- The validator accepts a transcript.
abbrev pub IsTimely : Event → Type 0
IsTimely (transcript m) = validate_timing m ≡ true
IsTimely e = Unit {0}

-- The bytes of the buffer that a running decode stands for.
abbrev held : Worker → ℕ
held (in_partial c ms bytes) = length bytes
held (in_final n bytes) = n
held w = 0

-- They are still in the buffer, unless the stream is canceled.
abbrev Holds : StreamRuntime → Type 0
Holds r = (r.cancel_requested ≡ true) ⊎ (held r.worker ≤ length r.session.audio_buffer)

abbrev Timely : StreamRuntime → Type 0
Timely r = All IsTimely (emitted r)

record IsTimed (r : StreamRuntime) : Type 0 where
  timely : Timely r
  holds : Holds r

All-append : (xs ys : List Event) → All IsTimely xs → All IsTimely ys → All IsTimely (xs ++ ys)
All-append [] ys h g = g
All-append (x ∷ xs) ys (h, hs) g = (h, All-append xs ys hs g)

All-front : (xs ys : List Event) → All IsTimely (xs ++ ys) → All IsTimely xs
All-front [] ys h = tt
All-front (x ∷ xs) ys (h, hs) = (h, All-front xs ys hs)

All-back : (xs ys : List Event) → All IsTimely (xs ++ ys) → All IsTimely ys
All-back [] ys h = h
All-back (x ∷ xs) ys (h, hs) = All-back xs ys hs

-- One more event in the queue.
All-emit :
    (sent queue : List Event) (e : Event)
    → All IsTimely (sent ++ queue)
    → IsTimely e
    → All IsTimely (sent ++ (queue ++ e ∷ []))
All-emit sent queue e h g =
    All-append sent (queue ++ e ∷ []) (All-front sent queue h)
      (All-append queue (e ∷ []) (All-back sent queue h) (g, tt))

transcript_event-IsTimely :
    (s : StreamSession) (t : Transcript) (is_final : Bool) (n : ℕ)
    → n ≤ length s.audio_buffer
    → 0 < s.transcript_revision
    → IsTimely (transcript (transcript_event s t is_final n))
unfolding transcript_event audio_received_ms
transcript_event-IsTimely s t is_final n h positive =
    let mono = audio_bytes_to_duration_ms_mono n (length s.audio_buffer) s.sample_rate h in
    ground (arith, mono)

enqueue_transcript-Timely :
    (r : StreamRuntime) (t : Transcript) (is_final : Bool) (n : ℕ)
    → Timely r
    → n ≤ length r.session.audio_buffer
    → Timely (enqueue_transcript r t is_final n)
unfolding next_transcript_revision
enqueue_transcript-Timely r t is_final n h fits =
    All-emit r.sent r.outgoing_events _ h (
      transcript_event-IsTimely (next_transcript_revision r.session) t is_final n fits
        (omega arith))

none_held : (b : Bool) (size : ℕ) → (b ≡ true) ⊎ (0 ≤ size)
none_held b size = inr (omega arith)

still_held : (b : Bool) (n size : ℕ) → (b ≡ true) ⊎ (n ≤ size) → b ≡ false → n ≤ size
still_held b n size h e = ground arith

rearm-IsTimed : (r : StreamRuntime) → IsTimed r → IsTimed (rearm r)
rearm-IsTimed r h =
    if_case IsTimed r.dirty (λ _. record { timely = h.timely; holds = h.holds }) (λ _. h)

after_final-IsTimed :
    (r : StreamRuntime) (n : ℕ) (t : Transcript)
    → Timely r
    → (r.cancel_requested ≡ true) ⊎ (n ≤ length r.session.audio_buffer)
    → IsTimed (after_final r n t)
unfolding after_final next_transcript_revision
after_final-IsTimed r n t h fits =
    if_case IsTimed (r.cancel_requested || r.closed)
      (λ _. record { timely = h; holds = inr (omega arith) })
      (λ e. record {
        timely =
            enqueue_transcript-Timely r t true n h
              (still_held r.cancel_requested n _ fits (ground arith));
        holds = inr (omega arith);
      })

no_answer-IsTimed : (r : StreamRuntime) → Timely r → IsTimed (no_answer r)
no_answer-IsTimed r h =
    if_case IsTimed (r.cancel_requested || r.closed)
      (λ _. record { timely = h; holds = inr (omega arith) })
      (λ _. record { timely = h; holds = inr (omega arith) })

begin_final-IsTimed : (r : StreamRuntime) → Timely r → IsTimed (begin_final r)
unfolding begin_final
begin_final-IsTimed r h =
    if_case IsTimed r.streaming_decoder (λ _. record { timely = h; holds = inr (omega arith) })
      (λ _. reused (last_partial_if_reusable r.session))
  where
    reused : (o : Option Transcript) → IsTimed (reuse_or_decode r o)
    reused none = record { timely = h; holds = inr (omega arith) }
    reused (some t) = after_final-IsTimed r (length r.session.audio_buffer) t h (inr (omega arith))

module _ (u : Unicode) where
  publish-IsTimed :
      (r : StreamRuntime) (t : Transcript) (n : ℕ)
      → Timely r
      → r.worker ≡ waiting
      → n ≤ length r.session.audio_buffer
      → IsTimed (publish r t n)
  unfolding next_transcript_revision
  publish-IsTimed r t n h waits fits =
      let is_final = should_finalize_stable_partial r.session in
      let timely = enqueue_transcript-Timely r t is_final n h fits in
      let idle : held r.worker ≤ length r.session.audio_buffer = rw waits (omega arith) in
      if_case IsTimed (is_empty (text_of t))
        (λ _. rearm-IsTimed r (record { timely = h; holds = inr idle }))
        (λ _.
          if_case IsTimed is_final (λ e. record { timely = timely; holds = inr (omega arith) })
            (λ e.
              rearm-IsTimed (enqueue_transcript r t is_final n)
                (record { timely = timely; holds = inr idle })))

  note_text-buffer :
      (s : StreamSession) (o : Option (List ℕ)) → (note_text s o).audio_buffer ≡ s.audio_buffer
  note_text-buffer s none = refl
  note_text-buffer s (some x) =
      if_case (λ (a : StreamSession). a.audio_buffer ≡ s.audio_buffer)
        (same_text s.stable_partial_text x) (λ _. refl) (λ _. refl)

  recorded-buffer :
      (s : StreamSession) (t : Transcript) (c ms : Option ℕ)
      → (record_transcript_stability u (record_partial s t c ms) t).audio_buffer ≡ s.audio_buffer
  unfolding record_transcript_stability record_partial
  recorded-buffer s t c ms =
      note_text-buffer (record_partial s t c ms) (normalize_stability_text u t.text)

  use_partial-IsTimed :
      (r : StreamRuntime) (c ms n : ℕ) (o : Option Transcript)
      → Timely r
      → r.worker ≡ waiting
      → n ≤ length r.session.audio_buffer
      → IsTimed (use_partial u r c ms n o)
  unfolding record_partial
  use_partial-IsTimed r c ms n none h e fits =
      rearm-IsTimed (count_partial r c ms) (record { timely = h; holds = inr (rw e (omega arith)) })
  use_partial-IsTimed r c ms n (some t) h e fits =
      let s = record_transcript_stability u (record_partial r.session t (some c) (some ms)) t in
      let idle : held r.worker ≤ length r.session.audio_buffer = rw e (omega arith) in
      if_case IsTimed r.finalize_requested
        (λ _.
          if_case (λ (a : StreamRuntime). IsTimed (record a { audio_updated = true }))
            ((c == r.session.chunks_received) && partial_covers_full_buffer r.session)
            (λ _. record { timely = h; holds = inr idle })
            (λ _. record { timely = h; holds = inr idle }))
        (λ _.
          publish-IsTimed (record r { session = s }) t n h e
            (rw (recorded-buffer r.session t (some c) (some ms)) fits))

  after_partial-IsTimed :
      (r : StreamRuntime) (c ms n : ℕ) (o : Option Transcript)
      → Timely r
      → (r.cancel_requested ≡ true) ⊎ (n ≤ length r.session.audio_buffer)
      → IsTimed (after_partial u r c ms n o)
  unfolding after_partial
  after_partial-IsTimed r c ms n o h fits =
      if_case IsTimed (r.cancel_requested || (r.final_emitted || r.closed))
        (λ _. record { timely = h; holds = inr (omega arith) })
        (λ e.
          use_partial-IsTimed (decode_over r) c ms n o h refl
            (still_held r.cancel_requested n _ fits (ground arith)))

  push_or_skip-IsTimed :
      (r : StreamRuntime) (bytes : List ℕ)
      → Timely r
      → length bytes ≤ length r.session.audio_buffer
      → IsTimed (push_or_skip u r bytes)
  push_or_skip-IsTimed r [] h fits =
      after_partial-IsTimed (record r { dirty = false }) _ _ 0 none h (inr fits)
  push_or_skip-IsTimed r (b ∷ bytes) h fits = record { timely = h; holds = inr fits }

  woken-IsTimed : (r : StreamRuntime) → IsTimed r → IsTimed (woken u r)
  unfolding woken begin_partial
  woken-IsTimed r h =
      if_case IsTimed r.cancel_requested
        (λ _. record { timely = h.timely; holds = inr (omega arith) })
        (λ _.
          if_case IsTimed (r.final_emitted || r.closed)
            (λ _. record { timely = h.timely; holds = inr (omega arith) })
            (λ _.
              if_case IsTimed r.finalize_requested (λ _. begin_final-IsTimed r h.timely)
                (λ _.
                  if_case IsTimed (nothing_to_do r)
                    (λ _. record { timely = h.timely; holds = h.holds })
                    (λ _.
                      if_case IsTimed r.streaming_decoder
                        (λ _. push_or_skip-IsTimed r (unpushed r) h.timely (
                          omega
                            (arith, length-drop r.streaming_decode_offset r.session.audio_buffer)))
                        (λ _. record {
                          timely = h.timely;
                          holds = inr (length-partial_audio_bytes r.session);
                        })))))

  wake-IsTimed : (r : StreamRuntime) (w : Worker) → IsTimed r → IsTimed (wake u r w)
  wake-IsTimed r waiting h =
      if_case IsTimed r.audio_updated
        (λ _.
          woken-IsTimed (record r { audio_updated = false })
            (record { timely = h.timely; holds = h.holds }))
        (λ _. h)
  wake-IsTimed r w h = h

  decode_done-IsTimed :
      (r : StreamRuntime) (w : Worker) (result : Result StreamError (Option Transcript))
      → IsTimed r
      → r.worker ≡ w
      → IsTimed (decode_done u r w result)
  unfolding decode_done
  decode_done-IsTimed r (in_partial c ms bytes) (ok o) h e =
      let fits : (r.cancel_requested ≡ true) ⊎ (length bytes ≤ length r.session.audio_buffer) =
        rw e at h.holds in
      if_case (λ (a : StreamRuntime). IsTimed (after_partial u a c ms (length bytes) o))
        r.streaming_decoder (λ _. after_partial-IsTimed _ c ms (length bytes) o h.timely fits)
        (λ _. after_partial-IsTimed _ c ms (length bytes) o h.timely fits)
  decode_done-IsTimed r (in_partial c ms bytes) (err x) h e = record {
    timely = h.timely;
    holds = inr (omega arith);
  }
  decode_done-IsTimed r (in_final n bytes) (ok (some t)) h e =
      let fits : (r.cancel_requested ≡ true) ⊎ (n ≤ length r.session.audio_buffer) =
        rw e at h.holds in
      if_case
        (λ (a : StreamRuntime). IsTimed (after_final (record a { streaming_decoder = false }) n t))
        r.streaming_decoder (λ _. after_final-IsTimed _ n t h.timely fits)
        (λ _. after_final-IsTimed _ n t h.timely fits)
  decode_done-IsTimed r (in_final n bytes) (ok none) h e =
      if_case (λ (a : StreamRuntime). IsTimed (no_answer (record a { streaming_decoder = false })))
        r.streaming_decoder
        (λ _.
          no_answer-IsTimed
            (record r {
              pushed = r.pushed ++ bytes;
              streaming_decode_offset = r.streaming_decode_offset + length bytes;
              streaming_decoder = false;
            })
            h.timely)
        (λ _. no_answer-IsTimed (record r { streaming_decoder = false }) h.timely)
  decode_done-IsTimed r (in_final n bytes) (err x) h e = record {
    timely = h.timely;
    holds = inr (omega arith);
  }
  decode_done-IsTimed r waiting result h e = h
  decode_done-IsTimed r returned result h e = h
  decode_done-IsTimed r (raised x) result h e = h

  longer :
      (r : StreamRuntime) (m : ℕ)
      → Holds r
      → length r.session.audio_buffer ≤ m
      → (r.cancel_requested ≡ true) ⊎ (held r.worker ≤ m)
  longer r m (inl canceled) h = inl canceled
  longer r m (inr fits) h = inr (omega arith)

  take_chunk-IsTimed :
      (r : StreamRuntime) (chunk : List ℕ)
      → IsTimed r
      → IsTimed (take_chunk r (append_audio r.session chunk))
  take_chunk-IsTimed r chunk h = elim (append_audio_lem r.session chunk) [
    | inl (fits, taken) ↦ rw taken (record {
      timely = h.timely;
      holds = longer r _ h.holds (omega (arith, length-append r.session.audio_buffer chunk));
    })
    | inr (over, refused) ↦ rw refused (record { timely = h.timely; holds = h.holds })
  ]

  send_next-IsTimed :
      (r : StreamRuntime) (queue : List Event)
      → r.outgoing_events ≡ queue
      → IsTimed r
      → IsTimed (send_next r queue)
  send_next-IsTimed r [] e h = h
  send_next-IsTimed r (x ∷ rest) e h = record {
    timely =
        let all : All IsTimely (r.sent ++ x ∷ rest) = rw e at h.timely in
        let back = All-back r.sent (x ∷ rest) all in
        All-append (r.sent ++ x ∷ []) rest
          (All-append r.sent (x ∷ []) (All-front r.sent (x ∷ rest) all) (back.0, tt)) back.1;
    holds = h.holds;
  }

  turn-IsTimed : (r : StreamRuntime) (t : Turn) → IsTimed r → IsTimed (turn u r t)
  unfolding turn cancel
  turn-IsTimed r (takes_audio chunk) h = take_chunk-IsTimed r chunk h
  turn-IsTimed r asks_final h =
      if_case IsTimed (length r.session.audio_buffer == 0)
        (λ _. record { timely = h.timely; holds = h.holds })
        (λ _. record { timely = h.timely; holds = h.holds })
  turn-IsTimed r cancels h = record {
    timely = All-emit r.sent r.outgoing_events _ h.timely tt;
    holds = inl refl;
  }
  turn-IsTimed r closes h = record { timely = h.timely; holds = h.holds }
  turn-IsTimed r pings h = record {
    timely = All-emit r.sent r.outgoing_events pong h.timely tt;
    holds = h.holds;
  }
  turn-IsTimed r wakes h = wake-IsTimed r r.worker h
  turn-IsTimed r sends h = send_next-IsTimed r r.outgoing_events refl h
  turn-IsTimed r (decodes result) h = decode_done-IsTimed r r.worker result h refl

  run-IsTimed : (r : StreamRuntime) (ts : List Turn) → IsTimed r → IsTimed (run u r ts)
  unfolding run
  run-IsTimed r [] h = h
  run-IsTimed r (t ∷ ts) h = run-IsTimed (turn u r t) ts (turn-IsTimed r t h)

  -- Under every schedule of a new stream, `validate_timing` accepts every transcript: none claims more
  -- transcribed than received audio, and a final one has a positive revision.
  pub run-IsTimely :
      (s : StreamSession) (stateful : Bool) (ts : List Turn)
      → All IsTimely (emitted (run u (started s stateful) ts))
  run-IsTimely s stateful ts =
      (run-IsTimed (started s stateful) ts
        (record { timely = tt; holds = inr (omega arith) })).timely
