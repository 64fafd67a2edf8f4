-- ===== src/Runtime/Progress.antt =====
-- The worker of a stream is never left asleep, and a finalize request brings it to its end.
use rtc_asr.Prelude.{
  ℕ, ◌≡◌, refl, sym, ap, Bool, true, false, ◌&&◌, ◌||◌, Option, none, some, List, [], ◌∷◌, length,
  ◌==◌, if◌then◌else◌, arith, Result, ok, err, if_case,
}
use rtc_asr.Text.{Unicode, is_empty}
use rtc_asr.Session.{
  StreamSession, StreamError, Transcript, append_audio, record_partial, record_transcript_stability,
  should_finalize_stable_partial, last_partial_if_reusable, partial_covers_full_buffer,
}
use rtc_asr.Runtime.{
  StreamRuntime, Worker, waiting, in_partial, in_final, returned, raised, enqueue_transcript,
  after_final, reuse_or_decode, begin_final, use_partial, publish, keep_partial, after_partial,
  push_or_skip, begin_partial, woken, text_of, nothing_to_do, decode_over, unpushed, rearm,
  count_partial,
}
use rtc_asr.Runtime.Schedule.{
  Turn, takes_audio, asks_final, cancels, closes, pings, wakes, sends, decodes, take_chunk, cancel,
  wake, push_done, finalize_done, decode_done, send_next, turn, run, started,
}

-- The worker has something to see that `audio_updated` does not say.
abbrev pub is_missed : StreamRuntime → Bool
is_missed r =
    if r.audio_updated then false else (r.finalize_requested || (r.cancel_requested || r.closed))

abbrev pub Alert : Worker → Bool → Type 0
Alert waiting missed = missed ≡ false
Alert (in_partial c ms bytes) missed = missed ≡ false
Alert w missed = Unit {0}

abbrev IsAlert : StreamRuntime → Type 0
IsAlert r = Alert r.worker (is_missed r)

awake : (w : Worker) → Alert w false
awake waiting = refl
awake (in_partial c ms bytes) = refl
awake (in_final n bytes) = tt
awake returned = tt
awake (raised e) = tt

quiet : (f c g d : Bool) → c ≡ false → (g || d) ≡ false → f ≡ false → (f || (c || d)) ≡ false
quiet f c g d hc hd hf = ground arith

rearm-IsAlert : (r : StreamRuntime) → IsAlert r → IsAlert (rearm r)
rearm-IsAlert r h = if_case IsAlert r.dirty (λ _. awake r.worker) (λ _. h)

module _ (u : Unicode) where
  publish-IsAlert :
      (r : StreamRuntime) (t : Transcript) (n : ℕ) → IsAlert r → IsAlert (publish r t n)
  publish-IsAlert r t n h =
      let is_final = should_finalize_stable_partial r.session in
      if_case IsAlert (is_empty (text_of t)) (λ _. rearm-IsAlert r h)
        (λ _.
          if_case IsAlert is_final (λ _. tt)
            (λ _. rearm-IsAlert (enqueue_transcript r t is_final n) h))

  use_partial-IsAlert :
      (r : StreamRuntime) (c ms n : ℕ) (o : Option Transcript)
      → IsAlert r
      → r.worker ≡ waiting
      → IsAlert (use_partial u r c ms n o)
  use_partial-IsAlert r c ms n none h e = rearm-IsAlert (count_partial r c ms) h
  use_partial-IsAlert r c ms n (some t) h e =
      if_case IsAlert r.finalize_requested (λ _. awake (keep_partial r t c ms).worker)
        (λ _.
          publish-IsAlert
            (record r {
              session =
                  record_transcript_stability u (record_partial r.session t (some c) (some ms)) t;
            })
            t n h)

  after_partial-IsAlert :
      (r : StreamRuntime) (c ms n : ℕ) (o : Option Transcript)
      → is_missed r ≡ false
      → IsAlert (after_partial u r c ms n o)
  unfolding after_partial
  after_partial-IsAlert r c ms n o h =
      if_case IsAlert (r.cancel_requested || (r.final_emitted || r.closed)) (λ _. tt)
        (λ _. use_partial-IsAlert (decode_over r) c ms n o h refl)

  push_or_skip-IsAlert :
      (r : StreamRuntime) (bytes : List ℕ) → is_missed r ≡ false → IsAlert (push_or_skip u r bytes)
  push_or_skip-IsAlert r [] h = after_partial-IsAlert (record r { dirty = false }) _ _ 0 none h
  push_or_skip-IsAlert r (b ∷ bytes) h = h

  after_final-IsAlert : (r : StreamRuntime) (n : ℕ) (t : Transcript) → IsAlert (after_final r n t)
  unfolding after_final
  after_final-IsAlert r n t = if_case IsAlert (r.cancel_requested || r.closed) (λ _. tt) (λ _. tt)

  reuse_or_decode-IsAlert :
      (r : StreamRuntime) (o : Option Transcript) → IsAlert (reuse_or_decode r o)
  reuse_or_decode-IsAlert r none = tt
  reuse_or_decode-IsAlert r (some t) = after_final-IsAlert r (length r.session.audio_buffer) t

  begin_final-IsAlert : (r : StreamRuntime) → IsAlert (begin_final r)
  unfolding begin_final
  begin_final-IsAlert r =
      if_case IsAlert r.streaming_decoder (λ _. tt)
        (λ _. reuse_or_decode-IsAlert r (last_partial_if_reusable r.session))

  -- The event has just been cleared.
  woken-IsAlert : (r : StreamRuntime) → r.audio_updated ≡ false → IsAlert (woken u r)
  unfolding woken begin_partial
  woken-IsAlert r cleared =
      if_case IsAlert r.cancel_requested (λ _. tt)
        (λ nc.
          if_case IsAlert (r.final_emitted || r.closed) (λ _. tt)
            (λ nd.
              if_case IsAlert r.finalize_requested (λ _. begin_final-IsAlert r)
                (λ nf.
                  let missed : is_missed r ≡ false = rw cleared (
                    quiet r.finalize_requested r.cancel_requested r.final_emitted r.closed nc nd
                      nf) in
                  if_case IsAlert (nothing_to_do r) (λ _. missed_alert r.worker missed)
                    (λ _.
                      if_case IsAlert r.streaming_decoder
                        (λ _. push_or_skip-IsAlert r (unpushed r) missed) (λ _. missed)))))
    where
      missed_alert : {b : Bool} (w : Worker) → b ≡ false → Alert w b
      missed_alert waiting h = h
      missed_alert (in_partial c ms bytes) h = h
      missed_alert (in_final n bytes) h = tt
      missed_alert returned h = tt
      missed_alert (raised e) h = tt

  wake-IsAlert : (r : StreamRuntime) (w : Worker) → IsAlert r → IsAlert (wake u r w)
  wake-IsAlert r waiting h =
      if_case IsAlert r.audio_updated (λ _. woken-IsAlert (record r { audio_updated = false }) refl)
        (λ _. h)
  wake-IsAlert r w h = h

  push_done-missed :
      (r : StreamRuntime) (bytes : List ℕ)
      → is_missed r ≡ false
      → is_missed (push_done r bytes) ≡ false
  push_done-missed r bytes h =
      if_case (λ (a : StreamRuntime). is_missed a ≡ false) r.streaming_decoder (λ _. h) (λ _. h)

  decode_done-IsAlert :
      (r : StreamRuntime) (w : Worker) (result : Result StreamError (Option Transcript))
      → IsAlert r
      → r.worker ≡ w
      → IsAlert (decode_done u r w result)
  unfolding decode_done
  decode_done-IsAlert r (in_partial c ms bytes) (ok o) h e =
      let missed : is_missed r ≡ false = rw e at h in
      after_partial-IsAlert (push_done r bytes) c ms (length bytes) o
        (push_done-missed r bytes missed)
  decode_done-IsAlert r (in_partial c ms bytes) (err x) h e = tt
  decode_done-IsAlert r (in_final n bytes) (ok (some t)) h e =
      after_final-IsAlert (finalize_done r bytes) n t
  decode_done-IsAlert r (in_final n bytes) (ok none) h e =
      if_case IsAlert ((push_done r bytes).cancel_requested || (push_done r bytes).closed) (λ _. tt)
        (λ _. tt)
  decode_done-IsAlert r (in_final n bytes) (err x) h e = tt
  decode_done-IsAlert r waiting result h e = h
  decode_done-IsAlert r returned result h e = h
  decode_done-IsAlert r (raised x) result h e = h

  take_chunk-IsAlert :
      (r : StreamRuntime) (result : Result StreamError StreamSession)
      → IsAlert (take_chunk r result)
  take_chunk-IsAlert r (ok s) = awake r.worker
  take_chunk-IsAlert r (err x) = awake r.worker

  send_next-IsAlert : (r : StreamRuntime) (queue : _) → IsAlert r → IsAlert (send_next r queue)
  send_next-IsAlert r [] h = h
  send_next-IsAlert r (x ∷ rest) h = h

  turn-IsAlert : (r : StreamRuntime) (t : Turn) → IsAlert r → IsAlert (turn u r t)
  unfolding turn cancel
  turn-IsAlert r (takes_audio chunk) h = take_chunk-IsAlert r (append_audio r.session chunk)
  turn-IsAlert r asks_final h =
      if_case IsAlert (length r.session.audio_buffer == 0) (λ _. awake r.worker)
        (λ _. awake r.worker)
  turn-IsAlert r cancels h = awake r.worker
  turn-IsAlert r closes h = awake r.worker
  turn-IsAlert r pings h = h
  turn-IsAlert r wakes h = wake-IsAlert r r.worker h
  turn-IsAlert r sends h = send_next-IsAlert r r.outgoing_events h
  turn-IsAlert r (decodes result) h = decode_done-IsAlert r r.worker result h refl

  run-IsAlert : (r : StreamRuntime) (ts : List Turn) → IsAlert r → IsAlert (run u r ts)
  unfolding run
  run-IsAlert r [] h = h
  run-IsAlert r (t ∷ ts) h = run-IsAlert (turn u r t) ts (turn-IsAlert r t h)

  -- No wakeup is lost: under every schedule of a new stream, while the worker waits or decodes a partial,
  -- a finalize or cancel request or a close that it has not seen has left `audio_updated` set.
  pub run-Alert :
      (s : StreamSession) (stateful : Bool) (ts : List Turn)
      → let r = run u (started s stateful) ts in Alert r.worker (is_missed r)
  run-Alert s stateful ts = run-IsAlert (started s stateful) ts refl

abbrev pub has_ended : Worker → Bool
has_ended returned = true
has_ended (raised e) = true
has_ended w = false

-- The worker is in its last decode or at its end.
abbrev is_late : Worker → Bool
is_late waiting = false
is_late (in_partial c ms bytes) = false
is_late w = true

-- The worker is late, or about to see a finalize request.
abbrev Ready : Worker → StreamRuntime → Type 0
Ready waiting r = (r.finalize_requested ≡ true) × (r.audio_updated ≡ true)
Ready (in_partial c ms bytes) r = true ≡ false
Ready w r = Unit {0}

has_set : (b f other : Bool) → (if b then false else (f || other)) ≡ false → f ≡ true → b ≡ true
has_set true f other h asked = refl
has_set false true other h asked = sym h
has_set false false other h asked = asked

module _ (u : Unicode) where
  late_ends :
      (r : StreamRuntime) (w : Worker) (t : Transcript)
      → r.worker ≡ w
      → is_late w ≡ true
      → has_ended (decode_done u r w (ok (some t))).worker ≡ true
  unfolding decode_done after_final
  late_ends r (in_final n bytes) t e late =
      if_case (λ (a : StreamRuntime). has_ended a.worker ≡ true)
        ((finalize_done r bytes).cancel_requested || (finalize_done r bytes).closed) (λ _. refl)
        (λ _. refl)
  late_ends r returned t e late = ap has_ended e
  late_ends r (raised x) t e late = ap has_ended e
  late_ends r waiting t e late = cc
  late_ends r (in_partial c ms bytes) t e late = cc

  abbrev EndsLate : StreamRuntime → Type 0
  EndsLate r = is_late r.worker ≡ true

  after_final_late : (r : StreamRuntime) (n : ℕ) (t : Transcript) → EndsLate (after_final r n t)
  unfolding after_final
  after_final_late r n t = if_case EndsLate (r.cancel_requested || r.closed) (λ _. refl) (λ _. refl)

  begin_final_late : (r : StreamRuntime) → EndsLate (begin_final r)
  unfolding begin_final
  begin_final_late r =
      if_case EndsLate r.streaming_decoder (λ _. refl)
        (λ _. reused (last_partial_if_reusable r.session))
    where
      reused : (o : Option Transcript) → EndsLate (reuse_or_decode r o)
      reused none = refl
      reused (some t) = after_final_late r (length r.session.audio_buffer) t

  woken_late : (r : StreamRuntime) → r.finalize_requested ≡ true → EndsLate (woken u r)
  unfolding woken
  woken_late r asked =
      if_case EndsLate r.cancel_requested (λ _. refl)
        (λ _.
          if_case EndsLate (r.final_emitted || r.closed) (λ _. refl)
            (λ _. if_case EndsLate r.finalize_requested (λ _. begin_final_late r) (λ unasked. cc)))

  wake_late : (r : StreamRuntime) (w : Worker) → r.worker ≡ w → Ready w r → EndsLate (wake u r w)
  wake_late r waiting e (asked, set) =
      if_case EndsLate r.audio_updated (λ _. woken_late (record r { audio_updated = false }) asked)
        (λ unset. cc)
  wake_late r (in_partial c ms bytes) e h = cc
  wake_late r (in_final n bytes) e h = ap is_late e
  wake_late r returned e h = ap is_late e
  wake_late r (raised x) e h = ap is_late e

  use_partial-Ready :
      (r : StreamRuntime) (c ms n : ℕ) (t : Transcript)
      → r.finalize_requested ≡ true
      → r.worker ≡ waiting
      → Ready (use_partial u r c ms n (some t)).worker (use_partial u r c ms n (some t))
  use_partial-Ready r c ms n t asked e =
      if_case (λ (a : StreamRuntime). Ready a.worker a) r.finalize_requested
        (λ _.
          if_case (λ (a : StreamRuntime). Ready a.worker (record a { audio_updated = true }))
            ((c == r.session.chunks_received) && partial_covers_full_buffer r.session)
            (λ _. rw e (asked, refl)) (λ _. rw e (asked, refl)))
        (λ unasked. cc)

  asked_still :
      (r : StreamRuntime) (bytes : List ℕ)
      → r.finalize_requested ≡ true
      → (push_done r bytes).finalize_requested ≡ true
  asked_still r bytes h =
      if_case (λ (a : StreamRuntime). a.finalize_requested ≡ true) r.streaming_decoder (λ _. h)
        (λ _. h)

  decode_done-Ready :
      (r : StreamRuntime) (w : Worker) (t : Transcript)
      → r.worker ≡ w
      → r.finalize_requested ≡ true
      → Alert w (is_missed r)
      → let next = decode_done u r w (ok (some t)) in Ready next.worker next
  unfolding decode_done after_partial after_final
  decode_done-Ready r waiting t e asked alert = rw e (
    asked,
    has_set r.audio_updated r.finalize_requested (r.cancel_requested || r.closed) alert asked,
  )
  decode_done-Ready r (in_partial c ms bytes) t e asked alert =
      let after = push_done r bytes in
      if_case (λ (a : StreamRuntime). Ready a.worker a)
        (after.cancel_requested || (after.final_emitted || after.closed)) (λ _. tt)
        (λ _.
          use_partial-Ready (decode_over after) c ms (length bytes) t (asked_still r bytes asked)
            refl)
  decode_done-Ready r (in_final n bytes) t e asked alert =
      let after = finalize_done r bytes in
      if_case (λ (a : StreamRuntime). Ready a.worker a) (after.cancel_requested || after.closed)
        (λ _. tt) (λ _. tt)
  decode_done-Ready r returned t e asked alert = rw e tt
  decode_done-Ready r (raised x) t e asked alert = rw e tt

  -- A finalize request brings the worker to its end: under every schedule of a new stream that leaves the
  -- finalize request made, one decode that comes back, one wakeup and one more decode end it.
  pub run-has_ended :
      (s : StreamSession) (stateful : Bool) (ts : List Turn) (t t' : Transcript)
      → (run u (started s stateful) ts).finalize_requested ≡ true
      → has_ended
          (run u
            (run u (started s stateful) ts)
            (decodes (ok (some t)) ∷ wakes ∷ decodes (ok (some t')) ∷ [])).worker
        ≡ true
  unfolding run turn
  run-has_ended s stateful ts t t' asked =
      let r = run u (started s stateful) ts in
      let decoded = decode_done u r r.worker (ok (some t)) in
      let ready = decode_done-Ready r r.worker t refl asked (run-Alert u s stateful ts) in
      let woke = wake u decoded decoded.worker in
      late_ends woke woke.worker t' refl (wake_late decoded decoded.worker refl ready)
