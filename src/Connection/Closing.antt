-- ===== src/Connection/Closing.antt =====
-- How the handlers of the Local STT protocol in src/main.py end: a close event, and a sender whose
-- connection is gone.
use rtc_asr.Prelude.{
  ℕ, ◌≡◌, refl, sym, ap, ◌∙◌, ◌⊎◌, inl, inr, Bool, true, false, ◌||◌, Option, none, some, List, [],
  ◌∷◌, ◌++◌, arith, Result, ok, err, if_case, map, length,
}
use rtc_asr.Text.{Unicode}
use rtc_asr.Session.{StreamError, Transcript}
use rtc_asr.Session.Create.{StreamConfig}
use rtc_asr.Runtime.{
  StreamRuntime, Event, Worker, waiting, in_partial, in_final, returned, raised, close,
  after_partial, after_final, woken,
}
use rtc_asr.Runtime.Progress.{has_ended}
use rtc_asr.Runtime.Schedule.{wake, decode_done, push_done, finalize_done, no_answer}
use rtc_asr.Connection.{
  Failure, ClientEvent, close_connection, Transport, Reason, client_close, receiving, flushing,
  flushing_final, stopping, ended, Handler, Connection, sent, closed_messages, error_messages,
  event, resume, failed, stopped,
}
use rtc_asr.Connection.Steps.{
  resumes, task_step, dispatch, received, Step, handles, wakes, sends, send_fails, decodes, step,
  serve, resume_wait, tasks, is_nil,
}

-- A runtime that has been closed, and what it has sent.
record IsClosing (es : List Event) (r : StreamRuntime) : Type 0 where
  shut : r.closed ≡ true
  sent_same : r.sent ≡ es

-- The worker of a closed stream that is not asleep ends with its next turn.
abbrev IsDone : List Event → StreamRuntime → Type 0
IsDone es r = (has_ended r.worker ≡ true) × (r.sent ≡ es)

abbrev IsAwakeOrDone : List Event → StreamRuntime → Worker → Type 0
IsAwakeOrDone es r waiting = (r.audio_updated ≡ true) × (r.closed ≡ true) × (r.sent ≡ es)
IsAwakeOrDone es r (in_partial c ms bytes) = true ≡ false
IsAwakeOrDone es r (in_final n bytes) = true ≡ false
IsAwakeOrDone es r w = r.sent ≡ es

third : (a b c : Bool) → c ≡ true → (a || (b || c)) ≡ true
third a b c h = ground arith

second : (a b : Bool) → b ≡ true → (a || b) ≡ true
second a b h = ground arith

module _ (u : Unicode) (es : List Event) where
  -- `closed` makes the worker return, whatever came back.
  after_partial-IsDone :
      (r : StreamRuntime) (c ms n : ℕ) (o : Option Transcript)
      → r.closed ≡ true
      → r.sent ≡ es
      → IsDone es (after_partial u r c ms n o)
  unfolding after_partial
  after_partial-IsDone r c ms n o shut same =
      if_case (IsDone es) (r.cancel_requested || (r.final_emitted || r.closed)) (λ _. (refl, same))
        (λ e. let open_still = third r.cancel_requested r.final_emitted r.closed shut in cc)

  after_final-IsDone :
      (r : StreamRuntime) (n : ℕ) (t : Transcript)
      → r.closed ≡ true
      → r.sent ≡ es
      → IsDone es (after_final r n t)
  unfolding after_final
  after_final-IsDone r n t shut same =
      if_case (IsDone es) (r.cancel_requested || r.closed) (λ _. (refl, same))
        (λ e. let open_still = second r.cancel_requested r.closed shut in cc)

  no_answer-IsDone : (r : StreamRuntime) → r.sent ≡ es → IsDone es (no_answer r)
  no_answer-IsDone r same =
      if_case (IsDone es) (r.cancel_requested || r.closed) (λ _. (refl, same)) (λ _. (refl, same))

  woken-IsDone : (r : StreamRuntime) → r.closed ≡ true → r.sent ≡ es → IsDone es (woken u r)
  unfolding woken
  woken-IsDone r shut same =
      if_case (IsDone es) r.cancel_requested (λ _. (refl, same))
        (λ _.
          if_case (IsDone es) (r.final_emitted || r.closed) (λ _. (refl, same))
            (λ e. let open_still = second r.final_emitted r.closed shut in cc))

  push_done-IsClosing :
      (r : StreamRuntime) (bytes : List ℕ)
      → r.closed ≡ true
      → r.sent ≡ es
      → IsClosing es (push_done r bytes)
  push_done-IsClosing r bytes shut same =
      if_case (IsClosing es) r.streaming_decoder (λ _. record { shut = shut; sent_same = same })
        (λ _. record { shut = shut; sent_same = same })

  done-IsAwakeOrDone :
      (r : StreamRuntime) (w : Worker) → has_ended w ≡ true → r.sent ≡ es → IsAwakeOrDone es r w
  done-IsAwakeOrDone r returned e same = same
  done-IsAwakeOrDone r (raised x) e same = same
  done-IsAwakeOrDone r waiting e same = cc
  done-IsAwakeOrDone r (in_partial c ms bytes) e same = cc
  done-IsAwakeOrDone r (in_final n bytes) e same = cc

  abbrev AwakeOrDone : StreamRuntime → Type 0
  AwakeOrDone r = IsAwakeOrDone es r r.worker

  done-AwakeOrDone : (r : StreamRuntime) → IsDone es r → AwakeOrDone r
  done-AwakeOrDone r h = done-IsAwakeOrDone r r.worker h.0 h.1

  decode_done-AwakeOrDone :
      (r : StreamRuntime) (w : Worker) (result : Result StreamError (Option Transcript))
      → r.worker ≡ w
      → r.audio_updated ≡ true
      → r.closed ≡ true
      → r.sent ≡ es
      → AwakeOrDone (decode_done u r w result)
  unfolding decode_done
  decode_done-AwakeOrDone r waiting result e woke shut same = rw e (woke, shut, same)
  decode_done-AwakeOrDone r (in_partial c ms bytes) (ok o) e woke shut same =
      let next = push_done-IsClosing r bytes shut same in
      done-AwakeOrDone (after_partial u (push_done r bytes) c ms (length bytes) o)
        (after_partial-IsDone (push_done r bytes) c ms (length bytes) o next.shut next.sent_same)
  decode_done-AwakeOrDone r (in_partial c ms bytes) (err x) e woke shut same = same
  decode_done-AwakeOrDone r (in_final n bytes) (ok (some t)) e woke shut same =
      let next = push_done-IsClosing r bytes shut same in
      done-AwakeOrDone (after_final (finalize_done r bytes) n t)
        (after_final-IsDone (finalize_done r bytes) n t next.shut next.sent_same)
  decode_done-AwakeOrDone r (in_final n bytes) (ok none) e woke shut same =
      let next = push_done-IsClosing r bytes shut same in
      done-AwakeOrDone (no_answer (finalize_done r bytes))
        (no_answer-IsDone (finalize_done r bytes) next.sent_same)
  decode_done-AwakeOrDone r (in_final n bytes) (err x) e woke shut same = same
  decode_done-AwakeOrDone r returned result e woke shut same = rw e same
  decode_done-AwakeOrDone r (raised x) result e woke shut same = rw e same

  wake-IsDone :
      (r : StreamRuntime) (w : Worker)
      → r.worker ≡ w
      → IsAwakeOrDone es r w
      → IsDone es (wake u r w)
  wake-IsDone r waiting e h = rw h.0 (woken-IsDone (record r { audio_updated = false }) h.1 h.2)
  wake-IsDone r returned e h = (ap has_ended e, h)
  wake-IsDone r (raised x) e h = (ap has_ended e, h)
  wake-IsDone r (in_partial c ms bytes) e h = cc
  wake-IsDone r (in_final n bytes) e h = cc

-- What the worker of a closed stream does next.
abbrev pub wound_down : Result StreamError (Option Transcript) → List Step
wound_down result = decodes result ∷ wakes ∷ handles none ∷ []

module _ (t : Transport) (c : Connection) (r next : StreamRuntime) (same : next.sent ≡ r.sent) where
  sent_as : c.past ++ map event next.sent ≡ c.past ++ map event r.sent
  sent_as = ap (λ es. c.past ++ map event es) same

  stopped_as :
      (why : Reason)
      → let before = record c { runtime = some r; handler = stopping why } in
        let after = record c { runtime = some next; handler = stopping why } in
        ((stopped t after why).handler ≡ (stopped t before why).handler)
        × ((stopped t after why).past ≡ (stopped t before why).past)
  stopped_as resume = (refl, sent_as)
  stopped_as client_close = (refl, ap (λ ms. ms ++ closed_messages t) sent_as)
  stopped_as (failed e) = (refl, ap (λ ms. ms ++ error_messages t e) sent_as)

module _ (u : Unicode) (t : Transport) (config : StreamConfig) where
  -- A handler in `stop_runtime` comes to its end: when the worker's decode has come back and the worker has
  -- woken, the handler does what it was to do, and has sent what was sent before and its last words.
  stopping_ends :
      (c : Connection) (r : StreamRuntime) (why : Reason)
      (result : Result StreamError (Option Transcript))
      → r.audio_updated ≡ true
      → r.closed ≡ true
      → let before = record c { runtime = some r; handler = stopping why } in
        let last = serve u t config before (wound_down result) in
        (last.handler ≡ (stopped t before why).handler) × (last.past ≡ (stopped t before why).past)
  unfolding serve step
  stopping_ends c r why result woke shut =
      let decoded = decode_done u r r.worker result in
      let next = wake u decoded decoded.worker in
      let done : IsDone r.sent next =
        wake-IsDone u r.sent decoded decoded.worker refl
          (decode_done-AwakeOrDone u r.sent r r.worker result refl woke shut refl) in
      let before = record c { runtime = some r; handler = stopping why } in
      if_case
        (λ (last : Connection).
          (last.handler ≡ (stopped t before why).handler)
          × (last.past ≡ (stopped t before why).past))
        (has_ended next.worker) (λ _. stopped_as t c r next done.1 why)
        (λ e. let done_still = done.0 in cc)

  -- A close event is answered: while the stream's worker is at work and the handler waits for an event, a
  -- close event, the running decode, whatever it gives, and the worker's wakeup end the connection, and its last
  -- words are those of a close.
  pub close_ends :
      (c : Connection) (r : StreamRuntime) (result : Result StreamError (Option Transcript))
      → c.handler ≡ receiving
      → c.runtime ≡ some r
      → has_ended r.worker ≡ false
      → let last = serve u t config c (handles (some (ok close_connection)) ∷ wound_down result) in
        (last.handler ≡ ended) × (last.past ≡ sent c ++ closed_messages t)
  unfolding serve step received dispatch
  close_ends c r result waits some_r working =
      rw (waits, some_r, working) (stopping_ends c (close r) client_close result refl refl)

-- The sender has ended by an exception with an event unsent, the worker has returned, and the handler
-- waits for the queue.
pub record IsStranded (c : Connection) (r : StreamRuntime) (e : Failure) : Type 0 where
  pub waits : (c.handler ≡ flushing_final) ⊎ (c.handler ≡ flushing)
  pub has_stream : c.runtime ≡ some r
  pub idle : r.worker ≡ returned
  pub dead : c.sender ≡ some e
  pub unsent : is_nil r.outgoing_events ≡ false

module _ (u : Unicode) (t : Transport) (config : StreamConfig) (c : Connection) (r : StreamRuntime)
    (e : Failure) (h : IsStranded c r e) where
  stranded_resume_wait :
      (handler : Handler)
      → (handler ≡ flushing_final) ⊎ (handler ≡ flushing)
      → resume_wait t c (some r) handler ≡ c
  stranded_resume_wait handler (inl final) = rw (final, h.unsent) refl
  stranded_resume_wait handler (inr other) = rw (other, h.unsent) refl

  stranded_resumes :
      (handler : Handler) (came : Option (Result Failure ClientEvent))
      → (handler ≡ flushing_final) ⊎ (handler ≡ flushing)
      → resumes t config c handler came ≡ resume_wait t c c.runtime handler
  stranded_resumes handler came (inl final) = rw final refl
  stranded_resumes handler came (inr other) = rw other refl

  with_stream : record c { runtime = some r } ≡ c
  with_stream = ap (λ o. record c { runtime = o }) (sym h.has_stream)

  stranded_task : (s : Step) → task_step u c r s ≡ c
  unfolding decode_done
  stranded_task wakes = ap (λ w. record c { runtime = some (wake u r w) }) h.idle ∙ with_stream
  stranded_task (decodes result) =
      ap (λ w. record c { runtime = some (decode_done u r w result) }) h.idle ∙ with_stream
  stranded_task sends = rw h.dead refl
  stranded_task (send_fails x) = rw h.dead refl
  stranded_task (handles came) = refl

  stranded_step : (s : Step) → step u t config c s ≡ c
  unfolding step
  stranded_step (handles came) =
      stranded_resumes c.handler came h.waits
      ∙ ap (λ o. resume_wait t c o c.handler) h.has_stream
      ∙ stranded_resume_wait c.handler h.waits
  stranded_step s = ap (λ o. tasks u c o s) h.has_stream ∙ stranded_task s

  -- A stranded connection stays as it is for ever: no event of the client, not even its leaving, and no
  -- turn of a task changes it.
  pub stranded_stays : (steps : List Step) → serve u t config c steps ≡ c
  unfolding serve
  stranded_stays [] = refl
  stranded_stays (s ∷ steps) =
      ap (λ d. serve u t config d steps) (stranded_step s) ∙ stranded_stays steps
