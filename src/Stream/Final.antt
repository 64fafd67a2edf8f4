-- ===== src/Stream/Final.antt =====
-- Where the transcript of a final event on /ws/stream comes from.
use rtc_asr.Prelude.{
  ℕ, ◌+◌, ◌≤◌, ◌<◌, ◌≡◌, refl, inl, inr, true, Option, none, some, List, [], ◌∷◌, length, leb, ◌==◌,
  ◌%◌, arith, ok, err, Ensures, Ensures-bind, Ensures-ok, Bool-cases, Option-cases, raise_if,
}
use mathlib.Core.List.{Memᴰ}
use rtc_asr.Json.{Fields}
use rtc_asr.Session.{
  StreamSession, Transcript, no_audio, client_error, asr_unavailable, unexpected, StreamError,
  append_audio, record_partial, partial_audio_bytes, windowed, partial_covers_full_buffer,
  last_partial_if_reusable,
}
use rtc_asr.Session.Create.{StreamConfig, create_stream_session}
use rtc_asr.Session.Bounds.{IsNew, create_stream_session-IsNew}
use rtc_asr.Stream.{
  Library, Services, Backend, Incoming, disconnect, EventType, start, audio, stop, cancel, unknown,
  Payload, audio_bytes, fields, Sent, Connection, Fate, running, Outcome, Handled, start_session,
  handle_start, emit_partial, after_chunk, take_audio, handle_audio, stop_session, handle_stop,
  cancel_session, handle_cancel, dispatch, on_error, conclude, websocket_step, serve, and_then,
  accepted, stream_event, resolve_final_result, receive_stream_event, decode_websocket_audio,
}

abbrev pub Step : Type 0
Step = Backend × Incoming

-- A backend of these steps gave the transcript for the session's whole buffer.
pub record IsAnswer (steps : List Step) (s : StreamSession) (t : Transcript) : Type 0 where
  pub step : Step
  pub among : Memᴰ step steps
  pub answered : step.0.transcribe s.audio_buffer s.language s.sample_rate ≡ ok t

-- The last partial result is up to date exactly where its count of chunks says so.
record IsTracked (steps : List Step) (s : StreamSession) : Type 0 where
  counted : s.last_partial_chunks_received ≤ s.chunks_received
  backed :
      (t : Transcript)
      → s.last_partial_result ≡ some t
      → s.last_partial_chunks_received ≡ s.chunks_received
      → partial_covers_full_buffer s ≡ true
      → IsAnswer steps s t

abbrev Tracks : List Step → Option StreamSession → Type 0
Tracks steps none = Unit {0}
Tracks steps (some s) = IsTracked steps s

windowed_covers :
    (w : Option ℕ) (buffer : List ℕ)
    → elim w [ none ↦ true | some k ↦ leb (length buffer) k ] ≡ true
    → windowed w buffer ≡ buffer
windowed_covers none buffer h = refl
windowed_covers (some w) buffer h = ground arith

partial_covers :
    (s : StreamSession)
    → partial_covers_full_buffer s ≡ true
    → partial_audio_bytes s ≡ s.audio_buffer
unfolding partial_covers_full_buffer partial_audio_bytes
partial_covers s h = windowed_covers s.partial_window_bytes s.audio_buffer h

reusable-cases :
    (s : StreamSession) (t : Transcript)
    → last_partial_if_reusable s ≡ some t
    → (s.last_partial_result ≡ some t)
      × (s.last_partial_chunks_received ≡ s.chunks_received)
      × (partial_covers_full_buffer s ≡ true)
unfolding last_partial_if_reusable
reusable-cases s t e = ground arith

-- A chunk that is taken makes the last partial result stale.
append_counts :
    (s u : StreamSession) (chunk : List ℕ)
    → append_audio s chunk ≡ ok u
    → (u.chunks_received ≡ s.chunks_received + 1)
      × (u.last_partial_chunks_received ≡ s.last_partial_chunks_received)
unfolding append_audio
append_counts s u chunk e = ground arith

append_audio-IsTracked :
    (steps : List Step) (s u : StreamSession) (chunk : List ℕ)
    → IsTracked steps s
    → append_audio s chunk ≡ ok u
    → IsTracked steps u
append_audio-IsTracked steps s u chunk h e =
    let counts = append_counts s u chunk e in
    let below = h.counted in record { counted = omega arith; backed = λ t _ same _. ground arith }

record_partial-IsTracked :
    (steps : List Step) (step : Step) (s : StreamSession) (t : Transcript)
    → Memᴰ step steps
    → step.0.transcribe (partial_audio_bytes s) s.language s.sample_rate ≡ ok t
    → IsTracked steps (record_partial s t none none)
unfolding record_partial partial_covers_full_buffer
record_partial-IsTracked steps step s t among e = record {
  counted = omega arith;
  backed = λ u is _ covers. record {
    step = step;
    among = among;
    answered = let same : t ≡ u = cc in rw (← same, ← partial_covers s covers) e;
  };
}

new-IsTracked :
    (steps : List Step) (config : StreamConfig) (id : ℕ) (s : StreamSession)
    → IsNew config id s
    → IsTracked steps s
new-IsTracked steps config id s new =
    let nothing = new.no_result in
    let never = new.no_partial in record { counted = omega arith; backed = λ t some_result _ _. cc }

module _ (steps : List Step) (services : Services) (backend : Backend) (message : Incoming)
    (here : Memᴰ (backend, message) steps) (c : Connection) where
  abbrev Good : Connection × List Sent → Type 0
  Good (c', events) = Tracks steps c'.session

  start_session-Tracks :
      (d : Fields) (o : Option StreamSession)
      → 0 < services.config.stream_max_buffer_bytes
      → Ensures Good (start_session services c d o)
  start_session-Tracks d (some s) positive = record { at = λ r p. cc }
  start_session-Tracks d none positive =
      Ensures-bind (create_stream_session d services.config c.next_stream_id) _ λ s made.
        Ensures-ok _ (
          new-IsTracked steps services.config c.next_stream_id s
            (create_stream_session-IsNew d services.config c.next_stream_id s positive made))

  after_chunk-Tracks :
      (s : StreamSession) → IsTracked steps s → Ensures Good (after_chunk backend c s)
  unfolding after_chunk emit_partial
  after_chunk-Tracks s h = elim (Bool-cases (s.chunks_received % s.partial_interval_chunks == 0)) [
    | inl now ↦ rw now (
        Ensures-bind (backend.transcribe (partial_audio_bytes s) s.language s.sample_rate) _
          λ t e. Ensures-ok _ (record_partial-IsTracked steps (backend, message) s t here e))
    | inr later ↦ rw later (Ensures-ok _ h)
  ]

  take_audio-Tracks :
      (lib : Library) (payload : Payload) (o : Option StreamSession)
      → Tracks steps o
      → Ensures Good (take_audio lib backend c payload o)
  take_audio-Tracks lib payload none h = record { at = λ r p. cc }
  take_audio-Tracks lib payload (some s) h =
      Ensures-bind (decode_websocket_audio lib payload) _ λ chunk _.
        Ensures-bind (append_audio s chunk) _
          λ u taken. after_chunk-Tracks u (append_audio-IsTracked steps s u chunk h taken)

  stop_session-Tracks : (o : Option StreamSession) → Ensures Good (stop_session backend c o)
  stop_session-Tracks none = record { at = λ r p. cc }
  stop_session-Tracks (some s) =
      Ensures-bind (raise_if (length s.audio_buffer == 0) (client_error no_audio 1003)) _
        λ _ _. Ensures-bind (resolve_final_result backend s) _ λ t _. Ensures-ok _ tt

  cancel_session-Tracks : (o : Option StreamSession) → Ensures Good (cancel_session c o)
  cancel_session-Tracks none = record { at = λ r p. cc }
  cancel_session-Tracks (some s) = Ensures-ok _ tt

  dispatch-Tracks :
      (lib : Library) (event : Payload × EventType)
      → 0 < services.config.stream_max_buffer_bytes
      → Tracks steps c.session
      → Ensures Good (dispatch lib services backend c event)
  unfolding dispatch handle_start handle_audio handle_stop handle_cancel
  dispatch-Tracks lib (audio_bytes b, start) positive h = record { at = λ r p. cc }
  dispatch-Tracks lib (fields d, start) positive h = start_session-Tracks d c.session positive
  dispatch-Tracks lib (payload, audio) positive h = take_audio-Tracks lib payload c.session h
  dispatch-Tracks lib (payload, stop) positive h = stop_session-Tracks c.session
  dispatch-Tracks lib (payload, cancel) positive h = cancel_session-Tracks c.session
  dispatch-Tracks lib (payload, unknown) positive h = record { at = λ r p. cc }

  on_error-session : (e : StreamError) → (on_error backend c e).connection.session ≡ c.session
  unfolding on_error
  on_error-session asr_unavailable = refl
  on_error-session unexpected = ground arith
  on_error-session e = refl

  conclude-Tracks :
      (h : Handled)
      → Tracks steps c.session
      → Ensures Good h
      → Tracks steps (conclude backend c h).connection.session
  conclude-Tracks (ok (c', events)) h good = good.at (c', events) refl
  conclude-Tracks (err e) h good = rw (on_error-session e) h

  websocket_step-Tracks :
      (lib : Library) (m : Incoming)
      → 0 < services.config.stream_max_buffer_bytes
      → Tracks steps c.session
      → Tracks steps (websocket_step lib services backend c m).connection.session
  unfolding websocket_step
  websocket_step-Tracks lib disconnect positive h = h
  websocket_step-Tracks lib m positive h = conclude-Tracks _ h (
      Ensures-bind (receive_stream_event lib m c.session) _
        λ event _. dispatch-Tracks lib event positive h)

abbrev go_on : Fate → Outcome → Outcome → Outcome
go_on f o later = elim f [ running ↦ and_then o later | _ ↦ o ]

ended :
    (steps : List Step) (f : Fate) (o later : Outcome)
    → Tracks steps o.connection.session
    → Tracks steps later.connection.session
    → Tracks steps (go_on f o later).connection.session
ended steps running o later now then_later = then_later
ended steps f o later now then_later = now

module _ (lib : Library) (services : Services)
    (positive : 0 < services.config.stream_max_buffer_bytes) where
  serve-Tracks :
      (all : List Step) (c : Connection) (steps : List Step)
      → ((step : Step) → Memᴰ step steps → Memᴰ step all)
      → Tracks all c.session
      → Tracks all (serve lib services c steps).connection.session
  unfolding serve
  serve-Tracks all c [] sub h = h
  serve-Tracks all c ((backend, message) ∷ rest) sub h =
      let o = websocket_step lib services backend c message in
      let next =
        websocket_step-Tracks all services backend message (sub _ (Memᴰ.head refl)) c lib message
          positive h in
      let later = serve-Tracks all o.connection rest (λ step m. sub step (Memᴰ.tail m)) next in
      ended all o.fate o _ next later

  resolve_final_result-IsAnswer :
      (steps : List Step) (last : Step) (s : StreamSession) (t : Transcript)
      → IsTracked steps s
      → resolve_final_result last.0 s ≡ ok t
      → IsAnswer (last ∷ steps) s t
  unfolding resolve_final_result
  resolve_final_result-IsAnswer steps last s t h e =
      elim (Option-cases (last_partial_if_reusable s)) [
        | inl decoded ↦ record {
          step = last;
          among = Memᴰ.head refl;
          answered = rw (resolve_final_result, decoded) at e;
        }
        | inr (u, reused) ↦
            let same : u ≡ t = cc (rw (resolve_final_result, reused) at e) in
            let (is, counts, covers) = reusable-cases s u reused in
            let before = h.backed u is counts covers in
            rw (← same) (record {
              step = before.step;
              among = Memᴰ.tail before.among;
              answered = before.answered;
            })
      ]

  abbrev EndsWith : List Step → Step → StreamSession → Connection × List Sent → Type 0
  EndsWith steps last s (c', events) =
      (t : Transcript) × (events ≡ stream_event true s t ∷ []) × IsAnswer (last ∷ steps) s t

  stop_session-EndsWith :
      (steps : List Step) (last : Step) (c : Connection) (o : Option StreamSession)
      (s : StreamSession)
      → o ≡ some s
      → Tracks steps o
      → Ensures (EndsWith steps last s) (stop_session last.0 c o)
  stop_session-EndsWith steps last c none s e h = cc
  stop_session-EndsWith steps last c (some u) s e h =
      let same : u ≡ s = cc in
      rw (← same) (
        Ensures-bind (raise_if (length u.audio_buffer == 0) (client_error no_audio 1003)) _ λ _ _.
          Ensures-bind (resolve_final_result last.0 u) _ λ t resolved.
            Ensures-ok _ (t, refl, resolve_final_result-IsAnswer steps last u t h resolved))

  -- What a stop event gives, after any messages from the connection's beginning on: it fails, or it
  -- sends one final event, and that carries an answer that a backend of these messages gave for all
  -- the audio in the buffer, even where the last partial result is reused. The configured limit is
  -- taken to be positive.
  pub handle_stop-IsAnswer :
      (steps : List Step) (last : Step) (s : StreamSession)
      → (serve lib services accepted steps).connection.session ≡ some s
      → (c' : Connection) (events : List Sent)
      → handle_stop last.0 (serve lib services accepted steps).connection ≡ ok (c', events)
      → (t : Transcript) × (events ≡ stream_event true s t ∷ []) × IsAnswer (last ∷ steps) s t
  unfolding handle_stop
  handle_stop-IsAnswer steps last s active c' events e =
      let tracked = serve-Tracks steps accepted steps (λ step m. m) tt in
      let c = (serve lib services accepted steps).connection in
      (stop_session-EndsWith steps last c c.session s active tracked).at (c', events) e
