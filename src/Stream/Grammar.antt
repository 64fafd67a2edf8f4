-- ===== src/Stream/Grammar.antt =====
-- The order in which /ws/stream sends its events.
use rtc_asr.Prelude.{
  ℕ, ◌+◌, ◌≤◌, ◌<◌, ◌%◌, ◌≡◌, refl, ap, ◌∙◌, inl, inr, true, Option, none, some, List, [], ◌∷◌,
  ◌++◌, length, ◌==◌, if◌then◌else◌, arith, ok, err, Ensures, Ensures-bind, Ensures-ok, Bool-cases,
  raise_if,
}
use rtc_asr.Json.{Fields}
use rtc_asr.Session.{
  StreamSession, StreamError, Transcript, asr_unavailable, client_error, no_audio,
  partial_audio_bytes, append_audio, record_partial,
}
use rtc_asr.Session.Create.{StreamConfig, create_stream_session}
use rtc_asr.Session.Bounds.{IsWellFormed, create_stream_session-IsNew, append_audio-IsWellFormed}
use rtc_asr.Stream.{
  Library, Services, Backend, Incoming, disconnect, EventType, start, audio, stop, cancel, unknown,
  Payload, audio_bytes, fields, Sent, ready, transcript_event, canceled, error_event, Connection,
  Fate, running, Outcome, Handled, start_session, handle_start, emit_partial, after_chunk,
  take_audio, handle_audio, stop_session, handle_stop, cancel_session, handle_cancel, dispatch,
  on_error, conclude, websocket_step, serve, and_then, stream_event, ready_event, canceled_event,
  send_partial, resolve_final_result, receive_stream_event, decode_websocket_audio,
}

-- Where a client stands that has read some events: no stream and the number of the next one, an
-- active stream, or an error after which nothing comes.
pub data Phase : Type 0 where
  idle active : ℕ → Phase
  over : Phase

abbrev at_stream : ℕ → ℕ → Phase → Option Phase
at_stream i j p = if i == j then some p else none

-- The event that may come in a phase, and the phase after it.
abbrev pub follow_one : Phase → Sent → Option Phase
follow_one over e = none
follow_one (idle n) (ready p) = at_stream n p.stream_id (active n)
follow_one (active n) (transcript_event e) =
    at_stream n e.stream_id (if e.is_final then idle (n + 1) else active n)
follow_one (active n) (canceled p) = at_stream n p.stream_id (idle (n + 1))
follow_one p (error_event e code) = some over
follow_one p e = none

abbrev pub follow : Option Phase → List Sent → Option Phase
follow none events = none
follow (some p) [] = some p
follow (some p) (e ∷ events) = follow (follow_one p e) events

abbrev phase_of : Option StreamSession → ℕ → Phase
phase_of none next = idle next
phase_of (some s) next = active s.stream_id

abbrev pub phase : Connection → Phase
phase c = phase_of c.session c.next_stream_id

-- A well-formed connection: its stream is well formed, within the configured limit, and has the
-- number before the next one.
abbrev IsOpen : StreamConfig → Option StreamSession → ℕ → Type 0
IsOpen config none next = Unit {0}
IsOpen config (some s) next =
    IsWellFormed s
    × (s.max_buffer_bytes ≤ config.stream_max_buffer_bytes)
    × (s.stream_id + 1 ≡ next)

abbrev pub IsValid : Services → Connection → Type 0
IsValid services c = IsOpen services.config c.session c.next_stream_id

-- What holds of a connection that goes on, for a client in a phase.
abbrev pub GoesOn : Services → Fate → Connection → Phase → Type 0
GoesOn services running c p = IsValid services c × (p ≡ phase c)
GoesOn services _ c p = Unit {0}

module _ (services : Services) (c : Connection) where
  abbrev Advances : Connection × List Sent → Type 0
  Advances (c', events) = IsValid services c' × (follow (some (phase c)) events ≡ some (phase c'))

-- A ready event with the next number begins a stream.
begins :
    (c : Connection) (s : StreamSession)
    → c.session ≡ none
    → s.stream_id ≡ c.next_stream_id
    → (services : Services)
    → follow (some (phase c)) (ready_event services s ∷ []) ≡ some (active s.stream_id)
unfolding ready_event
begins c s e same services = rw e (ground arith)

module _ (services : Services) (positive : 0 < services.config.stream_max_buffer_bytes) where
  start_session-Advances :
      (c : Connection) (d : Fields) (o : Option StreamSession)
      → c.session ≡ o
      → Ensures (Advances services c) (start_session services c d o)
  start_session-Advances c d (some s) e = record { at = λ r p. cc }
  start_session-Advances c d none e =
      Ensures-bind (create_stream_session d services.config c.next_stream_id) _ λ s made.
        let new = create_stream_session-IsNew d services.config c.next_stream_id s positive made in
        Ensures-ok _ (
          (new.well_formed, new.limited, ap (λ (n : ℕ). n + 1) new.numbered),
          begins c s e new.numbered services,
        )

-- A partial event, sent or not, leaves the stream active.
partial_keeps :
    (n : ℕ) (s : StreamSession) (t : Transcript)
    → s.stream_id ≡ n
    → follow (some (active n)) (send_partial s t) ≡ some (active n)
unfolding stream_event
partial_keeps n s t e = ground arith

final_ends :
    (n : ℕ) (s : StreamSession) (t : Transcript)
    → s.stream_id ≡ n
    → follow (some (active n)) (stream_event true s t ∷ []) ≡ some (idle (n + 1))
unfolding stream_event
final_ends n s t e = ground arith

cancel_ends :
    (n : ℕ) (s : StreamSession)
    → s.stream_id ≡ n
    → follow (some (active n)) (canceled_event s ∷ []) ≡ some (idle (n + 1))
unfolding canceled_event
cancel_ends n s e = ground arith

record_partial-IsWellFormed :
    (s : StreamSession) (t : Transcript) (k ms : Option ℕ)
    → IsWellFormed s
    → IsWellFormed (record_partial s t k ms)
unfolding record_partial
record_partial-IsWellFormed s t k ms v = record {
  within = v.within;
  window = v.window;
  interval = v.interval;
  rate = v.rate;
}

module _ (services : Services) (backend : Backend) (c : Connection) where
  emit_partial-Advances :
      (s t : StreamSession)
      → c.session ≡ some s
      → IsOpen services.config (some t) c.next_stream_id
      → s.stream_id ≡ t.stream_id
      → Ensures (Advances services c) (emit_partial backend c t)
  unfolding emit_partial record_partial
  emit_partial-Advances s t e v same =
      Ensures-bind (backend.transcribe (partial_audio_bytes t) t.language t.sample_rate) _
        λ x answered. Ensures-ok _ (
          (record_partial-IsWellFormed t x none none v.0, v.1, v.2),
          rw (e, same) (partial_keeps t.stream_id (record_partial t x none none) x refl),
        )

  after_chunk-Advances :
      (s t : StreamSession)
      → c.session ≡ some s
      → IsOpen services.config (some t) c.next_stream_id
      → s.stream_id ≡ t.stream_id
      → Ensures (Advances services c) (after_chunk backend c t)
  unfolding after_chunk
  after_chunk-Advances s t e v same =
      elim (Bool-cases (t.chunks_received % t.partial_interval_chunks == 0)) [
        | inl now ↦ rw now (emit_partial-Advances s t e v same)
        | inr later ↦ rw later (Ensures-ok _ (v, rw (e, same)))
      ]

  append_keeps :
      (s t : StreamSession) (chunk : List ℕ)
      → append_audio s chunk ≡ ok t
      → (s.stream_id ≡ t.stream_id) × (t.max_buffer_bytes ≡ s.max_buffer_bytes)
  unfolding append_audio
  append_keeps s t chunk e = ground arith

  take_audio-Advances :
      (lib : Library) (payload : Payload) (o : Option StreamSession)
      → c.session ≡ o
      → IsOpen services.config o c.next_stream_id
      → Ensures (Advances services c) (take_audio lib backend c payload o)
  take_audio-Advances lib payload none e v = record { at = λ r p. cc }
  take_audio-Advances lib payload (some s) e v =
      Ensures-bind (decode_websocket_audio lib payload) _ λ chunk _.
        Ensures-bind (append_audio s chunk) _ λ t taken.
          let kept = append_keeps s t chunk taken in
          after_chunk-Advances s t e
            (append_audio-IsWellFormed s t chunk v.0 taken, omega arith, omega arith) kept.0

  stop_session-Advances :
      (o : Option StreamSession)
      → c.session ≡ o
      → IsOpen services.config o c.next_stream_id
      → Ensures (Advances services c) (stop_session backend c o)
  stop_session-Advances none e v = record { at = λ r p. cc }
  stop_session-Advances (some s) e v =
      Ensures-bind (raise_if (length s.audio_buffer == 0) (client_error no_audio 1003)) _ λ _ _.
        Ensures-bind (resolve_final_result backend s) _ λ t _.
          Ensures-ok _ (tt, rw e (final_ends s.stream_id s t refl ∙ ap (λ n. some (idle n)) v.2))

  cancel_session-Advances :
      (o : Option StreamSession)
      → c.session ≡ o
      → IsOpen services.config o c.next_stream_id
      → Ensures (Advances services c) (cancel_session c o)
  cancel_session-Advances none e v = record { at = λ r p. cc }
  cancel_session-Advances (some s) e v =
      Ensures-ok _ (tt, rw e (cancel_ends s.stream_id s refl ∙ ap (λ n. some (idle n)) v.2))

  dispatch-Advances :
      (lib : Library) (event : Payload × EventType)
      → 0 < services.config.stream_max_buffer_bytes
      → IsValid services c
      → Ensures (Advances services c) (dispatch lib services backend c event)
  unfolding dispatch handle_start handle_audio handle_stop handle_cancel
  dispatch-Advances lib (audio_bytes b, start) positive v = record { at = λ r p. cc }
  dispatch-Advances lib (fields d, start) positive v =
      start_session-Advances services positive c d c.session refl
  dispatch-Advances lib (payload, audio) positive v =
      take_audio-Advances lib payload c.session refl v
  dispatch-Advances lib (payload, stop) positive v = stop_session-Advances c.session refl v
  dispatch-Advances lib (payload, cancel) positive v = cancel_session-Advances c.session refl v
  dispatch-Advances lib (payload, unknown) positive v = record { at = λ r p. cc }

  -- What one step does to the phase.
  abbrev StepOk : Outcome → Type 0
  StepOk o =
      (p : Phase) × (follow (some (phase c)) o.sent ≡ some p)
      × GoesOn services o.fate o.connection p

  error_ends :
      (o : Option StreamSession) (next : ℕ) (e : StreamError) (code : ℕ)
      → follow (some (phase_of o next)) (error_event e code ∷ []) ≡ some over
  error_ends none next e code = refl
  error_ends (some s) next e code = refl

  on_error-StepOk : (e : StreamError) → StepOk (on_error backend c e)
  unfolding on_error
  on_error-StepOk asr_unavailable = (over, error_ends c.session c.next_stream_id _ _, tt)
  on_error-StepOk e = (over, error_ends c.session c.next_stream_id _ _, tt)

  conclude-StepOk : (h : Handled) → Ensures (Advances services c) h → StepOk (conclude backend c h)
  conclude-StepOk (ok (c', events)) h =
      let good = h.at (c', events) refl in (phase c', good.1, (good.0, refl))
  conclude-StepOk (err e) h = on_error-StepOk e

  websocket_step-StepOk :
      (lib : Library) (message : Incoming)
      → 0 < services.config.stream_max_buffer_bytes
      → IsValid services c
      → StepOk (websocket_step lib services backend c message)
  unfolding websocket_step
  websocket_step-StepOk lib disconnect positive v = (phase c, refl, tt)
  websocket_step-StepOk lib message positive v = conclude-StepOk _ (
      Ensures-bind (receive_stream_event lib message c.session) _
        λ event _. dispatch-Advances lib event positive v)

follow-append :
    (o : Option Phase) (xs ys : List Sent) → follow o (xs ++ ys) ≡ follow (follow o xs) ys
follow-append none xs ys = refl
follow-append (some p) [] ys = refl
follow-append (some p) (e ∷ xs) ys = follow-append (follow_one p e) xs ys

module _ (lib : Library) (services : Services)
    (positive : 0 < services.config.stream_max_buffer_bytes) where
  -- What a client of a whole connection sees.
  abbrev pub Lawful : Connection → Outcome → Type 0
  Lawful c o =
      (p : Phase) × (follow (some (phase c)) o.sent ≡ some p)
      × GoesOn services o.fate o.connection p

  go_on :
      (c : Connection) (o later : Outcome)
      → Lawful c o
      → o.fate ≡ running
      → (IsValid services o.connection → Lawful o.connection later)
      → Lawful c (and_then o later)
  go_on c o later (p, sees, valid) runs next =
      let goes_on : GoesOn services running o.connection p = rw runs at valid in
      let (valid', same) = goes_on in
      let (q, sees', after) = next valid' in
      (q, follow-append (some (phase c)) o.sent later.sent ∙ rw (sees, same) sees', after)

  end_or_go_on :
      (f : Fate) (c : Connection) (o later : Outcome)
      → Lawful c o
      → o.fate ≡ f
      → (IsValid services o.connection → Lawful o.connection later)
      → Lawful c (elim f [ running ↦ and_then o later | _ ↦ o ])
  end_or_go_on running c o later l e next = go_on c o later l e next
  end_or_go_on f c o later l e next = l

  -- However a client and the backend behave, the events of a connection follow the protocol: a ready
  -- event, then partial ones, then one final or canceled one, then the next ready event; each stream
  -- carries one number on all its events, the numbers count up by one, and nothing follows an error.
  -- While the connection runs, its stream stays well formed and within the configured limit, which
  -- is taken to be positive.
  pub serve-Lawful :
      (c : Connection) (steps : List (Backend × Incoming))
      → IsValid services c
      → Lawful c (serve lib services c steps)
  unfolding serve
  serve-Lawful c [] v = (phase c, refl, (v, refl))
  serve-Lawful c ((backend, message) ∷ rest) v =
      let o = websocket_step lib services backend c message in
      end_or_go_on o.fate c o (serve lib services o.connection rest)
        (websocket_step-StepOk services backend c lib message positive v) refl
        (serve-Lawful o.connection rest)
