-- ===== src/Stream/Errors.antt =====
-- How /ws/stream ends with an error: the close codes, what they say of the cause, and what is left.
use rtc_asr.Prelude.{
  ℕ, suc, ◌+◌, ◌*◌, ◌||◌, if_case, ◌<◌, ◌≡◌, refl, ◌⊎◌, inl, inr, Bool, true, false, not, Option,
  none, some, List, [], ◌∷◌, length, ◌==◌, ◌%◌, leb, if◌then◌else◌, Result, ok, err, Fails,
  Fails-ok, Fails-err, Fails-bind, Fails-raise_if, Bool-cases, Option-cases, raise_if,
}
use rtc_asr.Prelude.Int.{pos, negsuc}
use rtc_asr.Text.{Text, codes}
use rtc_asr.Json.{
  Float, finite, infinity, nan, Value, null, integer, float, string, object, Fields, get, get_or,
}
use rtc_asr.Session.{
  StreamSession, StreamError, Reason, client_error, value_error, number_error, asr_unavailable,
  unexpected, append_audio, partial_audio_bytes, last_partial_if_reusable, no_audio,
  audio_not_bytes, audio_not_base64, window_not_positive, max_buffer_not_positive,
  sample_rate_not_positive, interval_not_positive, language_not_text,
}
use rtc_asr.Session.Create.{
  StreamConfig, create_stream_session, coerce_positive_seconds, require_positive, positive_integer,
  text_or_null, cut_to, window_bytes, seconds_to_buffer_bytes, seconds_to_samples, to_float,
  float_limit,
}
use rtc_asr.Session.Bounds.{append_audio_lem}
use rtc_asr.Stream.{
  Library, Services, Backend, Incoming, disconnect, binary, text, EventType, start, audio, stop,
  cancel, unknown, Payload, audio_bytes, fields, error_event, Connection, closed, Outcome, Handled,
  start_session, handle_start, emit_partial, after_chunk, take_audio, handle_audio, stop_session,
  handle_stop, cancel_session, handle_cancel, dispatch, on_error, conclude, websocket_step,
  resolve_final_result, receive_stream_event, decode_websocket_audio, decode_text, is_null,
  lazy_load_failure,
}

-- The error is no client error, or one that closes with 1003.
abbrev pub Plain : StreamError → Type 0
Plain (client_error r code) = code ≡ 1003
Plain e = Unit {0}

abbrev pub Overflows : Connection → Type 0
Overflows c =
    (s : StreamSession) × (chunk : List ℕ) × (c.session ≡ some s)
    × (s.max_buffer_bytes < length s.audio_buffer + length chunk)

-- A client error that closes with another code is one chunk too many.
abbrev Explained : Connection → StreamError → Type 0
Explained c (client_error r code) = (code ≡ 1003) ⊎ ((code ≡ 1009) × Overflows c)
Explained c e = Unit {0}

Plain-Explained : (c : Connection) (e : StreamError) → Plain e → Explained c e
Plain-Explained c (client_error r code) h = inl h
Plain-Explained c e h = tt

plainly :
    {A : Type 0} (c : Connection) (m : Result StreamError A) → Fails Plain m → Fails (Explained c) m
plainly c m h = record { because = λ e raised. Plain-Explained c e (h.because e raised) }

refused : {A : Type 0} (r : Reason) → Fails {A = A} Plain (err (client_error r 1003))
refused r = Fails-err _ refl

require_positive-Plain : (v : Value) (r : Reason) → Fails Plain (require_positive v r)
require_positive-Plain v r = taken (positive_integer v)
  where
    taken :
        (o : Option ℕ) → Fails Plain (elim o [ none ↦ err (client_error r 1003) | some n ↦ ok n ])
    taken none = refused r
    taken (some n) = Fails-ok n

to_float-Plain : (n : ℕ) → Fails Plain (to_float n)
to_float-Plain n = checked (leb float_limit n)
  where
    checked : (b : Bool) → Fails Plain (if b then err unexpected else ok (some (finite (pos n) 0)))
    checked true = Fails-err _ tt
    checked false = Fails-ok _

coerce_positive_seconds-Plain : (v : Value) (r : Reason) → Fails Plain (coerce_positive_seconds v r)
unfolding coerce_positive_seconds
coerce_positive_seconds-Plain null r = Fails-ok _
coerce_positive_seconds-Plain (integer (pos (suc n))) r = to_float-Plain (suc n)
coerce_positive_seconds-Plain (float (finite (pos (suc n)) d)) r = Fails-ok _
coerce_positive_seconds-Plain (float infinity) r = Fails-ok _
coerce_positive_seconds-Plain (float nan) r = Fails-ok _
coerce_positive_seconds-Plain v r = refused r

seconds_to_samples-Plain :
    (seconds : Float) (rate : ℕ) → Fails Plain (seconds_to_samples seconds rate)
unfolding seconds_to_samples
seconds_to_samples-Plain (finite (pos n) d) rate =
    if_case (λ (r : Result StreamError ℕ). Fails Plain r)
      (leb float_limit rate || leb (float_limit * (d + 1)) (n * rate)) (λ _. Fails-err _ tt)
      (λ _. Fails-ok _)
seconds_to_samples-Plain (finite (negsuc n) d) rate =
    if_case (λ (r : Result StreamError ℕ). Fails Plain r) (leb float_limit rate)
      (λ _. Fails-err _ tt) (λ _. Fails-ok _)
seconds_to_samples-Plain nan rate =
    if_case (λ (r : Result StreamError ℕ). Fails Plain r) (leb float_limit rate)
      (λ _. Fails-err _ tt) (λ _. Fails-err _ tt)
seconds_to_samples-Plain f rate = Fails-err _ tt

seconds_to_buffer_bytes-Plain :
    (seconds : Float) (rate : ℕ) → Fails Plain (seconds_to_buffer_bytes seconds rate)
unfolding seconds_to_buffer_bytes
seconds_to_buffer_bytes-Plain seconds rate =
    Fails-bind (seconds_to_samples seconds rate) _ (seconds_to_samples-Plain seconds rate)
      λ n _. Fails-ok _

cut_to-Plain :
    (limit : ℕ) (seconds : Option Float) (rate : ℕ) → Fails Plain (cut_to limit seconds rate)
cut_to-Plain limit none rate = Fails-ok limit
cut_to-Plain limit (some seconds) rate =
    Fails-bind (seconds_to_buffer_bytes seconds rate) _ (seconds_to_buffer_bytes-Plain seconds rate)
      λ n _. Fails-ok _

window_bytes-Plain :
    (limit : ℕ) (seconds : Option Float) (rate : ℕ) → Fails Plain (window_bytes limit seconds rate)
window_bytes-Plain limit none rate = Fails-ok none
window_bytes-Plain limit (some seconds) rate =
    Fails-bind (seconds_to_buffer_bytes seconds rate) _ (seconds_to_buffer_bytes-Plain seconds rate)
      λ n _. Fails-ok _

text_or_null-Plain : (v : Value) → Fails Plain (text_or_null v)
text_or_null-Plain null = Fails-ok none
text_or_null-Plain (string t) = Fails-ok (some t)
text_or_null-Plain v = refused language_not_text

create_stream_session-Plain :
    (payload : Fields) (config : StreamConfig) (id : ℕ)
    → Fails Plain (create_stream_session payload config id)
unfolding create_stream_session
create_stream_session-Plain payload config id =
    let window_value = get "partial_window_seconds" payload in
    let buffer_value = get "max_buffer_seconds" payload in
    let rate_value = get_or "sample_rate" (integer (pos config.sample_rate)) payload in
    let interval_value = get_or "partial_interval_chunks" (integer (pos 1)) payload in
    let language_value = get_or "language" (string (codes "en")) payload in
    let limit = config.stream_max_buffer_bytes in
    Fails-bind (coerce_positive_seconds window_value window_not_positive) _
      (coerce_positive_seconds-Plain window_value window_not_positive)
      λ window _.
        Fails-bind (coerce_positive_seconds buffer_value max_buffer_not_positive) _
          (coerce_positive_seconds-Plain buffer_value max_buffer_not_positive)
          λ buffer _.
            Fails-bind (require_positive rate_value sample_rate_not_positive) _
              (require_positive-Plain rate_value sample_rate_not_positive)
              λ rate _.
                Fails-bind (require_positive interval_value interval_not_positive) _
                  (require_positive-Plain interval_value interval_not_positive)
                  λ interval _.
                    Fails-bind (text_or_null language_value) _ (text_or_null-Plain language_value)
                      λ language _.
                        Fails-bind (cut_to limit buffer rate) _ (cut_to-Plain limit buffer rate)
                          λ bytes _.
                            Fails-bind (window_bytes bytes window rate) _
                              (window_bytes-Plain bytes window rate) λ _ _. Fails-ok _

decode_text-Plain : (lib : Library) (v : Value) → Fails Plain (decode_text lib v)
decode_text-Plain lib (string []) = refused _
decode_text-Plain lib (string (c ∷ t)) = decoded (lib.b64decode (c ∷ t))
  where
    decoded :
        (o : Option (List ℕ))
        → Fails Plain (elim o [ none ↦ err (client_error audio_not_base64 1003) | some b ↦ ok b ])
    decoded none = refused _
    decoded (some b) = Fails-ok b
decode_text-Plain lib v = refused _

decode_websocket_audio-Plain :
    (lib : Library) (p : Payload) → Fails Plain (decode_websocket_audio lib p)
unfolding decode_websocket_audio
decode_websocket_audio-Plain lib (audio_bytes b) = Fails-ok b
decode_websocket_audio-Plain lib (fields d) =
    Fails-bind (raise_if (not (is_null (get "audio_bytes" d))) (client_error audio_not_bytes 1003))
      _ (Fails-raise_if _ _ refl) λ _ _. decode_text-Plain lib _

receive_stream_event-Plain :
    (lib : Library) (m : Incoming) (o : Option StreamSession)
    → Fails Plain (receive_stream_event lib m o)
unfolding receive_stream_event
receive_stream_event-Plain lib (binary b) none = refused _
receive_stream_event-Plain lib (binary b) (some s) = Fails-ok _
receive_stream_event-Plain lib (text none) o = refused _
receive_stream_event-Plain lib (text (some (object d))) o = Fails-ok _
receive_stream_event-Plain lib (text (some v)) o = refused _
receive_stream_event-Plain lib m o = refused _

module _ (lib : Library) (services : Services) (backend : Backend) (c : Connection) where
  -- The backend raises what a backend raises: no client error but one of code 1003.
  abbrev pub IsPlainBackend : Type 0
  IsPlainBackend =
      (audio : List ℕ) (language : Option Text) (rate : ℕ)
      → Fails Plain (backend.transcribe audio language rate)

  start_session-Plain :
      (d : Fields) (o : Option StreamSession) → Fails Plain (start_session services c d o)
  start_session-Plain d (some s) = Fails-err _ tt
  start_session-Plain d none =
      Fails-bind (create_stream_session d services.config c.next_stream_id) _
        (create_stream_session-Plain d services.config c.next_stream_id) λ s _. Fails-ok _

  after_chunk-Plain : (s : StreamSession) → IsPlainBackend → Fails Plain (after_chunk backend c s)
  unfolding after_chunk emit_partial
  after_chunk-Plain s h = elim (Bool-cases (s.chunks_received % s.partial_interval_chunks == 0)) [
    | inl now ↦ rw now (
        Fails-bind (backend.transcribe (partial_audio_bytes s) s.language s.sample_rate) _
          (h (partial_audio_bytes s) s.language s.sample_rate) λ t _. Fails-ok _)
    | inr later ↦ rw later (Fails-ok _)
  ]

  append_audio-Explained :
      (s : StreamSession) (chunk : List ℕ)
      → c.session ≡ some s
      → Fails (Explained c) (append_audio s chunk)
  append_audio-Explained s chunk e = elim (append_audio_lem s chunk) [
    | inl (fits, taken) ↦ rw taken (Fails-ok _)
    | inr (over, raised) ↦ rw raised (Fails-err _ (inr (refl, (s, chunk, e, over))))
  ]

  take_audio-Explained :
      (payload : Payload) (o : Option StreamSession)
      → c.session ≡ o
      → IsPlainBackend
      → Fails (Explained c) (take_audio lib backend c payload o)
  take_audio-Explained payload none e h = Fails-err _ (inl refl)
  take_audio-Explained payload (some s) e h =
      Fails-bind (decode_websocket_audio lib payload) _
        (plainly c _ (decode_websocket_audio-Plain lib payload))
        λ chunk _.
          Fails-bind (append_audio s chunk) _ (append_audio-Explained s chunk e)
            λ t _. plainly c _ (after_chunk-Plain t h)

  resolve_final_result-Plain :
      (s : StreamSession) → IsPlainBackend → Fails Plain (resolve_final_result backend s)
  unfolding resolve_final_result
  resolve_final_result-Plain s h = elim (Option-cases (last_partial_if_reusable s)) [
    | inl none_left ↦
        rw (resolve_final_result, none_left) (h s.audio_buffer s.language s.sample_rate)
    | inr (t, reused) ↦ rw (resolve_final_result, reused) (Fails-ok t)
  ]

  stop_session-Plain :
      (o : Option StreamSession) → IsPlainBackend → Fails Plain (stop_session backend c o)
  stop_session-Plain none h = Fails-err _ refl
  stop_session-Plain (some s) h =
      Fails-bind (raise_if (length s.audio_buffer == 0) (client_error no_audio 1003)) _
        (Fails-raise_if _ _ refl)
        λ _ _.
          Fails-bind (resolve_final_result backend s) _ (resolve_final_result-Plain s h)
            λ t _. Fails-ok _

  cancel_session-Plain : (o : Option StreamSession) → Fails Plain (cancel_session c o)
  cancel_session-Plain none = Fails-err _ refl
  cancel_session-Plain (some s) = Fails-ok _

  dispatch-Explained :
      (event : Payload × EventType)
      → IsPlainBackend
      → Fails (Explained c) (dispatch lib services backend c event)
  unfolding dispatch handle_start handle_audio handle_stop handle_cancel
  dispatch-Explained (audio_bytes b, start) h = Fails-err _ (inl refl)
  dispatch-Explained (fields d, start) h = plainly c _ (start_session-Plain d c.session)
  dispatch-Explained (payload, audio) h = take_audio-Explained payload c.session refl h
  dispatch-Explained (payload, stop) h = plainly c _ (stop_session-Plain c.session h)
  dispatch-Explained (payload, cancel) h = plainly c _ (cancel_session-Plain c.session)
  dispatch-Explained (payload, unknown) h = Fails-err _ (inl refl)

  -- What a close code says of the cause and of what is left.
  abbrev pub Means : StreamError → ℕ → Connection → Type 0
  Means e code after =
      ((code ≡ 1003) × (after ≡ c))
      ⊎ (((code ≡ 1009) × (after ≡ c) × Overflows c)
          ⊎ ((code ≡ 1011)
              × ((e ≡ asr_unavailable) ⊎ (e ≡ unexpected))
              × ((after.preload_error ≡ some e) ⊎ ((after ≡ c) × (backend.is_loaded ≡ true)))))

  abbrev pub Closes : Outcome → Type 0
  Closes o =
      (e : StreamError) × (code : ℕ) × (o.fate ≡ closed code)
      × (o.sent ≡ error_event e code ∷ [])
      × Means e code o.connection

  on_error-Closes : (e : StreamError) → Explained c e → Closes (on_error backend c e)
  unfolding on_error
  on_error-Closes asr_unavailable h = (_, _, refl, refl, inr (inr (refl, inl refl, inl refl)))
  on_error-Closes (client_error r code) (inl same) = (_, _, refl, refl, inl (same, refl))
  on_error-Closes (client_error r code) (inr (same, over)) =
      (_, _, refl, refl, inr (inl (same, refl, over)))
  on_error-Closes (value_error r) h = (_, _, refl, refl, inl (refl, refl))
  on_error-Closes number_error h = (_, _, refl, refl, inl (refl, refl))
  on_error-Closes unexpected h =
      (_, _, refl, refl, inr (inr (refl, inr refl, degraded backend.is_loaded refl)))
    where
      degraded :
          (b : Bool)
          → backend.is_loaded ≡ b
          → ((lazy_load_failure backend c unexpected).preload_error ≡ some unexpected)
            ⊎ ((lazy_load_failure backend c unexpected ≡ c) × (backend.is_loaded ≡ true))
      degraded true e = rw e (inr (refl, refl))
      degraded false e = rw e (inl refl)

  conclude-Closes :
      (m : Handled) (code : ℕ)
      → Fails (Explained c) m
      → (conclude backend c m).fate ≡ closed code
      → Closes (conclude backend c m)
  conclude-Closes (ok (c', events)) code h e = cc
  conclude-Closes (err x) code h e = on_error-Closes x (h.because x refl)

  -- A step that closes the connection sends one event, the error with the close code. 1003 leaves the
  -- stream and the service as they were; so does 1009, which means a chunk beyond the buffer's limit; 1011
  -- means that the backend is unavailable or something unexpected was raised, and is noted as
  -- the service's preload error unless the backend is loaded.
  pub websocket_step-Closes :
      (message : Incoming) (code : ℕ)
      → IsPlainBackend
      → (websocket_step lib services backend c message).fate ≡ closed code
      → Closes (websocket_step lib services backend c message)
  unfolding websocket_step
  websocket_step-Closes disconnect code h e = cc
  websocket_step-Closes m code h e =
      conclude-Closes _ code
        (Fails-bind (receive_stream_event lib m c.session) _
          (plainly c _ (receive_stream_event-Plain lib m c.session))
          λ event _. dispatch-Explained event h)
        e
