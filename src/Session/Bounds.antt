-- ===== src/Session/Bounds.antt =====
-- The limits of a session: what its buffer may hold, what its window covers, how its clock runs.
use rtc_asr.Prelude.{
  ℕ, suc, ◌+◌, ◌*◌, ◌-◌, ◌≤◌, ◌<◌, ◌≡◌, refl, ap, ◌⊎◌, inl, inr, Option, none, some, List, [], ◌++◌,
  length, length-append, length-drop, drop, take, take-append-drop, min, arith, ok, err, leb, ◌==◌,
  bind_returned, Ensures, Ensures-bind, Ensures-ok, Bool-cases, zero,
}
use rtc_asr.Prelude.Rounding.{round_half_even_mono}
use rtc_asr.Prelude.Int.{pos}
use rtc_asr.Json.{Float, Fields, Value, integer, string, get, get_or}
use rtc_asr.Text.{codes}
use rtc_asr.Session.{
  StreamSession, client_error, buffer_exceeded, append_audio, audio_bytes_to_duration_ms,
  partial_audio_bytes, windowed, Reason, window_not_positive, max_buffer_not_positive,
  sample_rate_not_positive, interval_not_positive,
}
use rtc_asr.Session.Create.{
  StreamConfig, create_stream_session, cut_to, window_bytes, seconds_to_buffer_bytes,
  seconds_to_samples, positive_integer, require_positive, coerce_positive_seconds, text_or_null,
}

abbrev pub IsWindow : ℕ → Option ℕ → Type 0
IsWindow limit none = Unit {0}
IsWindow limit (some w) = (0 < w) × (w ≤ limit)

-- A session as the program keeps it: the buffer within its limit, the window within that limit and
-- of one byte at least, and positive intervals and rates.
pub record IsWellFormed (s : StreamSession) : Type 0 where
  pub within : length s.audio_buffer ≤ s.max_buffer_bytes
  pub window : IsWindow s.max_buffer_bytes s.partial_window_bytes
  pub interval : 0 < s.partial_interval_chunks
  pub rate : 0 < s.sample_rate

-- A chunk is taken exactly if it fits. Then it is the end of the buffer and one more chunk is
-- counted; the limit stays. If it does not fit, the error closes with 1009.
pub append_audio_lem :
    (s : StreamSession) (chunk : List ℕ)
    → ((length s.audio_buffer + length chunk ≤ s.max_buffer_bytes)
        × (append_audio s chunk
            ≡ ok (record s {
              audio_buffer = s.audio_buffer ++ chunk;
              chunks_received = s.chunks_received + 1;
            })))
      ⊎ ((s.max_buffer_bytes < length s.audio_buffer + length chunk)
          × (append_audio s chunk ≡ err (client_error buffer_exceeded 1009)))
unfolding append_audio
append_audio_lem s chunk = ground arith

pub append_audio-IsWellFormed :
    (s t : StreamSession) (chunk : List ℕ)
    → IsWellFormed s
    → append_audio s chunk ≡ ok t
    → IsWellFormed t
append_audio-IsWellFormed s t chunk v e = elim (append_audio_lem s chunk) [
  | inl (fits, taken) ↦
      let same : record s {
        audio_buffer = s.audio_buffer ++ chunk;
        chunks_received = s.chunks_received + 1;
      }
          ≡ t =
        cc in
      rw (← same) (record {
        within = omega (arith, length-append s.audio_buffer chunk);
        window = v.window;
        interval = v.interval;
        rate = v.rate;
      })
  | inr (over, refused) ↦ cc
]

-- More bytes never make a shorter duration.
pub audio_bytes_to_duration_ms_mono :
    (m n rate : ℕ) → m ≤ n → audio_bytes_to_duration_ms m rate ≤ audio_bytes_to_duration_ms n rate
unfolding audio_bytes_to_duration_ms
audio_bytes_to_duration_ms_mono m n rate h =
    ground (arith, round_half_even_mono (m * 1000) (n * 1000) (2 * rate))

suffix_of_drop : (n : ℕ) (xs : List ℕ) → (front : List ℕ) × (front ++ drop n xs ≡ xs)
suffix_of_drop n xs = (take n xs, take-append-drop n xs)

windowed-suffix : (w : Option ℕ) (buf : List ℕ) → (front : List ℕ) × (front ++ windowed w buf ≡ buf)
windowed-suffix none buf = ([], refl)
windowed-suffix (some w) buf = elim (Bool-cases (leb (length buf) w)) [
  | inl fits ↦ rw fits ([], refl)
  | inr longer ↦ elim (Bool-cases (w == 0)) [
    | inl zero_window ↦ rw (longer, zero_window) ([], refl)
    | inr some_window ↦ rw (longer, some_window) (suffix_of_drop (length buf - w) buf)
  ]
]

-- A partial decode reads the end of the buffer.
pub partial_audio_bytes-suffix :
    (s : StreamSession) → (front : List ℕ) × (front ++ partial_audio_bytes s ≡ s.audio_buffer)
unfolding partial_audio_bytes
partial_audio_bytes-suffix s = windowed-suffix s.partial_window_bytes s.audio_buffer

length-windowed :
    (w : ℕ) (buf : List ℕ) → 0 < w → length (windowed (some w) buf) ≡ min w (length buf)
length-windowed w buf h = ground (arith, length-drop (length buf - w) buf)

-- With a window a partial decode reads the window's number of bytes, or the whole buffer while it
-- is shorter; it always reads an end of the buffer, and never more than the buffer.
pub partial_audio_bytes_lem :
    (s : StreamSession) (w : ℕ)
    → IsWellFormed s
    → s.partial_window_bytes ≡ some w
    → ((front : List ℕ) × (front ++ partial_audio_bytes s ≡ s.audio_buffer))
      × (length (partial_audio_bytes s) ≡ min w (length s.audio_buffer))
unfolding partial_audio_bytes
partial_audio_bytes_lem s w v e =
    let window : IsWindow s.max_buffer_bytes (some w) = rw e at v.window in
    (partial_audio_bytes-suffix s, rw e (length-windowed w s.audio_buffer window.0))

pub length-partial_audio_bytes :
    (s : StreamSession) → length (partial_audio_bytes s) ≤ length s.audio_buffer
length-partial_audio_bytes s =
    let (front, e) = partial_audio_bytes-suffix s in
    omega (arith, ap length e, length-append front (partial_audio_bytes s))

require_positive-pos : (v : Value) (r : Reason) (n : ℕ) → require_positive v r ≡ ok n → 0 < n
unfolding positive_integer
require_positive-pos (integer (pos zero)) r n h = cc
require_positive-pos (integer (pos (suc k))) r n h = ground arith
require_positive-pos v r n h = cc

seconds_to_buffer_bytes-pos :
    (seconds : Float) (rate n : ℕ) → seconds_to_buffer_bytes seconds rate ≡ ok n → 0 < n
unfolding seconds_to_buffer_bytes
seconds_to_buffer_bytes-pos seconds rate n h =
    let (count, e, _) = bind_returned _ (seconds_to_samples seconds rate) h in ground arith

pub cut_to_bounds :
    (limit : ℕ) (seconds : Option Float) (rate n : ℕ)
    → 0 < limit
    → cut_to limit seconds rate ≡ ok n
    → (0 < n) × (n ≤ limit)
cut_to_bounds limit none rate n p h = ground arith
cut_to_bounds limit (some seconds) rate n p h =
    let (k, e, d) = bind_returned _ (seconds_to_buffer_bytes seconds rate) h in
    ground (arith, seconds_to_buffer_bytes-pos seconds rate k d)

pub window_bytes_bounds :
    (limit : ℕ) (seconds : Option Float) (rate : ℕ) (o : Option ℕ)
    → 0 < limit
    → window_bytes limit seconds rate ≡ ok o
    → IsWindow limit o
window_bytes_bounds limit none rate none p h = tt
window_bytes_bounds limit none rate (some w) p h = cc
window_bytes_bounds limit (some seconds) rate o p h =
    let (k, f, d) = bind_returned _ (seconds_to_buffer_bytes seconds rate) h in
    let same : some (min limit k) ≡ o = cc in
    rw (← same) (ground (arith, seconds_to_buffer_bytes-pos seconds rate k d))

-- What holds of a session that has just been made.
pub record IsNew (config : StreamConfig) (id : ℕ) (s : StreamSession) : Type 0 where
  pub well_formed : IsWellFormed s
  pub limited : s.max_buffer_bytes ≤ config.stream_max_buffer_bytes
  pub silent : s.audio_buffer ≡ []
  pub uncounted : s.chunks_received ≡ 0
  pub no_result : s.last_partial_result ≡ none
  pub no_partial : s.last_partial_chunks_received ≡ 0
  pub numbered : s.stream_id ≡ id

create_stream_session-Ensures :
    (payload : Fields) (config : StreamConfig) (id : ℕ)
    → 0 < config.stream_max_buffer_bytes
    → Ensures (IsNew config id) (create_stream_session payload config id)
unfolding create_stream_session
create_stream_session-Ensures payload config id p =
    Ensures-bind
      (coerce_positive_seconds (get "partial_window_seconds" payload) window_not_positive) _
      λ window_seconds _.
        Ensures-bind
          (coerce_positive_seconds (get "max_buffer_seconds" payload) max_buffer_not_positive) _
          λ buffer_seconds _.
            Ensures-bind
              (require_positive (get_or "sample_rate" (integer (pos config.sample_rate)) payload)
                sample_rate_not_positive)
              _
              λ rate er.
                Ensures-bind
                  (require_positive (get_or "partial_interval_chunks" (integer (pos 1)) payload)
                    interval_not_positive)
                  _
                  λ interval ei.
                    Ensures-bind (text_or_null (get_or "language" (string (codes "en")) payload)) _
                      λ language _.
                        Ensures-bind (cut_to config.stream_max_buffer_bytes buffer_seconds rate) _
                          λ limit el.
                            Ensures-bind (window_bytes limit window_seconds rate) _ λ window ew.
                              let (limit_pos, limit_le) =
                                cut_to_bounds config.stream_max_buffer_bytes buffer_seconds rate
                                  limit p el in
                              let window_ok =
                                window_bytes_bounds limit window_seconds rate window limit_pos ew in
                              let rate_pos =
                                require_positive-pos _ sample_rate_not_positive rate er in
                              let interval_pos =
                                require_positive-pos _ interval_not_positive interval ei in
                              Ensures-ok _ (record {
                                well_formed = record {
                                  within = omega arith;
                                  window = window_ok;
                                  interval = interval_pos;
                                  rate = rate_pos;
                                };
                                limited = limit_le;
                                silent = refl;
                                uncounted = refl;
                                no_result = refl;
                                no_partial = refl;
                                numbered = refl;
                              })

-- Whatever start event is accepted, the session is well formed, starts empty with the given number,
-- and its limit is at most the configured one, provided that one is positive.
pub create_stream_session-IsNew :
    (payload : Fields) (config : StreamConfig) (id : ℕ) (s : StreamSession)
    → 0 < config.stream_max_buffer_bytes
    → create_stream_session payload config id ≡ ok s
    → IsNew config id s
create_stream_session-IsNew payload config id s p =
    (create_stream_session-Ensures payload config id p).at s
