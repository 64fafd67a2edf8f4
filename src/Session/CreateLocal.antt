-- ===== src/Session/CreateLocal.antt =====
-- The session of a start message of the Local STT protocol: `_create_local_stt_stream_session` of
-- src/main.py, and the intervals that `_parse_local_stt_start_message` works out.
use rtc_asr.Prelude.{
  ℕ, zero, suc, ◌+◌, ◌-◌, ◌*◌, ◌/◌, ◌^◌, ◌≤◌, ◌<◌, ◌≡◌, refl, max, Bool, true, false, leb, ltb,
  if◌then◌else◌, Option, none, some, [], arith, Result, ok, err, ◌>>=◌, Ensures, Ensures-bind,
  Ensures-ok,
}
use rtc_asr.Prelude.Rounding.{round_half_even}
use native.Mathlib.Nat.{div-add-mod'}
use rtc_asr.Text.{Text}
use rtc_asr.Json.{Float, Fields, Value}
use rtc_asr.Session.{StreamSession, StreamError, rolling_window, unexpected, interval_not_positive}
use rtc_asr.Session.Create.{StreamConfig, cut_to, float_limit, window_bytes, require_positive}
use rtc_asr.Session.Bounds.{IsNew, cut_to_bounds, window_bytes_bounds}

-- The fields of `LocalSttStartConfig` and of its start message that a session takes.
pub record LocalSttStartConfig : Type 0 where
  pub sample_rate : ℕ
  pub language : Option Text
  pub interim_results : Bool
  pub partial_interval_chunks : ℕ
  pub partial_interval_audio_ms : Option ℕ
  pub partial_window_seconds : Option Float
  pub max_buffer_seconds : Option Float
  pub finalize_on_stable_partial : Bool
  pub stable_partial_cycles : ℕ
  pub client_stream_id : Option Text
  pub client_metadata : Fields

-- The integers below it are doubles.
abbrev pub exact_limit : ℕ
exact_limit = 2 ^ 53

abbrev pub ceil_div : ℕ → ℕ → ℕ
ceil_div a b = (a + (b - 1)) / b

-- The number of times that 2 divides into `q`, if that is at most the fuel.
unfoldable pub log_two : ℕ → ℕ → ℕ
log_two zero q = 0
log_two (suc fuel) q = let rest = log_two fuel (q / 2) in if ltb q 2 then 0 else rest + 1

-- The ceiling of the double nearest to a quotient between 2 ^ e and 2 ^ (e + 1): of its 53 digits, those
-- before the point are whole.
abbrev pub ceil_scaled : ℕ → ℕ → ℕ → ℕ
ceil_scaled a b e =
    if leb 52 e
    then round_half_even a (b * 2 ^ (e - 52)) * 2 ^ (e - 52)
    else ceil_div (round_half_even (a * 2 ^ (52 - e)) b) (2 ^ (52 - e))

-- `math.ceil(ms / frame_ms)`, where `/` gives the nearest double, or `OverflowError` where there is none.
-- Below 2 ^ 53 a double between two whole numbers is nearest to no quotient but one between them.
unfoldable pub ceil_quotient : ℕ → ℕ → Result StreamError ℕ
ceil_quotient ms frame_ms =
    if leb (float_limit * frame_ms) ms
    then err unexpected
    else if ltb ms exact_limit
    then ok (ceil_div ms frame_ms)
    else if ltb ms frame_ms
    then ok 1
    else ok (ceil_scaled ms frame_ms (log_two 1024 (ms / frame_ms)))

-- The chunks and the milliseconds between two partial results: from the requested milliseconds, or from
-- the older field that counts chunks, where it is there and not null.
unfoldable pub partial_intervals : Option ℕ → Option Value → ℕ → Result StreamError (ℕ × Option ℕ)
partial_intervals (some ms) legacy frame_ms = do
  quotient ← ceil_quotient ms frame_ms
  ok (max 1 quotient, some (max 1 quotient * frame_ms))
partial_intervals none (some v) frame_ms = do
  chunks ← require_positive v interval_not_positive
  ok (chunks, none)
partial_intervals none none frame_ms = ok (1, none)

unfoldable pub create_local_stt_stream_session :
    LocalSttStartConfig → StreamConfig → ℕ → Result StreamError StreamSession
create_local_stt_stream_session payload config stream_id = do
  max_buffer_bytes ←
      cut_to config.stream_max_buffer_bytes payload.max_buffer_seconds payload.sample_rate
  partial_window_bytes ←
      window_bytes max_buffer_bytes payload.partial_window_seconds payload.sample_rate
  ok (record {
    stream_id = stream_id;
    language = payload.language;
    sample_rate = payload.sample_rate;
    max_buffer_bytes = max_buffer_bytes;
    partial_interval_chunks = payload.partial_interval_chunks;
    partial_interval_audio_ms = payload.partial_interval_audio_ms;
    partial_window_seconds = payload.partial_window_seconds;
    max_buffer_seconds = payload.max_buffer_seconds;
    partial_window_bytes = partial_window_bytes;
    interim_results = payload.interim_results;
    finalize_on_stable_partial = payload.finalize_on_stable_partial;
    stable_partial_cycles = payload.stable_partial_cycles;
    client_stream_id = payload.client_stream_id;
    client_metadata = payload.client_metadata;
    decoder_mode = rolling_window;
    audio_buffer = [];
    chunks_received = 0;
    last_partial_chunks_received = 0;
    last_partial_audio_received_ms = 0;
    last_partial_result = none;
    stable_partial_text = none;
    stable_partial_count = 0;
    transcript_revision = 0;
  })

pub create_local-number :
    (payload : LocalSttStartConfig) (config : StreamConfig) (id : ℕ)
    → Ensures
        (λ (s : StreamSession). (s.stream_id ≡ id) × (s.transcript_revision ≡ 0))
        (create_local_stt_stream_session payload config id)
unfolding create_local_stt_stream_session
create_local-number payload config id =
    Ensures-bind
      (cut_to config.stream_max_buffer_bytes payload.max_buffer_seconds payload.sample_rate) _
      λ limit el.
        Ensures-bind (window_bytes limit payload.partial_window_seconds payload.sample_rate) _
          λ window ew. Ensures-ok _ (refl, refl)

create_local-Ensures :
    (payload : LocalSttStartConfig) (config : StreamConfig) (id : ℕ)
    → 0 < config.stream_max_buffer_bytes
    → 0 < payload.sample_rate
    → 0 < payload.partial_interval_chunks
    → Ensures (IsNew config id) (create_local_stt_stream_session payload config id)
unfolding create_local_stt_stream_session
create_local-Ensures payload config id p rate interval =
    Ensures-bind
      (cut_to config.stream_max_buffer_bytes payload.max_buffer_seconds payload.sample_rate) _
      λ limit el.
        Ensures-bind (window_bytes limit payload.partial_window_seconds payload.sample_rate) _
          λ window ew.
            let (limit_pos, limit_le) =
              cut_to_bounds config.stream_max_buffer_bytes payload.max_buffer_seconds
                payload.sample_rate limit p el in
            let window_ok =
              window_bytes_bounds limit payload.partial_window_seconds payload.sample_rate window
                limit_pos ew in
            Ensures-ok _ (record {
              well_formed = record {
                within = omega arith;
                window = window_ok;
                interval = interval;
                rate = rate;
              };
              limited = limit_le;
              silent = refl;
              uncounted = refl;
              no_result = refl;
              no_partial = refl;
              numbered = refl;
            })

-- Whatever start configuration is accepted, with a positive rate and interval and a positive
-- configured limit: the session is well formed, starts empty with the given number, and its limit is at
-- most the configured one.
pub create_local_stt_stream_session-IsNew :
    (payload : LocalSttStartConfig) (config : StreamConfig) (id : ℕ) (s : StreamSession)
    → 0 < config.stream_max_buffer_bytes
    → 0 < payload.sample_rate
    → 0 < payload.partial_interval_chunks
    → create_local_stt_stream_session payload config id ≡ ok s
    → IsNew config id s
create_local_stt_stream_session-IsNew payload config id s p rate interval =
    (create_local-Ensures payload config id p rate interval).at s

quotient_pos : (q frame_ms ms : ℕ) → 0 < ms → ms ≤ q * frame_ms → 0 < q
quotient_pos zero frame_ms ms h covers = ground arith
quotient_pos (suc q) frame_ms ms h covers = omega arith

ceil_div_bounds :
    (ms frame_ms : ℕ)
    → 0 < ms
    → 0 < frame_ms
    → (0 < ceil_div ms frame_ms)
      × (ms ≤ ceil_div ms frame_ms * frame_ms)
      × (ceil_div ms frame_ms * frame_ms < ms + frame_ms)
ceil_div_bounds ms frame_ms h f =
    let n = ms + (frame_ms - 1) in
    let parts = div-add-mod' n frame_ms in
    let covers : ms ≤ n / frame_ms * frame_ms = grind (arith, parts) in
    let below : n / frame_ms * frame_ms < ms + frame_ms = grind (arith, parts) in
    (quotient_pos (n / frame_ms) frame_ms ms h covers, covers, below)

below_limit : leb float_limit exact_limit ≡ false
below_limit = refl

-- A limit is not reached by fewer than that many, times a frame.
not_over :
    (limit exact ms frame_ms : ℕ)
    → leb limit exact ≡ false
    → ms < exact
    → 0 < frame_ms
    → leb (limit * frame_ms) ms ≡ false
not_over limit exact ms zero below small f = ground arith
not_over limit exact ms (suc k) below small f = ground arith

exact_quotient :
    (ms frame_ms : ℕ)
    → ms < exact_limit
    → 0 < frame_ms
    → ceil_quotient ms frame_ms ≡ ok (ceil_div ms frame_ms)
unfolding ceil_quotient
exact_quotient ms frame_ms small f =
    let within : ltb ms exact_limit ≡ true = ground arith in
    rw (not_over float_limit exact_limit ms frame_ms below_limit small f, within) refl

-- What a request of some milliseconds, fewer than 2 ^ 53, comes to: whole frames, one at least, that last as long
-- as requested and less than a frame longer.
pub partial_intervals_lem :
    (ms frame_ms : ℕ) (legacy : Option Value)
    → 0 < ms
    → ms < exact_limit
    → 0 < frame_ms
    → (chunks : ℕ) × (partial_intervals (some ms) legacy frame_ms
        ≡ ok (chunks, some (chunks * frame_ms)))
      × (0 < chunks)
      × (ms ≤ chunks * frame_ms)
      × (chunks * frame_ms < ms + frame_ms)
unfolding partial_intervals
partial_intervals_lem ms frame_ms legacy h small f =
    let (q_pos, covers, below) = ceil_div_bounds ms frame_ms h f in
    let one : max 1 (ceil_div ms frame_ms) ≡ ceil_div ms frame_ms = omega arith in
    rw (exact_quotient ms frame_ms small f, one) (ceil_div ms frame_ms, refl, q_pos, covers, below)
